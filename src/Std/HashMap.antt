-- ===== src/Std/HashMap.antt =====
-- `std::collections::HashMap` as an association list with one entry for each key. The order of the
-- entries is the list's; the program never depends on it.
use xmrgateway.Prelude.{
  inl, inr, suc, not, option_is_none, ◌&&◌, ◌||◌, ◌≡◌, refl, Bool, Option, none, some, List, [],
  ◌∷◌, Eq, ◌==◌, length, if◌then◌else◌, arith, beq_refl, beq_true, Bool-cases,
}

module _ {ℓ κ} {K : Type ℓ} ⦃e : Eq K⦄ {V : Type κ} where
  -- `get`
  unfoldable pub lookup : K → List (K × V) → Option V
  lookup k [] = none
  lookup k ((j, v) ∷ m) = if j == k then some v else lookup k m

  -- `remove`, without the value that it removes
  unfoldable pub remove : K → List (K × V) → List (K × V)
  remove k [] = []
  remove k ((j, w) ∷ m) = if j == k then remove k m else (j, w) ∷ remove k m

  -- `insert`, without the value that it replaces
  unfoldable pub insert : K → V → List (K × V) → List (K × V)
  insert k v [] = (k, v) ∷ []
  insert k v ((j, w) ∷ m) = if j == k then (k, v) ∷ m else (j, w) ∷ insert k v m

  -- `extend`: later entries replace earlier ones
  unfoldable pub extend : List (K × V) → List (K × V) → List (K × V)
  unfolding insert
  extend m [] = m
  extend m ((k, v) ∷ n) = extend (insert k v m) n

  -- `retain` with a test on the key
  unfoldable pub retain_keys : (K → Bool) → List (K × V) → List (K × V)
  retain_keys p [] = []
  retain_keys p ((k, v) ∷ m) = if p k then (k, v) ∷ retain_keys p m else retain_keys p m

  -- No key stands twice.
  abbrev pub Distinct : List (K × V) → Type κ
  Distinct [] = Unit
  Distinct ((k, v) ∷ m) = (lookup k m ≡ none) × Distinct m

  pub lookup-insert :
      (new asked : K) (v : V) (l : List (K × V))
      → lookup asked (insert new v l) ≡ (if new == asked then some v else lookup asked l)
  unfolding lookup insert
  lookup-insert new asked v [] = refl
  lookup-insert new asked v ((i, w) ∷ l) =
      ground (
        arith,
        e.beq_iff i new,
        e.beq_iff new asked,
        e.beq_iff i asked,
        lookup-insert new asked v l,
      )

  pub lookup-remove :
      (k j : K) (m : List (K × V)) → lookup j (remove k m) ≡ (if k == j then none else lookup j m)
  unfolding lookup remove
  lookup-remove k j [] = ground arith
  lookup-remove k j ((i, w) ∷ m) =
      ground (arith, e.beq_iff k j, e.beq_iff i k, e.beq_iff i j, lookup-remove k j m)

  pub lookup-retain_keys :
      (p : K → Bool) (j : K) (m : List (K × V))
      → lookup j (retain_keys p m) ≡ (if p j then lookup j m else none)
  unfolding lookup retain_keys
  lookup-retain_keys p j [] = ground arith
  lookup-retain_keys p j ((i, w) ∷ m) = elim (Bool-cases (i == j)) [
    | inl same ↦ ground (arith, beq_true i j same, lookup-retain_keys p j m)
    | inr other ↦ ground (arith, lookup-retain_keys p j m)
  ]

  pub insert-Distinct : (k : K) (v : V) (m : List (K × V)) → Distinct m → Distinct (insert k v m)
  unfolding lookup insert
  insert-Distinct k v [] h = (refl, tt)
  insert-Distinct k v ((i, w) ∷ m) h =
      ground (arith, e.beq_iff i k, e.beq_iff k i, lookup-insert k i v m, insert-Distinct k v m h.1)

  pub remove-Distinct : (k : K) (m : List (K × V)) → Distinct m → Distinct (remove k m)
  unfolding lookup remove
  remove-Distinct k [] h = tt
  remove-Distinct k ((i, w) ∷ m) h =
      ground (arith, e.beq_iff i k, e.beq_iff k i, lookup-remove k i m, remove-Distinct k m h.1)

  remove_absent : (k : K) (m : List (K × V)) → lookup k m ≡ none → remove k m ≡ m
  unfolding lookup remove
  remove_absent k [] h = refl
  remove_absent k ((i, w) ∷ m) h = ground (arith, remove_absent k m)

  pub length-remove :
      (k : K) (v : V) (m : List (K × V))
      → Distinct m
      → lookup k m ≡ some v
      → length m ≡ suc (length (remove k m))
  unfolding lookup remove
  length-remove k v [] d h = cc
  length-remove k v ((i, w) ∷ m) d h =
      ground (arith, e.beq_iff i k, remove_absent k m, length-remove k v m d.1)

module _ {ℓ κ} {K : Type ℓ} ⦃e : Eq K⦄ {V : Type κ} where
  head_lookup :
      (i : K) (w : V) (m n : List (K × V))
      → ((k : K) → lookup k ((i, w) ∷ m) ≡ lookup k n)
      → lookup i n ≡ some w
  unfolding lookup
  head_lookup i w m n h = ground (arith, h i, beq_refl i)

  tail_lookup :
      (i : K) (w : V) (m n : List (K × V))
      → lookup i m ≡ none
      → ((k : K) → lookup k ((i, w) ∷ m) ≡ lookup k n)
      → (k : K) → lookup k m ≡ lookup k (remove i n)
  unfolding lookup
  tail_lookup i w m n d h k = ground (arith, h k, lookup-remove i k n, e.beq_iff i k)

  -- Two maps with the same entries have the same number of them.
  pub length_of_same :
      (m n : List (K × V))
      → Distinct m
      → Distinct n
      → ((k : K) → lookup k m ≡ lookup k n)
      → length m ≡ length n
  unfolding lookup
  length_of_same [] [] dm dn h = refl
  length_of_same [] ((i, w) ∷ n) dm dn h = ground (arith, h i, beq_refl i)
  length_of_same ((i, w) ∷ m) n dm dn h = omega (
    arith,
    length_of_same m (remove i n) dm.1 (remove-Distinct i n dn) (tail_lookup i w m n dm.0 h),
    length-remove i w n dn (head_lookup i w m n h),
  )

  subset_tail :
      (i : K) (w : V) (m n : List (K × V))
      → lookup i m ≡ none
      → ((k : K) (v : V) → lookup k ((i, w) ∷ m) ≡ some v → lookup k n ≡ some v)
      → (k : K) (v : V) → lookup k m ≡ some v
      → lookup k (remove i n) ≡ some v
  unfolding lookup
  subset_tail i w m n d h k v g = ground (arith, h k v, lookup-remove i k n, e.beq_iff i k)

  -- A map whose entries all stand in another map of its size has the other's entries.
  pub same_of_subset :
      (m n : List (K × V))
      → Distinct m
      → Distinct n
      → length m ≡ length n
      → ((k : K) (v : V) → lookup k m ≡ some v → lookup k n ≡ some v)
      → (k : K) → lookup k m ≡ lookup k n
  unfolding lookup
  same_of_subset [] [] dm dn q h k = refl
  same_of_subset [] ((i, w) ∷ n) dm dn q h k = absurd (omega arith)
  same_of_subset ((i, w) ∷ m) n dm dn q h k =
      let found : lookup i n ≡ some w = ground (arith, h i w, beq_refl i) in
      let shorter : length m ≡ length (remove i n) = omega (arith, length-remove i w n dn found) in
      let rest : lookup k m ≡ lookup k (remove i n) =
        same_of_subset m (remove i n) dm.1 (remove-Distinct i n dn) shorter
          (subset_tail i w m n dm.0 h) k in
      ground (arith, lookup-remove i k n, e.beq_iff i k, dm.0)

module _ {ℓ κ} {K : Type ℓ} ⦃e : Eq K⦄ {V : Type κ} where
  -- `contains_key`
  abbrev pub contains_key : K → List (K × V) → Bool
  contains_key k m = not (option_is_none (lookup k m))

  contains_key-insert :
      (k j : K) (v : V) (m : List (K × V))
      → contains_key k (insert j v m) ≡ (j == k || contains_key k m)
  contains_key-insert k j v m =
      rw (lookup-insert j k v m)
        (elim (Bool-cases (j == k)) [ inl same ↦ rw same refl | inr away ↦ rw away refl ])

  pub contains_key-extend :
      (k : K) (m n : List (K × V))
      → contains_key k (extend m n) ≡ (contains_key k m || contains_key k n)
  unfolding extend lookup
  contains_key-extend k m [] = ground arith
  contains_key-extend k m ((j, v) ∷ n) =
      ground (arith, contains_key-extend k (insert j v m) n, contains_key-insert k j v m)

  pub contains_key-retain_keys :
      (p : K → Bool) (k : K) (m : List (K × V))
      → contains_key k (retain_keys p m) ≡ (p k && contains_key k m)
  contains_key-retain_keys p k m =
      rw (lookup-retain_keys p k m)
        (elim (Bool-cases (p k)) [ inl in_it ↦ rw in_it refl | inr out ↦ rw out refl ])
