-- ===== src/External/IndexMap/Entries.antt =====
-- Facts on the entries of an index map: positions, and taking an entry out by a swap.
use mathlib.Core.List.{append_assoc}
use xmrgateway.Prelude.{
  false, sym, subst, suc, ◌≡◌, refl, none, some, List, [], ◌∷◌, ◌++◌, Eq, ◌==◌, length, get_elem?,
  arith, beq_refl,
}
use xmrgateway.Std.HashMap.{lookup, Distinct}
use xmrgateway.External.IndexMap.{last_first, rotate_last, swap_removed}

module _ {ℓ} {A : Type ℓ} where
  pub get_elem?-append_none : (xs : List A) → get_elem? (xs ++ []) (length xs) ≡ none
  get_elem?-append_none [] = refl
  get_elem?-append_none (x ∷ xs) = get_elem?-append_none xs

  pub get_elem?-append_some :
      (xs ys : List A) (y : A) → get_elem? (xs ++ y ∷ ys) (length xs) ≡ some y
  get_elem?-append_some [] ys y = refl
  get_elem?-append_some (x ∷ xs) ys y = get_elem?-append_some xs ys y

  length-last_first : (x : A) (xs : List A) → length (last_first x xs) ≡ suc (length xs)
  length-last_first x [] = refl
  length-last_first x (y ∷ ys) = ground (arith, length-last_first y ys)

  pub length-rotate_last : (xs : List A) → length (rotate_last xs) ≡ length xs
  length-rotate_last [] = refl
  length-rotate_last (x ∷ xs) = length-last_first x xs

module _ {ℓ κ} {K : Type ℓ} ⦃e : Eq K⦄ {V : Type κ} where
  lookup-append_none :
      (j : K) (P R : List (K × V))
      → lookup j (P ++ R) ≡ none
      → (lookup j P ≡ none) × (lookup j R ≡ none)
  unfolding lookup
  lookup-append_none j [] R h = (refl, h)
  lookup-append_none j ((i, v) ∷ P) R h = ground (arith, lookup-append_none j P R)

  append_none-lookup :
      (j : K) (P R : List (K × V))
      → lookup j P ≡ none
      → lookup j R ≡ none
      → lookup j (P ++ R) ≡ none
  unfolding lookup
  append_none-lookup j [] R h k = k
  append_none-lookup j ((i, v) ∷ P) R h k = ground (arith, append_none-lookup j P R)

  lookup-last_first :
      (j : K) (x : K × V) (R : List (K × V))
      → lookup j (x ∷ R) ≡ none
      → lookup j (last_first x R) ≡ none
  unfolding lookup
  lookup-last_first j x [] h = h
  lookup-last_first j x (y ∷ R) h = ground (arith, lookup-last_first j y R)

  lookup-rotate_last :
      (j : K) (R : List (K × V)) → lookup j R ≡ none → lookup j (rotate_last R) ≡ none
  lookup-rotate_last j [] h = h
  lookup-rotate_last j (x ∷ R) h = lookup-last_first j x R h

  last_first-Distinct :
      (x : K × V) (R : List (K × V)) → Distinct (x ∷ R) → Distinct (last_first x R)
  unfolding lookup
  last_first-Distinct x [] d = d
  last_first-Distinct x (y ∷ R) d =
      go (last_first y R) (last_first-Distinct y R d.1) (lookup-last_first x.0 y R d.0)
    where
      go :
          (l : List (K × V))
          → Distinct l
          → lookup x.0 l ≡ none
          → Distinct (elim l [ [] ↦ x ∷ [] | z ∷ zs ↦ z ∷ x ∷ zs ])
      go [] h k = (refl, tt)
      go ((i, v) ∷ zs) h k = ground (arith, e.beq_iff i x.0, e.beq_iff x.0 i)

  rotate_last-Distinct : (R : List (K × V)) → Distinct R → Distinct (rotate_last R)
  rotate_last-Distinct [] d = d
  rotate_last-Distinct (x ∷ R) d = last_first-Distinct x R d

  -- A key that two parts of the entries share would stand twice.
  other_key :
      (k : K) (v : V) (j : K) (P R : List (K × V))
      → lookup j (P ++ (k, v) ∷ R) ≡ none
      → (j == k) ≡ false
  unfolding lookup
  other_key k v j P R h =
      ground (arith, lookup-append_none j P ((k, v) ∷ R), e.beq_iff j k, e.beq_iff k j)

  -- Taking an entry out behind others: they stay, and the entries after it are rotated.
  pub swap_removed-append :
      (k : K) (v : V) (P R : List (K × V))
      → Distinct (P ++ (k, v) ∷ R)
      → swap_removed k (P ++ (k, v) ∷ R) ≡ P ++ rotate_last R
  swap_removed-append k v [] R d = rw (beq_refl k)
  swap_removed-append k v ((j, u) ∷ P) R d =
      rw (other_key k v j P R d.0, swap_removed-append k v P R d.1)

  rotated_lookup :
      (j k : K) (v : V) (P R : List (K × V))
      → lookup j (P ++ (k, v) ∷ R) ≡ none
      → lookup j (P ++ rotate_last R) ≡ none
  rotated_lookup j k v P R h =
      let (before, behind) = lookup-append_none j P ((k, v) ∷ R) h in
      append_none-lookup j P (rotate_last R) before
        (lookup-rotate_last j R (unfold lookup in ground arith))

  pub rotated-Distinct :
      (k : K) (v : V) (P R : List (K × V))
      → Distinct (P ++ (k, v) ∷ R)
      → Distinct (P ++ rotate_last R)
  rotated-Distinct k v [] R d = rotate_last-Distinct R d.1
  rotated-Distinct k v ((j, u) ∷ P) R d =
      (rotated_lookup j k v P R d.0, rotated-Distinct k v P R d.1)

  pub remaining-Distinct :
      (P : List (K × V)) (x : K × V) (R : List (K × V))
      → Distinct (P ++ x ∷ R)
      → Distinct ((P ++ x ∷ []) ++ R)
  remaining-Distinct P x R d = subst Distinct (sym (append_assoc P (x ∷ []) R)) d
