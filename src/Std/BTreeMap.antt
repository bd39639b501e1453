-- ===== src/Std/BTreeMap.antt =====
-- `std::collections::BTreeMap` as a list of entries in the order of their keys.
use xmrgateway.Prelude.{
  ◌≡◌, ◌≢◌, refl, Bool, true, false, Option, none, some, List, [], ◌∷◌, Ord, Ordering, arith, All,
  Ordering-cases, inl, inr,
}

module _ {ℓ κ} {K : Type ℓ} ⦃o : Ord K⦄ {V : Type κ} where
  -- `get`
  unfoldable pub find : K → List (K × V) → Option V
  find k [] = none
  find k ((j, v) ∷ m) = elim (o.cmp k j) [ Ordering.eq ↦ some v | _ ↦ find k m ]

  -- `insert`, without the value that it replaces
  unfoldable pub put : K → V → List (K × V) → List (K × V)
  put k v [] = (k, v) ∷ []
  put k v ((j, w) ∷ m) = elim (o.cmp k j) [
    | Ordering.lt ↦ (k, v) ∷ (j, w) ∷ m
    | Ordering.eq ↦ (k, v) ∷ m
    | Ordering.gt ↦ (j, w) ∷ put k v m
  ]

  -- `remove`, without the value that it removes
  unfoldable pub delete : K → List (K × V) → List (K × V)
  delete k [] = []
  delete k ((j, w) ∷ m) = elim (o.cmp k j) [ Ordering.eq ↦ m | _ ↦ (j, w) ∷ delete k m ]

  -- `range(k..)`
  unfoldable pub range_from : K → List (K × V) → List (K × V)
  range_from k [] = []
  range_from k ((j, w) ∷ m) = elim (o.cmp j k) [
    | Ordering.lt ↦ range_from k m
    | _ ↦ (j, w) ∷ range_from k m
  ]

  abbrev pub IsSorted : List (K × V) → Type (ℓ ⊔ κ)
  IsSorted [] = Unit
  IsSorted ((k, v) ∷ m) = All (λ e. o.cmp k e.0 ≡ Ordering.lt) m × IsSorted m

  pub find-put :
      (k j : K) (v : V) (m : List (K × V))
      → find j (put k v m) ≡ elim (o.cmp j k) [ Ordering.eq ↦ some v | _ ↦ find j m ]
  unfolding find put
  find-put k j v [] = refl
  find-put k j v ((i, w) ∷ m) =
      ground (arith, o.cmp_eq_iff k i, o.cmp_eq_iff j i, o.cmp_eq_iff j k, find-put k j v m)

  -- A key below every key of a map is not in it.
  pub find_below :
      (k : K) (m : List (K × V)) → All (λ e. o.cmp k e.0 ≡ Ordering.lt) m → find k m ≡ none
  unfolding find
  find_below k [] h = refl
  find_below k ((j, w) ∷ m) h = ground (arith, find_below k m h.1)

  pub find-delete :
      (k j : K) (m : List (K × V))
      → IsSorted m
      → find j (delete k m) ≡ elim (o.cmp j k) [ Ordering.eq ↦ none | _ ↦ find j m ]
  unfolding find delete
  find-delete k j [] h = ground arith
  find-delete k j ((i, w) ∷ m) h = ground (
    arith,
    o.cmp_eq_iff k i,
    o.cmp_eq_iff j i,
    o.cmp_eq_iff j k,
    find-delete k j m h.1,
    find_below i m h.0,
  )

  All-put :
      (k i : K) (v : V) (m : List (K × V))
      → o.cmp i k ≡ Ordering.lt
      → All (λ e. o.cmp i e.0 ≡ Ordering.lt) m
      → All (λ e. o.cmp i e.0 ≡ Ordering.lt) (put k v m)
  unfolding put
  All-put k i v [] h a = (h, tt)
  All-put k i v ((j, w) ∷ m) h a = ground (arith, All-put k i v m h a.1)

  All-delete :
      (k i : K) (m : List (K × V))
      → All (λ e. o.cmp i e.0 ≡ Ordering.lt) m
      → All (λ e. o.cmp i e.0 ≡ Ordering.lt) (delete k m)
  unfolding delete
  All-delete k i [] a = tt
  All-delete k i ((j, w) ∷ m) a = ground (arith, All-delete k i m a.1)

  All-trans :
      (k i : K) (m : List (K × V))
      → o.cmp k i ≡ Ordering.lt
      → All (λ e. o.cmp i e.0 ≡ Ordering.lt) m
      → All (λ e. o.cmp k e.0 ≡ Ordering.lt) m
  All-trans k i [] h a = tt
  All-trans k i ((j, w) ∷ m) h a = (o.cmp_trans k i j h a.0, All-trans k i m h a.1)

  pub put-IsSorted : (k : K) (v : V) (m : List (K × V)) → IsSorted m → IsSorted (put k v m)
  unfolding put
  put-IsSorted k v [] h = (tt, tt)
  put-IsSorted k v ((i, w) ∷ m) h = ground (
    arith,
    o.cmp_eq_iff k i,
    o.cmp_swap k i,
    put-IsSorted k v m h.1,
    All-trans k i m,
    All-put k i v m,
  )

  pub delete-IsSorted : (k : K) (m : List (K × V)) → IsSorted m → IsSorted (delete k m)
  unfolding delete
  delete-IsSorted k [] h = tt
  delete-IsSorted k ((i, w) ∷ m) h = ground (arith, delete-IsSorted k m h.1, All-delete k i m h.0)

  abbrev pub is_nonempty : List (K × V) → Bool
  is_nonempty [] = false
  is_nonempty (x ∷ xs) = true

  -- A range has an entry exactly when some key of the map is at or above its start.
  pub range_from-find :
      (k : K) (m : List (K × V))
      → is_nonempty (range_from k m) ≡ true
      → (i : K) × (v : V) × (find i m ≡ some v) × (o.cmp i k ≢ Ordering.lt)
  unfolding find range_from
  range_from-find k [] h = absurd (ground arith)
  range_from-find k ((j, w) ∷ m) h = elim (Ordering-cases (o.cmp j k)) [
    | inl below ↦
        let (i, v, found, above) = range_from-find k m (ground arith) in
        elim (Ordering-cases (o.cmp i j)) [
          | inl lt ↦ (i, v, ground arith, above)
          | inr (inl eq) ↦ (i, w, ground arith, above)
          | inr (inr gt) ↦ (i, v, ground arith, above)
        ]
    | inr (inl at) ↦ (j, w, ground (arith, o.cmp_eq_iff j j), ground arith)
    | inr (inr up) ↦ (j, w, ground (arith, o.cmp_eq_iff j j), ground arith)
  ]

  pub find-range_from :
      (k i : K) (v : V) (m : List (K × V))
      → find i m ≡ some v
      → o.cmp i k ≢ Ordering.lt
      → is_nonempty (range_from k m) ≡ true
  unfolding find range_from
  find-range_from k i v [] h a = absurd (ground arith)
  find-range_from k i v ((j, w) ∷ m) h a = ground (arith, o.cmp_eq_iff i j, find-range_from k i v m)
