-- ===== src/Storage/Lowest.antt =====
-- `lowest_height` of library/src/storage/invoice_storage.rs, on the rows that can be read.
use xmrgateway.Prelude.{
  ℕ, ◌≤◌, ◌≡◌, ◌⊎◌, refl, inl, inr, Option, none, some, List, [], ◌∷◌, map, Result, ok, All, ltb,
  arith, Bool-cases,
}
use xmrgateway.Invoice.{Invoice}
use xmrgateway.Storage.Traits.{Storage, walk, lower, try_for_each, lowest_height}

-- Some invoice of a list has this height.
abbrev pub Attains : ℕ → List Invoice → Type 0
Attains l [] = ⊥
Attains l (inv ∷ invs) = (inv.current_height ≡ l) ⊎ Attains l invs

-- The least height of a list, none for the empty list.
abbrev pub IsLowest : Option ℕ → List Invoice → Type 0
IsLowest none invs = invs ≡ []
IsLowest (some l) invs = All (λ inv. l ≤ inv.current_height) invs × Attains l invs

module _ {E : Type 0} where
  abbrev readable : List Invoice → List (Result E Invoice)
  readable = map ok

  walk-some :
      (l : ℕ) (invs : List Invoice)
      → (m : ℕ) × (walk {E = E} lower (readable invs) (some l) ≡ (ok tt, some m))
        × (m ≤ l)
        × All (λ inv. m ≤ inv.current_height) invs
        × ((m ≡ l) ⊎ Attains m invs)
  unfolding walk lower
  walk-some l [] = (l, refl, omega arith, tt, inl refl)
  walk-some l (inv ∷ invs) = elim (Bool-cases (ltb inv.current_height l)) [
    | inl less ↦
        let (m, same, below, low, hit) = walk-some inv.current_height invs in
        (
          m,
          rw less same,
          ground arith,
          (below, low),
          elim hit [ inl e ↦ inr (inl (omega (arith, e))) | inr a ↦ inr (inr a) ],
        )
    | inr more ↦
        let (m, same, below, low, hit) = walk-some l invs in
        (
          m,
          rw more same,
          below,
          (ground arith, low),
          elim hit [ inl e ↦ inl e | inr a ↦ inr (inr a) ],
        )
  ]

  walk-rows :
      (invs : List Invoice)
      → (o : Option ℕ) × (walk {E = E} lower (readable invs) none ≡ (ok tt, o)) × IsLowest o invs
  unfolding walk lower
  walk-rows [] = (none, refl, refl)
  walk-rows (inv ∷ invs) =
      let (m, same, below, low, hit) = walk-some inv.current_height invs in
      (some m, same, ((below, low), elim hit [ inl e ↦ inl (omega (arith, e)) | inr a ↦ inr a ]))

  pub lowest_height_lem :
      (st : Storage E) (store : st.Store) (invs : List Invoice)
      → st.rows store ≡ ok (map ok invs)
      → (o : Option ℕ) × (lowest_height st store ≡ ok o) × IsLowest o invs
  unfolding lowest_height try_for_each
  lowest_height_lem st store invs e =
      let (o, same, low) = walk-rows invs in (o, ground (arith, e, same), low)
