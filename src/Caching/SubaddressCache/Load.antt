-- ===== src/Caching/SubaddressCache/Load.antt =====
-- library/src/caching/subaddress_cache.rs: `SubaddressCache::init` on a store. The set of indices in use
-- is a list without repetition.

use xmrgateway.Prelude.{
  ℕ, ◌≤◌, ◌≡◌, refl, sym, ap, subst, ◌∙◌, Bool, true, false, String, Option, none, some, List, [],
  ◌∷◌, ◌++◌, Result, ok, err, Bool-cases, inl, inr, All, All-append, map, is_gt, if◌then◌else◌,
  arith,
}
use xmrgateway.Invoice.{SubIndex, Invoice, cmp_sub_index}
use xmrgateway.Invoice.Order.{sub_index_eq, sub_index_beq, sub_index_beq_iff}
use xmrgateway.Storage.Traits.{Storage, walk, try_for_each, try_for_each-walk}
use xmrgateway.Caching.SubaddressCache.{SubaddressCache}
use xmrgateway.Caching.SubaddressCache.Reuse.{IsSound, IsGone}
use xmrgateway.Caching.SubaddressCache.Start.{
  is_used, max_sub_index, max_used, init_available, init_available_lem,
}

-- The closure that collects the indices in use; it stops at a row that cannot be read.
unfoldable pub collect_index {ℓ} :
    {E : Type ℓ} → Result E Invoice → List SubIndex → Result E (Unit {0}) × List SubIndex
collect_index (err e) used = (err e, used)
collect_index (ok inv) used =
    (ok tt, if is_used used inv.index then used else used ++ inv.index ∷ [])

unfoldable pub subaddress_cache_init :
    {E : Type 0} (st : Storage E) → (SubIndex → String) → ℕ → st.Store → Result E SubaddressCache
subaddress_cache_init st get_subaddress major_index store =
    let (result, used) = try_for_each st collect_index store [] in
    elim result [ err e ↦ err e | ok u ↦ ok (init_available get_subaddress major_index used) ]

is_used-last : (xs : List SubIndex) (k : SubIndex) → is_used (xs ++ k ∷ []) k ≡ true
unfolding is_used
is_used-last [] k = ground (arith, sub_index_beq_iff k k)
is_used-last (x ∷ xs) k = ground (arith, is_used-last xs k)

is_used-longer :
    (xs : List SubIndex) (new k : SubIndex)
    → is_used xs k ≡ true
    → is_used (xs ++ new ∷ []) k ≡ true
unfolding is_used
is_used-longer [] new k h = absurd (ground arith)
is_used-longer (x ∷ xs) new k h = ground (arith, is_used-longer xs new k)

-- Every index has the given major part.
abbrev pub AllOf : ℕ → List SubIndex → Type 0
AllOf major = All (λ k. k.major ≡ major)

-- Indices with one major part: the greatest has the greatest minor part.
abbrev IsMax : ℕ → List SubIndex → Option SubIndex → Type 0
IsMax major used none = used ≡ []
IsMax major used (some y) = (y.major ≡ major) × All (λ k. k.minor ≤ y.minor) used

weaker : (m n : ℕ) (l : List SubIndex) → m ≤ n → All (λ k. k.minor ≤ m) l → All (λ k. k.minor ≤ n) l
weaker m n [] h a = tt
weaker m n (x ∷ l) h a = (omega (arith, a.0), weaker m n l h a.1)

picked :
    (major : ℕ) (x y : SubIndex) (xs : List SubIndex)
    → x.major ≡ major
    → y.major ≡ major
    → All (λ k. k.minor ≤ y.minor) xs
    → (b : Bool) → is_gt (cmp_sub_index x y) ≡ b
    → IsMax major (x ∷ xs) (some (if b then x else y))
unfolding cmp_sub_index
picked major x y xs hx hy low true more =
    let above : y.minor ≤ x.minor = ground (arith, more, hx, hy) in
    (hx, (omega arith, weaker y.minor x.minor xs above low))
picked major x y xs hx hy low false less = (hy, (ground (arith, less, hx, hy), low))

max_sub_index-IsMax :
    (major : ℕ) (used : List SubIndex) → AllOf major used → IsMax major used (max_sub_index used)
unfolding max_sub_index cmp_sub_index
max_sub_index-IsMax major [] h = refl
max_sub_index-IsMax major (x ∷ xs) h = step (max_sub_index xs) (max_sub_index-IsMax major xs h.1)
  where
    step :
        (o : Option SubIndex)
        → IsMax major xs o
        → IsMax major
            (x ∷ xs)
            (elim o [ none ↦ some x | some y ↦ some (if is_gt (cmp_sub_index x y) then x else y) ])
    step none e = (h.0, (omega arith, subst (All (λ k. k.minor ≤ x.minor)) (sym e) tt))
    step (some y) (same, low) = picked major x y xs h.0 same low (is_gt (cmp_sub_index x y)) refl

used_low :
    (n : ℕ) (used : List SubIndex) (k : SubIndex)
    → All (λ j. j.minor ≤ n) used
    → is_used used k ≡ true
    → k.minor ≤ n
unfolding is_used
used_low n [] k a h = absurd (ground arith)
used_low n (x ∷ xs) k a h = elim (Bool-cases (sub_index_beq x k)) [
  | inl same ↦ subst (λ (j : SubIndex). j.minor ≤ n) ((sub_index_beq_iff x k).0 same) a.0
  | inr other ↦ used_low n xs k a.1 (ground (arith, other, h))
]

used-max_used :
    (major : ℕ) (used : List SubIndex) (k : SubIndex)
    → AllOf major used
    → is_used used k ≡ true
    → k.minor ≤ max_used used
unfolding max_used
used-max_used major used k all h = go (max_sub_index used) (max_sub_index-IsMax major used all)
  where
    go :
        (o : Option SubIndex)
        → IsMax major used o
        → k.minor ≤ (elim o [ none ↦ 0 | some y ↦ y.minor ])
    go none e = used_low 0 used k (subst (All (λ (j : SubIndex). j.minor ≤ 0)) (sym e) tt) h
    go (some y) (same, low) = used_low y.minor used k low h

init_available-IsGone :
    (get_subaddress : SubIndex → String) (major : ℕ) (used : List SubIndex) (k : SubIndex)
    → AllOf major used
    → is_used used k ≡ true
    → IsGone k (init_available get_subaddress major used)
init_available-IsGone get_subaddress major used k all h = record {
  taken = (init_available_lem get_subaddress major used).1 k h;
  passed = highest;
}
  where
    highest : k.minor ≤ (init_available get_subaddress major used).highest_minor_index
    highest = unfold init_available in omega (arith, used-max_used major used k all h)

module _ {E : Type 0} where
  -- What one row adds.
  collected :
      (used : List SubIndex) (inv : Invoice) (major : ℕ)
      → AllOf major used
      → inv.index.major ≡ major
      → (next : List SubIndex) × (collect_index {E = E} (ok inv) used ≡ (ok tt, next))
        × AllOf major next
        × (is_used next inv.index ≡ true)
        × ((k : SubIndex) → is_used used k ≡ true → is_used next k ≡ true)
  unfolding collect_index
  collected used inv major all same = elim (Bool-cases (is_used used inv.index)) [
    | inl known ↦ (used, rw (known, collect_index) refl, all, known, λ k h. h)
    | inr new ↦ (
      used ++ inv.index ∷ [],
      rw (new, collect_index) refl,
      All-append (λ (k : SubIndex). k.major ≡ major) used (inv.index ∷ []) all (same, tt),
      is_used-last used inv.index,
      λ k h. is_used-longer used inv.index k h,
    )
  ]

  stepped :
      (row : Result E Invoice) (rows : List (Result E Invoice)) (used next : List SubIndex)
      → collect_index row used ≡ (ok tt, next)
      → walk collect_index (row ∷ rows) used ≡ walk collect_index rows next
  unfolding walk
  stepped row rows used next e =
      ap
        (λ (r : Result E (Unit {0}) × List SubIndex). elim r.0 [
          | err x ↦ (err x, r.1)
          | ok u ↦ walk collect_index rows r.1
        ])
        e

  -- The walk over rows that can all be read.
  walked :
      (invs : List Invoice) (used : List SubIndex) (major : ℕ)
      → AllOf major used
      → All (λ inv. inv.index.major ≡ major) invs
      → (all : List SubIndex) × (walk {E = E} collect_index (map ok invs) used ≡ (ok tt, all))
        × AllOf major all
        × All (λ inv. is_used all inv.index ≡ true) invs
        × ((k : SubIndex) → is_used used k ≡ true → is_used all k ≡ true)
  unfolding walk
  walked [] used major a h = (used, refl, a, tt, λ k u. u)
  walked (inv ∷ invs) used major a h =
      let (next, one, a', here, more) = collected used inv major a h.0 in
      let (all, rest, a'', found, further) = walked invs next major a' h.1 in
      (
        all,
        stepped (ok inv) (map ok invs) used next one ∙ rest,
        a'',
        (further inv.index here, found),
        λ k u. further k (more k u),
      )

  init_known :
      (st : Storage E) (get_subaddress : SubIndex → String) (major : ℕ) (store : st.Store)
      (invs : List Invoice) (all : List SubIndex)
      → st.rows store ≡ ok (map ok invs)
      → walk {E = E} collect_index (map ok invs) [] ≡ (ok tt, all)
      → subaddress_cache_init st get_subaddress major store
        ≡ ok (init_available get_subaddress major all)
  unfolding subaddress_cache_init
  init_known st get_subaddress major store invs all e w =
      ap
        (λ (r : Result E (Unit {0}) × List SubIndex). elim r.0 [
          | err x ↦ err x
          | ok u ↦ ok (init_available get_subaddress major r.1)
        ])
        (try_for_each-walk st collect_index store [] (map ok invs) e ∙ w)

  -- If all rows of a store can be read and all of its invoices have the major index of the cache,
  -- then the cache is set up, every free index stands once and none lies above the highest
  -- generated, and no invoice's index is free or yet to be generated.
  pub subaddress_cache_init_lem :
      (st : Storage E) (get_subaddress : SubIndex → String) (major : ℕ) (store : st.Store)
      (invs : List Invoice)
      → st.rows store ≡ ok (map ok invs)
      → All (λ inv. inv.index.major ≡ major) invs
      → (c : SubaddressCache) × (subaddress_cache_init st get_subaddress major store ≡ ok c)
        × IsSound c
        × All (λ inv. IsGone inv.index c) invs
  subaddress_cache_init_lem st get_subaddress major store invs e h =
      let (all, w, a, found, more) = walked invs [] major tt h in
      (
        init_available get_subaddress major all,
        init_known st get_subaddress major store invs all e w,
        (init_available_lem get_subaddress major all).0,
        gone invs all a found,
      )
    where
      gone :
          (l : List Invoice) (all : List SubIndex)
          → AllOf major all
          → All (λ inv. is_used all inv.index ≡ true) l
          → All (λ inv. IsGone inv.index (init_available get_subaddress major all)) l
      gone [] all a f = tt
      gone (inv ∷ l) all a f =
          (init_available-IsGone get_subaddress major all inv.index a f.0, gone l all a f.1)
