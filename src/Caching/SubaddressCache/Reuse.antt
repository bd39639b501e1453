-- ===== src/Caching/SubaddressCache/Reuse.antt =====
-- The indices that `remove_random` hands out, against those that are free afterwards.
use mathlib.Core.Option.{some-injective}
use xmrgateway.Prelude.{
  ℕ, zero, suc, ◌+◌, ◌-◌, ◌≤◌, ◌≡◌, ◌≢◌, beq_refl, refl, sym, ap, subst, ◌∙◌, false, String, none,
  some, List, [], ◌∷◌, length, nat_beq, leb, u32_mod, All, arith, Bool-cases, Option-cases, inl,
  inr, ◌==◌,
}
use xmrgateway.Std.HashMap.{lookup, insert, Distinct, lookup-insert, insert-Distinct}
use xmrgateway.Invoice.{SubIndex}
use xmrgateway.Invoice.Order.{sub_index_eq, sub_index_beq_iff}
use xmrgateway.Caching.SubaddressCache.{
  SubaddressCache, shift_remove_index, extend_one, extend_by, refill, remove_random,
  min_available_subaddresses,
}

abbrev pub IsUpTo : ℕ → List (SubIndex × String) → Type 0
IsUpTo n = All (λ e. e.0.minor ≤ n)

-- Every free index stands once, and none lies above the highest that was generated.
pub record IsSound (c : SubaddressCache) : Type 0 where
  pub once : Distinct c.available_subaddresses
  pub known : All (λ e. e.0.minor ≤ c.highest_minor_index) c.available_subaddresses

-- The index is taken and will not be generated again.
pub record IsGone (k : SubIndex) (c : SubaddressCache) : Type 0 where
  pub taken : lookup k c.available_subaddresses ≡ none
  pub passed : k.minor ≤ c.highest_minor_index

IsUpTo-mono : (n m : ℕ) (l : List (SubIndex × String)) → n ≤ m → IsUpTo n l → IsUpTo m l
IsUpTo-mono n m [] h a = tt
IsUpTo-mono n m (x ∷ l) h a = (omega (arith, a.0), IsUpTo-mono n m l h a.1)

pub insert-IsUpTo :
    (n : ℕ) (k : SubIndex) (v : String) (l : List (SubIndex × String))
    → k.minor ≤ n
    → IsUpTo n l
    → IsUpTo n (insert k v l)
unfolding insert
insert-IsUpTo n k v [] h a = (h, tt)
insert-IsUpTo n k v ((j, w) ∷ l) h a = ground (arith, insert-IsUpTo n k v l h a.1)

-- What is left of a list after the removal of an index: it was there, and is there no more.
record Removed (n : ℕ) (m : List (SubIndex × String)) (k : SubIndex)
    (rest : List (SubIndex × String)) : Type 0 where
  present : lookup k m ≢ none
  absent : lookup k rest ≡ none
  low : k.minor ≤ n
  once : Distinct rest
  known : IsUpTo n rest
  others : (j : SubIndex) → lookup j m ≡ none → lookup j rest ≡ none

Removed-first :
    (n : ℕ) (j : SubIndex) (w : String) (m : List (SubIndex × String))
    → Distinct ((j, w) ∷ m)
    → IsUpTo n ((j, w) ∷ m)
    → Removed n ((j, w) ∷ m) j m
unfolding lookup
Removed-first n j w m d a = record {
  present = ground (arith, beq_refl j);
  absent = d.0;
  low = a.0;
  once = d.1;
  known = a.1;
  others = λ i h. ground arith;
}

Removed-later :
    (n : ℕ) (j k : SubIndex) (w : String) (m rest : List (SubIndex × String))
    → Distinct ((j, w) ∷ m)
    → IsUpTo n ((j, w) ∷ m)
    → Removed n m k rest
    → Removed n ((j, w) ∷ m) k ((j, w) ∷ rest)
unfolding lookup
Removed-later n j k w m rest d a r =
    let other : (j == k) ≡ false = ground (arith, r.present, d.0, sub_index_beq_iff j k) in
    record {
      present = ground (arith, r.present);
      absent = ground (arith, r.absent);
      low = r.low;
      once = (r.others j d.0, r.once);
      known = (a.0, r.known);
      others = λ i h. ground (arith, r.others i);
    }

shift_later :
    {A : Type 0} (i : ℕ) (x y : A) (xs rest : List A)
    → shift_remove_index (suc i) (x ∷ xs) ≡ some (y, rest)
    → (ys : List A) × (shift_remove_index i xs ≡ some (y, ys)) × (x ∷ ys ≡ rest)
unfolding shift_remove_index
shift_later {A} i x y xs rest e = elim (Option-cases (shift_remove_index i xs)) [
  | inl gone ↦ absurd (ground arith)
  | inr ((z, zs), found) ↦
      let both : ◌≡◌ {A = A × List A} (z, x ∷ zs) (y, rest) = some-injective _ _ (ground arith) in
      (zs, found ∙ ap (λ t. some (t.0, zs)) both, ap (λ t. t.1) both)
]

Removed-rest :
    (n i : ℕ) (m rest : List (SubIndex × String)) (k : SubIndex) (v : String)
    → shift_remove_index i m ≡ some ((k, v), rest)
    → Distinct m
    → IsUpTo n m
    → Removed n m k rest
unfolding shift_remove_index
Removed-rest n i [] rest k v e d a = absurd (ground arith)
Removed-rest n zero ((j, w) ∷ m) rest k v e d a =
    subst (λ (t : (SubIndex × String) × List (SubIndex × String)). Removed n ((j, w) ∷ m) t.0.0 t.1)
      (some-injective _ _ e) (Removed-first n j w m d a)
Removed-rest n (suc i) ((j, w) ∷ m) rest k v e d a =
    let (ys, found, same) = shift_later i (j, w) (k, v) m rest e in
    subst (Removed n ((j, w) ∷ m) k) same
      (Removed-later n j k w m ys d a (Removed-rest n i m ys k v found d.1 a.1))

module _ (get_subaddress : SubIndex → String) where
  extend_one-IsGone :
      (k : SubIndex) (c : SubaddressCache) → IsGone k c → IsGone k (extend_one get_subaddress c)
  unfolding extend_one
  extend_one-IsGone k c g = record {
    taken = ground (
      arith,
      g.taken,
      g.passed,
      lookup-insert (record { major = c.major_index; minor = c.highest_minor_index + 1 }) k
          (get_subaddress (record { major = c.major_index; minor = c.highest_minor_index + 1 }))
          c.available_subaddresses,
    );
    passed = omega (arith, g.passed);
  }

  extend_one-IsSound : (c : SubaddressCache) → IsSound c → IsSound (extend_one get_subaddress c)
  unfolding extend_one
  extend_one-IsSound c s = record {
    once = insert-Distinct _ _ c.available_subaddresses s.once;
    known = insert-IsUpTo (c.highest_minor_index + 1) _ _ c.available_subaddresses (omega arith) (
        IsUpTo-mono c.highest_minor_index (c.highest_minor_index + 1) c.available_subaddresses
          (omega arith) s.known);
  }

  extend_by_keeps :
      (k : SubIndex) (n count : ℕ) (c : SubaddressCache)
      → IsGone k c
      → IsSound c
      → IsGone k (extend_by get_subaddress n count c).1
        × IsSound (extend_by get_subaddress n count c).1
  unfolding extend_by
  extend_by_keeps k zero count c g s = (g, s)
  extend_by_keeps k (suc n) count c g s =
      elim (Bool-cases (nat_beq c.highest_minor_index (u32_mod - 1))) [
        | inl end ↦ rw end (g, s)
        | inr more ↦ rw more (
            extend_by_keeps k n (count + 1) (extend_one get_subaddress c) (extend_one-IsGone k c g)
              (extend_one-IsSound c s))
      ]

  refill_keeps :
      (k : SubIndex) (c : SubaddressCache)
      → IsGone k c
      → IsSound c
      → IsGone k (refill get_subaddress c) × IsSound (refill get_subaddress c)
  unfolding refill
  refill_keeps k c g s =
      elim (Bool-cases (leb (length c.available_subaddresses) min_available_subaddresses)) [
        | inl few ↦ rw few (extend_by_keeps k min_available_subaddresses 0 c g s)
        | inr enough ↦ rw enough (g, s)
      ]

  -- If every free subaddress index stands once and none has a minor index above the highest
  -- generated, then an index that is handed out is not free afterwards, whether or not the cache
  -- was refilled, and the same holds of the cache again.
  pub remove_random_lem :
      (i : ℕ) (c : SubaddressCache) (k : SubIndex) (address : String) {c' : SubaddressCache}
      → IsSound c
      → remove_random get_subaddress i c ≡ some ((k, address), c')
      → (lookup k c'.available_subaddresses ≡ none) × IsSound c'
  unfolding remove_random
  remove_random_lem i c k address {c'} s e =
      elim (Option-cases (shift_remove_index i c.available_subaddresses)) [
        | inl gone ↦ absurd (ground arith)
        | inr (((j, w), rest), found) ↦
            let left : SubaddressCache = record c { available_subaddresses = rest } in
            let r : Removed c.highest_minor_index c.available_subaddresses j rest =
              Removed-rest c.highest_minor_index i c.available_subaddresses rest j w found s.once
                s.known in
            let (gone, sound) =
              refill_keeps j left (record { taken = r.absent; passed = r.low })
                (record { once = r.once; known = r.known }) in
            let step : remove_random get_subaddress i c
                ≡ some ((j, w), refill get_subaddress left) =
              rw (found, remove_random) refl in
            subst
              (λ (t : (SubIndex × String) × SubaddressCache).
                (lookup t.0.0 t.1.available_subaddresses ≡ none) × IsSound t.1)
              (some-injective _ _ (sym step ∙ e)) (gone.taken, sound)
      ]

  -- An index that is handed out was free, and it is gone from then on, as is every index that was
  -- gone before.
  pub remove_random-IsGone :
      (i : ℕ) (c : SubaddressCache) (k : SubIndex) (address : String) {c' : SubaddressCache}
      → IsSound c
      → remove_random get_subaddress i c ≡ some ((k, address), c')
      → (lookup k c.available_subaddresses ≢ none)
        × IsGone k c'
        × ((j : SubIndex) → IsGone j c → IsGone j c')
  unfolding remove_random
  remove_random-IsGone i c k address {c'} s e =
      elim (Option-cases (shift_remove_index i c.available_subaddresses)) [
        | inl gone ↦ absurd (ground arith)
        | inr (((j, w), rest), found) ↦
            let left : SubaddressCache = record c { available_subaddresses = rest } in
            let r : Removed c.highest_minor_index c.available_subaddresses j rest =
              Removed-rest c.highest_minor_index i c.available_subaddresses rest j w found s.once
                s.known in
            let sound : IsSound left = record { once = r.once; known = r.known } in
            let step : remove_random get_subaddress i c
                ≡ some ((j, w), refill get_subaddress left) =
              rw (found, remove_random) refl in
            subst
              (λ (t : (SubIndex × String) × SubaddressCache).
                (lookup t.0.0 c.available_subaddresses ≢ none)
                × IsGone t.0.0 t.1
                × ((m : SubIndex) → IsGone m c → IsGone m t.1))
              (some-injective _ _ (sym step ∙ e))
              (
                r.present,
                (refill_keeps j left (record { taken = r.absent; passed = r.low }) sound).0,
                λ m g.
                    (refill_keeps m left (record { taken = r.others m g.taken; passed = g.passed })
                      sound).0,
              )
      ]
