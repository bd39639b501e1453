-- ===== src/Caching/SubaddressCache/Start.antt =====
-- library/src/caching/subaddress_cache.rs: `generate_range` and `init`. The indices in use are the
-- argument `used`, as the walk over the stored invoices collects them.
use Prim.Native.Nat.{max}
use xmrgateway.Prelude.{
  ℕ, zero, suc, ◌+◌, ◌-◌, ◌≡◌, refl, ◌∙◌, Bool, true, false, not, ◌||◌, String, Option, none, some,
  List, [], ◌∷◌, nat_beq, is_lt, is_gt, if◌then◌else◌, u32_mod, arith,
}
use xmrgateway.Std.HashMap.{
  lookup, insert, extend, retain_keys, Distinct, insert-Distinct, lookup-retain_keys,
}
use xmrgateway.Invoice.{SubIndex, cmp_sub_index}
use xmrgateway.Invoice.Order.{sub_index_eq, sub_index_beq}
use xmrgateway.Caching.SubaddressCache.{SubaddressCache, min_available_subaddresses}
use xmrgateway.Caching.SubaddressCache.Reuse.{IsSound, IsUpTo, insert-IsUpTo}

-- Whether an index is in use.
unfoldable pub is_used : List SubIndex → SubIndex → Bool
is_used [] k = false
is_used (x ∷ xs) k = sub_index_beq x k || is_used xs k

-- `iter().max()`
unfoldable pub max_sub_index : List SubIndex → Option SubIndex
unfolding cmp_sub_index
max_sub_index [] = none
max_sub_index (x ∷ xs) = elim (max_sub_index xs) [
  | none ↦ some x
  | some y ↦ some (if is_gt (cmp_sub_index x y) then x else y)
]

unfoldable pub max_used : List SubIndex → ℕ
unfolding max_sub_index
max_used used = elim (max_sub_index used) [ none ↦ 0 | some k ↦ k.minor ]

module _ (get_subaddress : SubIndex → String) where
  -- The loop of `generate_range`; a minor index has fewer successors than there are numbers of 32 bits.
  unfoldable pub generate_from : ℕ → SubIndex → SubIndex → List (SubIndex × String)
  unfolding cmp_sub_index
  generate_from zero current to = []
  generate_from (suc n) current to =
      if is_gt (cmp_sub_index current to)
      then []
      else (current, get_subaddress current)
        ∷ (if nat_beq current.minor (u32_mod - 1)
            then []
            else generate_from n (record current { minor = current.minor + 1 }) to)

  unfoldable pub generate_range : SubIndex → SubIndex → List (SubIndex × String)
  generate_range from to =
      if is_lt (cmp_sub_index to from) then [] else generate_from (u32_mod - from.minor) from to

  unfoldable pub init_available : ℕ → List SubIndex → SubaddressCache
  init_available major_index used =
      let highest = max (min_available_subaddresses - 1) (max_used used) in
      record {
        major_index = major_index;
        highest_minor_index = highest;
        available_subaddresses =
            retain_keys (λ k. not (is_used used k))
              (extend [] (
                generate_range (record { major = major_index; minor = 0 })
                  (record { major = major_index; minor = highest })));
      }

  generate_from-IsUpTo :
      (n major minor top : ℕ)
      → IsUpTo top (
          generate_from n
            (record { major = major; minor = minor })
            (record { major = major; minor = top }))
  unfolding generate_from cmp_sub_index
  generate_from-IsUpTo zero major minor top = tt
  generate_from-IsUpTo (suc n) major minor top =
      ground (arith, generate_from-IsUpTo n major (minor + 1) top)

either :
    (top : ℕ) (b : Bool) (l : List (SubIndex × String))
    → IsUpTo top l
    → IsUpTo top (if b then [] else l)
either top true l h = tt
either top false l h = h

dropped : (b : Bool) (o : Option String) → b ≡ true → (if not b then o else none) ≡ none
dropped true o h = refl
dropped false o h = absurd (ground arith)

extend-keeps :
    (top : ℕ) (m n : List (SubIndex × String))
    → Distinct m
    → IsUpTo top m
    → IsUpTo top n
    → Distinct (extend m n) × IsUpTo top (extend m n)
unfolding extend
extend-keeps top m [] d a b = (d, a)
extend-keeps top m ((k, v) ∷ n) d a b =
    extend-keeps top (insert k v m) n (insert-Distinct k v m d) (insert-IsUpTo top k v m b.0 a) b.1

retain_keys-keeps :
    (p : SubIndex → Bool) (top : ℕ) (m : List (SubIndex × String))
    → Distinct m
    → IsUpTo top m
    → Distinct (retain_keys p m) × IsUpTo top (retain_keys p m)
unfolding retain_keys
retain_keys-keeps p top [] d a = (tt, tt)
retain_keys-keeps p top ((k, v) ∷ m) d a =
    ground (arith, retain_keys-keeps p top m d.1 a.1, lookup-retain_keys p k m, d.0, a.0)

module _ (get_subaddress : SubIndex → String) where
  generate_range-IsUpTo :
      (major top : ℕ)
      → IsUpTo top (
          generate_range get_subaddress
            (record { major = major; minor = 0 })
            (record { major = major; minor = top }))
  unfolding generate_range
  generate_range-IsUpTo major top =
      either top
        (is_lt (
          cmp_sub_index (record { major = major; minor = top })
            (record { major = major; minor = 0 })))
        (generate_from get_subaddress (u32_mod - 0) (record { major = major; minor = 0 })
          (record { major = major; minor = top }))
        (generate_from-IsUpTo get_subaddress (u32_mod - 0) major 0 top)

  -- In a cache set up for the indices in use, every free index stands once, none has a minor index
  -- above the highest generated, and no index in use is free.
  pub init_available_lem :
      (major_index : ℕ) (used : List SubIndex)
      → IsSound (init_available get_subaddress major_index used)
        × ((k : SubIndex)
            → is_used used k ≡ true
            → lookup k (init_available get_subaddress major_index used).available_subaddresses
              ≡ none)
  unfolding init_available
  init_available_lem major used =
      let top : ℕ = max (min_available_subaddresses - 1) (max_used used) in
      let range : List (SubIndex × String) =
        generate_range get_subaddress (record { major = major; minor = 0 })
          (record { major = major; minor = top }) in
      let (once, low) = extend-keeps top [] range tt tt (generate_range-IsUpTo major top) in
      let (once', low') =
        retain_keys-keeps (λ k. not (is_used used k)) top (extend [] range) once low in
      (
        record { once = once'; known = low' },
        λ k h.
            lookup-retain_keys (λ k. not (is_used used k)) k (extend [] range)
            ∙ dropped (is_used used k) _ h,
      )
