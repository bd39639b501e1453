-- ===== src/Caching/SubaddressCache.antt =====
-- library/src/caching/subaddress_cache.rs: the subaddresses that are free for new invoices. The address
-- of an index is the crate monero's, the random choice is an argument.
pub mod Reuse
pub mod Start
pub mod Load
use xmrgateway.Prelude.{
  ℕ, zero, suc, ◌+◌, ◌-◌, ◌≡◌, Bool, true, false, String, Option, none, some, List, [], ◌∷◌, length,
  nat_beq, leb, if◌then◌else◌, u32_mod,
}
use Prim.Native.Nat.{max}
use xmrgateway.Std.HashMap.{lookup, insert}
use xmrgateway.Invoice.{SubIndex, cmp_sub_index}
use xmrgateway.Invoice.Order.{sub_index_eq}

-- `MIN_AVAILABLE_SUBADDRESSES`
abbrev pub min_available_subaddresses : ℕ
min_available_subaddresses = 100

pub record SubaddressCache : Type 0 where
  pub major_index : ℕ
  pub highest_minor_index : ℕ
  pub available_subaddresses : List (SubIndex × String)

-- `shift_remove_index`: the entry and those left, in their order.
unfoldable pub shift_remove_index {ℓ} : {A : Type ℓ} → ℕ → List A → Option (A × List A)
shift_remove_index i [] = none
shift_remove_index zero (x ∷ xs) = some (x, xs)
shift_remove_index (suc i) (x ∷ xs) = elim (shift_remove_index i xs) [
  | none ↦ none
  | some (y, ys) ↦ some (y, x ∷ ys)
]

module _ (get_subaddress : SubIndex → String) where
  -- One round of the loop of `extend_by`, for a highest minor index that is not the greatest.
  unfoldable pub extend_one : SubaddressCache → SubaddressCache
  extend_one c =
      let sub_index : SubIndex = record {
        major = c.major_index;
        minor = c.highest_minor_index + 1;
      } in
      record c {
        available_subaddresses =
            insert sub_index (get_subaddress sub_index) c.available_subaddresses;
        highest_minor_index = sub_index.minor;
      }

  -- The rounds left and the count so far; the loop ends early at `u32::MAX`.
  unfoldable pub extend_by : ℕ → ℕ → SubaddressCache → ℕ × SubaddressCache
  unfolding extend_one
  extend_by zero count c = (count, c)
  extend_by (suc n) count c =
      if nat_beq c.highest_minor_index (u32_mod - 1)
      then (count, c)
      else extend_by n (count + 1) (extend_one c)

  unfoldable pub refill : SubaddressCache → SubaddressCache
  refill c =
      if leb (length c.available_subaddresses) min_available_subaddresses
      then (extend_by min_available_subaddresses 0 c).1
      else c

  -- The index drawn is below the number of free subaddresses, so an entry is found; `none` is the
  -- panic of a draw from an empty range.
  unfoldable pub remove_random :
      ℕ → SubaddressCache → Option ((SubIndex × String) × SubaddressCache)
  remove_random map_index c = elim (shift_remove_index map_index c.available_subaddresses) [
    | none ↦ none
    | some (entry, rest) ↦ some (entry, refill (record c { available_subaddresses = rest }))
  ]

unfoldable pub insert_available :
    SubIndex → String → SubaddressCache → Option String × SubaddressCache
insert_available sub_index address c = (
  lookup sub_index c.available_subaddresses,
  record c { available_subaddresses = insert sub_index address c.available_subaddresses },
)
