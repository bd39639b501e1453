-- ===== src/Invoice.antt =====
-- library/src/invoice.rs: the identifiers of invoices, transfers, and the invoice with its queries.
pub mod Bytes
pub mod Keys
pub mod Order
pub mod Status
pub mod Equality
use xmrgateway.Prelude.{
  ℕ, ◌+◌, ◌-◌, String, Bool, true, false, Option, none, some, List, [], compare, Ordering, leb,
  add64, if◌then◌else◌,
}
use Prim.Native.Nat.{max}

pub record SubIndex : Type 0 where
  pub major : ℕ
  pub minor : ℕ

pub record InvoiceId : Type 0 where
  pub sub_index : SubIndex
  pub creation_height : ℕ

-- `impl Ord for SubIndex`
unfoldable pub cmp_sub_index : SubIndex → SubIndex → Ordering
cmp_sub_index a b = elim (compare a.major b.major) [
  | Ordering.eq ↦ compare a.minor b.minor
  | Ordering.gt ↦ Ordering.gt
  | Ordering.lt ↦ Ordering.lt
]

-- `impl Ord for InvoiceId`
unfoldable pub cmp_invoice_id : InvoiceId → InvoiceId → Ordering
cmp_invoice_id a b = elim (cmp_sub_index a.sub_index b.sub_index) [
  | Ordering.eq ↦ compare a.creation_height b.creation_height
  | Ordering.gt ↦ Ordering.gt
  | Ordering.lt ↦ Ordering.lt
]

-- The height is `none` while the outputs are in the transaction pool.
pub record Transfer : Type 0 where
  pub amount : ℕ
  pub height : Option ℕ

abbrev pub transfer_new : ℕ → Option ℕ → Transfer
transfer_new amount height = record { amount = amount; height = height }

-- The comparison of two optional heights that `Transfer::cmp_by_height` makes.
abbrev cmp_heights : Option ℕ → Option ℕ → Ordering
cmp_heights (some height) (some other_height) = compare height other_height
cmp_heights (some height) none = Ordering.lt
cmp_heights none (some _) = Ordering.gt
cmp_heights none none = Ordering.eq

unfoldable pub cmp_by_height : Transfer → Transfer → Ordering
cmp_by_height t other = cmp_heights t.height other.height

pub record Invoice : Type 0 where
  pub address : String
  pub index : SubIndex
  pub creation_height : ℕ
  pub amount_requested : ℕ
  pub amount_paid : ℕ
  pub paid_height : Option ℕ
  pub confirmations_required : ℕ
  pub current_height : ℕ
  pub expiration_height : ℕ
  pub transfers : List Transfer
  pub description : String

unfoldable pub invoice_new : String → SubIndex → ℕ → ℕ → ℕ → ℕ → String → Invoice
invoice_new address index creation_height amount_requested confirmations_required expiration_in
      description =
    record {
      address = address;
      index = index;
      creation_height = creation_height;
      amount_requested = amount_requested;
      amount_paid = 0;
      paid_height = none;
      confirmations_required = confirmations_required;
      current_height = 0;
      expiration_height = add64 creation_height expiration_in;
      transfers = [];
      description = description;
    }

abbrev pub id : Invoice → InvoiceId
id inv = record { sub_index = inv.index; creation_height = inv.creation_height }

-- `saturating_sub` on u64 is the subtraction of ℕ.
unfoldable pub confirmations : Invoice → Option ℕ
confirmations inv =
    if leb inv.amount_requested inv.amount_paid
    then elim inv.paid_height [ none ↦ some 0 | some paid_at ↦ some (inv.current_height - paid_at) ]
    else none

unfoldable pub is_confirmed : Invoice → Bool
unfolding confirmations
is_confirmed inv = elim (confirmations inv) [
  | none ↦ false
  | some count ↦ leb inv.confirmations_required count
]

unfoldable pub is_paid : Invoice → Bool
is_paid inv = leb inv.amount_requested inv.amount_paid

unfoldable pub is_expired : Invoice → Bool
is_expired inv = leb inv.expiration_height inv.current_height

unfoldable pub expiration_in : Invoice → ℕ
expiration_in inv =
    let height = max inv.creation_height inv.current_height in inv.expiration_height - height
