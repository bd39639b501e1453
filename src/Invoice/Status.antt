-- ===== src/Invoice/Status.antt =====
-- library/src/invoice.rs: what the queries of an invoice say of its payment and its age.

use xmrgateway.Prelude.{
  ℕ, ◌+◌, ◌-◌, ◌≤◌, ◌<◌, ◌≡◌, ◌↔◌, String, true, none, some, Option, arith, u64_mod,
}
use xmrgateway.Invoice.{
  SubIndex, Invoice, invoice_new, is_confirmed, is_paid, is_expired, expiration_in,
}

-- The blocks since full payment; none of them while the payment is in the transaction pool.
abbrev pub elapsed : ℕ → Option ℕ → ℕ
elapsed current none = 0
elapsed current (some paid_at) = current - paid_at

-- An invoice is confirmed exactly when it is paid in full and the blocks since it was paid, none of
-- them while the payment is in the pool, reach the number required.
pub is_confirmed_iff :
    (inv : Invoice)
    → (is_confirmed inv ≡ true) ↔ (
        (is_paid inv ≡ true)
        × (inv.confirmations_required ≤ elapsed inv.current_height inv.paid_height))
unfolding is_confirmed is_paid
is_confirmed_iff inv = ground arith

-- An invoice created below its expiration height is expired exactly when it has no blocks left.
pub expiration_in-is_expired :
    (inv : Invoice)
    → inv.creation_height < inv.expiration_height
    → (is_expired inv ≡ true) ↔ (expiration_in inv ≡ 0)
unfolding is_expired expiration_in
expiration_in-is_expired inv h = ground arith

-- A confirmed invoice stays so when only its current height grows.
pub is_confirmed_mono :
    (inv : Invoice) (height : ℕ)
    → inv.current_height ≤ height
    → is_confirmed inv ≡ true
    → is_confirmed (record inv { current_height = height }) ≡ true
unfolding is_confirmed
is_confirmed_mono inv height h k = ground arith

-- A new invoice whose expiration height fits 64 bits has the whole of its period left.
pub expiration_in-invoice_new :
    (address : String) (index : SubIndex) (creation requested required period : ℕ)
    (description : String)
    → creation + period < u64_mod
    → expiration_in (invoice_new address index creation requested required period description)
      ≡ period
unfolding expiration_in invoice_new
expiration_in-invoice_new address index creation requested required period description h =
    omega arith
