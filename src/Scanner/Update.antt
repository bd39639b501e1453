-- ===== src/Scanner/Update.antt =====
-- library/src/scanner.rs: `Scanner::update_invoices`, the step from the transfers that a scan found
-- to the invoices that they change.
pub mod Ledger
pub mod Settle
use xmrgateway.Prelude.{
  ℕ, ◌+◌, ◌-◌, ◌≡◌, Bool, true, false, not, ◌&&◌, Option, none, some, List, [], ◌∷◌, ◌++◌, ◌==◌,
  nat_beq, option_is_none, leb, is_lt, is_gt, add64, sub64, retain, Result, ok, err, if◌then◌else◌,
}
use xmrgateway.Invoice.{SubIndex, Transfer, transfer_new, cmp_by_height, Invoice}
use xmrgateway.Invoice.Order.{sub_index_eq}
use xmrgateway.Invoice.Equality.{invoice_eq}

-- A transfer as the scan finds it, with the subaddress that received it.
abbrev pub Found : Type 0
Found = SubIndex × Transfer

-- The test of `retain`: the transfer stands below the deepest block that was updated.
unfoldable pub is_settled_below : ℕ → Transfer → Bool
unfolding cmp_by_height
is_settled_below deepest_update transfer =
    is_lt (cmp_by_height transfer (transfer_new 0 (some deepest_update)))

-- The test of the loop over `transfers`. The creation height is one above the top block.
unfoldable pub is_credited : SubIndex → ℕ → Found → Bool
unfolding cmp_by_height
is_credited index creation_height (sub_index, transfer) =
    sub_index == index
    && is_gt (cmp_by_height transfer (transfer_new 0 (some (sub64 creation_height 1))))

-- The loop that pushes the transfers found onto the invoice's.
unfoldable pub push_found : SubIndex → ℕ → List Transfer → List Found → List Transfer
push_found index creation_height transfers [] = transfers
push_found index creation_height transfers ((sub_index, transfer) ∷ rest) =
    push_found index creation_height
      (if is_credited index creation_height (sub_index, transfer)
        then transfers ++ transfer ∷ []
        else transfers)
      rest

-- The invoice with its new transfers and its new height, before its totals are computed.
unfoldable pub rescan : List Found → ℕ → ℕ → Invoice → Invoice
rescan found block_cache_height deepest_update inv =
    let kept = retain (is_settled_below deepest_update) inv.transfers in
    let height = add64 block_cache_height 1 in
    record inv {
      transfers = push_found inv.index inv.creation_height kept found;
      current_height =
          if not (nat_beq inv.current_height height) then height else inv.current_height;
    }

-- The loop over the transfers that adds up `amount_paid` and sets `paid_height` once.
unfoldable pub add_up : ℕ → ℕ × Option ℕ → List Transfer → ℕ × Option ℕ
add_up requested acc [] = acc
add_up requested (paid, paid_height) (transfer ∷ rest) =
    add_up requested
      (
        add64 paid transfer.amount,
        if leb requested (add64 paid transfer.amount) && option_is_none paid_height
            then transfer.height
            else paid_height,
      )
      rest

unfoldable pub settle : Invoice → Invoice
settle inv =
    let totals = add_up inv.amount_requested (0, none) inv.transfers in
    record inv { paid_height = totals.1; amount_paid = totals.0 }

-- The closure's work on one stored invoice: the invoice to save, if anything changed.
unfoldable pub update_one : List Found → ℕ → ℕ → Invoice → Option Invoice
update_one found block_cache_height deepest_update old =
    let inv = rescan found block_cache_height deepest_update old in
    if not (invoice_eq inv old) then some (settle inv) else none

-- `try_for_each_invoice`: a row that cannot be read is skipped, the others are still processed.
unfoldable pub update_rows {ℓ} :
    {E : Type ℓ} → List Found → ℕ → ℕ → List (Result E Invoice) → List Invoice
update_rows found height deepest [] = []
update_rows found height deepest (err e ∷ rows) = update_rows found height deepest rows
update_rows found height deepest (ok inv ∷ rows) =
    let rest = update_rows found height deepest rows in
    elim (update_one found height deepest inv) [ none ↦ rest | some new ↦ new ∷ rest ]

unfoldable pub update_invoices {ℓ} :
    {E : Type ℓ} → ℕ → List Found → ℕ → List (Result E Invoice) → List Invoice
update_invoices block_cache_height found blocks_updated rows =
    let deepest_update = add64 (sub64 block_cache_height blocks_updated) 1 in
    update_rows found block_cache_height deepest_update rows
