-- ===== src/Tests/Invoices.antt =====
-- library/src/invoice.rs on single invoices.
use xmrgateway.Prelude.{◌≡◌, ◌↔◌, refl, true, some, [], ◌∷◌, arith}
use xmrgateway.Invoice.{SubIndex, InvoiceId, transfer_new, Invoice, invoice_new}
use xmrgateway.Invoice.Keys.{InRange}
use xmrgateway.Invoice.Equality.{
  invoice_eq, SameInvoice, invoice_eq_iff, tallies_eq, tally, bump, all_in,
}
use xmrgateway.Std.HashMap.{lookup, insert}

abbrev one : SubIndex
one = record { major = 0; minor = 7 }

abbrev early : InvoiceId
early = record { sub_index = one; creation_height = 300 }

abbrev late : InvoiceId
late = record { sub_index = one; creation_height = 500 }

abbrev paid : Invoice
paid = record (invoice_new "4A" one 300 100 2 20 "coffee") {
  transfers = transfer_new 60 (some 301) ∷ transfer_new 40 (some 303) ∷ [];
  amount_paid = 100;
  paid_height = some 303;
  current_height = 305;
}

abbrev reordered : Invoice
reordered = record paid { transfers = transfer_new 40 (some 303) ∷ transfer_new 60 (some 301) ∷ [] }

early-InRange : InRange early
early-InRange = record { major = omega arith; minor = omega arith; height = omega arith }

late-InRange : InRange late
late-InRange = record { major = omega arith; minor = omega arith; height = omega arith }

invoice_eq_iff_example : (invoice_eq paid reordered ≡ true) ↔ SameInvoice paid reordered
invoice_eq_iff_example = invoice_eq_iff paid reordered

reordered_equal : invoice_eq paid reordered ≡ true
unfolding invoice_eq invoice_new tallies_eq tally bump all_in lookup insert
reordered_equal = refl
