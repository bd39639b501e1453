-- ===== src/Tests/Updates.antt =====
-- library/src/scanner.rs, run on one invoice of 100 whose second payment a reorganisation replaces.
use xmrgateway.Prelude.{ℕ, ◌≡◌, ◌↔◌, refl, some, List, [], ◌∷◌, ◌++◌, ok, err, arith}
use xmrgateway.Invoice.{SubIndex, transfer_new, Invoice, invoice_new, cmp_by_height}
use xmrgateway.Invoice.Equality.{count, invoice_eq, tallies_eq, tally, bump, all_in}
use xmrgateway.Std.HashMap.{lookup, insert}
use xmrgateway.Scanner.Update.{
  Found, is_settled_below, is_credited, push_found, rescan, add_up, settle, update_one, update_rows,
  update_invoices,
}
use xmrgateway.Scanner.Update.Ledger.{credited, IsFresh, IsBelow, stored_after, update_one-ledger}
use xmrgateway.Scanner.Update.Settle.{IsFirstHeight, settle_lem, total}

abbrev first : SubIndex
first = record { major = 0; minor = 1 }

abbrev second : SubIndex
second = record { major = 0; minor = 2 }

abbrev older : List Found
older = (first, transfer_new 40 (some 12)) ∷ []

abbrev dropped : List Found
dropped = (first, transfer_new 30 (some 14)) ∷ []

abbrev found : List Found
found = (second, transfer_new 5 (some 14)) ∷ (first, transfer_new 60 (some 14)) ∷ []

abbrev stored : Invoice
stored = record (invoice_new "4A" first 11 100 2 20 "") {
  transfers = transfer_new 40 (some 12) ∷ transfer_new 30 (some 14) ∷ [];
  amount_paid = 70;
  current_height = 15;
}

abbrev paid : Invoice
paid = record stored {
  transfers = transfer_new 40 (some 12) ∷ transfer_new 60 (some 14) ∷ [];
  amount_paid = 100;
  paid_height = some 14;
  current_height = 16;
}

older-IsBelow : IsBelow 14 older
unfolding is_settled_below cmp_by_height
older-IsBelow = (refl, tt)

dropped-IsFresh : IsFresh 14 dropped
unfolding is_settled_below cmp_by_height
dropped-IsFresh = (refl, tt)

found-IsFresh : IsFresh 14 found
unfolding is_settled_below cmp_by_height
found-IsFresh = (refl, (refl, tt))

program : Unit {0}
unfolding is_settled_below is_credited cmp_by_height push_found rescan add_up settle update_one
    update_rows update_invoices invoice_new invoice_eq tallies_eq tally bump all_in lookup insert
program = tt

-- The row that cannot be read is skipped, the invoice is saved as paid.
update_invoices-run :
    update_invoices {E = Unit {0}} 15 found 2 (err tt ∷ ok stored ∷ []) ≡ paid ∷ []
unfolding program
update_invoices-run = refl

update_one-ledger_example :
    count
      (transfer_new 60 (some 14))
      (stored_after stored (update_one found 15 14 stored)).transfers
    ≡ count
        (transfer_new 60 (some 14))
        (credited stored.index stored.creation_height (older ++ found))
update_one-ledger_example =
    update_one-ledger found 15 14 stored older dropped older-IsBelow dropped-IsFresh explained
      (transfer_new 60 (some 14))
  where
    explained : stored.transfers ≡ credited stored.index stored.creation_height (older ++ dropped)
    explained = unfold program in refl

settle_lem_example :
    ((settle paid).amount_paid ≡ total paid.transfers)
    × ((p : ℕ)
        → ((settle paid).paid_height ≡ some p)
          ↔ IsFirstHeight paid.amount_requested 0 paid.transfers p)
settle_lem_example =
    settle_lem paid (unfold program in omega arith) (unfold program in omega arith)
      (unfold program in ((refl, tt), (tt, tt)))
