-- ===== src/Tests/Stores.antt =====
-- library/src/storage/stores/in_memory.rs with one invoice, and the guard of
-- library/src/scanner.rs against outputs with the same key.
use xmrgateway.Prelude.{◌≡◌, ◌≢◌, ◌↔◌, refl, true, none, some, [], ◌∷◌, Ordering, ok, arith}
use xmrgateway.Std.BTreeMap.{find, put, delete, range_from}
use xmrgateway.Invoice.{SubIndex, InvoiceId, Invoice, id, cmp_sub_index, cmp_invoice_id}
use xmrgateway.Invoice.Order.{invoice_id_eq}
use xmrgateway.Storage.OutputKeys.{OutputPubKey, OutputId, output_id_eq}
use xmrgateway.Storage.InMemory.{
  InMemory, in_memory_new, invoice_insert, invoice_remove, invoice_update, invoice_get,
  contains_sub_index, output_key_insert, output_key_get, height_upsert,
}
use xmrgateway.Storage.InMemory.Laws.{
  IsFiled, Stored, Change, contains_sub_index_iff, Stored-IsFiled,
}
use xmrgateway.Storage.InMemory.Keys.{in_memory_keys}
use xmrgateway.Scanner.Burning.{
  Checks, key_is_unique, output_key_is_unique, output_key_is_unique_lem,
}

abbrev pub one : SubIndex
one = record { major = 0; minor = 1 }

abbrev pub two : SubIndex
two = record { major = 0; minor = 2 }

-- The invoice has the second subaddress.
abbrev pub ordered : Invoice
ordered = record {
  address = "4A";
  index = two;
  creation_height = 300;
  amount_requested = 100;
  amount_paid = 0;
  paid_height = none;
  confirmations_required = 2;
  current_height = 0;
  expiration_height = 320;
  transfers = [];
  description = "";
}

abbrev pub paid : Invoice
paid = record ordered { amount_paid = 100 }

abbrev holding : InMemory
holding = record { invoices = (id ordered, ordered) ∷ []; output_keys = []; height = some 299 }

abbrev key : OutputPubKey
key = record { bytes = 7 ∷ 9 ∷ [] }

abbrev burnt : OutputId
burnt = record { tx_hash = 2 ∷ []; index = 0 }

abbrev keyed : InMemory
keyed = record holding { output_keys = (key, record { tx_hash = 1 ∷ []; index = 0 }) ∷ [] }

program : Unit {0}
unfolding find put delete range_from cmp_sub_index cmp_invoice_id in_memory_new invoice_insert
    invoice_remove invoice_update invoice_get contains_sub_index output_key_insert output_key_get
    height_upsert key_is_unique output_key_is_unique
program = tt

-- The first subaddress belongs to no invoice, but a later one does.
contains_sub_index-run : contains_sub_index one holding ≡ true
unfolding program
contains_sub_index-run = refl

ordered-inserted : invoice_insert ordered in_memory_new ≡ ok (record holding { height = none })
unfolding program
ordered-inserted = refl

key-accepted : output_key_is_unique in_memory_keys key (1 ∷ []) 0 holding ≡ (ok true, keyed)
unfolding program
key-accepted = refl

holding-Stored : Stored (height_upsert 299 (record holding { height = none })).1
holding-Stored =
    Stored.change (Stored.change Stored.empty (Change.inserted ordered ordered-inserted))
      (Change.upserted 299)

Stored-IsFiled_example : IsFiled (height_upsert 299 (record holding { height = none })).1
Stored-IsFiled_example = Stored-IsFiled holding-Stored

holding-IsFiled : IsFiled holding
unfolding program
holding-IsFiled = record {
  invoices_sorted = (tt, tt);
  keys_sorted = tt;
  under_id = Stored-IsFiled_example.under_id;
}

contains_sub_index_iff_example : (contains_sub_index one holding ≡ true) ↔ (
    (i : InvoiceId) × (inv : Invoice) × (invoice_get i holding ≡ some inv)
    × (cmp_sub_index i.sub_index one ≢ Ordering.lt))
contains_sub_index_iff_example = contains_sub_index_iff one holding

output_key_is_unique_lem_example :
    output_key_is_unique in_memory_keys key (2 ∷ []) 0 keyed
    ≡ (ok (output_id_eq.beq (record { tx_hash = 1 ∷ []; index = 0 }) burnt), keyed)
output_key_is_unique_lem_example =
    output_key_is_unique_lem in_memory_keys key (1 ∷ []) 0 holding key-accepted Checks.nothing burnt
      (omega arith)
