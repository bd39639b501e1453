-- ===== src/Storage/InMemory.antt =====
-- library/src/storage/stores/in_memory.rs: the store that keeps everything in memory. The methods of
-- its three traits carry the trait's word in front.
pub mod Laws
pub mod Keys
pub mod Instance
pub mod Books
pub mod Least
pub mod Walks
use xmrgateway.Prelude.{ℕ, Bool, Option, none, some, List, [], ◌∷◌, map, Result, ok, err, not}
use xmrgateway.Std.BTreeMap.{find, put, delete, range_from, is_nonempty}
use xmrgateway.Invoice.{SubIndex, InvoiceId, Invoice, id}
use xmrgateway.Invoice.Order.{invoice_id_ord}
use xmrgateway.Storage.OutputKeys.{OutputPubKey, OutputId, output_key_ord}

pub record InMemory : Type 0 where
  pub invoices : List (InvoiceId × Invoice)
  pub output_keys : List (OutputPubKey × OutputId)
  pub height : Option ℕ

pub data InMemoryStorageError : Type 0 where
  duplicate_invoice : InMemoryStorageError
  duplicate_output_key : InMemoryStorageError

unfoldable pub in_memory_new : InMemory
in_memory_new = record { invoices = []; output_keys = []; height = none }

-- An error leaves the store as it was.
unfoldable pub invoice_insert : Invoice → InMemory → Result InMemoryStorageError InMemory
invoice_insert invoice s = elim (find (id invoice) s.invoices) [
  | some old ↦ err duplicate_invoice
  | none ↦ ok (record s { invoices = put (id invoice) invoice s.invoices })
]

unfoldable pub invoice_remove : InvoiceId → InMemory → Option Invoice × InMemory
invoice_remove invoice_id s =
    (find invoice_id s.invoices, record s { invoices = delete invoice_id s.invoices })

unfoldable pub invoice_update : Invoice → InMemory → Option Invoice × InMemory
invoice_update invoice s = elim (find (id invoice) s.invoices) [
  | some old ↦ (some old, record s { invoices = put (id invoice) invoice s.invoices })
  | none ↦ (none, s)
]

unfoldable pub invoice_get : InvoiceId → InMemory → Option Invoice
invoice_get invoice_id s = find invoice_id s.invoices

unfoldable pub get_ids : InMemory → List InvoiceId
get_ids s = map (λ e. e.0) s.invoices

unfoldable pub contains_sub_index : SubIndex → InMemory → Bool
contains_sub_index sub_index s =
    is_nonempty (range_from (record { sub_index = sub_index; creation_height = 0 }) s.invoices)

unfoldable pub is_empty : InMemory → Bool
is_empty s = not (is_nonempty s.invoices)

-- `try_for_each`, with the state that the closure keeps; it stops at the closure's first error.
unfoldable pub for_each_entry {ℓ} :
    {S : Type ℓ}
    → (Result InMemoryStorageError Invoice → S → Result InMemoryStorageError (Unit {0}) × S)
    → List (InvoiceId × Invoice)
    → S
    → Result InMemoryStorageError (Unit {0}) × S
for_each_entry f [] s = (ok tt, s)
for_each_entry f ((k, invoice) ∷ rest) s =
    let (result, next) = f (ok invoice) s in
    elim result [ err e ↦ (err e, next) | ok u ↦ for_each_entry f rest next ]

unfoldable pub output_key_insert :
    OutputPubKey → OutputId → InMemory → Result InMemoryStorageError InMemory
output_key_insert key output_id s = elim (find key s.output_keys) [
  | some old ↦ err duplicate_output_key
  | none ↦ ok (record s { output_keys = put key output_id s.output_keys })
]

unfoldable pub output_key_get : OutputPubKey → InMemory → Option OutputId
output_key_get key s = find key s.output_keys

unfoldable pub height_upsert : ℕ → InMemory → Option ℕ × InMemory
height_upsert height s = (s.height, record s { height = some height })

unfoldable pub height_get : InMemory → Option ℕ
height_get s = s.height
