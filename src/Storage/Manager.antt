-- ===== src/Storage/Manager.antt =====
-- library/src/storage/mod.rs: the manager, which owns the store and handles one message after the
-- other, and the client, which sends a message with a channel for the response and awaits it.
-- `Shared` is the memory that the closures of `ForEachInvoice` write to.
pub mod Queue
pub mod Answers
use xmrgateway.Prelude.{ℕ, Bool, true, false, Option, none, some, List, [], ◌∷◌, Result, ok, err}
use xmrgateway.Invoice.{SubIndex, InvoiceId, Invoice}
use xmrgateway.Storage.OutputKeys.{OutputPubKey, OutputId}
use xmrgateway.Storage.Traits.{Storage, try_for_each, lowest_height}

-- A message for the manager, by the type of its response.
pub data Method (E Shared : Type 0) : Type 0 → Type 1 where
  insert_invoice : Invoice → Method E Shared (Unit {0})
  remove_invoice : InvoiceId → Method E Shared (Option Invoice)
  update_invoice : Invoice → Method E Shared (Option Invoice)
  get_invoice : InvoiceId → Method E Shared (Option Invoice)
  get_invoice_ids : Method E Shared (List InvoiceId)
  contains_sub_index : SubIndex → Method E Shared Bool
  for_each_invoice :
      (Result E Invoice → Shared → Result E (Unit {0}) × Shared) → Method E Shared (Unit {0})
  lowest_invoice_height : Method E Shared (Option ℕ)
  get_height : Method E Shared (Option ℕ)
  upsert_height : ℕ → Method E Shared (Option ℕ)
  get_output_key_id : OutputPubKey → Method E Shared (Option OutputId)
  insert_output_key : OutputPubKey → OutputId → Method E Shared (Unit {0})
  flush : Method E Shared (Unit {0})

pub data StorageError (E : Type 0) : Type 0 where
  send : StorageError E
  receive : StorageError E
  internal : E → StorageError E

abbrev pub internal_error : {E A : Type 0} → Result E A → Result (StorageError E) A
internal_error (ok a) = ok a
internal_error (err e) = err (internal e)

module _ {E : Type 0} (st : Storage E) (Shared : Type 0) where
  -- The response, and what the message leaves of the store and of the shared memory.
  unfoldable pub handle :
      {A : Type 0} → Method E Shared A → st.Store × Shared → Result E A × (st.Store × Shared)
  handle (Method.insert_invoice invoice) (store, shared) =
      let (result, next) = st.insert invoice store in (result, (next, shared))
  handle (Method.remove_invoice id) (store, shared) =
      let (result, next) = st.remove id store in (result, (next, shared))
  handle (Method.update_invoice invoice) (store, shared) =
      let (result, next) = st.update invoice store in (result, (next, shared))
  handle (Method.get_invoice id) (store, shared) = (st.get id store, (store, shared))
  handle Method.get_invoice_ids (store, shared) = (st.get_ids store, (store, shared))
  handle (Method.contains_sub_index index) (store, shared) =
      (st.contains_sub_index index store, (store, shared))
  handle (Method.for_each_invoice f) (store, shared) =
      let (result, next) = try_for_each st f store shared in (result, (store, next))
  handle Method.lowest_invoice_height (store, shared) = (lowest_height st store, (store, shared))
  handle Method.get_height (store, shared) = (st.get_height store, (store, shared))
  handle (Method.upsert_height height) (store, shared) =
      let (result, next) = st.upsert_height height store in (result, (next, shared))
  handle (Method.get_output_key_id key) (store, shared) =
      (st.get_output_key key store, (store, shared))
  handle (Method.insert_output_key key output_id) (store, shared) =
      let (result, next) = st.insert_output_key key output_id store in (result, (next, shared))
  handle Method.flush (store, shared) = (st.flush store, (store, shared))

  -- The manager as a client meets it: it serves; it has stopped with its queue still open, so that a
  -- message is taken in and never answered; or its queue is closed.
  pub data Manager : Type 0 where
    serving : st.Store × Shared → Manager
    stopping : Manager
    closed : Manager

  -- The body that the client's methods share.
  unfoldable pub request :
      {A : Type 0} → Method E Shared A → Manager → Result (StorageError E) A × Manager
  unfolding handle
  request message (serving s) =
      let (response, next) = handle message s in (internal_error response, serving next)
  request message stopping = (err receive, closed)
  request message closed = (err send, closed)

  unfoldable pub client_insert_invoice :
      Invoice → Manager → Result (StorageError E) (Unit {0}) × Manager
  client_insert_invoice invoice = request (Method.insert_invoice invoice)

  unfoldable pub client_remove_invoice :
      InvoiceId → Manager → Result (StorageError E) (Option Invoice) × Manager
  client_remove_invoice id = request (Method.remove_invoice id)

  unfoldable pub client_update_invoice :
      Invoice → Manager → Result (StorageError E) (Option Invoice) × Manager
  client_update_invoice invoice = request (Method.update_invoice invoice)

  unfoldable pub client_get_invoice :
      InvoiceId → Manager → Result (StorageError E) (Option Invoice) × Manager
  client_get_invoice id = request (Method.get_invoice id)

  unfoldable pub client_get_invoice_ids :
      Manager → Result (StorageError E) (List InvoiceId) × Manager
  client_get_invoice_ids = request Method.get_invoice_ids

  unfoldable pub client_contains_sub_index :
      SubIndex → Manager → Result (StorageError E) Bool × Manager
  client_contains_sub_index index = request (Method.contains_sub_index index)

  unfoldable pub client_try_for_each_invoice :
      (Result E Invoice → Shared → Result E (Unit {0}) × Shared)
      → Manager
      → Result (StorageError E) (Unit {0}) × Manager
  client_try_for_each_invoice f = request (Method.for_each_invoice f)

  unfoldable pub client_lowest_invoice_height :
      Manager → Result (StorageError E) (Option ℕ) × Manager
  client_lowest_invoice_height = request Method.lowest_invoice_height

  unfoldable pub client_get_height : Manager → Result (StorageError E) (Option ℕ) × Manager
  client_get_height = request Method.get_height

  unfoldable pub client_upsert_height : ℕ → Manager → Result (StorageError E) (Option ℕ) × Manager
  client_upsert_height height = request (Method.upsert_height height)

  unfoldable pub client_get_output_key_id :
      OutputPubKey → Manager → Result (StorageError E) (Option OutputId) × Manager
  client_get_output_key_id key = request (Method.get_output_key_id key)

  unfoldable pub client_insert_output_key :
      OutputPubKey → OutputId → Manager → Result (StorageError E) (Unit {0}) × Manager
  client_insert_output_key key output_id = request (Method.insert_output_key key output_id)

  unfoldable pub client_flush : Manager → Result (StorageError E) (Unit {0}) × Manager
  client_flush = request Method.flush
