-- ===== src/Storage/Manager/Answers.antt =====
-- library/src/storage/mod.rs over library/src/storage/stores/in_memory.rs: what the clients of a manager
-- that owns an in-memory store are answered.
use xmrgateway.Prelude.{
  map, ℕ, Option, ◌≡◌, ◌≢◌, ◌↔◌, ◌==◌, Bool, true, none, some, List, [], ◌∷◌, Result, ok,
  if◌then◌else◌, Ordering,
}
use xmrgateway.Invoice.{InvoiceId, Invoice, id, cmp_sub_index}
use xmrgateway.Invoice.Order.{invoice_id_eq, invoice_id_ord}
use xmrgateway.Storage.OutputKeys.{output_key_eq, output_key_ord}
use xmrgateway.Storage.InMemory.{duplicate_invoice, duplicate_output_key, contains_sub_index}
use xmrgateway.Storage.InMemory.Instance.{in_memory, Error}
use xmrgateway.Storage.InMemory.Least.{IsLeast}
use xmrgateway.Storage.InMemory.Walks.{AreInvoices}
use xmrgateway.Storage.Traits.{walk}
use xmrgateway.Storage.Manager.{Method}
use xmrgateway.Storage.Manager.Queue.{Message, Response, State}
use xmrgateway.Storage.InMemory.Books.{Books, filed, refused_if, Among, seen}

module _ {Shared : Type 0} where
  -- The right answer to a message.
  abbrev pub IsAnswer : {A : Type 0} → Method Error Shared A → Books → Result Error A → Type 0
  IsAnswer (Method.insert_invoice inv) b r = r ≡ refused_if duplicate_invoice (b.invoices (id inv))
  IsAnswer (Method.remove_invoice i) b r = r ≡ ok (b.invoices i)
  IsAnswer (Method.update_invoice inv) b r = r ≡ ok (b.invoices (id inv))
  IsAnswer (Method.get_invoice i) b r = r ≡ ok (b.invoices i)
  IsAnswer Method.get_invoice_ids b r =
      (ids : List InvoiceId) × (r ≡ ok ids)
      × ((i : InvoiceId) → (b.invoices i ≢ none) ↔ Among i ids)
  IsAnswer (Method.contains_sub_index x) b r =
      (c : Bool) × (r ≡ ok c)
      × ((c ≡ true) ↔ (
          (i : InvoiceId) × (inv : Invoice) × (b.invoices i ≡ some inv)
          × (cmp_sub_index i.sub_index x ≢ Ordering.lt)))
  IsAnswer (Method.for_each_invoice f) b r =
      (invs : List Invoice) × AreInvoices invs b
      × ((shared : Shared) × (r ≡ (walk f (map ok invs) shared).0))
  IsAnswer Method.lowest_invoice_height b r = (o : Option ℕ) × (r ≡ ok o) × IsLeast o b
  IsAnswer Method.get_height b r = r ≡ ok b.height
  IsAnswer (Method.upsert_height h) b r = r ≡ ok b.height
  IsAnswer (Method.get_output_key_id key) b r = r ≡ ok (b.keys key)
  IsAnswer (Method.insert_output_key key o) b r = r ≡ refused_if duplicate_output_key (b.keys key)
  IsAnswer Method.flush b r = r ≡ ok tt

  -- What a message makes of the books.
  abbrev pub turned : {A : Type 0} → Method Error Shared A → Books → Books
  turned (Method.insert_invoice inv) b = elim (b.invoices (id inv)) [
    | none ↦ filed (id inv) (some inv) b
    | some old ↦ b
  ]
  turned (Method.remove_invoice i) b = filed i none b
  turned (Method.update_invoice inv) b = elim (b.invoices (id inv)) [
    | none ↦ b
    | some old ↦ filed (id inv) (some inv) b
  ]
  turned (Method.upsert_height h) b = record b { height = some h }
  turned (Method.insert_output_key key o) b = elim (b.keys key) [
    | none ↦ record b { keys = λ k. if key == k then some o else b.keys k }
    | some old ↦ b
  ]
  turned _ b = b

  abbrev pub books : State in_memory Shared → Books
  books s = seen s.0.0

  -- A response to a message on the books is of the message's type, and the right answer.
  abbrev pub Answers : Message in_memory Shared → Books → Response in_memory Shared → Type 1
  Answers (A, m) b response = (r : Result Error A) × (response ≡ (A, r)) × IsAnswer m b r

  -- One message after the other is answered rightly on what the earlier ones made of the books.
  abbrev pub Explains :
      List (Message in_memory Shared) → Books → List (Response in_memory Shared) → Books → Type 1
  Explains [] b responses c = (responses ≡ []) × (b ≡ c)
  Explains (m ∷ ms) b responses c =
      (r : Response in_memory Shared) × (rest : List (Response in_memory Shared)) × (responses
        ≡ r ∷ rest)
      × Answers m b r
      × Explains ms (turned m.1 b) rest c
