-- ===== src/Storage/InMemory/Laws.antt =====
-- What the operations of the in-memory store do to what it answers.
use xmrgateway.Prelude.{
  ℕ, ◌≡◌, ◌≢◌, ◌↔◌, inl, inr, refl, true, none, some, List, ok, err, arith, Option-cases, Ordering,
  ◌==◌, if◌then◌else◌, beq_true, ne_of_beq, Bool-cases, ap, sym, ◌∙◌, subst,
}
use mathlib.Core.Option.{some-injective}
use xmrgateway.Std.BTreeMap.{
  find, put, delete, IsSorted, find-put, find-delete, put-IsSorted, delete-IsSorted,
  range_from-find, find-range_from,
}
use xmrgateway.Invoice.{SubIndex, InvoiceId, Invoice, id, cmp_invoice_id, cmp_sub_index}
use xmrgateway.Invoice.Order.{invoice_id_ord, invoice_id_eq, cmp_invoice_id-eq_iff}
use xmrgateway.Storage.OutputKeys.{OutputPubKey, OutputId, output_key_ord}
use xmrgateway.Storage.InMemory.{
  InMemory, in_memory_new, invoice_insert, invoice_remove, invoice_update, invoice_get,
  contains_sub_index, output_key_insert, height_upsert, duplicate_invoice,
}

-- Every entry stands under the identifier of its invoice, and the keys are in order.
pub record IsFiled (s : InMemory) : Type 0 where
  pub invoices_sorted : IsSorted s.invoices
  pub keys_sorted : IsSorted s.output_keys
  pub under_id : (i : InvoiceId) (inv : Invoice) → invoice_get i s ≡ some inv → id inv ≡ i

-- The calls that change a store.
pub data Change (s : InMemory) : InMemory → Type 0 where
  inserted : (inv : Invoice) {t : InMemory} → invoice_insert inv s ≡ ok t → Change s t
  removed : (i : InvoiceId) → Change s (invoice_remove i s).1
  updated : (inv : Invoice) → Change s (invoice_update inv s).1
  key_inserted :
      (key : OutputPubKey) (o : OutputId) {t : InMemory}
      → output_key_insert key o s ≡ ok t
      → Change s t
  upserted : (h : ℕ) → Change s (height_upsert h s).1

pub data Stored : InMemory → Type 0 where
  empty : Stored in_memory_new
  change : {s t : InMemory} → Stored s → Change s t → Stored t

-- The answer to a search after an entry was put in, with the equality test of identifiers.
find-put_if :
    (i j : InvoiceId) (inv : Invoice) (m : List (InvoiceId × Invoice))
    → find j (put i inv m) ≡ (if i == j then some inv else find j m)
find-put_if i j inv m = elim (Bool-cases (i == j)) [
  | inl e ↦ ground (arith, find-put i j inv m, cmp_invoice_id-eq_iff j i, beq_true i j)
  | inr e ↦ ground (arith, find-put i j inv m, cmp_invoice_id-eq_iff j i, ne_of_beq i j)
]

find-delete_if :
    (i j : InvoiceId) (m : List (InvoiceId × Invoice))
    → IsSorted m
    → find j (delete i m) ≡ (if i == j then none else find j m)
find-delete_if i j m h = elim (Bool-cases (i == j)) [
  | inl e ↦ ground (arith, find-delete i j m h, cmp_invoice_id-eq_iff j i, beq_true i j)
  | inr e ↦ ground (arith, find-delete i j m h, cmp_invoice_id-eq_iff j i, ne_of_beq i j)
]

-- The insertion of an invoice fails as a duplicate if its identifier is in the store, and otherwise
-- succeeds, after which its identifier is answered with it and every other one as before.
pub invoice_insert_lem :
    (inv : Invoice) (s : InMemory)
    → (invoice_get (id inv) s ≢ none → invoice_insert inv s ≡ err duplicate_invoice)
      × (invoice_get (id inv) s ≡ none
          → (t : InMemory) × (invoice_insert inv s ≡ ok t)
            × ((j : InvoiceId)
                → invoice_get j t ≡ (if id inv == j then some inv else invoice_get j s)))
unfolding invoice_get invoice_insert
invoice_insert_lem inv s = (
  λ present. elim (Option-cases (find (id inv) s.invoices)) [
    | inl absent ↦ absurd (present absent)
    | inr (old, found) ↦ rw (found, invoice_insert) refl
  ],
  λ absent. (
    record s { invoices = put (id inv) inv s.invoices },
    rw (absent, invoice_insert) refl,
    λ j. find-put_if (id inv) j inv s.invoices,
  ),
)

-- An update returns the stored invoice of the same identifier; if there is one, the identifier is
-- answered with the new invoice afterwards, and every other one as before; if there is none, every
-- answer stays.
pub invoice_update_lem :
    (inv : Invoice) (s : InMemory)
    → ((invoice_update inv s).0 ≡ invoice_get (id inv) s)
      × ((j : InvoiceId)
          → invoice_get j (invoice_update inv s).1 ≡ elim (invoice_get (id inv) s) [
            | none ↦ invoice_get j s
            | some old ↦ if id inv == j then some inv else invoice_get j s
          ])
unfolding invoice_get invoice_update
invoice_update_lem inv s = elim (Option-cases (find (id inv) s.invoices)) [
  | inl absent ↦ rw (absent, invoice_update) (refl, λ j. refl)
  | inr (old, found) ↦ rw (found, invoice_update) (refl, λ j. find-put_if (id inv) j inv s.invoices)
]

-- If a store's entries are in order and under their invoices' identifiers, a removal returns the
-- invoice of the identifier, after which it has none, and every other one is answered as before.
pub invoice_remove_lem :
    (i : InvoiceId) (s : InMemory)
    → IsFiled s
    → ((invoice_remove i s).0 ≡ invoice_get i s)
      × ((j : InvoiceId)
          → invoice_get j (invoice_remove i s).1 ≡ (if i == j then none else invoice_get j s))
unfolding invoice_get invoice_remove
invoice_remove_lem i s f = (refl, λ j. find-delete_if i j s.invoices f.invoices_sorted)

-- The store says that it contains a subaddress index exactly when some stored invoice has that
-- subaddress index or a greater one.
pub contains_sub_index_iff :
    (x : SubIndex) (s : InMemory)
    → (contains_sub_index x s ≡ true) ↔ (
        (i : InvoiceId) × (inv : Invoice) × (invoice_get i s ≡ some inv)
        × (cmp_sub_index i.sub_index x ≢ Ordering.lt))
unfolding contains_sub_index invoice_get
contains_sub_index_iff x s = (
  λ h.
      let (i, inv, found, above) = range_from-find (start x) s.invoices h in
      (i, inv, found, unstart i above),
  λ (i, inv, found, above). find-range_from (start x) i inv s.invoices found (at_start i above),
)
  where
    start : SubIndex → InvoiceId
    start y = record { sub_index = y; creation_height = 0 }

    unstart :
        (i : InvoiceId)
        → cmp_invoice_id i (start x) ≢ Ordering.lt
        → cmp_sub_index i.sub_index x ≢ Ordering.lt
    unstart i h = unfold cmp_invoice_id in ground arith

    at_start :
        (i : InvoiceId)
        → cmp_sub_index i.sub_index x ≢ Ordering.lt
        → cmp_invoice_id i (start x) ≢ Ordering.lt
    at_start i h = unfold cmp_invoice_id in ground arith

filed : Invoice → InMemory → InMemory
filed inv s = record s { invoices = put (id inv) inv s.invoices }

filed-IsFiled : (inv : Invoice) (s : InMemory) → IsFiled s → IsFiled (filed inv s)
unfolding filed
filed-IsFiled inv s f = record {
  invoices_sorted = put-IsSorted (id inv) inv s.invoices f.invoices_sorted;
  keys_sorted = f.keys_sorted;
  under_id = under;
}
  where
    under :
        (j : InvoiceId) (other : Invoice) → invoice_get j (filed inv s) ≡ some other → id other ≡ j
    under j other g = elim (Bool-cases (id inv == j)) [
      | inl same ↦
          let at : some inv ≡ some other =
            unfold invoice_get filed in (ground (arith, find-put_if (id inv) j inv s.invoices)) in
          ap id (sym (some-injective inv other at)) ∙ beq_true (id inv) j same
      | inr away ↦
          f.under_id j other
            (unfold invoice_get filed in ground (arith, find-put_if (id inv) j inv s.invoices))
    ]

inserted-filed :
    (inv : Invoice) (s : InMemory) {t : InMemory} → invoice_insert inv s ≡ ok t → filed inv s ≡ t
unfolding invoice_insert filed
inserted-filed inv s e = ground arith

updated-filed :
    (inv : Invoice) (s : InMemory) {old : Invoice}
    → invoice_get (id inv) s ≡ some old
    → (invoice_update inv s).1 ≡ filed inv s
unfolding invoice_get invoice_update filed
updated-filed inv s e = ground arith

updated_absent :
    (inv : Invoice) (s : InMemory) → invoice_get (id inv) s ≡ none → (invoice_update inv s).1 ≡ s
unfolding invoice_get invoice_update
updated_absent inv s e = ground arith

keyed : OutputPubKey → OutputId → InMemory → InMemory
keyed key o s = record s { output_keys = put key o s.output_keys }

keyed-IsFiled :
    (key : OutputPubKey) (o : OutputId) (s : InMemory) → IsFiled s → IsFiled (keyed key o s)
unfolding keyed
keyed-IsFiled key o s f = record {
  invoices_sorted = f.invoices_sorted;
  keys_sorted = put-IsSorted key o s.output_keys f.keys_sorted;
  under_id = unfold invoice_get in f.under_id;
}

inserted-keyed :
    (key : OutputPubKey) (o : OutputId) (s : InMemory) {t : InMemory}
    → output_key_insert key o s ≡ ok t
    → keyed key o s ≡ t
unfolding output_key_insert keyed
inserted-keyed key o s e = ground arith

pub Change-IsFiled : {s t : InMemory} → Change s t → IsFiled s → IsFiled t
Change-IsFiled {s} (inserted inv e) f =
    subst IsFiled (inserted-filed inv s e) (filed-IsFiled inv s f)
Change-IsFiled {s} (removed i) f = record {
  invoices_sorted = unfold invoice_remove in delete-IsSorted i s.invoices f.invoices_sorted;
  keys_sorted = unfold invoice_remove in f.keys_sorted;
  under_id = λ j inv g. f.under_id j inv (ground (arith, (invoice_remove_lem i s f).1 j));
}
Change-IsFiled {s} (updated inv) f = elim (Option-cases (invoice_get (id inv) s)) [
  | inl absent ↦ subst IsFiled (sym (updated_absent inv s absent)) f
  | inr (old, found) ↦ subst IsFiled (sym (updated-filed inv s found)) (filed-IsFiled inv s f)
]
Change-IsFiled {s} (key_inserted key o e) f =
    subst IsFiled (inserted-keyed key o s e) (keyed-IsFiled key o s f)
Change-IsFiled {s} (upserted h) f =
    unfold height_upsert invoice_get in
    record {
      invoices_sorted = f.invoices_sorted;
      keys_sorted = f.keys_sorted;
      under_id = unfold invoice_get in f.under_id;
    }

-- In every store that the calls can lead to, the entries are in the order of their keys, and every
-- invoice stands under its own identifier.
pub Stored-IsFiled : {s : InMemory} → Stored s → IsFiled s
Stored-IsFiled empty = record {
  invoices_sorted = unfold in_memory_new in tt;
  keys_sorted = unfold in_memory_new in tt;
  under_id = λ i inv g. absurd (unfold in_memory_new invoice_get find in ground arith);
}
Stored-IsFiled (change r c) = Change-IsFiled c (Stored-IsFiled r)
