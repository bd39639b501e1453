-- ===== src/Storage/InMemory/Books.antt =====
-- library/src/storage/stores/in_memory.rs: the store as books, that is what it answers, and what each call
-- makes of them.
use xmrgateway.Prelude.{
  ℕ, ◌≡◌, ◌≢◌, ◌↔◌, ◌⊎◌, ◌==◌, refl, sym, ap, ◌∙◌, Bool-cases, inl, inr, Option, Option-cases, none,
  some, List, [], ◌∷◌, map, Result, ok, err, ok-injective, if◌then◌else◌, beq_true, ne_of_beq,
  arith,
}
use xmrgateway.Invoice.{InvoiceId, Invoice, id}
use xmrgateway.Invoice.Order.{invoice_id_eq, invoice_id_ord}
use xmrgateway.Std.BTreeMap.{find, put}
use xmrgateway.Storage.OutputKeys.{OutputPubKey, OutputId, output_key_eq, output_key_ord}
use xmrgateway.Storage.InMemory.{
  InMemory, invoice_insert, invoice_remove, invoice_update, invoice_get, output_key_insert,
  output_key_get, height_upsert, height_get, duplicate_invoice, duplicate_output_key, get_ids,
}
use xmrgateway.Storage.InMemory.Laws.{
  Change, invoice_insert_lem, invoice_remove_lem, invoice_update_lem,
}
use xmrgateway.Storage.InMemory.Keys.{find-put_if}
use xmrgateway.Storage.InMemory.Instance.{in_memory, Filed, Error, after}

-- What a client sees of a store.
pub record Books : Type 0 where
  pub invoices : InvoiceId → Option Invoice
  pub keys : OutputPubKey → Option OutputId
  pub height : Option ℕ

abbrev pub filed : InvoiceId → Option Invoice → Books → Books
filed i o b = record b { invoices = λ j. if i == j then o else b.invoices j }

abbrev pub refused_if : {V : Type 0} → Error → Option V → Result Error (Unit {0})
refused_if e none = ok tt
refused_if e (some old) = err e

abbrev pub Among : InvoiceId → List InvoiceId → Type 0
Among i [] = ⊥
Among i (j ∷ ids) = (i ≡ j) ⊎ Among i ids

abbrev pub seen : InMemory → Books
seen s = record {
  invoices = λ i. invoice_get i s;
  keys = λ k. output_key_get k s;
  height = height_get s;
}

-- What a call on the store that may fail comes to.
after_lem :
    (s : Filed) (r : Result Error InMemory) (c : (t : InMemory) → r ≡ ok t → Change s.0 t)
    → ((after s r c).0 ≡ elim r [ err e ↦ err e | ok t ↦ ok tt ])
      × (seen (after s r c).1.0 ≡ elim r [ err e ↦ seen s.0 | ok t ↦ seen t ])
after_lem s (ok t) c = (refl, refl)
after_lem s (err e) c = (refl, refl)

seen-insert :
    (inv : Invoice) (s : InMemory)
    → invoice_get (id inv) s ≡ none
    → (t : InMemory) × (invoice_insert inv s ≡ ok t) × (seen t ≡ filed (id inv) (some inv) (seen s))
unfolding invoice_insert invoice_get output_key_get height_get
seen-insert inv s absent =
    let t : InMemory = record s { invoices = put (id inv) inv s.invoices } in
    let (u, e, answers) = (invoice_insert_lem inv s).1 absent in
    let made : invoice_insert inv s ≡ ok t = rw (absent, invoice_insert) refl in
    let same : t ≡ u = ok-injective t u (sym made ∙ e) in
    let get : (j : InvoiceId) → invoice_get j t ≡ (filed (id inv) (some inv) (seen s)).invoices j =
      λ j. ap (invoice_get j) same ∙ answers j in
    (
      t,
      made,
      λ i. record { invoices = λ j. get j i; keys = λ k. output_key_get k s; height = s.height },
    )

pub inserted :
    (inv : Invoice) (s : Filed)
    → ((in_memory.insert inv s).0 ≡ refused_if duplicate_invoice (invoice_get (id inv) s.0))
      × (seen (in_memory.insert inv s).1.0 ≡ elim (invoice_get (id inv) s.0) [
        | none ↦ filed (id inv) (some inv) (seen s.0)
        | some old ↦ seen s.0
      ])
inserted inv s =
    let (result, store) = after_lem s (invoice_insert inv s.0) (λ t e. Change.inserted inv e) in
    elim (Option-cases (invoice_get (id inv) s.0)) [
      | inl absent ↦
          let (t, made, turned_it) = seen-insert inv s.0 absent in
          rw absent (result ∙ rw made refl, store ∙ rw made turned_it)
      | inr (old, found) ↦
          let refused : invoice_insert inv s.0 ≡ err duplicate_invoice =
            (invoice_insert_lem inv s.0).0 (λ n. cc) in
          rw found (result ∙ rw refused refl, store ∙ rw refused refl)
    ]

pub seen-remove :
    (i : InvoiceId) (s : Filed)
    → (◌≡◌ {A = Result Error (Option Invoice)}
        (ok (invoice_remove i s.0).0)
        (ok (invoice_get i s.0)))
      × (seen (invoice_remove i s.0).1 ≡ filed i none (seen s.0))
unfolding invoice_remove output_key_get height_get
seen-remove i s =
    let (result, answers) = invoice_remove_lem i s.0 s.1 in
    (
      ap ok result,
      λ k. record {
        invoices = λ j. answers j k;
        keys = λ k. output_key_get k s.0;
        height = height_get s.0;
      },
    )

updated_absent :
    (inv : Invoice) (s : InMemory)
    → invoice_get (id inv) s ≡ none
    → invoice_update inv s ≡ (none, s)
unfolding invoice_update invoice_get
updated_absent inv s absent = rw (absent, invoice_update) refl

updated_found :
    (inv old : Invoice) (s : InMemory)
    → invoice_get (id inv) s ≡ some old
    → invoice_update inv s ≡ (some old, record s { invoices = put (id inv) inv s.invoices })
unfolding invoice_update invoice_get
updated_found inv old s found = rw (found, invoice_update) refl

seen_found :
    (inv old : Invoice) (s : InMemory)
    → invoice_get (id inv) s ≡ some old
    → seen (invoice_update inv s).1 ≡ filed (id inv) (some inv) (seen s)
unfolding invoice_get output_key_get height_get
seen_found inv old s found =
    let store = ap (λ x. x.1) (updated_found inv old s found) in
    let t : InMemory = record s { invoices = put (id inv) inv s.invoices } in
    let get : (j : InvoiceId) → invoice_get j t ≡ (filed (id inv) (some inv) (seen s)).invoices j =
      λ j. ap (invoice_get j) (sym store) ∙ (invoice_update_lem inv s).1 j ∙ rw found refl in
    ap seen store
    ∙ (λ i. record { invoices = λ j. get j i; keys = λ k. output_key_get k s; height = s.height })

pub seen-update :
    (inv : Invoice) (s : InMemory)
    → (◌≡◌ {A = Result Error (Option Invoice)}
        (ok (invoice_update inv s).0)
        (ok (invoice_get (id inv) s)))
      × (seen (invoice_update inv s).1 ≡ elim (invoice_get (id inv) s) [
        | none ↦ seen s
        | some old ↦ filed (id inv) (some inv) (seen s)
      ])
seen-update inv s = (
  ap ok (invoice_update_lem inv s).0,
  elim (Option-cases (invoice_get (id inv) s)) [
    | inl absent ↦ ap (λ x. seen x.1) (updated_absent inv s absent) ∙ rw absent refl
    | inr (old, found) ↦ seen_found inv old s found ∙ rw found refl
  ],
)

pub seen-upsert :
    (h : ℕ) (s : InMemory)
    → (◌≡◌ {A = Result Error (Option ℕ)} (ok (height_upsert h s).0) (ok (height_get s)))
      × (seen (height_upsert h s).1 ≡ record (seen s) { height = some h })
unfolding height_upsert invoice_get output_key_get height_get
seen-upsert h s = (refl, refl)

seen-key :
    (key : OutputPubKey) (o : OutputId) (s : InMemory)
    → output_key_get key s ≡ none
    → (t : InMemory) × (output_key_insert key o s ≡ ok t)
      × (seen t ≡ record (seen s) { keys = λ k. if key == k then some o else output_key_get k s })
unfolding output_key_insert invoice_get output_key_get height_get
seen-key key o s absent = (
  record s { output_keys = put key o s.output_keys },
  rw (absent, output_key_insert) refl,
  λ i. record {
    invoices = λ j. invoice_get j s;
    keys = λ k. find-put_if key k o s.output_keys i;
    height = s.height;
  },
)

key_refused :
    (key : OutputPubKey) (o old : OutputId) (s : InMemory)
    → output_key_get key s ≡ some old
    → output_key_insert key o s ≡ err duplicate_output_key
unfolding output_key_insert output_key_get
key_refused key o old s found = rw (found, output_key_insert) refl

pub key_inserted :
    (key : OutputPubKey) (o : OutputId) (s : Filed)
    → ((in_memory.insert_output_key key o s).0
        ≡ refused_if duplicate_output_key (output_key_get key s.0))
      × (seen (in_memory.insert_output_key key o s).1.0 ≡ elim (output_key_get key s.0) [
        | none ↦ record (seen s.0) { keys = λ k. if key == k then some o else output_key_get k s.0 }
        | some old ↦ seen s.0
      ])
key_inserted key o s =
    let (result, store) =
      after_lem s (output_key_insert key o s.0) (λ t e. Change.key_inserted key o e) in
    elim (Option-cases (output_key_get key s.0)) [
      | inl absent ↦
          let (t, made, turned_it) = seen-key key o s.0 absent in
          rw absent (result ∙ rw made refl, store ∙ rw made turned_it)
      | inr (old, found) ↦
          let refused = key_refused key o old s.0 found in
          rw found (result ∙ rw refused refl, store ∙ rw refused refl)
    ]

find_away :
    (i j : InvoiceId) (v : Invoice) (m : List (InvoiceId × Invoice))
    → i ≢ j
    → find i ((j, v) ∷ m) ≡ find i m
unfolding find
find_away i j v m h = ground (arith, invoice_id_ord.cmp_eq_iff i j)

find_here :
    (i j : InvoiceId) (v : Invoice) (m : List (InvoiceId × Invoice))
    → i ≡ j
    → find i ((j, v) ∷ m) ≡ some v
unfolding find
find_here i j v m e = ground (arith, invoice_id_ord.cmp_eq_iff i j)

listed :
    (i : InvoiceId) (m : List (InvoiceId × Invoice))
    → (find i m ≢ none) ↔ Among i (map (λ e. e.0) m)
listed i [] = (λ h. h (unfold find in refl), λ h. absurd h)
listed i ((j, v) ∷ m) = elim (Bool-cases (i == j)) [
  | inl e ↦
      let here : find i ((j, v) ∷ m) ≡ some v = find_here i j v m (beq_true i j e) in
      (λ h. inl (beq_true i j e), λ a n. some_ne_none v (sym here ∙ n))
  | inr e ↦
      let differ : i ≢ j = ne_of_beq i j e in
      let away : find i ((j, v) ∷ m) ≡ find i m = find_away i j v m differ in
      (
        λ h. inr ((listed i m).0 (λ n. h (away ∙ n))),
        λ a n. elim a [ inl same ↦ differ same | inr later ↦ (listed i m).1 later (sym away ∙ n) ],
      )
]
  where
    some_ne_none : (v : Invoice) → some v ≢ none
    some_ne_none v e = ground arith

pub listed-get_ids : (s : InMemory) (i : InvoiceId) → (invoice_get i s ≢ none) ↔ Among i (get_ids s)
unfolding invoice_get get_ids
listed-get_ids s i = listed i s.invoices
