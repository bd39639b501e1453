-- ===== src/Storage/InMemory/Instance.antt =====
-- The in-memory store as a `Storage`: a store together with the order of its entries.
use xmrgateway.Prelude.{
  ◌≡◌, ◌≢◌, ◌==◌, ◌⊎◌, beq_true, refl, sym, ap, ◌∙◌, Bool, true, false, Option, none, some, map,
  Result, ok, err, if◌then◌else◌, Option-cases, inl, inr, ok-injective, err-ne-ok,
}
use xmrgateway.Invoice.{InvoiceId, Invoice, id}
use xmrgateway.Invoice.Order.{invoice_id_eq}
use xmrgateway.Storage.OutputKeys.{OutputPubKey, OutputId, output_key_eq}
use xmrgateway.Storage.Traits.{Storage}
use xmrgateway.Storage.InMemory.{
  InMemory, InMemoryStorageError, invoice_insert, invoice_remove, invoice_update, invoice_get,
  get_ids, contains_sub_index, output_key_insert, output_key_get, height_upsert, height_get,
  duplicate_invoice,
}
use xmrgateway.Storage.InMemory.Laws.{
  IsFiled, Change, Change-IsFiled, invoice_insert_lem, invoice_remove_lem, invoice_update_lem,
}
use xmrgateway.Storage.InMemory.Keys.{get-output_key_insert}

abbrev pub Filed : Type 0
Filed = (s : InMemory) × IsFiled s

abbrev pub Error : Type 0
Error = InMemoryStorageError

-- The store after a call that may fail, which then leaves it as it was.
abbrev pub after :
    (s : Filed) (r : Result Error InMemory)
    → ((t : InMemory) → r ≡ ok t → Change s.0 t)
    → Result Error (Unit {0}) × Filed
after s (ok t) c = (ok tt, (t, Change-IsFiled (c t refl) s.1))
after s (err e) c = (err e, s)

abbrev pub insert : Invoice → Filed → Result Error (Unit {0}) × Filed
insert inv s = after s (invoice_insert inv s.0) (λ t e. Change.inserted inv e)

abbrev pub insert_key : OutputPubKey → OutputId → Filed → Result Error (Unit {0}) × Filed
insert_key key o s = after s (output_key_insert key o s.0) (λ t e. Change.key_inserted key o e)

after-ok :
    (s : Filed) (r : Result Error InMemory) (c : (t : InMemory) → r ≡ ok t → Change s.0 t)
    → (after s r c).0 ≡ ok tt
    → r ≡ ok (after s r c).1.0
after-ok s (ok t) c e = refl
after-ok s (err x) c e = absurd (err-ne-ok x tt e)

pub after_failed :
    (s : Filed) (r : Result Error InMemory) (c : (t : InMemory) → r ≡ ok t → Change s.0 t)
    (e : Error)
    → (after s r c).0 ≡ err e
    → (after s r c).1 ≡ s
after_failed s (ok t) c e q = absurd (err-ne-ok e tt (sym q))
after_failed s (err x) c e q = refl

pub insert_present :
    (inv old : Invoice) (s : Filed)
    → ◌≡◌ {A = Result Error (Option Invoice)} (ok (invoice_get (id inv) s.0)) (ok (some old))
    → (insert inv s).0 ≢ ok tt
insert_present inv old s e q =
    let known : invoice_get (id inv) s.0 ≡ some old = ok-injective _ _ e in
    let refused : invoice_insert inv s.0 ≡ err duplicate_invoice =
      (invoice_insert_lem inv s.0).0 (λ n. cc) in
    err-ne-ok duplicate_invoice _
      (sym refused ∙ after-ok s (invoice_insert inv s.0) (λ t e. Change.inserted inv e) q)

pub get-insert :
    (inv : Invoice) (s : Filed)
    → (insert inv s).0 ≡ ok tt
    → (i : InvoiceId)
    → ◌≡◌ {A = Result Error (Option Invoice)}
        (ok (invoice_get i (insert inv s).1.0))
        (if id inv == i then ok (some inv) else ok (invoice_get i s.0))
get-insert inv s q i = elim (Option-cases (invoice_get (id inv) s.0)) [
  | inr (old, e) ↦ absurd (insert_present inv old s (ap ok e) q)
  | inl absent ↦
      let (t, entered, answers) = (invoice_insert_lem inv s.0).1 absent in
      let same : t ≡ (insert inv s).1.0 =
        ok-injective _ _
          (sym entered ∙ after-ok s (invoice_insert inv s.0) (λ t e. Change.inserted inv e) q) in
      ap (λ u. ok (invoice_get i u)) (sym same)
      ∙ ap ok (answers i)
      ∙ inside (id inv == i) inv (invoice_get i s.0)
]
  where
    inside :
        (b : Bool) (inv : Invoice) (o : Option Invoice)
        → ◌≡◌ {A = Result Error (Option Invoice)}
            (ok (if b then some inv else o))
            (if b then ok (some inv) else ok o)
    inside true inv o = refl
    inside false inv o = refl

abbrev pub remove : InvoiceId → Filed → Result Error (Option Invoice) × Filed
remove i s =
    (ok (invoice_remove i s.0).0, ((invoice_remove i s.0).1, Change-IsFiled (Change.removed i) s.1))

pub get-remove :
    (i : InvoiceId) (s : Filed) (o : Option Invoice)
    → (remove i s).0 ≡ ok o
    → (j : InvoiceId)
    → ◌≡◌ {A = Result Error (Option Invoice)}
        (ok (invoice_get j (remove i s).1.0))
        (if i == j then ok none else ok (invoice_get j s.0))
get-remove i s o e j =
    ap ok ((invoice_remove_lem i s.0 s.1).1 j) ∙ inside (i == j) (invoice_get j s.0)
  where
    inside :
        (b : Bool) (o : Option Invoice)
        → ◌≡◌ {A = Result Error (Option Invoice)}
            (ok (if b then none else o))
            (if b then ok none else ok o)
    inside true o = refl
    inside false o = refl

pub remove-get :
    (i : InvoiceId) (s : Filed) (o : Option Invoice)
    → (remove i s).0 ≡ ok o
    → ◌≡◌ {A = Result Error (Option Invoice)} (ok (invoice_get i s.0)) (ok o)
remove-get i s o e = ap ok (sym (invoice_remove_lem i s.0 s.1).0) ∙ e

pub remove_failed :
    (i : InvoiceId) (s : Filed) (e : Error) → (remove i s).0 ≡ err e → (remove i s).1 ≡ s
remove_failed i s e q = absurd (err-ne-ok e _ (sym q))

pub get_key-insert :
    (key : OutputPubKey) (o : OutputId) (s : Filed)
    → (insert_key key o s).0 ≡ ok tt
    → (asked : OutputPubKey)
    → ◌≡◌ {A = Result Error (Option OutputId)}
        (ok (output_key_get asked (insert_key key o s).1.0))
        (if key == asked then ok (some o) else ok (output_key_get asked s.0))
get_key-insert key o s q asked =
    get-output_key_insert key o s.0
      (after-ok s (output_key_insert key o s.0) (λ t e. Change.key_inserted key o e) q) asked

answered_of :
    (b : Bool) (inv new : Invoice) (o : Option Invoice)
    → (if b then some inv else o) ≡ some new
    → (b ≡ true) ⊎ (o ≡ some new)
answered_of true inv new o e = inl refl
answered_of false inv new o e = inr e

pub update_stored :
    (inv : Invoice) (s : Filed) (i : InvoiceId) (new : Invoice)
    → ◌≡◌ {A = Result Error (Option Invoice)}
        (ok (invoice_get i (invoice_update inv s.0).1))
        (ok (some new))
    → (old : Invoice) × ◌≡◌ {A = Result Error (Option Invoice)}
        (ok (invoice_get i s.0))
        (ok (some old))
update_stored inv s i new e =
    let (result, answers) = invoice_update_lem inv s.0 in
    let got : invoice_get i (invoice_update inv s.0).1 ≡ some new = ok-injective _ _ e in
    elim (Option-cases (invoice_get (id inv) s.0)) [
      | inl absent ↦
          let same : invoice_get i (invoice_update inv s.0).1 ≡ invoice_get i s.0 =
            answers i ∙ rw absent refl in
          (new, ap ok (sym same ∙ got))
      | inr (old, found) ↦
          let either : (if id inv == i then some inv else invoice_get i s.0) ≡ some new =
            sym (answers i ∙ rw found refl) ∙ got in
          elim (answered_of (id inv == i) inv new (invoice_get i s.0) either) [
            | inl same ↦
                (old, ap ok (ap (λ j. invoice_get j s.0) (sym (beq_true (id inv) i same)) ∙ found))
            | inr kept ↦ (new, ap ok kept)
          ]
    ]

abbrev pub in_memory : Storage InMemoryStorageError
in_memory = record {
  Store = (s : InMemory) × IsFiled s;
  insert = insert;
  remove = remove;
  update = λ inv s. (
    ok (invoice_update inv s.0).0,
    ((invoice_update inv s.0).1, Change-IsFiled (Change.updated inv) s.1),
  );
  get = λ i s. ok (invoice_get i s.0);
  get_ids = λ s. ok (get_ids s.0);
  contains_sub_index = λ k s. ok (contains_sub_index k s.0);
  rows = λ s. ok (map (λ e. ok e.1) s.0.invoices);
  get_output_key = λ key s. ok (output_key_get key s.0);
  insert_output_key = insert_key;
  get_height = λ s. ok (height_get s.0);
  upsert_height = λ h s. (
    ok (height_upsert h s.0).0,
    ((height_upsert h s.0).1, Change-IsFiled (Change.upserted h) s.1),
  );
  flush = λ s. ok tt;
  insert_present = insert_present;
  get-insert = get-insert;
  remove-get = remove-get;
  get-remove = get-remove;
  update_stored = update_stored;
  insert_failed =
      λ inv s e q. after_failed s (invoice_insert inv s.0) (λ t e. Change.inserted inv e) e q;
  remove_failed = remove_failed;
  get_output_key-insert = get_key-insert;
}
