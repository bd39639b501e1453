-- ===== src/Storage/Traits.antt =====
-- library/src/storage: the traits `InvoiceStorage`, `OutputKeyStorage`, `HeightStorage` and `Storage` as
-- one interface, and the methods that they define themselves. `rows` is what `try_for_each` walks
-- over: a row may fail to be read, and so may the whole walk before its first row.
use xmrgateway.Prelude.{
  ℕ, ◌≡◌, ◌≢◌, ◌==◌, Bool, Option, none, some, List, [], ◌∷◌, Result, ok, err, ltb, refl, sym, ap,
  ◌∙◌, ok-injective, err-ne-ok, if◌then◌else◌,
}
use xmrgateway.Invoice.{SubIndex, InvoiceId, Invoice, id}
use xmrgateway.Invoice.Order.{invoice_id_eq}
use xmrgateway.Storage.OutputKeys.{OutputPubKey, OutputId, OutputKeyStorage, output_key_eq}

pub record Storage (E : Type 0) : Type 1 where
  pub Store : Type 0
  pub insert : Invoice → Store → Result E (Unit {0}) × Store
  pub remove : InvoiceId → Store → Result E (Option Invoice) × Store
  pub update : Invoice → Store → Result E (Option Invoice) × Store
  pub get : InvoiceId → Store → Result E (Option Invoice)
  pub get_ids : Store → Result E (List InvoiceId)
  pub contains_sub_index : SubIndex → Store → Result E Bool
  pub rows : Store → Result E (List (Result E Invoice))
  pub get_output_key : OutputPubKey → Store → Result E (Option OutputId)
  pub insert_output_key : OutputPubKey → OutputId → Store → Result E (Unit {0}) × Store
  pub get_height : Store → Result E (Option ℕ)
  pub upsert_height : ℕ → Store → Result E (Option ℕ) × Store
  pub flush : Store → Result E (Unit {0})
  -- An insertion fails for an identifier that is there. Otherwise, when it succeeds, the identifier
  -- is answered with the invoice, and all others as before.
  pub insert_present :
      (inv old : Invoice) (s : Store) → get (id inv) s ≡ ok (some old) → (insert inv s).0 ≢ ok tt
  pub get-insert :
      (inv : Invoice) (s : Store)
      → (insert inv s).0 ≡ ok tt
      → (i : InvoiceId) → get i (insert inv s).1 ≡ (if id inv == i then ok (some inv) else get i s)
  -- A removal returns what the identifier was answered with, and leaves it without an answer.
  pub remove-get :
      (i : InvoiceId) (s : Store) (o : Option Invoice) → (remove i s).0 ≡ ok o → get i s ≡ ok o
  pub get-remove :
      (i : InvoiceId) (s : Store) (o : Option Invoice)
      → (remove i s).0 ≡ ok o
      → (j : InvoiceId) → get j (remove i s).1 ≡ (if i == j then ok none else get j s)
  -- An update makes no identifier answered that was not.
  pub update_stored :
      (inv : Invoice) (s : Store) (i : InvoiceId) (new : Invoice)
      → get i (update inv s).1 ≡ ok (some new)
      → (old : Invoice) × (get i s ≡ ok (some old))
  -- What fails changes nothing, as in the in-memory store. The removal of the sled store is none of
  -- these: it fails with the row gone when the row removed cannot be decoded.
  pub insert_failed :
      (inv : Invoice) (s : Store) (e : E) → (insert inv s).0 ≡ err e → (insert inv s).1 ≡ s
  pub remove_failed :
      (i : InvoiceId) (s : Store) (e : E) → (remove i s).0 ≡ err e → (remove i s).1 ≡ s
  -- A key that was inserted is answered with its output, and the other keys as before.
  pub get_output_key-insert :
      (key : OutputPubKey) (o : OutputId) (s : Store)
      → (insert_output_key key o s).0 ≡ ok tt
      → (asked : OutputPubKey)
      → get_output_key asked (insert_output_key key o s).1
        ≡ (if key == asked then ok (some o) else get_output_key asked s)

module _ {E : Type 0} where
  -- A closure that keeps a state, run on each row until it fails.
  unfoldable pub walk {ℓ} :
      {S : Type ℓ}
      → (Result E Invoice → S → Result E (Unit {0}) × S)
      → List (Result E Invoice)
      → S
      → Result E (Unit {0}) × S
  walk f [] s = (ok tt, s)
  walk f (row ∷ rows) s =
      let (result, next) = f row s in
      elim result [ err e ↦ (err e, next) | ok u ↦ walk f rows next ]

  -- The closure of `lowest_height`, whose state is `lowest`.
  unfoldable pub lower : Result E Invoice → Option ℕ → Result E (Unit {0}) × Option ℕ
  lower (err e) lowest = (err e, lowest)
  lower (ok inv) none = (ok tt, some inv.current_height)
  lower (ok inv) (some l) =
      (ok tt, if ltb inv.current_height l then some inv.current_height else some l)

  module _ (st : Storage E) where
    -- The part of a store that `OutputKeyStorage` speaks of.
    abbrev pub entered : Result E (Unit {0}) → st.Store → Result E st.Store
    entered (ok u) s = ok s
    entered (err e) s = err e

    entered-ok :
        (r : Result E (Unit {0})) (s t : st.Store) → entered r s ≡ ok t → (r ≡ ok tt) × (s ≡ t)
    entered-ok (ok u) s t e = (refl, ok-injective s t e)
    entered-ok (err x) s t e = absurd (err-ne-ok x t e)

    pub get-entered :
        (key : OutputPubKey) (o : OutputId) (s : st.Store) {t : st.Store}
        → entered (st.insert_output_key key o s).0 (st.insert_output_key key o s).1 ≡ ok t
        → (asked : OutputPubKey)
        → st.get_output_key asked t
          ≡ (if key == asked then ok (some o) else st.get_output_key asked s)
    get-entered key o s {t} e asked =
        let (done, same) =
          entered-ok (st.insert_output_key key o s).0 (st.insert_output_key key o s).1 t e in
        ap (st.get_output_key asked) (sym same) ∙ st.get_output_key-insert key o s done asked

    abbrev pub output_keys : OutputKeyStorage E
    output_keys = record {
      Store = st.Store;
      get = st.get_output_key;
      insert = λ key o s. entered (st.insert_output_key key o s).0 (st.insert_output_key key o s).1;
      get-insert = get-entered;
    }

    unfoldable pub try_for_each {ℓ} :
        {S : Type ℓ}
        → (Result E Invoice → S → Result E (Unit {0}) × S)
        → st.Store
        → S
        → Result E (Unit {0}) × S
    try_for_each f store s = elim (st.rows store) [ err e ↦ (err e, s) | ok rows ↦ walk f rows s ]

    unfoldable pub lowest_height : st.Store → Result E (Option ℕ)
    lowest_height store =
        let (result, lowest) = try_for_each lower store none in
        elim result [ err e ↦ err e | ok u ↦ ok lowest ]

  -- The walk over the rows of a store, when they can be had.
  pub try_for_each-walk {ℓ} :
      {S : Type ℓ} (st : Storage E) (f : Result E Invoice → S → Result E (Unit {0}) × S)
      (store : st.Store) (s : S) (rows : List (Result E Invoice))
      → st.rows store ≡ ok rows
      → try_for_each st f store s ≡ walk f rows s
  unfolding try_for_each
  try_for_each-walk st f store s rows e = rw (e, try_for_each) refl
