-- ===== src/Scanner/Pass/Saved.antt =====
-- library/src/scanner.rs: the updates of a pass as they are saved and published.
use mathlib.Core.List.{append_assoc, append-nil}
use xmrgateway.Prelude.{
  ℕ, ◌≡◌, refl, sym, ap, ◌∙◌, nat_eq, Option, none, some, List, [], ◌∷◌, ◌++◌, Result, ok, err,
  Result-cases, inl, inr, add64, sub64,
}
use xmrgateway.External.Channel.{Channel}
use xmrgateway.External.IndexMap.{IndexMap}
use xmrgateway.Invoice.{Invoice}
use xmrgateway.Storage.Traits.{Storage, walk, try_for_each, try_for_each-walk}
use xmrgateway.Pubsub.{Publisher, SenderId, send_updates}
use xmrgateway.Scanner.Update.{Found, update_one, update_rows, update_invoices}
use xmrgateway.Scanner.Pass.{note_update, update_stored, save_updates}

module _ {E : Type 0} (found : List Found) (height deepest : ℕ) where
  noted :
      (inv : Invoice) (updated : List Invoice) {o : Option Invoice}
      → update_one found height deepest inv ≡ o
      → note_update {E = E} {X = E} found height deepest (ok inv) updated
        ≡ (ok tt, updated ++ (elim o [ none ↦ [] | some new ↦ new ∷ [] ]))
  unfolding note_update
  noted inv updated {o = none} e = rw (e, note_update, append-nil) refl
  noted inv updated {o = some new} e = rw (e, note_update) refl

  walk_step :
      (row : Result E Invoice) (rows : List (Result E Invoice)) (s t : List Invoice)
      → note_update {X = E} found height deepest row s ≡ (ok tt, t)
      → walk (note_update found height deepest) (row ∷ rows) s
        ≡ walk (note_update found height deepest) rows t
  unfolding walk
  walk_step row rows s t e =
      ap
        (λ (r : Result E (Unit {0}) × List Invoice). elim r.0 [
          | err x ↦ (err x, r.1)
          | ok u ↦ walk (note_update {X = E} found height deepest) rows r.1
        ])
        e

  rows_step :
      (inv : Invoice) (rows : List (Result E Invoice)) {o : Option Invoice}
      → update_one found height deepest inv ≡ o
      → update_rows found height deepest (ok inv ∷ rows)
        ≡ (elim o [ none ↦ [] | some new ↦ new ∷ [] ]) ++ update_rows found height deepest rows
  unfolding update_rows
  rows_step inv rows {o = none} e = rw (e, update_rows) refl
  rows_step inv rows {o = some new} e = rw (e, update_rows) refl

  walk-update_rows :
      (rows : List (Result E Invoice)) (updated : List Invoice)
      → walk (note_update {X = E} found height deepest) rows updated
        ≡ (ok tt, updated ++ update_rows found height deepest rows)
  unfolding walk note_update update_rows
  walk-update_rows [] updated = rw append-nil refl
  walk-update_rows (err e ∷ rows) updated = walk-update_rows rows updated
  walk-update_rows (ok inv ∷ rows) updated =
      let o : Option Invoice = update_one found height deepest inv in
      let new : List Invoice = elim o [ none ↦ [] | some new ↦ new ∷ [] ] in
      walk_step (ok inv) rows updated (updated ++ new) (noted inv updated {o = o} refl)
      ∙ walk-update_rows rows (updated ++ new)
      ∙ ap (λ l. (ok tt, l))
          (append_assoc updated new _
            ∙ ap (λ l. updated ++ l) (sym (rows_step inv rows {o = o} refl)))

module _ {E : Type 0} (st : Storage E) where
  picked :
      (height : ℕ) (found : List Found) (n : ℕ) (s : st.Store) (rows : List (Result E Invoice))
      → st.rows s ≡ ok rows
      → try_for_each st (note_update found height (add64 (sub64 height n) 1)) s []
        ≡ (ok tt, update_rows found height (add64 (sub64 height n) 1) rows)
      → update_stored st height found n s
        ≡ elim (st.rows s) [ err e ↦ err e | ok rows ↦ ok (update_invoices height found n rows) ]
  unfolding update_stored update_invoices
  picked height found n s rows e done = rw e (
      ap (λ (r : Result E (Unit {0}) × List Invoice). elim r.0 [ err x ↦ err x | ok u ↦ ok r.1 ])
        done)

  -- The updates that a pass collects while it walks over the store are those of the rows that can be
  -- read, in their order, if the rows can be walked over, and otherwise the walk's error.
  pub update_stored_lem :
      (height : ℕ) (found : List Found) (n : ℕ) (s : st.Store)
      → update_stored st height found n s
        ≡ elim (st.rows s) [ err e ↦ err e | ok rows ↦ ok (update_invoices height found n rows) ]
  unfolding update_stored try_for_each update_invoices
  update_stored_lem height found n s = elim (Result-cases (st.rows s)) [
    | inl (x, e) ↦ rw (e, update_stored) refl
    | inr (rows, e) ↦
        let done : try_for_each st (note_update found height (add64 (sub64 height n) 1)) s []
            ≡ (ok tt, update_rows found height (add64 (sub64 height n) 1) rows) =
          try_for_each-walk st (note_update found height (add64 (sub64 height n) 1)) s [] rows e
          ∙ walk-update_rows found height (add64 (sub64 height n) 1) rows [] in
        picked height found n s rows e done
  ]

  -- Those of a list of updates that the store takes, one after the other.
  unfoldable pub saved : List Invoice → st.Store → List Invoice
  saved [] s = []
  saved (invoice ∷ rest) s =
      let (result, next) = st.update invoice s in
      elim result [ err e ↦ saved rest next | ok old ↦ invoice ∷ saved rest next ]

  module _ (ch : Channel Invoice) (ix : IndexMap SenderId ch.Sender) where
    abbrev pub send_all : List Invoice → ch.World × Publisher ix.Map → ch.World × Publisher ix.Map
    send_all [] sent = sent
    send_all (invoice ∷ rest) sent = send_all rest (send_updates ch ix invoice sent)

    -- A pass sends to the subscribers exactly the updates that the store has taken, in their order.
    pub save_updates_lem :
        (updates : List Invoice) (s : st.Store) (sent : ch.World × Publisher ix.Map)
        → (save_updates st ch ix updates (s, sent)).1 ≡ send_all (saved updates s) sent
    unfolding save_updates saved
    save_updates_lem [] s sent = refl
    save_updates_lem (invoice ∷ rest) s sent = elim (Result-cases (st.update invoice s).0) [
      | inl (x, e) ↦
          rw (e, save_updates, saved) (save_updates_lem rest (st.update invoice s).1 sent)
      | inr (old, e) ↦
          rw (e, save_updates, saved)
            (save_updates_lem rest (st.update invoice s).1 (send_updates ch ix invoice sent))
    ]
