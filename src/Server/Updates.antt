-- ===== src/Server/Updates.antt =====
-- server/src/lib.rs: the task that watches the updates of all invoices, calls back, and removes what has
-- expired.
use xmrgateway.Prelude.{
  ◌≡◌, ◌≢◌, refl, sym, ap, ◌∙◌, nat_eq, Bool, true, false, not, ◌&&◌, ◌||◌, Option, none, some,
  List, [], ◌∷◌, ◌++◌, map, All, Result-cases, Bool-cases, inl, inr, arith, if◌then◌else◌,
  beq_false,
}
use mathlib.Core.List.{append_assoc, append-nil}
use xmrgateway.External.Channel.{Channel}
use xmrgateway.External.IndexMap.{IndexMap}
use xmrgateway.Invoice.{InvoiceId, Invoice, id, is_expired, is_confirmed, is_paid}
use xmrgateway.Invoice.Order.{invoice_id_eq}
use xmrgateway.Storage.Traits.{Storage}
use xmrgateway.Pubsub.{SenderId}
use xmrgateway.Gateway.{Gateway, gateway_remove_invoice}
use xmrgateway.Server.Callbacks.{CallbackQueue, CallbackCommand, call, send}

-- The test for the removal, for an update.
abbrev pub is_over : Bool → Invoice → Bool
is_over delete_expired invoice =
    is_expired invoice && (is_confirmed invoice || not (is_paid invoice)) && delete_expired

abbrev pub first_update : Invoice → CallbackCommand
first_update invoice = call (record { invoice = invoice; retry_count = 0; delay = 0 })

true-ne-false : true ≢ false
true-ne-false e = ground arith

taken :
    (command : CallbackCommand) (queue : CallbackQueue)
    → queue.is_open ≡ true
    → send command queue ≡ (true, record queue { waiting = queue.waiting ++ command ∷ [] })
unfolding send
taken command queue e =
    ap
      (λ b. elim b as (λ _. Bool × CallbackQueue) [
        | true ↦ (true, record queue { waiting = queue.waiting ++ command ∷ [] })
        | false ↦ (false, queue)
      ])
      e

module _ (D : Type 0) {E : Type 0} (st : Storage E) (ch : Channel Invoice)
    (ix : IndexMap SenderId ch.Sender) where
  abbrev Server : Type 0
  Server = CallbackQueue × Gateway st ch ix

  -- One round of the loop, for the update that was received; nothing is the panic.
  unfoldable pub handle_update : Bool → Invoice → Server → Option Server
  unfolding send
  handle_update delete_expired invoice (queue, gateway) =
      let (is_sent, next) = send (first_update invoice) queue in
      elim is_sent [
        | false ↦ none
        | true ↦ some (
          next,
          if is_over delete_expired invoice
              then (gateway_remove_invoice st ch ix {D = D} (id invoice) gateway).1
              else gateway,
        )
      ]

  unfoldable pub watch : Bool → List Invoice → Server → Option Server
  unfolding handle_update
  watch delete_expired [] s = some s
  watch delete_expired (invoice ∷ rest) s = elim (handle_update delete_expired invoice s) [
    | none ↦ none
    | some next ↦ watch delete_expired rest next
  ]

  -- A removal leaves the other identifiers alone, whether it succeeds or fails.
  others :
      (i j : InvoiceId) (g : Gateway st ch ix)
      → i ≢ j
      → st.get j (gateway_remove_invoice st ch ix {D = D} i g).1.store ≡ st.get j g.store
  unfolding gateway_remove_invoice
  others i j g away = elim (Result-cases (st.remove i g.store).0) [
    | inl (x, f) ↦ rw (f, gateway_remove_invoice) (ap (st.get j) (st.remove_failed i g.store x f))
    | inr (none, f) ↦
        rw (f, gateway_remove_invoice)
          (st.get-remove i g.store none f j ∙ rw (beq_false i j away) refl)
    | inr (some old, f) ↦
        rw (f, gateway_remove_invoice)
          (st.get-remove i g.store (some old) f j ∙ rw (beq_false i j away) refl)
  ]

  -- What one update does.
  handled :
      (delete_expired : Bool) (invoice : Invoice) (queue : CallbackQueue) (g : Gateway st ch ix)
      → queue.is_open ≡ true
      → handle_update delete_expired invoice (queue, g)
        ≡ some (
          record queue { waiting = queue.waiting ++ first_update invoice ∷ [] },
          if is_over delete_expired invoice
              then (gateway_remove_invoice st ch ix {D = D} (id invoice) g).1
              else g,
        )
  unfolding handle_update
  handled delete_expired invoice queue g e =
      ap
        (λ (r : Bool × CallbackQueue). elim r.0 [
          | false ↦ none
          | true ↦ some (
            r.1,
            if is_over delete_expired invoice
                then (gateway_remove_invoice st ch ix {D = D} (id invoice) g).1
                else g,
          )
        ])
        (taken (first_update invoice) queue e)

  watched :
      (delete_expired : Bool) (invoice : Invoice) (rest : List Invoice) (s : Server) {next : Server}
      → handle_update delete_expired invoice s ≡ some next
      → watch delete_expired (invoice ∷ rest) s ≡ watch delete_expired rest next
  unfolding watch
  watched delete_expired invoice rest s e = rw (e, watch) refl

  kept :
      (delete_expired : Bool) (invoice : Invoice) (g : Gateway st ch ix) (i : InvoiceId)
      → (id invoice ≡ i → is_over delete_expired invoice ≡ false)
      → st.get i
          (if is_over delete_expired invoice
            then (gateway_remove_invoice st ch ix {D = D} (id invoice) g).1
            else g).store
        ≡ st.get i g.store
  kept delete_expired invoice g i h = elim (Bool-cases (is_over delete_expired invoice)) [
    | inr stays ↦ rw stays refl
    | inl goes ↦ rw goes (others (id invoice) i g (λ e. true-ne-false (sym goes ∙ h e)))
  ]

  -- While the queue of callbacks is open, the task panics at no update, puts one call for each into
  -- the queue, in their order, and changes what the store answers an identifier only if some update
  -- of it is expired, and confirmed or not paid, and expired invoices are to be deleted.
  pub watch_lem :
      (delete_expired : Bool) (updates : List Invoice) (queue : CallbackQueue)
      (g : Gateway st ch ix)
      → queue.is_open ≡ true
      → (q : CallbackQueue) × (g' : Gateway st ch ix) × (watch delete_expired updates (queue, g)
          ≡ some (q, g'))
        × (q.waiting ≡ queue.waiting ++ map first_update updates)
        × ((i : InvoiceId)
            → All (λ u. id u ≡ i → is_over delete_expired u ≡ false) updates
            → st.get i g'.store ≡ st.get i g.store)
  unfolding watch
  watch_lem delete_expired [] queue g e =
      (queue, g, refl, sym (append-nil queue.waiting), λ i h. refl)
  watch_lem delete_expired (invoice ∷ rest) queue g e =
      let next : CallbackQueue = record queue {
        waiting = queue.waiting ++ first_update invoice ∷ [];
      } in
      let g1 : Gateway st ch ix =
        (if is_over delete_expired invoice
          then (gateway_remove_invoice st ch ix {D = D} (id invoice) g).1
          else g) in
      let (q, g', done, calls, stays) = watch_lem delete_expired rest next g1 e in
      (
        q,
        g',
        watched delete_expired invoice rest (queue, g) (handled delete_expired invoice queue g e)
            ∙ done,
        calls ∙ append_assoc queue.waiting (first_update invoice ∷ []) (map first_update rest),
        λ i h. stays i h.1 ∙ kept delete_expired invoice g i h.0,
      )
