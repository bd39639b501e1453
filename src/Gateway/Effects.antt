-- ===== src/Gateway/Effects.antt =====
-- library/src/payment_gateway.rs: what `new_invoice` and `remove_invoice` do to the store, the publisher
-- and the free subaddresses.

use xmrgateway.Prelude.{
  ℕ, ◌≡◌, ◌≢◌, ◌⊎◌, ◌==◌, refl, sym, ap, ◌∙◌, String, nat_eq, none, some, [], Result, ok, err,
  if◌then◌else◌, Option-cases, Result-cases, inl, inr, arith, err-ne-ok, err-injective, beq_refl,
}
use xmrgateway.Std.HashMap.{lookup, lookup-insert, lookup-remove}
use xmrgateway.External.Channel.{Channel}
use xmrgateway.External.IndexMap.{IndexMap}
use xmrgateway.Invoice.{SubIndex, InvoiceId, Invoice, invoice_new, id}
use xmrgateway.Invoice.Order.{sub_index_eq, invoice_id_eq}
use xmrgateway.Storage.Traits.{Storage}
use xmrgateway.Pubsub.{SenderId, insert_invoice, remove_invoice}
use xmrgateway.Caching.SubaddressCache.{SubaddressCache, remove_random, insert_available}
use xmrgateway.Caching.SubaddressCache.Reuse.{IsSound, remove_random-IsGone}
use xmrgateway.Gateway.{
  Gateway, GatewayError, panicked, track, new_invoice, creation_height_now, gateway_remove_invoice,
}

module _ {E : Type 0} (st : Storage E) (ch : Channel Invoice)
    (ix : IndexMap SenderId ch.Sender) where
  -- The gateway tracks an invoice, and everything else as before.
  pub record Tracks (inv : Invoice) (before after : Gateway st ch ix) : Type 0 where
    pub stored :
        (j : InvoiceId)
        → st.get j after.store ≡ (if id inv == j then ok (some inv) else st.get j before.store)
    pub published :
        (j : InvoiceId)
        → lookup j after.publisher.invoice_subs
          ≡ (if id inv == j then some ix.empty else lookup j before.publisher.invoice_subs)

module _ {E D : Type 0} (st : Storage E) (ch : Channel Invoice)
    (ix : IndexMap SenderId ch.Sender) where
  track-Tracks :
      (inv : Invoice) (g : Gateway st ch ix) (i : InvoiceId)
      → (track st ch ix {D = D} inv g).0 ≡ ok i
      → (i ≡ id inv) × Tracks st ch ix inv g (track st ch ix {D = D} inv g).1
  unfolding track insert_invoice
  track-Tracks inv g i e = elim (Result-cases (st.insert inv g.store).0) [
    | inl (x, f) ↦ absurd (ground (arith, f, e))
    | inr (u, f) ↦
        let same : id inv ≡ i = ground (arith, f, e) in
        (
          sym same,
          rw (f, track)
              (record {
                stored = st.get-insert inv g.store f;
                published = λ j. lookup-insert (id inv) j ix.empty g.publisher.invoice_subs;
              }),
        )
  ]

  track_failed :
      (inv : Invoice) (g : Gateway st ch ix) (e : GatewayError E D)
      → (track st ch ix {D = D} inv g).0 ≡ err e
      → (track st ch ix {D = D} inv g).1 ≡ g
  unfolding track
  track_failed inv g e h = elim (Result-cases (st.insert inv g.store).0) [
    | inl (x, f) ↦
        rw (f, track) (ap (λ s. record g { store = s }) (st.insert_failed inv g.store x f))
    | inr (u, f) ↦ absurd (ground (arith, f, h))
  ]

  module _ (get_subaddress : SubIndex → String) (n : ℕ) (daemon_height : Result D ℕ)
      (piconeros required expiration : ℕ) (description : String) (g : Gateway st ch ix) where
    abbrev asked : Result (GatewayError E D) InvoiceId × Gateway st ch ix
    asked =
        new_invoice st ch ix get_subaddress n daemon_height piconeros required expiration
          description g

    -- What a call that succeeds or fails went through.
    new_invoice_cases :
        (asked ≡ (err panicked, g))
        ⊎ ((k : SubIndex) × (address : String) × (c : SubaddressCache) × (remove_random
                get_subaddress n g.subaddresses
              ≡ some ((k, address), c))
            × (((x : GatewayError E D) × (asked ≡ (err x, record g { subaddresses = c })))
                ⊎ ((h : ℕ) × (creation_height_now st ch ix daemon_height g ≡ ok h)
                    × (asked
                        ≡ track st ch ix
                            (invoice_new address k h piconeros required expiration description)
                            (record g { subaddresses = c })))))
    unfolding new_invoice
    new_invoice_cases = elim (Option-cases (remove_random get_subaddress n g.subaddresses)) [
      | inl gone ↦ inl (rw (gone, new_invoice) refl)
      | inr (((k, address), c), e) ↦ inr (
        k,
        address,
        c,
        e,
        elim (Result-cases (creation_height_now st ch ix daemon_height g)) [
          | inl (x, f) ↦ inl (x, rw (e, f, new_invoice) refl)
          | inr (h, f) ↦ inr (h, f, rw (e, f, new_invoice) refl)
        ],
      )
    ]

    -- If a new invoice is created, then the store answers its identifier with an unpaid invoice for
    -- the amount and the confirmations asked for, with the description given, and the other
    -- identifiers as before, and the publisher has an entry without subscribers for it and the
    -- other entries as before.
    pub new_invoice_lem :
        (i : InvoiceId)
        → asked.0 ≡ ok i
        → (inv : Invoice) × (i ≡ id inv)
          × (inv.amount_requested ≡ piconeros)
          × (inv.confirmations_required ≡ required)
          × (inv.amount_paid ≡ 0)
          × (inv.transfers ≡ [])
          × (inv.description ≡ description)
          × Tracks st ch ix inv g asked.1
    unfolding invoice_new
    new_invoice_lem i e = elim new_invoice_cases [
      | inl q ↦ absurd (err-ne-ok panicked i (ap (λ r. r.0) (sym q) ∙ e))
      | inr (k, address, c, drawn, inl (x, q)) ↦ absurd (err-ne-ok x i (ap (λ r. r.0) (sym q) ∙ e))
      | inr (k, address, c, drawn, inr (h, known, q)) ↦
          let inv : Invoice = invoice_new address k h piconeros required expiration description in
          let (same, tracks) =
            track-Tracks inv (record g { subaddresses = c }) i (ap (λ r. r.0) (sym q) ∙ e) in
          (
            inv,
            same,
            refl,
            refl,
            refl,
            refl,
            refl,
            rw q (record { stored = tracks.stored; published = tracks.published }),
          )
    ]

    -- If a new invoice cannot be created, although a subaddress was drawn and the free subaddresses
    -- were sound, then store and publisher are as before, but a subaddress that was free is not
    -- free any more.
    pub new_invoice_failed :
        (e : GatewayError E D)
        → asked.0 ≡ err e
        → e ≢ panicked
        → IsSound g.subaddresses
        → (asked.1.store ≡ g.store)
          × (asked.1.publisher ≡ g.publisher)
          × (k : SubIndex) × (lookup k g.subaddresses.available_subaddresses ≢ none)
          × (lookup k asked.1.subaddresses.available_subaddresses ≡ none)
    new_invoice_failed e failed other sound = elim new_invoice_cases [
      | inl q ↦ absurd (other (err-injective e panicked (sym failed ∙ ap (λ r. r.0) q)))
      | inr (k, address, c, drawn, rest) ↦
          let (free, gone, kept) =
            remove_random-IsGone get_subaddress n g.subaddresses k address sound drawn in
          let same : asked.1 ≡ record g { subaddresses = c } = elim rest [
            | inl (x, q) ↦ ap (λ r. r.1) q
            | inr (h, known, q) ↦
                ap (λ r. r.1) q
                ∙ track_failed _ (record g { subaddresses = c }) e (ap (λ r. r.0) (sym q) ∙ failed)
          ] in
          rw same (refl, refl, k, free, gone.taken)
    ]

module _ (D : Type 0) {E : Type 0} (st : Storage E) (ch : Channel Invoice)
    (ix : IndexMap SenderId ch.Sender) where
  -- If the removal of an identifier returns an invoice, then the store had answered the identifier
  -- with it and answers it with nothing from then on, its subaddress is free with the invoice's
  -- address, and the publisher has no entry for the identifier.
  pub remove_invoice_lem :
      (i : InvoiceId) (old : Invoice) (g : Gateway st ch ix)
      → (gateway_remove_invoice st ch ix {D = D} i g).0 ≡ ok (some old)
      → (st.get i g.store ≡ ok (some old))
        × (st.get i (gateway_remove_invoice st ch ix {D = D} i g).1.store ≡ ok none)
        × (lookup i.sub_index
              (gateway_remove_invoice st ch ix {D = D} i g).1.subaddresses.available_subaddresses
            ≡ some old.address)
        × (lookup i (gateway_remove_invoice st ch ix {D = D} i g).1.publisher.invoice_subs ≡ none)
  unfolding gateway_remove_invoice remove_invoice insert_available
  remove_invoice_lem i old g e = elim (Result-cases (st.remove i g.store).0) [
    | inl (x, f) ↦ absurd (ground (arith, f, e))
    | inr (none, f) ↦ absurd (ground (arith, f, e))
    | inr (some inv, f) ↦
        let same : inv ≡ old = ground (arith, f, e) in
        rw (f, gateway_remove_invoice)
          (
            st.remove-get i g.store (some inv) f ∙ ap (λ o. ok (some o)) same,
            st.get-remove i g.store (some inv) f i ∙ rw (beq_refl i) refl,
            lookup-insert i.sub_index i.sub_index inv.address g.subaddresses.available_subaddresses
                ∙ rw (beq_refl i.sub_index) (ap (λ (o : Invoice). some o.address) same),
            lookup-remove i i g.publisher.invoice_subs ∙ rw (beq_refl i) refl,
          )
  ]
