-- ===== src/Gateway/Tidy.antt =====
-- library/src/payment_gateway.rs: which subaddresses are free, and which have an invoice.
use xmrgateway.Prelude.{
  ℕ, ◌≡◌, ◌≢◌, ◌==◌, refl, sym, ap, subst, ◌∙◌, String, nat_eq, Option, none, some, Result, ok,
  if◌then◌else◌, true, false, Bool-cases, Option-cases, Result-cases, inl, inr, arith, beq_true,
  beq_refl, beq_false,
}
use xmrgateway.Std.HashMap.{lookup, lookup-insert, insert-Distinct}
use xmrgateway.External.Channel.{Channel}
use xmrgateway.External.IndexMap.{IndexMap}
use xmrgateway.Invoice.{SubIndex, InvoiceId, Invoice, invoice_new, id}
use xmrgateway.Invoice.Order.{sub_index_eq, invoice_id_eq}
use xmrgateway.Storage.Traits.{Storage}
use xmrgateway.Pubsub.{SenderId}
use xmrgateway.Caching.SubaddressCache.{SubaddressCache, remove_random, insert_available}
use xmrgateway.Caching.SubaddressCache.Reuse.{
  IsSound, IsGone, insert-IsUpTo, remove_random_lem, remove_random-IsGone,
}
use xmrgateway.Gateway.{Gateway, track, new_invoice, creation_height_now, gateway_remove_invoice}

beq_of : (i j : InvoiceId) → i ≡ j → (i == j) ≡ true
beq_of i j e = subst (λ k. (i == k) ≡ true) e (beq_refl i)

nothing :
    {E : Type 0} {inv : Invoice} → ◌≢◌ {A = Result E (Option Invoice)} (ok none) (ok (some inv))
nothing e = ground arith

module _ {E : Type 0} (st : Storage E) where
  abbrev pub Stored : InvoiceId → st.Store → Type 0
  Stored i s = (inv : Invoice) × (st.get i s ≡ ok (some inv))

  -- The subaddress of every stored invoice is neither free nor yet to be generated, and no two
  -- stored invoices share one.
  pub record IsTidy (s : st.Store) (c : SubaddressCache) : Type 0 where
    pub sound : IsSound c
    pub taken : (i : InvoiceId) → Stored i s → IsGone i.sub_index c
    pub apart : (i j : InvoiceId) → Stored i s → Stored j s → i.sub_index ≡ j.sub_index → i ≡ j

  -- A draw keeps all this.
  drawn-IsTidy :
      (get_subaddress : SubIndex → String) (n : ℕ) (s : st.Store) (c c' : SubaddressCache)
      (k : SubIndex) (address : String)
      → IsTidy s c
      → remove_random get_subaddress n c ≡ some ((k, address), c')
      → IsTidy s c' × IsGone k c' × ((i : InvoiceId) → Stored i s → i.sub_index ≢ k)
  drawn-IsTidy get_subaddress n s c c' k address t e =
      let (free, gone, kept) = remove_random-IsGone get_subaddress n c k address t.sound e in
      let (absent, sound) = remove_random_lem get_subaddress n c k address t.sound e in
      (
        record { sound = sound; taken = λ i h. kept i.sub_index (t.taken i h); apart = t.apart },
        gone,
        λ i h same.
            free (ap (λ j. lookup j c.available_subaddresses) (sym same) ∙ (t.taken i h).taken),
      )

  earlier-Stored :
      (new : InvoiceId) (o : Option Invoice) (s s' : st.Store) (i : InvoiceId)
      → st.get i s' ≡ (if new == i then ok o else st.get i s)
      → Stored i s'
      → (new == i) ≡ false
      → Stored i s
  earlier-Stored new o s s' i answer (inv, h) other = (inv, sym (answer ∙ rw other refl) ∙ h)

  -- An invoice on a subaddress that is gone and that no other invoice has can be stored.
  inserted-IsTidy :
      (inv : Invoice) (s : st.Store) (c : SubaddressCache)
      → IsTidy s c
      → IsGone inv.index c
      → ((i : InvoiceId) → Stored i s → i.sub_index ≢ inv.index)
      → (st.insert inv s).0 ≡ ok tt
      → IsTidy (st.insert inv s).1 c
  inserted-IsTidy inv s c t gone new done = record {
    sound = t.sound;
    taken = λ i h. elim (Bool-cases (id inv == i)) [
      | inl same ↦ subst (λ (j : InvoiceId). IsGone j.sub_index c) (beq_true (id inv) i same) gone
      | inr other ↦ t.taken i (before i h other)
    ];
    apart = λ i j hi hj e. elim (Bool-cases (id inv == i)) [
      | inl same ↦ elim (Bool-cases (id inv == j)) [
        | inl also ↦ sym (beq_true (id inv) i same) ∙ beq_true (id inv) j also
        | inr other ↦ absurd (
            new j (before j hj other)
              (sym e ∙ ap (λ (m : InvoiceId). m.sub_index) (sym (beq_true (id inv) i same))))
      ]
      | inr other ↦ elim (Bool-cases (id inv == j)) [
        | inl also ↦ absurd (
            new i (before i hi other)
              (e ∙ ap (λ (m : InvoiceId). m.sub_index) (sym (beq_true (id inv) j also))))
        | inr others ↦ t.apart i j (before i hi other) (before j hj others) e
      ]
    ];
  }
    where
      before : (i : InvoiceId) → Stored i (st.insert inv s).1 → (id inv == i) ≡ false → Stored i s
      before i h other =
          earlier-Stored (id inv) (some inv) s (st.insert inv s).1 i (st.get-insert inv s done i) h
            other

  -- A removal frees the subaddress of the invoice alone.
  removed-IsTidy :
      (i : InvoiceId) (old : Invoice) (s : st.Store) (c : SubaddressCache)
      → IsTidy s c
      → (st.remove i s).0 ≡ ok (some old)
      → IsTidy (st.remove i s).1 (insert_available i.sub_index old.address c).1
  unfolding insert_available
  removed-IsTidy i old s c t done = record {
    sound = record {
      once = insert-Distinct i.sub_index old.address c.available_subaddresses t.sound.once;
      known =
          insert-IsUpTo c.highest_minor_index i.sub_index old.address c.available_subaddresses
            here.passed t.sound.known;
    };
    taken = λ j h. record {
      taken =
          lookup-insert i.sub_index j.sub_index old.address c.available_subaddresses
          ∙ rw
              (beq_false i.sub_index j.sub_index
                (λ e. away j h (t.apart i j (old, found) (before j h) e)))
              (t.taken j (before j h)).taken;
      passed = (t.taken j (before j h)).passed;
    };
    apart = λ j m hj hm. t.apart j m (before j hj) (before m hm);
  }
    where
      found : st.get i s ≡ ok (some old)
      found = st.remove-get i s (some old) done

      here : IsGone i.sub_index c
      here = t.taken i (old, found)

      away : (j : InvoiceId) → Stored j (st.remove i s).1 → i ≢ j
      away j (inv, h) e =
          absurd (nothing (sym (st.get-remove i s (some old) done j ∙ rw (beq_of i j e) refl) ∙ h))

      before : (j : InvoiceId) → Stored j (st.remove i s).1 → Stored j s
      before j h =
          earlier-Stored i none s (st.remove i s).1 j (st.get-remove i s (some old) done j) h
            (beq_false i j (away j h))

  absent-IsTidy :
      (i : InvoiceId) (s : st.Store) (c : SubaddressCache)
      → IsTidy s c
      → (st.remove i s).0 ≡ ok none
      → IsTidy (st.remove i s).1 c
  absent-IsTidy i s c t done = record {
    sound = t.sound;
    taken = λ j h. t.taken j (before j h);
    apart = λ j m hj hm. t.apart j m (before j hj) (before m hm);
  }
    where
      before : (j : InvoiceId) → Stored j (st.remove i s).1 → Stored j s
      before j (inv, h) = elim (Bool-cases (i == j)) [
        | inl same ↦ absurd (nothing (sym (st.get-remove i s none done j ∙ rw same refl) ∙ h))
        | inr other ↦
            earlier-Stored i none s (st.remove i s).1 j (st.get-remove i s none done j) (inv, h)
              other
      ]

module _ {E D : Type 0} (st : Storage E) (ch : Channel Invoice)
    (ix : IndexMap SenderId ch.Sender) where
  module _ (get_subaddress : SubIndex → String) where
    -- If the subaddress of every stored invoice is neither free nor yet to be generated, and no two
    -- stored invoices share one, then both hold after a new invoice was asked for, whether it was
    -- stored, or the daemon or the store failed.
    pub new_invoice-IsTidy :
        (n : ℕ) (daemon_height : Result D ℕ) (piconeros required expiration : ℕ)
        (description : String) (g : Gateway st ch ix)
        → IsTidy st g.store g.subaddresses
        → IsTidy st
            (new_invoice st ch ix get_subaddress n daemon_height piconeros required expiration
              description g).1.store
            (new_invoice st ch ix get_subaddress n daemon_height piconeros required expiration
              description g).1.subaddresses
    unfolding new_invoice track invoice_new
    new_invoice-IsTidy n daemon_height piconeros required expiration description g t =
        elim (Option-cases (remove_random get_subaddress n g.subaddresses)) [
          | inl gone ↦ rw (gone, new_invoice) t
          | inr (((k, address), c), e) ↦
              let (drawn, gone, new) =
                drawn-IsTidy st get_subaddress n g.store g.subaddresses c k address t e in
              elim (Result-cases (creation_height_now st ch ix daemon_height g)) [
                | inl (x, f) ↦ rw (e, f, new_invoice) drawn
                | inr (h, f) ↦
                    let inv : Invoice =
                      invoice_new address k h piconeros required expiration description in
                    rw (e, f, new_invoice) (stored inv c drawn gone new)
              ]
        ]
      where
        stored :
            (inv : Invoice) (c : SubaddressCache)
            → IsTidy st g.store c
            → IsGone inv.index c
            → ((i : InvoiceId) → Stored st i g.store → i.sub_index ≢ inv.index)
            → IsTidy st
                (track st ch ix {D = D} inv (record g { subaddresses = c })).1.store
                (track st ch ix {D = D} inv (record g { subaddresses = c })).1.subaddresses
        stored inv c t gone new = elim (Result-cases (st.insert inv g.store).0) [
          | inl (x, f) ↦
              rw (f, track) (subst (λ s. IsTidy st s c) (sym (st.insert_failed inv g.store x f)) t)
          | inr (u, f) ↦ rw (f, track) (inserted-IsTidy st inv g.store c t gone new f)
        ]

module _ (D : Type 0) {E : Type 0} (st : Storage E) (ch : Channel Invoice)
    (ix : IndexMap SenderId ch.Sender) where
  -- If the subaddress of every stored invoice is neither free nor yet to be generated, and no two
  -- stored invoices share one, then both hold after a removal was asked for, whether there was such
  -- an invoice or not, or the store failed.
  pub remove_invoice-IsTidy :
      (i : InvoiceId) (g : Gateway st ch ix)
      → IsTidy st g.store g.subaddresses
      → IsTidy st
          (gateway_remove_invoice st ch ix {D = D} i g).1.store
          (gateway_remove_invoice st ch ix {D = D} i g).1.subaddresses
  unfolding gateway_remove_invoice
  remove_invoice-IsTidy i g t = elim (Result-cases (st.remove i g.store).0) [
    | inl (x, f) ↦
        rw (f, gateway_remove_invoice)
          (subst (λ s. IsTidy st s g.subaddresses) (sym (st.remove_failed i g.store x f)) t)
    | inr (none, f) ↦ rw (f, gateway_remove_invoice) (absent-IsTidy st i g.store g.subaddresses t f)
    | inr (some old, f) ↦
        rw (f, gateway_remove_invoice) (removed-IsTidy st i old g.store g.subaddresses t f)
  ]
