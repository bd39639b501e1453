-- ===== src/Gateway/Served.antt =====
-- library/src/payment_gateway.rs: a gateway from its building through its operations, while a scanner
-- saves updates to its store and publishes its heights.
use xmrgateway.Prelude.{
  ℕ, ◌≡◌, nat_eq, String, List, map, Result, ok, All, subst, sym, ◌∙◌, ok-injective,
}
use xmrgateway.External.Channel.{Channel}
use xmrgateway.External.IndexMap.{IndexMap}
use xmrgateway.Invoice.{SubIndex, InvoiceId, Invoice}
use xmrgateway.Storage.Traits.{Storage}
use xmrgateway.Pubsub.{SenderId}
use xmrgateway.Caching.SubaddressCache.{SubaddressCache}
use xmrgateway.Gateway.{Gateway, new_invoice, gateway_remove_invoice}
use xmrgateway.Gateway.Tidy.{Stored, IsTidy, new_invoice-IsTidy, remove_invoice-IsTidy}
use xmrgateway.Gateway.Build.{Parsers, PaymentGatewayBuilder, Built, build, Has, build-IsTidy}

module _ {E : Type 0} (st : Storage E) where
  updated-IsTidy :
      (inv : Invoice) (s : st.Store) (c : SubaddressCache)
      → IsTidy st s c
      → IsTidy st (st.update inv s).1 c
  updated-IsTidy inv s c t = record {
    sound = t.sound;
    taken = λ i h. t.taken i (before i h);
    apart = λ i j hi hj. t.apart i j (before i hi) (before j hj);
  }
    where
      before : (i : InvoiceId) → Stored st i (st.update inv s).1 → Stored st i s
      before i (new, h) = st.update_stored inv s i new h

module _ (D : Type 0) (ps : Parsers) {E : Type 0} (st : Storage E) (ch : Channel Invoice)
    (ix : IndexMap SenderId ch.Sender) where
  -- What becomes of a gateway that the builder has made.
  pub data Served (b : PaymentGatewayBuilder st.Store) : Gateway st ch ix → Type 0 where
    built : {m : Built ps st ch ix} → build ps st ch ix b ≡ ok m → Served b m.gateway
    created :
        {g : Gateway st ch ix} (get_subaddress : SubIndex → String) (n : ℕ)
        (daemon_height : Result D ℕ) (piconeros required expiration : ℕ) (description : String)
        → Served b g
        → Served b
            (new_invoice st ch ix get_subaddress n daemon_height piconeros required expiration
              description g).1
    removed :
        {g : Gateway st ch ix} (i : InvoiceId)
        → Served b g
        → Served b (gateway_remove_invoice st ch ix {D = D} i g).1
    saved :
        {g : Gateway st ch ix} (inv : Invoice)
        → Served b g
        → Served b (record g { store = (st.update inv g.store).1 })
    scanned :
        {g : Gateway st ch ix} (block_cache_height cached_daemon_height : ℕ)
        → Served b g
        → Served b (record g {
          block_cache_height = block_cache_height;
          cached_daemon_height = cached_daemon_height;
        })

  -- A store that a gateway is built on: its rows can be read and have the builder's account index,
  -- every stored invoice is among them, and no two share a subaddress.
  pub record IsFit (b : PaymentGatewayBuilder st.Store) (invs : List Invoice) : Type 0 where
    pub readable : st.rows b.store ≡ ok (map ok invs)
    pub account : All (λ inv. inv.index.major ≡ b.major_index) invs
    pub covers : (i : InvoiceId) → Stored st i b.store → Has i.sub_index invs
    pub apart :
        (i j : InvoiceId)
        → Stored st i b.store
        → Stored st j b.store
        → i.sub_index ≡ j.sub_index
        → i ≡ j

  -- If url, view key and address can be parsed, and the rows of the store can be read, have the
  -- builder's account index, include every stored invoice, and no two stored invoices share a
  -- subaddress, then in the gateway that is built, and after any new invoices, removals, saved
  -- updates and published heights, failed calls included, the subaddress of every stored invoice is
  -- neither free nor yet to be generated, and no two stored invoices share one.
  pub Served-IsTidy :
      (b : PaymentGatewayBuilder st.Store) (uri : ps.Uri) (view : ps.ViewKey) (spend : ps.SpendKey)
      (invs : List Invoice)
      → ps.parse_uri b.daemon_url ≡ ok uri
      → ps.parse_key b.private_view_key ≡ ok view
      → ps.parse_address b.primary_address ≡ ok spend
      → IsFit b invs
      → (g : Gateway st ch ix) → Served b g
      → IsTidy st g.store g.subaddresses
  Served-IsTidy b uri view spend invs u v s fit g (built {m} e) =
      let (m', e', tidy) =
        build-IsTidy ps st ch ix b uri view spend invs u v s fit.readable fit.account fit.covers
          fit.apart in
      subst (λ (x : Built ps st ch ix). IsTidy st x.gateway.store x.gateway.subaddresses)
        (ok-injective m' m (sym e' ∙ e)) tidy
  Served-IsTidy b uri view spend invs u v s fit g
        (created {g = before} get_subaddress n dh p r x d sv) =
      new_invoice-IsTidy st ch ix get_subaddress n dh p r x d before
        (Served-IsTidy b uri view spend invs u v s fit before sv)
  Served-IsTidy b uri view spend invs u v s fit g (removed {g = before} i sv) =
      remove_invoice-IsTidy D st ch ix i before
        (Served-IsTidy b uri view spend invs u v s fit before sv)
  Served-IsTidy b uri view spend invs u v s fit g (saved {g = before} inv sv) =
      updated-IsTidy st inv before.store before.subaddresses
        (Served-IsTidy b uri view spend invs u v s fit before sv)
  Served-IsTidy b uri view spend invs u v s fit g (scanned {g = before} h dh sv) =
      Served-IsTidy b uri view spend invs u v s fit before sv
