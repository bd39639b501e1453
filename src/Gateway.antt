-- ===== src/Gateway.antt =====
-- library/src/payment_gateway.rs: the gateway, which hands out invoices and takes them back. The
-- storage is that of a manager that serves. The heights are those that the scanner last published;
-- the random draw of a subaddress and the daemon's answer are arguments.
pub mod Tidy
pub mod Effects
pub mod Control
pub mod Build
pub mod Served
pub mod Scanning
use xmrgateway.Prelude.{
  ℕ, Bool, true, false, String, nat_eq, nat_beq, Option, none, some, List, Result, ok, err,
  if◌then◌else◌, not, ◌||◌, ◌&&◌, ltb,
}
use xmrgateway.External.Channel.{Channel}
use xmrgateway.External.IndexMap.{IndexMap}
use xmrgateway.Invoice.{SubIndex, InvoiceId, Invoice, invoice_new, id, is_expired, is_confirmed}
use xmrgateway.Storage.Traits.{Storage}
use xmrgateway.Pubsub.{
  Publisher, SenderId, insert_invoice, remove_invoice, subscribe, subscribe_all,
}
use xmrgateway.Caching.SubaddressCache.{SubaddressCache, remove_random, insert_available}

-- The errors of `AcceptXmrError` that can arise here, and the panic of a draw from no subaddress.
pub data GatewayError (E D : Type 0) : Type 0 where
  storage : E → GatewayError E D
  rpc : D → GatewayError E D
  panicked : GatewayError E D

module _ {E : Type 0} (st : Storage E) (ch : Channel Invoice)
    (ix : IndexMap SenderId ch.Sender) where
  pub record Gateway : Type 0 where
    pub store : st.Store
    pub subaddresses : SubaddressCache
    pub publisher : Publisher ix.Map
    pub block_cache_height : ℕ
    pub cached_daemon_height : ℕ

  module _ {D : Type 0} where
    -- `daemon_height`
    abbrev pub gateway_daemon_height : Result D ℕ → Result (GatewayError E D) ℕ
    gateway_daemon_height (err e) = err (rpc e)
    gateway_daemon_height (ok h) = ok h

    -- The height that a new invoice is created at.
    unfoldable pub creation_height_now : Result D ℕ → Gateway → Result (GatewayError E D) ℕ
    creation_height_now daemon_height g =
        if not (nat_beq g.cached_daemon_height 0)
        then ok g.cached_daemon_height
        else gateway_daemon_height daemon_height

    -- `new_invoice` from the storage on, for an invoice that was built.
    unfoldable pub track : Invoice → Gateway → Result (GatewayError E D) InvoiceId × Gateway
    track invoice g =
        let (result, s) = st.insert invoice g.store in
        elim result [
          | err e ↦ (err (storage e), record g { store = s })
          | ok u ↦ (
            ok (id invoice),
            record g { store = s; publisher = insert_invoice ch ix (id invoice) g.publisher },
          )
        ]

    module _ (get_subaddress : SubIndex → String) where
      unfoldable pub new_invoice :
          ℕ
          → Result D ℕ
          → ℕ
          → ℕ
          → ℕ
          → String
          → Gateway
          → Result (GatewayError E D) InvoiceId × Gateway
      unfolding track
      new_invoice map_index daemon_height piconeros confirmations_required expiration_in description
            g =
          elim (remove_random get_subaddress map_index g.subaddresses) [
            | none ↦ (err panicked, g)
            | some ((sub_index, subaddress), cache) ↦
                let drawn = record g { subaddresses = cache } in
                elim (creation_height_now daemon_height g) [
                  | err e ↦ (err e, drawn)
                  | ok creation_height ↦
                      track
                        (invoice_new subaddress sub_index creation_height piconeros
                          confirmations_required expiration_in description)
                        drawn
                ]
          ]

    unfoldable pub gateway_remove_invoice :
        InvoiceId → Gateway → Result (GatewayError E D) (Option Invoice) × Gateway
    gateway_remove_invoice invoice_id g =
        let (result, s) = st.remove invoice_id g.store in
        elim result [
          | err e ↦ (err (storage e), record g { store = s })
          | ok none ↦ (ok none, record g { store = s })
          | ok (some old) ↦ (
            ok (some old),
            record g {
              store = s;
              subaddresses = (insert_available invoice_id.sub_index old.address g.subaddresses).1;
              publisher = remove_invoice ch ix invoice_id g.publisher;
            },
          )
        ]

    unfoldable pub gateway_get_invoice :
        InvoiceId → Gateway → Result (GatewayError E D) (Option Invoice)
    gateway_get_invoice invoice_id g = elim (st.get invoice_id g.store) [
      | err e ↦ err (storage e)
      | ok found ↦ ok found
    ]

    unfoldable pub gateway_get_invoice_ids : Gateway → Result (GatewayError E D) (List InvoiceId)
    gateway_get_invoice_ids g = elim (st.get_ids g.store) [
      | err e ↦ err (storage e)
      | ok ids ↦ ok ids
    ]

  unfoldable pub gateway_subscribe : InvoiceId → SenderId → ch.Sender → Gateway → Option Gateway
  gateway_subscribe invoice_id sender_id tx g =
      elim (subscribe ch ix invoice_id sender_id tx g.publisher) [
        | none ↦ none
        | some publisher ↦ some (record g { publisher = publisher })
      ]

  unfoldable pub gateway_subscribe_all : SenderId → ch.Sender → Gateway → Gateway
  gateway_subscribe_all sender_id tx g = record g {
    publisher = subscribe_all ch ix sender_id tx g.publisher;
  }

  abbrev pub gateway_cache_height : Gateway → ℕ
  gateway_cache_height g = g.block_cache_height
