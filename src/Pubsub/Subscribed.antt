-- ===== src/Pubsub/Subscribed.antt =====
-- library/src/pubsub.rs: what a subscription adds to the deliveries.
use xmrgateway.Prelude.{ℕ, ◌+◌, Option, none, some, nat_eq, if◌then◌else◌, ◌==◌}
use xmrgateway.Std.HashMap.{insert}
use xmrgateway.Invoice.{InvoiceId, Invoice, id}
use xmrgateway.Invoice.Order.{invoice_id_eq}
use xmrgateway.External.IndexMap.{IndexMap}
use xmrgateway.External.Channel.{Channel}
use xmrgateway.Pubsub.{Publisher, SenderId, subscribe, subscribe_all}
use xmrgateway.Pubsub.Loop.{entries_of, count_sender}

module _ (ch : Channel Invoice) (ix : IndexMap SenderId ch.Sender) where
  -- A subscription to one invoice, or to all.
  abbrev pub subscribed_to :
      Option InvoiceId → SenderId → ch.Sender → Publisher ix.Map → Option (Publisher ix.Map)
  subscribed_to none k tx p = some (subscribe_all ch ix k tx p)
  subscribed_to (some i) k tx p = subscribe ch ix i k tx p

  -- How many copies of an update a channel gets for a subscription.
  abbrev pub added_copies : Option InvoiceId → Invoice → ch.Sender → ch.Sender → ℕ
  added_copies none invoice tx t = if ch.sender_eq.beq tx t then 1 else 0
  added_copies (some i) invoice tx t =
      if i == id invoice then (if ch.sender_eq.beq tx t then 1 else 0) else 0

  -- The publisher after a subscription to an invoice that it has.
  abbrev entered : InvoiceId → SenderId → ch.Sender → ix.Map → Publisher ix.Map → Publisher ix.Map
  entered i k tx subs p = record p {
    invoice_subs = insert i (ix.insert_entry k tx subs) p.invoice_subs;
  }

  abbrev counts : ch.Sender → Invoice → Publisher ix.Map → ℕ
  counts t invoice u =
      count_sender ch ix t (entries_of ch ix u (some (id invoice)))
      + count_sender ch ix t (entries_of ch ix u none)
