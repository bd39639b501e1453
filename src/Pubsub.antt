-- ===== src/Pubsub.antt =====
-- library/src/pubsub.rs: the publisher, which keeps the subscribers of each invoice and those of all
-- invoices, and sends them the updates. The locks are released between the steps of a send; the
-- model runs them with no other task in between.
pub mod Loop
pub mod Delivery
pub mod Ids
pub mod Subscribed
use xmrgateway.Prelude.{
  ℕ, zero, suc, ◌+◌, ◌≡◌, refl, Bool, true, false, not, ◌||◌, Option, none, some, List, [], ◌∷◌,
  nat_eq, length, if◌then◌else◌, arith,
}
use xmrgateway.Std.HashMap.{lookup, insert, remove}
use xmrgateway.Invoice.{InvoiceId, Invoice, id}
use xmrgateway.Invoice.Order.{invoice_id_eq}
use xmrgateway.External.IndexMap.{IndexMap}
use xmrgateway.External.Channel.{Channel}

pub record Publisher (Map : Type 0) : Type 0 where
  pub invoice_subs : List (InvoiceId × Map)
  pub global_subs : Map

-- A sender's id is a random u128.
abbrev pub SenderId : Type 0
SenderId = ℕ

module _ (ch : Channel Invoice) (ix : IndexMap SenderId ch.Sender) where
  unfoldable pub publisher_new : Publisher ix.Map
  publisher_new = record { invoice_subs = []; global_subs = ix.empty }

  -- The ends `tx` and `rx` of a new channel: `tx` is stored, `rx` goes to the caller.
  unfoldable pub subscribe :
      InvoiceId → SenderId → ch.Sender → Publisher ix.Map → Option (Publisher ix.Map)
  subscribe invoice_id sender_id tx p = elim (lookup invoice_id p.invoice_subs) [
    | none ↦ none
    | some subs ↦ some (record p {
      invoice_subs = insert invoice_id (ix.insert_entry sender_id tx subs) p.invoice_subs;
    })
  ]

  unfoldable pub subscribe_all : SenderId → ch.Sender → Publisher ix.Map → Publisher ix.Map
  subscribe_all sender_id tx p = record p {
    global_subs = ix.insert_entry sender_id tx p.global_subs;
  }

  unfoldable pub insert_invoice : InvoiceId → Publisher ix.Map → Publisher ix.Map
  insert_invoice invoice_id p = record p {
    invoice_subs = insert invoice_id ix.empty p.invoice_subs;
  }

  unfoldable pub remove_invoice : InvoiceId → Publisher ix.Map → Publisher ix.Map
  remove_invoice invoice_id p = record p { invoice_subs = remove invoice_id p.invoice_subs }

  unfoldable pub get_sender_by_index :
      Publisher ix.Map → Option InvoiceId → ℕ → Option (SenderId × ch.Sender)
  get_sender_by_index p none index = ix.get_index p.global_subs index
  get_sender_by_index p (some invoice_id) index = elim (lookup invoice_id p.invoice_subs) [
    | none ↦ none
    | some subs ↦ ix.get_index subs index
  ]

  unfoldable pub remove_sender : Publisher ix.Map → Option InvoiceId → SenderId → Publisher ix.Map
  remove_sender p none sender_id = record p { global_subs = ix.swap_remove sender_id p.global_subs }
  remove_sender p (some invoice_id) sender_id = elim (lookup invoice_id p.invoice_subs) [
    | none ↦ p
    | some subs ↦ record p {
      invoice_subs = insert invoice_id (ix.swap_remove sender_id subs) p.invoice_subs;
    }
  ]

  -- One of the two loops of `send_updates`, with its locals `index` and `closed`. Every round takes
  -- a subscriber away or steps over one, so the number of subscribers bounds the rounds.
  unfoldable pub send_loop :
      ℕ
      → Invoice
      → Option InvoiceId
      → ℕ
      → Bool
      → ch.World × Publisher ix.Map
      → ch.World × Publisher ix.Map
  send_loop zero invoice target index closed s = s
  send_loop (suc rounds) invoice target index closed (w, p) =
      elim (get_sender_by_index p target index) [
        | none ↦ (w, p)
        | some (sender_id, sender) ↦
            let (w', is_ok) = ch.send sender invoice w in
            let closed' = closed || not is_ok in
            if closed'
            then send_loop rounds invoice target index closed'
                (w', remove_sender p target sender_id)
            else send_loop rounds invoice target (index + 1) closed' (w', p)
      ]

  -- The rounds that a loop over the subscribers of a target takes at most.
  abbrev rounds_for : Option (ix.Map) → ℕ
  rounds_for none = 1
  rounds_for (some subs) = suc (length (ix.entries subs))

  unfoldable pub send_updates : Invoice → ch.World × Publisher ix.Map → ch.World × Publisher ix.Map
  send_updates invoice (w, p) =
      let first =
        send_loop (rounds_for (lookup (id invoice) p.invoice_subs)) invoice (some (id invoice)) 0
          false (w, p) in
      send_loop (rounds_for (some first.1.global_subs)) invoice none 0 false first
