-- ===== src/Tests/Publishing.antt =====
-- library/src/pubsub.rs with three subscribers to one invoice, the second of which is closed.
use xmrgateway.Prelude.{
  ℕ, ◌≡◌, ◌≢◌, refl, Bool, true, false, none, some, List, [], ◌∷◌, ◌+◌, ◌==◌, nat_eq, if◌then◌else◌,
}
use xmrgateway.Std.HashMap.{lookup, insert, Distinct}
use xmrgateway.Invoice.{SubIndex, InvoiceId, Invoice, invoice_new, id}
use xmrgateway.Invoice.Order.{invoice_id_eq}
use xmrgateway.External.IndexMap.{IndexMap, list_map}
use xmrgateway.External.Channel.{Channel, Queues, queues}
use xmrgateway.Pubsub.{
  Publisher, SenderId, publisher_new, subscribe, subscribe_all, insert_invoice, remove_invoice,
  get_sender_by_index, remove_sender, send_loop, send_updates,
}
use xmrgateway.Pubsub.Loop.{entries_of, count_sender, copies, open_prefix}
use xmrgateway.Pubsub.Delivery.{HasDistinctIds, send_updates_delivers, send_updates_survivors}

abbrev one : SubIndex
one = record { major = 0; minor = 1 }

abbrev ordered : Invoice
ordered = invoice_new "4A" one 300 100 2 20 ""

abbrev one_id : InvoiceId
one_id = record { sub_index = one; creation_height = 300 }

abbrev chan : Channel Invoice
chan = queues Invoice

abbrev maps : IndexMap SenderId ℕ
maps = list_map SenderId ℕ

abbrev subscribers : List (SenderId × ℕ)
subscribers = (70, 1) ∷ (71, 2) ∷ (72, 3) ∷ []

abbrev publisher : Publisher (List (SenderId × ℕ))
publisher = record { invoice_subs = (one_id, subscribers) ∷ []; global_subs = (80, 1) ∷ [] }

abbrev world : Queues Invoice
world = record { closed = λ s. s == 2; queue = λ s. [] }

program : Unit {0}
unfolding lookup insert publisher_new subscribe subscribe_all insert_invoice remove_invoice
    get_sender_by_index remove_sender send_loop send_updates invoice_new
program = tt

found-Distinct :
    (found : Bool)
    → Distinct (elim (if found then some subscribers else none) [ none ↦ [] | some subs ↦ subs ])
unfolding lookup
found-Distinct true = (refl, (refl, (refl, tt)))
found-Distinct false = tt

publisher-HasDistinctIds : HasDistinctIds chan maps publisher
unfolding lookup
publisher-HasDistinctIds none = (refl, tt)
publisher-HasDistinctIds (some i) = found-Distinct (one_id == i)

-- The update reaches all but the closed one, whose removal takes the open one behind it along.
send_updates-run :
    ((send_updates chan maps ordered (world, publisher)).1
      ≡ record publisher { invoice_subs = (one_id, (70, 1) ∷ []) ∷ [] })
    × ((send_updates chan maps ordered (world, publisher)).0.queue 3 ≡ ordered ∷ [])
unfolding program
send_updates-run = (refl, refl)

send_updates_survivors_example :
    (entries_of chan maps (send_updates chan maps ordered (world, publisher)).1 (some (id ordered))
      ≡ open_prefix chan maps world (entries_of chan maps publisher (some (id ordered))))
    × (entries_of chan maps (send_updates chan maps ordered (world, publisher)).1 none
        ≡ open_prefix chan maps world (entries_of chan maps publisher none))
    × ((i : InvoiceId)
        → i ≢ id ordered
        → entries_of chan maps (send_updates chan maps ordered (world, publisher)).1 (some i)
          ≡ entries_of chan maps publisher (some i))
send_updates_survivors_example =
    send_updates_survivors chan maps ordered world publisher publisher-HasDistinctIds

send_updates_delivers_example :
    (send_updates chan maps ordered (world, publisher)).0.queue 1
    ≡ copies
        (world.closed 1)
        (count_sender chan maps 1 (entries_of chan maps publisher (some (id ordered)))
          + count_sender chan maps 1 (entries_of chan maps publisher none))
        ordered
send_updates_delivers_example =
    send_updates_delivers chan maps ordered world publisher publisher-HasDistinctIds 1

abbrev offering : Publisher (List (SenderId × ℕ))
offering = insert_invoice chan maps one_id (publisher_new chan maps)

abbrev subscribed : Publisher (List (SenderId × ℕ))
subscribed = record { invoice_subs = (one_id, (70, 1) ∷ []) ∷ []; global_subs = [] }
