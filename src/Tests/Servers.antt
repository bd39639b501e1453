-- ===== src/Tests/Servers.antt =====
-- server/src: an identifier and its text, a callback that fails, and updates of an invoice that has expired.
use xmrgateway.Prelude.{
  ℕ, true, map, List, String, ap, ◌+◌, ◌≡◌, refl, false, none, some, [], ◌∷◌, All, arith, ok,
}
use xmrgateway.Invoice.{InvoiceId, Invoice, id}
use xmrgateway.Server.InvoiceIds.{to_base64, invoice_id_from_str, from_str-to_base64}
use xmrgateway.Server.Callbacks.{
  CallbackQueue, call, queue_init, send, receive, handle_command, finish, retry, new_delay, started,
  stepped, sent, received, ended,
}
use xmrgateway.Server.Callbacks.Pace.{IsPaced, Reachable-IsPaced}
use xmrgateway.Server.Callbacks.Retries.{SameCalls, receive-SameCalls}
use xmrgateway.Gateway.{Gateway}
use xmrgateway.Server.Updates.{is_over, first_update, watch, watch_lem}
use xmrgateway.Tests.Codec.{write, codec}
use xmrgateway.Tests.Shop.{two, ordered, memory, holding, chan, maps, shop}

abbrev half_more : ℕ → ℕ
half_more d = d + d

program : Unit {0}
unfolding send receive handle_command finish retry new_delay
program = tt

abbrev queued : CallbackQueue
queued = record queue_init {
  waiting = call (record { invoice = ordered; retry_count = 0; delay = 0 }) ∷ [];
}

abbrev sleeping : CallbackQueue
sleeping = record queue_init {
  tasks = record { invoice = ordered; retry_count = 0; delay = 0 } ∷ [];
}

abbrev first_call : CallbackQueue
first_call = (send (call (record { invoice = ordered; retry_count = 0; delay = 0 })) queue_init).1

abbrev asleep : CallbackQueue
asleep = receive (some 3) first_call

is_asleep : asleep ≡ sleeping
unfolding program
is_asleep = refl

one_task : asleep.tasks ≡ record { invoice = ordered; retry_count = 0; delay = 0 } ∷ []
one_task = ap (λ (q : CallbackQueue). q.tasks) is_asleep

abbrev retried : CallbackQueue
retried =
    finish half_more false (record { invoice = ordered; retry_count = 0; delay = 0 })
      (record asleep { tasks = [] })

Reachable-IsPaced_example : IsPaced retried
Reachable-IsPaced_example =
    Reachable-IsPaced half_more (some 3) retried (λ d. omega arith)
      (stepped (stepped (stepped started (sent queue_init ordered)) (received first_call)) (
        ended asleep [] (record { invoice = ordered; retry_count = 0; delay = 0 }) [] false
          one_task))

-- A call that was retried as often as allowed is made all the same.
abbrev exhausted : CallbackQueue
exhausted = record queue_init {
  waiting = call (record { invoice = ordered; retry_count = 3; delay = 1000000000 }) ∷ [];
}

receive-SameCalls_example : SameCalls (receive (some 3) exhausted) (receive none exhausted)
receive-SameCalls_example =
    receive-SameCalls (some 3) none exhausted exhausted
      (record { waiting = refl; tasks = refl; is_open = refl; panicked = refl })

abbrev known : InvoiceId
known = record { sub_index = two; creation_height = 300 }

from_str-to_base64_example : invoice_id_from_str codec (to_base64 codec known) ≡ ok known
from_str-to_base64_example =
    from_str-to_base64 codec known
      (record { major = omega arith; minor = omega arith; height = omega arith })

abbrev pair : List ℕ
pair = 7 ∷ 9 ∷ []

abbrev short : String
short = write pair

-- An update of an unpaid invoice that has expired, by now paid in the store.
abbrev overdue : Invoice
overdue = record ordered { current_height = 320 }

watch_lem_example :
    (q : CallbackQueue) × (g : Gateway memory chan maps) × (watch ℕ memory chan maps true
        (overdue ∷ ordered ∷ [])
        (queue_init, shop)
      ≡ some (q, g))
    × (q.waiting ≡ map first_update (overdue ∷ ordered ∷ []))
    × ((i : InvoiceId)
        → All (λ u. id u ≡ i → is_over true u ≡ false) (overdue ∷ ordered ∷ [])
        → memory.get i g.store ≡ memory.get i holding)
watch_lem_example = watch_lem ℕ memory chan maps true (overdue ∷ ordered ∷ []) queue_init shop refl
