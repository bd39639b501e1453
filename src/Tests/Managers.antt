-- ===== src/Tests/Managers.antt =====
-- library/src/storage/mod.rs: a client asks for the height while the manager stores an invoice.
use xmrgateway.Prelude.{ℕ, ◌≡◌, refl, [], ◌∷◌, ok}
use xmrgateway.Storage.Manager.{Method, handle}
use xmrgateway.Storage.Manager.Queue.{Message, State, System, handled_one}
use xmrgateway.Std.BTreeMap.{find}
use xmrgateway.Storage.InMemory.{invoice_insert, in_memory_new}
use xmrgateway.Tests.Shop.{ordered, memory, vacant}

abbrev Shared : Type 0
Shared = ℕ

abbrev start : State memory Shared
start = (vacant, 0)

abbrev store_it : Message memory Shared
store_it = (Unit {0}, Method.insert_invoice ordered)

abbrev ask : Message memory Shared
ask = (_, Method.get_height)

abbrev two_sent : System memory Shared
two_sent = record { state = start; inbox = store_it ∷ ask ∷ []; responses = [] }

-- The invoice is in the books, and the height is still to be answered.
first_answered :
    (handled_one memory Shared store_it (ask ∷ []) two_sent).responses ≡ (Unit {0}, ok tt) ∷ []
unfolding handle invoice_insert find in_memory_new
first_answered = refl
