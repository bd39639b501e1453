-- ===== src/Tests/Shop.antt =====
-- One invoice in an in-memory store, subscribers' queues and addresses, for the tests.
use xmrgateway.Prelude.{ℕ, nat_eq, String, false, none, [], ◌∷◌}
use xmrgateway.External.Channel.{Channel, Queues, queues}
use xmrgateway.External.IndexMap.{IndexMap, list_map}
use xmrgateway.Invoice.{SubIndex, Invoice}
use xmrgateway.Storage.Traits.{Storage}
use xmrgateway.Storage.InMemory.{InMemoryStorageError, in_memory_new}
use xmrgateway.Storage.InMemory.Laws.{Stored, Stored-IsFiled}
use xmrgateway.Storage.InMemory.Instance.{in_memory}
use xmrgateway.Pubsub.{Publisher, SenderId}
use xmrgateway.Caching.SubaddressCache.{SubaddressCache}
use xmrgateway.Gateway.{Gateway}

abbrev pub two : SubIndex
two = record { major = 0; minor = 2 }

abbrev pub ordered : Invoice
ordered = record {
  address = "4A";
  index = two;
  creation_height = 2;
  amount_requested = 100;
  amount_paid = 0;
  paid_height = none;
  confirmations_required = 2;
  current_height = 0;
  expiration_height = 320;
  transfers = [];
  description = "";
}

abbrev pub memory : Storage InMemoryStorageError
memory = in_memory

abbrev pub vacant : memory.Store
vacant = (in_memory_new, Stored-IsFiled Stored.empty)

abbrev pub holding : memory.Store
holding = (memory.insert ordered vacant).1

abbrev pub chan : Channel Invoice
chan = queues Invoice

abbrev pub maps : IndexMap SenderId chan.Sender
maps = list_map SenderId ℕ

abbrev pub quiet : Queues Invoice
quiet = record { closed = λ s. false; queue = λ s. [] }

abbrev pub nobody : Publisher maps.Map
nobody = record { invoice_subs = []; global_subs = [] }

abbrev pub address_of : SubIndex → String
address_of k = "4A"

abbrev pub one : SubIndex
one = record { major = 0; minor = 1 }

-- No more indices are left to be generated.
abbrev pub cache : SubaddressCache
cache = record {
  major_index = 0;
  highest_minor_index = 4294967295;
  available_subaddresses = (one, "4B") ∷ [];
}

abbrev pub shop : Gateway memory chan maps
shop = record {
  store = holding;
  subaddresses = cache;
  publisher = nobody;
  block_cache_height = 9;
  cached_daemon_height = 10;
}
