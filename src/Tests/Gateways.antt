-- ===== src/Tests/Gateways.antt =====
-- library/src/payment_gateway.rs on a store with one invoice: a second one is created and removed.
use xmrgateway.Prelude.{
  ℕ, ◌≡◌, ◌≢◌, ◌↔◌, ◌==◌, refl, String, false, none, some, [], ◌∷◌, ok, err, if◌then◌else◌, arith,
  Result, ap, sym, ◌∙◌, inl, inr, Bool-cases, beq_true,
}
use xmrgateway.Std.HashMap.{lookup, insert, extend, retain_keys}
use xmrgateway.Std.BTreeMap.{find, put, delete, range_from}
use xmrgateway.Invoice.{
  SubIndex, InvoiceId, Invoice, invoice_new, id, cmp_sub_index, cmp_invoice_id,
}
use xmrgateway.Invoice.Order.{sub_index_eq, invoice_id_eq}
use xmrgateway.Storage.InMemory.{
  in_memory_new, invoice_insert, invoice_remove, invoice_get, invoice_update,
}
use xmrgateway.Storage.Traits.{walk, try_for_each}
use xmrgateway.Pubsub.{publisher_new, insert_invoice, remove_invoice}
use xmrgateway.Caching.SubaddressCache.Start.{
  is_used, max_sub_index, max_used, generate_from, generate_range, init_available,
}
use xmrgateway.Caching.SubaddressCache.Load.{collect_index, subaddress_cache_init}
use xmrgateway.Gateway.Build.{
  Parsers, PaymentGatewayBuilder, Built, builder_new, set_scan_interval, build, build_inner,
}
use xmrgateway.Gateway.Tidy.{Stored, IsTidy}
use xmrgateway.Gateway.Served.{IsFit, built, removed, Served-IsTidy}
use xmrgateway.Gateway.{
  Gateway, rpc, new_invoice, creation_height_now, track, gateway_remove_invoice,
}
use xmrgateway.Gateway.Effects.{Tracks, new_invoice_lem, new_invoice_failed}
use xmrgateway.Gateway.Control.{Control, Status, finished, status, status_lem}
use xmrgateway.Caching.SubaddressCache.{
  shift_remove_index, remove_random, extend_by, extend_one, refill,
}
use xmrgateway.Caching.SubaddressCache.Reuse.{IsSound}
use xmrgateway.Tests.Shop.{
  two, ordered, memory, vacant, holding, one, cache, shop, chan, maps, nobody, address_of,
}

abbrev ended : Control ℕ
ended = record { handle = some (finished (err 7)); locked = false }

status_lem_example :
    ((status ended ≡ none) ↔ ((r : Result ℕ (Unit {0})) × (ended.handle ≡ some (finished r))))
    × ((s : Status ℕ) (c : Control ℕ) → status ended ≡ some (s, c) → c ≡ ended)
status_lem_example = status_lem ended refl

program : Unit {0}
unfolding find put delete range_from cmp_sub_index cmp_invoice_id lookup insert extend retain_keys
    in_memory_new invoice_insert invoice_remove invoice_get invoice_update remove_random
    shift_remove_index refill extend_by extend_one new_invoice creation_height_now track invoice_new
    gateway_remove_invoice insert_invoice remove_invoice build build_inner subaddress_cache_init
    collect_index try_for_each walk init_available generate_range generate_from is_used max_used
    max_sub_index publisher_new
program = tt

abbrev pub height_known : Result ℕ ℕ
height_known = ok 10

abbrev no_height : Result ℕ ℕ
no_height = err 7

abbrev pub sold : InvoiceId
sold = record { sub_index = one; creation_height = 10 }

pub created :
    (new_invoice memory chan maps address_of 0 height_known 70 1 20 "tea" shop).0 ≡ ok sold
unfolding program
created = refl

new_invoice_lem_example :
    (inv : Invoice) × (sold ≡ id inv)
    × (inv.amount_requested ≡ 70)
    × (inv.confirmations_required ≡ 1)
    × (inv.amount_paid ≡ 0)
    × (inv.transfers ≡ [])
    × (inv.description ≡ "tea")
    × Tracks memory chan maps inv shop
        (new_invoice memory chan maps address_of 0 height_known 70 1 20 "tea" shop).1
new_invoice_lem_example =
    new_invoice_lem memory chan maps address_of 0 height_known 70 1 20 "tea" shop sold created

-- The daemon cannot be asked for its height, which the gateway does not know yet.
abbrev opening : Gateway memory chan maps
opening = record shop { cached_daemon_height = 0 }

not_created :
    (new_invoice memory chan maps address_of 0 no_height 70 1 20 "tea" opening).0 ≡ err (rpc 7)
unfolding program
not_created = refl

cache-IsSound : IsSound cache
unfolding program
cache-IsSound = record { once = (refl, tt); known = (omega arith, tt) }

new_invoice_failed_example :
    ((new_invoice memory chan maps address_of 0 no_height 70 1 20 "tea" opening).1.store ≡ holding)
    × ((new_invoice memory chan maps address_of 0 no_height 70 1 20 "tea" opening).1.publisher
        ≡ nobody)
    × (k : SubIndex) × (lookup k cache.available_subaddresses ≢ none)
    × (lookup k
          (new_invoice memory chan maps address_of 0 no_height 70 1 20 "tea"
            opening).1.subaddresses.available_subaddresses
        ≡ none)
new_invoice_failed_example =
    new_invoice_failed memory chan maps address_of 0 no_height 70 1 20 "tea" opening (rpc 7)
      not_created (λ e. ground arith) cache-IsSound

pub was_removed :
    (gateway_remove_invoice memory chan maps {D = ℕ} (id ordered) shop).0 ≡ ok (some ordered)
unfolding program
was_removed = refl

abbrev parsers : Parsers
parsers = record {
  ViewKey = String;
  SpendKey = String;
  Uri = String;
  parse_key = λ s. ok s;
  parse_address = λ s. ok s;
  parse_uri = λ s. ok s;
  get_subaddress = λ v s k. s;
}

abbrev plan : PaymentGatewayBuilder memory.Store
plan = set_scan_interval 100 (builder_new "ad20" "4613" holding)

nothing :
    (i : InvoiceId) {inv : Invoice}
    → memory.get i vacant ≡ memory.get i holding
    → memory.get i holding ≢ ok (some inv)
unfolding program
nothing i e h = ground (arith, e ∙ h)

answer :
    (i : InvoiceId)
    → memory.get i holding ≡ (if id ordered == i then ok (some ordered) else memory.get i vacant)
answer i = memory.get-insert ordered vacant (unfold program in refl) i

only : (i : InvoiceId) → Stored memory i holding → id ordered ≡ i
only i (inv, h) = elim (Bool-cases (id ordered == i)) [
  | inl same ↦ beq_true (id ordered) i same
  | inr other ↦ absurd (nothing i (sym (answer i ∙ rw other refl)) h)
]

plan-IsFit : IsFit ℕ parsers memory chan maps plan (ordered ∷ [])
plan-IsFit = record {
  readable = unfold program in refl;
  account = (refl, tt);
  covers = λ i h. inl (ap (λ (j : InvoiceId). j.sub_index) (only i h));
  apart = λ i j hi hj e. sym (only i hi) ∙ only j hj;
}

abbrev opened : Gateway memory chan maps
opened = record {
  store = holding;
  subaddresses = init_available (λ k. "4613") 0 (two ∷ []);
  publisher = publisher_new chan maps;
  block_cache_height = 0;
  cached_daemon_height = 0;
}

abbrev made : Built parsers memory chan maps
made = record {
  gateway = opened;
  view = "ad20";
  spend = "4613";
  scan_interval = 100;
  major_index = 0;
  initial_height = none;
}

was_built : build parsers memory chan maps plan ≡ ok made
unfolding program
was_built = refl

Served-IsTidy_example :
    IsTidy memory
      (gateway_remove_invoice memory chan maps {D = ℕ} (id ordered) opened).1.store
      (gateway_remove_invoice memory chan maps {D = ℕ} (id ordered) opened).1.subaddresses
Served-IsTidy_example =
    Served-IsTidy ℕ parsers memory chan maps plan "http://node.moneroworld.com:18089" "ad20" "4613"
      (ordered ∷ []) refl refl refl plan-IsFit
      (gateway_remove_invoice memory chan maps {D = ℕ} (id ordered) opened).1
      (removed (id ordered) (built was_built))
