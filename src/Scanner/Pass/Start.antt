-- ===== src/Scanner/Pass/Start.antt =====
-- library/src/scanner.rs: `Scanner::new` with `last_height`.
use Prim.Native.Nat.{max, min}
use xmrgateway.Prelude.{
  ℕ, ◌==◌, ◌||◌, if◌then◌else◌, zero, suc, ◌+◌, ◌-◌, ◌≤◌, ◌<◌, ◌≡◌, refl, ap, subst, ◌∙◌, Bool,
  true, false, Option, none, some, List, [], ◌∷◌, length, nat_eq, Result, ok, err, Result-cases,
  inl, inr, sub64, u64_mod, arith, ok-injective,
}
use xmrgateway.Std.HashMap.{lookup, lookup-insert}
use xmrgateway.Invoice.Order.{invoice_id_eq}
use xmrgateway.External.Monero.{Monero, Daemon}
use xmrgateway.External.Channel.{Channel}
use xmrgateway.External.IndexMap.{IndexMap}
use xmrgateway.Invoice.{Invoice, InvoiceId}
use xmrgateway.Storage.Traits.{Storage, lowest_height}
use xmrgateway.Pubsub.{Publisher, SenderId, insert_invoice}
use xmrgateway.Caching.BlockCache.{Block, BlockCache, BlockCacheError, fetch, init, init_blocks}
use xmrgateway.Caching.BlockCache.Shape.{IsWellFormed, IsDescending, fetch-height}
use xmrgateway.Caching.TxpoolCache.{TxpoolCacheError, txpool_init}
use xmrgateway.Scanner.Pass.{Scanner}

-- The errors of `ScannerError` that a new scanner can end with.
pub data StartError (E D : Type 0) : Type 0 where
  rpc : D → StartError E D
  storage : E → StartError E D
  block_cache : BlockCacheError D → StartError E D
  txpool_cache : TxpoolCacheError D → StartError E D

module _ {E : Type 0} (st : Storage E) where
  unfoldable pub last_height : st.Store → Result E (Option ℕ)
  last_height s = elim (st.get_height s) [
    | err e ↦ err e
    | ok (some h) ↦ ok (some h)
    | ok none ↦ elim (lowest_height st s) [
      | err e ↦ err e
      | ok (some h) ↦ ok (some h)
      | ok none ↦ ok none
    ]
  ]

-- `or(initial_height).unwrap_or(daemon_height)`
abbrev pub or_height : Option ℕ → Option ℕ → ℕ → ℕ
or_height (some h) initial_height daemon_height = h
or_height none (some h) daemon_height = h
or_height none none daemon_height = daemon_height

-- The height from which a new scanner fills its cache.
unfoldable pub start_height : Option ℕ → Option ℕ → ℕ → ℕ → ℕ
start_height last initial_height daemon_height block_cache_size =
    sub64 (max (min (or_height last initial_height daemon_height) daemon_height) block_cache_size) 1

module _ {Map : Type 0} (insert : InvoiceId → Publisher Map → Publisher Map) where
  -- `for_each` over the identifiers.
  unfoldable pub track_all : List InvoiceId → Publisher Map → Publisher Map
  track_all [] p = p
  track_all (i ∷ ids) p = track_all ids (insert i p)

module _ (mo : Monero) {E D : Type 0} (st : Storage E) (ch : Channel Invoice)
    (ix : IndexMap SenderId ch.Sender) (daemon : Daemon mo D) where
  -- Both caches are filled before either's error is seen; the publisher is told of the invoices in
  -- between.
  unfoldable pub scanner_new :
      ℕ
      → Option ℕ
      → st.Store
      → ch.World × Publisher ix.Map
      → Result (StartError E D) (Scanner mo st ch ix) × Publisher ix.Map
  scanner_new block_cache_size initial_height store (w, publisher) = elim daemon.daemon_height [
    | err e ↦ (err (rpc e), publisher)
    | ok daemon_height ↦ elim (last_height st store) [
      | err e ↦ (err (storage e), publisher)
      | ok last ↦
          let height = start_height last initial_height daemon_height block_cache_size in
          let blocks = init mo daemon block_cache_size height daemon_height in
          elim (st.get_ids store) [
            | err e ↦ (err (storage e), publisher)
            | ok ids ↦
                let tracking = track_all (insert_invoice ch ix) ids publisher in
                elim blocks [
                  | err e ↦ (err (block_cache e), tracking)
                  | ok cached ↦ elim (txpool_init mo daemon) [
                    | err e ↦ (err (txpool_cache e), tracking)
                    | ok pool ↦ (
                      ok (record {
                        store = store;
                        held = (cached, pool);
                        published = (w, tracking);
                        first_scan = true;
                      }),
                      tracking,
                    )
                  ]
                ]
          ]
    ]
  ]

module _ (mo : Monero) {D : Type 0} (daemon : Daemon mo D) where
  init_round :
      (todo i h : ℕ) {blocks : List (Block mo)}
      → init_blocks mo daemon (suc todo) i h ≡ ok blocks
      → (b : Block mo) × (rest : List (Block mo)) × (fetch mo daemon (sub64 h i) ≡ ok b)
        × (init_blocks mo daemon todo (suc i) h ≡ ok rest)
        × (b ∷ rest ≡ blocks)
  unfolding init_blocks
  init_round todo i h {blocks} e = elim (Result-cases (fetch mo daemon (sub64 h i))) [
    | inl (x, f) ↦ absurd (ground (arith, f, e))
    | inr (b, f) ↦ elim (Result-cases (init_blocks mo daemon todo (suc i) h)) [
      | inl (x, g) ↦ absurd (ground (arith, f, g, e))
      | inr (rest, g) ↦ (b, rest, f, g, ground (arith, f, g, e))
    ]
  ]

  init_end :
      (i h : ℕ) {blocks : List (Block mo)}
      → init_blocks mo daemon zero i h ≡ ok blocks
      → [] ≡ blocks
  unfolding init_blocks
  init_end i h {blocks} e = ok-injective [] blocks e

  init_blocks-IsDescending :
      (todo i h : ℕ) {blocks : List (Block mo)}
      → h < u64_mod
      → i + todo ≤ h + 1
      → init_blocks mo daemon todo i h ≡ ok blocks
      → IsDescending mo (h - i) blocks × (length blocks ≡ todo)
  init_blocks-IsDescending zero i h {blocks} small deep e =
      subst (λ bs. IsDescending mo (h - i) bs × (length bs ≡ 0)) (init_end i h e) (tt, refl)
  init_blocks-IsDescending (suc todo) i h {blocks} small deep e =
      let (b, rest, got, more, same) = init_round todo i h e in
      let (low, size) = init_blocks-IsDescending todo (suc i) h small (omega arith) more in
      let under : h - suc i ≡ h - i - 1 = omega arith in
      subst (λ bs. IsDescending mo (h - i) bs × (length bs ≡ suc todo)) same
        (
          (
            omega (arith, fetch-height mo daemon (sub64 h i) got),
            subst (λ k. IsDescending mo k rest) under low,
          ),
          ap suc size,
        )

  -- A cache that is filled from a height has the blocks below it.
  pub init-IsWellFormed :
      (size h daemon_height : ℕ) (c : BlockCache mo)
      → h < u64_mod
      → 0 < size
      → size ≤ h + 1
      → init mo daemon size h daemon_height ≡ ok c
      → IsWellFormed mo c
  unfolding init
  init-IsWellFormed size h dh c small pos deep e =
      elim (Result-cases (init_blocks mo daemon size 0 h)) [
        | inl (x, f) ↦ absurd (ground (arith, f, e))
        | inr (blocks, f) ↦
            let made : BlockCache mo = record { height = h; daemon_height = dh; blocks = blocks } in
            let (low, count) = init_blocks-IsDescending size 0 h small (omega arith) f in
            let start : h - 0 ≡ h = omega arith in
            let same : made ≡ c = ground (arith, f, e) in
            subst (IsWellFormed mo) same (record {
              bounded = small;
              nonempty = omega (arith, count);
              deep = omega (arith, count);
              heights = subst (λ k. IsDescending mo k blocks) start low;
            })
      ]

-- For a positive cache size and numbers of 64 bits, the height that a new scanner starts from is
-- less than the greater of the daemon's height and the cache's size, and leaves room below it for as
-- many blocks as the cache holds.
pub start_height_lem :
    (last initial : Option ℕ) (daemon_height size : ℕ)
    → daemon_height < u64_mod
    → 0 < size
    → size < u64_mod
    → (start_height last initial daemon_height size < max daemon_height size)
      × (size ≤ start_height last initial daemon_height size + 1)
unfolding start_height
start_height_lem last initial dh size small pos fits = bounded (or_height last initial dh)
  where
    bounded :
        (h : ℕ)
        → (sub64 (max (min h dh) size) 1 < max dh size) × (size ≤ sub64 (max (min h dh) size) 1 + 1)
    bounded h = (omega arith, omega arith)

-- Whether an identifier is in a list.
unfoldable pub is_listed : List InvoiceId → InvoiceId → Bool
is_listed [] i = false
is_listed (j ∷ ids) i = j == i || is_listed ids i

module _ (ch : Channel Invoice) (ix : IndexMap SenderId ch.Sender) where
  -- After a new scanner has told the publisher of the stored invoices, each of them has an entry
  -- without subscribers, whether it had subscribers before or not; the other entries are as before.
  pub track_all_lem :
      (ids : List InvoiceId) (p : Publisher ix.Map) (i : InvoiceId)
      → lookup i (track_all (insert_invoice ch ix) ids p).invoice_subs
        ≡ (if is_listed ids i then some ix.empty else lookup i p.invoice_subs)
  unfolding track_all is_listed insert_invoice
  track_all_lem [] p i = refl
  track_all_lem (j ∷ ids) p i =
      track_all_lem ids (insert_invoice ch ix j p) i
      ∙ ap (λ o. if is_listed ids i then some ix.empty else o)
          (lookup-insert j i ix.empty p.invoice_subs)
      ∙ either (is_listed ids i) (j == i)
    where
      either :
          (b c : Bool)
          → (if b then some ix.empty else (if c then some ix.empty else lookup i p.invoice_subs))
            ≡ (if c || b then some ix.empty else lookup i p.invoice_subs)
      either true true = refl
      either true false = refl
      either false true = refl
      either false false = refl
