-- ===== src/Caching/BlockCache.antt =====
-- library/src/caching/block_cache.rs: the cache of the newest blocks, which follows the daemon's
-- chain and repairs itself after a reorganisation.
mod Steps
pub mod Shape
pub mod Reorg
pub mod Idle
pub mod Bounds
use Prim.Native.Nat.{max}
use xmrgateway.Prelude.{
  ℕ, zero, suc, ◌+◌, ◌-◌, Bool, true, false, List, [], ◌∷◌, Eq, ltb, leb, add64, sub64, Result, ok,
  err, if◌then◌else◌,
}
use xmrgateway.External.Monero.{Monero, Daemon}

-- An RPC error, or an index out of bounds, at which the program panics.
pub data BlockCacheError (E : Type 0) : Type 0 where
  rpc : E → BlockCacheError E
  panicked : BlockCacheError E

-- `Vec::remove(len - 1)`
unfoldable pub remove_last {ℓ} : {A : Type ℓ} → List A → List A
remove_last [] = []
remove_last (x ∷ []) = []
remove_last (x ∷ y ∷ ys) = x ∷ remove_last (y ∷ ys)

module _ (mo : Monero) where
  pub record Block : Type 0 where
    pub hash : mo.Hash
    pub height : ℕ
    pub inner : mo.Block
    pub transactions : List mo.Transaction

  pub record BlockCache : Type 0 where
    pub height : ℕ
    pub daemon_height : ℕ
    pub blocks : List Block

  module _ {E : Type 0} (daemon : Daemon mo E) where
    -- The two requests that every block takes.
    unfoldable pub fetch : ℕ → Result (BlockCacheError E) Block
    fetch height = elim (daemon.block height) [
      | err e ↦ err (rpc e)
      | ok (block_id, block) ↦ elim (daemon.block_transactions block) [
        | err e ↦ err (rpc e)
        | ok transactions ↦ ok (record {
          hash = block_id;
          height = height;
          inner = block;
          transactions = transactions;
        })
      ]
    ]

    -- The loop of `init`, with `todo` rounds left and `i` done.
    unfoldable pub init_blocks : ℕ → ℕ → ℕ → Result (BlockCacheError E) (List Block)
    init_blocks zero i initial_height = ok []
    init_blocks (suc todo) i initial_height = elim (fetch (sub64 initial_height i)) [
      | err e ↦ err e
      | ok block ↦ elim (init_blocks todo (suc i) initial_height) [
        | err e ↦ err e
        | ok blocks ↦ ok (block ∷ blocks)
      ]
    ]

    unfoldable pub init : ℕ → ℕ → ℕ → Result (BlockCacheError E) BlockCache
    init cache_size initial_height daemon_height = elim (init_blocks cache_size 0 initial_height) [
      | err e ↦ err e
      | ok blocks ↦
          ok (record { height = initial_height; daemon_height = daemon_height; blocks = blocks })
    ]

    -- The loop of `check_and_fix_reorg` from index `i`, at which `block` stands. A request that fails
    -- ends it, and what was repaired stays so.
    unfoldable pub fix_from :
        ℕ → ℕ → ℕ → Block → List Block → Result (BlockCacheError E) ℕ × List Block
    fix_from cache_height i updated block [] = (ok updated, block ∷ [])
    fix_from cache_height i updated block (next ∷ rest) =
        elim (mo.hash_eq.beq (mo.prev_id block.inner) next.hash) [
          | true ↦
              let (result, blocks) = fix_from cache_height (suc i) updated next rest in
              (result, block ∷ blocks)
          | false ↦ elim (fetch (sub64 (sub64 cache_height 1) i)) [
            | err e ↦ (err e, block ∷ next ∷ rest)
            | ok repaired ↦
                let (result, blocks) =
                  fix_from cache_height (suc i) (max updated 1 + 1) repaired rest in
                (result, block ∷ blocks)
          ]
        ]

    unfoldable pub fix_blocks : ℕ → List Block → Result (BlockCacheError E) ℕ × List Block
    unfolding fix_from
    fix_blocks cache_height [] = (err panicked, [])
    fix_blocks cache_height (block ∷ rest) = fix_from cache_height 0 0 block rest

    unfoldable pub check_and_fix_reorg : BlockCache → Result (BlockCacheError E) ℕ × BlockCache
    unfolding fix_blocks
    check_and_fix_reorg cache =
        let (result, blocks) = fix_blocks cache.height cache.blocks in
        (result, record cache { blocks = blocks })

    -- The part of `update` that takes in one new block, if there is one.
    unfoldable pub advance : ℕ → BlockCache → Result (BlockCacheError E) ℕ × BlockCache
    advance blockchain_height cache =
        if ltb cache.height (blockchain_height - 1)
        then elim (fetch (add64 cache.height 1)) [
          | err e ↦ (err e, cache)
          | ok block ↦ (
            ok 1,
            record cache {
              height = add64 cache.height 1;
              blocks = remove_last (block ∷ cache.blocks);
            },
          )
        ]
        else (ok 0, cache)

    -- `update` once the daemon's height is known.
    unfoldable pub update_to : ℕ → BlockCache → Result (BlockCacheError E) ℕ × BlockCache
    update_to blockchain_height cache =
        let (advanced, next) =
          advance blockchain_height (record cache { daemon_height = blockchain_height }) in
        elim advanced [
          | err e ↦ (err e, next)
          | ok updated ↦
              let (fixed, last) = check_and_fix_reorg next in
              elim fixed [ err e ↦ (err e, last) | ok repaired ↦ (ok (max updated repaired), last) ]
        ]

    unfoldable pub update : BlockCache → Result (BlockCacheError E) ℕ × BlockCache
    update cache = elim daemon.daemon_height [
      | err e ↦ (err (rpc e), cache)
      | ok blockchain_height ↦ update_to blockchain_height cache
    ]

  unfoldable pub is_synchronized : BlockCache → Bool
  is_synchronized cache = leb (cache.daemon_height - 1) cache.height
