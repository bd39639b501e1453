-- ===== src/Scanner/Caches.antt =====
-- library/src/scanner.rs: `update_caches`, the first step of a scan, which moves both caches on.

use xmrgateway.Prelude.{ℕ, ◌+◌, ◌≤◌, ◌<◌, ◌≡◌, refl, List, length, Result, ok, err, arith}
use xmrgateway.External.Monero.{Monero, Daemon}
use xmrgateway.Caching.BlockCache.{BlockCache, BlockCacheError, update}
use xmrgateway.Caching.BlockCache.Idle.{update_idle}
use xmrgateway.Caching.BlockCache.Reorg.{IsLinked}
use xmrgateway.Caching.TxpoolCache.{TxpoolCache, TxpoolCacheError, txpool_update}

-- The errors of `ScannerError` that can arise here.
pub data CachesError (E : Type 0) : Type 0 where
  block_cache : BlockCacheError E → CachesError E
  txpool_cache : TxpoolCacheError E → CachesError E

module _ (mo : Monero) where
  abbrev pub Caches : Type 0
  Caches = BlockCache mo × TxpoolCache mo

  module _ {E : Type 0} (daemon : Daemon mo E) where
    unfoldable pub update_caches :
        Caches → Result (CachesError E) (ℕ × List mo.Transaction) × Caches
    update_caches (blocks, txpool) =
        let (updated, blocks') = update mo daemon blocks in
        elim updated [
          | err e ↦ (err (block_cache e), (blocks', txpool))
          | ok blocks_updated ↦
              let (received, txpool') = txpool_update mo daemon txpool in
              elim received [
                | err e ↦ (err (txpool_cache e), (blocks', txpool'))
                | ok new_transactions ↦ (ok (blocks_updated, new_transactions), (blocks', txpool'))
              ]
        ]

    update_caches_failed :
        (blocks found : BlockCache mo) (txpool : TxpoolCache mo) (updated : ℕ)
        (e : TxpoolCacheError E)
        → update mo daemon blocks ≡ (ok updated, found)
        → (txpool_update mo daemon txpool).0 ≡ err e
        → update_caches (blocks, txpool)
          ≡ (err (txpool_cache e), (found, (txpool_update mo daemon txpool).1))
    unfolding update_caches
    update_caches_failed blocks found txpool updated e moved failed = ground (arith, moved, failed)

    update_caches_done :
        (blocks found : BlockCache mo) (txpool : TxpoolCache mo) (updated : ℕ)
        (txs : List mo.Transaction)
        → update mo daemon blocks ≡ (ok updated, found)
        → (txpool_update mo daemon txpool).0 ≡ ok txs
        → (update_caches (blocks, txpool)).0 ≡ ok (updated, txs)
    unfolding update_caches
    update_caches_done blocks found txpool updated txs moved answered =
        ground (arith, moved, answered)

  module _ {E : Type 0} (failing next : Daemon mo E) where
    -- If the block cache moves on and the update of the transaction pool's cache then fails, the
    -- step fails but the block cache stays moved on; and if the cache then has blocks and they are
    -- linked, the daemon has no further block at the next pass and the pool's cache can be updated,
    -- then that pass counts no block as updated.
    pub update_caches_again :
        (blocks found : BlockCache mo) (txpool : TxpoolCache mo) (updated h : ℕ)
        (e : TxpoolCacheError E) (txs : List mo.Transaction)
        → update mo failing blocks ≡ (ok updated, found)
        → (txpool_update mo failing txpool).0 ≡ err e
        → 0 < length found.blocks
        → IsLinked mo found.blocks
        → next.daemon_height ≡ ok h
        → h ≤ found.height + 1
        → (txpool_update mo next (txpool_update mo failing txpool).1).0 ≡ ok txs
        → ((update_caches failing (blocks, txpool)).0 ≡ err (txpool_cache e))
          × ((update_caches failing (blocks, txpool)).1.0 ≡ found)
          × ((update_caches next (update_caches failing (blocks, txpool)).1).0 ≡ ok (0, txs))
    update_caches_again blocks found txpool updated h e txs moved failed filled linked known low
          answered =
        rw (update_caches_failed failing blocks found txpool updated e moved failed) (
          refl,
          refl,
          update_caches_done next found (record found { daemon_height = h })
              (txpool_update mo failing txpool).1 0 txs
              (update_idle mo next found h known low filled linked) answered,
        )
