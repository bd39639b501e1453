-- ===== src/Tests/Pool.antt =====
-- library/src/caching/txpool_cache.rs and `update_caches` of library/src/scanner.rs, when the request
-- for the pool's hashes fails in one pass and succeeds in the next.
use xmrgateway.Prelude.{ℕ, ◌-◌, nat_eq, ◌≡◌, refl, none, [], ◌∷◌, ok, err, if◌then◌else◌}
use xmrgateway.Std.HashMap.{lookup, insert, extend, retain_keys, contains_key}
use xmrgateway.External.Monero.{Daemon, numbers}
use xmrgateway.Caching.BlockCache.{
  BlockCache, Block, fetch, fix_from, fix_blocks, check_and_fix_reorg, advance, update_to, update,
  remove_last,
}
use xmrgateway.Caching.TxpoolCache.{TxpoolCache, contains, txpool_update}
use xmrgateway.Caching.TxpoolCache.Laws.{txpool_update_lem}
use xmrgateway.Scanner.Caches.{update_caches}

abbrev failing : Daemon numbers (Unit {0})
failing = record {
  daemon_height = ok 5;
  block = λ h. ok (h, (h, h - 1));
  block_transactions = λ b. ok [];
  txpool = ok [];
  txpool_hashes = err tt;
  transactions_by_hashes = λ hs. ok hs;
}

abbrev next : Daemon numbers (Unit {0})
next = record failing { txpool_hashes = ok (8 ∷ 9 ∷ []) }

abbrev block_at : ℕ → Block numbers
block_at h = record { hash = h; height = h; inner = (h, h - 1); transactions = [] }

abbrev blocks : BlockCache numbers
blocks = record { height = 3; daemon_height = 4; blocks = block_at 3 ∷ block_at 2 ∷ [] }

abbrev found : BlockCache numbers
found = record { height = 4; daemon_height = 5; blocks = block_at 4 ∷ block_at 3 ∷ [] }

abbrev pool : TxpoolCache numbers
pool = record { transactions = (7, 7) ∷ (8, 8) ∷ []; discovered_transfers = [] }

program : Unit {0}
unfolding lookup insert extend retain_keys fetch fix_from fix_blocks check_and_fix_reorg advance
    update_to update remove_last txpool_update update_caches
program = tt

-- Only the transaction that is not there is asked for; the one that left the pool is dropped.
txpool_update-run :
    txpool_update numbers next pool
    ≡ (ok (9 ∷ []), record pool { transactions = (8, 8) ∷ (9, 9) ∷ [] })
unfolding program
txpool_update-run = refl

txpool_update_lem_example :
    ((txpool_update numbers next pool).0 ≡ ok (9 ∷ []))
    × ((h : ℕ)
        → contains_key h (txpool_update numbers next pool).1.transactions ≡ contains (8 ∷ 9 ∷ []) h)
    × ((h : ℕ)
        → lookup h (txpool_update numbers next pool).1.discovered_transfers
          ≡ (if contains (8 ∷ 9 ∷ []) h then lookup h pool.discovered_transfers else none))
txpool_update_lem_example =
    txpool_update_lem numbers next pool (8 ∷ 9 ∷ []) (9 ∷ []) refl (unfold program in refl)
      (unfold program in refl)
