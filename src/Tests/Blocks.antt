-- ===== src/Tests/Blocks.antt =====
-- library/src/caching/block_cache.rs on a chain whose block at height n has the hash n, with a cache
-- that holds the block 92 of an abandoned branch.
use xmrgateway.Prelude.{
  ℕ, ◌-◌, ◌<◌, ◌≡◌, ◌≢◌, refl, [], ◌∷◌, length, drop, u64_mod, ok, err, arith, nat_eq,
}
use xmrgateway.External.Monero.{Daemon, numbers}
use xmrgateway.Caching.BlockCache.{
  panicked, Block, BlockCache, fetch, fix_from, fix_blocks, check_and_fix_reorg, advance, update_to,
  update, remove_last,
}
use xmrgateway.Caching.BlockCache.Shape.{IsWellFormed, update-IsWellFormed}
use xmrgateway.Caching.BlockCache.Reorg.{IsLinked, OnChain, Commits, check_covers, check-OnChain}

abbrev daemon : Daemon numbers (Unit {0})
daemon = record {
  daemon_height = ok 5;
  block = λ h. ok (h, (h, h - 1));
  block_transactions = λ b. ok [];
  txpool = ok [];
  txpool_hashes = ok [];
  transactions_by_hashes = λ hs. ok [];
}

abbrev block_at : ℕ → ℕ → ℕ → Block numbers
block_at h hash prev = record { hash = hash; height = h; inner = (hash, prev); transactions = [] }

-- The block at height 2 is of another branch.
abbrev forked : BlockCache numbers
forked = record {
  height = 3;
  daemon_height = 4;
  blocks = block_at 3 3 2 ∷ block_at 2 92 91 ∷ block_at 1 1 0 ∷ [];
}

abbrev repaired : BlockCache numbers
repaired = record forked { blocks = block_at 3 3 2 ∷ block_at 2 2 1 ∷ block_at 1 1 0 ∷ [] }

program : Unit {0}
unfolding fetch fix_from fix_blocks check_and_fix_reorg advance update_to update remove_last
program = tt

check-run : check_and_fix_reorg numbers daemon forked ≡ (ok 2, repaired)
unfolding program
check-run = refl

forked-IsWellFormed : IsWellFormed numbers forked
forked-IsWellFormed = record {
  bounded = omega arith;
  nonempty = omega arith;
  deep = omega arith;
  heights = (refl, (refl, (refl, tt)));
}

update-IsWellFormed_example :
    IsWellFormed numbers (update numbers daemon forked).1
    × ((update numbers daemon forked).0 ≢ err panicked)
    × (length (update numbers daemon forked).1.blocks ≡ 3)
update-IsWellFormed_example =
    update-IsWellFormed numbers daemon forked (λ bh e. small bh e) forked-IsWellFormed
  where
    small : (bh : ℕ) → daemon.daemon_height ≡ ok bh → bh < u64_mod
    small bh e = ground arith

-- The cache with the top block of one branch on a linked one.
abbrev topped : BlockCache numbers
topped = record forked { blocks = block_at 3 3 2 ∷ block_at 2 92 1 ∷ block_at 1 1 0 ∷ [] }

topped-IsLinked : IsLinked numbers (drop 1 topped.blocks)
topped-IsLinked = (refl, tt)

check_covers_example :
    drop 2 (check_and_fix_reorg numbers daemon topped).1.blocks ≡ drop 2 topped.blocks
check_covers_example = check_covers numbers daemon topped 2 topped-IsLinked (unfold program in refl)

served :
    (h : ℕ) (b : Block numbers)
    → fetch numbers daemon h ≡ ok b
    → (b.hash ≡ h) × Commits numbers (λ n. n - 1) b
unfolding fetch
served h b e = ground arith

check-OnChain_example :
    OnChain numbers (λ n. n) 3 (check_and_fix_reorg numbers daemon forked).1.blocks
check-OnChain_example =
    check-OnChain numbers daemon (λ n. n - 1) (λ n. n) forked 2 (λ k. omega arith) served
      (omega arith) (omega arith) (refl, (refl, (refl, tt))) (λ b e. ground arith)
      (unfold program in refl)
