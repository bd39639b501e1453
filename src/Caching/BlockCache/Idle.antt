-- ===== src/Caching/BlockCache/Idle.antt =====
-- An update of a linked cache for which the daemon has no new block.

use xmrgateway.Prelude.{
  ℕ, ◌+◌, ◌-◌, ◌≤◌, ◌<◌, ◌≡◌, refl, ap, ◌∙◌, false, List, [], ◌∷◌, length, ltb, Result, ok, arith,
}
use xmrgateway.External.Monero.{Monero, Daemon}
use xmrgateway.Caching.BlockCache.{
  BlockCache, BlockCacheError, Block, update, update_to, advance, check_and_fix_reorg, fix_blocks,
}
use xmrgateway.Caching.BlockCache.Steps.{update_known}
use xmrgateway.Caching.BlockCache.Reorg.{IsLinked, fix_from_kept}

module _ (mo : Monero) {E : Type 0} (daemon : Daemon mo E) where
  fix_blocks_kept :
      (ch : ℕ) (bs : List (Block mo))
      → 0 < length bs
      → IsLinked mo bs
      → fix_blocks mo daemon ch bs ≡ (ok 0, bs)
  unfolding fix_blocks
  fix_blocks_kept ch [] p l = absurd (omega arith)
  fix_blocks_kept ch (b ∷ rest) p l = fix_from_kept mo daemon ch 0 0 b rest l

  advance_idle : (h : ℕ) (c : BlockCache mo) → h ≤ c.height + 1 → advance mo daemon h c ≡ (ok 0, c)
  unfolding advance
  advance_idle h c low = rw (not_below, advance) refl
    where
      not_below : ltb c.height (h - 1) ≡ false
      not_below = ground arith

  check_kept :
      (c : BlockCache mo)
      → 0 < length c.blocks
      → IsLinked mo c.blocks
      → check_and_fix_reorg mo daemon c ≡ (ok 0, c)
  unfolding check_and_fix_reorg
  check_kept c filled linked =
      ap (λ (r : Result (BlockCacheError E) ℕ × List (Block mo)). (r.0, record c { blocks = r.1 }))
        (fix_blocks_kept c.height c.blocks filled linked)

  update_to_idle :
      (c : BlockCache mo) (h : ℕ)
      → advance mo daemon h (record c { daemon_height = h })
        ≡ (ok 0, record c { daemon_height = h })
      → check_and_fix_reorg mo daemon (record c { daemon_height = h })
        ≡ (ok 0, record c { daemon_height = h })
      → update_to mo daemon h c ≡ (ok 0, record c { daemon_height = h })
  unfolding update_to
  update_to_idle c h moved fixed = ground (arith, moved, fixed)

  -- With no new block and nothing to repair, no block is updated.
  pub update_idle :
      (c : BlockCache mo) (h : ℕ)
      → daemon.daemon_height ≡ ok h
      → h ≤ c.height + 1
      → 0 < length c.blocks
      → IsLinked mo c.blocks
      → update mo daemon c ≡ (ok 0, record c { daemon_height = h })
  update_idle c h known low filled linked =
      let seen : BlockCache mo = record c { daemon_height = h } in
      update_known mo daemon c h known
      ∙ update_to_idle c h (advance_idle h seen low) (check_kept seen filled linked)
