-- ===== src/Caching/BlockCache/Bounds.antt =====
-- library/src/caching/block_cache.rs: the number of blocks that `update` counts as updated.
use Prim.Native.Nat.{max}
use xmrgateway.Prelude.{
  ℕ, suc, ◌+◌, ◌-◌, ◌≤◌, ◌<◌, ◌≡◌, sym, ap, ◌∙◌, List, [], ◌∷◌, ltb, length, add64, u64_mod, Result,
  ok, arith, Bool-cases, Result-cases, inl, inr, err-ne-ok, ok-injective,
}
use xmrgateway.External.Monero.{Daemon, Monero}
use xmrgateway.Caching.BlockCache.{
  BlockCacheError, Block, BlockCache, fetch, fix_from, fix_blocks, check_and_fix_reorg, advance,
  update, update_to, rpc,
}
use xmrgateway.Caching.BlockCache.Steps.{fix_cases, update_known, update_unknown}
use xmrgateway.Caching.BlockCache.Shape.{IsWellFormed, advance-IsWellFormed, check-IsWellFormed}

module _ (mo : Monero) {E : Type 0} (daemon : Daemon mo E) where
  fix_end :
      (ch i updated : ℕ) (b : Block mo) {n : ℕ}
      → (fix_from mo daemon ch i updated b []).0 ≡ ok n
      → ◌≡◌ {A = Result (BlockCacheError E) ℕ} (ok updated) (ok n)
  unfolding fix_from
  fix_end ch i updated b e = e

  fix_from-le :
      (ch i updated : ℕ) (b : Block mo) (rest : List (Block mo)) (n m : ℕ)
      → (fix_from mo daemon ch i updated b rest).0 ≡ ok n
      → updated ≤ m
      → 1 ≤ m
      → n ≤ m + length rest
  fix_from-le ch i updated b [] n m e low pos =
      omega (arith, ok-injective updated n (fix_end ch i updated b e))
  fix_from-le ch i updated b (x ∷ rest) n m e low pos =
      elim (fix_cases mo daemon ch i updated b x rest) [
        | inl (linked, q) ↦
            omega
              (arith, fix_from-le ch (suc i) updated x rest n m (ap (λ r. r.0) (sym q) ∙ e) low pos)
        | inr (inl (y, failed, q)) ↦ absurd (err-ne-ok y n (ap (λ r. r.0) (sym q) ∙ e))
        | inr (inr (r, found, unlinked, q)) ↦ omega (
          arith,
          fix_from-le ch (suc i) (max updated 1 + 1) r rest n (m + 1) (ap (λ r. r.0) (sym q) ∙ e)
              (omega arith) (omega arith),
        )
      ]

  fix_blocks-le :
      (h : ℕ) (bs : List (Block mo)) (n : ℕ) → (fix_blocks mo daemon h bs).0 ≡ ok n → n ≤ length bs
  unfolding fix_blocks
  fix_blocks-le h [] n e = absurd (ground arith)
  fix_blocks-le h (b ∷ rest) n e =
      omega (arith, fix_from-le h 0 0 b rest n 1 e (omega arith) (omega arith))

  check-le :
      (c : BlockCache mo) (n : ℕ) → (check_and_fix_reorg mo daemon c).0 ≡ ok n → n ≤ length c.blocks
  unfolding check_and_fix_reorg
  check-le c n e = fix_blocks-le c.height c.blocks n e

  advance-le : (bh : ℕ) (c : BlockCache mo) (n : ℕ) → (advance mo daemon bh c).0 ≡ ok n → n ≤ 1
  unfolding advance
  advance-le bh c n e = elim (Bool-cases (ltb c.height (bh - 1))) [
    | inl grow ↦ elim (Result-cases (fetch mo daemon (add64 c.height 1))) [
      | inl (x, f) ↦ absurd (ground (arith, grow, f, e))
      | inr (b, f) ↦ ground (arith, grow, f, e)
    ]
    | inr stay ↦ ground (arith, stay, e)
  ]

  update_to-le :
      (bh : ℕ) (c : BlockCache mo) (n : ℕ)
      → bh < u64_mod
      → IsWellFormed mo c
      → (update_to mo daemon bh c).0 ≡ ok n
      → n ≤ length (update_to mo daemon bh c).1.blocks
  unfolding update_to
  update_to-le bh c n small v e =
      let seen : BlockCache mo = record c { daemon_height = bh } in
      let next : BlockCache mo = (advance mo daemon bh seen).1 in
      let (v1, sound1, size1) = advance-IsWellFormed mo daemon bh seen small (record {
        bounded = v.bounded;
        nonempty = v.nonempty;
        deep = v.deep;
        heights = v.heights;
      }) in
      let (v2, sound2, size2) = check-IsWellFormed mo daemon next v1 in
      elim (Result-cases (advance mo daemon bh seen).0) [
        | inl (x, f) ↦ absurd (ground (arith, f, e))
        | inr (k, f) ↦ elim (Result-cases (check_and_fix_reorg mo daemon next).0) [
          | inl (x, g) ↦ absurd (ground (arith, f, g, e))
          | inr (m, g) ↦
              let total : max k m ≡ n = ground (arith, f, g, e) in
              rw (f, g, update_to)
                (omega
                  (arith, total, advance-le bh seen k f, check-le next m g, size2, v1.nonempty))
        ]
      ]

  -- If a cache is well-formed and the daemon's height fits 64 bits, then an update that succeeds
  -- counts at most as many updated blocks as the cache has.
  pub update-le :
      (c : BlockCache mo) (n : ℕ)
      → ((bh : ℕ) → daemon.daemon_height ≡ ok bh → bh < u64_mod)
      → IsWellFormed mo c
      → (update mo daemon c).0 ≡ ok n
      → n ≤ length (update mo daemon c).1.blocks
  update-le c n small v e = elim (Result-cases daemon.daemon_height) [
    | inl (x, q) ↦
        absurd (err-ne-ok (rpc x) n (ap (λ r. r.0) (sym (update_unknown mo daemon c x q)) ∙ e))
    | inr (bh, q) ↦ rw (update_known mo daemon c bh q) (
        update_to-le bh c n (small bh q) v
          (ap (λ r. r.0) (sym (update_known mo daemon c bh q)) ∙ e))
  ]
