-- ===== src/Scanner/Pass/Run.antt =====
-- library/src/scanner.rs: a scanner from its start through its passes.

use xmrgateway.Prelude.{
  ℕ, ◌<◌, ◌≡◌, subst, Option, [], nat_eq, All, ok, Result-cases, inl, inr, u64_mod, arith,
}
use xmrgateway.External.Monero.{Monero, Daemon}
use xmrgateway.External.Channel.{Channel}
use xmrgateway.External.IndexMap.{IndexMap}
use xmrgateway.Invoice.{Invoice}
use xmrgateway.Storage.Traits.{Storage}
use xmrgateway.Pubsub.{Publisher, SenderId}
use xmrgateway.Caching.BlockCache.{init}
use xmrgateway.Caching.TxpoolCache.{TxpoolCache, txpool_init}
use xmrgateway.Scanner.Scan.{Outputs}
use xmrgateway.Scanner.Scan.Fresh.{ArePooled, IsPooled}
use xmrgateway.Scanner.Pass.Held.{IsSteady, scan-IsSteady}
use xmrgateway.Scanner.Pass.{Scanner, scan}
use xmrgateway.Scanner.Pass.Start.{
  scanner_new, last_height, start_height, start_height_lem, init-IsWellFormed,
}

pool_started :
    (mo : Monero) {D : Type 0} (daemon : Daemon mo D) (pool : TxpoolCache mo)
    → txpool_init mo daemon ≡ ok pool
    → IsPooled mo pool
unfolding txpool_init
pool_started mo daemon pool e = elim (Result-cases daemon.txpool) [
  | inl (x, f) ↦ absurd (ground (arith, f, e))
  | inr (txs, f) ↦
      let none_found : [] ≡ pool.discovered_transfers = ground (arith, f, e) in
      subst (All (λ entry. ArePooled mo entry.1)) none_found tt
]

module _ (mo : Monero) (D : Type 0) {E C : Type 0} (st : Storage E) (outs : Outputs mo C)
    (ch : Channel Invoice) (ix : IndexMap SenderId ch.Sender) where
  -- A scanner for a cache of a size, through any number of passes, each with the answers of its own.
  pub data Run (size : ℕ) : Scanner mo st ch ix → Type 0 where
    started :
        (daemon : Daemon mo D) (initial : Option ℕ) (store : st.Store)
        (published : ch.World × Publisher ix.Map) {sc : Scanner mo st ch ix}
        → ((bh : ℕ) → daemon.daemon_height ≡ ok bh → bh < u64_mod)
        → (scanner_new mo st ch ix daemon size initial store published).0 ≡ ok sc
        → Run size sc
    passed :
        (daemon : Daemon mo D) {sc : Scanner mo st ch ix}
        → ((bh : ℕ) → daemon.daemon_height ≡ ok bh → bh < u64_mod)
        → Run size sc
        → Run size (scan mo st outs ch ix daemon sc).1

  scanner_new-IsSteady :
      (daemon : Daemon mo D) (size : ℕ) (initial : Option ℕ) (store : st.Store)
      (published : ch.World × Publisher ix.Map) {sc : Scanner mo st ch ix}
      → ((bh : ℕ) → daemon.daemon_height ≡ ok bh → bh < u64_mod)
      → 0 < size
      → size < u64_mod
      → (scanner_new mo st ch ix daemon size initial store published).0 ≡ ok sc
      → IsSteady mo sc.held
  unfolding scanner_new
  scanner_new-IsSteady daemon size initial store (w, p) {sc} small pos fits e =
      elim (Result-cases daemon.daemon_height) [
        | inl (x, f) ↦ absurd (ground (arith, f, e))
        | inr (dh, f) ↦ elim (Result-cases (last_height st store)) [
          | inl (x, g) ↦ absurd (ground (arith, f, g, e))
          | inr (last, g) ↦ elim (Result-cases (st.get_ids store)) [
            | inl (x, k) ↦ absurd (ground (arith, f, g, k, e))
            | inr (ids, k) ↦
                let h : ℕ = start_height last initial dh size in
                let (low, room) = start_height_lem last initial dh size (small dh f) pos fits in
                elim (Result-cases (init mo daemon size h dh)) [
                  | inl (x, m) ↦ absurd (ground (arith, f, g, k, m, e))
                  | inr (blocks, m) ↦ elim (Result-cases (txpool_init mo daemon)) [
                    | inl (x, n) ↦ absurd (ground (arith, f, g, k, m, n, e))
                    | inr (pool, n) ↦
                        let same : (blocks, pool) ≡ sc.held = ground (arith, f, g, k, m, n, e) in
                        subst (IsSteady mo) same (record {
                          blocks =
                              init-IsWellFormed mo daemon size h dh blocks
                                (omega (arith, small dh f)) pos room m;
                          pool = pool_started mo daemon pool n;
                        })
                  ]
                ]
          ]
        ]
      ]

  -- For a cache of a positive size that fits 64 bits, a scanner that could be started, and then
  -- made any number of passes, failed ones included, while the daemon's heights fit 64 bits, has
  -- its blocks at consecutive heights from the cache's height down, none below height 0, and keeps
  -- of the pool only transfers without a height.
  pub Run-IsSteady :
      (size : ℕ)
      → 0 < size
      → size < u64_mod
      → (sc : Scanner mo st ch ix) → Run size sc
      → IsSteady mo sc.held
  Run-IsSteady size pos fits sc (started daemon initial store published small e) =
      scanner_new-IsSteady daemon size initial store published small pos fits e
  Run-IsSteady size pos fits sc (passed daemon {sc = before} small r) =
      scan-IsSteady mo st outs ch ix daemon before small (Run-IsSteady size pos fits before r)
