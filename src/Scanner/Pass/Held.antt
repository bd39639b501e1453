-- ===== src/Scanner/Pass/Held.antt =====
-- library/src/scanner.rs: the two caches through a pass of the scanner.
use xmrgateway.Prelude.{
  ℕ, ◌≤◌, ◌<◌, ◌≡◌, refl, sym, ap, subst, Bool, nat_eq, List, [], ◌∷◌, length, ok, Result-cases,
  Bool-cases, inl, inr, All, u64_mod, arith, Eq, ok-injective,
}
use xmrgateway.Std.HashMap.{retain_keys}
use xmrgateway.External.Monero.{Monero, Daemon}
use xmrgateway.External.Channel.{Channel}
use xmrgateway.External.IndexMap.{IndexMap}
use xmrgateway.Invoice.{Invoice}
use xmrgateway.Storage.Traits.{Storage}
use xmrgateway.Pubsub.{SenderId}
use xmrgateway.Caching.BlockCache.{update}
use xmrgateway.Caching.BlockCache.Shape.{IsWellFormed, update-IsWellFormed}
use xmrgateway.Caching.BlockCache.Bounds.{update-le}
use xmrgateway.Caching.TxpoolCache.{TxpoolCache, txpool_update, new_hashes, still_in, contains}
use xmrgateway.Scanner.Caches.{Caches, update_caches}
use xmrgateway.Scanner.Update.{Found}
use xmrgateway.Scanner.Scan.{Outputs, scan_blocks, scan_txpool}
use xmrgateway.Scanner.Scan.Fresh.{ArePooled, IsPooled, scan_txpool-ArePooled}
use xmrgateway.Scanner.Pass.{Scanner, scan_caches, scan_update, scan}

module _ {ℓ κ ι} {K : Type ℓ} ⦃e : Eq K⦄ {V : Type κ} (P : K × V → Type ι) (p : K → Bool) where
  retain_keys-All : (m : List (K × V)) → All P m → All P (retain_keys p m)
  unfolding retain_keys
  retain_keys-All [] h = tt
  retain_keys-All ((k, v) ∷ m) h = elim (Bool-cases (p k)) [
    | inl in_it ↦ rw in_it (h.0, retain_keys-All m h.1)
    | inr out ↦ rw out (retain_keys-All m h.1)
  ]

module _ (mo : Monero) where
  -- The blocks stand in order, and what was found in the pool stands there.
  pub record IsSteady (held : Caches mo) : Type 0 where
    pub blocks : IsWellFormed mo held.0
    pub pool : IsPooled mo held.1

  module _ {D : Type 0} (daemon : Daemon mo D) where
    txpool_update-IsPooled :
        (c : TxpoolCache mo) → IsPooled mo c → IsPooled mo (txpool_update mo daemon c).1
    unfolding txpool_update
    txpool_update-IsPooled c h = elim (Result-cases daemon.txpool_hashes) [
      | inl (x, e) ↦ rw (e, txpool_update) h
      | inr (hashes, e) ↦
          elim (Result-cases (daemon.transactions_by_hashes (new_hashes mo hashes c))) [
            | inl (x, f) ↦ rw (e, f, txpool_update) (kept hashes)
            | inr (txs, f) ↦ rw (e, f, txpool_update) (kept hashes)
          ]
    ]
      where
        kept : (hashes : List mo.Hash) → IsPooled mo (still_in mo hashes c)
        kept hashes =
            retain_keys-All ⦃e = mo.hash_eq⦄ (λ entry. ArePooled mo entry.1)
              (contains ⦃e = mo.hash_eq⦄ hashes) c.discovered_transfers h

    -- What an update of both caches leaves, and what its success says of the first of them.
    pub update_caches-IsSteady :
        (held : Caches mo)
        → ((bh : ℕ) → daemon.daemon_height ≡ ok bh → bh < u64_mod)
        → IsSteady held
        → IsSteady (update_caches mo daemon held).1
          × ((n : ℕ) (txs : List mo.Transaction)
              → (update_caches mo daemon held).0 ≡ ok (n, txs)
              → n ≤ length (update_caches mo daemon held).1.0.blocks)
    unfolding update_caches
    update_caches-IsSteady (blocks, pool) small s =
        let (shape, sound, size) = update-IsWellFormed mo daemon blocks small s.blocks in
        let calm : IsPooled mo (txpool_update mo daemon pool).1 =
          txpool_update-IsPooled pool s.pool in
        elim (Result-cases (update mo daemon blocks).0) [
          | inl (x, f) ↦
              rw (f, update_caches)
                (record { blocks = shape; pool = s.pool }, λ n txs e. absurd (ground (arith, e)))
          | inr (k, f) ↦ elim (Result-cases (txpool_update mo daemon pool).0) [
            | inl (x, g) ↦
                rw (f, g, update_caches)
                  (record { blocks = shape; pool = calm }, λ n txs e. absurd (ground (arith, e)))
            | inr (new, g) ↦
                rw (f, g, update_caches)
                  (
                    record { blocks = shape; pool = calm },
                    λ n txs e.
                        subst (λ m. m ≤ length (update mo daemon blocks).1.blocks)
                          (ap (λ r. r.0) (ok-injective (k, new) (n, txs) e))
                          (update-le mo daemon blocks k small s.blocks f),
                  )
          ]
        ]

module _ (mo : Monero) {E C D : Type 0} (st : Storage E) (outs : Outputs mo C)
    (ch : Channel Invoice) (ix : IndexMap SenderId ch.Sender) (daemon : Daemon mo D) where
  abbrev Pass : Type 0
  Pass = Scanner mo st ch ix

  -- The scans leave the blocks alone, and what they keep of the pool stands there.
  pub scan_caches_held :
      (n : ℕ) (txs : List mo.Transaction) (sc : Pass)
      → IsPooled mo sc.held.1
      → ((scan_caches mo st outs ch ix daemon n txs sc).1.held.0 ≡ sc.held.0)
        × IsPooled mo (scan_caches mo st outs ch ix daemon n txs sc).1.held.1
  unfolding scan_caches
  scan_caches_held n txs sc h =
      let s : st.Store = (scan_blocks mo st outs D sc.first_scan n sc.held.0 sc.store).1 in
      let (calm, found) = scan_txpool-ArePooled mo st outs D txs sc.held.1 s h in
      elim (Result-cases (scan_blocks mo st outs D sc.first_scan n sc.held.0 sc.store).0) [
        | inl (x, e) ↦ rw (e, scan_caches) (refl, calm)
        | inr (f, e) ↦ elim (Result-cases (scan_txpool mo st outs D txs sc.held.1 s).0) [
          | inl (x, g) ↦ rw (e, g, scan_caches) (refl, calm)
          | inr (m, g) ↦ rw (e, g, scan_caches) (refl, calm)
        ]
      ]

  scan_update_held :
      (n : ℕ) (found : List Found) (sc : Pass)
      → (scan_update mo st outs ch ix daemon n found sc).1.held ≡ sc.held
  unfolding scan_update
  scan_update_held n found sc = ground arith

  -- A pass of the scanner, whether it succeeds or fails at any step, keeps the blocks well-formed,
  -- and what was found in the pool without a height, provided the daemon's height fits 64 bits.
  pub scan-IsSteady :
      (sc : Pass)
      → ((bh : ℕ) → daemon.daemon_height ≡ ok bh → bh < u64_mod)
      → IsSteady mo sc.held
      → IsSteady mo (scan mo st outs ch ix daemon sc).1.held
  unfolding scan
  scan-IsSteady sc small s =
      let (calm, low) = update_caches-IsSteady mo daemon sc.held small s in
      elim (Result-cases (update_caches mo daemon sc.held).0) [
        | inl (x, e) ↦ rw (e, scan) calm
        | inr ((n, txs), e) ↦
            let moved : Pass = record sc { held = (update_caches mo daemon sc.held).1 } in
            let next : Pass = (scan_caches mo st outs ch ix daemon n txs moved).1 in
            let (same, pool) = scan_caches_held n txs moved calm.pool in
            let after : IsSteady mo next.held = record {
              blocks = subst (IsWellFormed mo) (sym same) calm.blocks;
              pool = pool;
            } in
            elim (Result-cases (scan_caches mo st outs ch ix daemon n txs moved).0) [
              | inl (x, f) ↦ rw (e, f, scan) after
              | inr (found, f) ↦
                  rw (e, f, scan) (subst (IsSteady mo) (sym (scan_update_held n found next)) after)
            ]
      ]
