-- ===== src/Scanner/Pass/Later.antt =====
-- library/src/scanner.rs: what a pass after the first finds, and what becomes of the invoices.
use xmrgateway.Prelude.{
  ℕ, nat_eq, if◌then◌else◌, some, none, ◌+◌, ◌≤◌, ◌<◌, ◌≡◌, subst, false, List, ◌++◌, length, ok,
  Result-cases, inl, inr, All-append, add64, sub64, u64_mod, arith,
}
use xmrgateway.External.Monero.{Monero, Daemon}
use xmrgateway.External.Channel.{Channel}
use xmrgateway.External.IndexMap.{IndexMap}
use xmrgateway.Invoice.{Invoice}
use xmrgateway.Storage.Traits.{Storage}
use xmrgateway.Pubsub.{SenderId}
use xmrgateway.Scanner.Caches.{update_caches}
use xmrgateway.Scanner.Update.{Found, is_settled_below, update_one}
use xmrgateway.Scanner.Update.Ledger.{IsFresh, update_one_twice}
use xmrgateway.Scanner.Scan.{Outputs, scan_blocks, scan_blocks_below, scan_txpool}
use xmrgateway.Scanner.Scan.Fresh.{
  ArePooled-IsFresh, IsPooled, scan_txpool-ArePooled, scan_blocks_below-IsFresh,
}
use xmrgateway.Scanner.Pass.{Scanner, scan_caches}
use xmrgateway.Scanner.Pass.Held.{IsSteady, update_caches-IsSteady}

-- The deepest block that an update of this many blocks reaches.
abbrev pub deepest_of : ℕ → ℕ → ℕ
deepest_of height blocks_updated = add64 (sub64 height blocks_updated) 1

module _ (mo : Monero) {E C D : Type 0} (st : Storage E) (outs : Outputs mo C)
    (ch : Channel Invoice) (ix : IndexMap SenderId ch.Sender) (daemon : Daemon mo D) where
  later_blocks-IsFresh :
      (n : ℕ) (sc : Scanner mo st ch ix) {found : List Found}
      → sc.first_scan ≡ false
      → sc.held.0.height < u64_mod
      → n ≤ sc.held.0.height + 1
      → (scan_blocks mo st outs D sc.first_scan n sc.held.0 sc.store).0 ≡ ok found
      → IsFresh (deepest_of sc.held.0.height n) found
  unfolding scan_blocks
  later_blocks-IsFresh n sc {found} later bound deep e =
      scan_blocks_below-IsFresh mo st outs D n (deepest_of sc.held.0.height n) sc.held.0 sc.store
        bound (omega arith)
        (subst
          (λ b.
            (scan_blocks_below mo st outs D (if b then length sc.held.0.blocks else n) sc.held.0
              sc.store).0
            ≡ ok found)
          later e)

  scan_caches-IsFresh :
      (n : ℕ) (txs : List mo.Transaction) (sc : Scanner mo st ch ix) {found : List Found}
      → sc.first_scan ≡ false
      → sc.held.0.height < u64_mod
      → n ≤ sc.held.0.height + 1
      → IsPooled mo sc.held.1
      → (scan_caches mo st outs ch ix daemon n txs sc).0 ≡ ok found
      → IsFresh (deepest_of sc.held.0.height n) found
  unfolding scan_caches
  scan_caches-IsFresh n txs sc {found} later bound deep h e =
      let s : st.Store = (scan_blocks mo st outs D sc.first_scan n sc.held.0 sc.store).1 in
      let (calm, pooled) = scan_txpool-ArePooled mo st outs D txs sc.held.1 s h in
      elim (Result-cases (scan_blocks mo st outs D sc.first_scan n sc.held.0 sc.store).0) [
        | inl (x, f) ↦ absurd (ground (arith, f, e))
        | inr (low, f) ↦ elim (Result-cases (scan_txpool mo st outs D txs sc.held.1 s).0) [
          | inl (x, g) ↦ absurd (ground (arith, f, g, e))
          | inr (more, g) ↦
              let both : low ++ more ≡ found = ground (arith, f, g, e) in
              subst (IsFresh (deepest_of sc.held.0.height n)) both (
                All-append
                  (λ (t : Found). is_settled_below (deepest_of sc.held.0.height n) t.1 ≡ false) low
                  more (later_blocks-IsFresh n sc later bound deep f)
                  (ArePooled-IsFresh mo (deepest_of sc.held.0.height n) more (pooled more g)))
        ]
      ]

  -- On a pass that is not the scanner's first, with caches in order and a daemon's height that fits
  -- 64 bits: if both caches are updated and both scans succeed, then everything found stands at or
  -- above the deepest block that was updated, or in the pool, and an invoice that its update has
  -- changed is not changed by a second update with what was found.
  pub pass_lem :
      (sc : Scanner mo st ch ix) (n : ℕ) (txs : List mo.Transaction) {found : List Found}
      → ((bh : ℕ) → daemon.daemon_height ≡ ok bh → bh < u64_mod)
      → IsSteady mo sc.held
      → sc.first_scan ≡ false
      → (update_caches mo daemon sc.held).0 ≡ ok (n, txs)
      → (scan_caches mo st outs ch ix daemon n txs
          (record sc { held = (update_caches mo daemon sc.held).1 })).0
        ≡ ok found
      → IsFresh (deepest_of (update_caches mo daemon sc.held).1.0.height n) found
        × ((old new : Invoice)
            → update_one found
                (update_caches mo daemon sc.held).1.0.height
                (deepest_of (update_caches mo daemon sc.held).1.0.height n)
                old
              ≡ some new
            → update_one found
                (update_caches mo daemon sc.held).1.0.height
                (deepest_of (update_caches mo daemon sc.held).1.0.height n)
                new
              ≡ none)
  pass_lem sc n txs {found} small s later moved scanned =
      let (calm, low) = update_caches-IsSteady mo daemon sc.held small s in
      let height : ℕ = (update_caches mo daemon sc.held).1.0.height in
      let fresh : IsFresh (deepest_of height n) found =
        scan_caches-IsFresh n txs (record sc { held = (update_caches mo daemon sc.held).1 }) later
          calm.blocks.bounded (omega (arith, low n txs moved, calm.blocks.deep)) calm.pool
          scanned in
      (fresh, λ old new e. update_one_twice found height (deepest_of height n) old fresh e)
