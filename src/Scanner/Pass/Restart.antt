-- ===== src/Scanner/Pass/Restart.antt =====
-- library/src/scanner.rs: the first pass of a scanner over invoices that an earlier one has updated.
use mathlib.Core.List.{append-nil, append_assoc}
use xmrgateway.Prelude.{
  ℕ, zero, suc, ◌+◌, ◌-◌, ◌≤◌, ◌<◌, ◌≡◌, refl, sym, ap, subst, ◌∙◌, nat_eq, some, List, [], ◌∷◌,
  ◌++◌, map, All-append, true, false, length, sub64, u64_mod, ok, Result-cases, if◌then◌else◌, inl,
  inr, arith,
}
use xmrgateway.External.Monero.{Monero, Daemon}
use xmrgateway.External.Channel.{Channel}
use xmrgateway.External.IndexMap.{IndexMap}
use xmrgateway.Invoice.{Invoice, transfer_new, cmp_by_height}
use xmrgateway.Invoice.Equality.{SameTransfers}
use xmrgateway.Storage.Traits.{Storage}
use xmrgateway.Pubsub.{SenderId}
use xmrgateway.Caching.BlockCache.{BlockCache}
use xmrgateway.Scanner.Update.{Found, is_settled_below, update_one}
use xmrgateway.Scanner.Update.Ledger.{IsBelow, IsFresh, credited, stored_after, update_one-ledger}
use xmrgateway.Scanner.Scan.{
  OwnedAmount, Outputs, Amounts, to_found, found_at, scan_blocks_below, scan_blocks, scan_txpool,
}
use xmrgateway.Scanner.Scan.Fresh.{
  ArePooled-IsFresh, blocks_step, scan_blocks_below-IsFresh, scan_txpool-ArePooled,
}
use xmrgateway.Scanner.Pass.{Scanner, scan_caches}
use xmrgateway.Scanner.Pass.Held.{IsSteady}
use xmrgateway.Scanner.Pass.Later.{deepest_of}

-- A second credit for what an invoice has been credited already.
update_one_again :
    (height deepest : ℕ) (old : Invoice) (older cached new : List Found)
    → IsBelow deepest older
    → IsBelow deepest cached
    → old.transfers ≡ credited old.index old.creation_height (older ++ cached)
    → SameTransfers
        (stored_after old (update_one (cached ++ new) height deepest old)).transfers
        (credited old.index old.creation_height ((older ++ cached) ++ (cached ++ new)))
update_one_again height deepest old older cached new low lower e =
    update_one-ledger (cached ++ new) height deepest old (older ++ cached) []
      (All-append (λ (f : Found). is_settled_below deepest f.1 ≡ true) older cached low lower) tt
      (e ∙ ap (credited old.index old.creation_height) (sym (append-nil (older ++ cached))))

at_lower :
    (deepest h amount : ℕ)
    → h < deepest
    → is_settled_below deepest (transfer_new amount (some h)) ≡ true
unfolding is_settled_below cmp_by_height
at_lower deepest h amount lt = ground arith

module _ (mo : Monero) (deepest h : ℕ) (lower : h < deepest) where
  to_found-IsBelow :
      (amounts : List OwnedAmount) → IsBelow deepest (map (to_found mo (some h)) amounts)
  to_found-IsBelow [] = tt
  to_found-IsBelow (owned ∷ rest) = (at_lower deepest h owned.amount lower, to_found-IsBelow rest)

  found_at-IsBelow : (amounts : Amounts mo) → IsBelow deepest (found_at mo (some h) amounts)
  unfolding found_at
  found_at-IsBelow [] = tt
  found_at-IsBelow ((tx_hash, amounts) ∷ rest) =
      All-append (λ (f : Found). is_settled_below deepest f.1 ≡ true)
        (map (to_found mo (some h)) amounts) (found_at mo (some h) rest) (to_found-IsBelow amounts)
        (found_at-IsBelow rest)

module _ (mo : Monero) {E C : Type 0} (st : Storage E) (outs : Outputs mo C) (D : Type 0) where
  -- A scan of more blocks than were updated finds what lies deeper first.
  deeper :
      (m n k : ℕ) (c : BlockCache mo) (s : st.Store) {found : List Found}
      → c.height < u64_mod
      → k ≡ m + n
      → k ≤ c.height + 1
      → (scan_blocks_below mo st outs D k c s).0 ≡ ok found
      → (cached : List Found) × (new : List Found) × (t : st.Store) × (found ≡ cached ++ new)
        × IsBelow (c.height + 1 - n) cached
        × ((scan_blocks_below mo st outs D n c t).0 ≡ ok new)
  deeper zero n k c s {found} bound e deep scanned =
      let same : k ≡ n = omega (arith, e) in
      (
        [],
        found,
        s,
        refl,
        tt,
        subst (λ j. (scan_blocks_below mo st outs D j c s).0 ≡ ok found) same scanned,
      )
  deeper (suc m) n zero c s {found} bound e deep scanned = absurd (omega (arith, e))
  deeper (suc m) n (suc i) c s {found} bound e deep scanned =
      let (amounts, rest, t, more, same) = blocks_step mo st outs D i c s scanned in
      let (cached, new, u, parts, below, last) =
        deeper m n i c t bound (omega (arith, e)) (omega arith) more in
      let here : List Found = found_at mo (some (sub64 c.height i)) amounts in
      (
        here ++ cached,
        new,
        u,
        sym same ∙ ap (λ l. here ++ l) parts ∙ sym (append_assoc here cached new),
        All-append (λ (f : Found). is_settled_below (c.height + 1 - n) f.1 ≡ true) here cached
            (found_at-IsBelow mo (c.height + 1 - n) (sub64 c.height i) (omega (arith, e)) amounts)
            below,
        last,
      )

module _ (mo : Monero) {E C D : Type 0} (st : Storage E) (outs : Outputs mo C)
    (ch : Channel Invoice) (ix : IndexMap SenderId ch.Sender) (daemon : Daemon mo D) where
  first_blocks :
      (n : ℕ) (sc : Scanner mo st ch ix) {found : List Found}
      → sc.first_scan ≡ true
      → IsSteady mo sc.held
      → sc.held.0.height + 1 < u64_mod
      → n ≤ length sc.held.0.blocks
      → (scan_blocks mo st outs D sc.first_scan n sc.held.0 sc.store).0 ≡ ok found
      → (cached : List Found) × (new : List Found) × (found ≡ cached ++ new)
        × IsBelow (deepest_of sc.held.0.height n) cached
        × IsFresh (deepest_of sc.held.0.height n) new
  unfolding scan_blocks
  first_blocks n sc {found} first s fits low e =
      let h : ℕ = sc.held.0.height in
      let all : (scan_blocks_below mo st outs D (length sc.held.0.blocks) sc.held.0 sc.store).0
          ≡ ok found =
        subst
          (λ b.
            (scan_blocks_below mo st outs D (if b then length sc.held.0.blocks else n) sc.held.0
              sc.store).0
            ≡ ok found)
          first e in
      let (cached, new, t, parts, below, last) =
        deeper mo st outs D (length sc.held.0.blocks - n) n (length sc.held.0.blocks) sc.held.0
          sc.store s.blocks.bounded (omega arith) s.blocks.deep all in
      let same : h + 1 - n ≡ deepest_of h n = omega (arith, fits, s.blocks.deep) in
      (
        cached,
        new,
        parts,
        subst (λ d. IsBelow d cached) same below,
        scan_blocks_below-IsFresh mo st outs D n (deepest_of h n) sc.held.0 t s.blocks.bounded
            (omega (arith, s.blocks.bounded, s.blocks.deep)) last,
      )

  -- On a scanner's first pass, with caches in order, a height whose successor fits 64 bits and no
  -- more blocks updated than there are: if both scans succeed, then what they find consists of
  -- transfers below the deepest block that was updated and others that are not; and an invoice that
  -- held the transfers that it is credited of an older part of a ledger below that block and of
  -- these first ones holds, after its update, in some order, the first ones twice.
  pub first_pass_lem :
      (n : ℕ) (txs : List mo.Transaction) (sc : Scanner mo st ch ix) {found : List Found}
      → sc.first_scan ≡ true
      → IsSteady mo sc.held
      → sc.held.0.height + 1 < u64_mod
      → n ≤ length sc.held.0.blocks
      → (scan_caches mo st outs ch ix daemon n txs sc).0 ≡ ok found
      → (cached : List Found) × (new : List Found) × (found ≡ cached ++ new)
        × IsBelow (deepest_of sc.held.0.height n) cached
        × IsFresh (deepest_of sc.held.0.height n) new
        × ((old : Invoice) (older : List Found)
            → IsBelow (deepest_of sc.held.0.height n) older
            → old.transfers ≡ credited old.index old.creation_height (older ++ cached)
            → SameTransfers
                (stored_after old
                  (update_one found sc.held.0.height (deepest_of sc.held.0.height n) old)).transfers
                (credited old.index old.creation_height ((older ++ cached) ++ (cached ++ new))))
  unfolding scan_caches
  first_pass_lem n txs sc {found} first s fits low e =
      let t : st.Store = (scan_blocks mo st outs D sc.first_scan n sc.held.0 sc.store).1 in
      let (calm, pooled) = scan_txpool-ArePooled mo st outs D txs sc.held.1 t s.pool in
      elim (Result-cases (scan_blocks mo st outs D sc.first_scan n sc.held.0 sc.store).0) [
        | inl (x, f) ↦ absurd (ground (arith, f, e))
        | inr (blocks, f) ↦ elim (Result-cases (scan_txpool mo st outs D txs sc.held.1 t).0) [
          | inl (x, g) ↦ absurd (ground (arith, f, g, e))
          | inr (pool, g) ↦
              let (cached, new, parts, below, fresh) = first_blocks n sc first s fits low f in
              let both : blocks ++ pool ≡ found = ground (arith, f, g, e) in
              let all : cached ++ (new ++ pool) ≡ found =
                sym (append_assoc cached new pool) ∙ ap (λ l. l ++ pool) (sym parts) ∙ both in
              let h : ℕ = sc.held.0.height in
              (
                cached,
                new ++ pool,
                sym all,
                below,
                All-append (λ (r : Found). is_settled_below (deepest_of h n) r.1 ≡ false) new pool
                    fresh (ArePooled-IsFresh mo (deepest_of h n) pool (pooled pool g)),
                λ old older old_low credits.
                    subst
                      (λ l.
                        SameTransfers
                          (stored_after old (update_one l h (deepest_of h n) old)).transfers
                          (credited old.index old.creation_height
                            ((older ++ cached) ++ (cached ++ (new ++ pool)))))
                      all
                      (update_one_again h (deepest_of h n) old older cached (new ++ pool) old_low
                        below credits),
              )
        ]
      ]
