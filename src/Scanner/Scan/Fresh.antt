-- ===== src/Scanner/Scan/Fresh.antt =====
-- library/src/scanner.rs: the heights of the transfers that the two scans find.
use xmrgateway.Prelude.{
  ℕ, zero, suc, ◌+◌, ◌≤◌, ◌<◌, ◌≡◌, refl, subst, false, Option, none, some, List, [], ◌∷◌, ◌++◌,
  map, get_elem?, ok, Result-cases, Option-cases, inl, inr, ok-injective, err-ne-ok, All,
  All-append, sub64, u64_mod, arith, Eq, ◌==◌, Bool-cases,
}
use xmrgateway.Std.HashMap.{insert, extend}
use xmrgateway.External.Monero.{Monero}
use xmrgateway.Invoice.{transfer_new, cmp_by_height}
use xmrgateway.Storage.Traits.{Storage}
use xmrgateway.Caching.BlockCache.{BlockCache}
use xmrgateway.Caching.TxpoolCache.{TxpoolCache, insert_transfers}
use xmrgateway.Scanner.Update.{Found, is_settled_below}
use xmrgateway.Scanner.Update.Ledger.{IsFresh}
use xmrgateway.Scanner.Scan.{
  Outputs, OwnedAmount, Amounts, to_found, found_at, pool_transfers, flatten, scan_transactions,
  scan_blocks_below, scan_txpool,
}

at_height :
    (deepest h amount : ℕ)
    → deepest ≤ h
    → is_settled_below deepest (transfer_new amount (some h)) ≡ false
unfolding is_settled_below cmp_by_height
at_height deepest h amount le = ground arith

module _ {ℓ κ ι} {K : Type ℓ} ⦃e : Eq K⦄ {V : Type κ} (P : K × V → Type ι) where
  insert-All : (k : K) (v : V) (m : List (K × V)) → P (k, v) → All P m → All P (insert k v m)
  unfolding insert
  insert-All k v [] p h = (p, tt)
  insert-All k v ((j, w) ∷ m) p h = elim (Bool-cases (j == k)) [
    | inl same ↦ rw same (p, h.1)
    | inr other ↦ rw other (h.0, insert-All k v m p h.1)
  ]

  extend-All : (m n : List (K × V)) → All P m → All P n → All P (extend m n)
  unfolding extend
  extend-All m [] h k = h
  extend-All m ((j, v) ∷ n) h k = extend-All (insert j v m) n (insert-All j v m k.0 h) k.1

module _ (mo : Monero) (deepest : ℕ) where
  to_found-IsFresh :
      (height : Option ℕ)
      → ((amount : ℕ) → is_settled_below deepest (transfer_new amount height) ≡ false)
      → (amounts : List OwnedAmount) → IsFresh deepest (map (to_found mo height) amounts)
  to_found-IsFresh height h [] = tt
  to_found-IsFresh height h (owned ∷ rest) = (h owned.amount, to_found-IsFresh height h rest)

  found_at-IsFresh :
      (height : Option ℕ)
      → ((amount : ℕ) → is_settled_below deepest (transfer_new amount height) ≡ false)
      → (amounts : Amounts mo) → IsFresh deepest (found_at mo height amounts)
  unfolding found_at
  found_at-IsFresh height h [] = tt
  found_at-IsFresh height h ((tx_hash, amounts) ∷ rest) =
      All-append (λ (f : Found). is_settled_below deepest f.1 ≡ false)
        (map (to_found mo height) amounts) (found_at mo height rest)
        (to_found-IsFresh height h amounts) (found_at-IsFresh height h rest)

module _ (mo : Monero) where
  -- Every transfer stands in the pool.
  abbrev pub ArePooled : List Found → Type 0
  ArePooled = All (λ f. f.1.height ≡ none)

  abbrev pub IsPooled : TxpoolCache mo → Type 0
  IsPooled c = All (λ entry. ArePooled entry.1) c.discovered_transfers

  to_found-ArePooled : (amounts : List OwnedAmount) → ArePooled (map (to_found mo none) amounts)
  to_found-ArePooled [] = tt
  to_found-ArePooled (owned ∷ rest) = (refl, to_found-ArePooled rest)

  pool_transfers-ArePooled :
      (amounts : Amounts mo) → All (λ entry. ArePooled entry.1) (pool_transfers mo amounts)
  pool_transfers-ArePooled [] = tt
  pool_transfers-ArePooled ((tx_hash, amounts) ∷ rest) =
      (to_found-ArePooled amounts, pool_transfers-ArePooled rest)

  flatten-ArePooled :
      (entries : List (mo.Hash × List Found))
      → All (λ entry. ArePooled entry.1) entries
      → ArePooled (flatten mo entries)
  flatten-ArePooled [] h = tt
  flatten-ArePooled ((tx_hash, found) ∷ rest) h =
      All-append (λ (f : Found). f.1.height ≡ none) found (flatten mo rest) h.0
        (flatten-ArePooled rest h.1)

  pub ArePooled-IsFresh :
      (deepest : ℕ) (found : List Found) → ArePooled found → IsFresh deepest found
  unfolding is_settled_below cmp_by_height
  ArePooled-IsFresh deepest [] h = tt
  ArePooled-IsFresh deepest (f ∷ rest) h = (rw (h.0) refl, ArePooled-IsFresh deepest rest h.1)

module _ (mo : Monero) {E C : Type 0} (st : Storage E) (outs : Outputs mo C) (D : Type 0) where
  pub blocks_step :
      (i : ℕ) (c : BlockCache mo) (s : st.Store) {found : List Found}
      → (scan_blocks_below mo st outs D (suc i) c s).0 ≡ ok found
      → (amounts : Amounts mo) × (rest : List Found) × (t : st.Store) × ((scan_blocks_below mo st
            outs D i c t).0
          ≡ ok rest)
        × (found_at mo (some (sub64 c.height i)) amounts ++ rest ≡ found)
  unfolding scan_blocks_below
  blocks_step i c s {found} e = elim (Option-cases (get_elem? c.blocks i)) [
    | inl gone ↦ absurd (ground (arith, gone, e))
    | inr (block, at) ↦
        elim (Result-cases (scan_transactions mo st outs D block.transactions s).0) [
          | inl (x, bad) ↦ absurd (ground (arith, at, bad, e))
          | inr (amounts, got) ↦
              let t : st.Store = (scan_transactions mo st outs D block.transactions s).1 in
              elim (Result-cases (scan_blocks_below mo st outs D i c t).0) [
                | inl (x, bad) ↦ absurd (ground (arith, at, got, bad, e))
                | inr (rest, more) ↦ (amounts, rest, t, more, ground (arith, at, got, more, e))
              ]
        ]
  ]

  blocks_end :
      (c : BlockCache mo) (s : st.Store) {found : List Found}
      → (scan_blocks_below mo st outs D zero c s).0 ≡ ok found
      → [] ≡ found
  unfolding scan_blocks_below
  blocks_end c s {found} e = ok-injective [] found e

  -- The scan of as many blocks as were updated finds nothing below the deepest of them.
  pub scan_blocks_below-IsFresh :
      (n deepest : ℕ) (c : BlockCache mo) (s : st.Store) {found : List Found}
      → c.height < u64_mod
      → deepest + n ≤ c.height + 1
      → (scan_blocks_below mo st outs D n c s).0 ≡ ok found
      → IsFresh deepest found
  scan_blocks_below-IsFresh zero deepest c s {found} bound deep e =
      subst (IsFresh deepest) (blocks_end c s e) tt
  scan_blocks_below-IsFresh (suc i) deepest c s {found} bound deep e =
      let (amounts, rest, t, more, same) = blocks_step i c s e in
      subst (IsFresh deepest) same (
        All-append (λ (f : Found). is_settled_below deepest f.1 ≡ false)
          (found_at mo (some (sub64 c.height i)) amounts) rest
          (found_at-IsFresh mo deepest (some (sub64 c.height i))
            (λ amount. at_height deepest (sub64 c.height i) amount (omega arith)) amounts)
          (scan_blocks_below-IsFresh i deepest c t bound (omega arith) more))

  -- What the scan of the pool finds stands in the pool, and so does what it keeps for the next scan.
  pub scan_txpool-ArePooled :
      (txs : List mo.Transaction) (c : TxpoolCache mo) (s : st.Store)
      → IsPooled mo c
      → IsPooled mo (scan_txpool mo st outs D txs c s).1.0
        × ((found : List Found)
            → (scan_txpool mo st outs D txs c s).0 ≡ ok found
            → ArePooled mo found)
  unfolding scan_txpool insert_transfers
  scan_txpool-ArePooled txs c s h = elim (Result-cases (scan_transactions mo st outs D txs s).0) [
    | inl (x, bad) ↦ rw (bad, scan_txpool) (h, λ found e. absurd (err-ne-ok x found e))
    | inr (amounts, got) ↦
        let new : All (λ entry. ArePooled mo entry.1) (pool_transfers mo amounts) =
          pool_transfers-ArePooled mo amounts in
        rw (got, scan_txpool)
          (
            extend-All ⦃e = mo.hash_eq⦄ (λ entry. ArePooled mo entry.1) c.discovered_transfers
                (pool_transfers mo amounts) h new,
            λ found e. subst (ArePooled mo) (ok-injective _ found e) (
                flatten-ArePooled mo
                  (extend ⦃e = mo.hash_eq⦄ (pool_transfers mo amounts) c.discovered_transfers)
                  (extend-All ⦃e = mo.hash_eq⦄ (λ entry. ArePooled mo entry.1)
                    (pool_transfers mo amounts) c.discovered_transfers new h)),
          )
  ]
