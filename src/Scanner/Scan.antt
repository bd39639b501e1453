-- ===== src/Scanner/Scan.antt =====
-- library/src/scanner.rs: the scans of the new blocks and of the transaction pool. The crate monero
-- finds the outputs of a transaction that belong to the gateway. When several transactions cannot be
-- checked, the first one's error is kept.
pub mod Fresh
use xmrgateway.Prelude.{
  ℕ, zero, suc, ◌+◌, ◌-◌, Bool, true, false, Option, none, some, List, [], ◌∷◌, ◌++◌, map, retain,
  nat_beq, length, get_elem?, Result, ok, err, add64, sub64, if◌then◌else◌,
}
use xmrgateway.Std.HashMap.{lookup, insert, extend}
use xmrgateway.External.Monero.{Monero, Daemon}
use xmrgateway.External.Channel.{Channel}
use xmrgateway.External.IndexMap.{IndexMap}
use xmrgateway.Invoice.{SubIndex, Invoice, Transfer, transfer_new}
use xmrgateway.Storage.OutputKeys.{OutputPubKey}
use xmrgateway.Storage.Traits.{Storage, output_keys, try_for_each}
use xmrgateway.Pubsub.{Publisher, SenderId, send_updates}
use xmrgateway.Caching.BlockCache.{BlockCache}
use xmrgateway.Caching.TxpoolCache.{TxpoolCache, insert_transfers}
use xmrgateway.Scanner.Caches.{CachesError, Caches, update_caches}
use xmrgateway.Scanner.Burning.{ScannerError, output_key_is_unique}
use xmrgateway.Scanner.Update.{Found, update_one}

-- `monero::util::address::subaddress::Index`
pub record Index : Type 0 where
  pub major : ℕ
  pub minor : ℕ

-- `From<subaddress::Index> for SubIndex`
abbrev pub sub_index_from : Index → SubIndex
sub_index_from index = record { major = index.major; minor = index.minor }

-- `monero::OwnedTxOut`, of which the scanner reads only what stands here.
pub record OwnedTxOut : Type 0 where
  pub key : OutputPubKey
  pub index : ℕ
  pub sub_index : Index
  pub amount : Option ℕ

-- What the crate monero reads off a transaction, with the keys to check at hand.
pub record Outputs (mo : Monero) (C : Type 0) : Type 0 where
  pub unlock_time : mo.Transaction → ℕ
  pub check_outputs : mo.Transaction → Result C (List OwnedTxOut)
  pub to_bytes : mo.Hash → List ℕ

pub record OwnedAmount : Type 0 where
  pub sub_index : SubIndex
  pub amount : ℕ

-- The errors of a scan, by where they arise: storage and RPC errors as the parts report them.
pub data ScanError (E D C : Type 0) : Type 0 where
  unblind : SubIndex → ScanError E D C
  output_key : ScannerError E → ScanError E D C
  owned_output_check : C → ScanError E D C
  storage : E → ScanError E D C
  caches : CachesError D → ScanError E D C
  panicked : ScanError E D C

module _ (mo : Monero) where
  -- `HashMap<monero::Hash, Vec<OwnedAmount>>`
  abbrev pub Amounts : Type 0
  Amounts = List (mo.Hash × List OwnedAmount)

  -- `entry(tx_hash).or_insert_with(Vec::new).push(amount)`
  unfoldable pub push_amount : mo.Hash → OwnedAmount → Amounts → Amounts
  push_amount tx_hash amount amounts =
      insert ⦃e = mo.hash_eq⦄ tx_hash
        (elim (lookup ⦃e = mo.hash_eq⦄ tx_hash amounts) [
          | none ↦ amount ∷ []
          | some others ↦ others ++ amount ∷ []
        ])
        amounts

  -- The transfers of what was received, at the height of a block or in the pool.
  abbrev pub to_found : Option ℕ → OwnedAmount → Found
  to_found height owned = (owned.sub_index, transfer_new owned.amount height)

  unfoldable pub found_at : Option ℕ → Amounts → List Found
  found_at height [] = []
  found_at height ((tx_hash, amounts) ∷ rest) =
      map (to_found height) amounts ++ found_at height rest

  -- `new_transfers` of `scan_txpool`.
  abbrev pub pool_transfers : Amounts → List (mo.Hash × List Found)
  pool_transfers = map (λ entry. (entry.0, map (to_found none) entry.1))

  abbrev pub flatten : List (mo.Hash × List Found) → List Found
  flatten [] = []
  flatten ((tx_hash, found) ∷ rest) = found ++ flatten rest

module _ (mo : Monero) {E C : Type 0} (st : Storage E) (outs : Outputs mo C) (D : Type 0) where
  -- The time lock is zero.
  abbrev is_unlocked : mo.Transaction → Bool
  is_unlocked tx = nat_beq (outs.unlock_time tx) 0

  unfoldable pub check_transactions :
      List mo.Transaction → Result (ScanError E D C) (List (mo.Hash × List OwnedTxOut))
  check_transactions [] = ok []
  check_transactions (tx ∷ txs) = elim (outs.check_outputs tx) [
    | err e ↦ err (owned_output_check e)
    | ok outputs ↦ elim (check_transactions txs) [
      | err e ↦ err e
      | ok rest ↦ ok ((mo.tx_hash tx, outputs) ∷ rest)
    ]
  ]

  -- One round of the inner loop: the amount to add, if there is one.
  unfoldable pub scan_output :
      mo.Hash → OwnedTxOut → st.Store → Result (ScanError E D C) (Option OwnedAmount) × st.Store
  scan_output tx_hash output s =
      let (unique, next) =
        output_key_is_unique (output_keys st) output.key (outs.to_bytes tx_hash) output.index s in
      elim unique [
        | err e ↦ (err (output_key e), next)
        | ok false ↦ (ok none, next)
        | ok true ↦ elim (st.contains_sub_index (sub_index_from output.sub_index) next) [
          | err e ↦ (err (storage e), next)
          | ok false ↦ (ok none, next)
          | ok true ↦ elim output.amount [
            | none ↦ (err (unblind (sub_index_from output.sub_index)), next)
            | some amount ↦ (
              ok (some (record { sub_index = sub_index_from output.sub_index; amount = amount })),
              next,
            )
          ]
        ]
      ]

  unfoldable pub scan_outputs :
      mo.Hash
      → List OwnedTxOut
      → Amounts mo
      → st.Store
      → Result (ScanError E D C) (Amounts mo) × st.Store
  unfolding scan_output
  scan_outputs tx_hash [] amounts s = (ok amounts, s)
  scan_outputs tx_hash (output ∷ outputs) amounts s =
      let (received, next) = scan_output tx_hash output s in
      elim received [
        | err e ↦ (err e, next)
        | ok none ↦ scan_outputs tx_hash outputs amounts next
        | ok (some amount) ↦
            scan_outputs tx_hash outputs (push_amount mo tx_hash amount amounts) next
      ]

  -- The outer loop.
  unfoldable pub scan_owned :
      List (mo.Hash × List OwnedTxOut)
      → Amounts mo
      → st.Store
      → Result (ScanError E D C) (Amounts mo) × st.Store
  unfolding scan_outputs
  scan_owned [] amounts s = (ok amounts, s)
  scan_owned ((tx_hash, outputs) ∷ rest) amounts s =
      let (received, next) = scan_outputs tx_hash outputs amounts s in
      elim received [ err e ↦ (err e, next) | ok more ↦ scan_owned rest more next ]

  unfoldable pub scan_transactions :
      List mo.Transaction → st.Store → Result (ScanError E D C) (Amounts mo) × st.Store
  scan_transactions txs s = elim (check_transactions (retain is_unlocked txs)) [
    | err e ↦ (err e, s)
    | ok owned ↦ scan_owned owned [] s
  ]

  -- The loop of `scan_blocks`, which takes the indices below a number from the highest down.
  unfoldable pub scan_blocks_below :
      ℕ → BlockCache mo → st.Store → Result (ScanError E D C) (List Found) × st.Store
  scan_blocks_below zero cache s = (ok [], s)
  scan_blocks_below (suc i) cache s = elim (get_elem? cache.blocks i) [
    | none ↦ (err panicked, s)
    | some block ↦
        let (received, next) = scan_transactions block.transactions s in
        elim received [
          | err e ↦ (err e, next)
          | ok amounts ↦
              let (others, last) = scan_blocks_below i cache next in
              elim others [
                | err e ↦ (err e, last)
                | ok rest ↦ (ok (found_at mo (some (sub64 cache.height i)) amounts ++ rest), last)
              ]
        ]
  ]

  unfoldable pub scan_blocks :
      Bool → ℕ → BlockCache mo → st.Store → Result (ScanError E D C) (List Found) × st.Store
  unfolding scan_blocks_below
  scan_blocks first_scan blocks_updated cache =
      scan_blocks_below (if first_scan then length cache.blocks else blocks_updated) cache

  unfoldable pub scan_txpool :
      List mo.Transaction
      → TxpoolCache mo
      → st.Store
      → Result (ScanError E D C) (List Found) × (TxpoolCache mo × st.Store)
  scan_txpool new_transactions cache s =
      let (received, next) = scan_transactions new_transactions s in
      elim received [
        | err e ↦ (err e, (cache, next))
        | ok amounts ↦ (
          ok (
              flatten mo
                (extend ⦃e = mo.hash_eq⦄ (pool_transfers mo amounts) cache.discovered_transfers)),
          (insert_transfers mo (pool_transfers mo amounts) cache, next),
        )
      ]
