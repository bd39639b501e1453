-- ===== src/Caching/TxpoolCache.antt =====
-- library/src/caching/txpool_cache.rs: the transactions of the daemon's pool that were seen, and the
-- transfers found in them. The pool's set of hashes is a list.
pub mod Laws
use xmrgateway.Prelude.{
  Bool, true, false, not, ◌||◌, List, [], ◌∷◌, map, retain, Eq, Result, ok, err,
}
use xmrgateway.Std.HashMap.{extend, retain_keys, contains_key}
use xmrgateway.Invoice.{SubIndex, Transfer}
use xmrgateway.External.Monero.{Monero, Daemon}

pub data TxpoolCacheError (E : Type 0) : Type 0 where
  rpc : E → TxpoolCacheError E

module _ {ℓ} {A : Type ℓ} ⦃e : Eq A⦄ where
  -- `contains`
  abbrev pub contains : List A → A → Bool
  contains [] y = false
  contains (x ∷ xs) y = e.beq x y || contains xs y

module _ (mo : Monero) where
  pub record TxpoolCache : Type 0 where
    pub transactions : List (mo.Hash × mo.Transaction)
    pub discovered_transfers : List (mo.Hash × List (SubIndex × Transfer))

  -- The pairs of a transaction with its hash.
  abbrev pub by_hash : List mo.Transaction → List (mo.Hash × mo.Transaction)
  by_hash txs = map (λ tx. (mo.tx_hash tx, tx)) txs

  -- The hashes of the pool that the cache has no transaction for.
  abbrev pub new_hashes : List mo.Hash → TxpoolCache → List mo.Hash
  new_hashes txpool_hashes c =
      retain (λ hash. not (contains_key ⦃e = mo.hash_eq⦄ hash c.transactions)) txpool_hashes

  -- The two `retain` calls.
  abbrev pub still_in : List mo.Hash → TxpoolCache → TxpoolCache
  still_in txpool_hashes c = record {
    transactions =
        retain_keys ⦃e = mo.hash_eq⦄ (contains ⦃e = mo.hash_eq⦄ txpool_hashes) c.transactions;
    discovered_transfers =
        retain_keys ⦃e = mo.hash_eq⦄ (contains ⦃e = mo.hash_eq⦄ txpool_hashes)
          c.discovered_transfers;
  }

  unfoldable pub insert_transfers :
      List (mo.Hash × List (SubIndex × Transfer)) → TxpoolCache → TxpoolCache
  insert_transfers transfers c = record c {
    discovered_transfers = extend ⦃e = mo.hash_eq⦄ c.discovered_transfers transfers;
  }

  module _ {E : Type 0} (daemon : Daemon mo E) where
    unfoldable pub txpool_init : Result (TxpoolCacheError E) TxpoolCache
    txpool_init = elim daemon.txpool [
      | err e ↦ err (rpc e)
      | ok txs ↦ ok (record {
        transactions = extend ⦃e = mo.hash_eq⦄ [] (by_hash txs);
        discovered_transfers = [];
      })
    ]

    -- The request for the new transactions runs beside the two `retain` calls, which take effect even
    -- if it fails.
    unfoldable pub txpool_update :
        TxpoolCache → Result (TxpoolCacheError E) (List mo.Transaction) × TxpoolCache
    txpool_update c = elim daemon.txpool_hashes [
      | err e ↦ (err (rpc e), c)
      | ok txpool_hashes ↦ elim (daemon.transactions_by_hashes (new_hashes txpool_hashes c)) [
        | err e ↦ (err (rpc e), still_in txpool_hashes c)
        | ok new_transactions ↦ (
          ok new_transactions,
          record (still_in txpool_hashes c) {
            transactions =
                extend ⦃e = mo.hash_eq⦄ (still_in txpool_hashes c).transactions
                  (by_hash new_transactions);
          },
        )
      ]
    ]
