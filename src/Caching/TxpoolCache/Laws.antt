-- ===== src/Caching/TxpoolCache/Laws.antt =====
-- What an update of the transaction pool's cache achieves.
use xmrgateway.Prelude.{
  ◌≡◌, refl, ap, ◌∙◌, Bool, true, false, not, ◌&&◌, ◌||◌, List, [], ◌∷◌, map, retain, none, Eq, ok,
  arith, if◌then◌else◌, Bool-cases, inl, inr,
}
use xmrgateway.Std.HashMap.{
  lookup, contains_key, contains_key-extend, contains_key-retain_keys, lookup-retain_keys,
}
use xmrgateway.External.Monero.{Monero, Daemon}
use xmrgateway.Caching.TxpoolCache.{
  TxpoolCache, contains, by_hash, new_hashes, still_in, txpool_update,
}

module _ {ℓ} {A : Type ℓ} ⦃e : Eq A⦄ where
  contains-retain :
      (p : A → Bool) (xs : List A) (y : A) → contains (retain p xs) y ≡ (contains xs y && p y)
  contains-retain p [] y = refl
  contains-retain p (x ∷ xs) y = ground (arith, e.beq_iff x y, contains-retain p xs y)

module _ (mo : Monero) where
  contains_key-by_hash :
      (h : mo.Hash) (txs : List mo.Transaction)
      → contains_key ⦃e = mo.hash_eq⦄ h (by_hash mo txs)
        ≡ contains ⦃e = mo.hash_eq⦄ (map mo.tx_hash txs) h
  unfolding lookup
  contains_key-by_hash h [] = refl
  contains_key-by_hash h (tx ∷ txs) = elim (Bool-cases (mo.hash_eq.beq (mo.tx_hash tx) h)) [
    | inl same ↦ rw same refl
    | inr other ↦ rw other (contains_key-by_hash h txs)
  ]

  joined : (a b : Bool) → ((a && b) || (a && not b)) ≡ a
  joined true true = refl
  joined true false = refl
  joined false b = refl

  module _ {E : Type 0} (daemon : Daemon mo E) where
    -- If the daemon gives its pool's hashes, and for those that the cache has no transaction for
    -- the transactions of just these hashes, then an update returns these transactions, the cache
    -- holds transactions for the hashes of the pool and for no others, and of the transfers
    -- discovered it keeps those whose hash is in the pool.
    pub txpool_update_lem :
        (c : TxpoolCache mo) (hashes : List mo.Hash) (txs : List mo.Transaction)
        → daemon.txpool_hashes ≡ ok hashes
        → daemon.transactions_by_hashes (new_hashes mo hashes c) ≡ ok txs
        → map mo.tx_hash txs ≡ new_hashes mo hashes c
        → ((txpool_update mo daemon c).0 ≡ ok txs)
          × ((h : mo.Hash)
              → contains_key ⦃e = mo.hash_eq⦄ h (txpool_update mo daemon c).1.transactions
                ≡ contains ⦃e = mo.hash_eq⦄ hashes h)
          × ((h : mo.Hash)
              → lookup ⦃e = mo.hash_eq⦄ h (txpool_update mo daemon c).1.discovered_transfers ≡ (
                  if contains ⦃e = mo.hash_eq⦄ hashes h
                  then lookup ⦃e = mo.hash_eq⦄ h c.discovered_transfers
                  else none))
    unfolding txpool_update
    txpool_update_lem c hashes txs known answered honest =
        rw (known, txpool_update, answered)
          (
            refl,
            λ h.
                contains_key-extend ⦃e = mo.hash_eq⦄ h (still_in mo hashes c).transactions
                  (by_hash mo txs)
                ∙ joins h
                ∙ joined (contains ⦃e = mo.hash_eq⦄ hashes h)
                    (contains_key ⦃e = mo.hash_eq⦄ h c.transactions),
            λ h.
                lookup-retain_keys ⦃e = mo.hash_eq⦄ (contains ⦃e = mo.hash_eq⦄ hashes) h
                  c.discovered_transfers,
          )
      where
        is_new : mo.Hash → Bool
        is_new hash = not (contains_key ⦃e = mo.hash_eq⦄ hash c.transactions)

        added :
            (h : mo.Hash)
            → contains_key ⦃e = mo.hash_eq⦄ h (by_hash mo txs)
              ≡ (contains ⦃e = mo.hash_eq⦄ hashes h && is_new h)
        added h =
            contains_key-by_hash h txs
            ∙ ap (λ hs. contains ⦃e = mo.hash_eq⦄ hs h) honest
            ∙ contains-retain ⦃e = mo.hash_eq⦄ is_new hashes h

        joins :
            (h : mo.Hash)
            → (contains_key ⦃e = mo.hash_eq⦄ h (still_in mo hashes c).transactions
                || contains_key ⦃e = mo.hash_eq⦄ h (by_hash mo txs))
              ≡ ((contains ⦃e = mo.hash_eq⦄ hashes h
                    && contains_key ⦃e = mo.hash_eq⦄ h c.transactions)
                  || (contains ⦃e = mo.hash_eq⦄ hashes h && is_new h))
        joins h =
            ap (λ b. b || contains_key ⦃e = mo.hash_eq⦄ h (by_hash mo txs))
              (contains_key-retain_keys ⦃e = mo.hash_eq⦄ (contains ⦃e = mo.hash_eq⦄ hashes) h
                c.transactions)
            ∙ ap
                (λ b.
                  (contains ⦃e = mo.hash_eq⦄ hashes h
                    && contains_key ⦃e = mo.hash_eq⦄ h c.transactions)
                  || b)
                (added h)
