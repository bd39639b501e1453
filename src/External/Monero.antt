-- ===== src/External/Monero.antt =====
-- The crate monero: hashes, blocks and transactions, of which the gateway reads only what stands
-- here, and the answers of a daemon. `numbers` shows that the interface can be met.
use xmrgateway.Prelude.{ℕ, List, Eq, nat_eq, Result}

pub record Monero : Type 1 where
  pub Hash : Type 0
  pub hash_eq : Eq Hash
  -- `monero::Block`, and the `prev_id` of its header
  pub Block : Type 0
  pub prev_id : Block → Hash
  pub Transaction : Type 0
  pub tx_hash : Transaction → Hash

module _ (mo : Monero) where
  -- What a daemon answers to the requests of one pass of the scanner. Each request is made at most
  -- once in a pass, so an answer is a function of the request.
  pub record Daemon (E : Type 0) : Type 0 where
    pub daemon_height : Result E ℕ
    pub block : ℕ → Result E (mo.Hash × mo.Block)
    pub block_transactions : mo.Block → Result E (List mo.Transaction)
    pub txpool : Result E (List mo.Transaction)
    pub txpool_hashes : Result E (List mo.Hash)
    pub transactions_by_hashes : List mo.Hash → Result E (List mo.Transaction)

-- Hashes are numbers, a block is its number and its predecessor's, a transaction is its hash.
abbrev pub numbers : Monero
numbers = record {
  Hash = ℕ;
  hash_eq = nat_eq;
  Block = ℕ × ℕ;
  prev_id = λ b. b.1;
  Transaction = ℕ;
  tx_hash = λ t. t;
}
