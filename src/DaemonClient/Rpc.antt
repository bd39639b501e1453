-- ===== src/DaemonClient/Rpc.antt =====
-- library/src/monerod_client/mod.rs: the requests of `RpcClient`, over what `RpcClient::request` gives for
-- an endpoint and a body, in the order in which they are asked.
pub mod Chunks
use Prim.Native.Nat.{min}
use xmrgateway.Prelude.{
  ℕ, zero, suc, ◌+◌, ◌-◌, ◌*◌, ◌/◌, String, Bool, true, false, Option, none, some, List, [], ◌∷◌,
  ◌++◌, map, take, drop, length, nat_beq, if◌then◌else◌, Result, ok, err, try_map, ◌>>=◌, Eq,
}
use xmrgateway.Std.Text.{Text, codes}
use xmrgateway.External.Monero.{Monero, Daemon}
use xmrgateway.DaemonClient.Request.{
  RpcError, hex_decode, serialization, missing_data, data_type, panicked,
}

-- The crates serde_json, hex and monero: members of a value and what it is, the text of an array of texts
-- and of a number, hexadecimal, and the bytes of hashes, blocks and transactions.
pub record Encoding (mo : Monero) (V : Type 0) : Type 0 where
  pub member : String → V → V
  pub as_str : V → Option Text
  pub as_array : V → Option (List V)
  pub as_u64 : V → Option ℕ
  pub json_texts : List Text → Text
  pub decimal : ℕ → Text
  pub hex_decode : Text → Option (List ℕ)
  pub hex_encode : List ℕ → Text
  pub hash_bytes : mo.Hash → List ℕ
  pub tx_hashes : mo.Block → List mo.Hash
  pub hash_from_slice : List ℕ → Option mo.Hash
  pub deserialize_hash : List ℕ → Option mo.Hash
  pub deserialize_block : List ℕ → Option mo.Block
  pub deserialize_transaction : List ℕ → Option mo.Transaction

abbrev pub max_requested_transactions : ℕ
max_requested_transactions = 100

abbrev pub required : {E V A : Type 0} → RpcError E V → Option A → Result (RpcError E V) A
required e none = err e
required e (some a) = ok a

module _ {E V S : Type 0} (mo : Monero) (enc : Encoding mo V)
    (request : Text → Text → S → Result (RpcError E V) V × S) where
  abbrev Rpc : Type 0 → Type 0
  Rpc A = S → Result (RpcError E V) A × S

  -- The value that a request gives, and what is read of it.
  abbrev pub asked : {A : Type 0} → String → Text → (V → Result (RpcError E V) A) → Rpc A
  asked endpoint body read s =
      let (result, s') = request (codes endpoint) body s in (result >>= read, s')

  abbrev decoded : {A : Type 0} → (List ℕ → Option A) → Text → Result (RpcError E V) A
  decoded deserialize t =
      required hex_decode (enc.hex_decode t) >>= λ bytes. required serialization (deserialize bytes)

  abbrev read_block : V → Result (RpcError E V) (mo.Hash × mo.Block)
  read_block res =
      required (missing_data (codes "{{ result: {{ block_header: {{ hash: \"...\"}} }} }}"))
        (enc.as_str (enc.member "hash" (enc.member "block_header" (enc.member "result" res))))
      >>= λ hash_text. required hex_decode (enc.hex_decode hash_text) >>= λ hash_bytes.
          required panicked (enc.hash_from_slice hash_bytes) >>= λ hash.
          required (missing_data (codes "{{ result: {{ blob: \"...\" }} }}"))
            (enc.as_str (enc.member "blob" (enc.member "result" res)))
          >>= λ blob. decoded enc.deserialize_block blob >>= λ block. ok (hash, block)

  unfoldable pub rpc_block : ℕ → Rpc (mo.Hash × mo.Block)
  rpc_block height =
      asked "json_rpc"
        (codes "{\"jsonrpc\":\"2.0\",\"id\":\"0\",\"method\":\"get_block\",\"params\":{\"height\":"
          ++ (enc.decimal height ++ codes "}}"))
        read_block

  abbrev read_transaction : V → Result (RpcError E V) mo.Transaction
  read_transaction blob =
      required (missing_data (codes "{{ transactions: [ {{ tx_blob: \"...\" }} ] }}"))
        (enc.as_str (enc.member "tx_blob" blob))
      >>= decoded enc.deserialize_transaction

  -- A list of what an array holds, and no array is an empty one.
  abbrev listed :
      {A : Type 0}
      → (V → Result (RpcError E V) A)
      → Option (List V)
      → Result (RpcError E V) (List A)
  listed read none = ok []
  listed read (some blobs) = try_map read blobs

  unfoldable pub rpc_txpool : Rpc (List mo.Transaction)
  unfolding try_map
  rpc_txpool =
      asked "get_transaction_pool" []
        (λ res. listed read_transaction (enc.as_array (enc.member "transactions" res)))

  abbrev read_hash : V → Result (RpcError E V) mo.Hash
  read_hash blob =
      required (data_type blob (codes "&str")) (enc.as_str blob) >>= decoded enc.deserialize_hash

  -- The hashes are collected in a set.
  unfoldable pub rpc_txpool_hashes : Rpc (List mo.Hash)
  unfolding try_map
  rpc_txpool_hashes =
      asked "get_transaction_pool_hashes" []
        (λ res. listed read_hash (enc.as_array (enc.member "tx_hashes" res)))

  unfoldable pub rpc_daemon_height : Rpc ℕ
  rpc_daemon_height =
      asked "json_rpc" (codes "{\"jsonrpc\":\"2.0\",\"id\":\"0\",\"method\":\"get_block_count\"}")
        (λ res.
          required (missing_data (codes "{{ result: {{ count: \"...\" }}"))
            (enc.as_u64 (enc.member "count" (enc.member "result" res))))

  abbrev pub transactions_body : List mo.Hash → Text
  transactions_body hashes =
      codes "{\"txs_hashes\":"
      ++ (enc.json_texts (map (λ h. enc.hex_encode (enc.hash_bytes h)) hashes) ++ codes "}")

  abbrev read_hex : V → Result (RpcError E V) mo.Transaction
  read_hex tx_json =
      required (data_type tx_json (codes "&str")) (enc.as_str tx_json)
      >>= decoded enc.deserialize_transaction

  abbrev pub read_transactions : V → Result (RpcError E V) (List mo.Transaction)
  read_transactions res =
      required (missing_data (codes "{{ txs_as_hex: [...] }}"))
        (enc.as_array (enc.member "txs_as_hex" res))
      >>= try_map read_hex

  -- The loop, from an index on with so many rounds left.
  unfoldable pub fetch_from : ℕ → ℕ → List mo.Hash → List mo.Transaction → Rpc (List mo.Transaction)
  fetch_from zero i hashes transactions s = (ok transactions, s)
  fetch_from (suc rounds) i hashes transactions s =
      let starting_index = i * max_requested_transactions in
      let ending_index = min (max_requested_transactions * (i + 1)) (length hashes) in
      elim (nat_beq ending_index starting_index) [
        | true ↦ (ok transactions, s)
        | false ↦
            let (received, s') =
              asked "get_transactions"
                (transactions_body
                  (take (ending_index - starting_index) (drop starting_index hashes)))
                read_transactions s in
            elim received [
              | err e ↦ (err e, s')
              | ok txs ↦ fetch_from rounds (i + 1) hashes (transactions ++ txs) s'
            ]
      ]

  unfoldable pub rpc_transactions_by_hashes : List mo.Hash → Rpc (List mo.Transaction)
  unfolding fetch_from
  rpc_transactions_by_hashes hashes =
      fetch_from (length hashes / max_requested_transactions + 1) 0 hashes []

  unfoldable pub rpc_block_transactions : mo.Block → Rpc (List mo.Transaction)
  unfolding rpc_transactions_by_hashes
  rpc_block_transactions block = rpc_transactions_by_hashes (enc.tx_hashes block)
