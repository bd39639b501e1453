-- ===== src/Tests/Requests.antt =====
-- library/src/monerod_client/mod.rs: a request that has to answer a challenge, and transactions of two
-- hashes.
use xmrgateway.Prelude.{
  ℕ, ◌+◌, ◌≡◌, refl, ◌⊎◌, true, String, none, some, List, [], ◌∷◌, map, All, Result, ok, err, ◌>>=◌,
  try_map,
}
use xmrgateway.Std.Text.{Text, codes}
use xmrgateway.External.Monero.{numbers}
use xmrgateway.DaemonClient.Request.{RpcError, Reply, Http, request}
use xmrgateway.DaemonClient.Request.Ends.{HasEnded, request_lem}
use xmrgateway.DaemonClient.Rpc.{
  Encoding, transactions_body, rpc_transactions_by_hashes, fetch_from,
}
use xmrgateway.DaemonClient.Rpc.Chunks.{
  flatten, noting, received, IsChunk, transactions_by_hashes_lem,
}
use xmrgateway.Tests.Rpc.{by_weight, crypto, jane, weak}

abbrev http : Http (List ℕ)
http = record { is_uri = λ t. true; path_and_query = λ t. t; from_slice = λ bytes. some bytes }

abbrev challenge : Reply String (List ℕ)
challenge = ok (record { status = 401; www_authenticate = some weak ∷ []; body = ok [] })

abbrev answer : Reply String (List ℕ)
answer = ok (record { status = 200; www_authenticate = []; body = ok (7 ∷ []) })

request_lem_example : HasEnded crypto by_weight http (1 + 1) answer (challenge ∷ []) (
    request crypto by_weight http
      (codes "http://n/")
      (codes "json_rpc")
      []
      (some jane)
      (challenge ∷ answer ∷ challenge ∷ []))
request_lem_example =
    request_lem crypto by_weight http (codes "http://n/") (codes "json_rpc") [] (some jane)
      (challenge ∷ []) (challenge ∷ []) answer (refl, tt) refl

-- A value is an array of numbers, and a text of them.
abbrev encoding : Encoding numbers (List ℕ)
encoding = record {
  member = λ name v. v;
  as_str = λ v. some v;
  as_array = λ v. some (map (λ n. n ∷ []) v);
  as_u64 = λ v. none;
  json_texts = flatten;
  decimal = λ n. n ∷ [];
  hex_decode = λ t. some t;
  hex_encode = λ bytes. bytes;
  hash_bytes = λ h. h ∷ [];
  tx_hashes = λ b. [];
  hash_from_slice = λ bytes. none;
  deserialize_hash = λ bytes. none;
  deserialize_block = λ bytes. none;
  deserialize_transaction = λ bytes. elim bytes [ [] ↦ none | n ∷ rest ↦ some n ];
}

abbrev two_transactions : Text → Result (RpcError String (List ℕ)) (List ℕ)
two_transactions body = ok (5 ∷ 6 ∷ [])

both_fetched :
    rpc_transactions_by_hashes numbers encoding
      (noting numbers encoding two_transactions)
      (5 ∷ 6 ∷ [])
      []
    ≡ (
      ok (5 ∷ 6 ∷ []),
      transactions_body numbers encoding (noting numbers encoding two_transactions) (5 ∷ 6 ∷ [])
          ∷ [],
    )
unfolding rpc_transactions_by_hashes fetch_from try_map
both_fetched = refl

transactions_by_hashes_lem_example :
    (chunks : List (List ℕ)) × (flatten chunks ≡ 5 ∷ 6 ∷ [])
    × All (IsChunk numbers encoding two_transactions) chunks
    × ((rpc_transactions_by_hashes numbers encoding
          (noting numbers encoding two_transactions)
          (5 ∷ 6 ∷ [])
          []).0
        ≡ (try_map (received numbers encoding two_transactions) chunks >>= λ ts. ok (flatten ts)))
    × (((rpc_transactions_by_hashes numbers encoding
            (noting numbers encoding two_transactions)
            (5 ∷ 6 ∷ [])
            []).1
          ≡ map
              (transactions_body numbers encoding (noting numbers encoding two_transactions))
              chunks)
        ⊎ ((e : RpcError String (List ℕ)) × ((rpc_transactions_by_hashes numbers encoding
                (noting numbers encoding two_transactions)
                (5 ∷ 6 ∷ [])
                []).0
              ≡ err e)))
transactions_by_hashes_lem_example =
    transactions_by_hashes_lem numbers encoding two_transactions (5 ∷ 6 ∷ [])
