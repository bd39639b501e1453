-- ===== src/DaemonClient/Rpc/Chunks.antt =====
-- library/src/monerod_client/mod.rs: the requests that transactions are fetched with.
use Prim.Native.Nat.{min}
use xmrgateway.Prelude.{
  ℕ, zero, suc, ◌+◌, ◌-◌, ◌*◌, ◌/◌, ◌≤◌, ◌<◌, ◌≡◌, refl, sym, ap, ◌∙◌, subst, ◌⊎◌, inl, inr, false,
  Bool-cases, List, [], ◌∷◌, ◌++◌, map, take, drop, length, length-take, length-drop,
  take-append-drop, drop-drop, nat_beq, All, Result, Result-cases, ok, err, try_map, ◌>>=◌, arith,
}
use mathlib.Core.List.{append_assoc, append-nil}
use xmrgateway.Std.Text.{Text}
use xmrgateway.External.Monero.{Monero}
use xmrgateway.DaemonClient.Request.{RpcError}
use xmrgateway.DaemonClient.Rpc.{
  Encoding, transactions_body, read_transactions, fetch_from, rpc_transactions_by_hashes,
}

abbrev pub flatten {ℓ} : {A : Type ℓ} → List (List A) → List A
flatten [] = []
flatten (xs ∷ rest) = xs ++ flatten rest

hundreds : (i : ℕ) → (i + 1) * 100 ≡ i * 100 + 100
hundreds i = omega arith

take-nil : {A : Type 0} (n : ℕ) → take {A = A} n [] ≡ []
take-nil zero = refl
take-nil (suc n) = refl

module _ {A : Type 0} where
  drop_past : (k : ℕ) (xs : List A) → length xs ≤ k → drop k xs ≡ []
  drop_past zero [] h = refl
  drop_past zero (x ∷ xs) h = absurd (omega arith)
  drop_past (suc k) [] h = refl
  drop_past (suc k) (x ∷ xs) h = drop_past k xs (omega arith)

  nothing : (xs : List A) → min 0 (length xs) ≡ 0
  nothing xs = omega arith

  take-min : (k : ℕ) (xs : List A) → take (min k (length xs)) xs ≡ take k xs
  take-min zero xs = ap (λ n. take n xs) (nothing xs)
  take-min (suc k) [] = take-nil (min (suc k) 0)
  take-min (suc k) (x ∷ xs) =
      let shorter : min (suc k) (length (x ∷ xs)) ≡ suc (min k (length xs)) = omega arith in
      ap (λ n. take n (x ∷ xs)) shorter ∙ ap (◌∷◌ x) (take-min k xs)

  -- The slice of a round is the next hundred.
  slice :
      (i : ℕ) (xs : List A)
      → i * 100 ≤ length xs
      → take (min (100 * (i + 1)) (length xs) - i * 100) (drop (i * 100) xs)
        ≡ take 100 (drop (i * 100) xs)
  slice i xs h =
      let same : min (100 * (i + 1)) (length xs) - i * 100 ≡ min 100 (length (drop (i * 100) xs)) =
        omega (arith, length-drop (i * 100) xs) in
      ap (λ n. take n (drop (i * 100) xs)) same ∙ take-min 100 (drop (i * 100) xs)

  after_slice :
      (i : ℕ) (xs : List A)
      → take 100 (drop (i * 100) xs) ++ drop ((i + 1) * 100) xs ≡ drop (i * 100) xs
  after_slice i xs =
      ap (λ l. take 100 (drop (i * 100) xs) ++ l)
        (ap (λ n. drop n xs) (hundreds i) ∙ sym (drop-drop 100 (i * 100) xs))
      ∙ take-append-drop 100 (drop (i * 100) xs)

module _ {E V : Type 0} (mo : Monero) (enc : Encoding mo V)
    (answer : Text → Result (RpcError E V) V) where
  -- A daemon that answers the endpoint by an answer to the body, and notes the bodies.
  abbrev pub noting : Text → Text → List Text → Result (RpcError E V) V × List Text
  noting endpoint body log = (answer body, log ++ body ∷ [])

  abbrev pub received : List mo.Hash → Result (RpcError E V) (List mo.Transaction)
  received hashes =
      answer (transactions_body mo enc noting hashes) >>= read_transactions mo enc noting

  abbrev pub IsChunk : List mo.Hash → Type 0
  IsChunk c = (0 < length c) × (length c ≤ 100)

  abbrev pub Fetches :
      List mo.Hash
      → List mo.Transaction
      → List Text
      → Result (RpcError E V) (List mo.Transaction) × List Text
      → Type 0
  Fetches hashes acc log out =
      (chunks : List (List mo.Hash)) × (flatten chunks ≡ hashes)
      × All IsChunk chunks
      × (out.0 ≡ (try_map received chunks >>= λ ts. ok (acc ++ flatten ts)))
      × ((out.1 ≡ log ++ map (transactions_body mo enc noting) chunks)
          ⊎ ((e : RpcError E V) × (out.0 ≡ err e)))

  -- A round that asks, by what it receives.
  proceed :
      ℕ
      → ℕ
      → List mo.Hash
      → List mo.Transaction
      → List Text
      → List mo.Hash
      → Result (RpcError E V) (List mo.Transaction) × List Text
  unfolding fetch_from
  proceed rounds i hashes acc log chunk =
      let log' = log ++ transactions_body mo enc noting chunk ∷ [] in
      elim (received chunk) [
        | err e ↦ (err e, log')
        | ok txs ↦ fetch_from mo enc noting rounds (i + 1) hashes (acc ++ txs) log'
      ]

  asks_next :
      (rounds i : ℕ) (hashes : List mo.Hash) (acc : List mo.Transaction) (log : List Text)
      → nat_beq (min (100 * (i + 1)) (length hashes)) (i * 100) ≡ false
      → i * 100 ≤ length hashes
      → fetch_from mo enc noting (suc rounds) i hashes acc log
        ≡ proceed rounds i hashes acc log (take 100 (drop (i * 100) hashes))
  unfolding fetch_from proceed
  asks_next rounds i hashes acc log more h =
      rw (more, fetch_from) (ap (proceed rounds i hashes acc log) (slice i hashes h))

  shift :
      (acc txs : List mo.Transaction) (m : Result (RpcError E V) (List (List mo.Transaction)))
      → (m >>= λ ts. ok ((acc ++ txs) ++ flatten ts))
        ≡ ((m >>= λ bs. ok (txs ∷ bs)) >>= λ ts. ok (acc ++ flatten ts))
  shift acc txs (ok ts) = ap ok (append_assoc acc txs (flatten ts))
  shift acc txs (err e) = refl

  proceeds :
      (rounds i : ℕ) (hashes : List mo.Hash) (acc : List mo.Transaction) (log : List Text)
      → IsChunk (take 100 (drop (i * 100) hashes))
      → ((acc' : List mo.Transaction) (log' : List Text)
          → Fetches
              (drop ((i + 1) * 100) hashes)
              acc'
              log'
              (fetch_from mo enc noting rounds (i + 1) hashes acc' log'))
      → Fetches
          (drop (i * 100) hashes)
          acc
          log
          (proceed rounds i hashes acc log (take 100 (drop (i * 100) hashes)))
  unfolding proceed try_map
  proceeds rounds i hashes acc log fits ih =
      let chunk = take 100 (drop (i * 100) hashes) in
      elim (Result-cases (received chunk)) [
        | inl (e, g) ↦
            let (chunks, all, sized, _, _) = ih acc log in
            (
              chunk ∷ chunks,
              ap (λ l. chunk ++ l) all ∙ after_slice i hashes,
              (fits, sized),
              rw (g, proceed) refl,
              inr (e, rw (g, proceed) refl),
            )
        | inr (txs, g) ↦
            let log' : List Text = log ++ transactions_body mo enc noting chunk ∷ [] in
            let (chunks, all, sized, found, noted) = ih (acc ++ txs) log' in
            (
              chunk ∷ chunks,
              ap (λ l. chunk ++ l) all ∙ after_slice i hashes,
              (fits, sized),
              rw (g, proceed) (found ∙ shift acc txs (try_map received chunks)),
              elim noted [
                | inl same ↦ inl (
                    rw (g, proceed)
                      (same
                        ∙ append_assoc log (transactions_body mo enc noting chunk ∷ [])
                            (map (transactions_body mo enc noting) chunks)))
                | inr (e, failed) ↦ inr (e, rw (g, proceed) failed)
              ],
            )
      ]

  fetch_from_lem :
      (rounds i : ℕ) (hashes : List mo.Hash) (acc : List mo.Transaction) (log : List Text)
      → i + rounds ≡ length hashes / 100 + 1
      → Fetches (drop (i * 100) hashes) acc log (fetch_from mo enc noting rounds i hashes acc log)
  unfolding fetch_from try_map
  fetch_from_lem zero i hashes acc log h = (
    [],
    sym (drop_past (i * 100) hashes (omega arith)),
    tt,
    ap ok (sym (append-nil acc)),
    inl (sym (append-nil log)),
  )
  fetch_from_lem (suc rounds) i hashes acc log h =
      elim (Bool-cases (nat_beq (min (100 * (i + 1)) (length hashes)) (i * 100))) [
        | inl done ↦
            rw (done, fetch_from)
              (
                [],
                sym (drop_past (i * 100) hashes (ground arith)),
                tt,
                ap ok (sym (append-nil acc)),
                inl (sym (append-nil log)),
              )
        | inr more ↦
            let below : i * 100 ≤ length hashes = omega arith in
            subst (Fetches (drop (i * 100) hashes) acc log)
              (sym (asks_next rounds i hashes acc log more below))
              (proceeds rounds i hashes acc log (sized_chunk i hashes more below)
                (λ acc' log'. fetch_from_lem rounds (i + 1) hashes acc' log' (omega arith)))
      ]
    where
      sized_chunk :
          (i : ℕ) (hashes : List mo.Hash)
          → nat_beq (min (100 * (i + 1)) (length hashes)) (i * 100) ≡ false
          → i * 100 ≤ length hashes
          → IsChunk (take 100 (drop (i * 100) hashes))
      sized_chunk i hashes more below =
          ground (arith, length-take 100 (drop (i * 100) hashes), length-drop (i * 100) hashes)

  -- From a daemon whose answer to a request for transactions depends on the request alone: the
  -- hashes are cut into chunks of one to a hundred, in their order; the result is the transactions
  -- that the chunks' answers hold, one after the other, or the first of their errors; and unless it
  -- is an error, exactly these chunks were asked for, each once.
  pub transactions_by_hashes_lem :
      (hashes : List mo.Hash)
      → (chunks : List (List mo.Hash)) × (flatten chunks ≡ hashes)
        × All IsChunk chunks
        × ((rpc_transactions_by_hashes mo enc noting hashes []).0
            ≡ (try_map received chunks >>= λ ts. ok (flatten ts)))
        × (((rpc_transactions_by_hashes mo enc noting hashes []).1
              ≡ map (transactions_body mo enc noting) chunks)
            ⊎ ((e : RpcError E V) × ((rpc_transactions_by_hashes mo enc noting hashes []).0
                  ≡ err e)))
  unfolding rpc_transactions_by_hashes
  transactions_by_hashes_lem hashes =
      fetch_from_lem (length hashes / 100 + 1) 0 hashes [] [] (omega arith)
