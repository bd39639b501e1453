-- ===== src/Storage/Sled.antt =====
-- library/src/storage/stores/sled.rs: the store over three trees of the crate sled, with the encoder bincode.
pub mod Views
pub mod Prefixes
use xmrgateway.Prelude.{
  ℕ, ◌≡◌, ◌≢◌, Bool, true, false, Option, none, some, List, [], ◌∷◌, ◌++◌, map, Result, ok, err,
  try_map, ◌>>=◌,
}
use xmrgateway.Std.Text.{codes}
use xmrgateway.Invoice.{SubIndex, InvoiceId, Invoice, id}
use xmrgateway.Storage.OutputKeys.{OutputPubKey, OutputId}

-- bincode with its standard configuration. `Bytes` are the encoded values; keys are spelled out, since a
-- key is searched by its prefix. What was encoded is read back; an identifier is encoded as its
-- subaddress index and what follows, and no encoded index begins another.
pub record Bincode : Type 1 where
  pub EncodeError : Type 0
  pub DecodeError : Type 0
  pub Bytes : Type 0
  pub encode_id : InvoiceId → Result EncodeError (List ℕ)
  pub decode_id : List ℕ → Result DecodeError InvoiceId
  pub encode_sub_index : SubIndex → Result EncodeError (List ℕ)
  pub encode_invoice : Invoice → Result EncodeError Bytes
  pub decode_invoice : Bytes → Result DecodeError Invoice
  pub encode_output_id : OutputId → Result EncodeError Bytes
  pub decode_output_id : Bytes → Result DecodeError OutputId
  pub encode_height : ℕ → Result EncodeError Bytes
  pub decode_height : Bytes → Result DecodeError ℕ
  pub decode-encode_id : (i : InvoiceId) (k : List ℕ) → encode_id i ≡ ok k → decode_id k ≡ ok i
  pub decode-encode_invoice :
      (inv : Invoice) (v : Bytes) → encode_invoice inv ≡ ok v → decode_invoice v ≡ ok inv
  pub encode_id-sub_index :
      (i : InvoiceId) (k : List ℕ)
      → encode_id i ≡ ok k
      → (p rest : List ℕ) × (encode_sub_index i.sub_index ≡ ok p) × (k ≡ p ++ rest)
  pub encode_sub_index-prefix :
      (a b : SubIndex) (p q r t : List ℕ)
      → encode_sub_index a ≡ ok p
      → encode_sub_index b ≡ ok q
      → p ++ r ≡ q ++ t
      → a ≡ b

-- How a closure in a transaction fails, and how a transaction fails.
pub data TransactionError (X E : Type 0) : Type 0 where
  abort : E → TransactionError X E
  storage : X → TransactionError X E

-- A change of what stands under one key.
abbrev pub Writes :
    {V : Type 0} → (List ℕ → Option V) → (List ℕ → Option V) → List ℕ → Option V → Type 0
Writes before after k new = (after k ≡ new) × ((j : List ℕ) → k ≢ j → after j ≡ before j)

-- `sled::Tree`, whose calls may fail. The laws are what sled documents of a call that succeeds, by what
-- stands under the keys.
pub record Tree (X V : Type 0) : Type 1 where
  pub State : Type 0
  pub contents : State → List ℕ → Option V
  pub get : List ℕ → State → Result X (Option V)
  pub insert : List ℕ → V → State → Result X (Option V) × State
  pub remove : List ℕ → State → Result X (Option V) × State
  pub compare_and_swap :
      List ℕ → Option V → Option V → State → Result X (Result (Option V) (Unit {0})) × State
  pub fetch_and_update : List ℕ → (Option V → Option V) → State → Result X (Option V) × State
  pub iter : State → List (Result X (List ℕ × V))
  pub scan_prefix : List ℕ → State → List (Result X (List ℕ × V))
  pub transaction :
      {A E : Type 0}
      → (State → Result (TransactionError X E) A × State)
      → State
      → Result (TransactionError X E) A × State
  pub is_empty : State → Bool
  pub flush : State → Result X ℕ
  pub get_lem : (k : List ℕ) (t : State) (o : Option V) → get k t ≡ ok o → o ≡ contents t k
  pub remove_lem :
      (k : List ℕ) (t : State) (o : Option V)
      → (remove k t).0 ≡ ok o
      → (o ≡ contents t k) × Writes (contents t) (contents (remove k t).1) k none
  pub compare_and_swap_lem :
      (k : List ℕ) (old new : Option V) (t : State)
      → (compare_and_swap k old new t).0 ≡ ok (ok tt)
      → (contents t k ≡ old) × Writes (contents t) (contents (compare_and_swap k old new t).1) k new
  pub fetch_and_update_lem :
      (k : List ℕ) (f : Option V → Option V) (t : State) (o : Option V)
      → (fetch_and_update k f t).0 ≡ ok o
      → (o ≡ contents t k)
        × Writes (contents t) (contents (fetch_and_update k f t).1) k (f (contents t k))
  pub scan_prefix-nil :
      (p : List ℕ) (t : State)
      → scan_prefix p t ≡ []
      → (rest : List ℕ) → contents t (p ++ rest) ≡ none
  pub scan_prefix-cons :
      (p k : List ℕ) (v : V) (t : State) (rows : List (Result X (List ℕ × V)))
      → scan_prefix p t ≡ ok (k, v) ∷ rows
      → (contents t k ≡ some v) × ((rest : List ℕ) × (k ≡ p ++ rest))

-- `SledStorageError` with the cases of `DatabaseError` and of its transactions in place.
pub data SledStorageError (X N D : Type 0) : Type 0 where
  general : X → SledStorageError X N D
  aborted : SledStorageError X N D → SledStorageError X N D
  transaction_storage : X → SledStorageError X N D
  duplicate_invoice_id : SledStorageError X N D
  duplicate_output_key : SledStorageError X N D
  serialize : N → SledStorageError X N D
  deserialize : D → SledStorageError X N D

module _ (bc : Bincode) {X : Type 0} (tree : Tree X bc.Bytes) where
  pub record Sled : Type 0 where
    pub invoices : tree.State
    pub output_keys : tree.State
    pub height : tree.State

  abbrev pub Error : Type 0
  Error = SledStorageError X bc.EncodeError bc.DecodeError

  abbrev pub deserialized : {A : Type 0} → Result bc.DecodeError A → Result Error A
  deserialized (err e) = err (deserialize e)
  deserialized (ok a) = ok a

  -- What a tree answers, decoded.
  abbrev pub decoded :
      {V A : Type 0} → (V → Result bc.DecodeError A) → Result X (Option V) → Result Error (Option A)
  decoded decode (err x) = err (general x)
  decoded decode (ok none) = ok none
  decoded decode (ok (some v)) = deserialized (decode v) >>= λ a. ok (some a)

  -- What is done with an encoded key or value, unless it could not be encoded.
  abbrev pub encoded :
      {V A : Type 0}
      → Result bc.EncodeError V
      → (V → Result Error A × Sled)
      → Sled
      → Result Error A × Sled
  encoded (err e) f s = (err (serialize e), s)
  encoded (ok v) f s = f v

  abbrev pub swapped : Result X (Result (Option bc.Bytes) (Unit {0})) → Result Error (Unit {0})
  swapped (err x) = err (general x)
  swapped (ok (err current)) = err duplicate_invoice_id
  swapped (ok (ok u)) = ok tt

  unfoldable pub sled_insert : Invoice → Sled → Result Error (Unit {0}) × Sled
  sled_insert invoice s =
      encoded (bc.encode_id (id invoice))
        (λ key.
          encoded (bc.encode_invoice invoice)
            (λ value.
              let (result, t) = tree.compare_and_swap key none (some value) s.invoices in
              (swapped result, record s { invoices = t }))
            s)
        s

  unfoldable pub sled_remove : InvoiceId → Sled → Result Error (Option Invoice) × Sled
  sled_remove invoice_id s =
      encoded (bc.encode_id invoice_id)
        (λ key.
          let (old, t) = tree.remove key s.invoices in
          (decoded bc.decode_invoice old, record s { invoices = t }))
        s

  -- The closure of `fetch_and_update`.
  abbrev pub replaced : bc.Bytes → Option bc.Bytes → Option bc.Bytes
  replaced new none = none
  replaced new (some old) = some new

  unfoldable pub sled_update : Invoice → Sled → Result Error (Option Invoice) × Sled
  sled_update invoice s =
      encoded (bc.encode_id (id invoice))
        (λ key.
          encoded (bc.encode_invoice invoice)
            (λ value.
              let (old, t) = tree.fetch_and_update key (replaced value) s.invoices in
              (decoded bc.decode_invoice old, record s { invoices = t }))
            s)
        s

  unfoldable pub sled_get : InvoiceId → Sled → Result Error (Option Invoice)
  sled_get invoice_id s = elim (bc.encode_id invoice_id) [
    | err e ↦ err (serialize e)
    | ok key ↦ decoded bc.decode_invoice (tree.get key s.invoices)
  ]

  abbrev pub row_key : Result X (List ℕ × bc.Bytes) → Result Error (List ℕ)
  row_key (err x) = err (general x)
  row_key (ok (k, v)) = ok k

  unfoldable pub sled_get_ids : Sled → Result Error (List InvoiceId)
  unfolding try_map
  sled_get_ids s = try_map row_key (tree.iter s.invoices) >>= λ keys.
      try_map (λ key. deserialized (bc.decode_id key)) keys

  abbrev pub has_row : List (Result X (List ℕ × bc.Bytes)) → Bool
  has_row [] = false
  has_row (row ∷ rows) = true

  unfoldable pub sled_contains_sub_index : SubIndex → Sled → Result Error Bool
  sled_contains_sub_index sub_index s = elim (bc.encode_sub_index sub_index) [
    | err e ↦ err (serialize e)
    | ok key ↦ ok (has_row (tree.scan_prefix key s.invoices))
  ]

  -- What `try_for_each` hands to its closure for a row.
  abbrev pub row_invoice : Result X (List ℕ × bc.Bytes) → Result Error Invoice
  row_invoice (err x) = err (general x)
  row_invoice (ok (k, v)) = deserialized (bc.decode_invoice v)

  unfoldable pub sled_rows : Sled → List (Result Error Invoice)
  sled_rows s = map row_invoice (tree.iter s.invoices)

  abbrev pub sled_is_empty : Sled → Result Error Bool
  sled_is_empty s = ok (tree.is_empty s.invoices)

  -- The closure of the transaction.
  abbrev pub entered :
      OutputPubKey
      → OutputId
      → tree.State
      → Result (TransactionError X Error) (Unit {0}) × tree.State
  entered key output_id t = elim (bc.encode_output_id output_id) [
    | err e ↦ (err (abort (serialize e)), t)
    | ok value ↦
        let (result, t') = tree.insert key.bytes value t in
        (
          elim result [
            | err x ↦ err (storage x)
            | ok none ↦ ok tt
            | ok (some old) ↦ err (abort duplicate_output_key)
          ],
          t',
        )
  ]

  abbrev pub transacted : Result (TransactionError X Error) (Unit {0}) → Result Error (Unit {0})
  transacted (ok u) = ok tt
  transacted (err (abort e)) = err (aborted e)
  transacted (err (storage x)) = err (transaction_storage x)

  unfoldable pub sled_insert_key : OutputPubKey → OutputId → Sled → Result Error (Unit {0}) × Sled
  sled_insert_key key output_id s =
      let (result, t) = tree.transaction (entered key output_id) s.output_keys in
      (transacted result, record s { output_keys = t })

  unfoldable pub sled_get_key : OutputPubKey → Sled → Result Error (Option OutputId)
  sled_get_key key s = decoded bc.decode_output_id (tree.get key.bytes s.output_keys)

  unfoldable pub sled_upsert : ℕ → Sled → Result Error (Option ℕ) × Sled
  sled_upsert height s =
      encoded (bc.encode_height height)
        (λ value.
          let (old, t) = tree.insert (codes "height") value s.height in
          (decoded bc.decode_height old, record s { height = t }))
        s

  unfoldable pub sled_get_height : Sled → Result Error (Option ℕ)
  sled_get_height s = decoded bc.decode_height (tree.get (codes "height") s.height)

  abbrev pub flushed : Result X ℕ → Result Error (Unit {0})
  flushed (err x) = err (general x)
  flushed (ok n) = ok tt

  unfoldable pub sled_flush : Sled → Result Error (Unit {0})
  sled_flush s = flushed (tree.flush s.invoices) >>= λ u.
      flushed (tree.flush s.output_keys) >>= λ u. flushed (tree.flush s.height)
