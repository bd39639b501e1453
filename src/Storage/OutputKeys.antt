-- ===== src/Storage/OutputKeys.antt =====
-- library/src/storage/output_key_storage.rs: the public keys of outputs and the outputs they belong
-- to. An array of 32 bytes is the list of its bytes, which the derived orders compare in turn.
use xmrgateway.Prelude.{
  ℕ, ◌≡◌, ◌↔◌, ◌==◌, Result, ok, Option, some, if◌then◌else◌, List, [], ◌∷◌, compare, Ordering, Ord,
  reverse_ordering, arith, Bool, true, false, ◌&&◌, nat_beq, Eq,
}

pub record OutputPubKey : Type 0 where
  pub bytes : List ℕ

pub record OutputId : Type 0 where
  pub tx_hash : List ℕ
  pub index : ℕ

abbrev cmp_bytes : List ℕ → List ℕ → Ordering
cmp_bytes [] [] = Ordering.eq
cmp_bytes [] (y ∷ ys) = Ordering.lt
cmp_bytes (x ∷ xs) [] = Ordering.gt
cmp_bytes (x ∷ xs) (y ∷ ys) = elim (compare x y) [
  | Ordering.lt ↦ Ordering.lt
  | Ordering.gt ↦ Ordering.gt
  | Ordering.eq ↦ cmp_bytes xs ys
]

cmp_bytes-eq_iff : (a b : List ℕ) → (cmp_bytes a b ≡ Ordering.eq) ↔ (a ≡ b)
cmp_bytes-eq_iff [] [] = ground arith
cmp_bytes-eq_iff [] (y ∷ ys) = ground arith
cmp_bytes-eq_iff (x ∷ xs) [] = ground arith
cmp_bytes-eq_iff (x ∷ xs) (y ∷ ys) = ground (arith, cmp_bytes-eq_iff xs ys)

pub cmp_bytes_swap : (a b : List ℕ) → cmp_bytes b a ≡ reverse_ordering (cmp_bytes a b)
cmp_bytes_swap [] [] = ground arith
cmp_bytes_swap [] (y ∷ ys) = ground arith
cmp_bytes_swap (x ∷ xs) [] = ground arith
cmp_bytes_swap (x ∷ xs) (y ∷ ys) = ground (arith, cmp_bytes_swap xs ys)

pub cmp_bytes_trans :
    (a b c : List ℕ)
    → cmp_bytes a b ≡ Ordering.lt
    → cmp_bytes b c ≡ Ordering.lt
    → cmp_bytes a c ≡ Ordering.lt
cmp_bytes_trans [] [] c h k = absurd (ground arith)
cmp_bytes_trans [] (y ∷ ys) [] h k = absurd (ground arith)
cmp_bytes_trans [] (y ∷ ys) (z ∷ zs) h k = ground arith
cmp_bytes_trans (x ∷ xs) [] c h k = absurd (ground arith)
cmp_bytes_trans (x ∷ xs) (y ∷ ys) [] h k = absurd (ground arith)
cmp_bytes_trans (x ∷ xs) (y ∷ ys) (z ∷ zs) h k = ground (arith, cmp_bytes_trans xs ys zs)

-- The derived `Ord` and `PartialEq` of `OutputPubKey`.
abbrev pub cmp_output_key : OutputPubKey → OutputPubKey → Ordering
cmp_output_key a b = cmp_bytes a.bytes b.bytes

pub cmp_output_key-eq_iff : (a b : OutputPubKey) → (cmp_output_key a b ≡ Ordering.eq) ↔ (a ≡ b)
cmp_output_key-eq_iff a b = ground (arith, cmp_bytes-eq_iff a.bytes b.bytes)

instance abbrev pub output_key_ord : Ord OutputPubKey
output_key_ord = record {
  cmp = cmp_output_key;
  cmp_eq_iff = cmp_output_key-eq_iff;
  cmp_swap = λ a b. cmp_bytes_swap a.bytes b.bytes;
  cmp_trans = λ a b c. cmp_bytes_trans a.bytes b.bytes c.bytes;
}

-- The derived `PartialEq` of `OutputId`.
abbrev pub output_id_beq : OutputId → OutputId → Bool
output_id_beq a b =
    (elim (cmp_bytes a.tx_hash b.tx_hash) [ Ordering.eq ↦ true | _ ↦ false ])
    && nat_beq a.index b.index

pub output_id_beq_iff : (a b : OutputId) → (output_id_beq a b ≡ true) ↔ (a ≡ b)
output_id_beq_iff a b = ground (arith, cmp_bytes-eq_iff a.tx_hash b.tx_hash)

instance abbrev pub output_id_eq : Eq OutputId
output_id_eq = record { beq = output_id_beq; beq_iff = output_id_beq_iff }

abbrev pub output_key_beq : OutputPubKey → OutputPubKey → Bool
output_key_beq a b = elim (cmp_output_key a b) [ Ordering.eq ↦ true | _ ↦ false ]

pub output_key_beq_iff : (a b : OutputPubKey) → (output_key_beq a b ≡ true) ↔ (a ≡ b)
output_key_beq_iff a b = ground (arith, cmp_output_key-eq_iff a b)

instance abbrev pub output_key_eq : Eq OutputPubKey
output_key_eq = record { beq = output_key_beq; beq_iff = output_key_beq_iff }

-- The trait `OutputKeyStorage`, for stores whose errors are of a type.
pub record OutputKeyStorage (E : Type 0) : Type 1 where
  pub Store : Type 0
  pub get : OutputPubKey → Store → Result E (Option OutputId)
  pub insert : OutputPubKey → OutputId → Store → Result E Store
  -- A key that was inserted is answered with its output, and the other keys as before.
  pub get-insert :
      (key : OutputPubKey) (o : OutputId) (s : Store) {t : Store}
      → insert key o s ≡ ok t
      → (asked : OutputPubKey) → get asked t ≡ (if key == asked then ok (some o) else get asked s)
