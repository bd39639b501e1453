-- ===== src/Server/InvoiceIds.antt =====
-- server/src/server/api/types/invoice_id.rs: invoice identifiers as texts. The crate base64 is a
-- parameter, with what its decoder makes of its encoder's texts.
use xmrgateway.Prelude.{
  ℕ, ◌≡◌, refl, ap, subst, u128_mod, ◌^◌, ◌∙◌, String, List, length, Result, ok, err, ltb, All,
  if◌then◌else◌, arith, ◌<◌,
}
use xmrgateway.Invoice.{InvoiceId}
use xmrgateway.Invoice.Bytes.{
  to_be_bytes, from_be_bytes, from_be_bytes-lt, IsByte, length-to_be_bytes, to_be_bytes-IsByte,
  to-from_be_bytes, from-to_be_bytes,
}
use xmrgateway.Invoice.Keys.{to_u128, from_u128, InRange, from-to_u128, to-from_u128, to_u128-lt}

-- `URL_SAFE_NO_PAD`
pub record Base64 : Type 1 where
  pub DecodeError : Type 0
  pub encode : List ℕ → String
  pub decode : String → Result DecodeError (List ℕ)
  pub decode-encode : (bytes : List ℕ) → All IsByte bytes → decode (encode bytes) ≡ ok bytes

pub data InvoiceIdParseError (E : Type 0) : Type 0 where
  invalid_characters : E → InvoiceIdParseError E
  too_long : ℕ → InvoiceIdParseError E
  too_short : ℕ → InvoiceIdParseError E

module _ (b64 : Base64) where
  abbrev pub ParseError : Type 0
  ParseError = InvoiceIdParseError b64.DecodeError

  -- `From<InvoiceId> for Base64InvoiceId`
  unfoldable pub to_base64 : InvoiceId → String
  to_base64 value = b64.encode (to_be_bytes 16 (to_u128 value))

  abbrev sized : List ℕ → Result ParseError InvoiceId
  sized bytes =
      if ltb 16 (length bytes)
      then err (too_long (length bytes))
      else (if ltb (length bytes) 16
          then err (too_short (length bytes))
          else ok (from_u128 (from_be_bytes bytes)))

  unfoldable pub invoice_id_from_str : String → Result ParseError InvoiceId
  invoice_id_from_str value = elim (b64.decode value) [
    | err e ↦ err (invalid_characters e)
    | ok bytes ↦ sized bytes
  ]

  -- `TryFrom<&str> for Base64InvoiceId`
  unfoldable pub base64_from_str : String → Result ParseError String
  base64_from_str value = elim (invoice_id_from_str value) [
    | err e ↦ err e
    | ok invoice_id ↦ ok (to_base64 invoice_id)
  ]

  parsed :
      (value : String) (bytes : List ℕ)
      → b64.decode value ≡ ok bytes
      → invoice_id_from_str value ≡ sized bytes
  unfolding invoice_id_from_str
  parsed value bytes e = rw (e, invoice_id_from_str) refl

  -- An identifier whose fields fit their machine types is read back from its text.
  pub from_str-to_base64 : (i : InvoiceId) → InRange i → invoice_id_from_str (to_base64 i) ≡ ok i
  unfolding to_base64
  from_str-to_base64 i r =
      parsed (b64.encode bytes) bytes (b64.decode-encode bytes (to_be_bytes-IsByte 16 (to_u128 i)))
      ∙ rw (length-to_be_bytes 16 (to_u128 i), from-to_be_bytes 16 (to_u128 i) (to_u128-lt i))
          (ap ok (from-to_u128 i r))
    where
      bytes : List ℕ
      bytes = to_be_bytes 16 (to_u128 i)

  decoded :
      (i : InvoiceId) (bytes : List ℕ)
      → to_be_bytes 16 (to_u128 i) ≡ bytes
      → All IsByte bytes
      → b64.decode (to_base64 i) ≡ ok bytes
  unfolding to_base64
  decoded i bytes same h = ap (λ l. b64.decode (b64.encode l)) same ∙ b64.decode-encode bytes h

  -- If a text decodes to bytes: with sixteen of them it is accepted and stands for an identifier
  -- whose own text decodes to the same bytes; with any other number of them it is refused with that
  -- number.
  pub base64_from_str_lem :
      (value : String) (bytes : List ℕ)
      → b64.decode value ≡ ok bytes
      → All IsByte bytes
      → (length bytes ≡ 16
          → (i : InvoiceId) × (invoice_id_from_str value ≡ ok i)
            × (base64_from_str value ≡ ok (to_base64 i))
            × (b64.decode (to_base64 i) ≡ ok bytes))
        × (16 < length bytes → base64_from_str value ≡ err (too_long (length bytes)))
        × (length bytes < 16 → base64_from_str value ≡ err (too_short (length bytes)))
  unfolding base64_from_str
  base64_from_str_lem value bytes e h = (
    λ q.
        let small : from_be_bytes bytes < u128_mod =
          subst (λ n. from_be_bytes bytes < 256 ^ n) q (from_be_bytes-lt bytes h) in
        let same : to_be_bytes 16 (to_u128 (from_u128 (from_be_bytes bytes))) ≡ bytes =
          ap (to_be_bytes 16) (to-from_u128 (from_be_bytes bytes) small)
          ∙ to-from_be_bytes 16 bytes q h in
        let got : invoice_id_from_str value ≡ ok (from_u128 (from_be_bytes bytes)) =
          parsed value bytes e ∙ right bytes q in
        (
          from_u128 (from_be_bytes bytes),
          got,
          rw (got, base64_from_str) refl,
          decoded (from_u128 (from_be_bytes bytes)) bytes same h,
        ),
    λ q. rw (parsed value bytes e, long bytes q, base64_from_str) refl,
    λ q. rw (parsed value bytes e, short bytes q, base64_from_str) refl,
  )
    where
      right : (l : List ℕ) → length l ≡ 16 → sized l ≡ ok (from_u128 (from_be_bytes l))
      right l q = ground (arith, q)

      long : (l : List ℕ) → 16 < length l → sized l ≡ err (too_long (length l))
      long l q = ground (arith, q)

      short : (l : List ℕ) → length l < 16 → sized l ≡ err (too_short (length l))
      short l q = ground (arith, q)
