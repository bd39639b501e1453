-- ===== src/Invoice/Keys.antt =====
-- library/src/invoice.rs: `From<InvoiceId> for u128` and `From<u128> for InvoiceId`, the keys under
-- which a store may file an invoice.

use xmrgateway.Prelude.{
  ℕ, ◌+◌, ◌*◌, ◌^◌, ◌<◌, ◌≡◌, ap, subst, sym, ◌∙◌, compare, List, ◌++◌, length, length-append,
  length-take, length-drop, take, drop, take-append_left, drop-append_left, drop-drop,
  take-append-drop, take_of_length-le, All, All-take, All-drop, All-append, arith, u32_mod, u64_mod,
  u128_mod,
}
use xmrgateway.Invoice.{InvoiceId, cmp_sub_index, cmp_invoice_id}
use xmrgateway.Invoice.Bytes.{
  from_be_bytes-lt, to_be_bytes, from_be_bytes, IsByte, from_be_bytes-append, length-to_be_bytes,
  to_be_bytes-IsByte, from-to_be_bytes, to-from_be_bytes,
}

-- The fields fit their machine types.
pub record InRange (i : InvoiceId) : Type 0 where
  pub major : i.sub_index.major < u32_mod
  pub minor : i.sub_index.minor < u32_mod
  pub height : i.creation_height < u64_mod

-- The array `bytes` after the three `copy_from_slice` calls.
abbrev id_bytes : InvoiceId → List ℕ
id_bytes i =
    to_be_bytes 4 i.sub_index.major
    ++ (to_be_bytes 4 i.sub_index.minor ++ to_be_bytes 8 i.creation_height)

unfoldable pub to_u128 : InvoiceId → ℕ
to_u128 i = from_be_bytes (id_bytes i)

abbrev of_bytes : List ℕ → InvoiceId
of_bytes bytes = record {
  sub_index = record {
    major = from_be_bytes (take 4 bytes);
    minor = from_be_bytes (take 4 (drop 4 bytes));
  };
  creation_height = from_be_bytes (take 8 (drop 8 bytes));
}

unfoldable pub from_u128 : ℕ → InvoiceId
from_u128 value = of_bytes (to_be_bytes 16 value)

module _ (i : InvoiceId) where
  abbrev major_bytes : List ℕ
  major_bytes = to_be_bytes 4 i.sub_index.major

  abbrev minor_bytes : List ℕ
  minor_bytes = to_be_bytes 4 i.sub_index.minor

  abbrev height_bytes : List ℕ
  height_bytes = to_be_bytes 8 i.creation_height

  major_length : length major_bytes ≡ 4
  major_length = length-to_be_bytes 4 i.sub_index.major

  minor_length : length minor_bytes ≡ 4
  minor_length = length-to_be_bytes 4 i.sub_index.minor

  height_length : length height_bytes ≡ 8
  height_length = length-to_be_bytes 8 i.creation_height

  length-id_bytes : length (id_bytes i) ≡ 16
  length-id_bytes = omega (
    arith,
    length-append major_bytes (minor_bytes ++ height_bytes),
    length-append minor_bytes height_bytes,
    major_length,
    minor_length,
    height_length,
  )

  id_bytes-IsByte : All IsByte (id_bytes i)
  id_bytes-IsByte =
      All-append IsByte major_bytes _ (to_be_bytes-IsByte 4 _)
        (All-append IsByte minor_bytes _ (to_be_bytes-IsByte 4 _) (to_be_bytes-IsByte 8 _))

  drop_minor : drop 4 (id_bytes i) ≡ minor_bytes ++ height_bytes
  drop_minor = drop-append_left 4 major_bytes _ major_length

  drop_height : drop 8 (id_bytes i) ≡ height_bytes
  unfolding to_be_bytes
  drop_height =
      drop-append_left 8 (major_bytes ++ minor_bytes) height_bytes
        (omega (arith, length-append major_bytes minor_bytes, major_length, minor_length))

  of_id_bytes : InRange i → of_bytes (id_bytes i) ≡ i
  of_id_bytes r =
      let ma : from_be_bytes major_bytes ≡ i.sub_index.major =
        from-to_be_bytes 4 i.sub_index.major r.major in
      let mi : from_be_bytes minor_bytes ≡ i.sub_index.minor =
        from-to_be_bytes 4 i.sub_index.minor r.minor in
      let he : from_be_bytes height_bytes ≡ i.creation_height =
        from-to_be_bytes 8 i.creation_height r.height in
      rw (
        take-append_left 4 major_bytes (minor_bytes ++ height_bytes) major_length,
        drop_minor,
        take-append_left 4 minor_bytes height_bytes minor_length,
        drop_height,
        take_of_length-le 8 height_bytes (omega (arith, height_length)),
        ma,
        mi,
        he,
      )

  -- An identifier whose fields fit their machine types is read back from its key.
  pub from-to_u128 : InRange i → from_u128 (to_u128 i) ≡ i
  unfolding from_u128 to_u128
  from-to_u128 r =
      rw (to-from_be_bytes 16 (id_bytes i) length-id_bytes id_bytes-IsByte) (of_id_bytes r)

  -- The key weighs the major index, the minor index and the height.
  pub to_u128_lem :
      InRange i
      → to_u128 i ≡ i.sub_index.major * 2 ^ 96 + i.sub_index.minor * 2 ^ 64 + i.creation_height
  unfolding to_u128
  to_u128_lem r = omega (
    arith,
    from_be_bytes-append major_bytes (minor_bytes ++ height_bytes),
    from_be_bytes-append minor_bytes height_bytes,
    from-to_be_bytes 4 i.sub_index.major r.major,
    from-to_be_bytes 4 i.sub_index.minor r.minor,
    from-to_be_bytes 8 i.creation_height r.height,
    ap (λ (t : ℕ). from_be_bytes major_bytes * 256 ^ t) rest_length,
    ap (λ (t : ℕ). from_be_bytes minor_bytes * 256 ^ t) height_length,
  )
    where
      rest_length : length (minor_bytes ++ height_bytes) ≡ 12
      rest_length =
          omega (arith, length-append minor_bytes height_bytes, minor_length, height_length)

-- The keys of two identifiers whose fields fit their machine types stand in the order of the
-- identifiers.
pub cmp-to_u128 :
    (a b : InvoiceId) → InRange a → InRange b → compare (to_u128 a) (to_u128 b) ≡ cmp_invoice_id a b
unfolding cmp_invoice_id cmp_sub_index
cmp-to_u128 a b ra rb = rw (to_u128_lem a ra, to_u128_lem b rb) (ground arith)

-- The three slices of sixteen bytes make them up.
slices :
    (xs : List ℕ) → length xs ≡ 16 → take 4 xs ++ (take 4 (drop 4 xs) ++ take 8 (drop 8 xs)) ≡ xs
slices xs e =
    let rest : take 8 (drop 8 xs) ≡ drop 4 (drop 4 xs) =
      take_of_length-le 8 (drop 8 xs) (omega (arith, length-drop 8 xs)) ∙ sym (drop-drop 4 4 xs) in
    rw (rest, take-append-drop 4 (drop 4 xs)) (take-append-drop 4 xs)

id_bytes-of_bytes : (xs : List ℕ) → length xs ≡ 16 → All IsByte xs → id_bytes (of_bytes xs) ≡ xs
id_bytes-of_bytes xs e h = rw (first, second, third) (slices xs e)
  where
    first : to_be_bytes 4 (from_be_bytes (take 4 xs)) ≡ take 4 xs
    first =
        to-from_be_bytes 4 (take 4 xs) (omega (arith, length-take 4 xs)) (All-take IsByte 4 xs h)

    second : to_be_bytes 4 (from_be_bytes (take 4 (drop 4 xs))) ≡ take 4 (drop 4 xs)
    second =
        to-from_be_bytes 4 (take 4 (drop 4 xs))
          (omega (arith, length-take 4 (drop 4 xs), length-drop 4 xs))
          (All-take IsByte 4 (drop 4 xs) (All-drop IsByte 4 xs h))

    third : to_be_bytes 8 (from_be_bytes (take 8 (drop 8 xs))) ≡ take 8 (drop 8 xs)
    third =
        to-from_be_bytes 8 (take 8 (drop 8 xs))
          (omega (arith, length-take 8 (drop 8 xs), length-drop 8 xs))
          (All-take IsByte 8 (drop 8 xs) (All-drop IsByte 8 xs h))

-- Every key below 2^128 is the key of the identifier that it is read as.
pub to-from_u128 : (value : ℕ) → value < u128_mod → to_u128 (from_u128 value) ≡ value
unfolding from_u128 to_u128
to-from_u128 value h =
    rw
      (id_bytes-of_bytes (to_be_bytes 16 value) (length-to_be_bytes 16 value)
        (to_be_bytes-IsByte 16 value))
      (from-to_be_bytes 16 value h)

-- A key fits 128 bits.
pub to_u128-lt : (i : InvoiceId) → to_u128 i < 256 ^ 16
unfolding to_u128
to_u128-lt i =
    subst (λ n. from_be_bytes (id_bytes i) < 256 ^ n) (length-id_bytes i)
      (from_be_bytes-lt (id_bytes i) (id_bytes-IsByte i))
