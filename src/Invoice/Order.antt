-- ===== src/Invoice/Order.antt =====
-- library/src/invoice.rs: `Ord` and `PartialEq` of subaddress indices and of invoice identifiers.
use xmrgateway.Prelude.{
  ◌≡◌, ◌↔◌, Bool, true, ◌&&◌, Ordering, Eq, Ord, nat_beq, reverse_ordering, arith,
}
use xmrgateway.Invoice.{SubIndex, InvoiceId, cmp_sub_index, cmp_invoice_id}

pub cmp_sub_index-eq_iff : (a b : SubIndex) → (cmp_sub_index a b ≡ Ordering.eq) ↔ (a ≡ b)
unfolding cmp_sub_index
cmp_sub_index-eq_iff a b = ground arith

pub cmp_sub_index_swap : (a b : SubIndex) → cmp_sub_index b a ≡ reverse_ordering (cmp_sub_index a b)
unfolding cmp_sub_index
cmp_sub_index_swap a b = ground arith

pub cmp_sub_index_trans :
    (a b c : SubIndex)
    → cmp_sub_index a b ≡ Ordering.lt
    → cmp_sub_index b c ≡ Ordering.lt
    → cmp_sub_index a c ≡ Ordering.lt
unfolding cmp_sub_index
cmp_sub_index_trans a b c h k = ground arith

pub cmp_invoice_id-eq_iff : (a b : InvoiceId) → (cmp_invoice_id a b ≡ Ordering.eq) ↔ (a ≡ b)
unfolding cmp_invoice_id cmp_sub_index
cmp_invoice_id-eq_iff a b = ground arith

pub cmp_invoice_id_swap :
    (a b : InvoiceId) → cmp_invoice_id b a ≡ reverse_ordering (cmp_invoice_id a b)
unfolding cmp_invoice_id cmp_sub_index
cmp_invoice_id_swap a b = ground arith

pub cmp_invoice_id_trans :
    (a b c : InvoiceId)
    → cmp_invoice_id a b ≡ Ordering.lt
    → cmp_invoice_id b c ≡ Ordering.lt
    → cmp_invoice_id a c ≡ Ordering.lt
unfolding cmp_invoice_id cmp_sub_index
cmp_invoice_id_trans a b c h k = ground arith

instance abbrev pub sub_index_ord : Ord SubIndex
sub_index_ord = record {
  cmp = cmp_sub_index;
  cmp_eq_iff = cmp_sub_index-eq_iff;
  cmp_swap = cmp_sub_index_swap;
  cmp_trans = cmp_sub_index_trans;
}

instance abbrev pub invoice_id_ord : Ord InvoiceId
invoice_id_ord = record {
  cmp = cmp_invoice_id;
  cmp_eq_iff = cmp_invoice_id-eq_iff;
  cmp_swap = cmp_invoice_id_swap;
  cmp_trans = cmp_invoice_id_trans;
}

-- The derived `PartialEq` of `SubIndex` and of `InvoiceId`.
abbrev pub sub_index_beq : SubIndex → SubIndex → Bool
sub_index_beq a b = nat_beq a.major b.major && nat_beq a.minor b.minor

pub sub_index_beq_iff : (a b : SubIndex) → (sub_index_beq a b ≡ true) ↔ (a ≡ b)
sub_index_beq_iff a b = ground arith

instance abbrev pub sub_index_eq : Eq SubIndex
sub_index_eq = record { beq = sub_index_beq; beq_iff = sub_index_beq_iff }

abbrev pub invoice_id_beq : InvoiceId → InvoiceId → Bool
invoice_id_beq a b =
    sub_index_beq a.sub_index b.sub_index && nat_beq a.creation_height b.creation_height

pub invoice_id_beq_iff : (a b : InvoiceId) → (invoice_id_beq a b ≡ true) ↔ (a ≡ b)
invoice_id_beq_iff a b = ground arith

instance abbrev pub invoice_id_eq : Eq InvoiceId
invoice_id_eq = record { beq = invoice_id_beq; beq_iff = invoice_id_beq_iff }
