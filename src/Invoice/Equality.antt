-- ===== src/Invoice/Equality.antt =====
-- library/src/invoice.rs: `impl PartialEq for Invoice`, which ignores the order of the transfers.
use xmrgateway.Prelude.{
  ap, sym, ℕ, suc, ◌+◌, ◌≡◌, ◌↔◌, refl, sym, ◌∙◌, Bool, true, ◌&&◌, Option, none, some, List, [],
  ◌∷◌, Eq, ◌==◌, option_beq, option_beq_iff, nat_beq, nat_beq_iff, length, if◌then◌else◌, arith,
  &&-eq-true, string_eq, option_nat_eq, nat_eq,
}
use xmrgateway.Std.HashMap.{
  lookup, insert, Distinct, lookup-insert, insert-Distinct, length_of_same, same_of_subset,
}
use xmrgateway.Invoice.{Transfer, Invoice}
use xmrgateway.Invoice.Order.{sub_index_beq, sub_index_eq}

-- The derived `PartialEq` of `Transfer`.
abbrev pub transfer_beq : Transfer → Transfer → Bool
transfer_beq a b = nat_beq a.amount b.amount && option_beq a.height b.height

pub transfer_beq_iff : (a b : Transfer) → (transfer_beq a b ≡ true) ↔ (a ≡ b)
transfer_beq_iff a b = ground (arith, option_beq_iff a.height b.height)

instance abbrev pub transfer_eq : Eq Transfer
transfer_eq = record { beq = transfer_beq; beq_iff = transfer_beq_iff }

-- The count of a transfer in a tally, `or_insert(0)` for one that is not there.
abbrev count_or_zero : Option ℕ → ℕ
count_or_zero none = 0
count_or_zero (some n) = n

-- The body of a loop over `transfers`: `*entry(i).or_insert(0) += 1`.
unfoldable pub bump : Transfer → List (Transfer × ℕ) → List (Transfer × ℕ)
unfolding insert lookup
bump t counts = insert t (suc (count_or_zero (lookup t counts))) counts

unfoldable pub tally : List (Transfer × ℕ) → List Transfer → List (Transfer × ℕ)
tally counts [] = counts
tally counts (t ∷ ts) = tally (bump t counts) ts

-- `==` on two hash maps: as many keys, and every entry of one in the other.
unfoldable pub all_in : List (Transfer × ℕ) → List (Transfer × ℕ) → Bool
all_in [] counts = true
all_in ((t, n) ∷ rest) counts = option_beq (lookup t counts) (some n) && all_in rest counts

unfoldable pub tallies_eq : List (Transfer × ℕ) → List (Transfer × ℕ) → Bool
unfolding all_in lookup
tallies_eq lhs rhs = nat_beq (length lhs) (length rhs) && all_in lhs rhs

unfoldable pub invoice_eq : Invoice → Invoice → Bool
invoice_eq a b =
    tallies_eq (tally [] a.transfers) (tally [] b.transfers)
    && (a.address == b.address
        && (sub_index_beq a.index b.index
            && (nat_beq a.creation_height b.creation_height
                && (nat_beq a.amount_requested b.amount_requested
                    && (nat_beq a.amount_paid b.amount_paid
                        && (option_beq a.paid_height b.paid_height
                            && (nat_beq a.confirmations_required b.confirmations_required
                                && (nat_beq a.current_height b.current_height
                                    && (nat_beq a.expiration_height b.expiration_height
                                        && a.description == b.description)))))))))

-- How often a transfer stands in a list.
abbrev pub count : Transfer → List Transfer → ℕ
count t [] = 0
count t (u ∷ us) = if u == t then suc (count t us) else count t us

abbrev pub SameTransfers : List Transfer → List Transfer → Type 0
SameTransfers xs ys = (t : Transfer) → count t xs ≡ count t ys

-- Equal but for the order of the transfers.
pub record SameInvoice (a b : Invoice) : Type 0 where
  pub transfers : SameTransfers a.transfers b.transfers
  pub address : a.address ≡ b.address
  pub index : a.index ≡ b.index
  pub creation_height : a.creation_height ≡ b.creation_height
  pub amount_requested : a.amount_requested ≡ b.amount_requested
  pub amount_paid : a.amount_paid ≡ b.amount_paid
  pub paid_height : a.paid_height ≡ b.paid_height
  pub confirmations_required : a.confirmations_required ≡ b.confirmations_required
  pub current_height : a.current_height ≡ b.current_height
  pub expiration_height : a.expiration_height ≡ b.expiration_height
  pub description : a.description ≡ b.description

abbrev counted : ℕ → Option ℕ
counted n = if nat_beq n 0 then none else some n

bump-Distinct :
    (t : Transfer) (counts : List (Transfer × ℕ)) → Distinct counts → Distinct (bump t counts)
bump-Distinct t counts h = unfold bump in insert-Distinct t _ counts h

lookup-bump :
    (t u : Transfer) (counts : List (Transfer × ℕ)) (n : ℕ)
    → lookup t counts ≡ counted n
    → lookup t (bump u counts) ≡ counted (if transfer_beq u t then suc n else n)
lookup-bump t u counts n h =
    unfold bump in
    rw (lookup-insert u t (suc (count_or_zero (lookup u counts))) counts)
      (ground (arith, transfer_beq_iff u t))

-- A tally holds, for each transfer, the count it had and the count in the list.
lookup-tally :
    (t : Transfer) (counts : List (Transfer × ℕ)) (ts : List Transfer) (n : ℕ)
    → lookup t counts ≡ counted n
    → lookup t (tally counts ts) ≡ counted (n + count t ts)
unfolding tally
lookup-tally t counts [] n h = ground arith
lookup-tally t counts (u ∷ us) n h =
    let next : lookup t (tally (bump u counts) us)
        ≡ counted ((if transfer_beq u t then suc n else n) + count t us) =
      lookup-tally t (bump u counts) us (if transfer_beq u t then suc n else n)
        (lookup-bump t u counts n h) in
    next ∙ ap counted (ground arith)

tally-Distinct :
    (counts : List (Transfer × ℕ)) (ts : List Transfer)
    → Distinct counts
    → Distinct (tally counts ts)
unfolding tally
tally-Distinct counts [] h = h
tally-Distinct counts (u ∷ us) h = tally-Distinct (bump u counts) us (bump-Distinct u counts h)

abbrev Within : List (Transfer × ℕ) → List (Transfer × ℕ) → Type 0
Within m n = (t : Transfer) (k : ℕ) → lookup t m ≡ some k → lookup t n ≡ some k

all_in-Within : (m n : List (Transfer × ℕ)) → all_in m n ≡ true → Within m n
unfolding all_in lookup
all_in-Within [] n h t k e = cc
all_in-Within ((u, j) ∷ m) n h t k e =
    let here : lookup u n ≡ some j = ground (arith, option_beq_iff (lookup u n) (some j)) in
    let rest : all_in m n ≡ true = ground arith in
    ground (arith, all_in-Within m n rest t k, transfer_beq_iff u t)

Within-all_in : (m n : List (Transfer × ℕ)) → Distinct m → Within m n → all_in m n ≡ true
unfolding all_in lookup
Within-all_in [] n d h = refl
Within-all_in ((u, j) ∷ m) n d h =
    let here : lookup u n ≡ some j = ground (arith, h u j, transfer_beq_iff u u) in
    ground (
      arith,
      option_beq_iff (lookup u n) (some j),
      Within-all_in m n d.1 (λ t k e. ground (arith, h t k, transfer_beq_iff u t, d.0)),
    )

counted-injective : (n m : ℕ) → counted n ≡ counted m → n ≡ m
counted-injective n m h = ground arith

lookup-tally_start :
    (t : Transfer) (xs : List Transfer) → lookup t (tally [] xs) ≡ counted (count t xs)
lookup-tally_start t xs = lookup-tally t [] xs 0 (unfold lookup in refl) ∙ ap counted (omega arith)

tallies_eq-SameTransfers :
    (xs ys : List Transfer) → tallies_eq (tally [] xs) (tally [] ys) ≡ true → SameTransfers xs ys
unfolding tallies_eq
tallies_eq-SameTransfers xs ys h t =
    let sizes : length (tally [] xs) ≡ length (tally [] ys) = ground arith in
    let within : all_in (tally [] xs) (tally [] ys) ≡ true = ground arith in
    let same : lookup t (tally [] xs) ≡ lookup t (tally [] ys) =
      same_of_subset (tally [] xs) (tally [] ys) (tally-Distinct [] xs tt) (tally-Distinct [] ys tt)
        sizes (all_in-Within (tally [] xs) (tally [] ys) within) t in
    counted-injective (count t xs) (count t ys)
      (sym (lookup-tally_start t xs) ∙ same ∙ lookup-tally_start t ys)

SameTransfers-tallies_eq :
    (xs ys : List Transfer) → SameTransfers xs ys → tallies_eq (tally [] xs) (tally [] ys) ≡ true
unfolding tallies_eq
SameTransfers-tallies_eq xs ys h =
    let sizes : length (tally [] xs) ≡ length (tally [] ys) =
      length_of_same (tally [] xs) (tally [] ys) (tally-Distinct [] xs tt) (tally-Distinct [] ys tt)
        same in
    let within : all_in (tally [] xs) (tally [] ys) ≡ true =
      Within-all_in (tally [] xs) (tally [] ys) (tally-Distinct [] xs tt)
        (λ t k e. sym (same t) ∙ e) in
    ground (arith, nat_beq_iff (length (tally [] xs)) (length (tally [] ys)))
  where
    same : (t : Transfer) → lookup t (tally [] xs) ≡ lookup t (tally [] ys)
    same t = lookup-tally_start t xs ∙ ap counted (h t) ∙ sym (lookup-tally_start t ys)

SameInvoice-of_eq : (a b : Invoice) → invoice_eq a b ≡ true → SameInvoice a b
unfolding invoice_eq
SameInvoice-of_eq a b h = record {
  transfers =
      tallies_eq-SameTransfers a.transfers b.transfers
        (&&-eq-true (tallies_eq (tally [] a.transfers) (tally [] b.transfers)) _ h).0;
  address = (string_eq.beq_iff a.address b.address).0 (ground arith);
  index = ground arith;
  creation_height = ground arith;
  amount_requested = ground arith;
  amount_paid = ground arith;
  paid_height = (option_beq_iff a.paid_height b.paid_height).0 (ground arith);
  confirmations_required = ground arith;
  current_height = ground arith;
  expiration_height = ground arith;
  description = (string_eq.beq_iff a.description b.description).0 (ground arith);
}

eq_of_SameInvoice : (a b : Invoice) → SameInvoice a b → invoice_eq a b ≡ true
unfolding invoice_eq
eq_of_SameInvoice a b h =
    rw
      (
        SameTransfers-tallies_eq a.transfers b.transfers h.transfers,
        (string_eq.beq_iff a.address b.address).1 h.address,
        (string_eq.beq_iff a.description b.description).1 h.description,
        (option_beq_iff a.paid_height b.paid_height).1 h.paid_height,
      )
      (ground (arith))

-- Two invoices compare equal exactly when every transfer stands equally often in both and every
-- other field agrees.
pub invoice_eq_iff : (a b : Invoice) → (invoice_eq a b ≡ true) ↔ SameInvoice a b
invoice_eq_iff a b = (SameInvoice-of_eq a b, eq_of_SameInvoice a b)

pub invoice_eq_refl : (a : Invoice) → invoice_eq a a ≡ true
invoice_eq_refl a = eq_of_SameInvoice a a (record {
  transfers = λ t. refl;
  address = refl;
  index = refl;
  creation_height = refl;
  amount_requested = refl;
  amount_paid = refl;
  paid_height = refl;
  confirmations_required = refl;
  current_height = refl;
  expiration_height = refl;
  description = refl;
})
