-- ===== src/Storage/InMemory/Walks.antt =====
-- `try_for_each` of library/src/storage/invoice_storage.rs on the store of
-- library/src/storage/stores/in_memory.rs, by what the store answers.
use xmrgateway.Prelude.{
  ◌≡◌, ◌⊎◌, ◌↔◌, sym, ap, subst, inl, inr, some, List, [], ◌∷◌, map, Result, ok, Ordering-cases,
  arith,
}
use mathlib.Core.Option.{some-injective}
use xmrgateway.Invoice.{InvoiceId, Invoice, id}
use xmrgateway.Invoice.Order.{invoice_id_ord}
use xmrgateway.Std.BTreeMap.{find, find_below, IsSorted}
use xmrgateway.Storage.Traits.{walk, try_for_each, try_for_each-walk}
use xmrgateway.Storage.InMemory.{invoice_get}
use xmrgateway.Storage.InMemory.Instance.{in_memory, Filed, Error}
use xmrgateway.Storage.InMemory.Books.{Books, seen}
use xmrgateway.Storage.InMemory.Least.{invoices_of, rows_of}

abbrev pub Holds : Invoice → List Invoice → Type 0
Holds inv [] = ⊥
Holds inv (v ∷ vs) = (v ≡ inv) ⊎ Holds inv vs

-- The invoices of a list are those of the books.
abbrev pub AreInvoices : List Invoice → Books → Type 0
AreInvoices invs b = (inv : Invoice) → (b.invoices (id inv) ≡ some inv) ↔ Holds inv invs

found_held :
    (i : InvoiceId) (inv : Invoice) (m : List (InvoiceId × Invoice))
    → find i m ≡ some inv
    → Holds inv (invoices_of m)
unfolding find
found_held i inv [] e = absurd (ground arith)
found_held i inv ((j, v) ∷ m) e = elim (Ordering-cases (invoice_id_ord.cmp i j)) [
  | inl lt ↦ inr (found_held i inv m (ground arith))
  | inr (inl eq) ↦ inl (some-injective v inv (ground arith))
  | inr (inr gt) ↦ inr (found_held i inv m (ground arith))
]

held_found :
    (inv : Invoice) (m : List (InvoiceId × Invoice))
    → IsSorted m
    → Holds inv (invoices_of m)
    → (i : InvoiceId) × (find i m ≡ some inv)
unfolding find
held_found inv [] s h = absurd h
held_found inv ((j, v) ∷ m) s (inl here) =
    (j, ground (arith, invoice_id_ord.cmp_eq_iff j j, ap some here))
held_found inv ((j, v) ∷ m) s (inr later) =
    let (i, e) = held_found inv m s.1 later in
    elim (Ordering-cases (invoice_id_ord.cmp i j)) [
      | inl lt ↦ (i, ground arith)
      | inr (inl eq) ↦ absurd (ground (arith, invoice_id_ord.cmp_eq_iff i j, find_below j m s.0))
      | inr (inr gt) ↦ (i, ground arith)
    ]

all_invoices : (s : Filed) → AreInvoices (invoices_of s.0.invoices) (seen s.0)
unfolding invoice_get
all_invoices s inv = (
  λ e. found_held (id inv) inv s.0.invoices e,
  λ h.
      let (i, e) = held_found inv s.0.invoices s.1.invoices_sorted h in
      let named : id inv ≡ i = s.1.under_id i inv e in
      subst (λ j. find j s.0.invoices ≡ some inv) (sym named) e,
)

pub try_for_each-AreInvoices :
    {Shared : Type 0} (f : Result Error Invoice → Shared → Result Error (Unit {0}) × Shared)
    (s : Filed) (shared : Shared)
    → (invs : List Invoice) × AreInvoices invs (seen s.0)
      × (try_for_each in_memory f s shared ≡ walk f (map ok invs) shared)
try_for_each-AreInvoices f s shared = (
  invoices_of s.0.invoices,
  all_invoices s,
  try_for_each-walk in_memory f s shared (map ok (invoices_of s.0.invoices))
      (ap ok (rows_of s.0.invoices)),
)
