-- ===== src/Storage/InMemory/Least.antt =====
-- `lowest_height` of library/src/storage/invoice_storage.rs on the store of
-- library/src/storage/stores/in_memory.rs, by what the store answers.
use xmrgateway.Prelude.{
  ℕ, ◌≤◌, ◌≡◌, refl, ap, subst, inl, inr, Option, none, some, List, [], ◌∷◌, map, Result, ok, All,
  Ordering-cases, arith,
}
use mathlib.Core.Option.{some-injective}
use xmrgateway.Invoice.{InvoiceId, Invoice}
use xmrgateway.Invoice.Order.{invoice_id_ord}
use xmrgateway.Std.BTreeMap.{find, find_below, IsSorted}
use xmrgateway.Storage.Traits.{lowest_height}
use xmrgateway.Storage.Lowest.{Attains, IsLowest, lowest_height_lem}
use xmrgateway.Storage.InMemory.{invoice_get}
use xmrgateway.Storage.InMemory.Instance.{in_memory, Filed, Error}
use xmrgateway.Storage.InMemory.Books.{Books, seen}

-- The least height of the invoices of the books, none if there are no invoices.
abbrev pub IsLeast : Option ℕ → Books → Type 0
IsLeast none b = (i : InvoiceId) → b.invoices i ≡ none
IsLeast (some l) b =
    ((i : InvoiceId) (inv : Invoice) → b.invoices i ≡ some inv → l ≤ inv.current_height)
    × ((i : InvoiceId) × (inv : Invoice) × (b.invoices i ≡ some inv) × (inv.current_height ≡ l))

abbrev pub invoices_of : List (InvoiceId × Invoice) → List Invoice
invoices_of m = map (λ e. e.1) m

pub rows_of :
    (m : List (InvoiceId × Invoice))
    → map {B = Result Error Invoice} (λ e. ok e.1) m ≡ map ok (invoices_of m)
rows_of [] = refl
rows_of (e ∷ m) = ap (λ l. ok e.1 ∷ l) (rows_of m)

found_above :
    (l : ℕ) (i : InvoiceId) (inv : Invoice) (m : List (InvoiceId × Invoice))
    → All (λ v. l ≤ v.current_height) (invoices_of m)
    → find i m ≡ some inv
    → l ≤ inv.current_height
unfolding find
found_above l i inv [] h e = absurd (ground arith)
found_above l i inv ((j, v) ∷ m) h e = elim (Ordering-cases (invoice_id_ord.cmp i j)) [
  | inl lt ↦ found_above l i inv m h.1 (ground arith)
  | inr (inl eq) ↦
      let same : v ≡ inv = some-injective v inv (ground arith) in
      subst (λ w. l ≤ w.current_height) same h.0
  | inr (inr gt) ↦ found_above l i inv m h.1 (ground arith)
]

-- In a map in order, every value is found under its key.
attained_found :
    (l : ℕ) (m : List (InvoiceId × Invoice))
    → IsSorted m
    → Attains l (invoices_of m)
    → (i : InvoiceId) × (inv : Invoice) × (find i m ≡ some inv) × (inv.current_height ≡ l)
unfolding find
attained_found l [] s h = absurd h
attained_found l ((j, v) ∷ m) s (inl here) =
    (j, v, ground (arith, invoice_id_ord.cmp_eq_iff j j), here)
attained_found l ((j, v) ∷ m) s (inr later) =
    let (i, inv, e, at) = attained_found l m s.1 later in
    elim (Ordering-cases (invoice_id_ord.cmp i j)) [
      | inl lt ↦ (i, inv, ground arith, at)
      | inr (inl eq) ↦ absurd (ground (arith, invoice_id_ord.cmp_eq_iff i j, find_below j m s.0))
      | inr (inr gt) ↦ (i, inv, ground arith, at)
    ]

none_listed :
    (i : InvoiceId) (m : List (InvoiceId × Invoice)) → invoices_of m ≡ [] → find i m ≡ none
unfolding find
none_listed i [] e = refl
none_listed i (x ∷ m) e = absurd (ground arith)

least : (s : Filed) (o : Option ℕ) → IsLowest o (invoices_of s.0.invoices) → IsLeast o (seen s.0)
unfolding invoice_get
least s none h = λ i. none_listed i s.0.invoices h
least s (some l) h = (
  λ i inv e. found_above l i inv s.0.invoices h.0 e,
  attained_found l s.0.invoices s.1.invoices_sorted h.1,
)

pub lowest_height-IsLeast :
    (s : Filed) → (o : Option ℕ) × (lowest_height in_memory s ≡ ok o) × IsLeast o (seen s.0)
lowest_height-IsLeast s =
    let (o, e, low) =
      lowest_height_lem in_memory s (invoices_of s.0.invoices) (ap ok (rows_of s.0.invoices)) in
    (o, e, least s o low)
