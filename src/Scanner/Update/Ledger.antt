-- ===== src/Scanner/Update/Ledger.antt =====
-- The transfers of an invoice after an update, against the ledger of all transfers in the chain.
use mathlib.Core.List.{append_assoc, append-nil}
use xmrgateway.Prelude.{
  retain-split, subst, ℕ, ◌≡◌, refl, sym, ap, ◌∙◌, Bool, true, false, Option, none, some, List, [],
  ◌∷◌, ◌++◌, retain, retain-All, All, if◌then◌else◌, arith, Bool-cases, inl, inr,
}
use xmrgateway.Invoice.{SubIndex, Transfer, Invoice}
use xmrgateway.Invoice.Equality.{
  invoice_eq, invoice_eq_refl, invoice_eq_iff, SameTransfers, count, transfer_eq,
}
use xmrgateway.Scanner.Update.{
  Found, is_settled_below, is_credited, push_found, rescan, settle, update_one,
}

-- The transfers of a ledger that an invoice with this subaddress and creation height is credited.
abbrev pub credited : SubIndex → ℕ → List Found → List Transfer
credited index creation_height [] = []
credited index creation_height (f ∷ rest) =
    if is_credited index creation_height f
    then f.1 ∷ credited index creation_height rest
    else credited index creation_height rest

module _ (index : SubIndex) (creation : ℕ) where
  push_found-credited :
      (transfers : List Transfer) (found : List Found)
      → push_found index creation transfers found ≡ transfers ++ credited index creation found
  unfolding push_found
  push_found-credited transfers [] = simp append-nil
  push_found-credited transfers ((i, t) ∷ rest) =
      elim (Bool-cases (is_credited index creation (i, t))) [
        | inl c ↦
            rw (c, push_found-credited (transfers ++ t ∷ []) rest)
              (append_assoc transfers (t ∷ []) _)
        | inr c ↦ rw c (push_found-credited transfers rest)
      ]

  credited-append :
      (xs ys : List Found)
      → credited index creation (xs ++ ys)
        ≡ credited index creation xs ++ credited index creation ys
  credited-append [] ys = refl
  credited-append (x ∷ xs) ys = ground (arith, credited-append xs ys)

  -- What a test says of every transfer found it says of those credited.
  credited-All :
      (p : Transfer → Bool) (b : Bool) (xs : List Found)
      → All (λ f. p f.1 ≡ b) xs
      → All (λ t. p t ≡ b) (credited index creation xs)
  credited-All p b [] h = tt
  credited-All p b (x ∷ xs) h = ground (arith, credited-All p b xs h.1)

-- Every transfer found stands at or above the deepest block that was updated, or in the pool.
abbrev pub IsFresh : ℕ → List Found → Type 0
IsFresh deepest = All (λ f. is_settled_below deepest f.1 ≡ false)

-- Every transfer of a ledger stands below that block.
abbrev pub IsBelow : ℕ → List Found → Type 0
IsBelow deepest = All (λ f. is_settled_below deepest f.1 ≡ true)

-- The invoice as the store holds it after an update: the new one, or the old one untouched.
abbrev pub stored_after : Invoice → Option Invoice → Invoice
stored_after old none = old
stored_after old (some new) = new

module _ (found : List Found) (height deepest : ℕ) where
  rescan-transfers :
      (inv : Invoice)
      → (rescan found height deepest inv).transfers
        ≡ retain (is_settled_below deepest) inv.transfers
          ++ credited inv.index inv.creation_height found
  unfolding rescan
  rescan-transfers inv = push_found-credited inv.index inv.creation_height _ found

  -- A rescan of an invoice that the ledger explains gives the transfers of the new ledger.
  rescan-ledger :
      (inv : Invoice) (older dropped : List Found)
      → IsBelow deepest older
      → IsFresh deepest dropped
      → inv.transfers ≡ credited inv.index inv.creation_height (older ++ dropped)
      → (rescan found height deepest inv).transfers
        ≡ credited inv.index inv.creation_height (older ++ found)
  rescan-ledger inv older dropped below fresh e =
      let C : List Found → List Transfer = credited inv.index inv.creation_height in
      let old : retain (is_settled_below deepest) (C older ++ C dropped) ≡ C older =
        retain-split (is_settled_below deepest) (C older) (C dropped)
          (credited-All inv.index inv.creation_height (is_settled_below deepest) true older below)
          (credited-All inv.index inv.creation_height (is_settled_below deepest) false dropped
            fresh) in
      rescan-transfers inv
      ∙ ap (λ ts. retain (is_settled_below deepest) ts ++ C found)
          (e ∙ credited-append inv.index inv.creation_height older dropped)
      ∙ ap (λ ts. ts ++ C found) old
      ∙ sym (credited-append inv.index inv.creation_height older found)

  -- If an invoice holds the transfers that it is credited of a ledger whose older part stands below
  -- the deepest updated block and whose dropped part does not, then after an update, saved or not,
  -- it holds, in some order, those that it is credited of the older part and what the scan found.
  pub update_one-ledger :
      (old : Invoice) (older dropped : List Found)
      → IsBelow deepest older
      → IsFresh deepest dropped
      → old.transfers ≡ credited old.index old.creation_height (older ++ dropped)
      → SameTransfers
          (stored_after old (update_one found height deepest old)).transfers
          (credited old.index old.creation_height (older ++ found))
  unfolding update_one settle
  update_one-ledger old older dropped below fresh e t =
      let new : Invoice = rescan found height deepest old in
      let ledger : new.transfers ≡ credited old.index old.creation_height (older ++ found) =
        rescan-ledger old older dropped below fresh e in
      elim (Bool-cases (invoice_eq new old)) [
        | inl same ↦
            rw same (sym (((invoice_eq_iff new old).0 same).transfers t) ∙ ap (count t) ledger)
        | inr changed ↦ rw changed (ap (count t) ledger)
      ]

  rescan_fixed :
      (inv : Invoice)
      → (rescan found height deepest inv).transfers ≡ inv.transfers
      → (rescan found height deepest inv).current_height ≡ inv.current_height
      → rescan found height deepest inv ≡ inv
  unfolding rescan
  rescan_fixed inv p q = λ i. record inv { transfers = p i; current_height = q i }

  rescan_twice :
      (inv : Invoice)
      → IsFresh deepest found
      → rescan found height deepest (settle (rescan found height deepest inv))
        ≡ settle (rescan found height deepest inv)
  unfolding rescan settle
  rescan_twice inv fresh =
      let first : Invoice = rescan found height deepest inv in
      let C : List Transfer = credited inv.index inv.creation_height found in
      let kept : retain (is_settled_below deepest)
            (retain (is_settled_below deepest) inv.transfers ++ C)
          ≡ retain (is_settled_below deepest) inv.transfers =
        retain-split (is_settled_below deepest) _ C
          (retain-All (is_settled_below deepest) inv.transfers)
          (credited-All inv.index inv.creation_height (is_settled_below deepest) false found
            fresh) in
      rescan_fixed (settle first)
        (rescan-transfers (settle first)
          ∙ ap (λ ts. retain (is_settled_below deepest) ts ++ C) (rescan-transfers inv)
          ∙ ap (λ ts. ts ++ C) kept
          ∙ sym (rescan-transfers inv))
        (ground arith)

  update_one-eq-some :
      (old : Invoice) {new : Invoice}
      → update_one found height deepest old ≡ some new
      → settle (rescan found height deepest old) ≡ new
  unfolding update_one
  update_one-eq-some old {new} e = ground arith

  -- If everything found stands at or above the deepest updated block, then a second update by the
  -- same scan of an invoice that an update has changed changes nothing.
  pub update_one_twice :
      (old : Invoice) {new : Invoice}
      → IsFresh deepest found
      → update_one found height deepest old ≡ some new
      → update_one found height deepest new ≡ none
  update_one_twice old {new} fresh e =
      subst (λ inv. update_one found height deepest inv ≡ none) (update_one-eq-some old e)
        (settled old fresh)
    where
      settled :
          (inv : Invoice)
          → IsFresh deepest found
          → update_one found height deepest (settle (rescan found height deepest inv)) ≡ none
      settled inv fr =
          unfold update_one in
          rw (rescan_twice inv fr, invoice_eq_refl (settle (rescan found height deepest inv)))
