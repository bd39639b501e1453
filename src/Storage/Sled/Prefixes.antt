-- ===== src/Storage/Sled/Prefixes.antt =====
-- library/src/storage/stores/sled.rs: the search for a subaddress index by its prefix.
use xmrgateway.Prelude.{
  ℕ, ◌≡◌, refl, sym, ap, ◌∙◌, subst, Bool, true, false, Bool-cases, inl, inr, ◌⊎◌, Option, none,
  some, List, [], ◌∷◌, ◌++◌, Result, Eq, Result-cases, ok, err, ok-injective, ◌==◌, beq_true,
  ne_of_beq, arith,
}
use mathlib.Core.Option.{some-injective}
use xmrgateway.Invoice.{SubIndex, InvoiceId, Invoice, id}
use xmrgateway.Storage.OutputKeys.{output_key_beq, output_key_beq_iff}
use xmrgateway.Storage.Sled.{Bincode, Tree, Sled, has_row, replaced, sled_contains_sub_index}
use xmrgateway.Storage.Sled.Views.{
  Operation, insert, update, remove, get, on_sled, held, held_at, held_unkeyed, opened, opened_at,
  Wrote, insert-Wrote, update-Wrote, remove-Wrote,
}

instance abbrev pub bytes_eq : Eq (List ℕ)
bytes_eq = record {
  beq = λ a b. output_key_beq (record { bytes = a }) (record { bytes = b });
  beq_iff = λ a b.
      let (to, from) = output_key_beq_iff (record { bytes = a }) (record { bytes = b }) in
      (λ h. ap (λ k. k.bytes) (to h), λ h. from (ap (λ k. record { bytes = k }) h));
}

module _ (bc : Bincode) {X : Type 0} (tree : Tree X bc.Bytes) where
  -- An entry is an encoded invoice under its own encoded identifier.
  abbrev pub IsEncoded : List ℕ → bc.Bytes → Type 0
  IsEncoded k v = (inv : Invoice) × (bc.encode_id (id inv) ≡ ok k) × (bc.encode_invoice inv ≡ ok v)

  abbrev pub IsWritten : Sled bc tree → Type 0
  IsWritten s = (k : List ℕ) (v : bc.Bytes) → tree.contents s.invoices k ≡ some v → IsEncoded k v

  Wrote-IsWritten :
      (s s' : Sled bc tree) (i : InvoiceId) (k : List ℕ) (new : Option bc.Bytes)
      → Wrote bc tree s s' i k new
      → ((v : bc.Bytes) → new ≡ some v → IsEncoded k v)
      → IsWritten s
      → IsWritten s'
  Wrote-IsWritten s s' i k new (t, e, w, run) fine h = subst IsWritten (sym run) (λ j v found.
      elim (Bool-cases (k == j)) [
        | inl same ↦
            let here : k ≡ j = beq_true k j same in
            subst (λ l. IsEncoded l v) here (fine v (sym w.0 ∙ ap (tree.contents t) here ∙ found))
        | inr other ↦ h j v (sym (w.1 j (ne_of_beq k j other)) ∙ found)
      ])

  -- A call that succeeds keeps every entry an encoded invoice under its own identifier.
  pub sled_call-IsWritten :
      (c : Operation) (s : Sled bc tree) (o : Option Invoice)
      → (on_sled bc tree c s).0 ≡ ok o
      → IsWritten s
      → IsWritten (on_sled bc tree c s).1
  sled_call-IsWritten (insert inv) s o h w =
      let (k, value, e', _, _, wrote) = insert-Wrote bc tree inv s o h in
      Wrote-IsWritten s _ (id inv) k (some value) wrote
        (λ v q. (inv, wrote.1, e' ∙ ap ok (some-injective value v q))) w
  sled_call-IsWritten (update inv) s o h w =
      let (k, value, old, e', _, _, _, wrote) = update-Wrote bc tree inv s o h in
      Wrote-IsWritten s _ (id inv) k (replaced bc tree value old) wrote
        (λ v q. (inv, wrote.1, e' ∙ ap ok (put_back value v old q))) w
    where
      put_back :
          (value v : bc.Bytes) (old : Option bc.Bytes)
          → replaced bc tree value old ≡ some v
          → value ≡ v
      put_back value v none q = ground arith
      put_back value v (some old) q = some-injective value v q
  sled_call-IsWritten (remove i) s o h w =
      let (k, v, _, _, wrote) = remove-Wrote bc tree i s o h in
      Wrote-IsWritten s _ i k none wrote (λ v q. absurd (ground arith)) w
  sled_call-IsWritten (get i) s o h w = w

  -- Whether an invoice has a subaddress index, or the first row that was found could not be read.
  abbrev pub Answers : Sled bc tree → SubIndex → List ℕ → Bool → Type 0
  Answers s k p false = (i : InvoiceId) → i.sub_index ≡ k → held bc tree s i ≡ none
  Answers s k p true =
      ((inv : Invoice) × ((id inv).sub_index ≡ k) × (held bc tree s (id inv) ≡ some inv))
      ⊎ ((x : X) × (rows : List (Result X (List ℕ × bc.Bytes))) × (tree.scan_prefix p s.invoices
            ≡ err x ∷ rows))

  not_held :
      (s : Sled bc tree) (k : SubIndex) (p : List ℕ)
      → bc.encode_sub_index k ≡ ok p
      → ((rest : List ℕ) → tree.contents s.invoices (p ++ rest) ≡ none)
      → (i : InvoiceId) → i.sub_index ≡ k
      → held bc tree s i ≡ none
  not_held s k p e empty i same = elim (Result-cases (bc.encode_id i)) [
    | inl (x, e') ↦ held_unkeyed bc tree s i x e'
    | inr (l, e') ↦
        let (q, rest, begins, whole) = bc.encode_id-sub_index i l e' in
        let begin : q ≡ p = ok-injective q p (sym begins ∙ ap bc.encode_sub_index same ∙ e) in
        held_at bc tree s i l e'
        ∙ ap (opened bc tree)
            (ap (tree.contents s.invoices) (whole ∙ ap (λ b. b ++ rest) begin) ∙ empty rest)
  ]

  found_under :
      (s : Sled bc tree) (k : SubIndex) (p l rest : List ℕ) (v : bc.Bytes)
      → bc.encode_sub_index k ≡ ok p
      → IsWritten s
      → tree.contents s.invoices l ≡ some v
      → l ≡ p ++ rest
      → (inv : Invoice) × ((id inv).sub_index ≡ k) × (held bc tree s (id inv) ≡ some inv)
  found_under s k p l rest v e w found whole =
      let (inv, e', written) = w l v found in
      let (q, rest', begins, whole') = bc.encode_id-sub_index (id inv) l e' in
      (
        inv,
        bc.encode_sub_index-prefix (id inv).sub_index k q p rest' rest begins e
            (sym whole' ∙ whole),
        held_at bc tree s (id inv) l e'
            ∙ ap (opened bc tree) found
            ∙ opened_at bc tree v inv (bc.decode-encode_invoice inv v written),
      )

  -- Of the rows that start with the encoded index, only whether there is one matters.
  answers :
      (s : Sled bc tree) (k : SubIndex) (p : List ℕ) (rows : List (Result X (List ℕ × bc.Bytes)))
      → bc.encode_sub_index k ≡ ok p
      → IsWritten s
      → tree.scan_prefix p s.invoices ≡ rows
      → Answers s k p (has_row bc tree rows)
  answers s k p [] e w scanned = not_held s k p e (tree.scan_prefix-nil p s.invoices scanned)
  answers s k p (err x ∷ rows) e w scanned = inr (x, rows, scanned)
  answers s k p (ok (l, v) ∷ rows) e w scanned =
      let (found, (rest, whole)) = tree.scan_prefix-cons p l v s.invoices rows scanned in
      inl (found_under s k p l rest v e w found whole)

  -- In a sled store whose entries are encoded invoices under their own encoded identifiers, the
  -- search for a subaddress index that can be encoded succeeds. If it answers no, no invoice has
  -- that very index; if yes, one has it, or the first row that was found could not be read.
  pub sled_contains_sub_index_lem :
      (s : Sled bc tree) (k : SubIndex) (p : List ℕ)
      → bc.encode_sub_index k ≡ ok p
      → IsWritten s
      → (b : Bool) × (sled_contains_sub_index bc tree k s ≡ ok b) × Answers s k p b
  unfolding sled_contains_sub_index
  sled_contains_sub_index_lem s k p e w = (
    has_row bc tree (tree.scan_prefix p s.invoices),
    rw (e, sled_contains_sub_index) refl,
    answers s k p (tree.scan_prefix p s.invoices) e w refl,
  )
