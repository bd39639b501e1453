-- ===== src/Storage/Sled/Views.antt =====
-- library/src/storage/stores/sled.rs: the store of invoices as a map from identifiers to invoices.
use xmrgateway.Prelude.{
  ℕ, ◌>>=◌, ◌≡◌, ◌≢◌, refl, sym, ap, ◌∙◌, subst, Bool-cases, inl, inr, Option, none, some, List,
  Result, Result-cases, ok, err, ok-injective, err-ne-ok, if◌then◌else◌, ◌==◌, beq_true, ne_of_beq,
  arith,
}
use xmrgateway.Invoice.{InvoiceId, Invoice, id}
use xmrgateway.Invoice.Order.{invoice_id_eq}
use xmrgateway.Storage.Sled.{
  Bincode, Tree, Writes, Sled, Error, decoded, deserialized, encoded, swapped, replaced,
  sled_insert, sled_remove, sled_update, sled_get,
}

-- An operation on the invoices, and what the map makes of it: the answer, nothing if it is refused, and the map
-- after it.
pub data Operation : Type 0 where
  insert : Invoice → Operation
  update : Invoice → Operation
  remove : InvoiceId → Operation
  get : InvoiceId → Operation

abbrev pub View : Type 0
View = InvoiceId → Option Invoice

abbrev pub put : InvoiceId → Option Invoice → View → View
put i o m j = if i == j then o else m j

abbrev pub instead : Invoice → Option Invoice → Option Invoice
instead inv none = none
instead inv (some old) = some inv

abbrev pub on_map : Operation → View → Option (Option Invoice) × View
on_map (insert inv) m = elim (m (id inv)) [
  | none ↦ (some none, put (id inv) (some inv) m)
  | some old ↦ (none, m)
]
on_map (update inv) m = (some (m (id inv)), put (id inv) (instead inv (m (id inv))) m)
on_map (remove i) m = (some (m i), put i none m)
on_map (get i) m = (some (m i), m)

module _ (bc : Bincode) {X : Type 0} (tree : Tree X bc.Bytes) where
  abbrev nothing_inserted :
      Result (Error bc tree) (Unit {0}) → Result (Error bc tree) (Option Invoice)
  nothing_inserted (err e) = err e
  nothing_inserted (ok u) = ok none

  abbrev pub on_sled :
      Operation → Sled bc tree → Result (Error bc tree) (Option Invoice) × Sled bc tree
  on_sled (insert inv) s =
      let (result, s') = sled_insert bc tree inv s in (nothing_inserted result, s')
  on_sled (update inv) s = sled_update bc tree inv s
  on_sled (remove i) s = sled_remove bc tree i s
  on_sled (get i) s = (sled_get bc tree i s, s)

  abbrev pub opened : Option bc.Bytes → Option Invoice
  opened none = none
  opened (some v) = elim (bc.decode_invoice v) [ err e ↦ none | ok inv ↦ some inv ]

  -- The invoice that stands under an identifier.
  unfoldable pub held : Sled bc tree → View
  held s i = elim (bc.encode_id i) [ err e ↦ none | ok k ↦ opened (tree.contents s.invoices k) ]

  pub held_at :
      (s : Sled bc tree) (i : InvoiceId) (k : List ℕ)
      → bc.encode_id i ≡ ok k
      → held s i ≡ opened (tree.contents s.invoices k)
  unfolding held
  held_at s i k e = rw (e, held) refl

  pub held_unkeyed :
      (s : Sled bc tree) (i : InvoiceId) (e : bc.EncodeError)
      → bc.encode_id i ≡ err e
      → held s i ≡ none
  unfolding held
  held_unkeyed s i e h = rw (h, held) refl

  -- A change under the key of an identifier is a change of its invoice alone.
  held_after :
      (s : Sled bc tree) (t : tree.State) (i : InvoiceId) (k : List ℕ) (new : Option bc.Bytes)
      → bc.encode_id i ≡ ok k
      → Writes (tree.contents s.invoices) (tree.contents t) k new
      → (j : InvoiceId) → held (record s { invoices = t }) j ≡ put i (opened new) (held s) j
  held_after s t i k new e w j = elim (Bool-cases (i == j)) [
    | inl same ↦
        let e' : bc.encode_id j ≡ ok k = ap bc.encode_id (sym (beq_true i j same)) ∙ e in
        held_at (record s { invoices = t }) j k e' ∙ ap opened w.0 ∙ rw same refl
    | inr other ↦ elim (Result-cases (bc.encode_id j)) [
      | inl (x, e') ↦
          held_unkeyed (record s { invoices = t }) j x e'
          ∙ sym (held_unkeyed s j x e')
          ∙ rw other refl
      | inr (l, e') ↦
          held_at (record s { invoices = t }) j l e'
          ∙ ap opened (w.1 l (λ q. ne_of_beq i j other (same_id k l e e' q)))
          ∙ sym (held_at s j l e')
          ∙ rw other refl
    ]
  ]
    where
      same_id : (k l : List ℕ) → bc.encode_id i ≡ ok k → bc.encode_id j ≡ ok l → k ≡ l → i ≡ j
      same_id k l e e' q =
          ok-injective i j
            (sym (bc.decode-encode_id i k e) ∙ ap bc.decode_id q ∙ bc.decode-encode_id j l e')

  pub opened_at :
      (v : bc.Bytes) (inv : Invoice) → bc.decode_invoice v ≡ ok inv → opened (some v) ≡ some inv
  opened_at v inv e = rw (e, opened) refl

  read-ok :
      (r : Result bc.DecodeError Invoice) (o : Option Invoice)
      → (deserialized bc tree r >>= λ inv. ok (some inv)) ≡ ok o
      → (inv : Invoice) × (r ≡ ok inv) × (o ≡ some inv)
  read-ok (err e) o h = absurd (err-ne-ok _ o h)
  read-ok (ok inv) o h = (inv, refl, sym (ok-injective _ _ h))

  -- What a tree's answer is decoded to, if that succeeds, and what takes its place in an update.
  decoded-ok :
      (r : Result X (Option bc.Bytes)) (o : Option Invoice)
      → decoded bc tree bc.decode_invoice r ≡ ok o
      → (v : Option bc.Bytes) × (r ≡ ok v)
        × (o ≡ opened v)
        × ((inv : Invoice) (new : bc.Bytes)
            → bc.encode_invoice inv ≡ ok new
            → opened (replaced bc tree new v) ≡ instead inv o)
  decoded-ok (err x) o h = absurd (err-ne-ok _ o h)
  decoded-ok (ok none) o h =
      let same = sym (ok-injective _ _ h) in
      (none, refl, same, λ inv new e. sym (ap (instead inv) same))
  decoded-ok (ok (some v)) o h =
      let (old, d, same) = read-ok (bc.decode_invoice v) o h in
      (
        some v,
        refl,
        same ∙ sym (opened_at v old d),
        λ inv new e.
            opened_at new inv (bc.decode-encode_invoice inv new e) ∙ sym (ap (instead inv) same),
      )

  encoded-ok :
      {V A : Type 0} (r : Result bc.EncodeError V) (f : V → Result (Error bc tree) A × Sled bc tree)
      (s : Sled bc tree) (a : A)
      → (encoded bc tree r f s).0 ≡ ok a
      → (v : V) × (r ≡ ok v) × (encoded bc tree r f s ≡ f v)
  encoded-ok (err e) f s a h = absurd (err-ne-ok _ a h)
  encoded-ok (ok v) f s a h = (v, refl, refl)

  swapped-ok :
      (r : Result X (Result (Option bc.Bytes) (Unit {0})))
      → swapped bc tree r ≡ ok tt
      → r ≡ ok (ok tt)
  swapped-ok (err x) h = absurd (err-ne-ok _ tt h)
  swapped-ok (ok (err c)) h = absurd (err-ne-ok _ tt h)
  swapped-ok (ok (ok u)) h = refl

  -- What a call does, if it succeeds: its answer and what is held afterwards are those of the map.
  abbrev pub Follows : Operation → Sled bc tree → Option Invoice → Type 0
  Follows c s o =
      ((on_map c (held s)).0 ≡ some o)
      × ((j : InvoiceId) → held (on_sled c s).1 j ≡ (on_map c (held s)).1 j)

  inserted-ok :
      (r : Result (Error bc tree) (Unit {0})) (o : Option Invoice)
      → nothing_inserted r ≡ ok o
      → (r ≡ ok tt) × (o ≡ none)
  inserted-ok (err e) o h = absurd (err-ne-ok _ o h)
  inserted-ok (ok u) o h = (refl, sym (ok-injective _ _ h))

  -- The store changed under the key of one identifier.
  abbrev pub Wrote : Sled bc tree → Sled bc tree → InvoiceId → List ℕ → Option bc.Bytes → Type 0
  Wrote s s' i k new =
      (t : tree.State) × (bc.encode_id i ≡ ok k)
      × Writes (tree.contents s.invoices) (tree.contents t) k new
      × (s' ≡ record s { invoices = t })

  held-Wrote :
      (s s' : Sled bc tree) (i : InvoiceId) (k : List ℕ) (new : Option bc.Bytes)
      → Wrote s s' i k new
      → (j : InvoiceId) → held s' j ≡ put i (opened new) (held s) j
  held-Wrote s s' i k new (t, e, w, run) j = ap (λ x. held x j) run ∙ held_after s t i k new e w j

  pub insert-Wrote :
      (inv : Invoice) (s : Sled bc tree) (o : Option Invoice)
      → (on_sled (insert inv) s).0 ≡ ok o
      → (k : List ℕ) × (value : bc.Bytes) × (bc.encode_invoice inv ≡ ok value)
        × (tree.contents s.invoices k ≡ none)
        × (o ≡ none)
        × Wrote s (sled_insert bc tree inv s).1 (id inv) k (some value)
  unfolding sled_insert
  insert-Wrote inv s o h =
      let (done, empty) = inserted-ok (sled_insert bc tree inv s).0 o h in
      let (k, e, run) = encoded-ok (bc.encode_id (id inv)) _ s tt done in
      let (value, e', run') =
        encoded-ok (bc.encode_invoice inv) _ s tt (sym (ap (λ x. x.0) run) ∙ done) in
      let result = tree.compare_and_swap k none (some value) s.invoices in
      let was_swapped : swapped bc tree result.0 ≡ ok tt =
        sym (ap (λ x. x.0) (run ∙ run')) ∙ done in
      let (absent, w) =
        tree.compare_and_swap_lem k none (some value) s.invoices (swapped-ok _ was_swapped) in
      (k, value, e', absent, empty, (result.1, e, w, ap (λ x. x.1) (run ∙ run')))

  pub update-Wrote :
      (inv : Invoice) (s : Sled bc tree) (o : Option Invoice)
      → (on_sled (update inv) s).0 ≡ ok o
      → (k : List ℕ) × (value : bc.Bytes) × (v : Option bc.Bytes) × (bc.encode_invoice inv
          ≡ ok value)
        × (v ≡ tree.contents s.invoices k)
        × (o ≡ opened v)
        × (opened (replaced bc tree value v) ≡ instead inv o)
        × Wrote s (sled_update bc tree inv s).1 (id inv) k (replaced bc tree value v)
  unfolding sled_update
  update-Wrote inv s o h =
      let (k, e, run) = encoded-ok (bc.encode_id (id inv)) _ s o h in
      let (value, e', run') =
        encoded-ok (bc.encode_invoice inv) _ s o (sym (ap (λ x. x.0) run) ∙ h) in
      let f = replaced bc tree value in
      let result = tree.fetch_and_update k f s.invoices in
      let (v, r, same, new) = decoded-ok result.0 o (sym (ap (λ x. x.0) (run ∙ run')) ∙ h) in
      let (was, w) = tree.fetch_and_update_lem k f s.invoices v r in
      (
        k,
        value,
        v,
        e',
        was,
        same,
        new inv value e',
        (
          result.1,
          e,
          subst (λ u. Writes (tree.contents s.invoices) (tree.contents result.1) k (f u)) (sym was)
              w,
          ap (λ x. x.1) (run ∙ run'),
        ),
      )

  pub remove-Wrote :
      (i : InvoiceId) (s : Sled bc tree) (o : Option Invoice)
      → (on_sled (remove i) s).0 ≡ ok o
      → (k : List ℕ) × (v : Option bc.Bytes) × (v ≡ tree.contents s.invoices k)
        × (o ≡ opened v)
        × Wrote s (sled_remove bc tree i s).1 i k none
  unfolding sled_remove
  remove-Wrote i s o h =
      let (k, e, run) = encoded-ok (bc.encode_id i) _ s o h in
      let result = tree.remove k s.invoices in
      let (v, r, same, _) = decoded-ok result.0 o (sym (ap (λ x. x.0) run) ∙ h) in
      let (was, w) = tree.remove_lem k s.invoices v r in
      (k, v, was, same, (result.1, e, w, ap (λ x. x.1) run))

  get_at :
      (i : InvoiceId) (s : Sled bc tree) (k : List ℕ)
      → bc.encode_id i ≡ ok k
      → sled_get bc tree i s ≡ decoded bc tree bc.decode_invoice (tree.get k s.invoices)
  unfolding sled_get
  get_at i s k e = rw (e, sled_get) refl

  get_unkeyed :
      (i : InvoiceId) (s : Sled bc tree) (x : bc.EncodeError) (o : Option Invoice)
      → bc.encode_id i ≡ err x
      → sled_get bc tree i s ≢ ok o
  unfolding sled_get
  get_unkeyed i s x o e h = ground arith

  get_lem :
      (i : InvoiceId) (s : Sled bc tree) (o : Option Invoice)
      → (on_sled (get i) s).0 ≡ ok o
      → held s i ≡ o
  get_lem i s o h = elim (Result-cases (bc.encode_id i)) [
    | inl (x, e) ↦ absurd (get_unkeyed i s x o e h)
    | inr (k, e) ↦
        let (v, r, same, _) = decoded-ok (tree.get k s.invoices) o (sym (get_at i s k e) ∙ h) in
        held_at s i k e ∙ ap opened (sym (tree.get_lem k s.invoices v r)) ∙ sym same
  ]

  -- If an operation on the invoices of the sled store succeeds, its answer and the invoices that
  -- the store holds afterwards are those of a map from identifiers to invoices.
  pub sled_call_lem :
      (c : Operation) (s : Sled bc tree) (o : Option Invoice)
      → (on_sled c s).0 ≡ ok o
      → Follows c s o
  sled_call_lem (insert inv) s o h =
      let (k, value, e', absent, empty, wrote) = insert-Wrote inv s o h in
      let free : held s (id inv) ≡ none = held_at s (id inv) k wrote.1 ∙ ap opened absent in
      let next : (j : InvoiceId)
          → held (sled_insert bc tree inv s).1 j ≡ put (id inv) (some inv) (held s) j =
        λ j.
          held-Wrote s _ (id inv) k (some value) wrote j
          ∙ ap (λ n. put (id inv) n (held s) j)
              (opened_at value inv (bc.decode-encode_invoice inv value e')) in
      rw (free, on_map) (sym (ap some empty), next)
  sled_call_lem (update inv) s o h =
      let (k, value, v, e', was, same, new, wrote) = update-Wrote inv s o h in
      let answer : held s (id inv) ≡ o =
        held_at s (id inv) k wrote.1 ∙ ap opened (sym was) ∙ sym same in
      (
        ap some answer,
        λ j.
            held-Wrote s _ (id inv) k (replaced bc tree value v) wrote j
            ∙ ap (λ n. put (id inv) n (held s) j) (new ∙ ap (instead inv) (sym answer)),
      )
  sled_call_lem (remove i) s o h =
      let (k, v, was, same, wrote) = remove-Wrote i s o h in
      (
        ap some (held_at s i k wrote.1 ∙ ap opened (sym was) ∙ sym same),
        held-Wrote s _ i k none wrote,
      )
  sled_call_lem (get i) s o h = (ap some (get_lem i s o h), λ j. refl)
