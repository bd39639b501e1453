-- ===== src/Tests/Sleds.antt =====
-- library/src/storage/stores/sled.rs: trees that are lists of entries, an encoder of numbers, and calls.
use xmrgateway.Prelude.{
  ℕ, ◌≡◌, ◌≢◌, refl, sym, ap, ◌∙◌, Bool, true, false, inl, inr, String, Option, Option-cases, none,
  some, List, [], ◌∷◌, ◌++◌, map, Result, ok, err, beq_refl, beq_false, ok-injective, err-ne-ok,
  arith,
}
use mathlib.Core.List.{cons-ne-nil}
use xmrgateway.Std.HashMap as HashMap
use xmrgateway.Std.Text.{Text, strip_prefix}
use xmrgateway.Invoice.{SubIndex, InvoiceId, Invoice, id}
use xmrgateway.Storage.OutputKeys.{OutputId}
use xmrgateway.Storage.Sled.{
  Bincode, Tree, Writes, Sled, sled_insert, sled_update, sled_contains_sub_index, sled_get_ids,
}
use xmrgateway.Storage.Sled.Views.{insert, update, on_sled, Follows, sled_call_lem}
use xmrgateway.Tests.Stores.{one, two, ordered, paid}
use xmrgateway.Storage.Sled.Prefixes.{
  bytes_eq, Answers, IsWritten, sled_call-IsWritten, sled_contains_sub_index_lem,
}

abbrev Entries : Type 0 → Type 0
Entries V = List (Text × V)

abbrev write : {V : Type 0} → Text → Option V → Entries V → Entries V
write k none t = HashMap.remove k t
write k (some v) t = HashMap.insert k v t

write_lem :
    {V : Type 0} (k : Text) (new : Option V) (t : Entries V)
    → Writes (λ j. HashMap.lookup j t) (λ j. HashMap.lookup j (write k new t)) k new
write_lem k none t = (
  HashMap.lookup-remove k k t ∙ rw (beq_refl k) refl,
  λ j h. HashMap.lookup-remove k j t ∙ rw (beq_false k j h) refl,
)
write_lem k (some v) t = (
  HashMap.lookup-insert k k v t ∙ rw (beq_refl k) refl,
  λ j h. HashMap.lookup-insert k j v t ∙ rw (beq_false k j h) refl,
)

-- A swap, for what stands under the key.
abbrev swap_at :
    {V : Type 0}
    → Option V
    → Text
    → Option V
    → Option V
    → Entries V
    → Result String (Result (Option V) (Unit {0})) × Entries V
swap_at none k none new t = (ok (ok tt), write k new t)
swap_at (some current) k none new t = (ok (err (some current)), t)
swap_at at k (some old) new t = (err "only absent keys", t)

swap_at_lem :
    {V : Type 0} (at : Option V) (k : Text) (old new : Option V) (t : Entries V)
    → HashMap.lookup k t ≡ at
    → (swap_at at k old new t).0 ≡ ok (ok tt)
    → (HashMap.lookup k t ≡ old)
      × Writes (λ j. HashMap.lookup j t) (λ j. HashMap.lookup j (swap_at at k old new t).1) k new
swap_at_lem none k none new t e h = (e, write_lem k new t)
swap_at_lem (some current) k none new t e h =
    absurd (err-ne-ok (some current) tt (ok-injective _ _ h))
swap_at_lem none k (some old) new t e h = absurd (err-ne-ok _ _ h)
swap_at_lem (some current) k (some old) new t e h = absurd (err-ne-ok _ _ h)

strip_prefix-append : (p rest : Text) → strip_prefix p (p ++ rest) ≡ some rest
unfolding strip_prefix
strip_prefix-append [] rest = refl
strip_prefix-append (c ∷ p) rest = ground (arith, strip_prefix-append p rest)

strip_prefix-some : (p t rest : Text) → strip_prefix p t ≡ some rest → t ≡ p ++ rest
unfolding strip_prefix
strip_prefix-some [] t rest h = ground arith
strip_prefix-some (c ∷ p) [] rest h = ground arith
strip_prefix-some (c ∷ p) (d ∷ t) rest h = ground (arith, strip_prefix-some p t rest)

unfoldable scan : {V : Type 0} → Text → Entries V → List (Result String (Text × V))
scan p [] = []
scan p ((j, w) ∷ t) =
    let rest = scan p t in elim (strip_prefix p j) [ none ↦ rest | some r ↦ ok (j, w) ∷ rest ]

scan_skip :
    {V : Type 0} (p j : Text) (w : V) (t : Entries V)
    → strip_prefix p j ≡ none
    → scan p ((j, w) ∷ t) ≡ scan p t
unfolding scan
scan_skip p j w t e = rw (e, scan) refl

scan_take :
    {V : Type 0} (p j r : Text) (w : V) (t : Entries V)
    → strip_prefix p j ≡ some r
    → scan p ((j, w) ∷ t) ≡ ok (j, w) ∷ scan p t
unfolding scan
scan_take p j r w t e = rw (e, scan) refl

lookup_other :
    {V : Type 0} (k j : Text) (w : V) (t : Entries V)
    → j ≢ k
    → HashMap.lookup k ((j, w) ∷ t) ≡ HashMap.lookup k t
unfolding HashMap.lookup
lookup_other k j w t h = rw (beq_false j k h) refl

lookup_same :
    {V : Type 0} (k : Text) (w : V) (t : Entries V) → HashMap.lookup k ((k, w) ∷ t) ≡ some w
unfolding HashMap.lookup
lookup_same k w t = rw (beq_refl k) refl

-- A key without the prefix is no key that starts with it.
other_key : (p j rest : Text) → strip_prefix p j ≡ none → j ≢ p ++ rest
other_key p j rest e same =
    let stripped = strip_prefix-append p rest in
    let gone : none ≡ some rest = sym e ∙ ap (strip_prefix p) same ∙ stripped in ground arith

scan-nil :
    {V : Type 0} (p : Text) (t : Entries V)
    → scan p t ≡ []
    → (rest : Text) → HashMap.lookup (p ++ rest) t ≡ none
unfolding scan HashMap.lookup
scan-nil p [] h rest = refl
scan-nil p ((j, w) ∷ t) h rest = elim (Option-cases (strip_prefix p j)) [
  | inl e ↦
      lookup_other (p ++ rest) j w t (other_key p j rest e)
      ∙ scan-nil p t (sym (scan_skip p j w t e) ∙ h) rest
  | inr (r, e) ↦ absurd (cons-ne-nil _ _ (sym (scan_take p j r w t e) ∙ h))
]

head_same : {A : Type 0} {a b : A} {l m : List A} → a ∷ l ≡ b ∷ m → a ≡ b
head_same h = ground arith

scan-cons :
    {V : Type 0} (p k : Text) (v : V) (t : Entries V) (rows : List (Result String (Text × V)))
    → scan p t ≡ ok (k, v) ∷ rows
    → (HashMap.lookup k t ≡ some v) × ((rest : Text) × (k ≡ p ++ rest))
unfolding scan
scan-cons p k v [] rows h = absurd (cons-ne-nil _ _ (sym h))
scan-cons p k v ((j, w) ∷ t) rows h = elim (Option-cases (strip_prefix p j)) [
  | inl e ↦
      let (found, (rest, begins)) = scan-cons p k v t rows (sym (scan_skip p j w t e) ∙ h) in
      (lookup_other k j w t (λ same. other_key p j rest e (same ∙ begins)) ∙ found, (rest, begins))
  | inr (r, e) ↦
      let first : (j, w) ≡ (k, v) =
        ok-injective _ _ (head_same (sym (scan_take p j r w t e) ∙ h)) in
      let same : j ≡ k = ap (λ x. x.0) first in
      (
        ap (λ l. HashMap.lookup l ((j, w) ∷ t)) (sym same)
            ∙ lookup_same j w t
            ∙ ap (λ x. some x.1) first,
        (r, sym same ∙ strip_prefix-some p j r e),
      )
]

abbrev rolled_back : {R E V : Type 0} → Result E R → Entries V → Entries V → Entries V
rolled_back (ok a) t t' = t'
rolled_back (err e) t t' = t

-- A tree whose calls do not fail.
abbrev entries : (V : Type 0) → Tree String V
entries V = record {
  State = Entries V;
  contents = λ t k. HashMap.lookup k t;
  get = λ k t. ok (HashMap.lookup k t);
  insert = λ k v t. (ok (HashMap.lookup k t), HashMap.insert k v t);
  remove = λ k t. (ok (HashMap.lookup k t), write k none t);
  compare_and_swap = λ k old new t. swap_at (HashMap.lookup k t) k old new t;
  fetch_and_update = λ k f t. (ok (HashMap.lookup k t), write k (f (HashMap.lookup k t)) t);
  iter = λ t. map ok t;
  scan_prefix = scan;
  transaction = λ {A} {E} f t. let (r, t') = f t in (r, rolled_back r t t');
  is_empty = λ t. elim t [ [] ↦ true | e ∷ rest ↦ false ];
  flush = λ t. ok 0;
  get_lem = λ k t o h. sym (ok-injective _ _ h);
  remove_lem = λ k t o h. (sym (ok-injective _ _ h), write_lem k none t);
  compare_and_swap_lem = λ k old new t h. swap_at_lem (HashMap.lookup k t) k old new t refl h;
  fetch_and_update_lem =
      λ k f t o h. (sym (ok-injective _ _ h), write_lem k (f (HashMap.lookup k t)) t);
  scan_prefix-nil = scan-nil;
  scan_prefix-cons = scan-cons;
}

data Value : Type 0 where
  invoice : Invoice → Value
  output : OutputId → Value
  height : ℕ → Value

abbrev read_id : List ℕ → Result (Unit {0}) InvoiceId
read_id (a ∷ b ∷ h ∷ rest) =
    ok (record { sub_index = record { major = a; minor = b }; creation_height = h })
read_id _ = err tt

abbrev read_invoice : Value → Result (Unit {0}) Invoice
read_invoice (invoice inv) = ok inv
read_invoice _ = err tt

abbrev read_index : List ℕ → SubIndex
read_index (a ∷ b ∷ rest) = record { major = a; minor = b }
read_index _ = one

-- A key is the two indices and the height; a value is itself.
abbrev numbers_code : Bincode
numbers_code = record {
  EncodeError = Unit {0};
  DecodeError = Unit {0};
  Bytes = Value;
  encode_id = λ i. ok (i.sub_index.major ∷ i.sub_index.minor ∷ i.creation_height ∷ []);
  decode_id = read_id;
  encode_sub_index = λ i. ok (i.major ∷ i.minor ∷ []);
  encode_invoice = λ inv. ok (invoice inv);
  decode_invoice = read_invoice;
  encode_output_id = λ o. ok (output o);
  decode_output_id = λ v. elim v [ output o ↦ ok o | _ ↦ err tt ];
  encode_height = λ h. ok (height h);
  decode_height = λ v. elim v [ height h ↦ ok h | _ ↦ err tt ];
  decode-encode_id = λ i k e. ap read_id (sym (ok-injective _ _ e));
  decode-encode_invoice = λ inv v e. ap read_invoice (sym (ok-injective _ _ e));
  encode_id-sub_index = λ i k e. (
    i.sub_index.major ∷ i.sub_index.minor ∷ [],
    i.creation_height ∷ [],
    refl,
    sym (ok-injective _ _ e),
  );
  encode_sub_index-prefix = λ a b p q r t e e' h.
      ap read_index
        (ap (λ l. l ++ r) (ok-injective _ _ e) ∙ h ∙ ap (λ l. l ++ t) (sym (ok-injective _ _ e')));
}

abbrev empty : Sled numbers_code (entries Value)
empty = record { invoices = []; output_keys = []; height = [] }

abbrev holding : Sled numbers_code (entries Value)
holding = (on_sled numbers_code (entries Value) (insert ordered) empty).1

empty-IsWritten : IsWritten numbers_code (entries Value) empty
unfolding HashMap.lookup
empty-IsWritten k v found =
    let gone : ◌≡◌ {A = Option Value} none (some v) = found in absurd (ground arith)

-- An invoice is found by its index, and not by another one.
two-found : sled_contains_sub_index numbers_code (entries Value) two holding ≡ ok true
unfolding sled_contains_sub_index scan strip_prefix sled_insert HashMap.lookup HashMap.insert
two-found = refl

one-missing : sled_contains_sub_index numbers_code (entries Value) one holding ≡ ok false
unfolding sled_contains_sub_index scan strip_prefix sled_insert HashMap.lookup HashMap.insert
one-missing = refl

ordered-listed : sled_get_ids numbers_code (entries Value) holding ≡ ok (id ordered ∷ [])
unfolding sled_get_ids sled_insert HashMap.lookup HashMap.insert
ordered-listed = refl

sled_call_lem_example : Follows numbers_code (entries Value) (update paid) holding (some ordered)
unfolding sled_insert sled_update HashMap.lookup HashMap.insert
sled_call_lem_example =
    sled_call_lem numbers_code (entries Value) (update paid) holding (some ordered) refl

sled_contains_sub_index_lem_example :
    (b : Bool) × (sled_contains_sub_index numbers_code (entries Value) two holding ≡ ok b)
    × Answers numbers_code (entries Value) holding two (0 ∷ 2 ∷ []) b
unfolding sled_insert HashMap.lookup
sled_contains_sub_index_lem_example =
    sled_contains_sub_index_lem numbers_code (entries Value) holding two (0 ∷ 2 ∷ []) refl (
      sled_call-IsWritten numbers_code (entries Value) (insert ordered) empty none refl
        empty-IsWritten)
