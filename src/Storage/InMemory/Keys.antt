-- ===== src/Storage/InMemory/Keys.antt =====
-- The in-memory store as an `OutputKeyStorage`.
use xmrgateway.Prelude.{
  ◌≡◌, ◌==◌, refl, Option, some, Result, ok, if◌then◌else◌, arith, Bool-cases, inl, inr, List,
  subst,
}
use xmrgateway.Std.BTreeMap.{find, put, find-put}
use xmrgateway.Storage.OutputKeys.{
  OutputPubKey, OutputId, OutputKeyStorage, output_key_ord, output_key_eq, cmp_output_key-eq_iff,
}
use xmrgateway.Storage.InMemory.{InMemory, InMemoryStorageError, output_key_insert, output_key_get}

inserted_keys :
    (key : OutputPubKey) (o : OutputId) (s : InMemory) {t : InMemory}
    → output_key_insert key o s ≡ ok t
    → record s { output_keys = put key o s.output_keys } ≡ t
unfolding output_key_insert
inserted_keys key o s e = ground arith

pub find-put_if :
    (key asked : OutputPubKey) (o : OutputId) (m : List (OutputPubKey × OutputId))
    → find asked (put key o m) ≡ (if key == asked then some o else find asked m)
find-put_if key asked o m = ground (
  arith,
  find-put key asked o m,
  cmp_output_key-eq_iff asked key,
  cmp_output_key-eq_iff key asked,
)

abbrev pub answer : Option OutputId → Result InMemoryStorageError (Option OutputId)
answer o = ok o

pub get-output_key_insert :
    (key : OutputPubKey) (o : OutputId) (s : InMemory) {t : InMemory}
    → output_key_insert key o s ≡ ok t
    → (asked : OutputPubKey)
    → answer (output_key_get asked t)
      ≡ (if key == asked then answer (some o) else answer (output_key_get asked s))
unfolding output_key_get
get-output_key_insert key o s {t} e asked =
    subst
      (λ u.
        answer (find asked u.output_keys)
        ≡ (if key == asked then answer (some o) else answer (find asked s.output_keys)))
      (inserted_keys key o s e)
      (elim (Bool-cases (key == asked)) [
        | inl same ↦ rw (find-put_if key asked o s.output_keys, same) refl
        | inr away ↦ rw (find-put_if key asked o s.output_keys, away) refl
      ])

abbrev pub in_memory_keys : OutputKeyStorage InMemoryStorageError
in_memory_keys = record {
  Store = InMemory;
  get = λ key s. ok (output_key_get key s);
  insert = output_key_insert;
  get-insert = get-output_key_insert;
}
