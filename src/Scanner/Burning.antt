-- ===== src/Scanner/Burning.antt =====
-- library/src/scanner.rs: `output_key_is_unique`, the guard against the burning bug. The key, the
-- transaction's hash and the index of an output are read off it by the crate monero.
use xmrgateway.Prelude.{
  ℕ, ◌≡◌, ◌==◌, refl, sym, ap, ◌∙◌, Bool, true, false, none, some, List, ltb, lt→ltb, ok-injective,
  err-ne-ok, ◌<◌, subst, if◌then◌else◌, Result, ok, err, arith, Result-cases, Bool-cases, inl, inr,
  ◌⊎◌, beq_refl, beq_true,
}
use xmrgateway.Storage.OutputKeys.{
  OutputPubKey, OutputId, OutputKeyStorage, output_key_eq, output_id_eq,
}

-- The errors of `ScannerError` that can arise here.
pub data ScannerError (E : Type 0) : Type 0 where
  storage : E → ScannerError E
  output_index : ScannerError E

module _ {E : Type 0} (ks : OutputKeyStorage E) where
  -- With the output's identifier at hand.
  unfoldable pub key_is_unique :
      OutputPubKey → OutputId → ks.Store → Result (ScannerError E) Bool × ks.Store
  key_is_unique key output_id s = elim (ks.get key s) [
    | err e ↦ (err (storage e), s)
    | ok (some stored_output_id) ↦ (ok (stored_output_id == output_id), s)
    | ok none ↦ elim (ks.insert key output_id s) [
      | err e ↦ (err (storage e), s)
      | ok next ↦ (ok true, next)
    ]
  ]

  unfoldable pub output_key_is_unique :
      OutputPubKey → List ℕ → ℕ → ks.Store → Result (ScannerError E) Bool × ks.Store
  output_key_is_unique key tx_hash index s =
      if ltb index 256
      then key_is_unique key (record { tx_hash = tx_hash; index = index }) s
      else (err output_index, s)

  -- Any number of checks, whatever their outcome.
  pub data Checks (s : ks.Store) : ks.Store → Type 0 where
    nothing : Checks s s
    checked :
        {t : ks.Store} (key : OutputPubKey) (tx_hash : List ℕ) (index : ℕ)
        → Checks s t
        → Checks s (output_key_is_unique key tx_hash index t).1

  known :
      (key : OutputPubKey) (output_id stored : OutputId) (s : ks.Store)
      → ks.get key s ≡ ok (some stored)
      → key_is_unique key output_id s ≡ (ok (stored == output_id), s)
  unfolding key_is_unique
  known key output_id stored s e = rw (e, key_is_unique) refl

  -- A check leaves the store alone or enters a key that it does not have.
  check_cases :
      (key : OutputPubKey) (output_id : OutputId) (s : ks.Store)
      → ((key_is_unique key output_id s).1 ≡ s)
        ⊎ ((t : ks.Store) × (ks.get key s ≡ ok none)
            × (ks.insert key output_id s ≡ ok t)
            × (key_is_unique key output_id s ≡ (ok true, t)))
  unfolding key_is_unique
  check_cases key output_id s = elim (Result-cases (ks.get key s)) [
    | inl (x, e) ↦ inl (rw (e, key_is_unique) refl)
    | inr (none, e) ↦ elim (Result-cases (ks.insert key output_id s)) [
      | inl (x, f) ↦ inl (rw (e, f, key_is_unique) refl)
      | inr (t, f) ↦ inr (t, e, f, rw (e, f, key_is_unique) refl)
    ]
    | inr (some stored, e) ↦ inl (rw (e, key_is_unique) refl)
  ]

  -- A key that has an output keeps it through every check.
  kept :
      (key asked : OutputPubKey) (output_id stored : OutputId) (s : ks.Store)
      → ks.get asked s ≡ ok (some stored)
      → ks.get asked (key_is_unique key output_id s).1 ≡ ok (some stored)
  kept key asked output_id stored s e = elim (check_cases key output_id s) [
    | inl same ↦ ap (ks.get asked) same ∙ e
    | inr (t, absent, entered, result) ↦
        ap (λ r. ks.get asked r.1) result
        ∙ ks.get-insert key output_id s entered asked
        ∙ other (Bool-cases (key == asked)) absent
  ]
    where
      other :
          (key == asked ≡ true) ⊎ (key == asked ≡ false)
          → ks.get key s ≡ ok none
          → (if key == asked then ok (some output_id) else ks.get asked s) ≡ ok (some stored)
      other (inl q) absent = absurd (ground (arith, ap (λ k. ks.get k s) (beq_true key asked q)))
      other (inr q) absent = rw q e

  Checks-keep :
      (asked : OutputPubKey) (stored : OutputId) {s t : ks.Store}
      → Checks s t
      → ks.get asked s ≡ ok (some stored)
      → ks.get asked t ≡ ok (some stored)
  unfolding output_key_is_unique
  Checks-keep asked stored nothing e = e
  Checks-keep asked stored (checked {t} key tx_hash index c) e = elim (Bool-cases (ltb index 256)) [
    | inl small ↦ rw small (
        kept key asked (record { tx_hash = tx_hash; index = index }) stored t
          (Checks-keep asked stored c e))
    | inr large ↦ rw large (Checks-keep asked stored c e)
  ]

  -- A key that a check has accepted belongs to that output from then on.
  accepted_known :
      (key : OutputPubKey) (output_id : OutputId) (s : ks.Store) {t : ks.Store}
      → key_is_unique key output_id s ≡ (ok true, t)
      → ks.get key t ≡ ok (some output_id)
  accepted_known key output_id s {t} e = elim (Result-cases (ks.get key s)) [
    | inl (x, g) ↦
        let failed : key_is_unique key output_id s ≡ (err (storage x), s) =
          unfold key_is_unique in rw (g, key_is_unique) refl in
        absurd (err-ne-ok (storage x) true (ap (λ r. r.0) (sym failed ∙ e)))
    | inr (none, g) ↦ elim (Result-cases (ks.insert key output_id s)) [
      | inl (x, f) ↦
          let failed : key_is_unique key output_id s ≡ (err (storage x), s) =
            unfold key_is_unique in rw (g, f, key_is_unique) refl in
          absurd (err-ne-ok (storage x) true (ap (λ r. r.0) (sym failed ∙ e)))
      | inr (t', f) ↦
          let entered : key_is_unique key output_id s ≡ (ok true, t') =
            unfold key_is_unique in rw (g, f, key_is_unique) refl in
          subst (λ v. ks.get key v ≡ ok (some output_id)) (ap (λ r. r.1) (sym entered ∙ e))
            (ks.get-insert key output_id s f key ∙ rw (beq_refl key) refl)
    ]
    | inr (some stored, g) ↦
        let same : (ok (stored == output_id), s) ≡ (ok true, t) =
          sym (known key output_id stored s g) ∙ e in
        let at : stored ≡ output_id =
          beq_true stored output_id
            (ok-injective (stored == output_id) true (ap (λ r. r.0) same)) in
        subst (λ v. ks.get key v ≡ ok (some output_id)) (ap (λ r. r.1) same)
          (g ∙ ap (λ o. ok (some o)) at)
  ]

  -- For a store of output keys that keeps to its interface: once the check of an output has
  -- accepted its key, then after any further checks the check of an output with that key and an
  -- index below 256 accepts exactly that same output, and leaves the store alone.
  pub output_key_is_unique_lem :
      (key : OutputPubKey) (tx_hash : List ℕ) (index : ℕ) (s : ks.Store) {t u : ks.Store}
      → output_key_is_unique key tx_hash index s ≡ (ok true, t)
      → Checks t u
      → (other : OutputId) → other.index < 256
      → output_key_is_unique key other.tx_hash other.index u
        ≡ (ok (output_id_eq.beq (record { tx_hash = tx_hash; index = index }) other), u)
  unfolding output_key_is_unique
  output_key_is_unique_lem key tx_hash index s {t} {u} e c other h =
      elim (Bool-cases (ltb index 256)) [
        | inl small ↦
            let first : key_is_unique key (record { tx_hash = tx_hash; index = index }) s
                ≡ (ok true, t) =
              rw (← e, small) refl in
            rw (lt→ltb other.index 256 h) (
              known key other (record { tx_hash = tx_hash; index = index }) u
                (Checks-keep key (record { tx_hash = tx_hash; index = index }) c
                  (accepted_known key (record { tx_hash = tx_hash; index = index }) s first)))
        | inr large ↦
            let failed : output_key_is_unique key tx_hash index s ≡ (err output_index, s) =
              rw (large, output_key_is_unique) refl in
            absurd (err-ne-ok output_index true (ap (λ r. r.0) (sym failed ∙ e)))
      ]
