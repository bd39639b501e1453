-- ===== src/Caching/BlockCache/Steps.antt =====
-- One round of the loop of `check_and_fix_reorg`, by the three ways that it can go.
use Prim.Native.Nat.{max}
use xmrgateway.Prelude.{
  ℕ, refl, ap, ◌∙◌, suc, ◌+◌, ◌≡◌, Bool, true, false, List, ◌∷◌, sub64, Result, ok, err,
  Result-cases, Bool-cases, inl, inr, ◌⊎◌,
}
use xmrgateway.External.Monero.{Monero, Daemon}
use xmrgateway.Caching.BlockCache.{
  BlockCache, rpc, update, update_to, BlockCacheError, Block, fetch, fix_from,
}

module _ (mo : Monero) {E : Type 0} (daemon : Daemon mo E) (c : BlockCache mo) where
  abbrev answered : Result E ℕ → Result (BlockCacheError E) ℕ × BlockCache mo
  answered (err e) = (err (rpc e), c)
  answered (ok h) = update_to mo daemon h c

  update-answered :
      (r : Result E ℕ)
      → elim r [ err e ↦ (err (rpc e), c) | ok h ↦ update_to mo daemon h c ] ≡ answered r
  update-answered (ok h) = refl
  update-answered (err e) = refl

  pub update_known :
      (h : ℕ) → daemon.daemon_height ≡ ok h → update mo daemon c ≡ update_to mo daemon h c
  unfolding update
  update_known h e = update-answered daemon.daemon_height ∙ ap answered e

  pub update_unknown :
      (x : E) → daemon.daemon_height ≡ err x → update mo daemon c ≡ (err (rpc x), c)
  unfolding update
  update_unknown x e = update-answered daemon.daemon_height ∙ ap answered e

module _ (mo : Monero) {E : Type 0} (daemon : Daemon mo E) (ch i updated : ℕ) (b n : Block mo)
    (rest : List (Block mo)) where
  abbrev pub Linked : Bool → Type 0
  Linked x = mo.hash_eq.beq (mo.prev_id b.inner) n.hash ≡ x

  pub fix_kept :
      Linked true
      → fix_from mo daemon ch i updated b (n ∷ rest) ≡ (
        (fix_from mo daemon ch (suc i) updated n rest).0,
        b ∷ (fix_from mo daemon ch (suc i) updated n rest).1,
      )
  unfolding fix_from
  fix_kept e = rw (e, fix_from)

  pub fix_failed :
      {x : BlockCacheError E}
      → Linked false
      → fetch mo daemon (sub64 (sub64 ch 1) i) ≡ err x
      → fix_from mo daemon ch i updated b (n ∷ rest) ≡ (err x, b ∷ n ∷ rest)
  unfolding fix_from
  fix_failed e f = rw (e, f, fix_from)

  pub fix_repaired :
      {r : Block mo}
      → Linked false
      → fetch mo daemon (sub64 (sub64 ch 1) i) ≡ ok r
      → fix_from mo daemon ch i updated b (n ∷ rest) ≡ (
        (fix_from mo daemon ch (suc i) (max updated 1 + 1) r rest).0,
        b ∷ (fix_from mo daemon ch (suc i) (max updated 1 + 1) r rest).1,
      )
  unfolding fix_from
  fix_repaired e f = rw (e, f, fix_from)

  pub fix_cases :
      (Linked true
        × (fix_from mo daemon ch i updated b (n ∷ rest) ≡ (
          (fix_from mo daemon ch (suc i) updated n rest).0,
          b ∷ (fix_from mo daemon ch (suc i) updated n rest).1,
        )))
      ⊎ ((x : BlockCacheError E) × (fetch mo daemon (sub64 (sub64 ch 1) i) ≡ err x)
          × (fix_from mo daemon ch i updated b (n ∷ rest) ≡ (err x, b ∷ n ∷ rest)))
      ⊎ ((r : Block mo) × (fetch mo daemon (sub64 (sub64 ch 1) i) ≡ ok r)
          × Linked false
          × (fix_from mo daemon ch i updated b (n ∷ rest) ≡ (
            (fix_from mo daemon ch (suc i) (max updated 1 + 1) r rest).0,
            b ∷ (fix_from mo daemon ch (suc i) (max updated 1 + 1) r rest).1,
          )))
  fix_cases = elim (Bool-cases (mo.hash_eq.beq (mo.prev_id b.inner) n.hash)) [
    | inl e ↦ inl (e, fix_kept e)
    | inr e ↦ elim (Result-cases (fetch mo daemon (sub64 (sub64 ch 1) i))) [
      | inl (x, f) ↦ inr (inl (x, f, fix_failed e f))
      | inr (r, f) ↦ inr (inr (r, f, e, fix_repaired e f))
    ]
  ]
