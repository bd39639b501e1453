-- ===== src/Caching/BlockCache/Reorg.antt =====
-- The repair of the block cache by `check_and_fix_reorg`, against the chain that the daemon serves.
use Prim.Native.Nat.{max}
use xmrgateway.Prelude.{
  ℕ, suc, ◌+◌, ◌-◌, ◌≤◌, ◌<◌, ◌≡◌, refl, ap, sym, ◌∙◌, subst, true, List, [], ◌∷◌, length, drop,
  get_elem?, some, All, sub64, u64_mod, ok, arith, inl, inr,
}
use xmrgateway.External.Monero.{Monero, Daemon}
use xmrgateway.Caching.BlockCache.{
  Block, BlockCache, fetch, fix_from, fix_blocks, check_and_fix_reorg,
}
use xmrgateway.Caching.BlockCache.Steps.{fix_cases, fix_kept}

module _ (mo : Monero) where
  -- Each block names the next as its predecessor.
  abbrev pub IsLinked : List (Block mo) → Type 0
  IsLinked [] = Unit
  IsLinked (b ∷ []) = Unit
  IsLinked (b ∷ n ∷ rest) =
      (mo.hash_eq.beq (mo.prev_id b.inner) n.hash ≡ true) × IsLinked (n ∷ rest)

  -- A block's hash commits to its predecessor.
  abbrev pub Commits : (mo.Hash → mo.Hash) → Block mo → Type 0
  Commits parent b = mo.prev_id b.inner ≡ parent b.hash

  -- The blocks are those of a chain, downwards from a height.
  abbrev pub OnChain : (ℕ → mo.Hash) → ℕ → List (Block mo) → Type 0
  OnChain chain h [] = Unit
  OnChain chain h (b ∷ bs) = (b.hash ≡ chain h) × OnChain chain (h - 1) bs

  module _ {E : Type 0} (daemon : Daemon mo E) where
    module _ (parent : mo.Hash → mo.Hash) (chain : ℕ → mo.Hash)
        (linked : (n : ℕ) → chain n ≡ parent (chain (suc n)))
        (served : (h : ℕ) (b : Block mo)
          → fetch mo daemon h ≡ ok b
          → (b.hash ≡ chain h) × Commits parent b) where
      fix_from-OnChain :
          (ch i updated : ℕ) (b : Block mo) (rest : List (Block mo)) (n : ℕ)
          → ch < u64_mod
          → i + length rest ≤ ch
          → b.hash ≡ chain (ch - i)
          → Commits parent b
          → All (Commits parent) rest
          → (fix_from mo daemon ch i updated b rest).0 ≡ ok n
          → OnChain chain (ch - i) (fix_from mo daemon ch i updated b rest).1
      fix_from-OnChain ch i updated b [] n bound deep e c cs q = unfold fix_from in (e, tt)
      fix_from-OnChain ch i updated b (x ∷ rest) n bound deep e c cs q =
          let under : ch - i - 1 ≡ ch - suc i = omega arith in
          elim (fix_cases mo daemon ch i updated b x rest) [
            | inl (same, s) ↦
                let up : ch - i ≡ suc (ch - suc i) = omega arith in
                let next : x.hash ≡ chain (ch - suc i) =
                  sym ((mo.hash_eq.beq_iff (mo.prev_id b.inner) x.hash).0 same)
                  ∙ c
                  ∙ ap parent (e ∙ ap chain up)
                  ∙ sym (linked (ch - suc i)) in
                rw (s, under)
                  (
                    e,
                    fix_from-OnChain ch (suc i) updated x rest n bound (omega arith) next cs.0 cs.1
                        (ap (λ t. t.0) (sym s) ∙ q),
                  )
            | inr (inl (y, failed, s)) ↦ absurd (ground arith)
            | inr (inr (r, found, unlinked, s)) ↦
                let at : sub64 (sub64 ch 1) i ≡ ch - suc i = omega arith in
                let (next, commits) = served (sub64 (sub64 ch 1) i) r found in
                rw (s, under)
                  (
                    e,
                    fix_from-OnChain ch (suc i) (max updated 1 + 1) r rest n bound (omega arith)
                        (next ∙ ap chain at) commits cs.1 (ap (λ t. t.0) (sym s) ∙ q),
                  )
          ]

    -- A cache that is linked throughout is left alone.
    pub fix_from_kept :
        (ch i updated : ℕ) (b : Block mo) (rest : List (Block mo))
        → IsLinked (b ∷ rest)
        → fix_from mo daemon ch i updated b rest ≡ (ok updated, b ∷ rest)
    fix_from_kept ch i updated b [] l = unfold fix_from in refl
    fix_from_kept ch i updated b (x ∷ rest) l =
        rw (
          fix_kept mo daemon ch i updated b x rest l.0,
          fix_from_kept ch (suc i) updated x rest l.1,
        )

    tail-IsLinked : (x : Block mo) (rest : List (Block mo)) → IsLinked (x ∷ rest) → IsLinked rest
    tail-IsLinked x [] l = tt
    tail-IsLinked x (y ∷ rest) l = l.1

    -- From index `i` on, with `i` repairs made, the number returned leaves untouched what lies at
    -- or behind it.
    fix_from-covers :
        (ch i : ℕ) (b : Block mo) (rest : List (Block mo)) (n : ℕ)
        → IsLinked rest
        → (fix_from mo daemon ch i (suc i) b rest).0 ≡ ok n
        → (m : ℕ) × (n ≡ suc i + m)
          × (drop (suc m) (fix_from mo daemon ch i (suc i) b rest).1 ≡ drop m rest)
    fix_from-covers ch i b [] n l q = unfold fix_from in (0, ground arith, refl)
    fix_from-covers ch i b (x ∷ rest) n l q = elim (fix_cases mo daemon ch i (suc i) b x rest) [
      | inl (same, s) ↦
          let left : fix_from mo daemon ch (suc i) (suc i) x rest ≡ (ok (suc i), x ∷ rest) =
            fix_from_kept ch (suc i) (suc i) x rest l in
          (0, ground arith, ap (λ t. drop 1 t.1) s ∙ ap (λ t. t.1) left)
      | inr (inl (y, failed, s)) ↦ absurd (ground arith)
      | inr (inr (r, found, unlinked, s)) ↦
          let more : max (suc i) 1 + 1 ≡ suc (suc i) = omega arith in
          let s' : fix_from mo daemon ch i (suc i) b (x ∷ rest) ≡ (
            (fix_from mo daemon ch (suc i) (suc (suc i)) r rest).0,
            b ∷ (fix_from mo daemon ch (suc i) (suc (suc i)) r rest).1,
          ) =
            subst
              (λ k. fix_from mo daemon ch i (suc i) b (x ∷ rest) ≡ (
                (fix_from mo daemon ch (suc i) k r rest).0,
                b ∷ (fix_from mo daemon ch (suc i) k r rest).1,
              ))
              more s in
          let (m, size, same) =
            fix_from-covers ch (suc i) r rest n (tail-IsLinked x rest l)
              (ap (λ t. t.0) (sym s') ∙ q) in
          (suc m, omega arith, ap (λ t. drop (suc (suc m)) t.1) s' ∙ same)
    ]

    blocks_cover :
        (ch : ℕ) (bs : List (Block mo)) (n : ℕ)
        → IsLinked (drop 1 bs)
        → (fix_blocks mo daemon ch bs).0 ≡ ok n
        → drop n (fix_blocks mo daemon ch bs).1 ≡ drop n bs
    unfolding fix_blocks
    blocks_cover ch [] n l q = refl
    blocks_cover ch (b ∷ []) n l q = unfold fix_from in refl
    blocks_cover ch (b ∷ x ∷ rest) n l q = elim (fix_cases mo daemon ch 0 0 b x rest) [
      | inl (same, s) ↦
          ap (λ t. drop n t.1) (s ∙ ap (λ t. (t.0, b ∷ t.1)) (fix_from_kept ch 1 0 x rest l))
      | inr (inl (y, failed, s)) ↦ absurd (ground arith)
      | inr (inr (r, found, unlinked, s)) ↦
          let (m, size, same) =
            fix_from-covers ch 1 r rest n (tail-IsLinked x rest l) (ap (λ t. t.0) (sym s) ∙ q) in
          let at : n ≡ suc (suc m) = omega arith in
          rw at (ap (λ t. drop (suc (suc m)) t.1) s ∙ same)
    ]

    blocks_on :
        (parent : mo.Hash → mo.Hash) (chain : ℕ → mo.Hash)
        → ((k : ℕ) → chain k ≡ parent (chain (suc k)))
        → ((h : ℕ) (b : Block mo)
            → fetch mo daemon h ≡ ok b
            → (b.hash ≡ chain h) × Commits parent b)
        → (ch : ℕ) (bs : List (Block mo)) (n : ℕ) → ch < u64_mod
        → length bs ≤ ch + 1
        → All (Commits parent) bs
        → ((b : Block mo) → get_elem? bs 0 ≡ some b → b.hash ≡ chain ch)
        → (fix_blocks mo daemon ch bs).0 ≡ ok n
        → OnChain chain ch (fix_blocks mo daemon ch bs).1
    unfolding fix_blocks
    blocks_on parent chain linked served ch [] n bound deep cs top q = tt
    blocks_on parent chain linked served ch (b ∷ rest) n bound deep cs top q =
        let start : ch - 0 ≡ ch = omega arith in
        subst (λ h. OnChain chain h (fix_from mo daemon ch 0 0 b rest).1) start
          (fix_from-OnChain parent chain linked served ch 0 0 b rest n bound (omega arith)
            (top b refl ∙ ap chain (sym start)) cs.0 cs.1 q)

    -- If the blocks below the top one were linked, a repair that succeeds changes no block at or
    -- behind the number that it returns.
    pub check_covers :
        (c : BlockCache mo) (n : ℕ)
        → IsLinked (drop 1 c.blocks)
        → (check_and_fix_reorg mo daemon c).0 ≡ ok n
        → drop n (check_and_fix_reorg mo daemon c).1.blocks ≡ drop n c.blocks
    unfolding check_and_fix_reorg
    check_covers c n l q = blocks_cover c.height c.blocks n l q

    -- If the daemon serves the blocks of a chain, each block commits to its predecessor by its
    -- hash, the cache reaches at most down to height 0, its height fits 64 bits and its top block
    -- is the chain's, then a repair that succeeds leaves every block of the cache on that chain.
    pub check-OnChain :
        (parent : mo.Hash → mo.Hash) (chain : ℕ → mo.Hash) (c : BlockCache mo) (n : ℕ)
        → ((k : ℕ) → chain k ≡ parent (chain (suc k)))
        → ((h : ℕ) (b : Block mo)
            → fetch mo daemon h ≡ ok b
            → (b.hash ≡ chain h) × Commits parent b)
        → c.height < u64_mod
        → length c.blocks ≤ c.height + 1
        → All (Commits parent) c.blocks
        → ((b : Block mo) → get_elem? c.blocks 0 ≡ some b → b.hash ≡ chain c.height)
        → (check_and_fix_reorg mo daemon c).0 ≡ ok n
        → OnChain chain c.height (check_and_fix_reorg mo daemon c).1.blocks
    unfolding check_and_fix_reorg
    check-OnChain parent chain c n linked served bound deep cs top q =
        blocks_on parent chain linked served c.height c.blocks n bound deep cs top q
