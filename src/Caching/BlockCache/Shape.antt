-- ===== src/Caching/BlockCache/Shape.antt =====
-- The shape of the block cache: the heights and the number of its blocks, through every operation.
use Prim.Native.Nat.{max}
use xmrgateway.Prelude.{
  ℕ, suc, ◌+◌, ◌-◌, ◌≤◌, ◌<◌, ◌≡◌, ◌≢◌, refl, ap, sym, ◌∙◌, subst, Result-cases, List, [], ◌∷◌, ltb,
  ltb→lt, length, add64, sub64, u64_mod, Result, ok, err, arith, Bool-cases, inl, inr,
}
use xmrgateway.External.Monero.{Monero, Daemon}
use xmrgateway.Caching.BlockCache.Steps.{fix_cases, update_known, update_unknown}
use xmrgateway.Caching.BlockCache.{
  BlockCacheError, panicked, remove_last, Block, BlockCache, fetch, fix_from, fix_blocks,
  check_and_fix_reorg, advance, update, update_to,
}

module _ (mo : Monero) where
  -- The blocks stand at these heights, one by one downwards.
  abbrev pub IsDescending : ℕ → List (Block mo) → Type 0
  IsDescending h [] = Unit
  IsDescending h (b ∷ bs) = (b.height ≡ h) × IsDescending (h - 1) bs

  pub record IsWellFormed (c : BlockCache mo) : Type 0 where
    pub bounded : c.height < u64_mod
    pub nonempty : 0 < length c.blocks
    pub deep : length c.blocks ≤ c.height + 1
    pub heights : IsDescending c.height c.blocks

  length-remove_last :
      (b : Block mo) (bs : List (Block mo)) → length (remove_last (b ∷ bs)) ≡ length bs
  unfolding remove_last
  length-remove_last b [] = refl
  length-remove_last b (x ∷ xs) = ap suc (length-remove_last x xs)

  remove_last-IsDescending :
      (h : ℕ) (bs : List (Block mo)) → IsDescending h bs → IsDescending h (remove_last bs)
  unfolding remove_last
  remove_last-IsDescending h [] d = tt
  remove_last-IsDescending h (b ∷ []) d = tt
  remove_last-IsDescending h (b ∷ x ∷ xs) d = (d.0, remove_last-IsDescending (h - 1) (x ∷ xs) d.1)

  module _ {E : Type 0} (daemon : Daemon mo E) where
    -- A fetched block has the height that was asked for.
    pub fetch-height : (h : ℕ) {b : Block mo} → fetch mo daemon h ≡ ok b → b.height ≡ h
    unfolding fetch
    fetch-height h {b} e = ground arith

    -- A fetch may fail, but does not panic.
    pub fetch-ne-panicked : (h : ℕ) → fetch mo daemon h ≢ err panicked
    unfolding fetch
    fetch-ne-panicked h e = ground arith

    length-fix_from :
        (ch i updated : ℕ) (b : Block mo) (rest : List (Block mo))
        → length (fix_from mo daemon ch i updated b rest).1 ≡ suc (length rest)
    length-fix_from ch i updated b [] = unfold fix_from in refl
    length-fix_from ch i updated b (n ∷ rest) = elim (fix_cases mo daemon ch i updated b n rest) [
      | inl (linked, e) ↦ rw e (ap suc (length-fix_from ch (suc i) updated n rest))
      | inr (inl (x, failed, e)) ↦ rw e
      | inr (inr (r, found, unlinked, e)) ↦
          rw e (ap suc (length-fix_from ch (suc i) (max updated 1 + 1) r rest))
    ]

    fix_from-IsDescending :
        (ch i updated : ℕ) (b : Block mo) (rest : List (Block mo))
        → ch < u64_mod
        → i + length rest ≤ ch
        → b.height ≡ ch - i
        → IsDescending (ch - i - 1) rest
        → IsDescending (ch - i) (fix_from mo daemon ch i updated b rest).1
    fix_from-IsDescending ch i updated b [] bound deep e d = unfold fix_from in (e, tt)
    fix_from-IsDescending ch i updated b (n ∷ rest) bound deep e d =
        let under : ch - i - 1 ≡ ch - suc i = omega arith in
        elim (fix_cases mo daemon ch i updated b n rest) [
          | inl (linked, q) ↦
              rw (q, under)
                (
                  e,
                  fix_from-IsDescending ch (suc i) updated n rest bound (omega arith)
                      (omega (arith, d.0)) (subst (λ h. IsDescending (h - 1) rest) under d.1),
                )
          | inr (inl (x, failed, q)) ↦ rw q (e, d)
          | inr (inr (r, found, unlinked, q)) ↦
              rw (q, under)
                (
                  e,
                  fix_from-IsDescending ch (suc i) (max updated 1 + 1) r rest bound (omega arith)
                      (omega (arith, fetch-height (sub64 (sub64 ch 1) i) found))
                      (subst (λ h. IsDescending (h - 1) rest) under d.1),
                )
        ]

    retyped :
        (x : BlockCacheError E)
        → ◌≡◌ {A = Result (BlockCacheError E) ℕ} (err x) (err panicked)
        → ◌≡◌ {A = Result (BlockCacheError E) (Block mo)} (err x) (err panicked)
    retyped x e = ground arith

    fix_from-ne-panicked :
        (ch i updated : ℕ) (b : Block mo) (rest : List (Block mo))
        → (fix_from mo daemon ch i updated b rest).0 ≢ err panicked
    fix_from-ne-panicked ch i updated b [] e = absurd (unfold fix_from in cc)
    fix_from-ne-panicked ch i updated b (n ∷ rest) e =
        elim (fix_cases mo daemon ch i updated b n rest) [
          | inl (linked, q) ↦
              fix_from-ne-panicked ch (suc i) updated n rest (ap (λ r. r.0) (sym q) ∙ e)
          | inr (inl (x, failed, q)) ↦
              fetch-ne-panicked (sub64 (sub64 ch 1) i)
                (failed ∙ retyped x (ap (λ r. r.0) (sym q) ∙ e))
          | inr (inr (r, found, unlinked, q)) ↦
              fix_from-ne-panicked ch (suc i) (max updated 1 + 1) r rest (ap (λ r. r.0) (sym q) ∙ e)
        ]

    fix_blocks_shape :
        (ch : ℕ) (bs : List (Block mo))
        → ch < u64_mod
        → 0 < length bs
        → length bs ≤ ch + 1
        → IsDescending ch bs
        → IsDescending ch (fix_blocks mo daemon ch bs).1
          × ((fix_blocks mo daemon ch bs).0 ≢ err panicked)
          × (length (fix_blocks mo daemon ch bs).1 ≡ length bs)
    unfolding fix_blocks
    fix_blocks_shape ch [] h p l d = absurd (omega arith)
    fix_blocks_shape ch (b ∷ rest) h p l d = (
      subst (λ k. IsDescending k (fix_from mo daemon ch 0 0 b rest).1) start
          (fix_from-IsDescending ch 0 0 b rest h (omega arith) (omega (arith, d.0))
            (subst (λ k. IsDescending (k - 1) rest) (sym start) d.1)),
      fix_from-ne-panicked ch 0 0 b rest,
      length-fix_from ch 0 0 b rest,
    )
      where
        start : ch - 0 ≡ ch
        start = omega arith

    -- The cache never goes out of bounds in a repair, and keeps its shape whether or not the repair
    -- succeeds.
    pub check-IsWellFormed :
        (c : BlockCache mo)
        → IsWellFormed c
        → IsWellFormed (check_and_fix_reorg mo daemon c).1
          × ((check_and_fix_reorg mo daemon c).0 ≢ err panicked)
          × (length (check_and_fix_reorg mo daemon c).1.blocks ≡ length c.blocks)
    unfolding check_and_fix_reorg
    check-IsWellFormed c v =
        let (heights, sound, size) =
          fix_blocks_shape c.height c.blocks v.bounded v.nonempty v.deep v.heights in
        (
          record {
            bounded = v.bounded;
            nonempty = omega (arith, size);
            deep = omega (arith, size);
            heights = heights;
          },
          sound,
          size,
        )

    grown-IsWellFormed :
        (c : BlockCache mo) (b : Block mo)
        → c.height + 1 < u64_mod
        → b.height ≡ add64 c.height 1
        → IsWellFormed c
        → IsWellFormed (record c { height = add64 c.height 1; blocks = remove_last (b ∷ c.blocks) })
    grown-IsWellFormed c b h e v = record {
      bounded = omega arith;
      nonempty = omega (arith, length-remove_last b c.blocks, v.nonempty);
      deep = omega (arith, length-remove_last b c.blocks, v.deep);
      heights =
          remove_last-IsDescending (add64 c.height 1) (b ∷ c.blocks)
            (e, subst (λ k. IsDescending k c.blocks) below v.heights);
    }
      where
        below : c.height ≡ add64 c.height 1 - 1
        below = omega arith

    pub advance-IsWellFormed :
        (bh : ℕ) (c : BlockCache mo)
        → bh < u64_mod
        → IsWellFormed c
        → IsWellFormed (advance mo daemon bh c).1
          × ((advance mo daemon bh c).0 ≢ err panicked)
          × (length (advance mo daemon bh c).1.blocks ≡ length c.blocks)
    unfolding advance
    advance-IsWellFormed bh c h v = elim (Bool-cases (ltb c.height (bh - 1))) [
      | inr stay ↦ rw stay (v, λ e. cc, refl)
      | inl grow ↦ elim (Result-cases (fetch mo daemon (add64 c.height 1))) [
        | inl (x, f) ↦
            rw (grow, f) (v, λ e. fetch-ne-panicked (add64 c.height 1) (ground arith), refl)
        | inr (b, f) ↦
            rw (grow, f)
              (
                grown-IsWellFormed c b (omega (arith, ltb→lt c.height (bh - 1) grow))
                    (fetch-height (add64 c.height 1) f) v,
                λ e. cc,
                length-remove_last b c.blocks,
              )
      ]
    ]

    update_to-IsWellFormed :
        (bh : ℕ) (c : BlockCache mo)
        → bh < u64_mod
        → IsWellFormed c
        → IsWellFormed (update_to mo daemon bh c).1
          × ((update_to mo daemon bh c).0 ≢ err panicked)
          × (length (update_to mo daemon bh c).1.blocks ≡ length c.blocks)
    unfolding update_to
    update_to-IsWellFormed bh c small v =
        let seen : BlockCache mo = record c { daemon_height = bh } in
        let next : BlockCache mo = (advance mo daemon bh seen).1 in
        let (v1, sound1, size1) = advance-IsWellFormed bh seen small (record {
          bounded = v.bounded;
          nonempty = v.nonempty;
          deep = v.deep;
          heights = v.heights;
        }) in
        let (v2, sound2, size2) = check-IsWellFormed next v1 in
        elim (Result-cases (advance mo daemon bh seen).0) [
          | inl (x, f) ↦ rw (f, update_to) (v1, λ q. sound1 (f ∙ q), size1)
          | inr (n, f) ↦ elim (Result-cases (check_and_fix_reorg mo daemon next).0) [
            | inl (x, g) ↦ rw (f, g, update_to) (v2, λ q. sound2 (g ∙ q), size2 ∙ size1)
            | inr (m, g) ↦ rw (f, g, update_to) (v2, λ q. cc, size2 ∙ size1)
          ]
        ]

    -- If a cache has blocks, these stand at consecutive heights from its own height down, none
    -- below height 0, and its height and the daemon's fit 64 bits, then an update, whether it
    -- succeeds or fails at some request, keeps all this of the cache, keeps the number of its
    -- blocks, and takes no index out of bounds.
    pub update-IsWellFormed :
        (c : BlockCache mo)
        → ((bh : ℕ) → daemon.daemon_height ≡ ok bh → bh < u64_mod)
        → IsWellFormed c
        → IsWellFormed (update mo daemon c).1
          × ((update mo daemon c).0 ≢ err panicked)
          × (length (update mo daemon c).1.blocks ≡ length c.blocks)
    update-IsWellFormed c small v = elim (Result-cases daemon.daemon_height) [
      | inl (x, e) ↦ rw (update_unknown mo daemon c x e) (v, λ q. cc, refl)
      | inr (bh, e) ↦
          rw (update_known mo daemon c bh e) (update_to-IsWellFormed bh c (small bh e) v)
    ]
