-- ===== src/Scanner/Update/Settle.antt =====
-- The totals that an update computes: the amount paid, and the height of full payment.
use xmrgateway.Prelude.{
  Option-cases, add64, ◌&&◌, option_is_none, ℕ, ◌+◌, ◌%◌, ◌≤◌, ◌<◌, ◌≡◌, ◌↔◌, ◌⊎◌, refl, ap, ◌∙◌,
  Bool, true, false, Option, none, some, List, [], ◌∷◌, leb, is_gt, u64_mod, All, if◌then◌else◌,
  arith, Bool-cases, inl, inr,
}
use xmrgateway.Invoice.{Transfer, cmp_by_height, Invoice}
use xmrgateway.Scanner.Update.{add_up, settle}

-- The sum of the amounts of a list of transfers.
abbrev pub total : List Transfer → ℕ
total [] = 0
total (t ∷ ts) = t.amount + total ts

abbrev covers : ℕ → Option ℕ → Bool
covers p none = false
covers p (some h) = leb h p

-- What the blocks up to a height have paid.
abbrev pub paid_by : ℕ → List Transfer → ℕ
paid_by p [] = 0
paid_by p (t ∷ ts) = if covers p t.height then t.amount + paid_by p ts else paid_by p ts

-- Oldest first, with those in the transaction pool at the end.
abbrev pub IsByHeight : List Transfer → Type 0
IsByHeight [] = Unit
IsByHeight (t ∷ ts) = All (λ u. is_gt (cmp_by_height t u) ≡ false) ts × IsByHeight ts

module _ (requested : ℕ) where
  add_up-amount :
      (paid : ℕ) (at : Option ℕ) (ts : List Transfer)
      → paid < u64_mod
      → (add_up requested (paid, at) ts).0 ≡ (paid + total ts) % u64_mod
  unfolding add_up
  add_up-amount paid at [] h = omega arith
  add_up-amount paid at (t ∷ ts) h = omega (
    arith,
    add_up-amount (add64 paid t.amount)
        (if leb requested (add64 paid t.amount) && option_is_none at then t.height else at) ts
        (omega arith),
  )

  -- Once set, the height of payment stays.
  add_up-sticky :
      (paid p : ℕ) (ts : List Transfer) → (add_up requested (paid, some p) ts).1 ≡ some p
  unfolding add_up
  add_up-sticky paid p [] = refl
  add_up-sticky paid p (t ∷ ts) = elim (Bool-cases (leb requested (add64 paid t.amount))) [
    | inl r ↦ rw r (add_up-sticky (add64 paid t.amount) p ts)
    | inr r ↦ rw r (add_up-sticky (add64 paid t.amount) p ts)
  ]

  -- Transfers that have no height set none.
  add_up-pool :
      (paid : ℕ) (ts : List Transfer)
      → All (λ t. t.height ≡ none) ts
      → (add_up requested (paid, none) ts).1 ≡ none
  unfolding add_up
  add_up-pool paid [] h = refl
  add_up-pool paid (t ∷ ts) h = elim (Bool-cases (leb requested (add64 paid t.amount))) [
    | inl r ↦ rw (r, h.0) (add_up-pool (add64 paid t.amount) ts h.1)
    | inr r ↦ rw r (add_up-pool (add64 paid t.amount) ts h.1)
  ]

  step_below :
      (paid : ℕ) (t : Transfer) (ts : List Transfer)
      → paid + t.amount < u64_mod
      → paid + t.amount < requested
      → add_up requested (paid, none) (t ∷ ts) ≡ add_up requested (paid + t.amount, none) ts
  unfolding add_up
  step_below paid t ts f h =
      let same : add64 paid t.amount ≡ paid + t.amount = omega arith in
      let below : leb requested (paid + t.amount) ≡ false = ground arith in rw (same, below)

  step_reach :
      (paid : ℕ) (t : Transfer) (ts : List Transfer)
      → paid + t.amount < u64_mod
      → requested ≤ paid + t.amount
      → add_up requested (paid, none) (t ∷ ts) ≡ add_up requested (paid + t.amount, t.height) ts
  unfolding add_up
  step_reach paid t ts f h =
      let same : add64 paid t.amount ≡ paid + t.amount = omega arith in
      let reached : leb requested (paid + t.amount) ≡ true = ground arith in rw (same, reached)

-- Behind a transfer in the pool there are only such.
pool_behind :
    (t : Transfer) (ts : List Transfer)
    → t.height ≡ none
    → All (λ u. is_gt (cmp_by_height t u) ≡ false) ts
    → All (λ u. u.height ≡ none) ts
unfolding cmp_by_height
pool_behind t [] e h = tt
pool_behind t (u ∷ us) e h = (ground arith, pool_behind t us e h.1)

paid_by-pool : (p : ℕ) (ts : List Transfer) → All (λ t. t.height ≡ none) ts → paid_by p ts ≡ 0
paid_by-pool p [] h = refl
paid_by-pool p (t ∷ ts) h = ground (arith, paid_by-pool p ts h.1)

-- Blocks below the first transfer's have paid nothing.
paid_by-early :
    (t : Transfer) (h q : ℕ) (ts : List Transfer)
    → t.height ≡ some h
    → q < h
    → All (λ u. is_gt (cmp_by_height t u) ≡ false) ts
    → paid_by q ts ≡ 0
unfolding cmp_by_height
paid_by-early t h q [] e lt o = refl
paid_by-early t h q (u ∷ us) e lt o = ground (arith, paid_by-early t h q us e lt o.1)

-- The height at which the blocks first reach an amount.
abbrev pub IsFirstHeight : ℕ → ℕ → List Transfer → ℕ → Type 0
IsFirstHeight requested paid ts p =
    (requested ≤ paid + paid_by p ts) × ((q : ℕ) → q < p → paid + paid_by q ts < requested)

module _ (requested : ℕ) where
  reached-first :
      (p paid : ℕ) (t : Transfer) (ts : List Transfer)
      → t.height ≡ some p
      → paid < requested
      → requested ≤ paid + t.amount
      → All (λ u. is_gt (cmp_by_height t u) ≡ false) ts
      → IsFirstHeight requested paid (t ∷ ts) p
  reached-first p paid t ts e h r o =
      (ground arith, λ q lt. ground (arith, paid_by-early t p q ts e lt o))

  first_unique :
      (p k paid : ℕ) (ts : List Transfer)
      → IsFirstHeight requested paid ts p
      → IsFirstHeight requested paid ts k
      → p ≡ k
  first_unique p k paid ts a b = ground (arith, a.1 k, b.1 p)

module _ (requested p : ℕ) where
  -- The cases of the loop's step: a transfer in the pool, a block that reaches the amount, a block
  -- that does not.
  step_cases :
      (paid : ℕ) (t : Transfer) (ts : List Transfer)
      → paid + t.amount < u64_mod
      → All (λ u. is_gt (cmp_by_height t u) ≡ false) ts
      → (All (λ u. u.height ≡ none) (t ∷ ts))
        ⊎ ((h : ℕ) × (t.height ≡ some h)
            × (requested ≤ paid + t.amount)
            × ((add_up requested (paid, none) (t ∷ ts)).1 ≡ some h))
        ⊎ ((h : ℕ) × (t.height ≡ some h)
            × (paid + t.amount < requested)
            × (add_up requested (paid, none) (t ∷ ts)
                ≡ add_up requested (paid + t.amount, none) ts))
  step_cases paid t ts f o = elim (Option-cases t.height) [
    | inl e ↦ inl (e, pool_behind t ts e o)
    | inr (h, e) ↦ elim (Bool-cases (leb requested (paid + t.amount))) [
      | inl r ↦ inr (
          inl (
            h,
            e,
            ground arith,
            rw (step_reach requested paid t ts f (ground arith), e)
                (add_up-sticky requested (paid + t.amount) h ts),
          ))
      | inr r ↦ inr (inr (h, e, ground arith, step_below requested paid t ts f (ground arith)))
    ]
  ]

  below-first :
      (paid k : ℕ) (t : Transfer) (ts : List Transfer)
      → t.height ≡ some k
      → paid + t.amount < requested
      → All (λ u. is_gt (cmp_by_height t u) ≡ false) ts
      → IsFirstHeight requested (paid + t.amount) ts p ↔ IsFirstHeight requested paid (t ∷ ts) p
  below-first paid k t ts e h o = (
    λ i. (
      ground (arith, paid_by-early t k p ts e),
      λ q lt. ground (arith, i.1 q, paid_by-early t k q ts e),
    ),
    λ i. (
      ground (arith, paid_by-early t k p ts e),
      λ q lt. ground (arith, i.1 q, i.1 k, paid_by-early t k q ts e),
    ),
  )

  paid_at-first :
      (paid : ℕ) (ts : List Transfer)
      → paid < requested
      → paid + total ts < u64_mod
      → IsByHeight ts
      → (add_up requested (paid, none) ts).1 ≡ some p
      → IsFirstHeight requested paid ts p
  paid_at-first paid [] h f o e = unfold add_up in cc
  paid_at-first paid (t ∷ ts) h f o e = elim (step_cases paid t ts (omega arith) o.0) [
    | inl pool ↦ cc (add_up-pool requested paid (t ∷ ts) pool)
    | inr (inl (k, at, reached, set)) ↦
        reached-first requested p paid t ts (ground arith) h reached o.0
    | inr (inr (k, at, below, step)) ↦
        (below-first paid k t ts at below o.0).0
          (paid_at-first (paid + t.amount) ts below (omega arith) o.1 (ground arith))
  ]

  first-paid_at :
      (paid : ℕ) (ts : List Transfer)
      → paid < requested
      → paid + total ts < u64_mod
      → IsByHeight ts
      → IsFirstHeight requested paid ts p
      → (add_up requested (paid, none) ts).1 ≡ some p
  first-paid_at paid [] h f o e = absurd (omega arith)
  first-paid_at paid (t ∷ ts) h f o e = elim (step_cases paid t ts (omega arith) o.0) [
    | inl pool ↦ absurd (omega (arith, paid_by-pool p (t ∷ ts) pool))
    | inr (inl (k, at, reached, set)) ↦
        set
        ∙ ap some (
            first_unique requested k p paid (t ∷ ts)
              (reached-first requested k paid t ts at h reached o.0) e)
    | inr (inr (k, at, below, step)) ↦
        ap (λ r. r.1) step
        ∙ first-paid_at (paid + t.amount) ts below (omega arith) o.1
            ((below-first paid k t ts at below o.0).1 e)
  ]

-- For transfers in order of height, whose amounts add up to less than 2^64, and a positive request,
-- the amount paid is their sum, and the height of payment is the first height by which the request
-- is covered, none if there is none.
pub settle_lem :
    (inv : Invoice)
    → 0 < inv.amount_requested
    → total inv.transfers < u64_mod
    → IsByHeight inv.transfers
    → ((settle inv).amount_paid ≡ total inv.transfers)
      × ((p : ℕ)
          → ((settle inv).paid_height ≡ some p)
            ↔ IsFirstHeight inv.amount_requested 0 inv.transfers p)
unfolding settle
settle_lem inv h f o = (
  omega (arith, add_up-amount inv.amount_requested 0 none inv.transfers),
  λ p. (
    paid_at-first inv.amount_requested p 0 inv.transfers h (omega arith) o,
    first-paid_at inv.amount_requested p 0 inv.transfers h (omega arith) o,
  ),
)
