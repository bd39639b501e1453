-- ===== src/Prelude/Results.antt =====
-- Rust's `Result`, with `?` as the bind.
use xmrgateway.Prelude.Lists.{All}
use mathlib.Core.Logic.{◌⊎◌, ◌≢◌, inl, inr}
use native.Mathlib.Omega.{arith}
use mathlib.Core.Path.{◌≡◌, refl, sym, subst}
use mathlib.Core.List.{List, [], ◌∷◌}

pub data Result {ℓ κ} (E : Type κ) (A : Type ℓ) : Type (ℓ ⊔ κ) where
  ok : A → Result E A
  err : E → Result E A

infixl 10 ◌>>=◌
abbrev pub ◌>>=◌ {ℓ κ ι} :
    {E : Type κ} {A : Type ℓ} {B : Type ι} → Result E A → (A → Result E B) → Result E B
ok a >>= f = f a
err e >>= f = err e

pub Result-cases {ℓ κ} :
    {E : Type κ} {A : Type ℓ} (r : Result E A) → ((e : E) × (r ≡ err e)) ⊎ ((a : A) × (r ≡ ok a))
Result-cases (ok a) = inr (a, refl)
Result-cases (err e) = inl (e, refl)

module _ {ℓ κ} {E : Type κ} {A : Type ℓ} where
  pub ok-injective : (a b : A) → ◌≡◌ {A = Result E A} (ok a) (ok b) → a ≡ b
  ok-injective a b p = ground arith

  pub err-ne-ok : (e : E) (a : A) → ◌≢◌ {A = Result E A} (err e) (ok a)
  err-ne-ok e a p = ground arith

  pub err-injective : (e f : E) → ◌≡◌ {A = Result E A} (err e) (err f) → e ≡ f
  err-injective e f p = ground arith

-- `map(f).collect::<Result<Vec<_>, _>>()`: the first error ends it.
unfoldable pub try_map {ℓ κ ι} :
    {E : Type κ} {A : Type ℓ} {B : Type ι} → (A → Result E B) → List A → Result E (List B)
try_map f [] = ok []
try_map f (x ∷ xs) = let rest = try_map f xs in f x >>= λ b. rest >>= λ bs. ok (b ∷ bs)

module _ {ℓ κ ι} {E : Type κ} {A : Type ℓ} {B : Type ι} where
  -- What a chain that succeeds has gone through.
  pub bind_inversion :
      (m : Result E A) (rest : A → Result E B) {b : B}
      → ok b ≡ (m >>= rest)
      → (a : A) × (m ≡ ok a) × (rest a ≡ ok b)
  bind_inversion (err e) rest h = absurd (err-ne-ok e _ (sym h))
  bind_inversion (ok a) rest h = (a, refl, sym h)

module _ {ℓ κ ι} {E : Type κ} {A : Type ℓ} {B : Type ι} (f : A → Result E B) where
  pub try_map-cons :
      (x : A) (xs : List A) {bs : List B}
      → try_map f (x ∷ xs) ≡ ok bs
      → (b : B) × (rest : List B) × (f x ≡ ok b) × (try_map f xs ≡ ok rest) × (b ∷ rest ≡ bs)
  unfolding try_map
  try_map-cons x xs h =
      let (b, first, h') = bind_inversion (f x) _ (sym h) in
      let (rest, others, h'') = bind_inversion (try_map f xs) _ (sym h') in
      (b, rest, first, others, ok-injective _ _ h'')

  -- What every result of the function has, every result of the list has.
  pub try_map-All {μ} :
      (P : B → Type μ)
      → ((x : A) (b : B) → f x ≡ ok b → P b)
      → (xs : List A) {bs : List B} → try_map f xs ≡ ok bs
      → All P bs
  unfolding try_map
  try_map-All P each [] h = subst (All P) (ok-injective _ _ h) tt
  try_map-All P each (x ∷ xs) h =
      let (b, rest, first, others, same) = try_map-cons x xs h in
      subst (All P) same (each x b first, try_map-All P each xs others)
