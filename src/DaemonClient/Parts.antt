-- ===== src/DaemonClient/Parts.antt =====
-- library/src/monerod_client/authentication.rs: splitting a header of several parts gives the parts.
use xmrgateway.Prelude.{
  ℕ, ◌≡◌, ◌≢◌, refl, sym, ap, subst, ◌∙◌, Bool, true, false, Option, none, some, List, [], ◌∷◌,
  ◌++◌, map, All, nat_beq, Bool-cases, inl, inr, arith, if◌then◌else◌,
}
use mathlib.Core.Option.{some-injective}
use mathlib.Core.List.{append_assoc, append-nil, reverse}
use xmrgateway.Std.Text.{Text, is_whitespace, drop_while, trim}
use xmrgateway.DaemonClient.Header.{
  clean, Splitter, toggled, is_bare, split_step, split_from, split_header,
}

-- What the quotes of a text make of those before it; nothing where a comma stands outside of quotes.
unfoldable pub quotes : Bool → Bool → Text → Option (Bool × Bool)
quotes single double [] = some (single, double)
quotes single double (c ∷ rest) =
    let later = quotes (toggled 39 c single) (toggled 34 c double) rest in
    if is_bare single double c then none else later

-- A part: no comma outside of quotes, all quotes closed, and no blanks at its ends.
pub record IsPart (t : Text) : Type 0 where
  pub closed : quotes false false t ≡ some (false, false)
  pub trimmed : trim t ≡ t

-- The parts after a first one, each with the blanks before it.
abbrev pub joined : Text → List (Text × Text) → Text
joined first [] = first
joined first ((blanks, part) ∷ more) = first ++ (44 ∷ (blanks ++ joined part more))

abbrev until_now : Splitter → Text → List Text
until_now s [] = clean s.piece ∷ []
until_now s (c ∷ rest) = split_from s (c ∷ rest)

none-ne-some : {x : Bool × Bool} → none ≢ some x
none-ne-some e = ground arith

stepped :
    (c : ℕ) (rest : Text) (s : Splitter)
    → split_from s (c ∷ rest) ≡ (split_step c s).0 ++ until_now (split_step c s).1 rest
unfolding split_from
stepped c [] s = refl
stepped c (d ∷ rest) s = refl

quotes-cons :
    (single double : Bool) (c : ℕ) (rest : Text) {r : Bool × Bool}
    → quotes single double (c ∷ rest) ≡ some r
    → (is_bare single double c ≡ false)
      × (quotes (toggled 39 c single) (toggled 34 c double) rest ≡ some r)
unfolding quotes
quotes-cons single double c rest {r} e =
    let decided : (b : Bool) → is_bare single double c ≡ b → chosen b ≡ some r =
      (λ b f. subst (λ x. chosen x ≡ some r) f e) in
    elim (Bool-cases (is_bare single double c)) [
      | inl bare ↦ absurd (none-ne-some (decided true bare))
      | inr f ↦ (f, decided false f)
    ]
  where
    chosen : Bool → Option (Bool × Bool)
    chosen b = if b then none else quotes (toggled 39 c single) (toggled 34 c double) rest

abbrev with_piece : Bool × Bool → Text → Splitter
with_piece q piece = record { in_single_quote = q.0; in_double_quote = q.1; piece = piece }

-- A text without a comma outside of quotes is added to the piece.
taken :
    (t rest : Text) (q : Bool × Bool) (piece : Text) {r : Bool × Bool}
    → quotes q.0 q.1 t ≡ some r
    → until_now (with_piece q piece) (t ++ rest) ≡ until_now (with_piece r (piece ++ t)) rest
unfolding quotes split_step
taken [] rest q piece h =
    rw (append-nil piece) (ap (λ x. until_now (with_piece x piece) rest) (some-injective _ _ h))
taken (c ∷ t) rest q piece {r} h =
    let (f, h') = quotes-cons q.0 q.1 c t h in
    stepped c (t ++ rest) (with_piece q piece)
    ∙ passed c (t ++ rest) q piece f
    ∙ taken t rest (toggled 39 c q.0, toggled 34 c q.1) (piece ++ c ∷ []) h'
    ∙ ap (λ x. until_now (with_piece r x) rest) (append_assoc piece (c ∷ []) t)
  where
    passed :
        (c : ℕ) (rest : Text) (q : Bool × Bool) (piece : Text)
        → is_bare q.0 q.1 c ≡ false
        → (split_step c (with_piece q piece)).0
            ++ until_now (split_step c (with_piece q piece)).1 rest
          ≡ until_now (with_piece (toggled 39 c q.0, toggled 34 c q.1) (piece ++ c ∷ [])) rest
    passed c rest q piece f =
        ap
          (λ b.
            (if b then clean piece ∷ [] else [])
            ++ until_now
                (with_piece (toggled 39 c q.0, toggled 34 c q.1)
                  (if b then c ∷ [] else piece ++ c ∷ []))
                rest)
          f

whitespace-past :
    (c : ℕ)
    → is_whitespace c ≡ true
    → (nat_beq 39 c ≡ false) × (nat_beq 34 c ≡ false) × (nat_beq 44 c ≡ false)
unfolding is_whitespace
whitespace-past c h = ground arith

-- Blanks open and close no quotes.
quotes-blanks :
    (blanks : Text)
    → All (λ c. is_whitespace c ≡ true) blanks
    → quotes false false blanks ≡ some (false, false)
unfolding quotes
quotes-blanks [] h = refl
quotes-blanks (c ∷ rest) h =
    let (single, double, comma) = whitespace-past c h.0 in
    rw (single, double, comma) (quotes-blanks rest h.1)

drop_while-blanks :
    (blanks t : Text)
    → All (λ c. is_whitespace c ≡ true) blanks
    → drop_while is_whitespace (blanks ++ t) ≡ drop_while is_whitespace t
unfolding drop_while
drop_while-blanks [] t h = refl
drop_while-blanks (c ∷ rest) t h = rw (h.0) (drop_while-blanks rest t h.1)

bare-comma : (c : ℕ) → is_bare false false c ≡ false → nat_beq 44 c ≡ false
bare-comma c h = ground arith

-- A part starts with no comma, whatever blanks stand before it.
drop_commas :
    (blanks t : Text)
    → All (λ c. is_whitespace c ≡ true) blanks
    → quotes false false t ≡ some (false, false)
    → drop_while (nat_beq 44) (blanks ++ t) ≡ blanks ++ t
unfolding drop_while
drop_commas [] [] h k = refl
drop_commas [] (c ∷ t) h k =
    let no_comma : nat_beq 44 c ≡ false = bare-comma c (quotes-cons false false c t k).0 in
    rw no_comma refl
drop_commas (c ∷ rest) t h k = rw ((whitespace-past c h.0).2) refl

trim-blanks :
    (blanks t : Text) → All (λ c. is_whitespace c ≡ true) blanks → trim (blanks ++ t) ≡ trim t
unfolding trim
trim-blanks blanks t h =
    ap (λ x. reverse (drop_while is_whitespace (reverse x))) (drop_while-blanks blanks t h)

clean-part :
    (blanks t : Text)
    → All (λ c. is_whitespace c ≡ true) blanks
    → IsPart t
    → (clean (blanks ++ t) ≡ t) × (clean (44 ∷ (blanks ++ t)) ≡ t)
unfolding drop_while
clean-part blanks t h k =
    let alone : clean (blanks ++ t) ≡ t =
      ap trim (drop_commas blanks t h k.closed) ∙ trim-blanks blanks t h ∙ k.trimmed in
    (alone, alone)

abbrev pub IsNext : Text × Text → Type 0
IsNext (blanks, part) = All (λ c. is_whitespace c ≡ true) blanks × IsPart part

-- The loop from a piece that a part completes to one that is clean.
split :
    (first : Text) (more : List (Text × Text)) (piece : Text)
    → IsPart first
    → clean (piece ++ first) ≡ first
    → All IsNext more
    → until_now (with_piece (false, false) piece) (joined first more) ≡ first ∷ map (λ m. m.1) more
unfolding split_step
split first [] piece k e h =
    ap (until_now (with_piece (false, false) piece)) (sym (append-nil first))
    ∙ taken first [] (false, false) piece k.closed
    ∙ ap (λ x. x ∷ []) e
split first ((blanks, part) ∷ more) piece k e h =
    let rest : Text = blanks ++ joined part more in
    let tail : until_now (with_piece (false, false) (44 ∷ [])) rest ≡ part ∷ map (λ m. m.1) more =
      (taken blanks (joined part more) (false, false) (44 ∷ []) (quotes-blanks blanks h.0.0)
        ∙ split part more (44 ∷ blanks) h.0.1 (clean-part blanks part h.0.0 h.0.1).1 h.1) in
    let after : until_now (with_piece (false, false) (piece ++ first)) (44 ∷ rest)
        ≡ clean (piece ++ first) ∷ until_now (with_piece (false, false) (44 ∷ [])) rest =
      stepped 44 rest (with_piece (false, false) (piece ++ first)) in
    let through : until_now (with_piece (false, false) piece) (joined first ((blanks, part) ∷ more))
        ≡ until_now (with_piece (false, false) (piece ++ first)) (44 ∷ rest) =
      taken first (44 ∷ rest) (false, false) piece k.closed in
    let whole : clean (piece ++ first) ∷ until_now (with_piece (false, false) (44 ∷ [])) rest
        ≡ first ∷ part ∷ map (λ m. m.1) more =
      ap (λ x. x ∷ until_now (with_piece (false, false) (44 ∷ [])) rest) e
      ∙ ap (λ x. first ∷ x) tail in
    through ∙ after ∙ whole

-- A header that is not empty, of parts that have no comma outside of quotes, close their quotes and
-- have no blanks at their ends, with a comma and any blanks between one and the next, is split into
-- the parts.
pub split_header_lem :
    (first : Text) (more : List (Text × Text))
    → IsPart first
    → All IsNext more
    → joined first more ≢ []
    → split_header (joined first more) ≡ first ∷ map (λ m. m.1) more
split_header_lem first more k h some_text =
    sym (same (joined first more) some_text) ∙ split first more [] k (clean-part [] first tt k).0 h
  where
    same : (t : Text) → t ≢ [] → until_now (with_piece (false, false) []) t ≡ split_header t
    same [] e = absurd (e refl)
    same (c ∷ t) e = refl
