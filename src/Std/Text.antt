-- ===== src/Std/Text.antt =====
-- What the source uses of the standard library's `str`. A text is the list of its characters' numbers.
use Prim.Native.Char.{code}
use xmrgateway.Prelude.{
  ℕ, zero, suc, ◌+◌, ◌-◌, ◌/◌, ◌%◌, String, Bool, true, false, ◌&&◌, ◌||◌, Option, none, some, List,
  [], ◌∷◌, ◌++◌, nat_beq, leb, ltb, length, if◌then◌else◌,
}
use mathlib.Core.List.{reverse}

abbrev pub Text : Type 0
Text = List ℕ

abbrev pub codes : String → Text
codes String.[] = []
codes (String.◌∷◌ c s) = code c ∷ codes s

-- Unicode's White_Space.
unfoldable pub is_whitespace : ℕ → Bool
is_whitespace c =
    (leb 9 c && leb c 13)
    || nat_beq c 32
    || nat_beq c 133
    || nat_beq c 160
    || nat_beq c 5760
    || (leb 8192 c && leb c 8202)
    || nat_beq c 8232
    || nat_beq c 8233
    || nat_beq c 8239
    || nat_beq c 8287
    || nat_beq c 12288

-- `trim_start_matches`
unfoldable pub drop_while : (ℕ → Bool) → Text → Text
drop_while f [] = []
drop_while f (c ∷ rest) = let later = drop_while f rest in if f c then later else c ∷ rest

-- `trim_end_matches`
unfoldable pub drop_end : (ℕ → Bool) → Text → Text
unfolding drop_while
drop_end f t = reverse (drop_while f (reverse t))

unfoldable pub trim : Text → Text
trim t = reverse (drop_while is_whitespace (reverse (drop_while is_whitespace t)))

-- `strip_prefix`: what follows the prefix, if the text starts with it.
unfoldable pub strip_prefix : Text → Text → Option Text
strip_prefix [] t = some t
strip_prefix (p ∷ ps) [] = none
strip_prefix (p ∷ ps) (c ∷ t) = let rest = strip_prefix ps t in if nat_beq p c then rest else none

abbrev pub starts_with : Text → Text → Bool
starts_with p t = elim (strip_prefix p t) [ none ↦ false | some rest ↦ true ]

-- `replace(needle, "")` for a needle that is not empty; a number of characters is still to be left out.
unfoldable pub leave_out : Text → ℕ → Text → Text
unfolding strip_prefix
leave_out needle skip [] = []
leave_out needle (suc skip) (c ∷ t) = leave_out needle skip t
leave_out needle zero (c ∷ t) =
    let kept = leave_out needle 0 t in
    let left = leave_out needle (length needle - 1) t in
    if starts_with needle (c ∷ t) then left else c ∷ kept

-- `split`, at a character.
unfoldable pub split_at : ℕ → Text → Text → List Text
split_at sep piece [] = piece ∷ []
split_at sep piece (c ∷ t) =
    let next = split_at sep [] t in
    let same = split_at sep (piece ++ c ∷ []) t in if nat_beq c sep then piece ∷ next else same

-- `{:0width x}`: the last digits to the base 16, in lower case.
abbrev pub hex_digit : ℕ → ℕ
hex_digit n = if ltb n 10 then n + 48 else n + 87

unfoldable pub hex_padded : ℕ → ℕ → Text
hex_padded zero n = []
hex_padded (suc width) n = hex_padded width (n / 16) ++ hex_digit (n % 16) ∷ []
