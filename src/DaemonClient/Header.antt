-- ===== src/DaemonClient/Header.antt =====
-- library/src/monerod_client/authentication.rs: how the parameters of a header `WWW-AUTHENTICATE` are
-- split. A text is the list of the numbers of its characters.
use xmrgateway.Prelude.{ℕ, Bool, false, not, ◌&&◌, List, [], ◌∷◌, ◌++◌, nat_beq, if◌then◌else◌}
use xmrgateway.Std.Text.{Text, drop_while, trim}

-- `trim_start_matches(',').trim()`
abbrev pub clean : Text → Text
clean t = trim (drop_while (nat_beq 44) t)

-- The state of the loop of `split_header`; `piece` is the header from `last_split` up to the character
-- that comes next.
pub record Splitter : Type 0 where
  pub in_single_quote : Bool
  pub in_double_quote : Bool
  pub piece : Text

abbrev pub toggled : ℕ → ℕ → Bool → Bool
toggled quote c b = if nat_beq quote c then not b else b

-- A comma outside of quotes.
abbrev pub is_bare : Bool → Bool → ℕ → Bool
is_bare in_single in_double c = nat_beq 44 c && not in_single && not in_double

-- One character: the parts that it ends, and the state after it.
unfoldable pub split_step : ℕ → Splitter → List Text × Splitter
split_step c s =
    let ends = is_bare s.in_single_quote s.in_double_quote c in
    (
      if ends then clean s.piece ∷ [] else [],
      record {
        in_single_quote = toggled 39 c s.in_single_quote;
        in_double_quote = toggled 34 c s.in_double_quote;
        piece = if ends then c ∷ [] else s.piece ++ c ∷ [];
      },
    )

unfoldable pub split_from : Splitter → Text → List Text
split_from s [] = []
split_from s (c ∷ rest) =
    let (pushed, next) = split_step c s in
    let later = split_from next rest in
    pushed ++ elim rest [ [] ↦ clean next.piece ∷ [] | _ ∷ _ ↦ later ]

abbrev pub split_header : Text → List Text
split_header header =
    split_from (record { in_single_quote = false; in_double_quote = false; piece = [] }) header
