-- ===== src/Tests/DaemonClients.antt =====
-- library/src/monerod_client/authentication.rs on a header whose realm holds a comma.
use xmrgateway.Prelude.{◌≡◌, refl, true, [], ◌∷◌, ◌++◌, arith}
use xmrgateway.Std.Text.{Text, is_whitespace, drop_while, trim}
use xmrgateway.DaemonClient.Header.{split_header, split_from, split_step}
use xmrgateway.DaemonClient.Parts.{IsPart, quotes, split_header_lem}

-- `qop=a`
abbrev qop_part : Text
qop_part = 113 ∷ 111 ∷ 112 ∷ 61 ∷ 97 ∷ []

-- `realm="a,b"`
abbrev realm_part : Text
realm_part = 114 ∷ 101 ∷ 97 ∷ 108 ∷ 109 ∷ 61 ∷ 34 ∷ 97 ∷ 44 ∷ 98 ∷ 34 ∷ []

qop_part-IsPart : IsPart qop_part
unfolding quotes trim drop_while is_whitespace
qop_part-IsPart = record { closed = refl; trimmed = refl }

realm_part-IsPart : IsPart realm_part
unfolding quotes trim drop_while is_whitespace
realm_part-IsPart = record { closed = refl; trimmed = refl }

blank-is_whitespace : is_whitespace 32 ≡ true
unfolding is_whitespace
blank-is_whitespace = refl

split_header_lem_example :
    split_header (qop_part ++ 44 ∷ 32 ∷ realm_part) ≡ qop_part ∷ realm_part ∷ []
split_header_lem_example =
    split_header_lem qop_part ((32 ∷ [], realm_part) ∷ []) qop_part-IsPart
      (((blank-is_whitespace, tt), realm_part-IsPart), tt) (λ e. ground arith)

-- A quote that stays open keeps the commas after it.
open_quote : split_header (34 ∷ 97 ∷ 44 ∷ 98 ∷ []) ≡ (34 ∷ 97 ∷ 44 ∷ 98 ∷ []) ∷ []
unfolding split_from split_step trim drop_while is_whitespace
open_quote = refl

-- An apostrophe between double quotes keeps the commas after them as well.
apostrophe : split_header (34 ∷ 39 ∷ 34 ∷ 44 ∷ 98 ∷ []) ≡ (34 ∷ 39 ∷ 34 ∷ 44 ∷ 98 ∷ []) ∷ []
unfolding split_from split_step trim drop_while is_whitespace
apostrophe = refl
