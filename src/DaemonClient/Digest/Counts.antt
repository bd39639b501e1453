-- ===== src/DaemonClient/Digest/Counts.antt =====
-- library/src/monerod_client/authentication.rs: the nonce count of successive requests.
use xmrgateway.Prelude.{
  ℕ, zero, suc, ◌+◌, ◌-◌, ◌*◌, ◌/◌, ◌%◌, ◌^◌, ◌<◌, ◌≡◌, ◌≢◌, refl, sym, ap, ◌∙◌, u32_mod, some,
  List, [], ◌∷◌, ◌++◌, length, ok, ◌>>=◌, arith, ltb, if◌then◌else◌,
}
use xmrgateway.Std.Text.{Text, hex_padded, hex_digit}
use xmrgateway.DaemonClient.Challenge.{AuthParams, Qop, max_qop}
use xmrgateway.DaemonClient.Digest.{Crypto, AuthInfo, header_text, header_value, authenticate}

abbrev digit_value : ℕ → ℕ
digit_value c = if ltb c 97 then c - 48 else c - 87

value_from : ℕ → Text → ℕ
value_from acc [] = acc
value_from acc (c ∷ t) = value_from (acc * 16 + digit_value c) t

digit_value-hex_digit : (n : ℕ) → n < 16 → digit_value (hex_digit n) ≡ n
digit_value-hex_digit n h = ground arith

value_from-append :
    (acc : ℕ) (t : Text) (c : ℕ)
    → value_from acc (t ++ c ∷ []) ≡ value_from acc t * 16 + digit_value c
unfolding value_from
value_from-append acc [] c = refl
value_from-append acc (d ∷ t) c = value_from-append (acc * 16 + digit_value d) t c

-- The digits are read back, if there are enough of them.
value_from-hex_padded : (width n : ℕ) → n < 16 ^ width → value_from 0 (hex_padded width n) ≡ n
unfolding hex_padded value_from
value_from-hex_padded zero n h = omega arith
value_from-hex_padded (suc width) n h =
    let small : n / 16 < 16 ^ width = omega arith in
    value_from-append 0 (hex_padded width (n / 16)) (hex_digit (n % 16))
    ∙ omega (arith, value_from-hex_padded width (n / 16) small, digit_value-hex_digit (n % 16))

hex_padded-ne : (m n : ℕ) → m < n → n < u32_mod → hex_padded 8 m ≢ hex_padded 8 n
hex_padded-ne m n less h same =
    let back : m ≡ n =
      sym (value_from-hex_padded 8 m (omega arith))
      ∙ ap (value_from 0) same
      ∙ value_from-hex_padded 8 n (omega arith) in
    absurd (omega arith)

module _ {R : Type 0} (crypto : Crypto R) where
  -- The state after requests with these paths and methods.
  abbrev pub afterwards : List (Text × Text) → AuthInfo R → AuthInfo R
  afterwards [] a = a
  afterwards ((path, method) ∷ calls) a = afterwards calls (authenticate crypto path method a).1

  stepped :
      (path method : Text) (a : AuthInfo R) (p : AuthParams) (qop : Qop)
      → a.last_auth_params ≡ some p
      → max_qop p.qop ≡ some qop
      → authenticate crypto path method a ≡ (
        header_value crypto (
              header_text crypto a p qop path method (hex_padded 8 a.counter) (crypto.fill a.rng).0)
            >>= λ t. ok (some t),
        record a { counter = (a.counter + 1) % u32_mod; rng = (crypto.fill a.rng).1 },
      )
  unfolding authenticate
  stepped path method a p qop e f = ground arith

  record IsAfter (a : AuthInfo R) (n : ℕ) (b : AuthInfo R) : Type 0 where
    username : b.username ≡ a.username
    password : b.password ≡ a.password
    counter : b.counter ≡ a.counter + n
    params : b.last_auth_params ≡ a.last_auth_params

  afterwards-IsAfter :
      (calls : List (Text × Text)) (a : AuthInfo R) (p : AuthParams) (qop : Qop)
      → a.last_auth_params ≡ some p
      → max_qop p.qop ≡ some qop
      → a.counter + length calls < u32_mod
      → IsAfter a (length calls) (afterwards calls a)
  afterwards-IsAfter [] a p qop e f h = record {
    username = refl;
    password = refl;
    counter = omega arith;
    params = refl;
  }
  afterwards-IsAfter ((path, method) ∷ calls) a p qop e f h =
      let s = stepped path method a p qop e f in
      let one : IsAfter a 1 (authenticate crypto path method a).1 = record {
        username = ap (λ x. x.1.username) s;
        password = ap (λ x. x.1.password) s;
        counter = ap (λ x. x.1.counter) s ∙ omega arith;
        params = ap (λ x. x.1.last_auth_params) s;
      } in
      let later =
        afterwards-IsAfter calls (authenticate crypto path method a).1 p qop (one.params ∙ e) f
          (omega (arith, one.counter)) in
      record {
        username = later.username ∙ one.username;
        password = later.password ∙ one.password;
        counter = omega (arith, later.counter, one.counter);
        params = later.params ∙ one.params;
      }

  -- After any requests under a challenge that has a quality of protection, as long as the count of
  -- the next one fits 32 bits: the next request has the header of that challenge with that count,
  -- or fails if this is no value of a header; and no smaller count has the same text.
  pub authenticate_lem :
      (calls : List (Text × Text)) (path method : Text) (a : AuthInfo R) (p : AuthParams)
      (qop : Qop) (n : ℕ)
      → a.last_auth_params ≡ some p
      → max_qop p.qop ≡ some qop
      → a.counter + length calls < u32_mod
      → n < a.counter + length calls
      → ((authenticate crypto path method (afterwards calls a)).0
          ≡ header_value crypto (
              header_text crypto a p qop path method
                (hex_padded 8 (a.counter + length calls))
                (crypto.fill (afterwards calls a).rng).0)
            >>= λ t. ok (some t))
        × (hex_padded 8 n ≢ hex_padded 8 (a.counter + length calls))
  unfolding header_text
  authenticate_lem calls path method a p qop n e f h less =
      let b = afterwards calls a in
      let same = afterwards-IsAfter calls a p qop e f h in
      (
        ap (λ x. x.0) (stepped path method b p qop (same.params ∙ e) f)
            ∙ rw (same.username, same.password, same.counter) refl,
        hex_padded-ne n (a.counter + length calls) less h,
      )
