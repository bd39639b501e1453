-- ===== src/DaemonClient/Digest.antt =====
-- library/src/monerod_client/authentication.rs: `AuthInfo`, which answers challenges.
pub mod Counts
pub mod Choice
use Prim.Native.Nat.{Ordering}
use xmrgateway.Prelude.{
  ℕ, ◌+◌, ◌%◌, u32_mod, Bool, Option, none, some, List, [], ◌∷◌, ◌++◌, if◌then◌else◌, Result, ok,
  err, try_map, ◌>>=◌, All, ◌≡◌, ◌≢◌, ◌↔◌,
}
use xmrgateway.Std.Text.{Text, codes, strip_prefix, hex_padded}
use xmrgateway.DaemonClient.Challenge.{
  AuthParams, AuthError, invalid_header, header_construction, unsupported, Qop, auth, max_qop,
  Algorithm, md5, md5_sess, is_sess, cmp_auth_params, parse_header,
}

-- The crates md-5, hex, rand and hyper: the digest of a text in hexadecimal, bytes in hexadecimal, the
-- next sixteen bytes of the generator, and whether a text may be the value of a header.
pub record Crypto (R : Type 0) : Type 0 where
  pub md5_str : Text → Text
  pub hex_encode : List ℕ → Text
  pub fill : R → List ℕ × R
  pub is_header_value : Text → Bool

-- No challenge is better than a later one.
abbrev pub IsSorted : List AuthParams → Type 0
IsSorted [] = Unit {0}
IsSorted (p ∷ ps) = All (λ q. cmp_auth_params p q ≢ Ordering.gt) ps × IsSorted ps

-- `sort_unstable` of the standard library: the same elements, in order. It is not specified in which
-- order equally good ones come.
pub record Sort : Type 1 where
  pub sort_unstable : List AuthParams → List AuthParams
  pub sort_unstable-All :
      (P : AuthParams → Type 0) (ps : List AuthParams) → All P ps ↔ All P (sort_unstable ps)
  pub sort_unstable-IsSorted : (ps : List AuthParams) → IsSorted (sort_unstable ps)

abbrev pub last : List AuthParams → Option AuthParams
last [] = none
last (p ∷ []) = some p
last (p ∷ q ∷ ps) = last (q ∷ ps)

pub record AuthInfo (R : Type 0) : Type 0 where
  pub username : Text
  pub password : Text
  pub counter : ℕ
  pub last_auth_params : Option AuthParams
  pub rng : R

-- `AuthInfo::new`, for a generator that is seeded.
abbrev pub auth_info_new : {R : Type 0} → Text → Text → R → AuthInfo R
auth_info_new username password rng = record {
  username = username;
  password = password;
  counter = 1;
  last_auth_params = none;
  rng = rng;
}

-- `Display` of `Qop` and `Algorithm`.
abbrev qop_text : Qop → Text
qop_text auth = codes "auth"

abbrev algorithm_text : Algorithm → Text
algorithm_text md5 = codes "MD5"
algorithm_text md5_sess = codes "MD5-sess"

abbrev with_colons : Text → List Text → Text
with_colons first [] = first
with_colons first (t ∷ rest) = first ++ (b':' ∷ with_colons t rest)

abbrev quoted : Text → Text
quoted t = b'"' ∷ (t ++ b'"' ∷ [])

abbrev opaque_text : Option Text → Text
opaque_text none = []
opaque_text (some t) = codes ", opaque=" ++ t

module _ {R : Type 0} (crypto : Crypto R) where
  -- The text of the header, from the path with its query on.
  unfoldable pub header_text : AuthInfo R → AuthParams → Qop → Text → Text → Text → List ℕ → Text
  header_text a p qop path method nc cnonce_bytes =
      let cnonce = crypto.hex_encode cnonce_bytes in
      let login = crypto.md5_str (with_colons a.username (p.realm ∷ a.password ∷ [])) in
      let ha1 =
        if is_sess p.algorithm
        then crypto.md5_str (with_colons login (p.nonce ∷ cnonce ∷ []))
        else login in
      let ha2 = crypto.md5_str (with_colons method (path ∷ [])) in
      let response =
        crypto.md5_str (with_colons ha1 (p.nonce ∷ nc ∷ cnonce ∷ qop_text qop ∷ ha2 ∷ [])) in
      codes "Digest username="
      ++ (quoted a.username
          ++ (codes ", realm="
              ++ (quoted p.realm
                  ++ (codes ", nonce="
                      ++ (quoted p.nonce
                          ++ (codes ", uri="
                              ++ (quoted path
                                  ++ (codes ", qop="
                                      ++ (qop_text qop
                                          ++ (codes ", nc="
                                              ++ (nc
                                                  ++ (codes ", cnonce="
                                                      ++ (quoted cnonce
                                                          ++ (codes ", response="
                                                            ++ (quoted response
                                                            ++ (codes ", algorithm="
                                                            ++ (algorithm_text p.algorithm
                                                            ++ opaque_text p.opaque)))))))))))))))))

  -- `HeaderValue::from_str`
  abbrev pub header_value : Text → Result AuthError Text
  header_value t = if crypto.is_header_value t then ok t else err header_construction

  -- The path stands for `uri`, of which nothing else is read.
  unfoldable pub authenticate :
      Text → Text → AuthInfo R → Result AuthError (Option Text) × AuthInfo R
  authenticate path method a = elim a.last_auth_params [
    | none ↦ (ok none, a)
    | some p ↦
        let (cnonce_bytes, rng) = crypto.fill a.rng in
        elim (max_qop p.qop) [
          | none ↦ (err unsupported, record a { rng = rng })
          | some qop ↦ (
            header_value (header_text a p qop path method (hex_padded 8 a.counter) cnonce_bytes)
                >>= λ t. ok (some t),
            record a { counter = (a.counter + 1) % u32_mod; rng = rng },
          )
        ]
  ]

  abbrev pub to_str : Option Text → Result AuthError Text
  to_str none = err (invalid_header (codes "header could not be parsed to String"))
  to_str (some t) = ok t

  abbrev pub digest_headers : List Text → List Text
  digest_headers [] = []
  digest_headers (h ∷ rest) = elim (strip_prefix (codes "Digest ") h) [
    | none ↦ digest_headers rest
    | some t ↦ t ∷ digest_headers rest
  ]

  -- The challenges among the headers `WWW-AUTHENTICATE`, of which nothing is one that is no text.
  unfoldable pub auth_choices : List (Option Text) → Result AuthError (List AuthParams)
  auth_choices headers =
      try_map to_str headers >>= λ texts. try_map parse_header (digest_headers texts)

  abbrev pub some_header : Result AuthError (Option Text) → Result AuthError Text
  some_header (err e) = err e
  some_header (ok none) = err unsupported
  some_header (ok (some t)) = ok t

  unfoldable pub authenticate_with_resp :
      Sort → List (Option Text) → Text → Text → AuthInfo R → Result AuthError Text × AuthInfo R
  unfolding authenticate
  authenticate_with_resp b headers path method a = elim (auth_choices headers) [
    | err e ↦ (err e, a)
    | ok choices ↦ elim (last (b.sort_unstable choices)) [
      | none ↦ (err unsupported, a)
      | some p ↦
          let (result, a') =
            authenticate path method (record a { last_auth_params = some p; counter = 1 }) in
          (some_header result, a')
    ]
  ]
