-- ===== src/DaemonClient/Challenge.antt =====
-- library/src/monerod_client/authentication.rs: what a challenge in a header `WWW-AUTHENTICATE` says.
use Prim.Native.Nat.{compare, Ordering}
use xmrgateway.Prelude.{
  ℕ, Bool, true, false, Option, none, some, List, [], ◌∷◌, ◌++◌, String, nat_beq, if◌then◌else◌,
  Result, ok, err, try_map, ◌>>=◌,
}
use xmrgateway.Std.Text.{
  Text, codes, drop_while, drop_end, trim, strip_prefix, starts_with, leave_out, split_at,
}
use xmrgateway.DaemonClient.Header.{split_header}

pub data Qop : Type 0 where
  auth : Qop

pub data Algorithm : Type 0 where
  md5 : Algorithm
  md5_sess : Algorithm

pub record AuthParams : Type 0 where
  pub realm : Text
  pub qop : List Qop
  pub algorithm : Algorithm
  pub nonce : Text
  pub opaque : Option Text

pub data AuthError : Type 0 where
  unauthorized : AuthError
  invalid_header : Text → AuthError
  header_construction : AuthError
  unsupported : AuthError

abbrev pub is_sess : Algorithm → Bool
is_sess md5 = false
is_sess md5_sess = true

-- The derived order, by the place among the constructors.
abbrev pub rank : Algorithm → ℕ
rank md5 = 0
rank md5_sess = 1

-- `qop.iter().max()`
abbrev pub max_qop : List Qop → Option Qop
max_qop [] = none
max_qop (auth ∷ rest) = some auth

abbrev pub cmp_max_qop : Option Qop → Option Qop → Ordering
cmp_max_qop none none = Ordering.eq
cmp_max_qop none (some q) = Ordering.lt
cmp_max_qop (some q) none = Ordering.gt
cmp_max_qop (some auth) (some auth) = Ordering.eq

-- `Ord for AuthParams`
unfoldable pub cmp_auth_params : AuthParams → AuthParams → Ordering
cmp_auth_params a b = elim (cmp_max_qop (max_qop a.qop) (max_qop b.qop)) [
  | Ordering.eq ↦ compare (rank a.algorithm) (rank b.algorithm)
  | Ordering.lt ↦ Ordering.lt
  | Ordering.gt ↦ Ordering.gt
]

unfoldable pub find_string_value : List Text → Text → Option Text
unfolding leave_out drop_while drop_end strip_prefix
find_string_value [] field = none
find_string_value (p ∷ parts) field =
    let rest = find_string_value parts field in
    if starts_with field p
    then some
        (drop_end (nat_beq b'"') (drop_while (nat_beq b'"') (leave_out (field ++ codes "=") 0 p)))
    else rest

abbrev pub or_empty : Option Text → Text
or_empty none = []
or_empty (some t) = t

abbrev is_text : Text → String → Bool
is_text t s = elim (strip_prefix (codes s) t) [ some [] ↦ true | _ ↦ false ]

abbrev pub qop_of : Text → Result AuthError Qop
qop_of s =
    let word = trim s in
    if is_text word ""
    then ok auth
    else (if is_text word "auth"
        then ok auth
        else err (invalid_header (codes "unknown QoP directive: " ++ word)))

abbrev pub algorithm_of : Text → Result AuthError Algorithm
algorithm_of s =
    let word = trim s in
    if is_text word ""
    then ok md5
    else (if is_text word "MD5"
        then ok md5
        else (if is_text word "MD5-sess"
            then ok md5_sess
            else err (invalid_header (codes "unknown algorithm: " ++ word))))

abbrev pub nonce_of : Option Text → Result AuthError Text
nonce_of none = err (invalid_header (codes "no nonce provided"))
nonce_of (some t) = ok t

unfoldable pub parse_header : Text → Result AuthError AuthParams
unfolding find_string_value split_at try_map trim
parse_header header =
    let parts = split_header header in
    try_map qop_of (split_at b',' [] (or_empty (find_string_value parts (codes "qop")))) >>= λ qop.
    algorithm_of (or_empty (find_string_value parts (codes "algorithm"))) >>= λ algorithm.
    nonce_of (find_string_value parts (codes "nonce")) >>= λ nonce. ok (record {
      realm = or_empty (find_string_value parts (codes "realm"));
      qop = qop;
      algorithm = algorithm;
      nonce = nonce;
      opaque = find_string_value parts (codes "opaque");
    })
