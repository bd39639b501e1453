-- ===== src/DaemonClient/Request.antt =====
-- library/src/monerod_client/mod.rs: `RpcClient::request` with its loop of challenges. The requests of a
-- client run one after the other; the waiting of its backoff has no effect on the state.
pub mod Ends
use xmrgateway.Prelude.{
  ℕ, Bool, true, false, not, ◌&&◌, Option, none, some, List, [], ◌∷◌, ◌++◌, nat_beq, if◌then◌else◌,
  Result, ok, err, ◌>>=◌,
}
use xmrgateway.Std.Text.{Text, codes}
use xmrgateway.DaemonClient.Challenge.{AuthError, unauthorized}
use xmrgateway.DaemonClient.Digest.{
  Crypto, Sort, AuthInfo, auth_info_new, authenticate, authenticate_with_resp,
}

-- `E` is what went wrong below HTTP, `V` a value of JSON; `panicked` is the panic of a hash whose length is
-- wrong.
pub data RpcError (E V : Type 0) : Type 0 where
  request_failed : E → RpcError E V
  invalid_request : RpcError E V
  timeout : RpcError E V
  hex_decode : RpcError E V
  serialization : RpcError E V
  missing_data : Text → RpcError E V
  data_type : V → Text → RpcError E V
  invalid_json : RpcError E V
  auth : AuthError → RpcError E V
  panicked : RpcError E V

-- A response of a daemon, with its headers `WWW-AUTHENTICATE`, of which nothing is one that is no text.
pub record Response (E : Type 0) : Type 0 where
  pub status : ℕ
  pub www_authenticate : List (Option Text)
  pub body : Result E (List ℕ)

-- What a request comes to: a response, or an error in time or below HTTP.
abbrev pub Reply : Type 0 → Type 0 → Type 0
Reply E V = Result (RpcError E V) (Response E)

pub record Request : Type 0 where
  pub uri : Text
  pub authorization : Option Text
  pub body : Text

-- The crates hyper and serde_json: whether a text is a URI, its path with its query, and the value that
-- bytes stand for.
pub record Http (V : Type 0) : Type 0 where
  pub is_uri : Text → Bool
  pub path_and_query : Text → Text
  pub from_slice : List ℕ → Option V

abbrev pub is_challenge : {E : Type 0} → Response E → Bool
is_challenge r = nat_beq r.status 401 && elim r.www_authenticate [ [] ↦ false | h ∷ hs ↦ true ]

-- `RpcClient::new`, as far as it makes the authentication.
abbrev pub auth_info_of : {R : Type 0} → Option Text → Option Text → R → Option (AuthInfo R)
auth_info_of none none rng = none
auth_info_of (some username) none rng = some (auth_info_new username [] rng)
auth_info_of none (some password) rng = some (auth_info_new [] password rng)
auth_info_of (some username) (some password) rng = some (auth_info_new username password rng)

-- How a request ends; nothing is a request that still waits for a reply.
pub record Outcome (R E V : Type 0) : Type 0 where
  pub result : Option (Result (RpcError E V) V)
  pub sent : List Request
  pub auth_info : Option (AuthInfo R)
  pub replies : List (Reply E V)

module _ {R E V : Type 0} (crypto : Crypto R) (b : Sort) (http : Http V) where
  unfoldable pub build_request : Text → Option Text → Text → Result (RpcError E V) Request
  build_request uri authorization body =
      if http.is_uri uri
      then ok (record { uri = uri; authorization = authorization; body = body })
      else err invalid_request

  -- The header for the first request, from the last challenge.
  unfoldable pub authorize :
      Text → Option (AuthInfo R) → Result (RpcError E V) (Option Text) × Option (AuthInfo R)
  authorize uri none = (ok none, none)
  authorize uri (some a) =
      let (result, a') = authenticate crypto (http.path_and_query uri) (codes "POST") a in
      (elim result [ err e ↦ err (auth e) | ok header ↦ ok header ], some a')

  -- The header that answers a challenge.
  unfoldable pub answer :
      Text → Response E → Option (AuthInfo R) → Result (RpcError E V) Text × Option (AuthInfo R)
  answer uri response none = (err (auth unauthorized), none)
  answer uri response (some a) =
      let (result, a') =
        authenticate_with_resp crypto b response.www_authenticate (http.path_and_query uri)
          (codes "POST") a in
      (elim result [ err e ↦ err (auth e) | ok header ↦ ok header ], some a')

  abbrev pub value_of : Response E → Result (RpcError E V) V
  value_of response = elim response.body [
    | err e ↦ err (request_failed e)
    | ok bytes ↦ elim (http.from_slice bytes) [ none ↦ err invalid_json | some v ↦ ok v ]
  ]

  module _ (uri body : Text) where
    -- The loop, with the requests sent and the replies still to come.
    unfoldable pub settle : List Request → Option (AuthInfo R) → List (Reply E V) → Outcome R E V
    unfolding answer build_request
    settle sent a [] = record { result = none; sent = sent; auth_info = a; replies = [] }
    settle sent a (err e ∷ rest) = record {
      result = some (err e);
      sent = sent;
      auth_info = a;
      replies = rest;
    }
    settle sent a (ok response ∷ rest) = elim (is_challenge response) [
      | false ↦ record {
        result = some (value_of response);
        sent = sent;
        auth_info = a;
        replies = rest;
      }
      | true ↦
          let (header, a') = answer uri response a in
          elim (header >>= λ t. build_request uri (some t) body) [
            | err e ↦ record { result = some (err e); sent = sent; auth_info = a'; replies = rest }
            | ok request ↦ settle (sent ++ request ∷ []) a' rest
          ]
    ]

  -- `RpcClient::request` at an URL and an endpoint.
  unfoldable pub request :
      Text → Text → Text → Option (AuthInfo R) → List (Reply E V) → Outcome R E V
  unfolding settle build_request authorize
  request url endpoint body a replies =
      let uri = url ++ endpoint in
      elim (build_request uri none body) [
        | err e ↦ record { result = some (err e); sent = []; auth_info = a; replies = replies }
        | ok plain ↦
            let (header, a') = authorize uri a in
            elim header [
              | err e ↦ record {
                result = some (err e);
                sent = [];
                auth_info = a';
                replies = replies;
              }
              | ok authorization ↦
                  settle uri body (record plain { authorization = authorization } ∷ []) a' replies
            ]
      ]
