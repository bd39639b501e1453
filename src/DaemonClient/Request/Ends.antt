-- ===== src/DaemonClient/Request/Ends.antt =====
-- library/src/monerod_client/mod.rs: how a request ends, and after how many messages.
use xmrgateway.Prelude.{
  ℕ, ◌+◌, ◌<◌, ◌≡◌, refl, subst, Bool, true, false, ◌⊎◌, inl, inr, Option, none, some, List, [],
  ◌∷◌, ◌++◌, length, length-append, All, if◌then◌else◌, Result, ok, err, ◌>>=◌, arith,
}
use xmrgateway.Std.Text.{Text, codes}
use xmrgateway.DaemonClient.Digest.{Crypto, Sort, AuthInfo, authenticate, authenticate_with_resp}
use xmrgateway.DaemonClient.Challenge.{AuthError}
use xmrgateway.DaemonClient.Request.{
  RpcError, invalid_request, auth, Response, Reply, Http, Request, Outcome, is_challenge,
  build_request, authorize, answer, value_of, settle, request,
}

-- An error that the client makes without the daemon.
abbrev pub IsLocal : {E V : Type 0} → RpcError E V → Type 0
IsLocal invalid_request = Unit {0}
IsLocal (auth e) = Unit {0}
IsLocal e = ⊥

abbrev OkOrLocal : {E V A : Type 0} → Result (RpcError E V) A → Type 0
OkOrLocal (ok a) = Unit {0}
OkOrLocal (err e) = IsLocal e

abbrev pub asks : {E V : Type 0} → Reply E V → Bool
asks (err e) = false
asks (ok response) = is_challenge response

module _ {R V : Type 0} (E : Type 0) (crypto : Crypto R) (b : Sort) (http : Http V) where
  build_request_local :
      (uri body : Text) (header : Option Text)
      → OkOrLocal {E = E} {V = V} (build_request crypto b http uri header body)
  unfolding build_request
  build_request_local uri body header = checked (http.is_uri uri)
    where
      checked :
          (is_uri : Bool)
          → OkOrLocal {E = E} {V = V} {A = Request} (
              if is_uri
              then ok (record { uri = uri; authorization = header; body = body })
              else err invalid_request)
      checked true = tt
      checked false = tt

  from_auth :
      {A : Type 0} (r : Result AuthError A)
      → OkOrLocal {E = E} {V = V} (elim r [ err e ↦ err (auth e) | ok t ↦ ok t ])
  from_auth (ok t) = tt
  from_auth (err e) = tt

  authorize_local :
      (uri : Text) (a : Option (AuthInfo R)) → OkOrLocal (authorize {E = E} crypto b http uri a).0
  unfolding authorize
  authorize_local uri none = tt
  authorize_local uri (some a) =
      from_auth (authenticate crypto (http.path_and_query uri) (codes "POST") a).0

module _ {R E V : Type 0} (crypto : Crypto R) (b : Sort) (http : Http V) where
  abbrev pub conclude : Reply E V → Result (RpcError E V) V
  conclude (err e) = err e
  conclude (ok response) = value_of crypto b http response

  -- The request has taken all replies up to the last one, or ended before with an error of its own.
  abbrev pub HasEnded : ℕ → Reply E V → List (Reply E V) → Outcome R E V → Type 0
  HasEnded count reply after o =
      ((o.result ≡ some (conclude reply)) × (length o.sent ≡ count) × (o.replies ≡ after))
      ⊎ ((e : RpcError E V) × (o.result ≡ some (err e)) × IsLocal e × (length o.sent < count))

  answer_local :
      (uri : Text) (response : Response E) (a : Option (AuthInfo R))
      → OkOrLocal (answer crypto b http uri response a).0
  unfolding answer
  answer_local uri response none = tt
  answer_local uri response (some a) =
      from_auth E crypto b http
        (authenticate_with_resp crypto b response.www_authenticate (http.path_and_query uri)
          (codes "POST") a).0

  next_local :
      (uri body : Text) (header : Result (RpcError E V) Text)
      → OkOrLocal header
      → OkOrLocal (header >>= λ t. build_request crypto b http uri (some t) body)
  next_local uri body (ok t) h = build_request_local E crypto b http uri body (some t)
  next_local uri body (err e) h = h

  -- A step that may fail, before the rest.
  continued :
      {A : Type 0} (count : ℕ) (reply : Reply E V) (after : List (Reply E V))
      (n : Result (RpcError E V) A) (stop : RpcError E V → Outcome R E V) (k : A → Outcome R E V)
      → OkOrLocal n
      → ((e : RpcError E V) → ((stop e).result ≡ some (err e)) × (length (stop e).sent < count))
      → ((x : A) → HasEnded count reply after (k x))
      → HasEnded count reply after (elim n [ err e ↦ stop e | ok x ↦ k x ])
  continued count reply after (ok x) stop k local ended going = going x
  continued count reply after (err e) stop k local ended going =
      inr (e, (ended e).0, local, (ended e).1)

  settle_ends :
      (uri body : Text) (sent : List Request) (a : Option (AuthInfo R))
      (before after : List (Reply E V)) (reply : Reply E V)
      → All (λ r. asks r ≡ true) before
      → asks reply ≡ false
      → HasEnded
          (length sent + length before)
          reply
          after
          (settle crypto b http uri body sent a (before ++ reply ∷ after))
  unfolding settle
  settle_ends uri body sent a [] after (err e) h f = inl (refl, omega arith, refl)
  settle_ends uri body sent a [] after (ok response) h f =
      rw (f, settle) (inl (refl, omega arith, refl))
  settle_ends uri body sent a (err e ∷ before) after reply h f = absurd (cc)
  settle_ends uri body sent a (ok response ∷ before) after reply h f =
      let (header, a') = answer crypto b http uri response a in
      let next = header >>= λ t. build_request crypto b http uri (some t) body in
      let count : ℕ = length sent + length (ok response ∷ before) in
      let stop : RpcError E V → Outcome R E V = λ e. record {
        result = some (err e);
        sent = sent;
        auth_info = a';
        replies = before ++ reply ∷ after;
      } in
      let go : Request → Outcome R E V =
        λ r. settle crypto b http uri body (sent ++ r ∷ []) a' (before ++ reply ∷ after) in
      rw (h.0, settle)
        (continued count reply after next stop go
          (next_local uri body header (answer_local uri response a)) (λ e. (refl, omega arith))
          (λ r.
            subst (λ n. HasEnded n reply after (go r)) (omega (arith, length-append sent (r ∷ [])))
              (settle_ends uri body (sent ++ r ∷ []) a' before after reply h.1 f)))

  -- If the replies that ask for authentication are followed by one that does not: the request comes
  -- to an end. Either it takes all replies up to that one, sends a message for each, and gives what
  -- that reply stands for, or it ends before with an error of its own.
  pub request_lem :
      (url endpoint body : Text) (a : Option (AuthInfo R)) (before after : List (Reply E V))
      (reply : Reply E V)
      → All (λ r. asks r ≡ true) before
      → asks reply ≡ false
      → HasEnded
          (1 + length before)
          reply
          after
          (request crypto b http url endpoint body a (before ++ reply ∷ after))
  unfolding request
  request_lem url endpoint body a before after reply h f =
      let uri = url ++ endpoint in
      let all = before ++ reply ∷ after in
      continued (1 + length before) reply after (build_request crypto b http uri none body)
        (λ e. record { result = some (err e); sent = []; auth_info = a; replies = all })
        (λ plain. elim (authorize crypto b http uri a).0 [
          | err e ↦ record {
            result = some (err e);
            sent = [];
            auth_info = (authorize crypto b http uri a).1;
            replies = all;
          }
          | ok authorization ↦
              settle crypto b http uri body (record plain { authorization = authorization } ∷ [])
                (authorize crypto b http uri a).1 all
        ])
        (build_request_local E crypto b http uri body none) (λ e. (refl, omega arith))
        (λ plain.
          continued (1 + length before) reply after (authorize crypto b http uri a).0
            (λ e. record {
              result = some (err e);
              sent = [];
              auth_info = (authorize crypto b http uri a).1;
              replies = all;
            })
            (λ authorization.
              settle crypto b http uri body (record plain { authorization = authorization } ∷ [])
                (authorize crypto b http uri a).1 all)
            (authorize_local E crypto b http uri a) (λ e. (refl, omega arith))
            (λ authorization.
              settle_ends uri body (record plain { authorization = authorization } ∷ [])
                (authorize crypto b http uri a).1 before after reply h f))
