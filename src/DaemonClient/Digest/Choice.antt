-- ===== src/DaemonClient/Digest/Choice.antt =====
-- library/src/monerod_client/authentication.rs: which of the challenges is answered, and how.
use Prim.Native.Nat.{compare, Ordering}
use mathlib.Core.List.{append_assoc}
use xmrgateway.Prelude.{
  ℕ, ◌≡◌, ◌≢◌, ◌↔◌, ◌⊎◌, refl, sym, ap, ◌∙◌, Bool-cases, inl, inr, Option, none, some, List, [],
  ◌∷◌, ◌++◌, All, Result, ok, err, ◌>>=◌, try_map, try_map-cons, try_map-All, bind_inversion,
  ok-injective, nat_beq, arith,
}
use xmrgateway.Std.Text.{Text, codes, hex_padded, split_at}
use xmrgateway.DaemonClient.Header.{split_header}
use xmrgateway.DaemonClient.Challenge.{
  AuthParams, AuthError, Qop, auth, max_qop, qop_of, algorithm_of, nonce_of, or_empty,
  find_string_value, cmp_max_qop, cmp_auth_params, parse_header, Algorithm, md5, md5_sess, rank,
}
use xmrgateway.DaemonClient.Digest.{
  Crypto, Sort, IsSorted, last, AuthInfo, to_str, digest_headers, header_text, header_value,
  some_header, authenticate, auth_choices, authenticate_with_resp,
}

split_at-cons :
    (sep : ℕ) (piece t : Text)
    → (first : Text) × (rest : List Text) × (split_at sep piece t ≡ first ∷ rest)
unfolding split_at
split_at-cons sep piece [] = (piece, [], refl)
split_at-cons sep piece (c ∷ t) = elim (Bool-cases (nat_beq c sep)) [
  | inl h ↦ (piece, split_at sep [] t, rw (h) refl)
  | inr h ↦ let (first, rest, e) = split_at-cons sep (piece ++ c ∷ []) t in (first, rest, rw (h) e)
]

abbrev qops : AuthParams → List Qop
qops p = p.qop

abbrev HasQop : AuthParams → Type 0
HasQop p = (qop : Qop) × (max_qop p.qop ≡ some qop)

max_qop-cons : (q : Qop) (rest : List Qop) → (qop : Qop) × (max_qop (q ∷ rest) ≡ some qop)
max_qop-cons auth rest = (auth, refl)

-- A challenge that was parsed has a quality of protection.
parse_header-HasQop : (header : Text) (p : AuthParams) → parse_header header ≡ ok p → HasQop p
unfolding parse_header
parse_header-HasQop header p h =
    let parts = split_header header in
    let words = split_at b',' [] (or_empty (find_string_value parts (codes "qop"))) in
    let (_, parsed, h1) = bind_inversion (try_map qop_of words) _ (sym h) in
    let (algorithm, _, h2) =
      bind_inversion (algorithm_of (or_empty (find_string_value parts (codes "algorithm")))) _
        (sym h1) in
    let (nonce, _, h3) =
      bind_inversion (nonce_of (find_string_value parts (codes "nonce"))) _ (sym h2) in
    let same_qop = ap qops (ok-injective _ p h3) in
    let (first, rest, e) =
      split_at-cons b',' [] (or_empty (find_string_value (split_header header) (codes "qop"))) in
    let (q, qs, _, _, same) =
      try_map-cons qop_of first rest (ap (try_map qop_of) (sym e) ∙ parsed) in
    let (qop, found) = max_qop-cons q qs in (qop, ap max_qop (sym same_qop ∙ sym same) ∙ found)

cmp_same :
    (o : Option Qop) (x : Algorithm)
    → elim (cmp_max_qop o o) [
      | Ordering.eq ↦ compare (rank x) (rank x)
      | Ordering.lt ↦ Ordering.lt
      | Ordering.gt ↦ Ordering.gt
    ]
      ≡ Ordering.eq
cmp_same none md5 = refl
cmp_same none md5_sess = refl
cmp_same (some auth) md5 = refl
cmp_same (some auth) md5_sess = refl

not_better_itself : (p : AuthParams) → cmp_auth_params p p ≢ Ordering.gt
unfolding cmp_auth_params
not_better_itself p e =
    let same = cmp_same (max_qop p.qop) p.algorithm in
    let differ : Ordering.eq ≡ Ordering.gt = sym same ∙ e in ground arith

-- In a list in order, the last element is there, and none is better.
last_best :
    (x : AuthParams) (xs : List AuthParams)
    → IsSorted (x ∷ xs)
    → (p : AuthParams) × (last (x ∷ xs) ≡ some p)
      × ((P : AuthParams → Type 0) → All P (x ∷ xs) → P p)
      × All (λ q. cmp_auth_params q p ≢ Ordering.gt) (x ∷ xs)
last_best x [] h = (x, refl, λ P all. all.0, (not_better_itself x, tt))
last_best x (y ∷ ys) h =
    let (p, e, taken, best) = last_best y ys h.1 in
    (p, e, λ P all. taken P all.1, (taken (λ q. cmp_auth_params x q ≢ Ordering.gt) h.0, best))

-- Every element stands somewhere.
splits :
    (before rest whole : List AuthParams)
    → whole ≡ before ++ rest
    → All (λ q. (front after : List AuthParams) × (whole ≡ front ++ q ∷ after)) rest
splits before [] whole e = tt
splits before (x ∷ rest) whole e = (
  (before, rest, e),
  splits (before ++ x ∷ []) rest whole (e ∙ sym (append_assoc before (x ∷ []) rest)),
)

Algorithm-cases : (a : Algorithm) → (a ≡ md5) ⊎ (a ≡ md5_sess)
Algorithm-cases md5 = inl refl
Algorithm-cases md5_sess = inr refl

sess_better :
    (q p : AuthParams)
    → HasQop q
    → HasQop p
    → q.algorithm ≡ md5_sess
    → p.algorithm ≡ md5
    → cmp_auth_params q p ≡ Ordering.gt
unfolding cmp_auth_params
sess_better q p (auth, hq) (auth, hp) eq ep = rw (hq, hp, eq, ep, cmp_auth_params) refl

-- A challenge than which none is better is one of MD5-sess, if there is any.
prefers_sess :
    (p : AuthParams)
    → HasQop p
    → (qs : List AuthParams) → All HasQop qs
    → All (λ q. cmp_auth_params q p ≢ Ordering.gt) qs
    → All (λ q. (q.algorithm ≡ md5) ⊎ (p.algorithm ≡ md5_sess)) qs
prefers_sess p hp [] hs best = tt
prefers_sess p hp (q ∷ qs) hs best = (
  elim (Algorithm-cases q.algorithm) [
    | inl plain ↦ inl plain
    | inr sess ↦ elim (Algorithm-cases p.algorithm) [
      | inl plain ↦ absurd (best.0 (sess_better q p hs.0 hp sess plain))
      | inr same ↦ inr same
    ]
  ],
  prefers_sess p hp qs hs.1 best.1,
)

module _ {R : Type 0} (crypto : Crypto R) (b : Sort) where
  choices-HasQop :
      (headers : List (Option Text)) {choices : List AuthParams}
      → auth_choices crypto headers ≡ ok choices
      → All HasQop choices
  unfolding auth_choices
  choices-HasQop headers h =
      let (texts, _, h') = bind_inversion (try_map (to_str crypto) headers) _ (sym h) in
      try_map-All parse_header HasQop parse_header-HasQop (digest_headers crypto texts) h'

  abbrev with_params : AuthParams → AuthInfo R → AuthInfo R
  with_params p a = record a { last_auth_params = some p; counter = 1 }

  some_header-some : (r : Result AuthError Text) → some_header crypto (r >>= λ t. ok (some t)) ≡ r
  some_header-some (ok t) = refl
  some_header-some (err e) = refl

  -- What the sorting and the choice of the last one amount to.
  last_of_sorted :
      (choices : List AuthParams)
      → choices ≢ []
      → (p : AuthParams) × (last (b.sort_unstable choices) ≡ some p)
        × ((P : AuthParams → Type 0) → All P choices → P p)
        × All (λ q. cmp_auth_params q p ≢ Ordering.gt) choices
  last_of_sorted [] h = absurd (h refl)
  last_of_sorted (c ∷ cs) h =
      from_sorted (b.sort_unstable (c ∷ cs)) (λ P. b.sort_unstable-All P (c ∷ cs))
        (b.sort_unstable-IsSorted (c ∷ cs))
    where
      from_sorted :
          (sorted : List AuthParams)
          → ((P : AuthParams → Type 0) → All P (c ∷ cs) ↔ All P sorted)
          → IsSorted sorted
          → (p : AuthParams) × (last sorted ≡ some p)
            × ((P : AuthParams → Type 0) → All P (c ∷ cs) → P p)
            × All (λ q. cmp_auth_params q p ≢ Ordering.gt) (c ∷ cs)
      from_sorted [] same k = absurd ((same (λ q. ⊥)).1 tt).0
      from_sorted (x ∷ xs) same k =
          let (p, e, taken, best) = last_best x xs k in
          (
            p,
            e,
            λ P all. taken P ((same P).0 all),
            (same (λ q. cmp_auth_params q p ≢ Ordering.gt)).1 best,
          )

  -- If the challenges of a response could be read and there are any: one of them is answered, than
  -- which none is better and which is one of MD5-sess if any of them is, with the count 1, or its
  -- answer is no value of a header; it is remembered, and the next count is 2.
  pub authenticate_with_resp_lem :
      (headers : List (Option Text)) (path method : Text) (a : AuthInfo R)
      (choices : List AuthParams)
      → auth_choices crypto headers ≡ ok choices
      → choices ≢ []
      → (p : AuthParams) × (qop : Qop) × ((before after : List AuthParams) × (choices
            ≡ before ++ p ∷ after))
        × All (λ q. cmp_auth_params q p ≢ Ordering.gt) choices
        × All (λ q. (q.algorithm ≡ md5) ⊎ (p.algorithm ≡ md5_sess)) choices
        × (authenticate_with_resp crypto b headers path method a ≡ (
          header_value crypto
              (header_text crypto a p qop path method (hex_padded 8 1) (crypto.fill a.rng).0),
          record a { last_auth_params = some p; counter = 2; rng = (crypto.fill a.rng).1 },
        ))
  unfolding authenticate_with_resp header_text
  authenticate_with_resp_lem headers path method a choices h some_choice =
      let (p, e, taken, largest) = last_of_sorted choices some_choice in
      let qops_there = choices-HasQop headers h in
      let (qop, f) = taken HasQop qops_there in
      (
        p,
        qop,
        taken (λ q. (before after : List AuthParams) × (choices ≡ before ++ q ∷ after))
            (splits [] choices choices refl),
        largest,
        prefers_sess p (taken HasQop qops_there) choices qops_there largest,
        answered p e qop f,
      )
    where
      answered :
          (p : AuthParams)
          → last (b.sort_unstable choices) ≡ some p
          → (qop : Qop) → max_qop p.qop ≡ some qop
          → authenticate_with_resp crypto b headers path method a ≡ (
            header_value crypto
                (header_text crypto a p qop path method (hex_padded 8 1) (crypto.fill a.rng).0),
            record a { last_auth_params = some p; counter = 2; rng = (crypto.fill a.rng).1 },
          )
      answered p e qop f =
          rw (h, e, authenticate_with_resp, f, authenticate)
            (ap
              (λ (r : Result AuthError Text). (
                r,
                record a { last_auth_params = some p; counter = 2; rng = (crypto.fill a.rng).1 },
              ))
              (some_header-some (
                header_value crypto
                  (header_text crypto a p qop path method (hex_padded 8 1) (crypto.fill a.rng).0))))
