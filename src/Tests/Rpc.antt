-- ===== src/Tests/Rpc.antt =====
-- library/src/monerod_client: a daemon that asks for authentication, and one whose answers hold a
-- transaction for each hash.
use Prim.Native.Nat.{compare, Ordering}
use xmrgateway.Prelude.{
  ℕ, ◌+◌, ◌≡◌, ◌⊎◌, ◌≢◌, ◌↔◌, ◌++◌, refl, sym, ◌∙◌, inl, inr, true, false, Option, none, some, List,
  [], ◌∷◌, All, ok, ◌>>=◌, try_map, arith, ltb, ◌≤◌, Bool-cases, if◌then◌else◌,
}
use xmrgateway.Std.Text.{
  Text, codes, hex_padded, strip_prefix, drop_while, drop_end, trim, is_whitespace,
}
use xmrgateway.DaemonClient.Header.{split_from, split_step}
use xmrgateway.DaemonClient.Challenge.{
  AuthParams, Qop, auth, max_qop, Algorithm, md5, md5_sess, rank, cmp_max_qop, cmp_auth_params,
  parse_header,
}
use xmrgateway.DaemonClient.Digest.{
  Crypto, Sort, IsSorted, AuthInfo, auth_info_new, header_text, header_value, authenticate,
  auth_choices, authenticate_with_resp,
}
use xmrgateway.DaemonClient.Digest.Counts.{afterwards, authenticate_lem}
use xmrgateway.DaemonClient.Digest.Choice.{authenticate_with_resp_lem}

-- The place of a challenge in the order.
abbrev pub place : Option Qop → Algorithm → ℕ
place none x = rank x
place (some q) x = 2 + rank x

abbrev pub weight : AuthParams → ℕ
weight p = place (max_qop p.qop) p.algorithm

pub cmp_parts :
    (a b : Option Qop) (x y : Algorithm)
    → elim (cmp_max_qop a b) [
      | Ordering.eq ↦ compare (rank x) (rank y)
      | Ordering.lt ↦ Ordering.lt
      | Ordering.gt ↦ Ordering.gt
    ]
      ≡ compare (place a x) (place b y)
cmp_parts none none x y = refl
cmp_parts none (some auth) md5 md5 = refl
cmp_parts none (some auth) md5 md5_sess = refl
cmp_parts none (some auth) md5_sess md5 = refl
cmp_parts none (some auth) md5_sess md5_sess = refl
cmp_parts (some auth) none md5 md5 = refl
cmp_parts (some auth) none md5 md5_sess = refl
cmp_parts (some auth) none md5_sess md5 = refl
cmp_parts (some auth) none md5_sess md5_sess = refl
cmp_parts (some auth) (some auth) md5 md5 = refl
cmp_parts (some auth) (some auth) md5 md5_sess = refl
cmp_parts (some auth) (some auth) md5_sess md5 = refl
cmp_parts (some auth) (some auth) md5_sess md5_sess = refl

pub cmp-weight : (p q : AuthParams) → cmp_auth_params p q ≡ compare (weight p) (weight q)
unfolding cmp_auth_params
cmp-weight p q = cmp_parts (max_qop p.qop) (max_qop q.qop) p.algorithm q.algorithm

pub ne_gt_of_le : (p q : AuthParams) → weight p ≤ weight q → cmp_auth_params p q ≢ Ordering.gt
ne_gt_of_le p q h e = less (weight p) (weight q) h (sym (cmp-weight p q) ∙ e)
  where
    less : (m n : ℕ) → m ≤ n → compare m n ≢ Ordering.gt
    less m n h e = ground arith

-- Insertion sort by weight.
abbrev pub insert : AuthParams → List AuthParams → List AuthParams
insert p [] = p ∷ []
insert p (q ∷ qs) =
    let later = insert p qs in if ltb (weight q) (weight p) then q ∷ later else p ∷ q ∷ qs

abbrev pub sort : List AuthParams → List AuthParams
sort [] = []
sort (p ∷ ps) = insert p (sort ps)

insert-All :
    (P : AuthParams → Type 0) (p : AuthParams) (qs : List AuthParams)
    → All P (p ∷ qs) ↔ All P (insert p qs)
insert-All P p [] = (λ h. h, λ h. h)
insert-All P p (q ∷ qs) = elim (Bool-cases (ltb (weight q) (weight p))) [
  | inl e ↦ rw e (
    λ h. (h.1.0, (insert-All P p qs).0 (h.0, h.1.1)),
    λ h. let back = (insert-All P p qs).1 h.1 in (back.0, (h.0, back.1)),
  )
  | inr e ↦ rw e (λ h. h, λ h. h)
]

pub sort-All : (P : AuthParams → Type 0) (ps : List AuthParams) → All P ps ↔ All P (sort ps)
sort-All P [] = (λ h. h, λ h. h)
sort-All P (p ∷ ps) = (
  λ h. (insert-All P p (sort ps)).0 (h.0, (sort-All P ps).0 h.1),
  λ h. let back = (insert-All P p (sort ps)).1 h in (back.0, (sort-All P ps).1 back.1),
)

abbrev pub Ascends : List AuthParams → Type 0
Ascends [] = Unit {0}
Ascends (p ∷ ps) = All (λ q. weight p ≤ weight q) ps × Ascends ps

raised :
    (p q : AuthParams) (ps : List AuthParams)
    → weight p ≤ weight q
    → All (λ r. weight q ≤ weight r) ps
    → All (λ r. weight p ≤ weight r) ps
raised p q [] h k = tt
raised p q (r ∷ ps) h k =
    let first : weight q ≤ weight r = k.0 in
    (through (weight p) (weight q) (weight r) h first, raised p q ps h k.1)
  where
    through : (l m n : ℕ) → l ≤ m → m ≤ n → l ≤ n
    through l m n h k = omega arith

insert-Ascends : (p : AuthParams) (qs : List AuthParams) → Ascends qs → Ascends (insert p qs)
insert-Ascends p [] h = (tt, tt)
insert-Ascends p (q ∷ qs) h = elim (Bool-cases (ltb (weight q) (weight p))) [
  | inl e ↦ rw e (
    (insert-All (λ r. weight q ≤ weight r) p qs).0 (below (weight q) (weight p) e, h.0),
    insert-Ascends p qs h.1,
  )
  | inr e ↦
      let least : weight p ≤ weight q = above (weight q) (weight p) e in
      rw e ((least, raised p q qs least h.0), h)
]
  where
    below : (m n : ℕ) → ltb m n ≡ true → m ≤ n
    below m n e = ground arith

    above : (m n : ℕ) → ltb m n ≡ false → n ≤ m
    above m n e = ground arith

pub sort-Ascends : (ps : List AuthParams) → Ascends (sort ps)
sort-Ascends [] = tt
sort-Ascends (p ∷ ps) = insert-Ascends p (sort ps) (sort-Ascends ps)

none_before :
    (p : AuthParams) (ps : List AuthParams)
    → All (λ q. weight p ≤ weight q) ps
    → All (λ q. cmp_auth_params p q ≢ Ordering.gt) ps
none_before p [] h = tt
none_before p (q ∷ ps) h = (ne_gt_of_le p q h.0, none_before p ps h.1)

pub Ascends-IsSorted : (ps : List AuthParams) → Ascends ps → IsSorted ps
Ascends-IsSorted [] h = tt
Ascends-IsSorted (p ∷ ps) h = (none_before p ps h.0, Ascends-IsSorted ps h.1)

abbrev pub by_weight : Sort
by_weight = record {
  sort_unstable = sort;
  sort_unstable-All = sort-All;
  sort_unstable-IsSorted = λ ps. Ascends-IsSorted (sort ps) (sort-Ascends ps);
}

-- In place of digests and of random bytes stand simple functions.
abbrev pub crypto : Crypto ℕ
crypto = record {
  md5_str = λ t. codes "d";
  hex_encode = λ bytes. codes "c";
  fill = λ n. (n ∷ [], n + 1);
  is_header_value = λ t. true;
}

abbrev pub jane : AuthInfo ℕ
jane = auth_info_new (codes "jane") (codes "pass") 0

abbrev pub program : Unit {0}
program = tt

abbrev pub weak : Text
weak = codes "Digest qop=\"auth\",algorithm=MD5,realm=\"r,s\",nonce=\"n1\""

abbrev pub strong : Text
strong = codes "Digest qop=\"auth\", algorithm=MD5-sess, realm=\"r,s\", nonce=\"n2\", opaque=o"

abbrev pub params : Algorithm → Text → Option Text → AuthParams
params algorithm nonce opaque = record {
  realm = codes "r,s";
  qop = auth ∷ [];
  algorithm = algorithm;
  nonce = nonce;
  opaque = opaque;
}

abbrev pub chosen : AuthParams
chosen = params md5_sess (codes "n2") (some (codes "o"))

abbrev pub offered : List AuthParams
offered = params md5 (codes "n1") none ∷ chosen ∷ []

offers_read : auth_choices crypto (some weak ∷ some (codes "Basic") ∷ some strong ∷ []) ≡ ok offered
unfolding auth_choices parse_header split_from split_step try_map strip_prefix drop_while drop_end
    trim is_whitespace
offers_read = refl

chosen_answered :
    (authenticate_with_resp crypto by_weight
      (some weak ∷ some (codes "Basic") ∷ some strong ∷ [])
      (codes "/json_rpc")
      (codes "POST")
      jane).1
    ≡ record jane { last_auth_params = some chosen; counter = 2; rng = 1 }
unfolding authenticate authenticate_with_resp auth_choices parse_header split_from split_step
    try_map strip_prefix drop_while drop_end trim is_whitespace
chosen_answered = refl

some_offered : offered ≢ []
some_offered e = ground arith

authenticate_with_resp_lem_example :
    (p : AuthParams) × (qop : Qop) × ((before after : List AuthParams) × (offered
        ≡ before ++ p ∷ after))
    × All (λ q. cmp_auth_params q p ≢ Ordering.gt) offered
    × All (λ q. (q.algorithm ≡ md5) ⊎ (p.algorithm ≡ md5_sess)) offered
    × (authenticate_with_resp crypto by_weight
          (some weak ∷ some (codes "Basic") ∷ some strong ∷ [])
          (codes "/json_rpc")
          (codes "POST")
          jane
        ≡ (
          header_value crypto (
              header_text crypto jane p qop
                (codes "/json_rpc")
                (codes "POST")
                (hex_padded 8 1)
                (0 ∷ [])),
          record jane { last_auth_params = some p; counter = 2; rng = 1 },
        ))
authenticate_with_resp_lem_example =
    authenticate_with_resp_lem crypto by_weight
      (some weak ∷ some (codes "Basic") ∷ some strong ∷ []) (codes "/json_rpc") (codes "POST") jane
      offered offers_read some_offered

abbrev pub answered : AuthInfo ℕ
answered = record jane { last_auth_params = some chosen; counter = 2; rng = 1 }

authenticate_lem_example :
    ((authenticate crypto
        (codes "/b")
        (codes "POST")
        (afterwards crypto ((codes "/a", codes "POST") ∷ []) answered)).0
      ≡ header_value crypto (
          header_text crypto answered chosen auth
            (codes "/b")
            (codes "POST")
            (hex_padded 8 3)
            (crypto.fill (afterwards crypto ((codes "/a", codes "POST") ∷ []) answered).rng).0)
        >>= λ t. ok (some t))
    × (hex_padded 8 2 ≢ hex_padded 8 3)
authenticate_lem_example =
    authenticate_lem crypto ((codes "/a", codes "POST") ∷ []) (codes "/b") (codes "POST") answered
      chosen auth 2 refl refl (omega arith) (omega arith)

count_text : hex_padded 8 61453 ≡ codes "0000f00d"
unfolding hex_padded
count_text = refl
