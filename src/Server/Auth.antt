-- ===== src/Server/Auth.antt =====
-- server/src/server/auth.rs and mod.rs: the token that guards an API. The crate tower-http asks `validate`
-- before it hands a request to the service behind it.
use Prim.Native.String.{◌++◌}
use mathlib.Core.Option.{some-injective}
use xmrgateway.Prelude.{
  ◌≡◌, ◌≢◌, ◌⊎◌, refl, ap, false, Bool-cases, inl, inr, String, string_eq, ◌==◌, beq_true,
  ne_of_beq, Option, none, some, if◌then◌else◌, Result, ok, err, arith,
}
use xmrgateway.Server.Responses.{Response, nothing}

abbrev pub denied : Response
denied = record { status = 401; no_store = false; body = nothing }

abbrev pub bearer : String → String
bearer token = "Bearer " ++ token

-- `MaybeBearer::validate`, for the header `Authorization`.
unfoldable pub validate : Option String → Option String → Result Response (Unit {0})
validate none authorization = ok tt
validate (some token) none = err denied
validate (some token) (some actual) = if actual == bearer token then ok tt else err denied

-- A service behind the layer, on the state that it keeps.
unfoldable pub guarded :
    {G : Type 0} → Option String → Option String → (G → Response × G) → G → Response × G
unfolding validate
guarded token authorization service g = elim (validate token authorization) [
  | err r ↦ (r, g)
  | ok u ↦ service g
]

-- What a request must show.
abbrev pub Shows : Option String → Option String → Type 0
Shows none authorization = Unit {0}
Shows (some token) authorization = authorization ≡ some (bearer token)

none-ne-some : (t : String) → none ≢ some t
none-ne-some t e = ground arith

some-ne : (s t : String) → s ≢ t → some s ≢ some t
some-ne s t h e = h (some-injective s t e)

-- A request reaches the service if no token is configured, or its header is the bearer token; any
-- other is answered with 401, and changes nothing.
pub guarded_lem :
    {G : Type 0} (token authorization : Option String) (service : G → Response × G) (g : G)
    → (Shows token authorization × (guarded token authorization service g ≡ service g))
      ⊎ ((Shows token authorization → ⊥) × (guarded token authorization service g ≡ (denied, g)))
unfolding guarded
guarded_lem none authorization service g = inl (tt, refl)
guarded_lem (some token) none service g = inr (none-ne-some (bearer token), refl)
guarded_lem (some token) (some actual) service g = elim (Bool-cases (actual == bearer token)) [
  | inl e ↦ inl (ap some (beq_true actual (bearer token) e), rw (e, guarded) refl)
  | inr e ↦
      inr (some-ne actual (bearer token) (ne_of_beq actual (bearer token) e), rw (e, guarded) refl)
]
