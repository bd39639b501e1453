-- ===== src/Server/Config/Start.antt =====
-- server/src/config and lib.rs: which configurations a server starts with.
use mathlib.Core.Option.{some-injective}
use xmrgateway.Prelude.{
  ◌≡◌, ◌≢◌, ◌⊎◌, ◌↔◌, refl, sym, ap, ◌∙◌, subst, Bool, true, false, not, ◌||◌, Bool-cases, inl, inr,
  &&-eq-true, String, Option, none, some, option_is_none, Result, ok, err, ◌>>=◌, arith,
}
use xmrgateway.Server.Config.{
  VarError, not_present, not_unicode, ConfigError, Env, System, override, set_viewkey, set_password,
  set_internal, set_external, apply_env_overrides, from_file, read, daemon_validate,
  server_validate, config_validate, load_config,
}
use xmrgateway.Server.Settings.{Config, WalletConfig, DaemonConfig, DaemonLoginConfig}

-- The value of a secret: the environment's, or else the file's.
abbrev pub in_effect : Result VarError String → Option String → Option String
in_effect (ok value) written = some value
in_effect (err e) written = written

-- A file's configuration with the secrets that are in effect.
abbrev pub effective : Env → Config → Config
effective var c = record c {
  wallet = record c.wallet {
    private_viewkey = in_effect (var "PRIVATE_VIEWKEY") c.wallet.private_viewkey;
  };
  daemon = record c.daemon {
    login = elim c.daemon.login [
      | none ↦ none
      | some login ↦
          some (record login { password = in_effect (var "DAEMON_PASSWORD") login.password })
    ];
  };
  internal_api = record c.internal_api {
    token = in_effect (var "INTERNAL_API_TOKEN") c.internal_api.token;
  };
  external_api = record c.external_api {
    token = in_effect (var "EXTERNAL_API_TOKEN") c.external_api.token;
  };
}

abbrev pub IsUnicode : Result VarError String → Type 0
IsUnicode (ok value) = Unit {0}
IsUnicode (err not_present) = Unit {0}
IsUnicode (err not_unicode) = ⊥

abbrev pub HasUnicode : Env → Type 0
HasUnicode var =
    IsUnicode (var "PRIVATE_VIEWKEY")
    × IsUnicode (var "DAEMON_PASSWORD")
    × IsUnicode (var "INTERNAL_API_TOKEN")
    × IsUnicode (var "EXTERNAL_API_TOKEN")

same_login :
    (login : Option DaemonLoginConfig) (e : VarError)
    → login ≡ elim login [
      | none ↦ none
      | some l ↦ some (record l { password = in_effect (err e) l.password })
    ]
same_login none e = refl
same_login (some l) e = refl

module _ {I Y : Type 0} where
  viewkey_overridden :
      (r : Result VarError String) (w : WalletConfig)
      → IsUnicode r
      → override {I = I} {Y = Y} r set_viewkey w
        ≡ ok (record w { private_viewkey = in_effect r w.private_viewkey })
  viewkey_overridden (ok value) w u = refl
  viewkey_overridden (err not_present) w u = refl
  viewkey_overridden (err not_unicode) w u = absurd u

  password_overridden :
      (r : Result VarError String) (d : DaemonConfig)
      → IsUnicode r
      → override {I = I} {Y = Y} r set_password d
        ≡ ok (record d {
          login = elim d.login [
            | none ↦ none
            | some l ↦ some (record l { password = in_effect r l.password })
          ];
        })
  password_overridden (ok value) d u = refl
  password_overridden (err not_present) d u =
      ap (λ l. ok (record d { login = l })) (same_login d.login not_present)
  password_overridden (err not_unicode) d u = absurd u

  internal_overridden :
      (r : Result VarError String) (c : Config)
      → IsUnicode r
      → override {I = I} {Y = Y} r set_internal c
        ≡ ok (record c {
          internal_api = record c.internal_api { token = in_effect r c.internal_api.token };
        })
  internal_overridden (ok value) c u = refl
  internal_overridden (err not_present) c u = refl
  internal_overridden (err not_unicode) c u = absurd u

  external_overridden :
      (r : Result VarError String) (c : Config)
      → IsUnicode r
      → override {I = I} {Y = Y} r set_external c
        ≡ ok (record c {
          external_api = record c.external_api { token = in_effect r c.external_api.token };
        })
  external_overridden (ok value) c u = refl
  external_overridden (err not_present) c u = refl
  external_overridden (err not_unicode) c u = absurd u

  overridden :
      (var : Env) (c : Config)
      → HasUnicode var
      → apply_env_overrides {I = I} {Y = Y} var c ≡ ok (effective var c)
  unfolding apply_env_overrides
  overridden var c u =
      rw
        (
          viewkey_overridden (var "PRIVATE_VIEWKEY") c.wallet u.0,
          password_overridden (var "DAEMON_PASSWORD") c.daemon u.1,
          internal_overridden (var "INTERNAL_API_TOKEN") _ u.2,
          external_overridden (var "EXTERNAL_API_TOKEN") _ u.3,
        )
        refl

-- What a configuration needs: an address, a private key, a password for a login, and no token without
-- TLS.
pub record IsUsable (is_private_key : String → Bool) (c : Config) : Type 0 where
  pub address : c.wallet.primary_address ≢ none
  pub key : (k : String) × (c.wallet.private_viewkey ≡ some k) × (is_private_key k ≡ true)
  pub login : (l : DaemonLoginConfig) → c.daemon.login ≡ some l → l.password ≢ none
  pub internal : c.internal_api.token ≢ none → c.internal_api.tls ≢ none
  pub external : c.external_api.token ≢ none → c.external_api.tls ≢ none

module _ (is_private_key : String → Bool) where
  given_iff {ℓ} : {A : Type ℓ} (o : Option A) → (not (option_is_none o) ≡ true) ↔ (o ≢ none)
  given_iff none = (λ h e. absurd (cc), λ h. absurd (h refl))
  given_iff (some a) = (λ h e. absurd (cc), λ h. refl)

  key_iff :
      (o : Option String)
      → (elim o [ none ↦ false | some key ↦ is_private_key key ] ≡ true)
        ↔ ((k : String) × (o ≡ some k) × (is_private_key k ≡ true))
  key_iff none = (λ h. absurd (cc), λ h. absurd (cc (h.1)))
  key_iff (some k) = (
    λ h. (k, refl, h),
    λ h. subst (λ x. is_private_key x ≡ true) (sym (some-injective k _ h.1)) h.2,
  )

  login_iff :
      (o : Option DaemonLoginConfig)
      → (elim o [ none ↦ true | some l ↦ not (option_is_none l.password) ] ≡ true)
        ↔ ((l : DaemonLoginConfig) → o ≡ some l → l.password ≢ none)
  login_iff none = (λ h l e. absurd (cc), λ h. refl)
  login_iff (some m) = (
    λ h l e.
        subst (λ (x : DaemonLoginConfig). x.password ≢ none) (some-injective m l e)
          ((given_iff m.password).0 h),
    λ h. (given_iff m.password).1 (h m refl),
  )

  secured_iff :
      {A B : Type 0} (token : Option A) (tls : Option B)
      → (option_is_none token || not (option_is_none tls) ≡ true) ↔ (token ≢ none → tls ≢ none)
  secured_iff none tls = (λ h k. absurd (k refl), λ h. refl)
  secured_iff (some t) tls =
      (λ h k. (given_iff tls).0 h, λ h. (given_iff tls).1 (h (λ e. absurd (cc))))

  config_validate_iff :
      (c : Config) → (config_validate is_private_key c ≡ true) ↔ IsUsable is_private_key c
  unfolding config_validate
  config_validate_iff c = (
    λ h.
        let (h1, external) = &&-eq-true _ (server_validate is_private_key c.external_api) h in
        let (h2, internal) = &&-eq-true _ (server_validate is_private_key c.internal_api) h1 in
        let (wallet, daemon) = &&-eq-true _ (daemon_validate is_private_key c.daemon) h2 in
        let (address, key) = &&-eq-true (not (option_is_none c.wallet.primary_address)) _ wallet in
        record {
          address = (given_iff c.wallet.primary_address).0 address;
          key = (key_iff c.wallet.private_viewkey).0 key;
          login = (login_iff c.daemon.login).0 daemon;
          internal = (secured_iff c.internal_api.token c.internal_api.tls).0 internal;
          external = (secured_iff c.external_api.token c.external_api.tls).0 external;
        },
    λ h.
        rw
          (
            (given_iff c.wallet.primary_address).1 h.address,
            (key_iff c.wallet.private_viewkey).1 h.key,
            (login_iff c.daemon.login).1 h.login,
            (secured_iff c.internal_api.token c.internal_api.tls).1 h.internal,
            (secured_iff c.external_api.token c.external_api.tls).1 h.external,
          )
          refl,
  )

  -- What is made of a configuration that could be read.
  pub loaded :
      {I Y : Type 0} (sys : System I Y) (var : Env) (path : String) (disk : sys.Disk) (c : Config)
      → (from_file sys path disk).0 ≡ ok c
      → (load_config is_private_key sys var path disk).0
        ≡ elim (apply_env_overrides {I = I} {Y = Y} (sys.dotenv var) c) [
          | err e ↦ none
          | ok c ↦ elim (config_validate is_private_key c) [ true ↦ some c | false ↦ none ]
        ]
  unfolding load_config read
  loaded {I} {Y} sys var path disk c e =
      ap
        (λ (r : Result (ConfigError I Y) Config).
          elim (r >>= apply_env_overrides (sys.dotenv var)) as (λ _. Option Config) [
            | err e ↦ none
            | ok c ↦ elim (config_validate is_private_key c) [ true ↦ some c | false ↦ none ]
          ])
        e

  -- For a file that holds a configuration, in an environment whose four variables are Unicode or
  -- absent: either the secrets in effect make it usable, and the server starts with it under these
  -- secrets, or they do not, and it panics.
  pub load_config_lem :
      {I Y : Type 0} (sys : System I Y) (var : Env) (path : String) (disk : sys.Disk) (c : Config)
      → (from_file sys path disk).0 ≡ ok c
      → HasUnicode (sys.dotenv var)
      → (IsUsable is_private_key (effective (sys.dotenv var) c)
          × ((load_config is_private_key sys var path disk).0
              ≡ some (effective (sys.dotenv var) c)))
        ⊎ ((IsUsable is_private_key (effective (sys.dotenv var) c) → ⊥)
            × ((load_config is_private_key sys var path disk).0 ≡ none))
  unfolding load_config read
  load_config_lem sys var path disk c e u =
      let now = effective (sys.dotenv var) c in
      elim (Bool-cases (config_validate is_private_key now)) [
        | inl h ↦ inl (
          (config_validate_iff now).0 h,
          rw (loaded sys var path disk c e, overridden (sys.dotenv var) c u, h) refl,
        )
        | inr h ↦ inr (
          λ k. absurd (false-ne (sym h ∙ (config_validate_iff now).1 k)),
          rw (loaded sys var path disk c e, overridden (sys.dotenv var) c u, h) refl,
        )
      ]
    where
      false-ne : false ≢ true
      false-ne q = ground arith
