-- ===== src/Server/Config.antt =====
-- server/src/config: reading the configuration, with what the environment overrides, and its validation.
-- What stands on disk, in YAML and in a
-- `.env` file, and the parser of private keys, are parameters.
pub mod Start
pub mod First
use xmrgateway.Prelude.{
  ℕ, Bool, true, false, not, ◌&&◌, ◌||◌, ◌==◌, string_eq, nat_eq, String, Option, none, some,
  option_is_none, option_beq, nat_beq, Result, ok, err, ◌>>=◌,
}
use xmrgateway.Gateway.Build.{
  PaymentGatewayBuilder, builder_new, set_daemon_url, set_daemon_login, set_account_index,
  set_initial_height,
}
use xmrgateway.Server.Settings.{
  TlsConfig, ServerConfig, CallbackConfig, WalletConfig, DaemonLoginConfig, DaemonConfig,
  DatabaseConfig, LoggingConfig, Config, server_default, daemon_default, wallet_default,
  config_default,
}

-- `std::env::VarError`
pub data VarError : Type 0 where
  not_present : VarError
  not_unicode : VarError

pub data ConfigError (I Y : Type 0) : Type 0 where
  env : VarError → ConfigError I Y
  io : I → ConfigError I Y
  yaml : Y → ConfigError I Y

-- The environment, by `env::var`.
abbrev pub Env : Type 0
Env = String → Result VarError String

-- A disk with its errors, and the crates serde_yaml and dotenv.
pub record System (I Y : Type 0) : Type 1 where
  pub Disk : Type 0
  pub open_file : String → Disk → Result I String
  pub is_not_found : I → Bool
  pub create_file : String → Disk → Result I Disk
  pub write_all : String → String → Disk → Result I (Unit {0}) × Disk
  pub to_string : Config → Result Y String
  pub from_reader : String → Result Y Config
  pub dotenv : Env → Env

abbrev pub set_viewkey : String → WalletConfig → WalletConfig
set_viewkey key c = record c { private_viewkey = some key }

abbrev pub set_password : String → DaemonConfig → DaemonConfig
set_password password c = record c {
  login = elim c.login [
    | none ↦ none
    | some login ↦ some (record login { password = some password })
  ];
}

abbrev pub set_internal : String → Config → Config
set_internal token c = record c { internal_api = record c.internal_api { token = some token } }

abbrev pub set_external : String → Config → Config
set_external token c = record c { external_api = record c.external_api { token = some token } }

module _ {I Y : Type 0} where
  -- A value that a variable sets, if it is present.
  abbrev pub override :
      {C : Type 0} → Result VarError String → (String → C → C) → C → Result (ConfigError I Y) C
  override (ok value) set c = ok (set value c)
  override (err not_present) set c = ok c
  override (err not_unicode) set c = err (env not_unicode)

  -- `WalletConfig::apply_env_overrides`
  unfoldable pub wallet_overrides : Env → WalletConfig → Result (ConfigError I Y) WalletConfig
  wallet_overrides var c = override (var "PRIVATE_VIEWKEY") set_viewkey c

  -- `DaemonConfig::apply_env_overrides`
  unfoldable pub daemon_overrides : Env → DaemonConfig → Result (ConfigError I Y) DaemonConfig
  daemon_overrides var c = override (var "DAEMON_PASSWORD") set_password c

  -- `Config::apply_env_overrides`, in the environment after the `.env` file was read.
  unfoldable pub apply_env_overrides : Env → Config → Result (ConfigError I Y) Config
  unfolding wallet_overrides daemon_overrides
  apply_env_overrides var c = wallet_overrides var c.wallet >>= λ wallet.
      daemon_overrides var c.daemon >>= λ daemon.
      override (var "INTERNAL_API_TOKEN") set_internal
        (record c { wallet = wallet; daemon = daemon })
      >>= override (var "EXTERNAL_API_TOKEN") set_external

module _ {I Y : Type 0} (sys : System I Y) where
  -- `from_file` where no file was found.
  unfoldable pub write_default : String → sys.Disk → Result (ConfigError I Y) Config × sys.Disk
  write_default path disk = elim (sys.create_file path disk) [
    | err e ↦ (err (io e), disk)
    | ok created ↦ elim (sys.to_string config_default) [
      | err e ↦ (err (yaml e), created)
      | ok text ↦
          let (result, written) = sys.write_all path text created in
          (elim result [ err e ↦ err (io e) | ok u ↦ ok config_default ], written)
    ]
  ]

  unfoldable pub from_file : String → sys.Disk → Result (ConfigError I Y) Config × sys.Disk
  unfolding write_default
  from_file path disk = elim (sys.open_file path disk) [
    | ok text ↦ (elim (sys.from_reader text) [ err e ↦ err (yaml e) | ok c ↦ ok c ], disk)
    | err e ↦ elim (sys.is_not_found e) [
      | true ↦ write_default path disk
      | false ↦ (err (io e), disk)
    ]
  ]

  -- `Config::read`
  unfoldable pub read : Env → String → sys.Disk → Result (ConfigError I Y) Config × sys.Disk
  read var path disk =
      let (result, disk') = from_file path disk in
      (result >>= apply_env_overrides (sys.dotenv var), disk')

module _ (is_private_key : String → Bool) where
  abbrev pub wallet_validate : WalletConfig → Bool
  wallet_validate c =
      not (option_is_none c.primary_address)
      && elim c.private_viewkey [ none ↦ false | some key ↦ is_private_key key ]

  abbrev pub daemon_validate : DaemonConfig → Bool
  daemon_validate c = elim c.login [
    | none ↦ true
    | some login ↦ not (option_is_none login.password)
  ]

  abbrev pub server_validate : ServerConfig → Bool
  server_validate c = option_is_none c.token || not (option_is_none c.tls)

  -- `Config::validate`, which panics where this is false.
  unfoldable pub config_validate : Config → Bool
  config_validate c =
      wallet_validate c.wallet
      && daemon_validate c.daemon
      && server_validate c.internal_api
      && server_validate c.external_api

  -- `load_config`, whose panics are nothing.
  unfoldable pub load_config :
      {I Y : Type 0} (sys : System I Y) → Env → String → sys.Disk → Option Config × sys.Disk
  load_config sys var path disk =
      let (result, disk') = read sys var path disk in
      (
        elim result [
          | err e ↦ none
          | ok c ↦ elim (config_validate c) [ true ↦ some c | false ↦ none ]
        ],
        disk',
      )

-- `unwrap_or_default`
abbrev pub or_default : Option String → String
or_default none = ""
or_default (some p) = p

module _ {S : Type 0} where
  abbrev pub with_login :
      Option DaemonLoginConfig → PaymentGatewayBuilder S → PaymentGatewayBuilder S
  with_login none b = b
  with_login (some login) b = set_daemon_login login.username (or_default login.password) b

  abbrev pub with_restore_height : Option ℕ → PaymentGatewayBuilder S → PaymentGatewayBuilder S
  with_restore_height none b = b
  with_restore_height (some restore_height) b = set_initial_height restore_height b

  abbrev pub configured : Config → String → String → S → PaymentGatewayBuilder S
  configured c private_view_key primary_address store =
      with_restore_height c.wallet.restore_height (
        with_login c.daemon.login (
          set_daemon_url c.daemon.url (
            set_account_index c.wallet.account_index
              (builder_new private_view_key primary_address store))))

  -- `build_gateway` up to the builder, for a store; nothing is a panic.
  unfoldable pub gateway_builder : Config → S → Option (PaymentGatewayBuilder S)
  gateway_builder c store = elim c.wallet.private_viewkey [
    | none ↦ none
    | some private_view_key ↦ elim c.wallet.primary_address [
      | none ↦ none
      | some primary_address ↦ some (configured c private_view_key primary_address store)
    ]
  ]
