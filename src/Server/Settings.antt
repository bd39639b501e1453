-- ===== src/Server/Settings.antt =====
-- server/src/config: the settings of the server with their defaults. Paths, addresses, URLs and levels are
-- texts; durations are seconds.
use xmrgateway.Prelude.{ℕ, Bool, true, String, Option, none, some}

pub record TlsConfig : Type 0 where
  pub cert : String
  pub key : String

pub record ServerConfig : Type 0 where
  pub port : ℕ
  pub ipv4 : String
  pub ipv6 : Option String
  pub token : Option String
  pub tls : Option TlsConfig
  pub static_dir : String

pub record CallbackConfig : Type 0 where
  pub queue_size : ℕ
  pub max_retries : Option ℕ

pub record WalletConfig : Type 0 where
  pub primary_address : Option String
  pub private_viewkey : Option String
  pub account_index : ℕ
  pub restore_height : Option ℕ

pub record DaemonLoginConfig : Type 0 where
  pub username : String
  pub password : Option String

pub record DaemonConfig : Type 0 where
  pub url : String
  pub login : Option DaemonLoginConfig
  pub rpc_timeout : ℕ
  pub connection_timeout : ℕ

pub record DatabaseConfig : Type 0 where
  pub path : String
  pub delete_expired : Bool

pub record LoggingConfig : Type 0 where
  pub verbosity : String

pub record Config : Type 0 where
  pub external_api : ServerConfig
  pub internal_api : ServerConfig
  pub callback : CallbackConfig
  pub wallet : WalletConfig
  pub daemon : DaemonConfig
  pub database : DatabaseConfig
  pub logging : LoggingConfig

abbrev pub server_default : ServerConfig
server_default = record {
  port = 8080;
  ipv4 = "127.0.0.1";
  ipv6 = some "::1";
  token = none;
  tls = none;
  static_dir = "./server/static/";
}

abbrev pub daemon_default : DaemonConfig
daemon_default = record {
  url = "https://xmr-node.cakewallet.com:18081";
  login = none;
  rpc_timeout = 30;
  connection_timeout = 20;
}

abbrev pub wallet_default : WalletConfig
wallet_default = record {
  primary_address = none;
  private_viewkey = none;
  account_index = 0;
  restore_height = none;
}

-- `Config::default`
abbrev pub config_default : Config
config_default = record {
  external_api = server_default;
  internal_api = record server_default {
    port = 8081;
    tls = some (record { cert = "./cert/certificate.pem"; key = "./cert/privatekey.pem" });
  };
  callback = record { queue_size = 1000; max_retries = some 50 };
  wallet = wallet_default;
  daemon = daemon_default;
  database = record { path = "AcceptXMR_DB/"; delete_expired = true };
  logging = record { verbosity = "INFO" };
}
