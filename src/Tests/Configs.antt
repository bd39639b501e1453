-- ===== src/Tests/Configs.antt =====
-- server/src/config: a configuration file whose private key comes from the environment.
use xmrgateway.Prelude.{
  ℕ, ◌≡◌, ◌==◌, string_eq, refl, ◌⊎◌, true, String, Option, none, some, if◌then◌else◌, ok, err,
}
use xmrgateway.Gateway.Build.{
  PaymentGatewayBuilder, default_rpc_total_timeout, default_rpc_connection_timeout,
}
use xmrgateway.Server.Config.{Env, System, not_present, from_file, load_config, gateway_builder}
use xmrgateway.Server.Settings.{Config, config_default, wallet_default}
use xmrgateway.Server.Config.Start.{IsUsable, effective, load_config_lem}
use xmrgateway.Server.Config.First.{HasLogin, gateway_builder_lem}

abbrev written : Config
written = record config_default { wallet = record wallet_default { primary_address = some "4613" } }

-- One file on disk, which is readable as this configuration.
abbrev disk : System String String
disk = record {
  Disk = Option String;
  open_file = λ path d. elim d [ none ↦ err "missing" | some text ↦ ok text ];
  is_not_found = λ e. true;
  create_file = λ path d. ok (some "");
  write_all = λ path text d. (ok tt, some text);
  to_string = λ c. ok "default";
  from_reader = λ text. ok written;
  dotenv = λ var. var;
}

abbrev key_only : Env
key_only name = if name == "PRIVATE_VIEWKEY" then ok "ad20" else err not_present

file_read : (from_file disk "acceptxmr.yaml" (some "yaml")).0 ≡ ok written
unfolding from_file
file_read = refl

load_config_lem_example :
    (IsUsable (λ k. true) (effective key_only written)
      × ((load_config (λ k. true) disk key_only "acceptxmr.yaml" (some "yaml")).0
          ≡ some (effective key_only written)))
    ⊎ ((IsUsable (λ k. true) (effective key_only written) → ⊥)
        × ((load_config (λ k. true) disk key_only "acceptxmr.yaml" (some "yaml")).0 ≡ none))
load_config_lem_example =
    load_config_lem (λ k. true) disk key_only "acceptxmr.yaml" (some "yaml") written file_read
      (tt, tt, tt, tt)

usable : IsUsable (λ k. true) (effective key_only written)
usable = record {
  address = λ e. absurd (cc);
  key = ("ad20", refl, refl);
  login = λ l e. absurd (cc);
  internal = λ h. absurd (h refl);
  external = λ h. absurd (h refl);
}

gateway_builder_lem_example :
    (b : PaymentGatewayBuilder ℕ) × (gateway_builder (effective key_only written) 0 ≡ some b)
    × (some b.private_view_key ≡ some "ad20")
    × (some b.primary_address ≡ some "4613")
    × (b.major_index ≡ 0)
    × (b.initial_height ≡ none)
    × (b.daemon_url ≡ "https://xmr-node.cakewallet.com:18081")
    × HasLogin none b
    × (b.rpc_timeout ≡ default_rpc_total_timeout)
    × (b.rpc_connection_timeout ≡ default_rpc_connection_timeout)
gateway_builder_lem_example = gateway_builder_lem (λ k. true) (effective key_only written) 0 usable
