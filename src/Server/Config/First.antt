-- ===== src/Server/Config/First.antt =====
-- server/src/config/mod.rs and lib.rs: a start without a configuration file, and the builder that a
-- configuration leads to.

use xmrgateway.Prelude.{
  ℕ, ◌≡◌, ◌≢◌, refl, sym, ap, ◌∙◌, Bool, true, inl, inr, String, Option, none, some, Option-cases,
  ok, err,
}
use xmrgateway.Gateway.Build.{
  PaymentGatewayBuilder, builder_new, set_daemon_url, set_account_index, default_rpc_total_timeout,
  default_rpc_connection_timeout,
}
use xmrgateway.Server.Config.{
  Env, System, write_default, from_file, read, load_config, with_login, with_restore_height,
  or_default, configured, gateway_builder,
}
use xmrgateway.Server.Settings.{Config, DaemonLoginConfig, config_default}
use xmrgateway.Server.Config.Start.{HasUnicode, IsUsable, load_config_lem}

module _ (is_private_key : String → Bool) where
  -- Where no configuration file is found, and one can be written: the defaults are written, and the start
  -- ends in a panic, whatever the environment sets, if it is Unicode.
  pub first_start_lem :
      {I Y : Type 0} (sys : System I Y) (var : Env) (path text : String)
      (disk created written : sys.Disk) (e : I)
      → sys.open_file path disk ≡ err e
      → sys.is_not_found e ≡ true
      → sys.create_file path disk ≡ ok created
      → sys.to_string config_default ≡ ok text
      → sys.write_all path text created ≡ (ok tt, written)
      → HasUnicode (sys.dotenv var)
      → load_config is_private_key sys var path disk ≡ (none, written)
  unfolding load_config read from_file
  first_start_lem {I} {Y} sys var path text disk created written e missing kind made wrote put u =
      let found : from_file sys path disk ≡ (ok config_default, written) = written_default in
      elim (load_config_lem is_private_key sys var path disk config_default (ap (λ x. x.0) found)
        u) [
          | inl (usable, _) ↦ absurd (usable.address refl)
          | inr (_, stopped) ↦ λ i. (stopped i, (found i).1)
        ]
    where
      written_default : from_file sys path disk ≡ (ok config_default, written)
      written_default = rw (missing, kind, from_file, made, wrote, write_default, put) refl

some_password : (o : Option String) → o ≢ none → some (or_default o) ≡ o
some_password none h = absurd (h refl)
some_password (some p) h = refl

module _ {S : Type 0} where
  abbrev pub HasLogin : Option DaemonLoginConfig → PaymentGatewayBuilder S → Type 0
  HasLogin none b = (b.daemon_username ≡ none) × (b.daemon_password ≡ none)
  HasLogin (some l) b = (b.daemon_username ≡ some l.username) × (b.daemon_password ≡ l.password)

  abbrev Follows :
      Option DaemonLoginConfig
      → Option ℕ
      → PaymentGatewayBuilder S
      → PaymentGatewayBuilder S
      → Type 0
  Follows login restore_height new b =
      (b.private_view_key ≡ new.private_view_key)
      × (b.primary_address ≡ new.primary_address)
      × (b.major_index ≡ new.major_index)
      × (b.initial_height ≡ restore_height)
      × (b.daemon_url ≡ new.daemon_url)
      × HasLogin login b
      × (b.rpc_timeout ≡ new.rpc_timeout)
      × (b.rpc_connection_timeout ≡ new.rpc_connection_timeout)

  follows :
      (login : Option DaemonLoginConfig) (restore_height : Option ℕ) (new : PaymentGatewayBuilder S)
      → ((l : DaemonLoginConfig) → login ≡ some l → l.password ≢ none)
      → new.daemon_username ≡ none
      → new.daemon_password ≡ none
      → new.initial_height ≡ none
      → Follows login restore_height new (with_restore_height restore_height (with_login login new))
  follows none none new h u p i = (refl, refl, refl, i, refl, (u, p), refl, refl)
  follows none (some r) new h u p i = (refl, refl, refl, refl, refl, (u, p), refl, refl)
  follows (some l) none new h u p i =
      (refl, refl, refl, i, refl, (refl, some_password l.password (h l refl)), refl, refl)
  follows (some l) (some r) new h u p i =
      (refl, refl, refl, refl, refl, (refl, some_password l.password (h l refl)), refl, refl)

  -- A usable configuration leads to a builder with its key, its address, its account, its restore
  -- height, and its daemon's URL and login; but the builder has the default timeouts, whatever
  -- timeouts the configuration has.
  pub gateway_builder_lem :
      (is_private_key : String → Bool) (c : Config) (store : S)
      → IsUsable is_private_key c
      → (b : PaymentGatewayBuilder S) × (gateway_builder c store ≡ some b)
        × (some b.private_view_key ≡ c.wallet.private_viewkey)
        × (some b.primary_address ≡ c.wallet.primary_address)
        × (b.major_index ≡ c.wallet.account_index)
        × (b.initial_height ≡ c.wallet.restore_height)
        × (b.daemon_url ≡ c.daemon.url)
        × HasLogin c.daemon.login b
        × (b.rpc_timeout ≡ default_rpc_total_timeout)
        × (b.rpc_connection_timeout ≡ default_rpc_connection_timeout)
  unfolding gateway_builder
  gateway_builder_lem is_private_key c store h = elim (Option-cases c.wallet.primary_address) [
    | inl missing ↦ absurd (h.address missing)
    | inr (address, found) ↦
        let (key, held, _) = h.key in
        let (k, a, account, height, url, login, total, connection) =
          follows c.daemon.login c.wallet.restore_height
            (set_daemon_url c.daemon.url
              (set_account_index c.wallet.account_index (builder_new key address store)))
            h.login refl refl refl in
        (
          configured c key address store,
          rw (held, gateway_builder, found) refl,
          ap some k ∙ sym held,
          ap some a ∙ sym found,
          account,
          height,
          url,
          login,
          total,
          connection,
        )
  ]
