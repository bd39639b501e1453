-- ===== src/Gateway/Build.antt =====
-- library/src/payment_gateway.rs: the builder. Durations are numbers of milliseconds; the types of the
-- crates that parse the key, the address and the url are parameters.
use xmrgateway.Prelude.{
  ℕ, ◌≡◌, ◌⊎◌, refl, sym, subst, String, nat_eq, Option, none, some, List, [], ◌∷◌, map, Result, ok,
  err, inl, inr, All,
}
use xmrgateway.External.Channel.{Channel}
use xmrgateway.External.IndexMap.{IndexMap}
use xmrgateway.Invoice.{SubIndex, InvoiceId, Invoice}
use xmrgateway.Storage.Traits.{Storage}
use xmrgateway.Pubsub.{SenderId, publisher_new}
use xmrgateway.Caching.SubaddressCache.{SubaddressCache}
use xmrgateway.Caching.SubaddressCache.Reuse.{IsGone}
use xmrgateway.Caching.SubaddressCache.Load.{subaddress_cache_init, subaddress_cache_init_lem}
use xmrgateway.Gateway.{Gateway}
use xmrgateway.Gateway.Tidy.{Stored, IsTidy}

-- The constants at the top of the file.
abbrev pub default_daemon : String
default_daemon = "http://node.moneroworld.com:18089"

abbrev pub default_scan_interval : ℕ
default_scan_interval = 1000

abbrev pub default_rpc_connection_timeout : ℕ
default_rpc_connection_timeout = 5000

abbrev pub default_rpc_total_timeout : ℕ
default_rpc_total_timeout = 10000

abbrev pub default_block_cache_size : ℕ
default_block_cache_size = 10

pub record PaymentGatewayBuilder (S : Type 0) : Type 0 where
  pub daemon_url : String
  pub daemon_username : Option String
  pub daemon_password : Option String
  pub rpc_timeout : ℕ
  pub rpc_connection_timeout : ℕ
  pub private_view_key : String
  pub primary_address : String
  pub scan_interval : ℕ
  pub store : S
  pub major_index : ℕ
  pub initial_height : Option ℕ
  pub seed : Option ℕ

module _ {S : Type 0} where
  abbrev pub builder_new : String → String → S → PaymentGatewayBuilder S
  builder_new private_view_key primary_address store = record {
    daemon_url = default_daemon;
    daemon_username = none;
    daemon_password = none;
    rpc_timeout = default_rpc_total_timeout;
    rpc_connection_timeout = default_rpc_connection_timeout;
    private_view_key = private_view_key;
    primary_address = primary_address;
    scan_interval = default_scan_interval;
    store = store;
    major_index = 0;
    initial_height = none;
    seed = none;
  }

  abbrev pub set_daemon_url : String → PaymentGatewayBuilder S → PaymentGatewayBuilder S
  set_daemon_url url b = record b { daemon_url = url }

  abbrev pub set_daemon_login : String → String → PaymentGatewayBuilder S → PaymentGatewayBuilder S
  set_daemon_login username password b = record b {
    daemon_username = some username;
    daemon_password = some password;
  }

  abbrev pub set_rpc_timeout : ℕ → PaymentGatewayBuilder S → PaymentGatewayBuilder S
  set_rpc_timeout timeout b = record b { rpc_timeout = timeout }

  abbrev pub set_rpc_connection_timeout : ℕ → PaymentGatewayBuilder S → PaymentGatewayBuilder S
  set_rpc_connection_timeout timeout b = record b { rpc_connection_timeout = timeout }

  abbrev pub set_scan_interval : ℕ → PaymentGatewayBuilder S → PaymentGatewayBuilder S
  set_scan_interval interval b = record b { scan_interval = interval }

  abbrev pub set_seed : ℕ → PaymentGatewayBuilder S → PaymentGatewayBuilder S
  set_seed seed b = record b { seed = some seed }

  abbrev pub set_account_index : ℕ → PaymentGatewayBuilder S → PaymentGatewayBuilder S
  set_account_index index b = record b { major_index = index }

  abbrev pub set_initial_height : ℕ → PaymentGatewayBuilder S → PaymentGatewayBuilder S
  set_initial_height height b = record b { initial_height = some height }

-- Some invoice of a list has this subaddress.
abbrev pub Has : SubIndex → List Invoice → Type 0
Has k [] = ⊥
Has k (inv ∷ invs) = (inv.index ≡ k) ⊎ Has k invs

Has-IsGone :
    (c : SubaddressCache) (k : SubIndex) (invs : List Invoice)
    → All (λ inv. IsGone inv.index c) invs
    → Has k invs
    → IsGone k c
Has-IsGone c k [] h m = absurd m
Has-IsGone c k (inv ∷ invs) h (inl same) = subst (λ j. IsGone j c) same h.0
Has-IsGone c k (inv ∷ invs) h (inr later) = Has-IsGone c k invs h.1 later

-- The errors of `AcceptXmrError` that can arise here.
pub data BuildError (E : Type 0) : Type 0 where
  parse : (datatype input error : String) → BuildError E
  storage : E → BuildError E

-- The parsers of the crates monero and hyper, with their errors as texts, and the addresses of a
-- view key and a spend key.
pub record Parsers : Type 1 where
  pub ViewKey : Type 0
  pub SpendKey : Type 0
  pub Uri : Type 0
  pub parse_key : String → Result String ViewKey
  pub parse_address : String → Result String SpendKey
  pub parse_uri : String → Result String Uri
  pub get_subaddress : ViewKey → SpendKey → SubIndex → String

module _ (ps : Parsers) {E : Type 0} (st : Storage E) (ch : Channel Invoice)
    (ix : IndexMap SenderId ch.Sender) where
  -- What `build_inner` makes, the daemon's client left out.
  pub record Built : Type 0 where
    pub gateway : Gateway st ch ix
    pub view : ps.ViewKey
    pub spend : ps.SpendKey
    pub scan_interval : ℕ
    pub major_index : ℕ
    pub initial_height : Option ℕ

  abbrev assembled :
      PaymentGatewayBuilder st.Store → ps.ViewKey → ps.SpendKey → SubaddressCache → Built
  assembled b view spend subaddresses = record {
    gateway = record {
      store = b.store;
      subaddresses = subaddresses;
      publisher = publisher_new ch ix;
      block_cache_height = 0;
      cached_daemon_height = 0;
    };
    view = view;
    spend = spend;
    scan_interval = b.scan_interval;
    major_index = b.major_index;
    initial_height = b.initial_height;
  }

  unfoldable pub build_inner : PaymentGatewayBuilder st.Store → Result (BuildError E) Built
  build_inner b = elim (ps.parse_key b.private_view_key) [
    | err e ↦ err (parse "PrivateKey" "[REDACTED]" e)
    | ok view ↦ elim (ps.parse_address b.primary_address) [
      | err e ↦ err (parse "Address" b.primary_address e)
      | ok spend ↦
          elim (subaddress_cache_init st (ps.get_subaddress view spend) b.major_index b.store) [
            | err e ↦ err (storage e)
            | ok subaddresses ↦ ok (assembled b view spend subaddresses)
          ]
    ]
  ]

  -- The client that the url gives rise to is not looked at again.
  unfoldable pub build : PaymentGatewayBuilder st.Store → Result (BuildError E) Built
  unfolding build_inner
  build b = elim (ps.parse_uri b.daemon_url) [
    | err e ↦ err (parse "Uri" b.daemon_url e)
    | ok uri ↦ build_inner b
  ]

  built :
      (b : PaymentGatewayBuilder st.Store) (uri : ps.Uri) (view : ps.ViewKey) (spend : ps.SpendKey)
      (c : SubaddressCache)
      → ps.parse_uri b.daemon_url ≡ ok uri
      → ps.parse_key b.private_view_key ≡ ok view
      → ps.parse_address b.primary_address ≡ ok spend
      → subaddress_cache_init st (ps.get_subaddress view spend) b.major_index b.store ≡ ok c
      → (m : Built) × (build b ≡ ok m) × (m.gateway.store ≡ b.store) × (m.gateway.subaddresses ≡ c)
  unfolding build build_inner
  built b uri view spend c u v s e =
      (assembled b view spend c, rw (u, v, s, e, build, build_inner) refl, refl, refl)

  -- If url, view key and address can be parsed, and the rows of the store can be read, have the
  -- builder's account index, include every stored invoice under its identifier and no subaddress
  -- twice, then a gateway is built on that store, in which the subaddress of no stored invoice is
  -- free or yet to be generated.
  pub build-IsTidy :
      (b : PaymentGatewayBuilder st.Store) (uri : ps.Uri) (view : ps.ViewKey) (spend : ps.SpendKey)
      (invs : List Invoice)
      → ps.parse_uri b.daemon_url ≡ ok uri
      → ps.parse_key b.private_view_key ≡ ok view
      → ps.parse_address b.primary_address ≡ ok spend
      → st.rows b.store ≡ ok (map ok invs)
      → All (λ inv. inv.index.major ≡ b.major_index) invs
      → ((i : InvoiceId) → Stored st i b.store → Has i.sub_index invs)
      → ((i j : InvoiceId)
          → Stored st i b.store
          → Stored st j b.store
          → i.sub_index ≡ j.sub_index
          → i ≡ j)
      → (m : Built) × (build b ≡ ok m) × IsTidy st m.gateway.store m.gateway.subaddresses
  build-IsTidy b uri view spend invs u v s e major covers apart =
      let (c, made, sound, gone) =
        subaddress_cache_init_lem st (ps.get_subaddress view spend) b.major_index b.store invs e
          major in
      let (m, done, same, cached) = built b uri view spend c u v s made in
      (
        m,
        done,
        subst (λ t. IsTidy st t m.gateway.subaddresses) (sym same)
            (subst (IsTidy st b.store) (sym cached) (record {
              sound = sound;
              taken = λ i h. Has-IsGone c i.sub_index invs gone (covers i h);
              apart = apart;
            })),
      )
