-- ===== src/Startup.antt =====
-- cmd/proxy/main.go: the choice of the stores and of the backend, and the handler that is served.
-- log.Fatalf is an error. Flags, listening and logging are not modelled.
pub mod Backing
pub mod Serves
pub mod Main
pub mod Life
pub mod Accounts
pub mod Paid
use blockade.Prelude.{
  new, Result, ok, err, ◌>>=◌, context, Bytes, Bool, Option, none, some, List, [],
}
use blockade.Prelude.Int.{ℤ}
use blockade.Std.Http.{Request, Exchange}
use blockade.Config.{load, Config, LndConfig, BitcoindConfig, CurveConfig}
use blockade.Payment.{PaymentVerifier, CredentialIssuer}
use blockade.Store.Types.{Store, PendingStore}
use blockade.Store.Sqlite.{Engine}
use blockade.Store.Principal.{MemPrincipalStore, mem_principals}
use blockade.Lightning.Services.{MacaroonLib, Services}
use blockade.Lightning.Verifier as Lightning
use blockade.Lightning.Interface.{lightning_verifier, lightning_issuer}
use blockade.Onchain.Client.{Net, new_client}
use blockade.Lightning.Dial as Dial
use blockade.Lightning.Dial.{Dialer}
use blockade.Onchain.Verifier as Onchain
use blockade.Proxy.Handler.{Handler, State, RateLib, Forward, build_routes}
use blockade.Proxy.Lifecycle.{new_handler, new_state, enable_curve}
use blockade.Startup.Backing.{Stores, choose_stores, any_store, any_pending}

-- What main finds outside: the engine of the database, the macaroon library, the connection to lnd
-- and lnd's state, bitcoind's RPC interface and its state, url.Parse, the rate limiters, and the
-- upstreams. `no_rate` is the float 0.
pub record Machine (D M E J G B N F : Type 0) : Type 0 where
  pub db : Engine D
  pub lib : MacaroonLib M
  pub dialer : Dialer E
  pub lnd_state : E
  pub net : Net J G B
  pub bitcoind_state : B
  pub unmarshal_yaml : Bytes → Result (Config F)
  -- whether a float is at most 0
  pub le_zero : F → Bool
  pub parse : Bytes → Result Bytes
  pub no_rate : F
  pub rate : RateLib F N
  pub exchange : Bytes → Request → List Forward → Exchange

module _ {D M E J G B N F : Type 0} (mc : Machine D M E J G B N F) where
  abbrev pub LightningState : Type 0
  LightningState = Lightning.World E (Stores D)

  abbrev pub OnchainState : Type 0
  OnchainState = Onchain.World B (Stores D)

  -- What is served. Without a backend the verifier is nil. Beside the handler with bitcoind runs the
  -- loop of its verifier, which Startup/Life ticks.
  pub data Started : Type 0 where
    with_lightning :
        Handler LightningState MemPrincipalStore N F
        → State LightningState MemPrincipalStore N
        → Started
    with_bitcoind :
        Onchain.Verifier J G B (Stores D)
        → Handler OnchainState MemPrincipalStore N F
        → State OnchainState MemPrincipalStore N
        → Started
    without_backend : Started

  module _ {V : Type 0} where
    -- `if cfg.Curve != nil`
    unfoldable pub with_curve :
        Option CurveConfig
        → Option (CredentialIssuer V)
        → Handler V MemPrincipalStore N F
        → Result (Handler V MemPrincipalStore N F)
    unfolding enable_curve
    with_curve none issuer h = ok h
    with_curve (some c) issuer h = elim (enable_curve c issuer mem_principals h) [
      | none ↦ err (new "curve metering requires a verifier that implements CredentialIssuer")
      | some h' ↦ ok h'
    ]

    -- From proxy.New on.
    unfoldable pub build :
        Config F
        → PaymentVerifier V
        → Option (CredentialIssuer V)
        → V
        → Result (Handler V MemPrincipalStore N F × State V MemPrincipalStore N)
    unfolding new_handler with_curve new_state
    build cfg verifier issuer backend = do
      h ←
          context "create proxy"
            (new_handler mc.parse mc.no_rate mc.rate mc.exchange cfg.routes verifier cfg.rate_limit)
      h' ← with_curve cfg.curve issuer h
      ok (h', new_state cfg.rate_limit backend [])

  -- `case cfg.Lnd != nil`
  unfoldable pub start_lightning : Config F → LndConfig → Stores D → Result Started
  unfolding build Lightning.new_verifier
  start_lightning cfg l stores = do
    services ←
        context "connect to lnd" (Dial.new_client mc.dialer l.host l.tls_cert_path l.macaroon_path)
    v ←
        context "create lightning verifier"
          (Lightning.new_verifier mc.lib services (any_store mc.db) mc.lnd_state).0
    (h, s) ← build cfg (lightning_verifier v) (some (lightning_issuer v)) (record {
      env = (Lightning.new_verifier mc.lib services (any_store mc.db) mc.lnd_state).1;
      store = stores;
    })
    ok (with_lightning h s)

  -- NewVerifier up to `go v.cleanupLoop()`.
  abbrev pub bitcoin_verifier : BitcoindConfig → Onchain.Verifier J G B (Stores D)
  bitcoin_verifier b = record {
    btc = new_client mc.net b.host b.rpc_user b.rpc_pass;
    min_conf = b.min_confirmations;
    st = any_store mc.db;
    ps = any_pending mc.db;
  }

  -- `case cfg.Bitcoind != nil`
  unfoldable pub start_bitcoind : Config F → BitcoindConfig → Stores D → Result Started
  unfolding build
  start_bitcoind cfg b stores = do
    (h, s) ←
        build cfg (Onchain.onchain_verifier (bitcoin_verifier b)) none
          (record { env = mc.bitcoind_state; store = stores })
    ok (with_bitcoind (bitcoin_verifier b) h s)

  -- Neither: the verifier is nil, which implements no CredentialIssuer.
  unfoldable pub start_without : Config F → Result Started
  unfolding build_routes
  start_without cfg = do
    _ ← context "create proxy" (build_routes mc.parse cfg.routes)
    elim cfg.curve [
      | some c ↦ err (new "curve metering requires a verifier that implements CredentialIssuer")
      | none ↦ ok without_backend
    ]

  unfoldable pub start : Config F → Result Started
  unfolding choose_stores start_lightning start_bitcoind start_without
  start cfg = do
    stores ← choose_stores mc.db cfg.db_path
    elim cfg.lnd [
      | some l ↦ start_lightning cfg l stores
      | none ↦ elim cfg.bitcoind [ some b ↦ start_bitcoind cfg b stores | none ↦ start_without cfg ]
    ]

  -- main from config.Load to the call of http.ListenAndServe, for the path of the -config flag.
  unfoldable pub main : Bytes → Result Started
  unfolding start load
  main path = do
    cfg ← context "load config" (load mc.le_zero mc.dialer.read_file mc.unmarshal_yaml path)
    start cfg
