-- ===== src/Startup/Serves.antt =====
-- The two cases of main's switch (cmd/proxy/main.go) where everything outside works.
use blockade.Prelude.{
  All, ok, Result-cases, Bytes, ℕ, ◌≡◌, refl, ap, inl, inr, Option, none, some, List, [], ◌∷◌,
  arith,
}
use mathlib.Core.Option
use blockade.Config.{Config, RouteConfig, CurveConfig, BitcoindConfig, LndConfig}
use blockade.Payment.{PaymentVerifier, CredentialIssuer}
use blockade.Store.Principal.{MemPrincipalStore}
use blockade.Lightning.Services.{Services}
use blockade.Lightning.Dial as Dial
use blockade.Lightning.Verifier as Lightning
use blockade.Lightning.Interface.{lightning_verifier, lightning_issuer}
use blockade.Onchain.Verifier as Onchain
use blockade.Proxy.Handler.{Handler, State, Route, build_routes}
use blockade.Proxy.Lifecycle.{new_handler, new_state, enable_curve}
use blockade.Startup.Backing.{Stores, any_store}
use blockade.Startup.{
  Machine, Started, with_lightning, with_bitcoind, without_backend, with_curve, build,
  start_lightning, start_bitcoind, bitcoin_verifier,
}

module _ {D M E J G B N F : Type 0} (mc : Machine D M E J G B N F) where
  -- What the configuration names outside works: its lnd can be reached, random bytes can be drawn, and
  -- the URLs of its upstreams parse.
  pub record Works (cfg : Config F) : Type 0 where
    pub dials :
        (l : LndConfig)
        → cfg.lnd ≡ some l
        → (sv : Services E) × (Dial.new_client mc.dialer l.host l.tls_cert_path l.macaroon_path
            ≡ ok sv)
          × ((k : ℕ) (e : E) → (b : Bytes) × ((sv.rand_read k e).0 ≡ ok b))
    pub parses : All (λ r. (u : Bytes) × (mc.parse r.upstream ≡ ok u)) cfg.routes

  -- The route that is configured: its prefix, its price and its upstream's URL.
  pub record IsRouteOf (r : RouteConfig) (rt : Route) : Type 0 where
    pub prefix : rt.path_prefix ≡ r.path_prefix
    pub price : rt.price_sats ≡ r.price_sats
    pub upstream : mc.parse r.upstream ≡ ok rt.upstream

  -- These routes, in their order, and no others.
  abbrev pub AreRoutesOf : List RouteConfig → List Route → Type 0
  AreRoutesOf [] [] = Unit
  AreRoutesOf (r ∷ rs) (rt ∷ rts) = IsRouteOf r rt × AreRoutesOf rs rts
  AreRoutesOf _ _ = ⊥

  -- The handler has the routes that are configured, and meters as configured.
  pub record Fits {V : Type 0} (cfg : Config F) (h : Handler V MemPrincipalStore N F) : Type 0 where
    pub routes : AreRoutesOf cfg.routes h.routes
    pub curve : Option.map (λ m. m.curve) h.metering ≡ cfg.curve

  -- What is served is the backend that is configured, and fits.
  abbrev pub Serves : Config F → Started mc → Type 0
  Serves cfg (with_lightning h s) = ((l : LndConfig) × (cfg.lnd ≡ some l)) × Fits cfg h
  Serves cfg (with_bitcoind v h s) = ((b : BitcoindConfig) × (cfg.bitcoind ≡ some b)) × Fits cfg h
  Serves cfg without_backend = ⊥

  routes-build :
      (rs : List RouteConfig)
      → All (λ r. (u : Bytes) × (mc.parse r.upstream ≡ ok u)) rs
      → (built : List Route) × (build_routes mc.parse rs ≡ ok built) × AreRoutesOf rs built
  unfolding build_routes
  routes-build [] parses = ([], refl, tt)
  routes-build (r ∷ rs) ((u, p), parses) =
      let (rest, q, n) = routes-build rs parses in
      (
        record { path_prefix = r.path_prefix; price_sats = r.price_sats; upstream = u } ∷ rest,
        ground (arith, p, q),
        (record { prefix = refl; price = refl; upstream = p }, n),
      )

  module _ (cfg : Config F) (works : Works cfg) where
    -- Without metering, or with an issuer.
    abbrev Meterable : {V : Type 0} → Option CurveConfig → Option (CredentialIssuer V) → Type 0
    Meterable none issuer = Unit
    Meterable (some c) none = ⊥
    Meterable (some c) (some ci) = Unit

    module _ {V : Type 0} where
      curve-Fits :
          (o : Option CurveConfig) (issuer : Option (CredentialIssuer V))
          (h : Handler V MemPrincipalStore N F)
          → Meterable o issuer
          → h.metering ≡ none
          → (h' : Handler V MemPrincipalStore N F) × (with_curve mc o issuer h ≡ ok h')
            × (h'.routes ≡ h.routes)
            × (Option.map (λ m. m.curve) h'.metering ≡ o)
      unfolding with_curve enable_curve
      curve-Fits none issuer h y e = (h, refl, refl, ap (Option.map (λ m. m.curve)) e)
      curve-Fits (some c) none h y e = absurd y
      curve-Fits (some c) (some ci) h y e = (_, refl, refl, refl)

      handler-made :
          (verifier : PaymentVerifier V)
          → (h : Handler V MemPrincipalStore N F) × (new_handler mc.parse mc.no_rate mc.rate
                mc.exchange cfg.routes verifier cfg.rate_limit
              ≡ ok h)
            × (h.metering ≡ none)
            × AreRoutesOf cfg.routes h.routes
      unfolding new_handler
      handler-made verifier =
          let (built, p, n) = routes-build cfg.routes works.parses in
          elim (Result-cases (
            new_handler {P = MemPrincipalStore} mc.parse mc.no_rate mc.rate mc.exchange cfg.routes
              verifier cfg.rate_limit)) [
                | inl (h, e) ↦ (
                  h,
                  e,
                  ground (arith, e, p),
                  (let same : built ≡ h.routes = ground (arith, e, p) in rw (← same) n),
                )
                | inr (x, e) ↦ absurd (ground (arith, e, p))
              ]

      build-Fits :
          (verifier : PaymentVerifier V) (issuer : Option (CredentialIssuer V)) (backend : V)
          → Meterable cfg.curve issuer
          → (h : Handler V MemPrincipalStore N F) × (s : State V MemPrincipalStore N) × (build mc
                cfg verifier issuer backend
              ≡ ok (h, s))
            × Fits cfg h
      unfolding build
      build-Fits verifier issuer backend y =
          let (h, made, bare, n) = handler-made verifier in
          let (h', metered, same, c) = curve-Fits cfg.curve issuer h y bare in
          (
            h',
            new_state cfg.rate_limit backend [],
            ground (arith, made, metered),
            record { routes = rw same n; curve = c },
          )

    -- The credentials' and the payments' keys.
    verifier-made :
        (sv : Services E)
        → ((k : ℕ) (e : E) → (b : Bytes) × ((sv.rand_read k e).0 ≡ ok b))
        → (v : Lightning.Verifier M E (Stores D)) × ((Lightning.new_verifier mc.lib sv
              (any_store mc.db)
              mc.lnd_state).0
            ≡ ok v)
    unfolding Lightning.new_verifier
    verifier-made sv draws =
        let (k, p) = draws 32 mc.lnd_state in
        let (k', q) = draws 32 (sv.rand_read 32 mc.lnd_state).1 in
        elim (Result-cases (Lightning.new_verifier mc.lib sv (any_store mc.db) mc.lnd_state).0) [
          | inl (v, e) ↦ (v, e)
          | inr (x, e) ↦ absurd (ground (arith, p, q, e))
        ]

    unmetered :
        {V : Type 0} (o : Option CurveConfig) (issuer : Option (CredentialIssuer V))
        → o ≡ none
        → Meterable o issuer
    unmetered none issuer e = tt
    unmetered (some c) issuer e = absurd (cc e)

    any_curve :
        {V : Type 0} (o : Option CurveConfig) (ci : CredentialIssuer V) → Meterable o (some ci)
    any_curve none ci = tt
    any_curve (some c) ci = tt

    pub lightning-Serves :
        (l : LndConfig) (stores : Stores D)
        → cfg.lnd ≡ some l
        → (st : Started mc) × (start_lightning mc cfg l stores ≡ ok st) × Serves cfg st
    unfolding start_lightning
    lightning-Serves l stores e =
        let (sv, dialled, draws) = works.dials l e in
        let (v, made) = verifier-made sv draws in
        let (h, s, built, fits) =
          build-Fits (lightning_verifier v) (some (lightning_issuer v))
            (record {
              env = (Lightning.new_verifier mc.lib sv (any_store mc.db) mc.lnd_state).1;
              store = stores;
            })
            (any_curve cfg.curve (lightning_issuer v)) in
        (with_lightning h s, ground (arith, dialled, made, built), ((l, e), fits))

    pub bitcoind-Serves :
        (b : BitcoindConfig) (stores : Stores D)
        → cfg.bitcoind ≡ some b
        → cfg.curve ≡ none
        → (st : Started mc) × (start_bitcoind mc cfg b stores ≡ ok st) × Serves cfg st
    unfolding start_bitcoind
    bitcoind-Serves b stores e c =
        let (h, s, built, fits) =
          build-Fits (Onchain.onchain_verifier (bitcoin_verifier mc b)) none
            (record { env = mc.bitcoind_state; store = stores }) (unmetered cfg.curve none c) in
        (with_bitcoind (bitcoin_verifier mc b) h s, ground (arith, built), ((b, e), fits))
