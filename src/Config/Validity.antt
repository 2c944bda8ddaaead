-- ===== src/Config/Validity.antt =====
-- What a valid configuration is, for validate of internal/config/config.go.
use blockade.Prelude.{
  All, Error, Result, ok, err, Result-cases, ◌==◌, Bytes, eq_iff, ℕ, ◌+◌, ◌≡◌, refl, ◌≢◌, ◌↔◌, inl,
  inr, Bool, true, false, not, ◌&&◌, Option, none, some, List, [], ◌∷◌, arith,
}
use blockade.Prelude.Int.{ℤ, pos, ◌<ℤ◌, ◌≤ℤ◌, ltb_ℤ, leb_ℤ}
use blockade.Config.{
  CurveConfig, RateLimitConfig, LndConfig, BitcoindConfig, RouteConfig, Config, ◌andthen◌, reject,
  is_some, is_empty, validate_lnd, validate_bitcoind, validate_curve, validate_routes,
  validate_rate_limit, validate, load,
}

-- Holds of the section if it is there.
abbrev Present : {A : Type 0} → (A → Type 0) → Option A → Type 0
Present P none = Unit
Present P (some a) = P a

abbrev LndValid : LndConfig → Type 0
LndValid c = (c.host ≢ []) × (c.tls_cert_path ≢ []) × (c.macaroon_path ≢ [])

abbrev BitcoindValid : BitcoindConfig → Type 0
BitcoindValid c =
    (c.host ≢ []) × (c.rpc_user ≢ []) × (c.rpc_pass ≢ []) × (pos 0 ≤ℤ c.min_confirmations)

abbrev CurveValid : CurveConfig → Type 0
CurveValid c =
    (pos 0 <ℤ c.floor_toll_sats)
    × (pos 0 <ℤ c.anonymous_cap)
    × (pos 0 <ℤ c.escalation_slope)
    × (pos 0 <ℤ c.enrollment_stake_sats)

abbrev RouteValid : RouteConfig → Type 0
RouteValid r = (r.path_prefix ≢ []) × (r.upstream ≢ []) × (pos 0 <ℤ r.price_sats)

-- One of the two backends, and not both.
abbrev pub OneBackend : Option LndConfig → Option BitcoindConfig → Type 0
OneBackend none none = ⊥
OneBackend (some l) (some b) = ⊥
OneBackend _ _ = Unit

-- Metering only without the on-chain backend.
abbrev pub CurveFits : Option BitcoindConfig → Option CurveConfig → Type 0
CurveFits (some b) (some c) = ⊥
CurveFits _ _ = Unit

module _ {F : Type 0} (le_zero : F → Bool) where
  abbrev RateLimitValid : RateLimitConfig F → Type 0
  RateLimitValid c = (le_zero c.requests_per_second ≡ false) × (pos 0 <ℤ c.burst)

  -- What the configuration file has to say.
  pub record IsValid (cfg : Config F) : Type 0 where
    pub listens : cfg.listen_addr ≢ []
    pub backend : OneBackend cfg.lnd cfg.bitcoind
    pub lnd : Present LndValid cfg.lnd
    pub bitcoind : Present BitcoindValid cfg.bitcoind
    pub rate_limit : Present RateLimitValid cfg.rate_limit
    pub curve : Present CurveValid cfg.curve
    pub curve_fits : CurveFits cfg.bitcoind cfg.curve
    pub has_routes : cfg.routes ≢ []
    pub routes : All RouteValid cfg.routes

reject_iff : (b : Bool) (e : Error) → (reject b e ≡ ok tt) ↔ (b ≡ false)
reject_iff true e = (λ h. cc, λ h. cc)
reject_iff false e = (λ h. refl, λ h. refl)

andthen_iff : (m n : Result (Unit {0})) → ((m andthen n) ≡ ok tt) ↔ ((m ≡ ok tt) × (n ≡ ok tt))
andthen_iff (ok u) n = (λ h. (refl, h), λ h. h.1)
andthen_iff (err e) n = (λ h. absurd (cc), λ h. absurd (ground arith))

nonempty_iff : (s : Bytes) → ((s == []) ≡ false) ↔ (s ≢ [])
nonempty_iff s = (λ h. λ e. ground (arith, eq_iff s []), λ h. ground (arith, eq_iff s [], h))

positive_iff : (a : ℤ) → (leb_ℤ a (pos 0) ≡ false) ↔ (pos 0 <ℤ a)
positive_iff a = (λ h. ground arith, λ h. ground arith)

nonneg_iff : (a : ℤ) → (ltb_ℤ a (pos 0) ≡ false) ↔ (pos 0 ≤ℤ a)
nonneg_iff a = (λ h. ground arith, λ h. ground arith)

ruleset checks = (andthen_iff, reject_iff, nonempty_iff, positive_iff, nonneg_iff)

lnd_iff : (o : Option LndConfig) → (validate_lnd o ≡ ok tt) ↔ Present LndValid o
unfolding validate_lnd
lnd_iff none = (λ h. tt, λ h. refl)
lnd_iff (some c) = simp checks (λ h. assumption, λ h. assumption)

bitcoind_iff : (o : Option BitcoindConfig) → (validate_bitcoind o ≡ ok tt) ↔ Present BitcoindValid o
unfolding validate_bitcoind
bitcoind_iff none = (λ h. tt, λ h. refl)
bitcoind_iff (some c) = simp checks (λ h. assumption, λ h. assumption)

curve_iff :
    (b : Option BitcoindConfig) (o : Option CurveConfig)
    → (validate_curve (is_some b) o ≡ ok tt) ↔ (Present CurveValid o × CurveFits b o)
unfolding validate_curve
curve_iff none none = (λ h. (tt, tt), λ h. refl)
curve_iff (some b) none = (λ h. (tt, tt), λ h. refl)
curve_iff none (some c) = simp checks (λ h. (assumption, tt), λ h. ground arith)
curve_iff (some b) (some c) = simp checks (λ h. ground arith, λ h. absurd h.1)

routes_iff : (i : ℕ) (rs : List RouteConfig) → (validate_routes i rs ≡ ok tt) ↔ All RouteValid rs
unfolding validate_routes
routes_iff i [] = (λ h. tt, λ h. refl)
routes_iff i (r ∷ rs) = simp (checks, routes_iff (i + 1) rs) (λ h. assumption, λ h. assumption)

module _ {F : Type 0} (le_zero : F → Bool) where
  rate_limit_iff :
      (o : Option (RateLimitConfig F))
      → (validate_rate_limit le_zero o ≡ ok tt) ↔ Present (RateLimitValid le_zero) o
  unfolding validate_rate_limit
  rate_limit_iff none = (λ h. tt, λ h. refl)
  rate_limit_iff (some c) = simp checks (λ h. assumption, λ h. assumption)

  backend_iff :
      (l : Option LndConfig) (b : Option BitcoindConfig)
      → (((not (is_some l) && not (is_some b)) ≡ false) × ((is_some l && is_some b) ≡ false))
        ↔ OneBackend l b
  backend_iff none none = (λ h. cc, λ h. absurd h)
  backend_iff none (some b) = (λ h. tt, λ h. (refl, refl))
  backend_iff (some l) none = (λ h. tt, λ h. (refl, refl))
  backend_iff (some l) (some b) = (λ h. cc, λ h. absurd h)

  has_routes_iff : (rs : List RouteConfig) → (is_empty rs ≡ false) ↔ (rs ≢ [])
  has_routes_iff [] = (λ h. absurd (cc), λ h. absurd (h refl))
  has_routes_iff (r ∷ rs) = (λ h e. cc, λ h. refl)

  -- `validate` accepts a configuration exactly if it has a listen address, one backend and not both,
  -- at least one route, all fields of the sections that are there in range, and metering only without
  -- the on-chain backend.
  pub validate_iff : (cfg : Config F) → (validate le_zero cfg ≡ ok tt) ↔ IsValid le_zero cfg
  unfolding validate
  validate_iff cfg =
      simp (checks, lnd_iff, bitcoind_iff, curve_iff, routes_iff, rate_limit_iff, has_routes_iff)
        (
          λ h. record {
            listens = h.0;
            backend = (backend_iff cfg.lnd cfg.bitcoind).0 (h.1.0, h.1.1.0);
            lnd = assumption;
            bitcoind = assumption;
            rate_limit = assumption;
            curve = assumption;
            curve_fits = assumption;
            has_routes = assumption;
            routes = assumption;
          },
          λ c.
              let (no_none, no_both) = (backend_iff cfg.lnd cfg.bitcoind).1 c.backend in assumption,
        )

  -- Load returns a configuration exactly if the file can be read, its YAML decodes to that
  -- configuration, and the configuration is valid.
  pub load_iff :
      (read_file : Bytes → Result Bytes) (unmarshal : Bytes → Result (Config F)) (path : Bytes)
      (cfg : Config F)
      → (load le_zero read_file unmarshal path ≡ ok cfg) ↔ (
          (text : Bytes) × (read_file path ≡ ok text)
          × (unmarshal text ≡ ok cfg)
          × IsValid le_zero cfg)
  unfolding load
  load_iff read_file unmarshal path cfg = (
    λ h. elim (Result-cases (read_file path)) [
      | inr (e, p) ↦ absurd (ground (arith, p))
      | inl (text, p) ↦ elim (Result-cases (unmarshal text)) [
        | inr (e, q) ↦ absurd (ground (arith, p, q))
        | inl (found, q) ↦ elim (Result-cases (validate le_zero found)) [
          | inr (e, v) ↦ absurd (ground (arith, p, q, v))
          | inl (u, v) ↦
              let same : found ≡ cfg = ground (arith, p, q, v) in
              (text, p, rw (← same) q, rw (← same) ((validate_iff found).0 v))
        ]
      ]
    ],
    λ (text, p, q, v). ground (arith, p, q, (validate_iff cfg).1 v),
  )
