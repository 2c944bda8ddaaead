-- ===== src/Proxy/Lifecycle.antt =====
-- New, EnableCurve and the cleanup loops of internal/proxy/proxy.go, and the handler over time: a
-- list of events, one after another.
use blockade.Prelude.{
  ltb, Result, ok, ◌>>=◌, Bytes, retain, ℕ, ◌-◌, not, Option, none, some, List, [], ◌∷◌,
}
use blockade.Prelude.Int.{pos}
use blockade.Std.Http.{Request, Exchange, fresh_writer}
use blockade.Payment.{PaymentVerifier, CredentialIssuer}
use blockade.Config.{CurveConfig, RateLimitConfig, RouteConfig}
use blockade.Store.Principal.{PrincipalStore}
use blockade.Proxy.Handler.{Handler, State, RateLib, Forward, build_routes}
use blockade.Proxy.Serve.{serve_http}

abbrev limit_of : {F A : Type 0} → (RateLimitConfig F → A) → A → Option (RateLimitConfig F) → A
limit_of field other none = other
limit_of field other (some rl) = field rl

module _ {V P N F : Type 0} where
  -- New: `parse` is url.Parse, and `no_rate` the float 0 of a handler without rate limiting.
  unfoldable pub new_handler :
      (Bytes → Result Bytes)
      → F
      → RateLib F N
      → (Bytes → Request → List Forward → Exchange)
      → List RouteConfig
      → PaymentVerifier V
      → Option (RateLimitConfig F)
      → Result (Handler V P N F)
  unfolding build_routes
  new_handler parse no_rate rate exchange routes verifier rl = do
    built ← build_routes parse routes
    ok (record {
      verifier = verifier;
      routes = built;
      rate = rate;
      limit_rps = limit_of (λ c. c.requests_per_second) no_rate rl;
      limit_burst = limit_of (λ c. c.burst) (pos 0) rl;
      metering = none;
      exchange = exchange;
    })

  -- The state of a new handler over a backend and a principal store.
  unfoldable pub new_state : Option (RateLimitConfig F) → V → P → State V P N
  new_state rl backend principals = record {
    backend = backend;
    limiters = limit_of (λ c. some []) none rl;
    anon_counts = [];
    pending_enrollments = [];
    principal_state = principals;
    forwards = [];
  }

  -- EnableCurve: `issuer` is the verifier as a CredentialIssuer, if it is one; `none` is log.Fatal.
  unfoldable pub enable_curve :
      CurveConfig
      → Option (CredentialIssuer V)
      → PrincipalStore P
      → Handler V P N F
      → Option (Handler V P N F)
  enable_curve curve issuer principals h = elim issuer [
    | none ↦ none
    | some ci ↦ some (record h {
      metering = some (record { curve = curve; cred_issuer = ci; principals = principals });
    })
  ]

-- A tick of startAnonCleanup: every count is deleted.
unfoldable pub anon_tick : {V P N : Type 0} → State V P N → State V P N
anon_tick s = record s { anon_counts = [] }

-- time.Now().Add(-10 * time.Minute), for a clock past that.
abbrev pub limiter_cutoff : ℕ → ℕ
limiter_cutoff now = now - 600_000_000_000

-- A tick of startLimiterCleanup: what was last seen before the cutoff is deleted.
unfoldable pub limiter_tick : {V P N : Type 0} → ℕ → State V P N → State V P N
limiter_tick now s = record s {
  limiters = elim s.limiters [
    | none ↦ none
    | some limiters ↦ some (retain (λ e. not (ltb e.last_seen (limiter_cutoff now))) limiters)
  ];
}

pub data Event : Type 0 where
  request : ℕ → Request → Event
  anon_cleanup : Event
  limiter_cleanup : ℕ → Event

module _ {V P N F : Type 0} (h : Handler V P N F) where
  unfoldable pub step : State V P N → Event → State V P N
  unfolding anon_tick limiter_tick
  step s (request now r) = (serve_http h now r fresh_writer s).1
  step s anon_cleanup = anon_tick s
  step s (limiter_cleanup now) = limiter_tick now s

  unfoldable pub run : State V P N → List Event → State V P N
  run s [] = s
  run s (e ∷ es) = run (step s e) es
