-- ===== src/Proxy/Counting/Run.antt =====
-- The count of a principal in internal/proxy/proxy.go over a run of requests, and the price that it
-- is asked for next.
use blockade.Prelude.{
  ltb, if◌then◌else◌, Option-cases, length, ok, ◌==◌, Bytes, bytes, lookup, ℕ, suc, ◌+◌, ◌-◌, ◌*◌,
  ◌^◌, ◌<◌, ◌≡◌, refl, ap, ◌∙◌, inl, inr, false, ◌&&◌, none, some, List, [], ◌∷◌, arith,
}
use blockade.Prelude.Int.{ℤ, pos}
use blockade.Std.Http.{Request, Writer, fresh_writer, get}
use blockade.Config.{CurveConfig}
use blockade.Payment.{CredentialIssuer}
use blockade.Price.{curve_price}
use blockade.Price.Curve.{curve_price-exact}
use blockade.Store.Principal.{PrincipalRecord, MemPrincipalStore, get_principal, counted}
use blockade.Proxy.Anonymous.Run.{count_fits}
use blockade.Proxy.Counting.{in_memory}
use blockade.Proxy.Counting.Step.{
  is_for, NeverGiven, Spares, Tally, idle, other, charge, serve_http-Tally,
}
use blockade.Proxy.Handler.{
  Handler, State, Route, authorization_header, credential_header, challenge, match_route,
}
use blockade.Proxy.Metered.{next_price, serve_principal, serve_credentialed, serve_metered}
use blockade.Proxy.Flat.{serve_flat}
use blockade.Proxy.Serve.{set_cors, serve_route, dispatch, serve_http}
use blockade.Proxy.Lifecycle.{
  Event, request, anon_cleanup, limiter_cleanup, anon_tick, limiter_tick, step, run,
}

module _ {V N : Type 0} (issuer : CredentialIssuer V) (id : Bytes) where
  -- 1 if the request carries a valid credential for `id` and was sent on.
  abbrev sent_for : Request → State V MemPrincipalStore N → State V MemPrincipalStore N → ℕ
  sent_for r s s' =
      if is_for issuer id r && ltb (length s.forwards) (length s'.forwards) then 1 else 0

  -- The principal is known, with `n` requests.
  abbrev pub HasCount : ℕ → State V MemPrincipalStore N → Type 0
  HasCount n s =
      (rec : PrincipalRecord) × (lookup id s.principal_state ≡ some rec)
      × (rec.request_count ≡ pos n)

  count_after :
      (r : Request) (s s' : State V MemPrincipalStore N) (n : ℕ)
      → Tally issuer id r s s'
      → HasCount n s
      → n + sent_for r s s' < 2 ^ 63
      → HasCount (n + sent_for r s s') s'
  count_after r s s' n (idle f e) (rec, known, has) few = (rec, e ∙ known, has ∙ ground (arith, f))
  count_after r s s' n (other differs e) (rec, known, has) few =
      (rec, e ∙ known, has ∙ ground (arith, differs))
  count_after r s s' n (charge same l e) (rec, known, has) few =
      let one : sent_for r s s' ≡ 1 = ground (arith, same, l) in
      let next : n + sent_for r s s' ≡ suc n = omega (arith, one) in
      (counted rec, e ∙ rw known refl, rw (next, has) (count_fits n (omega (arith, few, next))))

module _ {V N F : Type 0} (h : Handler V MemPrincipalStore N F) (issuer : CredentialIssuer V)
    (id : Bytes) where
  abbrev sent_in : State V MemPrincipalStore N → Event → ℕ
  sent_in s (request now r) = sent_for issuer id r s (step h s (request now r))
  sent_in s _ = 0

  -- How many requests of a run were sent on under a credential of `id`.
  unfoldable pub served : State V MemPrincipalStore N → List Event → ℕ
  served s [] = 0
  served s (e ∷ es) = sent_in s e + served (step h s e) es

  -- No request of the run completes an enrolment that is given the identifier `id`.
  abbrev pub SparesRun : State V MemPrincipalStore N → List Event → Type 0
  SparesRun s [] = Unit
  SparesRun s (request now r ∷ es) =
      Spares h issuer id now r s × SparesRun (step h s (request now r)) es
  SparesRun s (e ∷ es) = SparesRun (step h s e) es

  always_spared :
      (s : State V MemPrincipalStore N) (es : List Event) → NeverGiven issuer id → SparesRun s es
  always_spared s [] never = tt
  always_spared s (request now r ∷ es) never =
      (λ t e. never now t s.backend, always_spared (step h s (request now r)) es never)
  always_spared s (anon_cleanup ∷ es) never = always_spared (step h s anon_cleanup) es never
  always_spared s (limiter_cleanup now ∷ es) never =
      always_spared (step h s (limiter_cleanup now)) es never

  -- A request to a route, with a credential of `id` and no token.
  pub record AsksAgain (r : Request) (rt : Route) : Type 0 where
    pub real : (r.method == bytes "OPTIONS") ≡ false
    pub elsewhere : (r.path == bytes "/l402/settlement") ≡ false
    pub matches : match_route r.path h.routes ≡ some rt
    pub carries : (get credential_header r.header == []) ≡ false
    pub valid : issuer.validate_credential (get credential_header r.header) ≡ ok id
    pub bare : h.verifier.extract_token (get authorization_header r.header) ≡ none

  module _ (curve : CurveConfig) (on : h.metering ≡ some (in_memory h curve issuer)) where
    request-HasCount :
        (now : ℕ) (r : Request) (s : State V MemPrincipalStore N) (n : ℕ)
        → Spares h issuer id now r s
        → HasCount issuer id n s
        → n + sent_in s (request now r) < 2 ^ 63
        → HasCount issuer id (n + sent_in s (request now r)) (step h s (request now r))
    unfolding step
    request-HasCount now r s n spares has few =
        count_after issuer id r s _ n (serve_http-Tally h curve issuer id on now r s spares) has few

    -- The count of a principal goes up by the requests of a run that are sent on under its
    -- credentials.
    pub run-HasCount :
        (s : State V MemPrincipalStore N) (es : List Event) (n : ℕ)
        → SparesRun s es
        → HasCount issuer id n s
        → n + served s es < 2 ^ 63
        → HasCount issuer id (n + served s es) (run h s es)
    unfolding run served step anon_tick limiter_tick
    run-HasCount s [] n spares has few = let same : n + 0 ≡ n = omega arith in rw same has
    run-HasCount s (request now r ∷ es) n (first, rest) has few =
        let k = sent_in s (request now r) in
        let s' = step h s (request now r) in
        let assoc : n + (k + served s' es) ≡ n + k + served s' es = omega arith in
        rw assoc (
          run-HasCount s' es (n + k) rest
            (request-HasCount now r s n first has (omega (arith, few))) (omega (arith, few)))
    run-HasCount s (anon_cleanup ∷ es) n spares has few =
        let s' = step h s anon_cleanup in
        let same : n + (0 + served s' es) ≡ n + served s' es = omega arith in
        rw same (run-HasCount s' es n spares has (omega (arith, few)))
    run-HasCount s (limiter_cleanup now ∷ es) n spares has few =
        let s' = step h s (limiter_cleanup now) in
        let same : n + (0 + served s' es) ≡ n + served s' es = omega arith in
        rw same (run-HasCount s' es n spares has (omega (arith, few)))

    known_asked :
        (now : ℕ) (cred : Bytes) (price : ℤ) (rec : PrincipalRecord) (r : Request) (w : Writer)
        (rt : Route) (s : State V MemPrincipalStore N)
        → issuer.validate_credential cred ≡ ok id
        → lookup id s.principal_state ≡ some rec
        → next_price h (in_memory h curve issuer) rec ≡ price
        → serve_credentialed h (in_memory h curve issuer) now cred none r w rt s
          ≡ challenge h now price r w s
    unfolding serve_credentialed serve_principal get_principal
    known_asked now cred price rec r w rt s valid known asks =
        rw (valid, known, serve_credentialed) (ap (λ p. challenge h now p r w s) asks)

    metered_asked :
        (now n price : ℕ) (r : Request) (w : Writer) (rt : Route) (s : State V MemPrincipalStore N)
        → HasCount issuer id n s
        → AsksAgain r rt
        → suc n < 2 ^ 63
        → curve_price (pos (suc n)) curve.floor_toll_sats curve.escalation_slope ≡ pos price
        → serve_metered h (in_memory h curve issuer) now r w rt s
          ≡ challenge h now (pos price) r w s
    unfolding serve_metered next_price
    metered_asked now n price r w rt s (rec, known, has) a few asks =
        rw (a.carries, a.bare, serve_metered)
          (known_asked now _ (pos price) rec r w rt s a.valid known
            (rw (has, count_fits n few) asks))

    routed :
        (now : ℕ) (r : Request) (w : Writer) (rt : Route) (s : State V MemPrincipalStore N)
        → match_route r.path h.routes ≡ some rt
        → serve_route h now r w s ≡ serve_metered h (in_memory h curve issuer) now r w rt s
    unfolding serve_route
    routed now r w rt s matches =
        rw (matches, serve_route)
          (ap
            (λ o. elim o [
              | none ↦ serve_flat h now r w rt s
              | some m ↦ serve_metered h m now r w rt s
            ])
            on)

    dispatched :
        (now : ℕ) (r : Request) (w : Writer) (s : State V MemPrincipalStore N)
        → (r.path == bytes "/l402/settlement") ≡ false
        → dispatch h now r w s ≡ serve_route h now r w s
    unfolding dispatch
    dispatched now r w s elsewhere = elim (Option-cases h.metering) [
      | inl e ↦ ground (arith, e)
      | inr (m, e) ↦ ground (arith, e, elsewhere)
    ]

    asked :
        (now n price : ℕ) (r : Request) (rt : Route) (s : State V MemPrincipalStore N)
        → HasCount issuer id n s
        → AsksAgain r rt
        → suc n < 2 ^ 63
        → curve_price (pos (suc n)) curve.floor_toll_sats curve.escalation_slope ≡ pos price
        → serve_http h now r fresh_writer s
          ≡ challenge h now (pos price) r (set_cors fresh_writer) s
    unfolding serve_http
    asked now n price r rt s has a few asks =
        rw (a.real, serve_http)
          (dispatched now r (set_cors fresh_writer) s a.elsewhere
            ∙ routed now r (set_cors fresh_writer) rt s a.matches
            ∙ metered_asked now n price r (set_cors fresh_writer) rt s has a few asks)

  module _ (curve : CurveConfig) (on : h.metering ≡ some (in_memory h curve issuer))
      (never : NeverGiven issuer id) where
    -- With metering and the principals in memory, the price escalates with use: a principal that is
    -- known with `n` requests, and under whose credentials `m` more were sent on in a run of any
    -- requests and cleanups, is asked for floor + slope * (n + m) when it then sends a request
    -- without a token. Neither that price nor the count passes 2 ^ 63, and no enrolment is given
    -- the principal's identifier.
    pub asked_escalates :
        (s : State V MemPrincipalStore N) (es : List Event) (n floor slope : ℕ)
        → HasCount issuer id n s
        → curve.floor_toll_sats ≡ pos floor
        → curve.escalation_slope ≡ pos slope
        → suc (n + served s es) < 2 ^ 63
        → floor + slope * (n + served s es) < 2 ^ 63
        → (now : ℕ) (r : Request) (rt : Route) → AsksAgain r rt
        → serve_http h now r fresh_writer (run h s es)
          ≡ challenge h now
              (pos (floor + slope * (n + served s es)))
              r
              (set_cors fresh_writer)
              (run h s es)
    asked_escalates s es n floor slope has f sl few fits now r rt a =
        let total = n + served s es in
        let same : suc total - 1 ≡ total = omega arith in
        asked curve on now total (floor + slope * total) r rt (run h s es)
          (run-HasCount curve on s es n (always_spared s es never) has (omega (arith, few))) a few
          (rw (f, sl)
            (curve_price-exact (suc total) floor slope (omega arith) few (rw same fits)
              ∙ rw same refl))
