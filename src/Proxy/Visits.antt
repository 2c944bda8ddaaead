-- ===== src/Proxy/Visits.antt =====
-- serveFlat of internal/proxy/proxy.go with any backend: a visitor's challenge, and a request that pays.
use blockade.Prelude.{
  Option-cases, ok, ◌==◌, Bytes, bytes, ℕ, ◌≡◌, refl, inl, inr, true, false, none, some, [], ◌∷◌,
  ◌++◌, arith,
}
use blockade.Std.Http.{
  Request, Writer, fresh_writer, get, del, set, set_header, write_header, response, status,
}
use blockade.Price.{with_price}
use blockade.Payment.{PaymentVerifier, payment_required}
use blockade.Proxy.Handler.{
  Handler, State, Route, authorization_header, match_route, client_ip, get_limiter, rate_limited,
  challenge, with_proof, forward,
}
use blockade.Proxy.Cases.{touched}
use blockade.Proxy.Flat.{flat_token, flat_challenge, serve_flat}
use blockade.Proxy.Serve.{set_cors, serve_route, dispatch, serve_http}

-- What is sent where a challenge is issued.
abbrev pub challenge_writer : Bytes → Writer
challenge_writer c = payment_required c (set_cors fresh_writer)

pub reads_back :
    (c : Bytes)
    → (status (challenge_writer c) ≡ 402)
      × (get "Www-Authenticate" (response (challenge_writer c)).1 ≡ c)
unfolding write_header set_header set response get set_cors
reads_back c = (refl, refl)

module _ {V P N F : Type 0} (pv : PaymentVerifier V) (base : Handler V P N F) where
  -- The handler with this backend and without metering.
  abbrev pub flat_handler : Handler V P N F
  flat_handler = record base { verifier = pv; metering = none }

  -- A request to the route `rt`.
  pub record Visits (r : Request) (rt : Route) : Type 0 where
    pub real : (r.method == bytes "OPTIONS") ≡ false
    pub matches : match_route r.path base.routes ≡ some rt

  -- One without a token, which the rate limit lets through.
  pub record Asks (now : ℕ) (r : Request) (rt : Route) (s : State V P N) : Type 0 where
    pub visits : Visits r rt
    pub bare : pv.extract_token (get authorization_header r.header) ≡ none
    pub admitted :
        elim s.limiters [
          | none ↦ true
          | some m ↦ (base.rate.allow now (get_limiter base now (client_ip r) m).limiter).0
        ]
        ≡ true

  -- On a visit the flat path runs, with the CORS headers set.
  serve_http-flat :
      (now : ℕ) (r : Request) (rt : Route) (s : State V P N)
      → Visits r rt
      → serve_http flat_handler now r fresh_writer s
        ≡ serve_flat flat_handler now r (set_cors fresh_writer) rt s
  unfolding serve_http dispatch serve_route
  serve_http-flat now r rt s visit =
      rw (visit.real, visit.matches, serve_http, dispatch, serve_route) refl

  rate_limited-admitted :
      (now : ℕ) (r : Request) (rt : Route) (w : Writer) (next : State V P N → Writer × State V P N)
      (s : State V P N)
      → Asks now r rt s
      → (s' : State V P N) × (s'.backend ≡ s.backend)
        × (rate_limited flat_handler now r w next s ≡ next s')
  unfolding rate_limited
  rate_limited-admitted now r rt w next s a = elim (Option-cases s.limiters) [
    | inl e ↦ (s, refl, ground (arith, e))
    | inr (m, e) ↦
        let allowed : (base.rate.allow now (get_limiter base now (client_ip r) m).limiter).0
            ≡ true =
          rw e at a.admitted in
        (
          record s { limiters = some (touched base now (client_ip r) m) },
          refl,
          rw (e, allowed, rate_limited) refl,
        )
  ]

  -- A visitor is given the challenge that the backend issues at the price of the route.
  pub serve_http_challenged :
      (now : ℕ) (r : Request) (rt : Route) (s : State V P N) (c : Bytes)
      → Asks now r rt s
      → (pv.issue_challenge now (with_price rt.price_sats r) (set_cors fresh_writer) s.backend).0
        ≡ ok (challenge_writer c)
      → ((serve_http flat_handler now r fresh_writer s).0 ≡ challenge_writer c)
        × ((serve_http flat_handler now r fresh_writer s).1.backend
            ≡ (pv.issue_challenge now
                (with_price rt.price_sats r)
                (set_cors fresh_writer)
                s.backend).1)
  unfolding serve_flat flat_challenge challenge
  serve_http_challenged now r rt s c a issues =
      let w = set_cors fresh_writer in
      let (s', same, continues) =
        rate_limited-admitted now r rt w (challenge flat_handler now rt.price_sats r w) s a in
      let issued : (pv.issue_challenge now (with_price rt.price_sats r) w s'.backend).0
          ≡ ok (challenge_writer c) =
        rw same issues in
      rw
        (
          serve_http-flat now r rt s a.visits,
          a.bare,
          serve_flat,
          flat_challenge,
          continues,
          issued,
          challenge,
        )
        (refl, rw same refl)

  -- A token that the backend accepts lets the request through.
  pub paid-Forwarded :
      (now : ℕ) (r : Request) (rt : Route) (s : State V P N) (token : Bytes)
      → Visits r rt
      → pv.extract_token (get authorization_header r.header) ≡ some token
      → (pv.verify_proof now token s.backend).0 ≡ ok true
      → (serve_http flat_handler now r fresh_writer s).1.forwards
        ≡ s.forwards
          ++ record {
            upstream = rt.upstream;
            request = record r { header = del authorization_header r.header };
          }
            ∷ []
  unfolding serve_flat flat_token with_proof forward
  paid-Forwarded now r rt s token visit carries accepted =
      rw
        (
          serve_http-flat now r rt s visit,
          carries,
          serve_flat,
          flat_token,
          accepted,
          with_proof,
          forward,
        )
        refl
