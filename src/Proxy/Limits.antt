-- ===== src/Proxy/Limits.antt =====
-- The rate limit of internal/proxy/proxy.go on requests without a token.
use blockade.Prelude.{
  if◌then◌else◌, ◌==◌, Bytes, eq_refl, Map, lookup-insert, lookup, ℕ, String, ◌≡◌, refl, ap, ◌∙◌,
  false, none, some, [], arith,
}
use blockade.Std.Http.{
  Request, Writer, get, status, response, set_header, write_header, write, error, error_with,
}
use blockade.Proxy.Handler.{
  Handler, State, Route, Metering, IpLimiter, authorization_header, credential_header, client_ip,
  get_limiter, rate_limited,
}
use blockade.Proxy.Flat.{flat_challenge, serve_flat}
use blockade.Proxy.Metered.{anonymous_challenge, serve_anonymous, serve_metered}

module _ {V P N F : Type 0} (h : Handler V P N F) where
  -- The limiter of the request's address does not allow it.
  pub record OverLimit (now : ℕ) (r : Request) (s : State V P N) (m : Map (IpLimiter N))
      : Type 0 where
    pub limits : s.limiters ≡ some m
    pub denies : (h.rate.allow now (get_limiter h now (client_ip r) m).limiter).0 ≡ false
    pub bare : h.verifier.extract_token (get authorization_header r.header) ≡ none

  -- Status 429, and only the limiter of the address has changed: it has been asked, now.
  pub record TurnedAway (now : ℕ) (r : Request) (s : State V P N) (m : Map (IpLimiter N))
      (x : Writer × State V P N) : Type 0 where
    pub answers : status x.0 ≡ 429
    pub keeps : x.1 ≡ record s { limiters = x.1.limiters }
    pub asks :
        (ip : Bytes)
        → elim x.1.limiters [ none ↦ none | some m' ↦ lookup ip m' ] ≡ (
            if client_ip r == ip
            then some (record {
              limiter = (h.rate.allow now (get_limiter h now (client_ip r) m).limiter).1;
              last_seen = now;
            })
            else lookup ip m)

  error-status : (t : String) (c : ℕ) (w : Writer) → w.sent ≡ none → status (error t c w) ≡ c
  unfolding error error_with set_header write_header write response
  error-status t c w fresh = ground (arith, fresh)

  seen-now :
      (now : ℕ) (ip : Bytes) (m : Map (IpLimiter N)) → (get_limiter h now ip m).last_seen ≡ now
  unfolding get_limiter
  seen-now now ip m = ground arith

  rate_limited-TurnedAway :
      (now : ℕ) (r : Request) (w : Writer) (next : State V P N → Writer × State V P N)
      (s : State V P N) (m : Map (IpLimiter N))
      → w.sent ≡ none
      → OverLimit now r s m
      → TurnedAway now r s m (rate_limited h now r w next s)
  unfolding rate_limited
  rate_limited-TurnedAway now r w next s m fresh over =
      rw (over.limits, over.denies, rate_limited)
        (record {
          answers = error-status "rate limit exceeded" 429 w fresh;
          keeps = refl;
          asks = λ ip.
              let e = get_limiter h now (client_ip r) m in
              let e' : IpLimiter N = record e { limiter = (h.rate.allow now e.limiter).1 } in
              lookup-insert (client_ip r) ip e' m
              ∙ ap
                  (λ t.
                    if client_ip r == ip then some (record e' { last_seen = t }) else lookup ip m)
                  (seen-now now (client_ip r) m);
        })

  flat-TurnedAway :
      (now : ℕ) (r : Request) (w : Writer) (rt : Route) (s : State V P N) (m : Map (IpLimiter N))
      → w.sent ≡ none
      → OverLimit now r s m
      → TurnedAway now r s m (serve_flat h now r w rt s)
  unfolding serve_flat flat_challenge
  flat-TurnedAway now r w rt s m fresh over =
      rw (over.bare, serve_flat) (rate_limited-TurnedAway now r w _ s m fresh over)

  metered-TurnedAway :
      (mt : Metering V P) (now : ℕ) (r : Request) (w : Writer) (rt : Route) (s : State V P N)
      (m : Map (IpLimiter N))
      → w.sent ≡ none
      → get credential_header r.header ≡ []
      → OverLimit now r s m
      → TurnedAway now r s m (serve_metered h mt now r w rt s)
  unfolding serve_metered serve_anonymous
  metered-TurnedAway mt now r w rt s m fresh anonymous over =
      rw (anonymous, eq_refl [], over.bare, serve_metered)
        (rate_limited-TurnedAway now r w (anonymous_challenge h mt now r w) s m fresh over)

  -- A request with no token and no credential whose address is over the rate limit is turned away
  -- with status 429 on the flat and the metered path alike, and nothing but the limiter of its
  -- address changes: no invoice is made, no request is sent on or counted.
  pub limit-TurnedAway :
      (mt : Metering V P) (now : ℕ) (r : Request) (w : Writer) (rt : Route) (s : State V P N)
      (m : Map (IpLimiter N))
      → w.sent ≡ none
      → get credential_header r.header ≡ []
      → OverLimit now r s m
      → TurnedAway now r s m (serve_flat h now r w rt s)
        × TurnedAway now r s m (serve_metered h mt now r w rt s)
  limit-TurnedAway mt now r w rt s m fresh anonymous over = (
    flat-TurnedAway now r w rt s m fresh over,
    metered-TurnedAway mt now r w rt s m fresh anonymous over,
  )
