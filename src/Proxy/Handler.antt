-- ===== src/Proxy/Handler.antt =====
-- internal/proxy/proxy.go: the handler's state, its construction, and the helpers that its paths
-- share. `V` is the backend's state, `P` the principal store's, `N` a rate limiter's; `F` stands
-- for float64.
use blockade.Prelude.{
  if◌then◌else◌, Result, ok, err, ◌>>=◌, context, Bytes, Map, lookup, insert, delete, ℕ, String,
  Bool, true, false, Option, none, some, List, [], ◌∷◌, ◌++◌,
}
use blockade.Prelude.Int.{ℤ, pos, ◌+ℤ◌, wrap64}
use blockade.Std.Net.{split_host}
use blockade.Std.Strings.{has_prefix}
use blockade.Std.Http.{Header, Request, Writer, Exchange, del, error, copy_exchange}
use blockade.Price.{with_price}
use blockade.Payment.{PaymentVerifier, CredentialIssuer}
use blockade.Store.Principal.{PrincipalStore}
use blockade.Config.{CurveConfig, RouteConfig}

-- `upstream` is the URL of the route's reverse proxy.
pub record Route : Type 0 where
  pub path_prefix : Bytes
  pub price_sats : ℤ
  pub upstream : Bytes

-- golang.org/x/time/rate: NewLimiter(r, burst), and Allow at a time, which changes the limiter.
pub record RateLib (F N : Type 0) : Type 0 where
  pub new_limiter : F → ℤ → N
  pub allow : ℕ → N → Bool × N

pub record IpLimiter (N : Type 0) : Type 0 where
  pub limiter : N
  pub last_seen : ℕ

-- A request that was sent on, and to which upstream.
pub record Forward : Type 0 where
  pub upstream : Bytes
  pub request : Request

-- The fields that EnableCurve sets; they are nil together.
pub record Metering (V P : Type 0) : Type 0 where
  pub curve : CurveConfig
  pub cred_issuer : CredentialIssuer V
  pub principals : PrincipalStore P

-- The part of the Handler that serving a request does not change. `exchange` is the outside: what
-- an upstream answers to a request after those that were sent before.
pub record Handler (V P N F : Type 0) : Type 0 where
  pub verifier : PaymentVerifier V
  pub routes : List Route
  pub rate : RateLib F N
  pub limit_rps : F
  pub limit_burst : ℤ
  pub metering : Option (Metering V P)
  pub exchange : Bytes → Request → List Forward → Exchange

-- The part that requests change, with the requests sent on so far, the latest last. `limiters` is
-- `none` where rate limiting is disabled. The keys of `pending_enrollments` are those set to true.
pub record State (V P N : Type 0) : Type 0 where
  pub backend : V
  pub limiters : Option (Map (IpLimiter N))
  pub anon_counts : Map ℤ
  pub pending_enrollments : Map (Unit {0})
  pub principal_state : P
  pub forwards : List Forward

-- The request headers that the proxy reads.
abbrev pub authorization_header : String
authorization_header = "Authorization"

abbrev pub credential_header : String
credential_header = "L402-Credential"

abbrev pub cors_headers : List String
cors_headers =
    "Access-Control-Allow-Origin" ∷ "Access-Control-Allow-Methods" ∷ "Access-Control-Allow-Headers"
    ∷ "Access-Control-Allow-Credentials" ∷ "Access-Control-Expose-Headers"
    ∷ "Access-Control-Max-Age" ∷ []

-- The loop of ModifyResponse over a list of names.
unfoldable pub del_all : List String → Header → Header
unfolding del
del_all [] h = h
del_all (n ∷ ns) h = del_all ns (del n h)

unfoldable pub modify_response : Header → Header
unfolding del_all
modify_response h = del_all cors_headers h

-- The loop of New over the routes; `parse` is url.Parse.
unfoldable pub build_routes : (Bytes → Result Bytes) → List RouteConfig → Result (List Route)
build_routes parse [] = ok []
build_routes parse (r ∷ rs) = do
  upstream ← context "parse upstream" (parse r.upstream)
  rest ← build_routes parse rs
  ok (record { path_prefix = r.path_prefix; price_sats = r.price_sats; upstream = upstream } ∷ rest)

-- h.matchRoute: the first route whose prefix fits.
unfoldable pub match_route : Bytes → List Route → Option Route
unfolding has_prefix
match_route path [] = none
match_route path (r ∷ rs) = if has_prefix path r.path_prefix then some r else match_route path rs

unfoldable pub client_ip : Request → Bytes
unfolding split_host
client_ip r = elim (split_host r.remote_addr) [ ok ip ↦ ip | err e ↦ r.remote_addr ]

-- h.anonCounts[ip], 0 for a missing key
unfoldable pub anon_count : Bytes → Map ℤ → ℤ
anon_count ip counts = elim (lookup ip counts) [ none ↦ pos 0 | some n ↦ n ]

-- h.anonCounts[ip]++
unfoldable pub increment_anon_count : Bytes → Map ℤ → Map ℤ
unfolding anon_count
increment_anon_count ip counts = insert ip (wrap64 (anon_count ip counts +ℤ pos 1)) counts

-- h.pendingEnrollments[phHex] = true
unfoldable pub track_pending_enrollment : Bytes → Map (Unit {0}) → Map (Unit {0})
track_pending_enrollment ph_hex pending = insert ph_hex tt pending

-- h.pendingEnrollments[phHex], false for a missing key
unfoldable pub is_pending_enrollment : Bytes → Map (Unit {0}) → Bool
is_pending_enrollment ph_hex pending = elim (lookup ph_hex pending) [ none ↦ false | some u ↦ true ]

-- delete(h.pendingEnrollments, phHex)
unfoldable pub remove_pending_enrollment : Bytes → Map (Unit {0}) → Map (Unit {0})
remove_pending_enrollment ph_hex pending = delete ph_hex pending

module _ {V P N F : Type 0} (h : Handler V P N F) where
  -- rt.rp.ServeHTTP(w, r)
  unfoldable pub forward : Route → Request → Writer → State V P N → Writer × State V P N
  forward rt r w s = (
    copy_exchange modify_response (h.exchange rt.upstream r s.forwards) w,
    record s { forwards = s.forwards ++ record { upstream = rt.upstream; request = r } ∷ [] },
  )

  -- VerifyProof and the answers to an error and to a refusal; `next` runs where it accepts.
  unfoldable pub with_proof :
      ℕ → Bytes → Writer → (State V P N → Writer × State V P N) → State V P N → Writer × State V P N
  with_proof now token w next s =
      let (valid, b) = h.verifier.verify_proof now token s.backend in
      let s' : State V P N = record s { backend = b } in
      elim valid [
        | err e ↦ (error "payment verification error" 500 w, s')
        | ok true ↦ next s'
        | ok false ↦ (error "invalid or already-used payment token" 401 w, s')
      ]

  -- IssueChallenge at a price.
  unfoldable pub challenge : ℕ → ℤ → Request → Writer → State V P N → Writer × State V P N
  unfolding with_price
  challenge now price r w s =
      let (issued, b) = h.verifier.issue_challenge now (with_price price r) w s.backend in
      let s' : State V P N = record s { backend = b } in
      elim issued [
        | ok w' ↦ (w', s')
        | err e ↦ (error "failed to create payment challenge" 500 w, s')
      ]

  -- h.getLimiter(ip): the entry, made if it is missing, and marked as seen.
  unfoldable pub get_limiter : ℕ → Bytes → Map (IpLimiter N) → IpLimiter N
  get_limiter now ip limiters = elim (lookup ip limiters) [
    | none ↦ record { limiter = h.rate.new_limiter h.limit_rps h.limit_burst; last_seen = now }
    | some e ↦ record e { last_seen = now }
  ]

  -- `if h.limiters != nil && !h.getLimiter(clientIP(r)).Allow()` answers; else `next` runs.
  unfoldable pub rate_limited :
      ℕ
      → Request
      → Writer
      → (State V P N → Writer × State V P N)
      → State V P N
      → Writer × State V P N
  unfolding get_limiter
  rate_limited now r w next s = elim s.limiters [
    | none ↦ next s
    | some limiters ↦
        let ip = client_ip r in
        let e = get_limiter now ip limiters in
        let (allowed, limiter) = h.rate.allow now e.limiter in
        let s' : State V P N = record s {
          limiters = some (insert ip (record e { limiter = limiter }) limiters);
        } in
        if allowed then next s' else (error "rate limit exceeded" 429 w, s')
  ]
