-- ===== src/Proxy/Anonymous.antt =====
-- ServeHTTP of internal/proxy/proxy.go on requests that have no credential: what is sent on is counted.
pub mod Run
use blockade.Prelude.{
  Bool-cases, Option-cases, ◌==◌, Bytes, bytes, eq_refl, ℕ, ◌≡◌, refl, ◌⊎◌, inl, inr, true, Option,
  none, some, [], ◌∷◌, ◌++◌, arith,
}
use blockade.Prelude.Int.{ℤ, pos, wrap64, ◌+ℤ◌, IsInt64, wrap64_fits}
use blockade.Std.Hex
use blockade.Std.Http.{Header, Request, Writer, fresh_writer, get, del}
use blockade.Proxy.Handler.{
  Handler, State, Route, Metering, Forward, authorization_header, credential_header, forward,
  with_proof, challenge, rate_limited, client_ip, anon_count, increment_anon_count, match_route,
}
use blockade.Proxy.Metered.{
  count_anonymous, pending_hash, serve_token, complete_enrollment, enrolled, enrollment_challenge,
  anonymous_challenge, serve_anonymous, serve_metered,
}
use blockade.Proxy.Lifecycle.{
  Event, request, anon_cleanup, limiter_cleanup, limiter_tick, step, run,
}
use blockade.Proxy.Serve.{answer_settlement, handle_settlement, serve_route, dispatch, serve_http}

module _ {V P N : Type 0} where
  -- `r` without its Authorization header was sent on, and counted once, for its address alone; or
  -- nothing was sent on and nothing counted.
  pub data CountedOnce (r : Request) (s s' : State V P N) : Type 0 where
    neither : s'.forwards ≡ s.forwards → s'.anon_counts ≡ s.anon_counts → CountedOnce r s s'
    both :
        (to : Bytes)
        → s'.forwards
          ≡ s.forwards
            ++ record {
              upstream = to;
              request = record r { header = del authorization_header r.header };
            }
              ∷ []
        → s'.anon_counts ≡ increment_anon_count (client_ip r) s.anon_counts
        → CountedOnce r s s'

module _ {V P N F : Type 0} (h : Handler V P N F) (m : Metering V P) where
  token_cases :
      (now : ℕ) (t : Bytes) (r : Request) (w : Writer) (rt : Route) (s : State V P N)
      → ((serve_token h m now t r w rt s).1.forwards ≡ s.forwards)
          × ((serve_token h m now t r w rt s).1.anon_counts ≡ s.anon_counts)
        ⊎ ((serve_token h m now t r w rt s).1.forwards
            ≡ s.forwards
              ++ record {
                upstream = rt.upstream;
                request = record r { header = del authorization_header r.header };
              }
                ∷ [])
          × ((serve_token h m now t r w rt s).1.anon_counts
              ≡ increment_anon_count (client_ip r) s.anon_counts)
  unfolding serve_token pending_hash complete_enrollment enrolled with_proof count_anonymous forward
  token_cases now t r w rt s = ground arith

  untouched :
      (now : ℕ) (r : Request) (w : Writer) (s : State V P N)
      → ((rate_limited h now r w (anonymous_challenge h m now r w) s).1.forwards ≡ s.forwards)
        × ((rate_limited h now r w (anonymous_challenge h m now r w) s).1.anon_counts
            ≡ s.anon_counts)
  unfolding rate_limited anonymous_challenge enrollment_challenge challenge
  untouched now r w s = ground arith

  anonymous-CountedOnce :
      (now : ℕ) (token : Option Bytes) (r : Request) (w : Writer) (rt : Route) (s : State V P N)
      → CountedOnce r s (serve_anonymous h m now token r w rt s).1
  unfolding serve_anonymous
  anonymous-CountedOnce now none r w rt s = let (f, c) = untouched now r w s in neither f c
  anonymous-CountedOnce now (some t) r w rt s = elim (token_cases now t r w rt s) [
    | inl (f, c) ↦ neither f c
    | inr (f, c) ↦ both rt.upstream f c
  ]

  metered-CountedOnce :
      (now : ℕ) (r : Request) (w : Writer) (rt : Route) (s : State V P N)
      → get credential_header r.header ≡ []
      → CountedOnce r s (serve_metered h m now r w rt s).1
  unfolding serve_metered
  metered-CountedOnce now r w rt s bare =
      let no_credential : (get credential_header r.header == []) ≡ true = rw bare (eq_refl []) in
      rw (no_credential, serve_metered) (anonymous-CountedOnce now _ r w rt s)

  settlement-untouched :
      (r : Request) (w : Writer) (s : State V P N)
      → ((handle_settlement h m.cred_issuer r w s).1.forwards ≡ s.forwards)
        × ((handle_settlement h m.cred_issuer r w s).1.anon_counts ≡ s.anon_counts)
  unfolding handle_settlement answer_settlement
  settlement-untouched r w s = ground arith

  module _ (on : h.metering ≡ some m) where
    route-CountedOnce :
        (now : ℕ) (r : Request) (w : Writer) (s : State V P N)
        → get credential_header r.header ≡ []
        → CountedOnce r s (serve_route h now r w s).1
    unfolding serve_route
    route-CountedOnce now r w s bare = elim (Option-cases (match_route r.path h.routes)) [
      | inl e ↦ rw (e, serve_route) (neither refl refl)
      | inr (rt, e) ↦ rw (e, on, serve_route) (metered-CountedOnce now r w rt s bare)
    ]

    pub serve_http-CountedOnce :
        (now : ℕ) (r : Request) (s : State V P N)
        → get credential_header r.header ≡ []
        → CountedOnce r s (serve_http h now r fresh_writer s).1
    unfolding serve_http dispatch
    serve_http-CountedOnce now r s bare = elim (Bool-cases (r.method == bytes "OPTIONS")) [
      | inl o ↦ rw (o, serve_http) (neither refl refl)
      | inr o ↦ elim (Bool-cases (r.path == bytes "/l402/settlement")) [
        | inl p ↦
            let (f, c) = settlement-untouched r _ s in
            rw (o, on, p, serve_http, dispatch) (neither f c)
        | inr p ↦ rw (o, on, p, serve_http, dispatch) (route-CountedOnce now r _ s bare)
      ]
    ]
