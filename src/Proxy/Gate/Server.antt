-- ===== src/Proxy/Gate/Server.antt =====
-- ServeHTTP of internal/proxy/proxy.go, on one request and over time: which requests it sends on.
use blockade.Prelude.{
  Bool-cases, Option-cases, ◌==◌, Bytes, bytes, ℕ, ◌≡◌, refl, ◌≢◌, inl, inr, Bool, true, Option,
  some, List, [], ◌∷◌, arith,
}
use blockade.Std.Http.{Request, Writer, get, fresh_writer}
use blockade.Payment.{SingleUse, SingleUseIssuer}
use blockade.Proxy.Handler.{Handler, State, Metering, authorization_header, match_route}
use blockade.Proxy.Serve.{
  set_cors, answer_settlement, handle_settlement, serve_route, dispatch, serve_http,
}
use blockade.Proxy.Lifecycle.{Event, request, anon_cleanup, limiter_cleanup, step, run}
use blockade.Proxy.Gate.{Gate, shut, passed, Keeps, Ok, flat-Ok}
use blockade.Proxy.Gate.Metered.{metered-Good}

module _ {V P N F : Type 0} (h : Handler V P N F) (key : Bytes → Option Bytes)
    (spent : V → Bytes → Bool) (single : SingleUse key spent h.verifier)
    (issuer : (m : Metering V P)
      → h.metering ≡ some m
      → SingleUseIssuer key spent m.cred_issuer) where
  abbrev token_of : Request → Option Bytes
  token_of r = h.verifier.extract_token (get authorization_header r.header)

  abbrev Fine : Request → State V P N → State V P N → Type 0
  Fine r = Ok h key spent single (token_of r)

  still : (r : Request) (s : State V P N) → Fine r s s
  still r s = (shut refl, record { keeps = λ j q. q })

  route-Fine :
      (now : ℕ) (r : Request) (w : Writer) (s : State V P N) → Fine r s (serve_route h now r w s).1
  unfolding serve_route
  route-Fine now r w s = elim (Option-cases (match_route r.path h.routes)) [
    | inl e ↦ rw (e, serve_route) (still r s)
    | inr (rt, e) ↦ elim (Option-cases h.metering) [
      | inl f ↦ rw (e, f, serve_route) (flat-Ok h key spent single now r w rt s)
      | inr (m, f) ↦
          rw (e, f, serve_route) (metered-Good h m key spent single (issuer m f) now r w rt s)
    ]
  ]

  settlement-Fine :
      (m : Metering V P) (r : Request) (w : Writer) (s : State V P N)
      → h.metering ≡ some m
      → Fine r s (handle_settlement h m.cred_issuer r w s).1
  unfolding handle_settlement answer_settlement
  settlement-Fine m r w s f =
      let ph = get "payment_hash" r.query in
      let laws = issuer m f in
      (
        shut (ground arith),
        record { keeps = λ j q. ground (arith, laws.settlement_keeps ph s.backend j) },
      )

  dispatch-Fine :
      (now : ℕ) (r : Request) (w : Writer) (s : State V P N) → Fine r s (dispatch h now r w s).1
  unfolding dispatch
  dispatch-Fine now r w s = elim (Option-cases h.metering) [
    | inl f ↦ rw (f, dispatch) (route-Fine now r w s)
    | inr (m, f) ↦ elim (Bool-cases (r.path == bytes "/l402/settlement")) [
      | inl e ↦ rw (f, e, dispatch) (settlement-Fine m r w s f)
      | inr e ↦ rw (f, e, dispatch) (route-Fine now r w s)
    ]
  ]

  -- With backends that accept each payment once: whatever the request, either nothing is sent on, or
  -- one request is, without its Authorization header, and the token of that header pays: its key was
  -- not spent before and is spent after. No spent key becomes unspent.
  pub serve_http-Gate :
      (now : ℕ) (r : Request) (w : Writer) (s : State V P N)
      → Gate key spent
          (h.verifier.extract_token (get authorization_header r.header))
          s
          (serve_http h now r w s).1
        × Keeps key spent s (serve_http h now r w s).1
  unfolding serve_http
  serve_http-Gate now r w s = elim (Bool-cases (r.method == bytes "OPTIONS")) [
    | inl e ↦ rw (e, serve_http) (still r s)
    | inr e ↦ rw (e, serve_http) (dispatch-Fine now r (set_cors w) s)
  ]

  pub step-Keeps : (s : State V P N) (e : Event) → Keeps key spent s (step h s e)
  unfolding step
  step-Keeps s (request now r) = (serve_http-Gate now r fresh_writer s).1
  step-Keeps s anon_cleanup = record { keeps = λ j q. q }
  step-Keeps s (limiter_cleanup now) = record { keeps = λ j q. q }

  -- With backends that accept each payment once: a key that is spent stays spent, whatever requests
  -- and cleanups follow.
  pub run-Keeps : (s : State V P N) (es : List Event) → Keeps key spent s (run h s es)
  unfolding run
  run-Keeps s [] = record { keeps = λ j q. q }
  run-Keeps s (e ∷ es) = record {
    keeps = λ j q. (run-Keeps (step h s e) es).keeps j ((step-Keeps s e).keeps j q);
  }

  -- The key that a request's token pays with.
  abbrev pub PaysWith : Request → Bytes → Type 0
  PaysWith r k = (t : Bytes) × (token_of r ≡ some t) × (key t ≡ some k)

  -- A request whose key is spent opens nothing.
  pub spent_is_shut :
      (now : ℕ) (r : Request) (s : State V P N) (k : Bytes)
      → PaysWith r k
      → spent s.backend k ≡ true
      → (step h s (request now r)).forwards ≡ s.forwards
  unfolding step
  spent_is_shut now r s k (t, carries, names) q = shut_or (serve_http-Gate now r fresh_writer s).0
    where
      shut_or : {s' : State V P N} → Gate key spent (token_of r) s s' → s'.forwards ≡ s.forwards
      shut_or (shut e) = e
      shut_or (passed t' carries' pays sent) =
          absurd (cc (carries, carries', names, pays.names, pays.fresh, q))

  -- What was sent on has spent its key.
  pub opened_is_spent :
      (now : ℕ) (r : Request) (s : State V P N) (k : Bytes)
      → PaysWith r k
      → (step h s (request now r)).forwards ≢ s.forwards
      → spent (step h s (request now r)).backend k ≡ true
  unfolding step
  opened_is_spent now r s k (t, carries, names) opened =
      gone_or (serve_http-Gate now r fresh_writer s).0 opened
    where
      gone_or :
          {s' : State V P N}
          → Gate key spent (token_of r) s s'
          → s'.forwards ≢ s.forwards
          → spent s'.backend k ≡ true
      gone_or (shut e) o = absurd (o e)
      gone_or {s'} (passed t' carries' pays sent) o =
          cc (carries, carries', names, pays.names, pays.gone)

  -- With backends that accept each payment once: if a request whose token pays with a key was sent
  -- on, then after any further requests and cleanups no request whose token pays with that key is
  -- sent on, to no route and by no client.
  pub no_replay :
      (now later : ℕ) (r r' : Request) (s : State V P N) (es : List Event) (k : Bytes)
      → PaysWith r k
      → PaysWith r' k
      → (step h s (request now r)).forwards ≢ s.forwards
      → (step h (run h (step h s (request now r)) es) (request later r')).forwards
        ≡ (run h (step h s (request now r)) es).forwards
  no_replay now later r r' s es k pays pays' opened =
      spent_is_shut later r' (run h (step h s (request now r)) es) k pays'
        ((run-Keeps (step h s (request now r)) es).keeps k (opened_is_spent now r s k pays opened))
