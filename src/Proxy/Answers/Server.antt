-- ===== src/Proxy/Answers/Server.antt =====
-- How ServeHTTP and handleSettlement of internal/proxy/proxy.go finish a response.
use blockade.Prelude.{
  Bool-cases, Option-cases, Result-cases, ◌==◌, Bytes, bytes, ℕ, ◌≡◌, refl, inl, inr, some, [],
}
use blockade.Std.Hex
use blockade.Std.Http.{Request, Writer, get, not_found}
use blockade.Payment.{AsksPayment, AsksStake, CredentialIssuer}
use blockade.Proxy.Answers.{Closed}
use blockade.Proxy.Answers.Toll.{Ends, error-Ends, flat-Ends}
use blockade.Proxy.Answers.Metered.{metered-Fine}
use blockade.Proxy.Handler.{Handler, State, Metering, match_route}
use blockade.Proxy.Serve.{
  set_cors, answer_settlement, handle_settlement, serve_route, dispatch, serve_http,
}

module _ {V P N F : Type 0} (h : Handler V P N F) (I : Writer → State V P N → Type 0)
    (O : Writer × State V P N → Type 0) (k : Closed h I O) (asks : AsksPayment h.verifier)
    (stakes : (m : Metering V P) → h.metering ≡ some m → AsksStake m.cred_issuer) where
  abbrev Fine : Writer → (State V P N → Writer × State V P N) → Type 0
  Fine = Ends h I O k

  route-Fine : (now : ℕ) (r : Request) (w : Writer) → Fine w (serve_route h now r w)
  unfolding serve_route not_found
  route-Fine now r w s i = elim (Option-cases (match_route r.path h.routes)) [
    | inl e ↦ rw (e, serve_route) (error-Ends h I O k _ 404 w s refl i)
    | inr (rt, e) ↦ elim (Option-cases h.metering) [
      | inl f ↦ rw (e, f, serve_route) (flat-Ends h I O k asks now r w rt s i)
      | inr (m, f) ↦
          rw (e, f, serve_route) (metered-Fine h I O k asks m (stakes m f) now r w rt s i)
    ]
  ]

  settlement-Fine :
      (ci : CredentialIssuer V) (hash : Bytes) (w : Writer) → Fine w (answer_settlement h ci hash w)
  unfolding answer_settlement
  settlement-Fine ci hash w s i =
      let i' = k.moves w s _ refl i in
      elim (Result-cases (ci.lookup_settlement hash s.backend).0) [
        | inr (e, f) ↦ rw (f, answer_settlement) (error-Ends h I O k _ 500 w _ refl i')
        | inl (found, f) ↦ elim (Option-cases found) [
          | inl q ↦ rw (f, q, answer_settlement) (k.settles _ w _ i')
          | inr (p, q) ↦ rw (f, q, answer_settlement) (k.settles _ w _ i')
        ]
      ]

  handle-Fine :
      (ci : CredentialIssuer V) (r : Request) (w : Writer) → Fine w (handle_settlement h ci r w)
  unfolding handle_settlement
  handle-Fine ci r w s i =
      let hash = get "payment_hash" r.query in
      elim (Bool-cases (hash == [])) [
        | inl e ↦ rw (e, handle_settlement) (error-Ends h I O k _ 400 w s refl i)
        | inr e ↦ elim (Result-cases (Hex.decode hash)) [
          | inr (x, f) ↦ rw (e, f, handle_settlement) (error-Ends h I O k _ 400 w s refl i)
          | inl (p, f) ↦ rw (e, f, handle_settlement) (settlement-Fine ci hash w s i)
        ]
      ]

  dispatch-Fine : (now : ℕ) (r : Request) (w : Writer) → Fine w (dispatch h now r w)
  unfolding dispatch
  dispatch-Fine now r w s i = elim (Option-cases h.metering) [
    | inl f ↦ rw (f, dispatch) (route-Fine now r w s i)
    | inr (m, f) ↦ elim (Bool-cases (r.path == bytes "/l402/settlement")) [
      | inl e ↦ rw (f, e, dispatch) (handle-Fine m.cred_issuer r w s i)
      | inr e ↦ rw (f, e, dispatch) (route-Fine now r w s i)
    ]
  ]

  pub serve_http-Ends :
      (now : ℕ) (r : Request) (w : Writer) (s : State V P N)
      → I (set_cors w) s
      → O (serve_http h now r w s)
  unfolding serve_http
  serve_http-Ends now r w s i = elim (Bool-cases (r.method == bytes "OPTIONS")) [
    | inl e ↦ rw (e, serve_http) (k.preflights _ s i)
    | inr e ↦ rw (e, serve_http) (dispatch-Fine now r _ s i)
  ]
