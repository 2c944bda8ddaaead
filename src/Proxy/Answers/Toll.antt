-- ===== src/Proxy/Answers/Toll.antt =====
-- How the paths that the flat and the metered toll of internal/proxy/proxy.go share finish a response.
use blockade.Prelude.{
  Bool-cases, Option-cases, Result-cases, Bytes, ℕ, String, ◌≡◌, refl, inl, inr, true, some,
}
use blockade.Prelude.Int.{ℤ}
use blockade.Std.Http.{Request, Writer, get, error}
use blockade.Payment.{AsksPayment}
use blockade.Proxy.Answers.{Closed, is_error_status}
use blockade.Proxy.Handler.{
  Handler, State, Route, authorization_header, with_proof, challenge, rate_limited, client_ip,
  get_limiter,
}
use blockade.Proxy.Flat.{flat_token, flat_challenge, serve_flat}

module _ {V P N F : Type 0} (h : Handler V P N F) (I : Writer → State V P N → Type 0)
    (O : Writer × State V P N → Type 0) (k : Closed h I O) where
  -- From a response and a state with `I`, the handler finishes with `O`.
  abbrev pub Ends : Writer → (State V P N → Writer × State V P N) → Type 0
  Ends w f = (s : State V P N) → I w s → O (f s)

  pub error-Ends :
      (m : String) (c : ℕ) (w : Writer) (s : State V P N)
      → is_error_status c ≡ true
      → I w s
      → O (error m c w, s)
  unfolding error
  error-Ends m c w s known i = k.fails _ c w s known i

  pub with_proof-Ends :
      (now : ℕ) (t : Bytes) (w : Writer) (next : State V P N → Writer × State V P N)
      → Ends w next
      → Ends w (with_proof h now t w next)
  unfolding with_proof
  with_proof-Ends now t w next q s i =
      let s' : State V P N = record s { backend = (h.verifier.verify_proof now t s.backend).1 } in
      let i' = k.moves w s s' refl i in
      elim (Result-cases (h.verifier.verify_proof now t s.backend).0) [
        | inr (e, f) ↦ rw (f, with_proof) (error-Ends _ 500 w s' refl i')
        | inl (b, f) ↦ elim (Bool-cases b) [
          | inl y ↦ rw (f, y, with_proof) (q s' i')
          | inr n ↦ rw (f, n, with_proof) (error-Ends _ 401 w s' refl i')
        ]
      ]

  module _ (asks : AsksPayment h.verifier) where
    pub challenge-Ends :
        (now : ℕ) (price : ℤ) (r : Request) (w : Writer) → Ends w (challenge h now price r w)
    unfolding challenge
    challenge-Ends now price r w s i =
        let r' : Request = record r { price = some price } in
        let s' : State V P N = record s {
          backend = (h.verifier.issue_challenge now r' w s.backend).1;
        } in
        let i' = k.moves w s s' refl i in
        elim (Result-cases (h.verifier.issue_challenge now r' w s.backend).0) [
          | inr (e, f) ↦ rw (f, challenge) (error-Ends _ 500 w s' refl i')
          | inl (w', f) ↦
              let (c, same) = asks.asks now r' w w' s.backend f in
              rw (f, challenge, same) (k.challenges c w s' i')
        ]

    pub rate_limited-Ends :
        (now : ℕ) (r : Request) (w : Writer) (next : State V P N → Writer × State V P N)
        → Ends w next
        → Ends w (rate_limited h now r w next)
    unfolding rate_limited
    rate_limited-Ends now r w next q s i = elim (Option-cases s.limiters) [
      | inl e ↦ rw (e, rate_limited) (q s i)
      | inr (m, e) ↦
          let a = (h.rate.allow now (get_limiter h now (client_ip r) m).limiter).0 in
          elim (Bool-cases a) [
            | inl y ↦ rw (e, y, rate_limited) (q _ (k.moves w s _ refl i))
            | inr n ↦ rw (e, n, rate_limited) (error-Ends _ 429 w _ refl (k.moves w s _ refl i))
          ]
    ]

    pub flat-Ends :
        (now : ℕ) (r : Request) (w : Writer) (rt : Route) → Ends w (serve_flat h now r w rt)
    unfolding serve_flat flat_token flat_challenge
    flat-Ends now r w rt s i =
        elim (Option-cases (h.verifier.extract_token (get authorization_header r.header))) [
          | inl e ↦
              rw (e, serve_flat)
                (rate_limited-Ends now r w _ (challenge-Ends now rt.price_sats r w) s i)
          | inr (t, e) ↦ rw (e, serve_flat) (with_proof-Ends now t w _ (k.sends rt _ w) s i)
        ]
