-- ===== src/Proxy/Answers/Metered.antt =====
-- How serveMetered and completeEnrollment of internal/proxy/proxy.go finish a response.
use blockade.Prelude.{
  Bool-cases, Option-cases, Result-cases, ◌==◌, Bytes, ℕ, ◌/◌, String, ◌≡◌, refl, inl, inr, true,
  Option, none, some, [],
}
use blockade.Prelude.Int.{pos, leb_ℤ}
use blockade.Std.Http.{Request, Writer, get, error}
use blockade.Price.{with_price}
use blockade.Payment.{AsksPayment, AsksStake}
use blockade.Store.Principal.{PrincipalRecord}
use blockade.Proxy.Answers.{Closed, is_error_status}
use blockade.Proxy.Answers.Toll.{
  Ends, error-Ends, with_proof-Ends, challenge-Ends, rate_limited-Ends,
}
use blockade.Proxy.Handler.{
  Handler, State, Route, Metering, authorization_header, credential_header, client_ip, anon_count,
}
use blockade.Proxy.Metered.{
  count_and_forward, serve_principal, serve_credentialed, enrolled, complete_enrollment,
  count_anonymous, pending_hash, serve_token, enrollment_challenge, anonymous_challenge,
  serve_anonymous, serve_metered,
}

module _ {V P N F : Type 0} (h : Handler V P N F) (I : Writer → State V P N → Type 0)
    (O : Writer × State V P N → Type 0) (k : Closed h I O) (asks : AsksPayment h.verifier)
    (m : Metering V P) (stakes : AsksStake m.cred_issuer) where
  abbrev Fine : Writer → (State V P N → Writer × State V P N) → Type 0
  Fine = Ends h I O k

  fails_with :
      (n : String) (c : ℕ) (w : Writer) (s : State V P N)
      → is_error_status c ≡ true
      → I w s
      → O (error n c w, s)
  fails_with = error-Ends h I O k

  count_and_forward-Fine :
      (id : Bytes) (r : Request) (w : Writer) (rt : Route)
      → Fine w (count_and_forward h m id r w rt)
  unfolding count_and_forward
  count_and_forward-Fine id r w rt s i =
      let i' = k.moves w s _ refl i in
      elim (Result-cases (m.principals.increment_request_count id s.principal_state).0) [
        | inr (e, f) ↦ rw (f, count_and_forward) (fails_with _ 500 w _ refl i')
        | inl (n, f) ↦ rw (f, count_and_forward) (k.sends rt _ w _ i')
      ]

  principal-Fine :
      (now : ℕ) (id : Bytes) (rec : PrincipalRecord) (token : Option Bytes) (r : Request)
      (w : Writer) (rt : Route)
      → Fine w (serve_principal h m now id rec token r w rt)
  unfolding serve_principal
  principal-Fine now id rec none r w rt = challenge-Ends h I O k asks now _ r w
  principal-Fine now id rec (some t) r w rt =
      with_proof-Ends h I O k now t w _ (count_and_forward-Fine id r w rt)

  credentialed-Fine :
      (now : ℕ) (cred : Bytes) (token : Option Bytes) (r : Request) (w : Writer) (rt : Route)
      → Fine w (serve_credentialed h m now cred token r w rt)
  unfolding serve_credentialed
  credentialed-Fine now cred token r w rt s i =
      elim (Result-cases (m.cred_issuer.validate_credential cred)) [
        | inr (e, f) ↦ rw (f, serve_credentialed) (fails_with _ 401 w s refl i)
        | inl (id, f) ↦
            let s' : State V P N = record s {
              principal_state = (m.principals.get_principal id s.principal_state).1;
            } in
            let i' = k.moves w s s' refl i in
            elim (Result-cases (m.principals.get_principal id s.principal_state).0) [
              | inr (e, g) ↦ rw (f, g, serve_credentialed) (fails_with _ 500 w s' refl i')
              | inl (found, g) ↦ elim (Option-cases found) [
                | inl q ↦ rw (f, g, q, serve_credentialed) (fails_with _ 401 w s' refl i')
                | inr (rec, q) ↦
                    rw (f, g, q, serve_credentialed) (principal-Fine now id rec token r w rt s' i')
              ]
            ]
      ]

  enrolled-Fine :
      (now : ℕ) (hash id cred : Bytes) (w : Writer) → Fine w (enrolled h m now hash id cred w)
  unfolding enrolled
  enrolled-Fine now hash id cred w s i =
      let p = m.principals.create_principal id (pos (now / 1_000_000_000)) s.principal_state in
      let i' = k.moves w s _ refl i in
      elim (Result-cases p.0) [
        | inr (e, f) ↦ rw (f, enrolled) (fails_with _ 500 w _ refl i')
        | inl (u, f) ↦ rw (f, enrolled) (k.enrols _ cred w _ i')
      ]

  complete-Fine :
      (now : ℕ) (t hash : Bytes) (w : Writer) → Fine w (complete_enrollment h m now t hash w)
  unfolding complete_enrollment
  complete-Fine now t hash w s i =
      let i' = k.moves w s _ refl i in
      elim (Result-cases (m.cred_issuer.complete_enrollment now t s.backend).0) [
        | inr (e, f) ↦ rw (f, complete_enrollment) (k.fails _ 401 w _ refl i')
        | inl ((id, cred), f) ↦ rw (f, complete_enrollment) (enrolled-Fine now hash id cred w _ i')
      ]

  token-Fine :
      (now : ℕ) (t : Bytes) (r : Request) (w : Writer) (rt : Route)
      → Fine w (serve_token h m now t r w rt)
  unfolding serve_token count_anonymous
  token-Fine now t r w rt s i = elim (Option-cases (pending_hash h m t s)) [
    | inr (hash, e) ↦ rw (e, serve_token) (complete-Fine now t hash w s i)
    | inl e ↦
        rw (e, serve_token)
          (with_proof-Ends h I O k now t w _ (λ s' i'. k.sends rt _ w _ (k.moves w s' _ refl i')) s
            i)
  ]

  enrollment-Fine : (now : ℕ) (r : Request) (w : Writer) → Fine w (enrollment_challenge h m now r w)
  unfolding enrollment_challenge
  enrollment-Fine now r w s i =
      let r' = with_price m.curve.enrollment_stake_sats r in
      elim (Result-cases (m.cred_issuer.issue_enrollment_challenge now r' w s.backend).0) [
        | inr (e, f) ↦
            rw (f, enrollment_challenge) (fails_with _ 500 w _ refl (k.moves w s _ refl i))
        | inl ((hash, w'), f) ↦
            let (c, same) = stakes.asks_stake now r' w w' s.backend hash f in
            rw (f, enrollment_challenge, same) (k.challenges c w _ (k.moves w s _ refl i))
      ]

  anonymous-Fine : (now : ℕ) (r : Request) (w : Writer) → Fine w (anonymous_challenge h m now r w)
  unfolding anonymous_challenge
  anonymous-Fine now r w s i =
      elim (Bool-cases (leb_ℤ m.curve.anonymous_cap (anon_count (client_ip r) s.anon_counts))) [
        | inl e ↦ rw (e, anonymous_challenge) (enrollment-Fine now r w s i)
        | inr e ↦ rw (e, anonymous_challenge) (challenge-Ends h I O k asks now _ r w s i)
      ]

  pub metered-Fine :
      (now : ℕ) (r : Request) (w : Writer) (rt : Route) → Fine w (serve_metered h m now r w rt)
  unfolding serve_metered serve_anonymous
  metered-Fine now r w rt s i =
      let token = h.verifier.extract_token (get authorization_header r.header) in
      elim (Bool-cases (get credential_header r.header == [])) [
        | inr e ↦ rw (e, serve_metered) (credentialed-Fine now _ token r w rt s i)
        | inl e ↦ elim (Option-cases token) [
          | inl f ↦
              rw (e, f, serve_metered)
                (rate_limited-Ends h I O k asks now r w _ (anonymous-Fine now r w) s i)
          | inr (t, f) ↦ rw (e, f, serve_metered) (token-Fine now t r w rt s i)
        ]
      ]
