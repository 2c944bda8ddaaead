-- ===== src/Proxy/Gate/Metered.antt =====
-- serveMetered of internal/proxy/proxy.go: which requests it sends on.
use blockade.Prelude.{
  Bool-cases, Option-cases, Result-cases, ◌==◌, Bytes, ℕ, ◌≡◌, refl, ap, ◌∙◌, inl, inr, Bool,
  Option, none, some, [], ◌∷◌, ◌++◌, arith,
}
use blockade.Prelude.Int.{leb_ℤ}
use blockade.Std.Http.{Request, Writer, get, del}
use blockade.Std.Http.Laws.{get-del}
use blockade.Price.{with_price}
use blockade.Payment.{SingleUse, SingleUseIssuer}
use blockade.Store.Principal.{PrincipalRecord}
use blockade.Proxy.Handler.{
  Handler, State, Route, Metering, authorization_header, credential_header, client_ip, anon_count,
}
use blockade.Proxy.Metered.{
  count_and_forward, serve_principal, serve_credentialed, enrolled, complete_enrollment,
  count_anonymous, pending_hash, serve_token, enrollment_challenge, anonymous_challenge,
  serve_anonymous, serve_metered,
}
use blockade.Proxy.Gate.{
  Sends, shut, Ok, forward-Sends, with_proof-Ok, same_base, challenge-Ok, rate_limited-Ok,
}

module _ {V P N F : Type 0} (h : Handler V P N F) (m : Metering V P) (key : Bytes → Option Bytes)
    (spent : V → Bytes → Bool) (single : SingleUse key spent h.verifier)
    (issuer : SingleUseIssuer key spent m.cred_issuer) where
  abbrev Good : Option Bytes → State V P N → State V P N → Type 0
  Good = Ok h key spent single

  -- A step that leaves the backend and the log alone.
  quiet :
      (token : Option Bytes) (s s' : State V P N)
      → s'.backend ≡ s.backend
      → s'.forwards ≡ s.forwards
      → Good token s s'
  quiet token s s' b f = (shut f, record { keeps = λ j q. rw b q })

  relog :
      (s s' x : State V P N)
      → s'.backend ≡ s.backend
      → s'.forwards ≡ s.forwards
      → Sends s' x
      → Sends s x
  relog s s' x b f y = record {
    same_backend = y.same_backend ∙ b;
    sends = elim y.sends [
      | inl e ↦ inl (e ∙ f)
      | inr z ↦ inr (record {
        sent = z.sent;
        logs = z.logs ∙ ap (λ l. l ++ z.sent ∷ []) f;
        hidden = z.hidden;
      })
    ];
  }

  hidden :
      (r : Request)
      → get authorization_header (del credential_header (del authorization_header r.header)) ≡ []
  hidden r = simp get-del

  count_and_forward-Sends :
      (id : Bytes) (r : Request) (w : Writer) (rt : Route) (s : State V P N)
      → Sends s (count_and_forward h m id r w rt s).1
  unfolding count_and_forward
  count_and_forward-Sends id r w rt s =
      elim (Result-cases (m.principals.increment_request_count id s.principal_state).0) [
        | inr (e, f) ↦ rw (f, count_and_forward) (record { same_backend = refl; sends = inl refl })
        | inl (n, f) ↦
            rw (f, count_and_forward)
              (relog s _ _ refl refl (forward-Sends h key spent single rt _ w _ (hidden r)))
      ]

  -- The steps around a part of the path touch neither the backend nor the log.
  principal-Good :
      (now : ℕ) (id : Bytes) (rec : PrincipalRecord) (token : Option Bytes) (r : Request)
      (w : Writer) (rt : Route) (s : State V P N)
      → Good token s (serve_principal h m now id rec token r w rt s).1
  unfolding serve_principal
  principal-Good now id rec none r w rt s = challenge-Ok h key spent single none now _ r w s
  principal-Good now id rec (some t) r w rt s =
      with_proof-Ok h key spent single now t w _ s λ s' _. count_and_forward-Sends id r w rt s'

  credentialed-Good :
      (now : ℕ) (cred : Bytes) (token : Option Bytes) (r : Request) (w : Writer) (rt : Route)
      (s : State V P N)
      → Good token s (serve_credentialed h m now cred token r w rt s).1
  unfolding serve_credentialed
  credentialed-Good now cred token r w rt s =
      elim (Result-cases (m.cred_issuer.validate_credential cred)) [
        | inr (e, f) ↦ rw (f, serve_credentialed) (quiet token s _ refl refl)
        | inl (id, f) ↦ elim (Result-cases (m.principals.get_principal id s.principal_state).0) [
          | inr (e, g) ↦ rw (f, g, serve_credentialed) (quiet token s _ refl refl)
          | inl (found, g) ↦ elim (Option-cases found) [
            | inl missing ↦ rw (f, g, missing, serve_credentialed) (quiet token s _ refl refl)
            | inr (rec, known) ↦
                rw (f, g, known, serve_credentialed)
                  (same_base h key spent single token s _ _ refl refl
                    (principal-Good now id rec token r w rt _))
          ]
        ]
      ]

  enrolled-state :
      (now : ℕ) (ph id cred : Bytes) (w : Writer) (s : State V P N)
      → ((enrolled h m now ph id cred w s).1.backend ≡ s.backend)
        × ((enrolled h m now ph id cred w s).1.forwards ≡ s.forwards)
  unfolding enrolled
  enrolled-state now ph id cred w s = ground arith

  enrollment-Good :
      (now : ℕ) (t ph : Bytes) (w : Writer) (s : State V P N)
      → Good (some t) s (complete_enrollment h m now t ph w s).1
  unfolding complete_enrollment
  enrollment-Good now t ph w s =
      let b = (m.cred_issuer.complete_enrollment now t s.backend).1 in
      let s' : State V P N = record s { backend = b } in
      elim (Result-cases (m.cred_issuer.complete_enrollment now t s.backend).0) [
        | inr (e, f) ↦
            rw (f, complete_enrollment)
              (shut refl, record { keeps = λ j q. issuer.complete_keeps now t s.backend j q })
        | inl ((id, cred), f) ↦
            let (same_b, same_f) = enrolled-state now ph id cred w s' in
            rw (f, complete_enrollment)
              (
                shut same_f,
                record { keeps = λ j q. rw same_b (issuer.complete_keeps now t s.backend j q) },
              )
      ]

  anonymous-Sends :
      (r : Request) (w : Writer) (rt : Route) (s : State V P N)
      → Sends s (count_anonymous h m r w rt s).1
  unfolding count_anonymous
  anonymous-Sends r w rt s = relog s _ _ refl refl (
      forward-Sends h key spent single rt _ w _
        (get-del authorization_header authorization_header r.header))

  token-Good :
      (now : ℕ) (t : Bytes) (r : Request) (w : Writer) (rt : Route) (s : State V P N)
      → Good (some t) s (serve_token h m now t r w rt s).1
  unfolding serve_token
  token-Good now t r w rt s = elim (Option-cases (pending_hash h m t s)) [
    | inr (ph, e) ↦ rw (e, serve_token) (enrollment-Good now t ph w s)
    | inl e ↦
        rw (e, serve_token)
          (with_proof-Ok h key spent single now t w _ s λ s' _. anonymous-Sends r w rt s')
  ]

  enrollment_challenge-Good :
      (token : Option Bytes) (now : ℕ) (r : Request) (w : Writer) (s : State V P N)
      → Good token s (enrollment_challenge h m now r w s).1
  unfolding enrollment_challenge
  enrollment_challenge-Good token now r w s =
      let stake = with_price m.curve.enrollment_stake_sats r in
      let same = issuer.enrollment_challenge_keeps now stake w s.backend in
      elim (Result-cases (m.cred_issuer.issue_enrollment_challenge now stake w s.backend).0) [
        | inr (e, f) ↦
            rw (f, enrollment_challenge) (shut refl, record { keeps = λ j q. same j ∙ q })
        | inl ((ph, w'), f) ↦
            rw (f, enrollment_challenge) (shut refl, record { keeps = λ j q. same j ∙ q })
      ]

  anonymous_challenge-Good :
      (token : Option Bytes) (now : ℕ) (r : Request) (w : Writer) (s : State V P N)
      → Good token s (anonymous_challenge h m now r w s).1
  unfolding anonymous_challenge
  anonymous_challenge-Good token now r w s =
      elim (Bool-cases (leb_ℤ m.curve.anonymous_cap (anon_count (client_ip r) s.anon_counts))) [
        | inl e ↦ rw (e, anonymous_challenge) (enrollment_challenge-Good token now r w s)
        | inr e ↦
            rw (e, anonymous_challenge)
              (challenge-Ok h key spent single token now m.curve.floor_toll_sats r w s)
      ]

  serve_anonymous-Good :
      (now : ℕ) (token : Option Bytes) (r : Request) (w : Writer) (rt : Route) (s : State V P N)
      → Good token s (serve_anonymous h m now token r w rt s).1
  unfolding serve_anonymous
  serve_anonymous-Good now (some t) r w rt s = token-Good now t r w rt s
  serve_anonymous-Good now none r w rt s =
      rate_limited-Ok h key spent single none now r w _ s
        λ s'. anonymous_challenge-Good none now r w s'

  pub metered-Good :
      (now : ℕ) (r : Request) (w : Writer) (rt : Route) (s : State V P N)
      → Good
          (h.verifier.extract_token (get authorization_header r.header))
          s
          (serve_metered h m now r w rt s).1
  unfolding serve_metered
  metered-Good now r w rt s =
      let token = h.verifier.extract_token (get authorization_header r.header) in
      elim (Bool-cases (get credential_header r.header == [])) [
        | inl e ↦ rw (e, serve_metered) (serve_anonymous-Good now token r w rt s)
        | inr e ↦
            rw (e, serve_metered)
              (credentialed-Good now (get credential_header r.header) token r w rt s)
      ]
