-- ===== src/Proxy/Gate.antt =====
-- serveFlat of internal/proxy/proxy.go, and the helpers of all paths: which requests they send on.
pub mod Metered
pub mod Server
pub mod Restart
pub mod Ledger
use blockade.Prelude.{
  Option-cases, ok, Bytes, ℕ, ◌≡◌, refl, ap, ◌∙◌, ◌⊎◌, inl, inr, Bool, true, Option, none, some, [],
  ◌∷◌, ◌++◌,
}
use blockade.Prelude.Int.{ℤ, leb_ℤ}
use blockade.Std.Http.{Request, Writer, get, del}
use blockade.Std.Http.Laws.{get-del}
use blockade.Payment.{PaymentVerifier, CredentialIssuer, Pays, SingleUse, SingleUseIssuer}
use blockade.Store.Principal.{PrincipalRecord}
use blockade.Proxy.Handler.{
  Handler, State, Route, Metering, Forward, authorization_header, credential_header, forward,
  with_proof, challenge, rate_limited, client_ip,
}
use blockade.Proxy.Cases.{
  verdict, verified, with_proof_cases, challenged, challenge-state, rate_limited_cases,
}
use blockade.Proxy.Flat.{flat_token, flat_challenge, serve_flat}
use blockade.Proxy.Metered.{
  count_and_forward, serve_principal, serve_credentialed, enrolled, complete_enrollment,
  count_anonymous, serve_token, enrollment_challenge, anonymous_challenge, serve_anonymous,
  serve_metered,
}
use blockade.Proxy.Serve.{answer_settlement, handle_settlement, serve_route, dispatch, serve_http}

module _ {V P N : Type 0} where
  -- One request without its Authorization header was sent on.
  pub record Sent (s s' : State V P N) : Type 0 where
    pub sent : Forward
    pub logs : s'.forwards ≡ s.forwards ++ sent ∷ []
    pub hidden : get authorization_header sent.request.header ≡ []

  -- At most one request was sent on, and the backend did nothing.
  pub record Sends (s s' : State V P N) : Type 0 where
    pub same_backend : s'.backend ≡ s.backend
    pub sends : (s'.forwards ≡ s.forwards) ⊎ Sent s s'

module _ {V P N : Type 0} (key : Bytes → Option Bytes) (spent : V → Bytes → Bool) where
  -- What may happen to a request with the token `token`: nothing is sent on, or the token pays.
  pub data Gate (token : Option Bytes) (s s' : State V P N) : Type 0 where
    shut : s'.forwards ≡ s.forwards → Gate token s s'
    passed :
        (t : Bytes)
        → token ≡ some t
        → Pays key spent t s.backend s'.backend
        → Sent s s'
        → Gate token s s'

  -- No spent key is forgotten.
  pub record Keeps (s s' : State V P N) : Type 0 where
    pub keeps : (j : Bytes) → spent s.backend j ≡ true → spent s'.backend j ≡ true

module _ {V P N F : Type 0} (h : Handler V P N F) (key : Bytes → Option Bytes)
    (spent : V → Bytes → Bool) (single : SingleUse key spent h.verifier) where
  abbrev pub Ok : Option Bytes → State V P N → State V P N → Type 0
  Ok token s s' = Gate key spent token s s' × Keeps {P = P} {N = N} key spent s s'

  pub forward-Sends :
      (rt : Route) (r : Request) (w : Writer) (s : State V P N)
      → get authorization_header r.header ≡ []
      → Sends s (forward h rt r w s).1
  unfolding forward
  forward-Sends rt r w s hid = record {
    same_backend = refl;
    sends = inr (record {
      sent = record { upstream = rt.upstream; request = r };
      logs = refl;
      hidden = hid;
    });
  }

  sent_after :
      (now : ℕ) (t : Bytes) (s s' : State V P N)
      → verdict h now t s ≡ ok true
      → Sends (verified h now t s) s'
      → Ok (some t) s s'
  sent_after now t s s' accepted sends =
      let pays = single.accepts now t s.backend accepted in
      let keeps : Keeps key spent s s' = record {
        keeps = λ j k. rw sends.same_backend (single.verify_keeps now t s.backend j k);
      } in
      elim sends.sends [
        | inl e ↦ (shut e, keeps)
        | inr sent ↦ (
          passed t refl (rw sends.same_backend pays)
              (record { sent = sent.sent; logs = sent.logs; hidden = sent.hidden }),
          keeps,
        )
      ]

  pub with_proof-Ok :
      (now : ℕ) (t : Bytes) (w : Writer) (next : State V P N → Writer × State V P N)
      (s : State V P N)
      → ((s' : State V P N) → s'.forwards ≡ s.forwards → Sends s' (next s').1)
      → Ok (some t) s (with_proof h now t w next s).1
  with_proof-Ok now t w next s sends = elim (with_proof_cases h now t w next s) [
    | inr (refused, e) ↦
        rw e (shut refl, record { keeps = λ j k. single.verify_keeps now t s.backend j k })
    | inl (accepted, e) ↦ rw e (
        sent_after now t s (next (verified h now t s)).1 accepted (sends (verified h now t s) refl))
  ]

  -- What holds from a state with the same backend and log holds from this one.
  pub same_base :
      (token : Option Bytes) (s s' x : State V P N)
      → s'.backend ≡ s.backend
      → s'.forwards ≡ s.forwards
      → Ok token s' x
      → Ok token s x
  same_base token s s' x b f (shut e, k) =
      (shut (e ∙ f), record { keeps = λ j q. k.keeps j (rw b q) })
  same_base token s s' x b f (passed t names pays sent, k) = (
    passed t names (rw b at pays) (record {
      sent = sent.sent;
      logs = sent.logs ∙ ap (λ l. l ++ sent.sent ∷ []) f;
      hidden = sent.hidden;
    }),
    record { keeps = λ j q. k.keeps j (rw b q) },
  )

  pub challenge-Ok :
      (token : Option Bytes) (now : ℕ) (price : ℤ) (r : Request) (w : Writer) (s : State V P N)
      → Ok token s (challenge h now price r w s).1
  challenge-Ok token now price r w s =
      rw (challenge-state h now price r w s)
        (shut refl, record { keeps = λ j q. single.challenge_keeps now _ w s.backend j ∙ q })

  pub rate_limited-Ok :
      (token : Option Bytes) (now : ℕ) (r : Request) (w : Writer)
      (next : State V P N → Writer × State V P N) (s : State V P N)
      → ((s' : State V P N) → Ok token s' (next s').1)
      → Ok token s (rate_limited h now r w next s).1
  rate_limited-Ok token now r w next s continues =
      let (limiters, outcome) = rate_limited_cases h now r w next s in
      elim outcome [
        | inl e ↦
            rw e (same_base token s (record s { limiters = limiters }) _ refl refl (continues _))
        | inr e ↦ rw e (shut refl, record { keeps = λ j q. q })
      ]

  pub flat-Ok :
      (now : ℕ) (r : Request) (w : Writer) (rt : Route) (s : State V P N)
      → Ok
          (h.verifier.extract_token (get authorization_header r.header))
          s
          (serve_flat h now r w rt s).1
  unfolding serve_flat flat_token flat_challenge
  flat-Ok now r w rt s =
      elim (Option-cases (h.verifier.extract_token (get authorization_header r.header))) [
        | inr (t, e) ↦
            rw (e, serve_flat)
              (with_proof-Ok now t w _ s λ s' _.
                forward-Sends rt _ w s'
                  (get-del authorization_header authorization_header r.header))
        | inl e ↦
            rw (e, serve_flat)
              (rate_limited-Ok none now r w _ s λ s'. challenge-Ok none now rt.price_sats r w s')
      ]
