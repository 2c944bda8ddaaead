-- ===== src/Proxy/Counting/Step.antt =====
-- ServeHTTP of internal/proxy/proxy.go on one request: the record of one principal.
use blockade.Prelude.{
  Bool-cases, Option-cases, length, Result, ok, err, Result-cases, ◌==◌, Bytes, bytes,
  lookup-insert, lookup, ℕ, suc, ◌≡◌, refl, ap, ◌∙◌, inl, inr, Bool, true, false, not, ◌&&◌, Option,
  some, [], arith,
}
use mathlib.Core.Option
use blockade.Prelude.Int.{ℤ}
use blockade.Std.Http.{Request, Writer, fresh_writer, get}
use blockade.Config.{CurveConfig}
use blockade.Payment.{CredentialIssuer}
use blockade.Store.Principal.{MemPrincipalStore, create_principal, lookup-increment, counted}
use blockade.Proxy.Counting.{in_memory, Counted, neither, both, serve_credentialed-Counted}
use blockade.Proxy.Handler.{
  Handler, State, Route, authorization_header, credential_header, forward, with_proof, challenge,
  rate_limited, match_route,
}
use blockade.Proxy.Metered.{
  serve_credentialed, count_anonymous, pending_hash, serve_token, complete_enrollment, enrolled,
  enrollment_challenge, anonymous_challenge, serve_anonymous, serve_metered,
}
use blockade.Proxy.Serve.{answer_settlement, handle_settlement, serve_route, dispatch, serve_http}

module _ {V : Type 0} (issuer : CredentialIssuer V) (id : Bytes) where
  abbrev is_valid_for : Result Bytes → Bool
  is_valid_for (ok p) = p == id
  is_valid_for (err e) = false

  -- The request carries a credential that is valid for `id`.
  abbrev pub is_for : Request → Bool
  is_for r =
      let cred = get credential_header r.header in
      not (cred == []) && is_valid_for (issuer.validate_credential cred)

  -- An enrolment with the token `t` is not given the identifier `id`.
  abbrev pub GivesNot : ℕ → Bytes → V → Type 0
  GivesNot now t b =
      (p cred : Bytes) → (issuer.complete_enrollment now t b).0 ≡ ok (p, cred) → (p == id) ≡ false

  -- No enrolment is given the identifier `id`.
  abbrev pub NeverGiven : Type 0
  NeverGiven = (now : ℕ) (t : Bytes) (b : V) → GivesNot now t b

  -- What a request does to the record of `id`.
  pub data Tally {N : Type 0} (r : Request) (s s' : State V MemPrincipalStore N) : Type 0 where
    idle :
        s'.forwards ≡ s.forwards
        → lookup id s'.principal_state ≡ lookup id s.principal_state
        → Tally r s s'
    other :
        is_for r ≡ false → lookup id s'.principal_state ≡ lookup id s.principal_state → Tally r s s'
    charge :
        is_for r ≡ true
        → length s'.forwards ≡ suc (length s.forwards)
        → lookup id s'.principal_state ≡ Option.map counted (lookup id s.principal_state)
        → Tally r s s'

module _ {V N F : Type 0} (h : Handler V MemPrincipalStore N F) (issuer : CredentialIssuer V)
    (id : Bytes) where
  -- The token of the request is not one whose enrolment is given the identifier `id`.
  abbrev pub Spares : ℕ → Request → State V MemPrincipalStore N → Type 0
  Spares now r s =
      (t : Bytes)
      → h.verifier.extract_token (get authorization_header r.header) ≡ some t
      → GivesNot issuer id now t s.backend

module _ {V N F : Type 0} (h : Handler V MemPrincipalStore N F) (curve : CurveConfig)
    (issuer : CredentialIssuer V) (id : Bytes) where
  abbrev Tallies : Request → State V MemPrincipalStore N → State V MemPrincipalStore N → Type 0
  Tallies = Tally issuer id

  tally_of_count :
      (p : Bytes) (r : Request) (s s' : State V MemPrincipalStore N)
      → is_for issuer id r ≡ (p == id)
      → Counted h curve issuer p s s'
      → Tallies r s s'
  tally_of_count p r s s' names (neither f e) = idle f (ap (lookup id) e)
  tally_of_count p r s s' names (both l e) =
      let after = ap (lookup id) e ∙ lookup-increment p id s.principal_state in
      elim (Bool-cases (p == id)) [
        | inl same ↦ charge (names ∙ same) l (after ∙ rw same refl)
        | inr differs ↦ other (names ∙ differs) (after ∙ rw differs refl)
      ]

  credentialed-Tally :
      (now : ℕ) (token : Option Bytes) (r : Request) (w : Writer) (rt : Route)
      (s : State V MemPrincipalStore N)
      → (get credential_header r.header == []) ≡ false
      → Tallies r s
          (serve_credentialed h
            (in_memory h curve issuer)
            now
            (get credential_header r.header)
            token
            r
            w
            rt
            s).1
  unfolding serve_credentialed
  credentialed-Tally now token r w rt s carries =
      let cred = get credential_header r.header in
      elim (Result-cases (issuer.validate_credential cred)) [
        | inr (e, invalid) ↦ rw (invalid, serve_credentialed) (idle refl refl)
        | inl (p, valid) ↦
            tally_of_count p r s _ (rw (carries, valid) refl)
              (serve_credentialed-Counted h curve issuer now cred p token r w rt s valid)
      ]

  created-lookup :
      (p : Bytes) (at_time : ℤ) (s : MemPrincipalStore)
      → (p == id) ≡ false
      → lookup id (create_principal p at_time s).1 ≡ lookup id s
  unfolding create_principal
  created-lookup p at_time s differs = rw (lookup-insert p id _ s, differs) refl

  enrollment-lookup :
      (now : ℕ) (t ph : Bytes) (w : Writer) (s : State V MemPrincipalStore N)
      → GivesNot issuer id now t s.backend
      → lookup id (complete_enrollment h (in_memory h curve issuer) now t ph w s).1.principal_state
        ≡ lookup id s.principal_state
  unfolding complete_enrollment enrolled create_principal
  enrollment-lookup now t ph w s spares =
      elim (Result-cases (issuer.complete_enrollment now t s.backend).0) [
        | inr (e, fails) ↦ rw (fails, complete_enrollment) refl
        | inl ((p, cred), done) ↦
            rw (done, complete_enrollment)
              (created-lookup p _ s.principal_state (spares p cred done))
      ]

  token-lookup :
      (now : ℕ) (t : Bytes) (r : Request) (w : Writer) (rt : Route)
      (s : State V MemPrincipalStore N)
      → GivesNot issuer id now t s.backend
      → lookup id (serve_token h (in_memory h curve issuer) now t r w rt s).1.principal_state
        ≡ lookup id s.principal_state
  unfolding serve_token with_proof count_anonymous forward
  token-lookup now t r w rt s spares =
      elim (Option-cases (pending_hash h (in_memory h curve issuer) t s)) [
        | inl e ↦ ground (arith, e)
        | inr (ph, e) ↦ rw (e, serve_token) (enrollment-lookup now t ph w s spares)
      ]

  untouched :
      (now : ℕ) (r : Request) (w : Writer) (s : State V MemPrincipalStore N)
      → (rate_limited h now r w
          (anonymous_challenge h (in_memory h curve issuer) now r w)
          s).1.principal_state
        ≡ s.principal_state
  unfolding rate_limited anonymous_challenge enrollment_challenge challenge
  untouched now r w s = ground arith

  metered-Tally :
      (now : ℕ) (r : Request) (w : Writer) (rt : Route) (s : State V MemPrincipalStore N)
      → Spares h issuer id now r s
      → Tallies r s (serve_metered h (in_memory h curve issuer) now r w rt s).1
  unfolding serve_metered serve_anonymous
  metered-Tally now r w rt s spares =
      let token = h.verifier.extract_token (get authorization_header r.header) in
      elim (Bool-cases (get credential_header r.header == [])) [
        | inr carries ↦ rw (carries, serve_metered) (credentialed-Tally now token r w rt s carries)
        | inl bare ↦ elim (Option-cases token) [
          | inl e ↦
              rw (bare, e, serve_metered)
                (other (rw bare refl) (ap (lookup id) (untouched now r w s)))
          | inr (t, e) ↦
              rw (bare, e, serve_metered)
                (other (rw bare refl) (token-lookup now t r w rt s (spares t e)))
        ]
      ]

  settlement-Tally :
      (r : Request) (w : Writer) (s : State V MemPrincipalStore N)
      → Tallies r s (handle_settlement h issuer r w s).1
  unfolding handle_settlement answer_settlement
  settlement-Tally r w s = idle (ground arith) (ground arith)

  module _ (on : h.metering ≡ some (in_memory h curve issuer)) where
    route-Tally :
        (now : ℕ) (r : Request) (w : Writer) (s : State V MemPrincipalStore N)
        → Spares h issuer id now r s
        → Tallies r s (serve_route h now r w s).1
    unfolding serve_route
    route-Tally now r w s spares = elim (Option-cases (match_route r.path h.routes)) [
      | inl e ↦ rw (e, serve_route) (idle refl refl)
      | inr (rt, e) ↦ rw (e, on, serve_route) (metered-Tally now r w rt s spares)
    ]

    pub serve_http-Tally :
        (now : ℕ) (r : Request) (s : State V MemPrincipalStore N)
        → Spares h issuer id now r s
        → Tallies r s (serve_http h now r fresh_writer s).1
    unfolding serve_http dispatch
    serve_http-Tally now r s spares = elim (Bool-cases (r.method == bytes "OPTIONS")) [
      | inl o ↦ rw (o, serve_http) (idle refl refl)
      | inr o ↦ elim (Bool-cases (r.path == bytes "/l402/settlement")) [
        | inl p ↦ rw (o, on, p, serve_http, dispatch) (settlement-Tally r _ s)
        | inr p ↦ rw (o, on, p, serve_http, dispatch) (route-Tally now r _ s spares)
      ]
    ]
