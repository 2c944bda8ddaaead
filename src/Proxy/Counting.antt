-- ===== src/Proxy/Counting.antt =====
-- serveMetered of internal/proxy/proxy.go: the counts of requests under a credential and of anonymous
-- ones.
pub mod Step
pub mod Run
use blockade.Prelude.{
  Option-cases, length, length-append, ok, Result-cases, Bytes, Map, lookup, ℕ, suc, ◌≡◌, refl, ap,
  ◌∙◌, inl, inr, Option, none, some, arith,
}
use blockade.Prelude.Int.{ℤ}
use blockade.Std.Http.{Request, Writer}
use blockade.Config.{CurveConfig}
use blockade.Payment.{CredentialIssuer}
use blockade.Store.Principal.{
  PrincipalRecord, MemPrincipalStore, mem_principals, get_principal, increment_request_count,
}
use blockade.Proxy.Cases.{with_proof_cases, verified, challenge-state}
use blockade.Proxy.Handler.{Handler, State, Route, Metering, forward, with_proof}
use blockade.Proxy.Metered.{
  count_and_forward, serve_principal, serve_credentialed, count_anonymous, pending_hash,
  serve_token, complete_enrollment, enrolled,
}

-- With the principals in memory.
module _ {V N F : Type 0} (h : Handler V MemPrincipalStore N F) (curve : CurveConfig)
    (issuer : CredentialIssuer V) where
  abbrev pub in_memory : Metering V MemPrincipalStore
  in_memory = record { curve = curve; cred_issuer = issuer; principals = mem_principals }

  -- The request was sent on and counted once for the principal, or neither.
  pub data Counted (id : Bytes) (s s' : State V MemPrincipalStore N) : Type 0 where
    neither : s'.forwards ≡ s.forwards → s'.principal_state ≡ s.principal_state → Counted id s s'
    both :
        (len : length s'.forwards ≡ suc (length s.forwards))
        → s'.principal_state ≡ (increment_request_count id s.principal_state).1
        → Counted id s s'

  pub increment_succeeds :
      (id : Bytes) (p : MemPrincipalStore) → (n : ℤ) × ((increment_request_count id p).0 ≡ ok n)
  unfolding increment_request_count
  increment_succeeds id p = elim (Result-cases (increment_request_count id p).0) [
    | inl (n, e) ↦ (n, e)
    | inr (x, e) ↦ absurd (ground arith)
  ]

  count_and_forward-Counted :
      (id : Bytes) (r : Request) (w : Writer) (rt : Route) (s : State V MemPrincipalStore N)
      → Counted id s (count_and_forward h in_memory id r w rt s).1
  unfolding count_and_forward forward
  count_and_forward-Counted id r w rt s =
      let (n, e) = increment_succeeds id s.principal_state in
      rw (e, count_and_forward) (both (length-append s.forwards _ ∙ omega arith) refl)

  same_start :
      (id : Bytes) (s s' x : State V MemPrincipalStore N)
      → s'.forwards ≡ s.forwards
      → s'.principal_state ≡ s.principal_state
      → Counted id s' x
      → Counted id s x
  same_start id s s' x f p (neither g q) = neither (g ∙ f) (q ∙ p)
  same_start id s s' x f p (both l q) =
      both (l ∙ ap (λ y. suc (length y)) f) (q ∙ ap (λ y. (increment_request_count id y).1) p)

  principal-Counted :
      (now : ℕ) (id : Bytes) (rec : PrincipalRecord) (token : Option Bytes) (r : Request)
      (w : Writer) (rt : Route) (s : State V MemPrincipalStore N)
      → Counted id s (serve_principal h in_memory now id rec token r w rt s).1
  unfolding serve_principal
  principal-Counted now id rec none r w rt s =
      rw (challenge-state h now _ r w s) (neither refl refl)
  principal-Counted now id rec (some t) r w rt s =
      elim (with_proof_cases h now t w (count_and_forward h in_memory id r w rt) s) [
        | inl (a, e) ↦ rw e (
            same_start id s (verified h now t s) _ refl refl
              (count_and_forward-Counted id r w rt (verified h now t s)))
        | inr (a, e) ↦ rw e (neither refl refl)
      ]

  -- A request with a credential that is valid for the principal `id` is counted for `id` exactly
  -- if it is sent on, and then once.
  pub serve_credentialed-Counted :
      (now : ℕ) (cred id : Bytes) (token : Option Bytes) (r : Request) (w : Writer) (rt : Route)
      (s : State V MemPrincipalStore N)
      → issuer.validate_credential cred ≡ ok id
      → Counted id s (serve_credentialed h in_memory now cred token r w rt s).1
  unfolding serve_credentialed get_principal
  serve_credentialed-Counted now cred id token r w rt s valid =
      elim (Option-cases (lookup id s.principal_state)) [
        | inl e ↦ rw (valid, e, serve_credentialed) (neither refl refl)
        | inr (rec, e) ↦
            rw (valid, e, serve_credentialed) (principal-Counted now id rec token r w rt s)
      ]

module _ {V P N F : Type 0} (h : Handler V P N F) (m : Metering V P) where
  -- A token without a credential is answered the same, and the same is sent on, whatever the
  -- anonymous counts: the cap is not looked at.
  pub serve_token_any_count :
      (now : ℕ) (t : Bytes) (r : Request) (w : Writer) (rt : Route) (s : State V P N)
      (counts : Map ℤ)
      → let a = serve_token h m now t r w rt (record s { anon_counts = counts }) in
        let b = serve_token h m now t r w rt s in
        (a.0 ≡ b.0) × (a.1.forwards ≡ b.1.forwards) × (a.1.backend ≡ b.1.backend)
  unfolding serve_token pending_hash complete_enrollment enrolled with_proof count_anonymous forward
  serve_token_any_count now t r w rt s counts = ground arith
