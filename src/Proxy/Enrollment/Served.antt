-- ===== src/Proxy/Enrollment/Served.antt =====
-- serveMetered of internal/proxy/proxy.go on the requests of a client that has enrolled.
use blockade.Prelude.{
  ok, ◌==◌, Bytes, eq_refl, lookup-insert, lookup, ℕ, ◌+◌, ◌^◌, ◌<◌, ◌≡◌, refl, ap, ◌∙◌, true,
  false, none, some, List, [], ◌∷◌, ◌++◌, arith,
}
use blockade.Prelude.Int.{pos, wrap64, ◌+ℤ◌}
use blockade.Std.Http.{Request, Writer, get, del}
use blockade.Store.Principal.{
  PrincipalRecord, MemPrincipalStore, get_principal, increment_request_count,
}
use blockade.Lightning.Services.{MacaroonLaws}
use blockade.Lightning.Verifier.{Verifier, World}
use blockade.Lightning.Credential.{validate_credential}
use blockade.Lightning.Enrollment as Stake
use blockade.Lightning.Interface.{lightning_issuer}
use blockade.Proxy.Lifecycle.{Event, run}
use blockade.Proxy.Counting.Run.{SparesRun, served, run-HasCount}
use blockade.Config.{CurveConfig}
use blockade.Proxy.Handler.{
  Handler, State, Route, authorization_header, credential_header, forward, with_proof,
}
use blockade.Proxy.Enrollment.{metering, complete_enrollment-Enrolls}
use blockade.Proxy.Metered.{
  count_and_forward, serve_principal, serve_credentialed, complete_enrollment, serve_metered,
}

module _ {M E S N F : Type 0} (v : Verifier M E S) (mac : MacaroonLaws v.lib)
    (h : Handler (World E S) MemPrincipalStore N F) (curve : CurveConfig) where
  abbrev ProxyState : Type 0
  ProxyState = State (World E S) MemPrincipalStore N

  -- `r` carries the credential `cred` and a token that the backend accepts.
  pub record PaysWith (later : ℕ) (r : Request) (cred paid : Bytes) (s : ProxyState) : Type 0 where
    pub credential : get credential_header r.header ≡ cred
    pub present : (cred == []) ≡ false
    pub token : h.verifier.extract_token (get authorization_header r.header) ≡ some paid
    pub accepted : (h.verifier.verify_proof later paid s.backend).0 ≡ ok true

  abbrev first_count : PrincipalRecord → PrincipalRecord
  first_count rec = record rec { request_count = wrap64 (rec.request_count +ℤ pos 1) }

  incremented :
      (id : Bytes) (rec : PrincipalRecord) (p : MemPrincipalStore)
      → lookup id p ≡ some rec
      → ((increment_request_count id p).0 ≡ ok (wrap64 (rec.request_count +ℤ pos 1)))
        × (lookup id (increment_request_count id p).1 ≡ some (first_count rec))
  unfolding increment_request_count
  incremented id rec p known =
      ground (arith, known, eq_refl id, lookup-insert id id (first_count rec) p)

  -- From `s`, the request was sent on without its two headers, and counted for `id`.
  pub record Served (r : Request) (rt : Route) (id : Bytes) (rec : PrincipalRecord) (s : ProxyState)
      (a : Writer × ProxyState) : Type 0 where
    pub sent_on :
        a.1.forwards
        ≡ s.forwards
          ++ record {
            upstream = rt.upstream;
            request = record r {
              header = del credential_header (del authorization_header r.header);
            };
          }
            ∷ []
    pub counts : lookup id a.1.principal_state ≡ some (first_count rec)

  principal-Served :
      (later : ℕ) (r : Request) (cred id paid : Bytes) (w : Writer) (rt : Route) (s : ProxyState)
      (rec : PrincipalRecord)
      → PaysWith later r cred paid s
      → lookup id s.principal_state ≡ some rec
      → Served r rt id rec s
          (serve_principal h (metering v mac h curve) later id rec (some paid) r w rt s)
  unfolding serve_principal with_proof count_and_forward forward
  principal-Served later r cred id paid w rt s rec pays known =
      let (counted, stored) = incremented id rec s.principal_state known in
      rw (pays.accepted, with_proof, counted, count_and_forward)
        (record { sent_on = refl; counts = stored })

  credentialed-Served :
      (later : ℕ) (r : Request) (cred id paid : Bytes) (w : Writer) (rt : Route) (s : ProxyState)
      (rec : PrincipalRecord)
      → PaysWith later r cred paid s
      → validate_credential v cred ≡ ok id
      → lookup id s.principal_state ≡ some rec
      → Served r rt id rec s
          (serve_credentialed h (metering v mac h curve) later cred (some paid) r w rt s)
  unfolding serve_credentialed get_principal
  credentialed-Served later r cred id paid w rt s rec pays valid known =
      rw (valid, known, serve_credentialed)
        (principal-Served later r cred id paid w rt s rec pays known)

  metered-Served :
      (later : ℕ) (r : Request) (cred id paid : Bytes) (w : Writer) (rt : Route) (s : ProxyState)
      (rec : PrincipalRecord)
      → PaysWith later r cred paid s
      → validate_credential v cred ≡ ok id
      → lookup id s.principal_state ≡ some rec
      → Served r rt id rec s (serve_metered h (metering v mac h curve) later r w rt s)
  unfolding serve_metered
  metered-Served later r cred id paid w rt s rec pays valid known =
      rw (pays.credential, pays.present, pays.token, serve_metered)
        (credentialed-Served later r cred id paid w rt s rec pays valid known)

  module _ (on : h.metering ≡ some (metering v mac h curve)) where
    -- A client that has enrolled gets through with its credential, whatever requests, enrolments and
    -- cleanups came after its enrolment: a request that carries the credential and a token that the
    -- backend accepts is sent on to the upstream of its route, without its Authorization and
    -- L402-Credential headers, and is counted for its principal, on top of those sent on before, of
    -- which there are fewer than 2 ^ 63. No later enrolment was given the principal's identifier,
    -- nothing had been written to the response of the enrolment, and the macaroon library reads back
    -- and verifies what it makes.
    pub enrolled_request-Served :
        (now : ℕ) (stake hash id cred : Bytes) (w : Writer) (s : ProxyState)
        → w.sent ≡ none
        → (Stake.complete_enrollment v now stake s.backend).0 ≡ ok (id, cred)
        → (es : List Event)
        → let s' = (complete_enrollment h (metering v mac h curve) now stake hash w s).1 in
          SparesRun h (lightning_issuer v) id s' es
          → served h (lightning_issuer v) id s' es < 2 ^ 63
          → (later : ℕ) (r : Request) (paid : Bytes) (w' : Writer) (rt : Route)
          → PaysWith later r cred paid (run h s' es)
          → (rec : PrincipalRecord) × (rec.request_count
              ≡ pos (served h (lightning_issuer v) id s' es))
            × Served r rt id rec
                (run h s' es)
                (serve_metered h (metering v mac h curve) later r w' rt (run h s' es))
    enrolled_request-Served now stake hash id cred w s fresh done es spares few later r paid w' rt
          pays =
        let enrols =
          complete_enrollment-Enrolls v mac h curve now stake hash id cred w s fresh done in
        let s' = (complete_enrollment h (metering v mac h curve) now stake hash w s).1 in
        let n = served h (lightning_issuer v) id s' es in
        let (rec, known, has) =
          run-HasCount h (lightning_issuer v) id curve on s' es 0 spares (_, enrols.knows, refl)
            (omega (arith, few)) in
        let from_zero : 0 + n ≡ n = omega arith in
        (
          rec,
          has ∙ ap pos from_zero,
          metered-Served later r cred id paid w' rt (run h s' es) rec pays enrols.validates known,
        )
