-- ===== src/Examples/Escalating.antt =====
-- A principal that has made one request, and pays for its second: what it is asked for then.
use blockade.Prelude.{ok, Bytes, bytes, ℕ, ◌+◌, ◌*◌, ◌≡◌, refl, some, List, [], ◌∷◌, ◌++◌, arith}
use blockade.Prelude.Int.{pos}
use blockade.Std.Base64
use blockade.Std.Hex
use blockade.Std.Http.{Request, fresh_writer}
use blockade.Payment.{CredentialIssuer}
use blockade.Store.Mem.{MemStore}
use blockade.Store.Principal.{MemPrincipalStore, mem_principals}
use blockade.Lightning.Verifier.{World}
use blockade.Lightning.Interface.{lightning_issuer}
use blockade.Proxy.Handler.{Handler, State, credential_header, authorization_header, challenge}
use blockade.Proxy.Lifecycle.{Event, request, anon_cleanup, step, run}
use blockade.Proxy.Serve.{set_cors, serve_http}
use blockade.Proxy.Counting.Step.{NeverGiven}
use blockade.Proxy.Counting.Run.{HasCount, served, AsksAgain, asked_escalates}
use blockade.Examples.Computing.{computing}
use blockade.Examples.Fixtures.{lightning, handler, curve, route, start, token, get_with}

abbrev principal : Bytes
principal = bytes "0707"

abbrev credential : Bytes
credential = Base64.encode (Hex.encode lightning.credential_key ++ (b':' ∷ Hex.encode principal))

-- Who enrolls from now on is given the identifier 0808.
abbrev issuer : CredentialIssuer (World ℕ MemStore)
issuer = record (lightning_issuer lightning) {
  complete_enrollment = λ now t b. (ok (bytes "0808", []), b);
}

never : NeverGiven issuer principal
unfolding computing
never now t b p cred done = ground (arith, done)

abbrev proxy : Handler (World ℕ MemStore) MemPrincipalStore ℕ ℕ
proxy = handler (some (record { curve = curve; cred_issuer = issuer; principals = mem_principals }))

abbrev with_credential : Bytes → Request
with_credential authorization = record (get_with []) {
  header = (authorization_header, authorization) ∷ (credential_header, credential) ∷ [];
}

abbrev known : State (World ℕ MemStore) MemPrincipalStore ℕ
known = record start {
  principal_state = (principal, record { request_count = pos 1; enrolled_at = pos 0 }) ∷ [];
}

-- The second event is refused, as its token is spent.
abbrev events : List Event
events =
    request 0 (with_credential (bytes "L402 " ++ token))
    ∷ request 1 (with_credential (bytes "L402 " ++ token))
    ∷ anon_cleanup
    ∷ []

once : HasCount issuer principal 1 known
unfolding computing
once = (record { request_count = pos 1; enrolled_at = pos 0 }, refl, refl)

one_served : served proxy issuer principal known events ≡ 1
unfolding computing served step
one_served = refl

asks : AsksAgain proxy issuer principal (with_credential []) route
unfolding computing
asks = record {
  real = refl;
  elsewhere = refl;
  matches = refl;
  carries = refl;
  valid = refl;
  bare = refl;
}

asked_escalates_example :
    serve_http proxy 9 (with_credential []) fresh_writer (run proxy known events)
    ≡ challenge proxy 9
        (pos (10 + 10 * (1 + served proxy issuer principal known events)))
        (with_credential [])
        (set_cors fresh_writer)
        (run proxy known events)
asked_escalates_example =
    asked_escalates proxy issuer principal curve refl never known events 1 10 10 once refl refl
      (rw one_served (omega arith)) (rw one_served (omega arith)) 9 (with_credential []) route asks
