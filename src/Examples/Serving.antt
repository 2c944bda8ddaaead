-- ===== src/Examples/Serving.antt =====
-- The second request of a client that has enrolled.
use blockade.Prelude.{
  ok, ◌==◌, Bytes, bytes, ℕ, ◌≡◌, refl, false, none, some, List, [], ◌∷◌, ◌++◌, arith,
}
use blockade.Prelude.Int.{pos}
use blockade.Std.Base64
use blockade.Std.Hex
use blockade.Std.Sha256.{sum256}
use blockade.Std.Http.{Request, get, fresh_writer}
use blockade.Store.Mem.{MemStore}
use blockade.Store.Principal.{MemPrincipalStore}
use blockade.Lightning.Verifier.{World}
use blockade.Lightning.Enrollment as Stake
use blockade.Lightning.Token.Laws.{format}
use blockade.Proxy.Handler.{Handler, State, Metering, credential_header, authorization_header}
use blockade.Proxy.Metered.{complete_enrollment, serve_metered}
use blockade.Proxy.Lifecycle.{Event, request, anon_cleanup, run}
use blockade.Proxy.Counting.Step.{Spares}
use blockade.Proxy.Counting.Run.{SparesRun, served}
use blockade.Lightning.Interface.{lightning_issuer}
use blockade.Store.Principal.{PrincipalRecord}
use blockade.Proxy.Enrollment.{metering}
use blockade.Proxy.Enrollment.Served.{PaysWith, Served, enrolled_request-Served}
use blockade.Examples.Computing.{computing}
use blockade.Examples.Macaroons.{plain_lib-MacaroonLaws}
use blockade.Examples.Fixtures.{
  lightning, handler, metering as fixture, curve, start, token, hash, repeat, route, get_with,
}

abbrev proxy : Handler (World ℕ MemStore) MemPrincipalStore ℕ ℕ
proxy = handler (some fixture)

abbrev metered : Metering (World ℕ MemStore) MemPrincipalStore
metered = metering lightning plain_lib-MacaroonLaws proxy curve

abbrev principal : Bytes
principal = bytes "07070707070707070707070707070707"

abbrev credential : Bytes
credential = Base64.encode (Hex.encode lightning.credential_key ++ (b':' ∷ Hex.encode principal))

-- The token of the payment with the preimage `n`, 32 times, and a request with it and the credential.
abbrev paid_with : ℕ → Bytes
paid_with n =
    format (Hex.encode (repeat 32 1) ++ (b':' ∷ Hex.encode (Hex.encode (sum256 (repeat 32 n)))))
      (repeat 32 n)

abbrev credentialed : ℕ → Request
credentialed n = record (get_with []) {
  header =
      (authorization_header, bytes "L402 " ++ paid_with n) ∷ (credential_header, credential) ∷ [];
}

abbrev enrolled : State (World ℕ MemStore) MemPrincipalStore ℕ
enrolled = (complete_enrollment proxy metered 0 token (Hex.encode hash) fresh_writer start).1

completed :
    (Stake.complete_enrollment lightning 0 token start.backend).0 ≡ ok (principal, credential)
unfolding computing
completed = refl

abbrev events : List Event
events = request 5 (credentialed 8) ∷ anon_cleanup ∷ request 6 (get_with []) ∷ []

-- Were its token taken for a stake, the client would get the identifier `other`.
spared :
    (now : ℕ) (r : Request) (s : State (World ℕ MemStore) MemPrincipalStore ℕ)
    (t other cred : Bytes)
    → proxy.verifier.extract_token (get authorization_header r.header) ≡ some t
    → ((lightning_issuer lightning).complete_enrollment now t s.backend).0 ≡ ok (other, cred)
    → (other == principal) ≡ false
    → Spares proxy (lightning_issuer lightning) principal now r s
spared now r s t other cred carries gives differs t' carries' p c gives' =
    let same : t ≡ t' = cc (carries, carries') in
    let again : ((lightning_issuer lightning).complete_enrollment now t s.backend).0 ≡ ok (p, c) =
      rw same gives' in
    let equal : other ≡ p = cc (gives, again) in rw (← equal) differs

unpaid :
    (now : ℕ) (r : Request) (s : State (World ℕ MemStore) MemPrincipalStore ℕ)
    → proxy.verifier.extract_token (get authorization_header r.header) ≡ none
    → Spares proxy (lightning_issuer lightning) principal now r s
unpaid now r s bare t carries p c gives = absurd (cc (bare, carries))

events-SparesRun : SparesRun proxy (lightning_issuer lightning) principal enrolled events
unfolding computing
events-SparesRun = (
  spared 5 (credentialed 8) enrolled (paid_with 8) _ _ refl refl refl,
  (
    unpaid 6 (get_with []) (run proxy enrolled (request 5 (credentialed 8) ∷ anon_cleanup ∷ []))
        refl,
    tt,
  ),
)

one_served : served proxy (lightning_issuer lightning) principal enrolled events ≡ 1
unfolding computing served
one_served = refl

pays :
    PaysWith lightning plain_lib-MacaroonLaws proxy curve 7
      (credentialed 9)
      credential
      (paid_with 9)
      (run proxy enrolled events)
unfolding computing
pays = record { credential = refl; present = refl; token = refl; accepted = refl }

enrolled_request-Served_example :
    (rec : PrincipalRecord) × (rec.request_count
      ≡ pos (served proxy (lightning_issuer lightning) principal enrolled events))
    × Served lightning plain_lib-MacaroonLaws proxy curve
        (credentialed 9)
        route
        principal
        rec
        (run proxy enrolled events)
        (serve_metered proxy metered 7
          (credentialed 9)
          fresh_writer
          route
          (run proxy enrolled events))
enrolled_request-Served_example =
    enrolled_request-Served lightning plain_lib-MacaroonLaws proxy curve refl 0 token
      (Hex.encode hash) principal credential fresh_writer start refl completed events
      events-SparesRun (rw one_served (omega arith)) 7 (credentialed 9) (paid_with 9) fresh_writer
      route pays
