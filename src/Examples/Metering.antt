-- ===== src/Examples/Metering.antt =====
-- The metered proxy on concrete inputs: counts, prices and routes.
use blockade.Prelude.{
  length, ok, Bytes, bytes, lookup, ℕ, ◌≡◌, refl, subst, ◌↔◌, none, some, [], ◌∷◌, ◌++◌,
}
use blockade.Prelude.Int.{pos}
use blockade.Std.Hex
use blockade.Std.Base64
use blockade.Std.Http.{get, fresh_writer, response, values}
use blockade.Store.Mem.{MemStore}
use blockade.Store.Principal.{MemPrincipalStore}
use blockade.Lightning.Interface.{lightning_issuer}
use blockade.Lightning.Verifier.{World}
use blockade.Proxy.Handler.{Handler, State, Metering, authorization_header, match_route}
use blockade.Proxy.Flat.{serve_flat}
use blockade.Proxy.Metered.{serve_credentialed}
use blockade.Proxy.Serve.{serve_http}
use blockade.Proxy.Routing.{IsFirst, match_route_iff}
use blockade.Proxy.Prices.{serve_flat_any_price, Alike, serve_credentialed_any_count}
use blockade.Proxy.Counting.{in_memory}
use blockade.Payment.{AsksStake}
use blockade.Proxy.Answers.Backends.{lightning_verifier-AsksPayment, lightning_issuer-AsksStake}
use blockade.Proxy.Cors.{origin, star, serve_http-cors}
use blockade.Proxy.Statuses.{Answered, serve_http-answers}
use blockade.Examples.Computing.{computing}
use blockade.Examples.Fixtures.{
  lightning, handler, metering, curve, route, start, token, paid_request,
}

-- The handler with metering.
abbrev metered : Handler (World ℕ MemStore) MemPrincipalStore ℕ ℕ
metered = handler (some metering)

match_route_iff_example :
    (match_route (bytes "/get/1") (route ∷ []) ≡ some route)
    ↔ IsFirst (bytes "/get/1") (route ∷ []) route
match_route_iff_example = match_route_iff (bytes "/get/1") (route ∷ []) route

carries_token :
    (handler none).verifier.extract_token (get authorization_header paid_request.header)
    ≡ some token
unfolding computing
carries_token = refl

-- The token that was bought for 10 sats, on a route of 5000.
serve_flat_any_price_example :
    serve_flat
      (handler none)
      0
      paid_request
      fresh_writer
      (record route { price_sats = pos 5000 })
      start
    ≡ serve_flat (handler none) 0 paid_request fresh_writer route start
serve_flat_any_price_example =
    serve_flat_any_price (handler none) 0 paid_request fresh_writer route (pos 5000) token start
      carries_token

abbrev principal : Bytes
principal = bytes "0707"

abbrev credential : Bytes
credential = Base64.encode (Hex.encode lightning.credential_key ++ (b':' ∷ Hex.encode principal))

credential-valid : (lightning_issuer lightning).validate_credential credential ≡ ok principal
unfolding computing
credential-valid = refl

-- The principal has enrolled.
abbrev enrolled_start : State (World ℕ MemStore) MemPrincipalStore ℕ
enrolled_start = record start {
  principal_state = (principal, record { request_count = pos 0; enrolled_at = pos 0 }) ∷ [];
}

sent_on_once :
    length
      (serve_credentialed metered metering 0 credential
        (some token)
        paid_request
        fresh_writer
        route
        enrolled_start).1.forwards
    ≡ 1
unfolding computing
sent_on_once = refl

asks_stake :
    (m : Metering (World ℕ MemStore) MemPrincipalStore)
    → metered.metering ≡ some m
    → AsksStake m.cred_issuer
asks_stake m e =
    subst (λ o. elim o [ none ↦ Unit {0} | some x ↦ AsksStake x.cred_issuer ]) e
      (lightning_issuer-AsksStake lightning)

serve_http-cors_example :
    values origin (response (serve_http metered 0 paid_request fresh_writer start).0).1 ≡ star
serve_http-cors_example =
    serve_http-cors metered (λ to r fs. refl) (lightning_verifier-AsksPayment lightning) asks_stake
      0 paid_request start

serve_http-answers_example :
    Answered metered start (serve_http metered 0 paid_request fresh_writer start)
serve_http-answers_example =
    serve_http-answers metered (lightning_verifier-AsksPayment lightning) asks_stake 0 paid_request
      start

knows_principal :
    lookup principal enrolled_start.principal_state
    ≡ some (record { request_count = pos 0; enrolled_at = pos 0 })
unfolding computing
knows_principal = refl

-- After nine requests.
abbrev ninth : MemPrincipalStore
ninth = (principal, record { request_count = pos 9; enrolled_at = pos 0 }) ∷ []

knows_ninth : lookup principal ninth ≡ some (record { request_count = pos 9; enrolled_at = pos 0 })
unfolding computing
knows_ninth = refl

-- The tenth request at the price of the first.
serve_credentialed_any_count_example :
    Alike metered curve
      (lightning_issuer lightning)
      (serve_credentialed metered
        (in_memory metered curve (lightning_issuer lightning))
        0
        credential
        (some token)
        paid_request
        fresh_writer
        route
        enrolled_start)
      (serve_credentialed metered
        (in_memory metered curve (lightning_issuer lightning))
        0
        credential
        (some token)
        paid_request
        fresh_writer
        route
        (record enrolled_start { principal_state = ninth }))
serve_credentialed_any_count_example =
    serve_credentialed_any_count metered curve (lightning_issuer lightning) 0 credential principal
      token (record { request_count = pos 0; enrolled_at = pos 0 })
      (record { request_count = pos 9; enrolled_at = pos 0 }) paid_request fresh_writer route
      enrolled_start ninth credential-valid knows_principal knows_ninth
