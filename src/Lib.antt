-- ===== src/Lib.antt =====
-- blockAIde: a reverse proxy that lets requests through to its upstreams for Bitcoin payments. A
-- client without a payment gets a challenge (402); it pays, and repeats the request with a token
-- in the Authorization header; the proxy asks its payment backend about the token, and sends the
-- request on if the backend accepts it. With metering (the cost curve) there are anonymous
-- requests at a floor price, an enrolment for a stake, and requests under the credential that it
-- gives, at a price that grows.
--
-- The parts, and where they are modelled:
--   internal/proxy/proxy.go             Proxy: Handler (state, New's routes, the shared helpers), Flat
--                                       (serveFlat), Metered (serveMetered, completeEnrollment), Serve
--                                       (ServeHTTP, handleSettlement), Lifecycle (New, EnableCurve, the
--                                       cleanup loops, a run of events)
--   internal/payment/verifier.go,       Payment: PaymentVerifier and CredentialIssuer as records over
--     metering.go                       the backend's state, with what the proxy relies on
--   internal/payment/pricing.go,        Price
--     price.go
--   internal/payment/lightning          Lightning: Dial, Client, Token, Verifier, Credential, Enrollment
--   internal/payment/onchain            Onchain: Client, Verifier
--   internal/store                      Store: Types (the interfaces and their contracts), Mem, Sqlite,
--                                       Principal
--   internal/config/config.go           Config
--   cmd/proxy/main.go                   Startup, with Startup/Backing (the choice of the stores)
--   examples/browser-paywall/           Widget: parseChallenge and buildAuthHeader, with Widget/Purchase
--     l402-paywall.js                   (the client against the proxy) and Widget/Amounts
-- The other children hold proofs about the module that they stand under or beside. Of the proxy:
-- Gate (what is sent on, and what was paid for it), Answers (how each path finishes a response, over
-- any property of it), Statuses and Cors (two such properties), Visits (a visitor and a client that
-- pays, with any backend), Counting and Anonymous (the counts, and the price that follows from
-- them), Prices, Routing, Enrollment, Settlement and Limits.
-- Of the backends: AntiReplay, StakeReplay, Accepts, Lost, Challenge, Purchase, Credentials,
-- Settlement, Calls, Elsewhere, Race and StakeRace. Beside them Config/Validity, Price/Curve,
-- Store/Sqlite/Contract, Startup/Serves, Startup/Main, Startup/Life, Startup/Accounts and
-- Startup/Paid (the program as a whole, with the loop that NewVerifier starts), and the Laws. Prelude
-- has what all share; Std has what the program uses of Go's standard library (strings, encoding/hex,
-- encoding/base64, encoding/json, crypto/sha256, net, net/http), written out so that it runs.
-- Examples has a concrete node, bitcoind, engine and handler, on which the tests run.
--
-- How the parts fit: the proxy is defined over any PaymentVerifier, CredentialIssuer and
-- PrincipalStore. The contracts SingleUse, SingleUseIssuer, AsksPayment and AsksStake of Payment stand
-- between it and the backends, and StoreLaws and PendingLaws of Store/Types between these and the
-- stores. A store's state is seen as the set of its spent keys and the map of its pending addresses.
--
-- How the code is written: a method that changes state is a function from the state to its result
-- and the next state (`Go S A`, with a do block where errors return early; what ran before an
-- error has happened). int64 is an integer that wraps where it is added or multiplied. A request
-- reads the clock once, and is given its time in nanoseconds after 1970. Requests and the ticks of
-- the cleanup loops are events that run one after another; where calls of VerifyProof or
-- CompleteEnrollment overlap, the Race modules split them into their critical sections
-- (Prelude/Schedules). Loops are recursion on lists; `decimal` of Std/Strings recurses on as many
-- steps as the number is large, plus one, and each step divides it by ten, so that these are enough.
--
-- Parameters, with what is assumed of them where a theorem names it: the files, the decoding of
-- YAML, crypto/x509 and the dialling of gRPC, the macaroon library (MacaroonLaws), lnd's RPC
-- interface, the random generator, the exchange with bitcoind, the decoding of the JSON that it
-- sends and float64, the SQL engine (SqlLaws), the rate limiter of golang.org/x/time/rate,
-- url.Parse, and the exchange with an upstream, whose responses ReverseProxy passes on.
--
-- Not modelled: closing a store or the connection to lnd, logging, the flags of main, and the
-- server itself with what main does when it stops; a switch of protocols by an upstream; the browser client's dialog, wallet calls and
-- polling; and the other examples, the scripts and the design system, which are not part of the Go
-- program.
--
pub mod Config
pub mod Examples
pub mod Lightning
pub mod Onchain
pub mod Payment
pub mod Prelude
pub mod Price
pub mod Proxy
pub mod Startup
pub mod Std
pub mod Store
pub mod Widget
