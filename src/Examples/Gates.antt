-- ===== src/Examples/Gates.antt =====
-- The proxy with the Lightning backend on a paid request.
use blockade.Prelude.{length, Bytes, ℕ, ◌≡◌, refl, ◌≢◌, Bool, Option, none, some, List, [], ◌∷◌}
use blockade.Std.Hex
use blockade.Std.Http.{get, fresh_writer, status}
use blockade.Payment.{SingleUse, SingleUseIssuer}
use blockade.Store.Mem.{MemStore}
use blockade.Store.Mem.Laws.{spent, mem_store-StoreLaws}
use blockade.Store.Principal.{MemPrincipalStore}
use blockade.Lightning.Verifier.{World}
use blockade.Lightning.Interface.{lightning_verifier, token_key, spent_in}
use blockade.Lightning.AntiReplay.{lightning-SingleUse}
use blockade.Proxy.Handler.{State, Metering, authorization_header}
use blockade.Proxy.Serve.{serve_http}
use blockade.Proxy.Lifecycle.{request, anon_cleanup, step, run}
use blockade.Proxy.Gate.{Gate, Keeps}
use blockade.Proxy.Gate.Server.{serve_http-Gate, no_replay, PaysWith}
use blockade.Proxy.Gate.Ledger.{Ledger, run-Ledger}
use blockade.Examples.Computing.{computing}
use blockade.Examples.Fixtures.{lightning, handler, start, token, hash, paid_request}

abbrev key : Bytes → Option Bytes
key = token_key lightning

abbrev spends : World ℕ MemStore → Bytes → Bool
spends = spent_in spent

single : SingleUse key spends (lightning_verifier lightning)
single = lightning-SingleUse lightning spent mem_store-StoreLaws

issuer :
    (m : Metering (World ℕ MemStore) MemPrincipalStore)
    → (handler none).metering ≡ some m
    → SingleUseIssuer key spends m.cred_issuer
issuer m e = cc

-- The response to the paid request.
paid_status : status (serve_http (handler none) 0 paid_request fresh_writer start).0 ≡ 200
unfolding computing
paid_status = refl

abbrev after_one : State (World ℕ MemStore) MemPrincipalStore ℕ
after_one = step (handler none) start (request 0 paid_request)

sent_once : length after_one.forwards ≡ 1
unfolding computing
sent_once = refl

pays_with : PaysWith (handler none) key spends single issuer paid_request (Hex.encode hash)
unfolding computing
pays_with = (token, refl, refl)

-- The same request again.
replayed : status (serve_http (handler none) 1 paid_request fresh_writer after_one).0 ≡ 401
unfolding computing
replayed = refl

sent_on : after_one.forwards ≢ start.forwards
sent_on e = cc sent_once

serve_http-Gate_example :
    Gate key spends
      ((handler none).verifier.extract_token (get authorization_header paid_request.header))
      start
      after_one
    × Keeps key spends start after_one
unfolding step
serve_http-Gate_example =
    serve_http-Gate (handler none) key spends single issuer 0 paid_request fresh_writer start

no_replay_example :
    (step
      (handler none)
      (run (handler none) after_one (anon_cleanup ∷ []))
      (request 9 paid_request)).forwards
    ≡ (run (handler none) after_one (anon_cleanup ∷ [])).forwards
no_replay_example =
    no_replay (handler none) key spends single issuer 0 9 paid_request paid_request start
      (anon_cleanup ∷ []) (Hex.encode hash) pays_with pays_with sent_on

run-Ledger_example :
    (keys : List Bytes) × Ledger spends start
      (run
        (handler none)
        start
        (request 0 paid_request ∷ anon_cleanup ∷ request 9 paid_request ∷ []))
      keys
run-Ledger_example =
    run-Ledger (handler none) key spends single issuer start
      (request 0 paid_request ∷ anon_cleanup ∷ request 9 paid_request ∷ [])
