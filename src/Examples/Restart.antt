-- ===== src/Examples/Restart.antt =====
-- A restart of the proxy between two requests with one token: the new process has other keys, and
-- its store still has what the old one has spent.
use blockade.Prelude.{length, Bytes, ℕ, ◌≡◌, refl, ◌≢◌, Bool, Option, none, some, [], ◌∷◌}
use blockade.Std.Hex
use blockade.Payment.{SingleUse, SingleUseIssuer}
use blockade.Store.Mem.{MemStore}
use blockade.Store.Mem.Laws.{spent, mem_store-StoreLaws}
use blockade.Store.Principal.{MemPrincipalStore}
use blockade.Lightning.Verifier.{Verifier, World}
use blockade.Lightning.Credential.{payment_hash_from_token}
use blockade.Lightning.Interface.{lightning_verifier, token_key, spent_in}
use blockade.Lightning.AntiReplay.{lightning-SingleUse}
use blockade.Proxy.Handler.{Handler, State, Metering}
use blockade.Proxy.Lifecycle.{request, anon_cleanup, step, run}
use blockade.Proxy.Gate.Server.{PaysWith}
use blockade.Proxy.Gate.Restart.{no_replay_after_restart}
use blockade.Examples.Computing.{computing}
use blockade.Examples.Macaroons.{Plain}
use blockade.Examples.Fixtures.{lightning, handler, start, token, hash, paid_request, repeat}

abbrev key : Bytes → Option Bytes
key = token_key lightning

abbrev spends : World ℕ MemStore → Bytes → Bool
spends = spent_in spent

abbrev rekeyed : Verifier Plain ℕ MemStore
rekeyed = record lightning { root_key = repeat 32 3; credential_key = repeat 32 4 }

abbrev old : Handler (World ℕ MemStore) MemPrincipalStore ℕ ℕ
old = handler none

abbrev renewed : Handler (World ℕ MemStore) MemPrincipalStore ℕ ℕ
renewed = record old { verifier = lightning_verifier rekeyed }

old-SingleUse : SingleUse key spends old.verifier
old-SingleUse = lightning-SingleUse lightning spent mem_store-StoreLaws

renewed-SingleUse : SingleUse key spends renewed.verifier
unfolding payment_hash_from_token
renewed-SingleUse = lightning-SingleUse rekeyed spent mem_store-StoreLaws

no_issuer :
    (h : Handler (World ℕ MemStore) MemPrincipalStore ℕ ℕ)
    → h.metering ≡ none
    → (m : Metering (World ℕ MemStore) MemPrincipalStore) → h.metering ≡ some m
    → SingleUseIssuer key spends m.cred_issuer
no_issuer h e m e' = cc

abbrev after_one : State (World ℕ MemStore) MemPrincipalStore ℕ
after_one = step old start (request 0 paid_request)

sent_once : length after_one.forwards ≡ 1
unfolding computing
sent_once = refl

sent_on : after_one.forwards ≢ start.forwards
sent_on e = cc sent_once

old_pays : PaysWith old key spends old-SingleUse (no_issuer old refl) paid_request (Hex.encode hash)
unfolding computing
old_pays = (token, refl, refl)

renewed_pays :
    PaysWith renewed key spends renewed-SingleUse
      (no_issuer renewed refl)
      paid_request
      (Hex.encode hash)
unfolding computing
renewed_pays = (token, refl, refl)

abbrev restarted : State (World ℕ MemStore) MemPrincipalStore ℕ
restarted = record start { backend = (run old after_one (anon_cleanup ∷ [])).backend }

no_replay_after_restart_example :
    (step renewed (run renewed restarted []) (request 9 paid_request)).forwards
    ≡ (run renewed restarted []).forwards
no_replay_after_restart_example =
    no_replay_after_restart old renewed key spends old-SingleUse (no_issuer old refl)
      renewed-SingleUse (no_issuer renewed refl) 0 9 paid_request paid_request start restarted
      (anon_cleanup ∷ []) [] (Hex.encode hash) old_pays renewed_pays sent_on (λ j q. q)
