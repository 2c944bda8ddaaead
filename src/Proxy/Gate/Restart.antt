-- ===== src/Proxy/Gate/Restart.antt =====
-- The handler of internal/proxy/proxy.go over a restart of the process: a new handler, with new keys
-- and an empty state of its own, over a store that has kept its keys.
use blockade.Prelude.{Bytes, ℕ, ◌≡◌, ◌≢◌, Bool, true, Option, some, List}
use blockade.Payment.{SingleUse, SingleUseIssuer}
use blockade.Std.Http.{Request}
use blockade.Proxy.Handler.{Handler, State, Metering}
use blockade.Proxy.Lifecycle.{Event, request, step, run}
use blockade.Proxy.Gate.Server.{PaysWith, run-Keeps, opened_is_spent, spent_is_shut}

module _ {V P N F : Type 0} (h h' : Handler V P N F) (key : Bytes → Option Bytes)
    (spent : V → Bytes → Bool) (single : SingleUse key spent h.verifier)
    (issuer : (m : Metering V P) → h.metering ≡ some m → SingleUseIssuer key spent m.cred_issuer)
    (single' : SingleUse key spent h'.verifier)
    (issuer' : (m : Metering V P)
      → h'.metering ≡ some m
      → SingleUseIssuer key spent m.cred_issuer) where
  -- With backends that accept each payment once, and a store that keeps its spent keys over the
  -- restart: if a request whose token pays with a key was sent on before the restart, no request
  -- whose token pays with that key is sent on after it, whatever requests and cleanups come before
  -- and after the restart.
  pub no_replay_after_restart :
      (now later : ℕ) (r r' : Request) (s s' : State V P N) (es es' : List Event) (k : Bytes)
      → PaysWith h key spent single issuer r k
      → PaysWith h' key spent single' issuer' r' k
      → (step h s (request now r)).forwards ≢ s.forwards
      → ((j : Bytes)
          → spent (run h (step h s (request now r)) es).backend j ≡ true
          → spent s'.backend j ≡ true)
      → (step h' (run h' s' es') (request later r')).forwards ≡ (run h' s' es').forwards
  no_replay_after_restart now later r r' s s' es es' k pays pays' opened persists =
      let gone = opened_is_spent h key spent single issuer now r s k pays opened in
      let before =
        (run-Keeps h key spent single issuer (step h s (request now r)) es).keeps k gone in
      let after = (run-Keeps h' key spent single' issuer' s' es').keeps k (persists k before) in
      spent_is_shut h' key spent single' issuer' later r' (run h' s' es') k pays' after
