-- ===== src/Startup/Life.antt =====
-- What runs after main (cmd/proxy/main.go) has come to serve: the handler, and beside it the loop that
-- NewVerifier (internal/payment/onchain/verifier.go) starts.
use blockade.Prelude.{Bytes, ℕ, ◌≡◌, ◌∙◌, Bool, Option, some, List, [], ◌∷◌, arith}
use blockade.Payment.{SingleUse, SingleUseIssuer}
use blockade.Proxy.Handler.{Handler, State, Metering}
use blockade.Proxy.Lifecycle.{Event, step}
use blockade.Proxy.Gate.{Keeps}
use blockade.Proxy.Gate.Server.{step-Keeps}
use blockade.Proxy.Gate.Ledger.{Ledger, still_gone, step-Ledger}

-- An event of the handler, or a tick of the backend's loop at a time.
pub data Happening : Type 0 where
  event : Event → Happening
  tick : ℕ → Happening

module _ {V P N F : Type 0} (h : Handler V P N F) (on_tick : ℕ → V → V) where
  unfoldable pub happen : State V P N → Happening → State V P N
  unfolding step
  happen s (event e) = step h s e
  happen s (tick now) = record s { backend = on_tick now s.backend }

  unfoldable pub live : State V P N → List Happening → State V P N
  unfolding happen
  live s [] = s
  live s (x ∷ xs) = live (happen s x) xs

  module _ (key : Bytes → Option Bytes) (spent : V → Bytes → Bool)
      (single : SingleUse key spent h.verifier)
      (issuer : (m : Metering V P) → h.metering ≡ some m → SingleUseIssuer key spent m.cred_issuer)
      (tick_spends_nothing : (now : ℕ) (b : V) (j : Bytes)
        → spent (on_tick now b) j ≡ spent b j) where
    happen-Keeps : (s : State V P N) (x : Happening) → Keeps key spent s (happen s x)
    unfolding happen
    happen-Keeps s (event e) = step-Keeps h key spent single issuer s e
    happen-Keeps s (tick now) = record { keeps = λ j q. tick_spends_nothing now s.backend j ∙ q }

    happen-Ledger :
        (s s' : State V P N) (x : Happening) (keys : List Bytes)
        → Keeps key spent s s'
        → Ledger spent s s' keys
        → (more : List Bytes) × Ledger spent s (happen s' x) more
    unfolding happen
    happen-Ledger s s' (event e) keys before l =
        step-Ledger h key spent single issuer s s' e keys before l
    happen-Ledger s s' (tick now) keys before l = (
      keys,
      record {
        balances = l.balances;
        distinct = l.distinct;
        fresh = l.fresh;
        gone = still_gone spent s' _ key keys (happen-Keeps s' (tick now)) l.gone;
      },
    )

    continue_live :
        (s s' : State V P N) (xs : List Happening) (keys : List Bytes)
        → Keeps key spent s s'
        → Ledger spent s s' keys
        → (more : List Bytes) × Ledger spent s (live s' xs) more
    unfolding live
    continue_live s s' [] keys before l = (keys, l)
    continue_live s s' (x ∷ xs) keys before l =
        let (more, l') = happen-Ledger s s' x keys before l in
        let after = happen-Keeps s' x in
        continue_live s (happen s' x) xs more
          (record { keeps = λ j q. after.keeps j (before.keeps j q) }) l'

    -- As many different keys are spent as requests are sent on.
    pub live-Ledger :
        (s : State V P N) (xs : List Happening)
        → (keys : List Bytes) × Ledger spent s (live s xs) keys
    live-Ledger s xs =
        continue_live s s xs [] (record { keeps = λ j q. q })
          (record { balances = omega arith; distinct = tt; fresh = tt; gone = tt })
