-- ===== src/Onchain/Race.antt =====
-- Calls of VerifyProof (internal/payment/onchain/verifier.go) for one address that run at the same
-- time, among challenges, calls for other addresses and ticks of the cleanup loop: IsUsed comes
-- before the critical section of `mu`. What does not take `mu`, and runs beside that section, is
-- taken to run before or after it.
pub mod Once
use blockade.Prelude.{Result, ok, err, Bytes, ℕ, ◌+◌, ◌≡◌, Bool, true, false, List, [], ◌∷◌, arith}
use blockade.Prelude.State.{within}
use blockade.Prelude.Schedules.{advance_at}
use blockade.Std.Http.{Request, Writer}
use blockade.Onchain.Verifier.{
  Verifier, World, on_store, issue_challenge, verify_pending, verify_address, cleanup,
}

-- A call before IsUsed, before the lock of `mu`, and at its end.
pub data Call : Type 0 where
  checking : Call
  waiting : Call
  answered : Result Bool → Call

abbrev accepts : Call → ℕ
accepts (answered (ok true)) = 1
accepts _ = 0

abbrev pub accepted : List Call → ℕ
accepted [] = 0
accepted (c ∷ cs) = accepts c + accepted cs

-- Whose turn it is: a call's, with the time; a challenge's, to any client; the first or the second
-- part of a call for another address; or the cleanup loop's.
pub data Turn : Type 0 where
  call : ℕ → ℕ → Turn
  issue : ℕ → Request → Writer → Turn
  check_other : Bytes → Turn
  verify_other : ℕ → Bytes → Turn
  clean : ℕ → Turn

module _ {J F E S : Type 0} (v : Verifier J F E S) (addr : Bytes) where
  abbrev after_check : Result Bool → Call
  after_check (err e) = answered (err e)
  after_check (ok true) = answered (ok false)
  after_check (ok false) = waiting

  -- A call up to the end of its next critical section.
  unfoldable pub advance : ℕ → Call → World E S → Call × World E S
  advance now checking w =
      let (used, w') = within "check used address" (on_store (v.st.is_used addr)) w in
      (after_check used, w')
  advance now waiting w = let (r, w') = verify_pending v now addr w in (answered r, w')
  advance now (answered r) w = (answered r, w)

  -- A turn of any of the others.
  unfoldable pub elsewhere : Turn → World E S → World E S
  elsewhere (call i now) w = w
  elsewhere (issue now r w) s = (issue_challenge v now r w s).1
  elsewhere (check_other other) w = record w { store = (v.st.is_used other w.store).1 }
  elsewhere (verify_other now other) w = (verify_pending v now other w).1
  elsewhere (clean now) w = cleanup v now w

  abbrev take_turn : Turn → List Call → World E S → List Call × World E S
  take_turn (call i now) cs w = advance_at advance i now cs w
  take_turn t cs w = (cs, elsewhere t w)

  unfoldable pub race : List Turn → List Call → World E S → List Call × World E S
  unfolding elsewhere advance_at
  race [] cs w = (cs, w)
  race (t ∷ ts) cs w = let (cs', w') = take_turn t cs w in race ts cs' w'

  -- A call that nobody interrupts is `verify_address`.
  alone :
      (now : ℕ) (w : World E S)
      → let (c, w') = advance now checking w in
        advance now c w'
        ≡ (answered (verify_address v now addr w).0, (verify_address v now addr w).1)
  unfolding advance verify_address
  alone now w = ground arith
