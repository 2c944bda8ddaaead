-- ===== src/Lightning/Race.antt =====
-- Calls of VerifyProof (internal/payment/lightning/verifier.go) for one payment hash that run at the
-- same time: IsUsed and MarkUsed are two critical sections of the store, with nothing around them.
use blockade.Prelude.{Result, ok, err, Bytes, ℕ, ◌≡◌, Bool, true, false, [], ◌∷◌, arith}
use blockade.Prelude.State.{within}
use blockade.Prelude.Schedules.{race, advance_at, both_first}
use blockade.Store.Types.{StoreLaws, IsReliable}
use blockade.Lightning.Verifier.{Verifier, World, on_store, mark, spend}

-- A call behind its settlement check, before IsUsed and before MarkUsed, and at its end.
pub data Call : Type 0 where
  checking : Call
  marking : Call
  answered : Result Bool → Call

module _ {M E S : Type 0} (v : Verifier M E S) (hash_hex : Bytes) where
  abbrev after_check : Result Bool → Call
  after_check (err e) = answered (err e)
  after_check (ok true) = answered (ok false)
  after_check (ok false) = marking

  -- A call up to the end of its next critical section.
  unfoldable pub advance : ℕ → Call → World E S → Call × World E S
  advance now checking w =
      let (used, w') = within "check used token" (on_store (v.st.is_used hash_hex)) w in
      (after_check used, w')
  advance now marking w = let (r, w') = mark v now hash_hex w in (answered r, w')
  advance now (answered r) w = (answered r, w)

  -- A call that nobody interrupts is `spend`.
  alone :
      (now : ℕ) (w : World E S)
      → let (c, w') = advance now checking w in
        advance now c w' ≡ (answered (spend v now hash_hex w).0, (spend v now hash_hex w).1)
  unfolding advance spend
  alone now w = ground arith

  -- Two calls for one unspent payment hash whose checks both come before either mark both accept,
  -- with any store that keeps its contract and does not fail.
  pub race_accepts_twice :
      (spent : S → Bytes → Bool) (laws : StoreLaws v.st spent) (reliable : IsReliable v.st)
      (now : ℕ) (w : World E S)
      → spent w.store hash_hex ≡ false
      → (race advance (both_first now) (checking ∷ checking ∷ []) w).0
        ≡ answered (ok true) ∷ answered (ok true) ∷ []
  unfolding race advance_at advance mark
  race_accepts_twice spent laws reliable now w fresh =
      let s = (v.st.is_used hash_hex w.store).1 in
      let s2 = (v.st.is_used hash_hex s).1 in
      let s3 = (v.st.mark_used now hash_hex s2).1 in
      ground (
        arith,
        laws.is_used_result w.store hash_hex,
        reliable.is_used_succeeds w.store hash_hex,
        laws.is_used_keeps w.store hash_hex hash_hex,
        laws.is_used_result s hash_hex,
        reliable.is_used_succeeds s hash_hex,
        reliable.mark_used_succeeds s2 now hash_hex,
        reliable.mark_used_succeeds s3 now hash_hex,
      )
