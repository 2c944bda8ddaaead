-- ===== src/Onchain/Race/Once.antt =====
-- At most one of the calls of Onchain/Race accepts.
use blockade.Prelude.{
  Bool-cases, Option-cases, All, Result, ok, err, ◌==◌, Bytes, eq_refl, ℕ, zero, suc, ◌+◌, ◌≤◌, ◌≡◌,
  refl, ap, ◌∙◌, ◌≢◌, ◌⊎◌, inl, inr, Bool, true, false, Option, none, some, List, [], ◌∷◌, arith,
}
use blockade.Prelude.Schedules.{advance_at}
use blockade.Store.Types.{PendingEntry, StoreLaws, PendingLaws}
use blockade.Onchain.Client.{get_new_address, get_received_sats}
use blockade.Onchain.Verifier.{
  Verifier, World, settle, expire, check_received, check_entry, verify_pending, cleanup,
}
use blockade.Onchain.Elsewhere.{verify_pending-entry, issue_challenge-entry}
use blockade.Onchain.Race.{
  Call, checking, waiting, answered, accepts, accepted, Turn, call, issue, check_other,
  verify_other, clean, advance, elsewhere, take_turn, race,
}

module _ {J F E S : Type 0} (v : Verifier J F E S) (addr : Bytes) where
  abbrev race_on : List Turn → List Call → World E S → List Call × World E S
  race_on = race v addr

  -- The turns of others that are about other addresses.
  abbrev pub IsElsewhere : Turn → Type 0
  IsElsewhere (check_other other) = (other == addr) ≡ false
  IsElsewhere (verify_other now other) = (other == addr) ≡ false
  IsElsewhere t = Unit {0}

  module _ (stored : S → ℕ → ℕ) (entry : S → Bytes → Option PendingEntry) (spent : S → Bytes → Bool)
      (laws : StoreLaws v.st spent) (pending : PendingLaws v.st v.ps stored entry spent) where
    -- What a step does to the pending entry of the address: if it accepts, the entry was there and
    -- is gone, and if it does not, a missing entry stays missing.
    abbrev Takes : World E S → Result Bool × World E S → Type 0
    Takes w r =
        ((r.0 ≡ ok true) × (entry w.store addr ≢ none) × (entry r.1.store addr ≡ none))
        ⊎ ((r.0 ≢ ok true) × (entry w.store addr ≡ none → entry r.1.store addr ≡ none))

    settle-gone :
        (now : ℕ) (w : World E S)
        → (settle v now addr w).0 ≡ ok true
        → entry (settle v now addr w).1.store addr ≡ none
    unfolding settle
    settle-gone now w h = ground (
      arith,
      eq_refl addr,
      pending.delete_result w.store addr addr,
      pending.mark_used_entry (v.ps.delete_pending addr w.store).1 now addr addr,
    )

    check_entry-gone :
        (now : ℕ) (e : PendingEntry) (w : World E S)
        → (check_entry v now addr (some e) w).0 ≡ ok true
        → entry (check_entry v now addr (some e) w).1.store addr ≡ none
    unfolding check_entry check_received expire
    check_entry-gone now e w h = ground (
      arith,
      settle-gone now (record w { env = (get_received_sats v.btc addr v.min_conf w.env).1 }),
    )

    ok_cases : (r : Result Bool) → (r ≡ ok true) ⊎ (r ≢ ok true)
    ok_cases (ok true) = inl refl
    ok_cases (ok false) = inr (λ e. cc)
    ok_cases (err x) = inr (λ e. cc)

    verify_pending-Takes : (now : ℕ) (w : World E S) → Takes w (verify_pending v now addr w)
    unfolding verify_pending check_entry
    verify_pending-Takes now w =
        let w' : World E S = record w { store = (v.ps.get_pending addr w.store).1 } in
        elim (pending.get_result w.store addr) [
          | inr (x, g, _) ↦
              inr (
                λ q. ground (arith, g),
                λ q. ground (arith, g, pending.get_keeps w.store addr addr),
              )
          | inl (g, _) ↦ elim (Option-cases (entry w.store addr)) [
            | inl e ↦ inr (
              λ q. ground (arith, g, e),
              λ q. ground (arith, g, e, pending.get_keeps w.store addr addr),
            )
            | inr (p, e) ↦ elim (ok_cases (check_entry v now addr (some p) w').0) [
              | inl a ↦ inl (
                ground (arith, g, e, a),
                λ q. cc (q, e),
                ground (arith, g, e, a, check_entry-gone now p w' a),
              )
              | inr a ↦ inr (λ q. a (ground (arith, g, e)), λ q. absurd (cc (q, e)))
            ]
          ]
        ]

    -- At most one call has accepted, and none while the address is pending.
    abbrev Held : List Call × World E S → Type 0
    Held s = (accepted s.0 ≡ 0) ⊎ ((accepted s.0 ≡ 1) × (entry s.1.store addr ≡ none))

    -- A turn leaves the number of accepted calls, or takes the entry away and adds one.
    abbrev Moves : ℕ → World E S → ℕ → World E S → Type 0
    Moves n w n' w' =
        ((n' ≡ n) × (entry w.store addr ≡ none → entry w'.store addr ≡ none))
        ⊎ ((n' ≡ suc n) × (entry w.store addr ≢ none) × (entry w'.store addr ≡ none))

    refused : (r : Result Bool) → r ≢ ok true → accepts (answered r) ≡ 0
    refused (ok true) h = absurd (h refl)
    refused (ok false) h = refl
    refused (err x) h = refl

    advance-Moves :
        (now : ℕ) (c : Call) (w : World E S)
        → Moves (accepts c) w (accepts (advance v addr now c w).0) (advance v addr now c w).1
    unfolding advance
    advance-Moves now checking w = elim (laws.is_used_result w.store addr) [
      | inl (u, _) ↦ elim (Bool-cases (spent w.store addr)) [
        | inl y ↦ inl (ground (arith, u, y), λ q. pending.is_used_entry w.store addr addr ∙ q)
        | inr n ↦ inl (ground (arith, u, n), λ q. pending.is_used_entry w.store addr addr ∙ q)
      ]
      | inr (x, u, _) ↦ inl (ground (arith, u), λ q. pending.is_used_entry w.store addr addr ∙ q)
    ]
    advance-Moves now waiting w = elim (verify_pending-Takes now w) [
      | inl (a, some_entry, gone) ↦ inr (ap (λ r. accepts (answered r)) a, some_entry, gone)
      | inr (a, keeps) ↦ inl (refused _ a, keeps)
    ]
    advance-Moves now (answered r) w = inl (refl, λ q. q)

    advance_at-Moves :
        (i now : ℕ) (cs : List Call) (w : World E S)
        → Moves
            (accepted cs)
            w
            (accepted (advance_at (advance v addr) i now cs w).0)
            (advance_at (advance v addr) i now cs w).1
    unfolding advance_at
    advance_at-Moves i now [] w = inl (refl, λ q. q)
    advance_at-Moves zero now (c ∷ cs) w = elim (advance-Moves now c w) [
      | inl (n, keeps) ↦ inl (ap (λ k. k + accepted cs) n, keeps)
      | inr (n, there, gone) ↦ inr (omega (arith, n), there, gone)
    ]
    advance_at-Moves (suc i) now (c ∷ cs) w = elim (advance_at-Moves i now cs w) [
      | inl (n, keeps) ↦ inl (ap (λ k. accepts c + k) n, keeps)
      | inr (n, there, gone) ↦ inr (omega (arith, n), there, gone)
    ]

    hold :
        (cs cs' : List Call) (w w' : World E S)
        → Moves (accepted cs) w (accepted cs') w'
        → Held (cs, w)
        → Held (cs', w')
    hold cs cs' w w' (inl (n, keeps)) (inl a) = inl (n ∙ a)
    hold cs cs' w w' (inl (n, keeps)) (inr (a, gone)) = inr (n ∙ a, keeps gone)
    hold cs cs' w w' (inr (n, there, gone)) (inl a) = inr (n ∙ ap suc a, gone)
    hold cs cs' w w' (inr (n, there, gone')) (inr (a, gone)) = absurd (there gone)

    module _
        (never_again : (e : E) (a : Bytes)
          → (get_new_address v.btc e).0 ≡ ok a
          → (a == addr) ≡ false) where
      elsewhere-Moves :
          (t : Turn) (n : ℕ) (w : World E S) → IsElsewhere t → Moves n w n (elsewhere v addr t w)
      unfolding elsewhere cleanup
      elsewhere-Moves (call i now) n w h = inl (refl, λ q. q)
      elsewhere-Moves (issue now r wr) n w h = inl (
        refl,
        λ q. issue_challenge-entry v stored entry spent pending addr never_again now r wr w ∙ q,
      )
      elsewhere-Moves (check_other other) n w h =
          inl (refl, λ q. pending.is_used_entry w.store other addr ∙ q)
      elsewhere-Moves (verify_other now other) n w h =
          inl (refl, λ q. verify_pending-entry v stored entry spent pending addr other h now w ∙ q)
      elsewhere-Moves (clean now) n w h =
          inl (refl, λ q. pending.prune_adds_nothing w.store now addr q)

      take_turn-Moves :
          (t : Turn) (cs : List Call) (w : World E S)
          → IsElsewhere t
          → Moves (accepted cs) w (accepted (take_turn v addr t cs w).0) (take_turn v addr t cs w).1
      take_turn-Moves (call i now) cs w h = advance_at-Moves i now cs w
      take_turn-Moves (issue now r wr) cs w h = elsewhere-Moves (issue now r wr) (accepted cs) w h
      take_turn-Moves (check_other other) cs w h =
          elsewhere-Moves (check_other other) (accepted cs) w h
      take_turn-Moves (verify_other now other) cs w h =
          elsewhere-Moves (verify_other now other) (accepted cs) w h
      take_turn-Moves (clean now) cs w h = elsewhere-Moves (clean now) (accepted cs) w h

      -- No call accepts where the address is not pending, and it stays so.
      pub race_without_entry :
          (ts : List Turn) (cs : List Call) (w : World E S)
          → All IsElsewhere ts
          → accepted cs ≡ 0
          → entry w.store addr ≡ none
          → (accepted (race v addr ts cs w).0 ≡ 0)
            × (entry (race v addr ts cs w).1.store addr ≡ none)
      unfolding race
      race_without_entry [] cs w others h gone = (h, gone)
      race_without_entry (t ∷ ts) cs w (first, rest) h gone =
          let (cs', w') = take_turn v addr t cs w in
          elim (take_turn-Moves t cs w first) [
            | inl (n, keeps) ↦ race_without_entry ts cs' w' rest (n ∙ h) (keeps gone)
            | inr (n, there, _) ↦ absurd (there gone)
          ]

      race-Held :
          (ts : List Turn) (cs : List Call) (w : World E S)
          → All IsElsewhere ts
          → Held (cs, w)
          → Held (race_on ts cs w)
      unfolding race
      race-Held [] cs w others h = h
      race-Held (t ∷ ts) cs w (first, rest) h =
          let (cs', w') = take_turn v addr t cs w in
          race-Held ts cs' w' rest (hold cs cs' w w' (take_turn-Moves t cs w first) h)

      -- However calls for one address, none of which has accepted yet, interleave with one another,
      -- with challenges, with calls for other addresses and with the cleanup loop, at most one of
      -- them accepts, if bitcoind does not give the address out again. Calls of the stores and of
      -- bitcoind may fail.
      pub race_accepts_once :
          (ts : List Turn) (cs : List Call) (w : World E S)
          → All IsElsewhere ts
          → accepted cs ≡ 0
          → accepted (race v addr ts cs w).0 ≤ 1
      race_accepts_once ts cs w others h = elim (race-Held ts cs w others (inl h)) [
        | inl a ↦ omega arith
        | inr (a, gone) ↦ omega arith
      ]
