-- ===== src/Onchain/Lost.antt =====
-- VerifyProof of internal/payment/onchain/verifier.go where the store fails between DeletePending and
-- MarkUsed.
use blockade.Prelude.{
  All, Error, wrap, Result, ok, err, ◌==◌, Bytes, eq_refl, ℕ, ◌≤◌, ◌≡◌, refl, ap, ◌∙◌, ◌≢◌, inl,
  inr, Bool, true, false, Option, none, some, List, [], arith,
}
use blockade.Prelude.Int.{ℤ, ◌≤ℤ◌}
use blockade.Std.Strings.{trim_space}
use blockade.Store.Types.{PendingEntry, StoreLaws, PendingLaws, IsReliablePending}
use blockade.Onchain.Client.{get_new_address, get_received_sats}
use blockade.Onchain.Verifier.{
  Verifier, World, settle, check_received, check_entry, verify_pending, verify_address,
  verify_proof,
}
use blockade.Onchain.Race.{Call, accepted, Turn, race}
use blockade.Onchain.Race.Once.{IsElsewhere, race_without_entry}
use blockade.Onchain.Accepts.{IsFunded, verify_proof-IsFunded}

module _ {J F E S : Type 0} (v : Verifier J F E S) (stored : S → ℕ → ℕ)
    (entry : S → Bytes → Option PendingEntry) (spent : S → Bytes → Bool)
    (laws : StoreLaws v.st spent) (pending : PendingLaws v.st v.ps stored entry spent)
    (deletes : IsReliablePending v.ps) where
  -- `r` is an error, after which `k` is not pending.
  abbrev Loses : Bytes → Result Bool × World E S → Type 0
  Loses k r = (x : Error) × (r.0 ≡ err x) × (entry r.1.store k ≡ none)

  -- MarkUsed of `k` fails at the time `now`.
  abbrev pub MarkFails : ℕ → Bytes → Type 0
  MarkFails now k = (s : S) → (x : Error) × ((v.st.mark_used now k s).0 ≡ err x)

  deleted : (k : Bytes) (s : S) → entry (v.ps.delete_pending k s).1 k ≡ none
  deleted k s = elim (pending.delete_result s k k) [
    | inr (x, d, _) ↦ absurd (ground (arith, d, deletes.delete_succeeds s k))
    | inl (d, gone) ↦ ground (arith, gone, eq_refl k)
  ]

  settle-Loses :
      (now : ℕ) (k : Bytes) (w : World E S) → MarkFails now k → Loses k (settle v now k w)
  unfolding settle
  settle-Loses now k w fails =
      let s' = (v.ps.delete_pending k w.store).1 in
      let (x, failed) = fails s' in
      (
        wrap "mark address used" x,
        rw (deletes.delete_succeeds w.store k, failed, settle) refl,
        rw (deletes.delete_succeeds w.store k, failed, settle)
            (pending.mark_used_entry s' now k k ∙ deleted k w.store),
      )

  -- Where the payment is found, VerifyProof gets as far as DeletePending.
  check_entry-settle :
      (now : ℕ) (k : Bytes) (e : PendingEntry) (sats : ℤ) (w : World E S)
      → now ≤ e.expires_at
      → (get_received_sats v.btc k v.min_conf w.env).0 ≡ ok sats
      → e.sats ≤ℤ sats
      → (w' : World E S) × (check_entry v now k (some e) w ≡ settle v now k w')
  unfolding check_entry check_received
  check_entry-settle now k e sats w early reads enough =
      (record w { env = (get_received_sats v.btc k v.min_conf w.env).1 }, ground arith)

  verify_proof-settle :
      (now : ℕ) (t : Bytes) (e : PendingEntry) (sats : ℤ) (w : World E S)
      → (trim_space t == []) ≡ false
      → (v.st.is_used (trim_space t) w.store).0 ≡ ok false
      → (v.ps.get_pending (trim_space t) (v.st.is_used (trim_space t) w.store).1).0 ≡ ok (some e)
      → IsFunded v stored entry spent laws pending now (trim_space t) w e sats
      → (w' : World E S) × (verify_proof v now t w ≡ settle v now (trim_space t) w')
  unfolding verify_proof verify_address verify_pending
  verify_proof-settle now t e sats w full unused found paid =
      let k = trim_space t in
      let s1 = (v.st.is_used k w.store).1 in
      let w2 : World E S = record w { store = (v.ps.get_pending k s1).1 } in
      let (w', settles) = check_entry-settle now k e sats w2 paid.in_time paid.reads paid.enough in
      (w', rw (full, unused, found, settles, verify_proof, verify_address, verify_pending) refl)

  module _ (reliable : (s : S) (k : Bytes) → (b : Bool) × ((v.st.is_used k s).0 ≡ ok b)) where
    looks_up : (k : Bytes) (s : S) → (v.st.is_used k s).0 ≡ ok (spent s k)
    looks_up k s = elim (laws.is_used_result s k) [
      | inl (u, _) ↦ u
      | inr (x, u, _) ↦ absurd (ground (arith, u, reliable s k))
    ]

    gets : (k : Bytes) (s : S) → (v.ps.get_pending k s).0 ≡ ok (entry s k)
    gets k s = elim (pending.get_result s k) [
      | inl (g, _) ↦ g
      | inr (x, g, _) ↦ absurd (ground (arith, g, deletes.get_succeeds s k))
    ]

    -- A payment is lost where MarkUsed fails after DeletePending: a token for an address that is
    -- pending, paid in full and unused is answered with an error, and from then on no call for the
    -- address accepts, however such calls interleave with challenges, with calls for other addresses
    -- and with the cleanup loop, whatever bitcoind reports, if it does not give the address out
    -- again. The stores keep their contracts, and nothing but that MarkUsed fails in the first call.
    pub paid_address_lost :
        (now : ℕ) (t : Bytes) (e : PendingEntry) (sats : ℤ) (w : World E S)
        → (trim_space t == []) ≡ false
        → spent w.store (trim_space t) ≡ false
        → IsFunded v stored entry spent laws pending now (trim_space t) w e sats
        → MarkFails now (trim_space t)
        → ((env : E) (a : Bytes)
            → (get_new_address v.btc env).0 ≡ ok a
            → (a == trim_space t) ≡ false)
        → (env : E) (ts : List Turn) (cs : List Call) → All (IsElsewhere v (trim_space t)) ts
        → accepted cs ≡ 0
        → (later : ℕ)
        → let w' : World E S = record { env = env; store = (verify_proof v now t w).1.store } in
          let (cs', w2) = race v (trim_space t) ts cs w' in
          ((x : Error) × ((verify_proof v now t w).0 ≡ err x))
          × (accepted cs' ≡ 0)
          × ((verify_proof v later t w2).0 ≢ ok true)
    paid_address_lost now t e sats w full fresh paid fails never_again env ts cs others none_yet
          later =
        let k = trim_space t in
        let s1 = (v.st.is_used k w.store).1 in
        let found : (v.ps.get_pending k s1).0 ≡ ok (some e) =
          gets k s1 ∙ ap ok (pending.is_used_entry w.store k k ∙ paid.pends) in
        let (w', settles) =
          verify_proof-settle now t e sats w full (looks_up k w.store ∙ ap ok fresh) found paid in
        let (x, failed, gone) = settle-Loses now k w' fails in
        let missing : entry (verify_proof v now t w).1.store k ≡ none = rw settles gone in
        let (refused, still_missing) =
          race_without_entry v k stored entry spent laws pending never_again ts cs _ others none_yet
            missing in
        (
          (x, rw settles failed),
          refused,
          λ accepts_it.
              let (e', sats', again) =
                verify_proof-IsFunded v stored entry spent laws pending later t _ accepts_it in
              cc (still_missing, again.pends),
        )
