-- ===== src/Onchain/Accepts.antt =====
-- VerifyProof of internal/payment/onchain/verifier.go: which tokens it accepts.
use blockade.Prelude.{
  ltb, Bool-cases, Result, ok, Result-cases, ◌==◌, Bytes, ℕ, ◌≤◌, ◌≡◌, refl, sym, ◌∙◌, inl, inr,
  Bool, true, false, Option, none, some, [], arith,
}
use blockade.Prelude.Int.{ℤ, ◌≤ℤ◌}
use blockade.Std.Strings.{trim_space}
use blockade.Store.Types.{PendingEntry, StoreLaws, PendingLaws, IsReliable, IsReliablePending}
use blockade.Onchain.Client.{get_received_sats}
use blockade.Onchain.Verifier.{
  Verifier, World, settle, expire, check_received, check_entry, verify_pending, verify_address,
  verify_proof,
}

module _ {J F E S : Type 0} (v : Verifier J F E S) (stored : S → ℕ → ℕ)
    (entry : S → Bytes → Option PendingEntry) (spent : S → Bytes → Bool)
    (laws : StoreLaws v.st spent) (pending : PendingLaws v.st v.ps stored entry spent) where
  abbrev received : Bytes → World E S → Result ℤ
  received k w = (get_received_sats v.btc k v.min_conf w.env).0

  -- The address `k` is pending with the entry `e`, which has not expired and is paid in full.
  pub record IsFunded (now : ℕ) (k : Bytes) (w : World E S) (e : PendingEntry) (sats : ℤ)
      : Type 0 where
    pub pends : entry w.store k ≡ some e
    pub in_time : now ≤ e.expires_at
    pub reads : received k w ≡ ok sats
    pub enough : e.sats ≤ℤ sats

  check_received-accepts :
      (now : ℕ) (k : Bytes) (e : PendingEntry) (w : World E S)
      → (check_received v now k e w).0 ≡ ok true
      → (sats : ℤ) × (received k w ≡ ok sats) × (e.sats ≤ℤ sats)
  unfolding check_received
  check_received-accepts now k e w h = elim (Result-cases (received k w)) [
    | inl (sats, r) ↦ (sats, r, ground (arith, r))
    | inr (x, r) ↦ absurd (ground (arith, r))
  ]

  check_entry-accepts :
      (now : ℕ) (k : Bytes) (o : Option PendingEntry) (w : World E S)
      → (check_entry v now k o w).0 ≡ ok true
      → (e : PendingEntry) × (sats : ℤ) × (o ≡ some e)
        × (now ≤ e.expires_at)
        × (received k w ≡ ok sats)
        × (e.sats ≤ℤ sats)
  unfolding check_entry expire
  check_entry-accepts now k none w h = absurd (cc)
  check_entry-accepts now k (some e) w h = elim (Bool-cases (ltb e.expires_at now)) [
    | inl late ↦ absurd (ground (arith, late))
    | inr early ↦
        let (sats, r, enough) = check_received-accepts now k e w (ground (arith, early)) in
        (e, sats, refl, ground arith, r, enough)
  ]

  verify_pending-accepts :
      (now : ℕ) (k : Bytes) (w : World E S)
      → (verify_pending v now k w).0 ≡ ok true
      → (e : PendingEntry) × (sats : ℤ) × IsFunded now k w e sats
  unfolding verify_pending
  verify_pending-accepts now k w h = elim (pending.get_result w.store k) [
    | inr (x, g, _) ↦ absurd (ground (arith, g))
    | inl (g, _) ↦
        let w' : World E S = record w { store = (v.ps.get_pending k w.store).1 } in
        let found = check_entry-accepts now k (entry w.store k) w' (ground (arith, g)) in
        let (e, sats, pends, in_time, reads, enough) = found in
        (e, sats, record { pends = pends; in_time = in_time; reads = reads; enough = enough })
  ]

  -- The used test lets an accepted address through.
  passes :
      (now : ℕ) (k : Bytes) (w : World E S)
      → (v.st.is_used k w.store).0 ≡ ok (spent w.store k)
      → (verify_address v now k w).0 ≡ ok true
      → (verify_pending v now k (record w { store = (v.st.is_used k w.store).1 })).0 ≡ ok true
  unfolding verify_address
  passes now k w u h = ground (arith, u)

  verify_address-accepts :
      (now : ℕ) (k : Bytes) (w : World E S)
      → (verify_address v now k w).0 ≡ ok true
      → (e : PendingEntry) × (sats : ℤ) × IsFunded now k w e sats
  unfolding verify_address
  verify_address-accepts now k w h = elim (laws.is_used_result w.store k) [
    | inr (x, u, _) ↦ absurd (ground (arith, u))
    | inl (u, _) ↦
        let w' : World E S = record w { store = (v.st.is_used k w.store).1 } in
        let (e, sats, paid) = verify_pending-accepts now k w' (passes now k w u h) in
        (
          e,
          sats,
          record {
            pends = sym (pending.is_used_entry w.store k k) ∙ paid.pends;
            in_time = paid.in_time;
            reads = paid.reads;
            enough = paid.enough;
          },
        )
  ]

  -- With stores that keep their contracts, a token is accepted only if the address that it names is pending, has not expired, and has
  -- received at least the price that was recorded for it.
  pub verify_proof-IsFunded :
      (now : ℕ) (t : Bytes) (w : World E S)
      → (verify_proof v now t w).0 ≡ ok true
      → (e : PendingEntry) × (sats : ℤ) × IsFunded now (trim_space t) w e sats
  unfolding verify_proof
  verify_proof-IsFunded now t w h = elim (Bool-cases (trim_space t == [])) [
    | inl empty ↦ absurd (ground (arith, empty))
    | inr some_text ↦ verify_address-accepts now (trim_space t) w (ground (arith, some_text))
  ]

  module _ (reliable : IsReliable v.st) (reliable_pending : IsReliablePending v.ps) where
    settle_accepts : (now : ℕ) (k : Bytes) (w : World E S) → (settle v now k w).0 ≡ ok true
    unfolding settle
    settle_accepts now k w = ground (
      arith,
      reliable_pending.delete_succeeds w.store k,
      reliable.mark_used_succeeds (v.ps.delete_pending k w.store).1 now k,
    )

    check_entry_accepts :
        (now : ℕ) (k : Bytes) (e : PendingEntry) (sats : ℤ) (w : World E S)
        → now ≤ e.expires_at
        → received k w ≡ ok sats
        → e.sats ≤ℤ sats
        → (check_entry v now k (some e) w).0 ≡ ok true
    unfolding check_entry check_received
    check_entry_accepts now k e sats w early reads enough = ground (
      arith,
      settle_accepts now k (record w { env = (get_received_sats v.btc k v.min_conf w.env).1 }),
    )

    verify_pending_accepts :
        (now : ℕ) (k : Bytes) (e : PendingEntry) (sats : ℤ) (w : World E S)
        → IsFunded now k w e sats
        → (verify_pending v now k w).0 ≡ ok true
    unfolding verify_pending
    verify_pending_accepts now k e sats w paid = elim (pending.get_result w.store k) [
      | inr (x, g, _) ↦ absurd (ground (arith, g, reliable_pending.get_succeeds w.store k))
      | inl (g, _) ↦
          let w' : World E S = record w { store = (v.ps.get_pending k w.store).1 } in
          ground (
            arith,
            g,
            paid.pends,
            check_entry_accepts now k e sats w' paid.in_time paid.reads paid.enough,
          )
    ]

    -- With stores that keep their contracts and do not fail, a token is accepted if the address that it names has not been
    -- used, is pending, has not expired and is paid in full.
    pub verify_proof_funded :
        (now : ℕ) (t : Bytes) (e : PendingEntry) (sats : ℤ) (w : World E S)
        → (trim_space t == []) ≡ false
        → spent w.store (trim_space t) ≡ false
        → IsFunded now (trim_space t) w e sats
        → (verify_proof v now t w).0 ≡ ok true
    unfolding verify_proof verify_address
    verify_proof_funded now t e sats w full fresh paid =
        let k = trim_space t in
        let w' : World E S = record w { store = (v.st.is_used k w.store).1 } in
        elim (laws.is_used_result w.store k) [
          | inr (x, u, _) ↦ absurd (ground (arith, u, reliable.is_used_succeeds w.store k))
          | inl (u, _) ↦
              let paid' : IsFunded now k w' e sats = record {
                pends = pending.is_used_entry w.store k k ∙ paid.pends;
                in_time = paid.in_time;
                reads = paid.reads;
                enough = paid.enough;
              } in
              ground (arith, u, verify_pending_accepts now k e sats w' paid')
        ]
