-- ===== src/Onchain/AntiReplay.antt =====
-- The on-chain verifier against the contract of the payment interface: what it does to the spent
-- keys.
use blockade.Prelude.{
  Bool-cases, Result, ok, Result-cases, ◌==◌, Bytes, eq_refl, ℕ, ◌+◌, ◌≡◌, refl, ◌⊎◌, inl, inr,
  Bool, true, false, ◌||◌, Option, none, some, [], arith,
}
use blockade.Std.Http.{Request, Writer}
use blockade.Std.Strings.{trim_space}
use blockade.Price.{positive_price}
use blockade.Store.Types.{PendingEntry, StoreLaws, PendingLaws}
use blockade.Payment.{Pays, SingleUse, Verdict}
use blockade.Onchain.Client.{get_new_address, get_received_sats}
use blockade.Onchain.Verifier.{
  pending_ttl, Verifier, World, issue_challenge, settle, expire, check_received, check_entry,
  verify_pending, verify_address, verify_proof, onchain_verifier,
}

-- The key of a token is the address that it names.
abbrev pub token_key : Bytes → Option Bytes
token_key t = some (trim_space t)

abbrev pub spent_in : {E S : Type 0} → (S → Bytes → Bool) → World E S → Bytes → Bool
spent_in spent w j = spent w.store j

module _ {J F E S : Type 0} (v : Verifier J F E S) (stored : S → ℕ → ℕ)
    (entry : S → Bytes → Option PendingEntry) (spent : S → Bytes → Bool)
    (laws : StoreLaws v.st spent) (pending : PendingLaws v.st v.ps stored entry spent) where
  -- What a part of VerifyProof promises of the spent keys.
  abbrev Spends : Bytes → Bytes → World E S → Result Bool × World E S → Type 0
  Spends k j w r =
      Verdict r.0 (spent_in spent r.1 j ≡ (k == j || spent_in spent w j))
        (spent_in spent r.1 j ≡ spent_in spent w j)

  settle-Spends : (now : ℕ) (k j : Bytes) (w : World E S) → Spends k j w (settle v now k w)
  unfolding settle
  settle-Spends now k j w = ground (
    arith,
    pending.delete_spent w.store k j,
    laws.mark_used_result (v.ps.delete_pending k w.store).1 now k j,
  )

  check_received-Spends :
      (now : ℕ) (k j : Bytes) (e : PendingEntry) (w : World E S)
      → Spends k j w (check_received v now k e w)
  unfolding check_received
  check_received-Spends now k j e w = ground (
    arith,
    settle-Spends now k j (record w { env = (get_received_sats v.btc k v.min_conf w.env).1 }),
  )

  check_entry-Spends :
      (now : ℕ) (k j : Bytes) (o : Option PendingEntry) (w : World E S)
      → Spends k j w (check_entry v now k o w)
  unfolding check_entry expire
  check_entry-Spends now k j none w = ground arith
  check_entry-Spends now k j (some e) w =
      ground (arith, pending.delete_spent w.store k j, check_received-Spends now k j e w)

  verify_pending-Spends :
      (now : ℕ) (k j : Bytes) (w : World E S) → Spends k j w (verify_pending v now k w)
  unfolding verify_pending
  verify_pending-Spends now k j w = ground (
    arith,
    pending.get_spent w.store k j,
    pending.get_result w.store k,
    check_entry-Spends now k j (entry w.store k)
        (record w { store = (v.ps.get_pending k w.store).1 }),
  )

  verify_address-Spends :
      (now : ℕ) (k j : Bytes) (w : World E S)
      → Verdict
          (verify_address v now k w).0
          ((spent_in spent w k ≡ false)
            × (spent_in spent (verify_address v now k w).1 j ≡ (k == j || spent_in spent w j)))
          (spent_in spent (verify_address v now k w).1 j ≡ spent_in spent w j)
  unfolding verify_address
  verify_address-Spends now k j w = ground (
    arith,
    laws.is_used_result w.store k,
    laws.is_used_keeps w.store k j,
    verify_pending-Spends now k j (record w { store = (v.st.is_used k w.store).1 }),
  )

  verify_cases :
      (now : ℕ) (t : Bytes) (w : World E S)
      → (verify_proof v now t w ≡ verify_address v now (trim_space t) w)
        ⊎ (verify_proof v now t w ≡ (ok false, w))
  unfolding verify_proof
  verify_cases now t w = elim (Bool-cases (trim_space t == [])) [
    | inl e ↦ inr (rw e)
    | inr e ↦ inl (rw e)
  ]

  challenge_keeps :
      (now : ℕ) (r : Request) (w : Writer) (world : World E S) (j : Bytes)
      → spent_in spent (issue_challenge v now r w world).1 j ≡ spent_in spent world j
  unfolding issue_challenge
  challenge_keeps now r w world j = elim (Result-cases (positive_price r)) [
    | inr (e, h) ↦ ground (arith, h)
    | inl (price, h) ↦ elim (Result-cases (get_new_address v.btc world.env).0) [
      | inr (e, k) ↦ ground (arith, h, k)
      | inl (addr, k) ↦
          ground (arith, h, k, pending.add_spent world.store addr j price (now + pending_ttl))
    ]
  ]

  verify_accepts :
      (now : ℕ) (t : Bytes) (w : World E S)
      → (verify_proof v now t w).0 ≡ ok true
      → Pays token_key (spent_in spent) t w (verify_proof v now t w).1
  verify_accepts now t w h = elim (verify_cases now t w) [
    | inr e ↦ ground (arith, e)
    | inl e ↦ record {
      paid = trim_space t;
      names = refl;
      fresh = ground (arith, e, verify_address-Spends now (trim_space t) (trim_space t) w);
      gone = ground (
        arith,
        e,
        verify_address-Spends now (trim_space t) (trim_space t) w,
        eq_refl (trim_space t),
      );
    }
  ]

  -- With stores that keep their contracts, the on-chain backend accepts an address only if it is
  -- unspent, and spends it then; when it refuses or fails it spends nothing; no call forgets a spent address, and a challenge spends none.
  pub onchain-SingleUse : SingleUse token_key (spent_in spent) (onchain_verifier v)
  onchain-SingleUse = record {
    accepts = verify_accepts;
    refuses = λ now t w j h. elim (verify_cases now t w) [
      | inr e ↦ ground (arith, e)
      | inl e ↦ ground (arith, e, verify_address-Spends now (trim_space t) j w)
    ];
    verify_keeps = λ now t w j h. elim (verify_cases now t w) [
      | inr e ↦ ground (arith, e)
      | inl e ↦ ground (arith, e, verify_address-Spends now (trim_space t) j w)
    ];
    challenge_keeps = challenge_keeps;
  }
