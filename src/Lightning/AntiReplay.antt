-- ===== src/Lightning/AntiReplay.antt =====
-- VerifyProof of internal/payment/lightning/verifier.go against the contract of the payment
-- interface: what it does to the spent keys.
use blockade.Prelude.{
  Bool-cases, ok, Result-cases, ◌==◌, Bytes, eq_refl, ℕ, ◌≡◌, ap, ◌≢◌, ◌⊎◌, inl, inr, Bool, true,
  false, ◌||◌, arith,
}
use blockade.Std.Hex
use blockade.Std.Http.{Request, Writer}
use blockade.Store.Types.{StoreLaws}
use blockade.Payment.{Pays, SingleUse, Verdict}
use blockade.Lightning.Client
use blockade.Lightning.Token.{decode_token, payment_hash_from_id, verify_preimage}
use blockade.Lightning.Interface.{lightning_verifier, token_key, spent_in}
use blockade.Lightning.Verifier.{Verifier, World, issue_challenge, mark, spend, claim, verify_proof}
use blockade.Lightning.Credential.{payment_hash_from_token}

module _ {M E S : Type 0} (v : Verifier M E S) (spent : S → Bytes → Bool)
    (laws : StoreLaws v.st spent) where
  mark_result :
      (now : ℕ) (h j : Bytes) (w : World E S)
      → Verdict
          (mark v now h w).0
          (spent_in spent (mark v now h w).1 j ≡ (h == j || spent_in spent w j))
          (spent_in spent (mark v now h w).1 j ≡ spent_in spent w j)
  unfolding mark
  mark_result now h j w = ground (arith, laws.mark_used_result w.store now h j)

  spend_result :
      (now : ℕ) (h j : Bytes) (w : World E S)
      → Verdict
          (spend v now h w).0
          ((spent_in spent w h ≡ false)
            × (spent_in spent (spend v now h w).1 j ≡ (h == j || spent_in spent w j)))
          (spent_in spent (spend v now h w).1 j ≡ spent_in spent w j)
  unfolding spend
  spend_result now h j w = ground (
    arith,
    laws.is_used_result w.store h,
    laws.is_used_keeps w.store h j,
    mark_result now h j (record w { store = (v.st.is_used h w.store).1 }),
  )

  claim_result :
      (now : ℕ) (ph j : Bytes) (w : World E S)
      → Verdict
          (claim v now ph w).0
          ((spent_in spent w (Hex.encode ph) ≡ false)
            × (spent_in spent (claim v now ph w).1 j ≡ (Hex.encode ph == j || spent_in spent w j)))
          (spent_in spent (claim v now ph w).1 j ≡ spent_in spent w j)
  unfolding claim
  claim_result now ph j w = ground (
    arith,
    spend_result now (Hex.encode ph) j
        (record w { env = (Client.is_settled v.services ph w.env).1 }),
  )

  -- A token that decodes goes on to `claim` or is refused; any other changes nothing.
  verify_cases :
      (now : ℕ) (t : Bytes) (w : World E S)
      → ((ph : Bytes) × (payment_hash_from_token v t ≡ ok (Hex.encode ph))
          × (verify_proof v now t w ≡ claim v now ph w))
        ⊎ (((verify_proof v now t w).0 ≢ ok true) × ((verify_proof v now t w).1 ≡ w))
  unfolding verify_proof payment_hash_from_token
  verify_cases now t w = elim (Result-cases (decode_token v.lib t)) [
    | inr (e, h) ↦ inr (ground (arith, h), ground (arith, h))
    | inl (tok, h) ↦ elim (Result-cases (payment_hash_from_id v.lib tok.macaroon)) [
      | inr (e, k) ↦ inr (ground (arith, h, k), ground (arith, h, k))
      | inl (ph, k) ↦ elim (Bool-cases (verify_preimage tok.preimage ph)) [
        | inl y ↦ inl (ph, ground (arith, h, k), ground (arith, h, k, y))
        | inr n ↦ inr (ground (arith, h, k, n), ground (arith, h, k, n))
      ]
    ]
  ]

  -- Issuing a challenge spends nothing.
  challenge_keeps :
      (r : Request) (w : Writer) (world : World E S) (j : Bytes)
      → spent_in spent (issue_challenge v r w world).1 j ≡ spent_in spent world j
  unfolding issue_challenge
  challenge_keeps r w world j = ground arith

  verify_accepts :
      (now : ℕ) (t : Bytes) (w : World E S)
      → (verify_proof v now t w).0 ≡ ok true
      → Pays (token_key v) (spent_in spent) t w (verify_proof v now t w).1
  verify_accepts now t w h = elim (verify_cases now t w) [
    | inr (no_way, _) ↦ absurd (no_way h)
    | inl (ph, names, e) ↦ record {
      paid = Hex.encode ph;
      names = rw (names, token_key);
      fresh = ground (arith, e, claim_result now ph (Hex.encode ph) w);
      gone = ground (arith, e, claim_result now ph (Hex.encode ph) w, eq_refl (Hex.encode ph));
    }
  ]

  -- With a store that keeps its contract, the Lightning backend accepts a token only if its payment
  -- hash is unspent, and spends it then; when it refuses or fails it spends nothing; no call forgets
  -- a spent hash, and a challenge spends none.
  pub lightning-SingleUse : SingleUse (token_key v) (spent_in spent) (lightning_verifier v)
  lightning-SingleUse = record {
    accepts = verify_accepts;
    refuses = λ now t w j h. elim (verify_cases now t w) [
      | inr (_, e) ↦ ap (λ x. spent_in spent x j) e
      | inl (ph, names, e) ↦ ground (arith, e, claim_result now ph j w)
    ];
    verify_keeps = λ now t w j h. elim (verify_cases now t w) [
      | inr (_, e) ↦ ground (arith, e)
      | inl (ph, names, e) ↦ ground (arith, e, claim_result now ph j w)
    ];
    challenge_keeps = λ now r w world j. challenge_keeps r w world j;
  }
