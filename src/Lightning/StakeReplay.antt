-- ===== src/Lightning/StakeReplay.antt =====
-- CompleteEnrollment of internal/payment/lightning/verifier.go against the contract of the payment
-- interface: what it does to the spent keys.
use blockade.Prelude.{
  Bool-cases, Error, new, wrap, Result, ok, err, Result-cases, Bytes, eq_refl, ℕ, ◌≡◌, ◌⊎◌, inl,
  inr, Bool, true, false, arith,
}
use blockade.Std.Hex
use blockade.Std.Http.{Request, Writer}
use blockade.Store.Types.{StoreLaws}
use blockade.Payment.{Pays, SingleUseIssuer}
use blockade.Lightning.Client
use blockade.Lightning.Token.{decode_token, payment_hash_from_id, verify_preimage}
use blockade.Lightning.Verifier.{Verifier, World, lookup_settlement}
use blockade.Lightning.Credential.{payment_hash_from_token}
use blockade.Lightning.Enrollment.{
  issue_enrollment_challenge, mint_principal, spend_stake, claim_stake, complete_enrollment,
}
use blockade.Lightning.Interface.{lightning_issuer, token_key, spent_in}

module _ {M E S : Type 0} (v : Verifier M E S) (spent : S → Bytes → Bool)
    (laws : StoreLaws v.st spent) where
  -- What an enrolment call promises of the key `h`: a credential comes only from a fresh stake that
  -- is now spent, and no spent key is forgotten.
  record Enrols (h : Bytes) (w : World E S) (r : Result (Bytes × Bytes) × World E S) : Type 0 where
    fresh : (p : Bytes × Bytes) → r.0 ≡ ok p → spent_in spent w h ≡ false
    taken : (p : Bytes × Bytes) → r.0 ≡ ok p → spent_in spent r.1 h ≡ true
    keeps : (j : Bytes) → spent_in spent w j ≡ true → spent_in spent r.1 j ≡ true

  mint_principal-store : (w : World E S) → (mint_principal v w).1.store ≡ w.store
  unfolding mint_principal
  mint_principal-store w = ground arith

  spend_stake-Enrols : (now : ℕ) (h : Bytes) (w : World E S) → Enrols h w (spend_stake v now h w)
  unfolding spend_stake
  spend_stake-Enrols now h w =
      let s = (v.st.is_used h w.store).1 in
      let w' : World E S = record w { store = (v.st.mark_used now h s).1 } in
      record {
        fresh = λ p e. ground (arith, laws.is_used_result w.store h);
        taken = λ p e.
            ground (arith, laws.mark_used_result s now h h, eq_refl h, mint_principal-store w');
        keeps = λ j e. ground (
          arith,
          laws.is_used_keeps w.store h j,
          laws.mark_used_result s now h j,
          mint_principal-store w',
        );
      }

  claim_stake-Enrols :
      (now : ℕ) (ph : Bytes) (w : World E S) → Enrols (Hex.encode ph) w (claim_stake v now ph w)
  unfolding claim_stake
  claim_stake-Enrols now ph w =
      let w' : World E S = record w { env = (Client.is_settled v.services ph w.env).1 } in
      let next = spend_stake-Enrols now (Hex.encode ph) w' in
      record {
        fresh = λ p e. ground (arith, next.fresh p);
        taken = λ p e. ground (arith, next.taken p);
        keeps = λ j e. ground (arith, next.keeps j);
      }

  complete_cases :
      (now : ℕ) (t : Bytes) (w : World E S)
      → ((ph : Bytes) × (payment_hash_from_token v t ≡ ok (Hex.encode ph))
          × (complete_enrollment v now t w ≡ claim_stake v now ph w))
        ⊎ ((e : Error) × (complete_enrollment v now t w ≡ (err e, w)))
  unfolding complete_enrollment payment_hash_from_token
  complete_cases now t w = elim (Result-cases (decode_token v.lib t)) [
    | inr (e, h) ↦ inr (wrap "decode token" e, ground (arith, h))
    | inl (tok, h) ↦ elim (Result-cases (payment_hash_from_id v.lib tok.macaroon)) [
      | inr (e, k) ↦ inr (wrap "extract payment hash" e, ground (arith, h, k))
      | inl (ph, k) ↦ elim (Bool-cases (verify_preimage tok.preimage ph)) [
        | inl y ↦ inl (ph, ground (arith, h, k), ground (arith, h, k, y))
        | inr n ↦ inr (new "preimage does not match payment hash", ground (arith, h, k, n))
      ]
    ]
  ]

  complete-Pays :
      (now : ℕ) (t : Bytes) (w : World E S) (p : Bytes × Bytes)
      → (complete_enrollment v now t w).0 ≡ ok p
      → Pays (token_key v) (spent_in spent) t w (complete_enrollment v now t w).1
  complete-Pays now t w p h = elim (complete_cases now t w) [
    | inr (e, k) ↦ ground (arith, k)
    | inl (ph, names, k) ↦
        let enrols = claim_stake-Enrols now ph w in
        record {
          paid = Hex.encode ph;
          names = rw (names, token_key);
          fresh = enrols.fresh p (rw k at h);
          gone = rw k (enrols.taken p (rw k at h));
        }
  ]

  complete_keeps :
      (now : ℕ) (t : Bytes) (w : World E S) (j : Bytes)
      → spent_in spent w j ≡ true
      → spent_in spent (complete_enrollment v now t w).1 j ≡ true
  complete_keeps now t w j h = elim (complete_cases now t w) [
    | inr (e, k) ↦ rw k h
    | inl (ph, names, k) ↦ rw k ((claim_stake-Enrols now ph w).keeps j h)
  ]

  enrollment_challenge-keeps :
      (r : Request) (w : Writer) (world : World E S) (j : Bytes)
      → spent_in spent (issue_enrollment_challenge v r w world).1 j ≡ spent_in spent world j
  unfolding issue_enrollment_challenge
  enrollment_challenge-keeps r w world j = ground arith

  settlement-keeps :
      (h : Bytes) (w : World E S) (j : Bytes)
      → spent_in spent (lookup_settlement v h w).1 j ≡ spent_in spent w j
  unfolding lookup_settlement
  settlement-keeps h w j = ground arith

  -- With a store that keeps its contract, an enrolment is completed only by a token whose payment
  -- hash is unspent, among requests and enrolments alike, and spends it; no other call of the issuer
  -- spends a hash, and none forgets a spent one.
  pub lightning-SingleUseIssuer :
      SingleUseIssuer (token_key v) (spent_in spent) (lightning_issuer v)
  lightning-SingleUseIssuer = record {
    completes = complete-Pays;
    complete_keeps = complete_keeps;
    enrollment_challenge_keeps = λ now. enrollment_challenge-keeps;
    settlement_keeps = settlement-keeps;
  }
