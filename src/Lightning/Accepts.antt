-- ===== src/Lightning/Accepts.antt =====
-- VerifyProof of internal/payment/lightning/verifier.go: which tokens it accepts.
use blockade.Prelude.{ok, Result-cases, Bytes, eq_iff, ℕ, ◌≡◌, inl, inr, Bool, true, false, arith}
use blockade.Std.Hex
use blockade.Std.Sha256.{sum256}
use blockade.Store.Types.{StoreLaws, IsReliable}
use blockade.Lightning.Services.{settled, Invoice}
use blockade.Lightning.Client
use blockade.Lightning.Token.{Token, decode_token, payment_hash_from_id, verify_preimage}
use blockade.Lightning.Verifier.{Verifier, World, mark, spend, claim, verify_proof}

module _ {M E S : Type 0} (v : Verifier M E S) (spent : S → Bytes → Bool)
    (laws : StoreLaws v.st spent) where
  -- The token `t` carries the preimage of the payment hash `ph`, whose invoice lnd reports as
  -- settled, and which has not been spent.
  pub record IsPaid (t ph : Bytes) (w : World E S) (tok : Token M) (inv : Invoice) : Type 0 where
    pub decodes : decode_token v.lib t ≡ ok tok
    pub names : payment_hash_from_id v.lib tok.macaroon ≡ ok ph
    pub opens : sum256 tok.preimage ≡ ph
    pub reads : (v.services.rpc_lookup_invoice ph w.env).0 ≡ ok inv
    pub settles : inv.state ≡ settled
    pub fresh : spent w.store (Hex.encode ph) ≡ false

  is_settled-accepts :
      (ph : Bytes) (e : E)
      → (Client.is_settled v.services ph e).0 ≡ ok true
      → (inv : Invoice) × ((v.services.rpc_lookup_invoice ph e).0 ≡ ok inv) × (inv.state ≡ settled)
  unfolding Client.is_settled
  is_settled-accepts ph e h = elim (Result-cases (v.services.rpc_lookup_invoice ph e).0) [
    | inl (inv, r) ↦ (inv, r, ground (arith, r))
    | inr (x, r) ↦ absurd (ground (arith, r))
  ]

  claim_settled :
      (now : ℕ) (ph : Bytes) (w : World E S)
      → (claim v now ph w).0 ≡ ok true
      → ((Client.is_settled v.services ph w.env).0 ≡ ok true)
        × (spent w.store (Hex.encode ph) ≡ false)
  unfolding claim spend
  claim_settled now ph w h = ground (arith, laws.is_used_result w.store (Hex.encode ph))

  verify_claims :
      (now : ℕ) (t : Bytes) (w : World E S)
      → (verify_proof v now t w).0 ≡ ok true
      → (tok : Token M) × (ph : Bytes) × (decode_token v.lib t ≡ ok tok)
        × (payment_hash_from_id v.lib tok.macaroon ≡ ok ph)
        × (verify_preimage tok.preimage ph ≡ true)
        × ((claim v now ph w).0 ≡ ok true)
  unfolding verify_proof
  verify_claims now t w a = elim (Result-cases (decode_token v.lib t)) [
    | inr (e, h) ↦ absurd (ground (arith, h))
    | inl (tok, h) ↦ elim (Result-cases (payment_hash_from_id v.lib tok.macaroon)) [
      | inr (e, k) ↦ absurd (ground (arith, h, k))
      | inl (ph, k) ↦ (tok, ph, h, k, ground (arith, h, k), ground (arith, h, k))
    ]
  ]

  -- With a store that keeps its contract, a token is accepted only if it carries the preimage of a payment hash that lnd reports as
  -- settled and that has not been spent.
  pub verify_proof-IsPaid :
      (now : ℕ) (t : Bytes) (w : World E S)
      → (verify_proof v now t w).0 ≡ ok true
      → (ph : Bytes) × (tok : Token M) × (inv : Invoice) × IsPaid t ph w tok inv
  unfolding verify_preimage
  verify_proof-IsPaid now t w a =
      let (tok, ph, decodes, names, opens, claimed) = verify_claims now t w a in
      let (set, fresh) = claim_settled now ph w claimed in
      let (inv, reads, settles) = is_settled-accepts ph w.env set in
      (
        ph,
        tok,
        inv,
        record {
          decodes = decodes;
          names = names;
          opens = (eq_iff _ _).0 opens;
          reads = reads;
          settles = settles;
          fresh = fresh;
        },
      )

  module _ (reliable : IsReliable v.st) where
    spend_accepts :
        (now : ℕ) (h : Bytes) (w : World E S)
        → spent w.store h ≡ false
        → (spend v now h w).0 ≡ ok true
    unfolding spend mark
    spend_accepts now h w fresh = ground (
      arith,
      laws.is_used_result w.store h,
      reliable.is_used_succeeds w.store h,
      reliable.mark_used_succeeds (v.st.is_used h w.store).1 now h,
    )

    -- With a store that keeps its contract and does not fail, a token is accepted if it carries the
    -- preimage of a payment hash that lnd reports as settled and that has not been spent.
    pub verify_proof_complete :
        (now : ℕ) (t ph : Bytes) (w : World E S) (tok : Token M) (inv : Invoice)
        → IsPaid t ph w tok inv
        → (verify_proof v now t w).0 ≡ ok true
    unfolding verify_proof verify_preimage claim Client.is_settled
    verify_proof_complete now t ph w tok inv paid =
        let w' : World E S = record w { env = (v.services.rpc_lookup_invoice ph w.env).1 } in
        ground (
          arith,
          paid.decodes,
          paid.names,
          paid.reads,
          paid.settles,
          eq_iff (sum256 tok.preimage) ph,
          paid.opens,
          spend_accepts now (Hex.encode ph) w' paid.fresh,
        )
