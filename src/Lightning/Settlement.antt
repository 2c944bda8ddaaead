-- ===== src/Lightning/Settlement.antt =====
-- CompleteEnrollment and LookupSettlement of internal/payment/lightning/verifier.go: the credential
-- of an enrolment, and the preimage of an invoice.
use blockade.Prelude.{ok, Result-cases, Bytes, ℕ, ◌≡◌, inl, inr, some, arith}
use blockade.Std.Hex
use blockade.Lightning.Services.{Invoice, settled, MacaroonLaws}
use blockade.Lightning.Client
use blockade.Lightning.Token.{decode_token, payment_hash_from_id}
use blockade.Lightning.Verifier.{Verifier, World, lookup_settlement}
use blockade.Lightning.Credential.{mint_credential, validate_credential}
use blockade.Lightning.Credentials.{validate-mint}
use blockade.Lightning.Enrollment.{mint_principal, spend_stake, claim_stake, complete_enrollment}

module _ {M E S : Type 0} (v : Verifier M E S) where
  -- The invoice of the payment hash `hash_hex` is settled, and `preimage_hex` is its preimage.
  pub record Reveals (hash_hex preimage_hex : Bytes) (w : World E S) (ph : Bytes) (inv : Invoice)
      : Type 0 where
    pub decodes : Hex.decode hash_hex ≡ ok ph
    pub reads : (v.services.rpc_lookup_invoice ph w.env).0 ≡ ok inv
    pub settles : inv.state ≡ settled
    pub shows : preimage_hex ≡ Hex.encode inv.r_preimage

  -- The settlement endpoint gives a preimage out only if lnd reports the invoice of that payment
  -- hash as settled, and then the preimage is that of the invoice.
  pub lookup_settlement-Reveals :
      (hash_hex preimage_hex : Bytes) (w : World E S)
      → (lookup_settlement v hash_hex w).0 ≡ ok (some preimage_hex)
      → (ph : Bytes) × (inv : Invoice) × Reveals hash_hex preimage_hex w ph inv
  unfolding lookup_settlement Client.lookup_settlement
  lookup_settlement-Reveals hash_hex preimage_hex w h = elim (Result-cases (Hex.decode hash_hex)) [
    | inr (e, d) ↦ absurd (ground (arith, d))
    | inl (ph, d) ↦ elim (Result-cases (v.services.rpc_lookup_invoice ph w.env).0) [
      | inr (e, r) ↦ absurd (ground (arith, d, r))
      | inl (inv, r) ↦ (
        ph,
        inv,
        record {
          decodes = d;
          reads = r;
          settles = ground (arith, d, r);
          shows = ground (arith, d, r);
        },
      )
    ]
  ]

  module _ (mac : MacaroonLaws v.lib) where
    mint_principal-mints :
        (w : World E S) (id cred : Bytes)
        → (mint_principal v w).0 ≡ ok (id, cred)
        → mint_credential v id ≡ ok cred
    unfolding mint_principal
    mint_principal-mints w id cred h = ground arith

    spend_stake-mints :
        (now : ℕ) (hash_hex id cred : Bytes) (w : World E S)
        → (spend_stake v now hash_hex w).0 ≡ ok (id, cred)
        → mint_credential v id ≡ ok cred
    unfolding spend_stake
    spend_stake-mints now hash_hex id cred w h =
        mint_principal-mints
          (record w { store = (v.st.mark_used now hash_hex (v.st.is_used hash_hex w.store).1).1 })
          id cred (ground arith)

    claim_stake-mints :
        (now : ℕ) (ph id cred : Bytes) (w : World E S)
        → (claim_stake v now ph w).0 ≡ ok (id, cred)
        → mint_credential v id ≡ ok cred
    unfolding claim_stake
    claim_stake-mints now ph id cred w h =
        spend_stake-mints now (Hex.encode ph) id cred
          (record w { env = (Client.is_settled v.services ph w.env).1 }) (ground arith)

    -- The credential that an enrolment returns validates, and to the principal that it returns, if
    -- the macaroon library reads back and verifies what it makes.
    pub complete_enrollment_validates :
        (now : ℕ) (t id cred : Bytes) (w : World E S)
        → (complete_enrollment v now t w).0 ≡ ok (id, cred)
        → validate_credential v cred ≡ ok id
    unfolding complete_enrollment
    complete_enrollment_validates now t id cred w h =
        validate-mint v mac id cred (elim (Result-cases (decode_token v.lib t)) [
          | inr (e, d) ↦ absurd (ground (arith, d))
          | inl (tok, d) ↦ elim (Result-cases (payment_hash_from_id v.lib tok.macaroon)) [
            | inr (e, p) ↦ absurd (ground (arith, d, p))
            | inl (ph, p) ↦ claim_stake-mints now ph id cred w (ground (arith, d, p))
          ]
        ])
