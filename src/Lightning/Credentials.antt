-- ===== src/Lightning/Credentials.antt =====
-- internal/payment/lightning/credential.go: credentials and payment macaroons under the two root keys.
use blockade.Prelude.{ok, Result-cases, Bytes, ℕ, ◌≡◌, refl, ◌≢◌, inl, inr, arith}
use blockade.Std.Base64
use blockade.Std.Base64.Laws
use blockade.Lightning.Services.{MacaroonLaws}
use blockade.Lightning.Verifier.{Verifier, World, verify_proof, spend, claim, mark}
use blockade.Lightning.Credential.{mint_credential, validate_credential, credential_location}

module _ {M E S : Type 0} (v : Verifier M E S) (mac : MacaroonLaws v.lib) where
  -- What mint_credential returns.
  record Minted (id cred : Bytes) (m : M) (raw : Bytes) : Type 0 where
    mints : v.lib.mint v.credential_key id credential_location ≡ ok m
    marshals : v.lib.marshal_binary m ≡ ok raw
    encodes : cred ≡ Base64.encode raw

  mint_credential-Minted :
      (id cred : Bytes)
      → mint_credential v id ≡ ok cred
      → (m : M) × (raw : Bytes) × Minted id cred m raw
  unfolding mint_credential
  mint_credential-Minted id cred h =
      elim (Result-cases (v.lib.mint v.credential_key id credential_location)) [
        | inr (e, q) ↦ absurd (ground (arith, q))
        | inl (m, q) ↦ elim (Result-cases (v.lib.marshal_binary m)) [
          | inr (e, k) ↦ absurd (ground (arith, q, k))
          | inl (raw, k) ↦
              (m, raw, record { mints = q; marshals = k; encodes = ground (arith, q, k) })
        ]
      ]

  -- A credential that was minted for a principal validates, and to that principal.
  pub validate-mint :
      (id cred : Bytes) → mint_credential v id ≡ ok cred → validate_credential v cred ≡ ok id
  unfolding validate_credential
  validate-mint id cred h =
      let (m, raw, c) = mint_credential-Minted id cred h in
      ground (
        arith,
        c.encodes,
        Base64.Laws.decode-encode raw (mac.marshal_bytes m raw c.marshals),
        mac.unmarshal_marshal m raw c.marshals,
        mac.verify_mint _ _ _ m c.mints,
        mac.id_mint _ _ _ m c.mints,
      )

  -- If the two root keys differ, a macaroon of a payment challenge does not validate as a
  -- credential, for any principal. The macaroon library is assumed to read back what it writes, and
  -- to verify a macaroon under the key that made it alone.
  pub payment_macaroon_is_no_credential :
      v.credential_key ≢ v.root_key
      → (i l raw id : Bytes) (m : M) → v.lib.mint v.root_key i l ≡ ok m
      → v.lib.marshal_binary m ≡ ok raw
      → validate_credential v (Base64.encode raw) ≢ ok id
  unfolding validate_credential
  payment_macaroon_is_no_credential differ i l raw id m mints marshals h =
      elim (Result-cases (v.lib.verify v.credential_key m)) [
        | inl (u, y) ↦ differ (mac.verify_key _ _ _ _ m mints y)
        | inr (e, n) ↦ ground (
          arith,
          n,
          Base64.Laws.decode-encode raw (mac.marshal_bytes m raw marshals),
          mac.unmarshal_marshal m raw marshals,
        )
      ]

module _ {M E S : Type 0} (v : Verifier M E S) (other_key : Bytes) where
  abbrev rekeyed : Verifier M E S
  rekeyed = record v { root_key = other_key }

  -- VerifyProof does not depend on the key that signs payment macaroons: a token is accepted or not
  -- whatever key its macaroon was made with, also one from before a restart.
  pub verify_proof-root_key :
      (now : ℕ) (t : Bytes) (w : World E S) → verify_proof rekeyed now t w ≡ verify_proof v now t w
  unfolding verify_proof claim spend mark
  verify_proof-root_key now t w = refl
