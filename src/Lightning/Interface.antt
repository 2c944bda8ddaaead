-- ===== src/Lightning/Interface.antt =====
-- The Lightning verifier as the proxy's PaymentVerifier and CredentialIssuer.
use blockade.Prelude.{ok, err, Bytes, Bool, Option, none, some}
use blockade.Payment.{PaymentVerifier, CredentialIssuer}
use blockade.Lightning.Verifier.{
  Verifier, World, issue_challenge, verify_proof, extract_token, lookup_settlement,
}
use blockade.Lightning.Credential.{payment_hash_from_token, validate_credential}
use blockade.Lightning.Enrollment.{issue_enrollment_challenge, complete_enrollment}

module _ {M E S : Type 0} (v : Verifier M E S) where
  abbrev pub lightning_verifier : PaymentVerifier (World E S)
  lightning_verifier = record {
    issue_challenge = λ now. issue_challenge v;
    verify_proof = verify_proof v;
    extract_token = extract_token;
  }

  abbrev pub lightning_issuer : CredentialIssuer (World E S)
  lightning_issuer = record {
    issue_enrollment_challenge = λ now. issue_enrollment_challenge v;
    complete_enrollment = complete_enrollment v;
    validate_credential = validate_credential v;
    payment_hash_from_token = payment_hash_from_token v;
    lookup_settlement = lookup_settlement v;
  }

  -- The payment hash that a token names, if it names one.
  abbrev pub token_key : Bytes → Option Bytes
  token_key t = elim (payment_hash_from_token v t) [ ok h ↦ some h | err e ↦ none ]

-- The spent keys of the store, seen from the verifier's state.
abbrev pub spent_in : {E S : Type 0} → (S → Bytes → Bool) → World E S → Bytes → Bool
spent_in spent w j = spent w.store j
