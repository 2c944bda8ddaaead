-- ===== src/Lightning/Enrollment.antt =====
-- The enrolment part of internal/payment/lightning/verifier.go.
use blockade.Prelude.{if◌then◌else◌, new, err, context, Go, Bytes, bytes, ℕ, ◌++◌}
use blockade.Prelude.State.{pure, lift, within, ◌>>=◌}
use blockade.Std.Base64
use blockade.Std.Hex
use blockade.Std.Http.{Request, Writer, set_header, write_header}
use blockade.Price.{positive_price}
use blockade.Lightning.Services.{Services}
use blockade.Lightning.Client
use blockade.Lightning.Credential.{mint_credential}
use blockade.Lightning.Token.{decode_token, payment_hash_from_id, verify_preimage}
use blockade.Lightning.Verifier.{Verifier, World, on_env, on_store, mint_macaroon, l402_challenge}

-- The challenge with `, type="enrollment"` behind it.
unfoldable pub enrollment_challenge : Bytes → Bytes → Bytes
unfolding l402_challenge
enrollment_challenge mac64 pay_req = l402_challenge mac64 pay_req ++ bytes ", type=\"enrollment\""

unfoldable pub new_principal_id : {E : Type 0} → Services E → Go E Bytes
new_principal_id sv = do b ← sv.rand_read 16; pure (Hex.encode b)

module _ {M E S : Type 0} (v : Verifier M E S) where
  unfoldable pub issue_enrollment_challenge : Request → Writer → Go (World E S) (Bytes × Writer)
  issue_enrollment_challenge r w = do
    price_sats ← lift (positive_price r)
    (pay_req, payment_hash) ← within "create enrollment invoice" (
        on_env
          (Client.add_invoice v.services price_sats (bytes "blockaide enrollment: " ++ r.path)))
    m ← lift (context "mint macaroon" (mint_macaroon v payment_hash))
    raw ← lift (context "marshal macaroon" (v.lib.marshal_binary m))
    pure (
      Hex.encode payment_hash,
      write_header 402
          (set_header "Www-Authenticate" (enrollment_challenge (Base64.encode raw) pay_req) w),
    )

  -- The end of CompleteEnrollment, after `v.st.MarkUsed`.
  unfoldable pub mint_principal : Go (World E S) (Bytes × Bytes)
  mint_principal = do
    principal_id ← within "generate principal id" (on_env (new_principal_id v.services))
    cred_b64 ← lift (context "mint credential" (mint_credential v principal_id))
    pure (principal_id, cred_b64)

  -- From `v.st.IsUsed` on.
  unfoldable pub spend_stake : ℕ → Bytes → Go (World E S) (Bytes × Bytes)
  spend_stake now hash_hex = do
    used ← within "check used token" (on_store (v.st.is_used hash_hex))
    if used then lift (err (new "enrollment token already used")) else do
      _ ← within "mark token used" (on_store (v.st.mark_used now hash_hex))
      mint_principal

  -- From `v.lnd.IsSettled` on.
  unfoldable pub claim_stake : ℕ → Bytes → Go (World E S) (Bytes × Bytes)
  claim_stake now payment_hash = do
    settled ← within "check invoice" (on_env (Client.is_settled v.services payment_hash))
    if settled
        then spend_stake now (Hex.encode payment_hash)
        else lift (err (new "invoice not settled"))

  unfoldable pub complete_enrollment : ℕ → Bytes → Go (World E S) (Bytes × Bytes)
  complete_enrollment now token_str = do
    tok ← lift (context "decode token" (decode_token v.lib token_str))
    payment_hash ← lift (context "extract payment hash" (payment_hash_from_id v.lib tok.macaroon))
    if verify_preimage tok.preimage payment_hash
        then claim_stake now payment_hash
        else lift (err (new "preimage does not match payment hash"))
