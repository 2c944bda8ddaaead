-- ===== src/Lightning/Credential.antt =====
-- internal/payment/lightning/credential.go, and the methods of verifier.go that need no state.
use blockade.Prelude.{Result, ok, ◌>>=◌, context, Bytes, bytes}
use blockade.Std.Base64
use blockade.Std.Hex
use blockade.Lightning.Token.{decode_token, payment_hash_from_id}
use blockade.Lightning.Verifier.{Verifier}

abbrev pub credential_location : Bytes
credential_location = bytes "blockaide-credential"

module _ {M E S : Type 0} (v : Verifier M E S) where
  unfoldable pub mint_credential : Bytes → Result Bytes
  mint_credential principal_id = do
    m ← context "mint credential" (v.lib.mint v.credential_key principal_id credential_location)
    raw ← context "marshal credential" (v.lib.marshal_binary m)
    ok (Base64.encode raw)

  unfoldable pub validate_credential : Bytes → Result Bytes
  validate_credential cred_b64 = do
    raw ← context "decode credential base64" (Base64.decode cred_b64)
    m ← context "unmarshal credential" (v.lib.unmarshal_binary raw)
    _ ← context "credential signature invalid" (v.lib.verify v.credential_key m)
    ok (v.lib.id m)

  unfoldable pub payment_hash_from_token : Bytes → Result Bytes
  payment_hash_from_token token_str = do
    tok ← decode_token v.lib token_str
    ph ← payment_hash_from_id v.lib tok.macaroon
    ok (Hex.encode ph)
