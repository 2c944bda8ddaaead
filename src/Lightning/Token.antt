-- ===== src/Lightning/Token.antt =====
-- internal/payment/lightning/token.go.
pub mod Laws
use blockade.Prelude.{
  eqb, if◌then◌else◌, length, new, got, Result, ok, err, ◌>>=◌, context, ◌==◌, Bytes, Bool, none,
  some,
}
use blockade.Std.Strings.{split_at}
use blockade.Std.Base64
use blockade.Std.Hex
use blockade.Std.Sha256.{sum256}
use blockade.Lightning.Services.{MacaroonLib}

pub record Token (M : Type 0) : Type 0 where
  pub macaroon : M
  pub preimage : Bytes

module _ {M : Type 0} (lib : MacaroonLib M) where
  unfoldable pub decode_parts : Bytes → Bytes → Result (Token M)
  decode_parts mac pre = do
    raw ← context "decode macaroon base64" (Base64.decode mac)
    m ← context "unmarshal macaroon" (lib.unmarshal_binary raw)
    preimage ← context "decode preimage hex" (Hex.decode pre)
    if eqb (length preimage) 32
        then ok (record { macaroon = m; preimage = preimage })
        else err (got "preimage must be 32 bytes" (length preimage))

  unfoldable pub decode_token : Bytes → Result (Token M)
  unfolding decode_parts
  decode_token s = elim (split_at b':' s) [
    | none ↦ err (new "invalid token format: expected <macaroon>:<preimage>")
    | some (mac, pre) ↦ decode_parts mac pre
  ]

  unfoldable pub payment_hash_from_id : M → Result Bytes
  payment_hash_from_id m = do
    h ← context "macaroon id is not a hex payment hash" (Hex.decode (lib.id m))
    if eqb (length h) 32 then ok h else err (got "payment hash must be 32 bytes" (length h))

-- `payment_hash` has 32 bytes wherever this is called.
unfoldable pub verify_preimage : Bytes → Bytes → Bool
verify_preimage preimage payment_hash = sum256 preimage == payment_hash
