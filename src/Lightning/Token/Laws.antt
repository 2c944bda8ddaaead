-- ===== src/Lightning/Token/Laws.antt =====
-- The token format of internal/payment/lightning/token.go, from the client's side.
use blockade.Prelude.{length, ok, Bytes, IsBytes, ◌≡◌, ◌∷◌, ◌++◌, arith}
use blockade.Std.Strings.Laws.{split_at-first}
use blockade.Std.Base64
use blockade.Std.Base64.Laws.{encode-NoColon}
use blockade.Std.Hex
use blockade.Std.Hex.Laws
use blockade.Lightning.Services.{MacaroonLib}
use blockade.Lightning.Token.{decode_parts, decode_token}

-- base64(macaroon) ":" hex(preimage)
abbrev pub format : Bytes → Bytes → Bytes
format raw preimage = Base64.encode raw ++ (b':' ∷ Hex.encode preimage)

module _ {M : Type 0} (lib : MacaroonLib M) (m : M) (raw preimage : Bytes) where
  decode_parts-encode :
      lib.unmarshal_binary raw ≡ ok m
      → IsBytes raw
      → IsBytes preimage
      → length preimage ≡ 32
      → decode_parts lib (Base64.encode raw) (Hex.encode preimage)
        ≡ ok (record { macaroon = m; preimage = preimage })
  unfolding decode_parts
  decode_parts-encode hm hr hp h32 =
      ground (arith, Base64.Laws.decode-encode raw hr, Hex.Laws.decode-encode preimage hp)

  -- A token that is formatted from the bytes of a macaroon and a preimage of 32 bytes decodes to
  -- that macaroon and that preimage.
  pub decode_token-format :
      lib.unmarshal_binary raw ≡ ok m
      → IsBytes raw
      → IsBytes preimage
      → length preimage ≡ 32
      → decode_token lib (format raw preimage) ≡ ok (record { macaroon = m; preimage = preimage })
  unfolding decode_token
  decode_token-format hm hr hp h32 =
      rw
        (
          split_at-first b':' (Base64.encode raw) (Hex.encode preimage) (encode-NoColon raw hr),
          decode_token,
        )
        (decode_parts-encode hm hr hp h32)
