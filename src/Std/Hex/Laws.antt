-- ===== src/Std/Hex/Laws.antt =====
-- Round trips of encoding/hex.
use blockade.Prelude.{
  length, All, ok, Bytes, IsBytes, bytes, ℕ, ◌*◌, ◌/◌, ◌%◌, ◌<◌, ◌≡◌, refl, ◌≢◌, some, [], ◌∷◌,
  arith,
}
use blockade.Std.Hex.{digit, encode, value, decode}

value-digit : (d : ℕ) → d < 16 → value (digit d) ≡ some d
unfolding value digit
value-digit d h = ground arith

pub decode-encode : (bs : Bytes) → IsBytes bs → decode (encode bs) ≡ ok bs
unfolding decode encode
decode-encode [] h = refl
decode-encode (b ∷ bs) h = ground (
  arith,
  value-digit (b / 16) (omega arith),
  value-digit (b % 16) (omega arith),
  decode-encode bs h.1,
)

pub length-encode : (bs : Bytes) → length (encode bs) ≡ 2 * length bs
unfolding encode
length-encode [] = refl
length-encode (b ∷ bs) = omega (arith, length-encode bs)

digit-range : (d : ℕ) → d < 16 → (digit d < 256) × (digit d ≢ b':')
unfolding digit
digit-range d h = (ground arith, ground arith)

-- An encoding is bytes, and holds no colon.
pub encode-IsBytes : (bs : Bytes) → IsBytes bs → IsBytes (encode bs)
unfolding encode
encode-IsBytes [] h = tt
encode-IsBytes (b ∷ bs) h = (
  (digit-range (b / 16) (omega arith)).0,
  ((digit-range (b % 16) (omega arith)).0, encode-IsBytes bs h.1),
)

pub encode-NoColon : (bs : Bytes) → IsBytes bs → All (λ c. c ≢ b':') (encode bs)
unfolding encode
encode-NoColon [] h = tt
encode-NoColon (b ∷ bs) h = (
  (digit-range (b / 16) (omega arith)).1,
  ((digit-range (b % 16) (omega arith)).1, encode-NoColon bs h.1),
)

upper : decode (bytes "0aFf") ≡ ok (10 ∷ 255 ∷ [])
unfolding decode
upper = refl
