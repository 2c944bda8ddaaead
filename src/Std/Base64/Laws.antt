-- ===== src/Std/Base64/Laws.antt =====
-- The round trip of encoding/base64, and the characters of an encoding.
use blockade.Prelude.{
  All, ok, Bytes, IsBytes, ℕ, ◌+◌, ◌*◌, ◌/◌, ◌%◌, ◌≤◌, ◌<◌, ◌≡◌, refl, ◌≢◌, some, [], ◌∷◌, arith,
}
use blockade.Std.Base64.{char64, encode, value64, skip_newlines, quanta, decode}

value64-char64 : (v : ℕ) → v < 64 → value64 (char64 v) ≡ some v
unfolding value64 char64
value64-char64 v h = ground arith

-- No character of an encoding is a line end or a colon.
char64_range : (v : ℕ) → v < 64 → b'+' ≤ char64 v × char64 v ≢ b':'
unfolding char64
char64_range v h = (ground arith, ground arith)

skip-char64 :
    (v : ℕ) → v < 64 → (s : Bytes) → skip_newlines (char64 v ∷ s) ≡ char64 v ∷ skip_newlines s
unfolding skip_newlines
skip-char64 v h s = ground (arith, char64_range v h)

skip-encode : (s : Bytes) → IsBytes s → skip_newlines (encode s) ≡ encode s
unfolding encode
skip-encode [] h = unfold skip_newlines in refl
skip-encode (a ∷ []) h =
    rw (skip-char64 (a / 4) (omega arith), skip-char64 (a % 4 * 16) (omega arith))
      (unfold skip_newlines in refl)
skip-encode (a ∷ b ∷ []) h =
    rw
      (
        skip-char64 (a / 4) (omega arith),
        skip-char64 (a % 4 * 16 + b / 16) (omega arith),
        skip-char64 (b % 16 * 4) (omega arith),
      )
      (unfold skip_newlines in refl)
skip-encode (a ∷ b ∷ c ∷ s) h = rw (
  skip-char64 (a / 4) (omega arith),
  skip-char64 (a % 4 * 16 + b / 16) (omega arith),
  skip-char64 (b % 16 * 4 + c / 64) (omega arith),
  skip-char64 (c % 64) (omega arith),
  skip-encode s h.1.1.1,
)

quanta-encode : (s : Bytes) → IsBytes s → quanta (encode s) ≡ ok s
unfolding quanta encode
quanta-encode [] h = refl
quanta-encode (a ∷ []) h =
    rw (value64-char64 (a / 4) (omega arith), value64-char64 (a % 4 * 16) (omega arith))
      (ground arith)
quanta-encode (a ∷ b ∷ []) h =
    rw
      (
        value64-char64 (a / 4) (omega arith),
        value64-char64 (a % 4 * 16 + b / 16) (omega arith),
        value64-char64 (b % 16 * 4) (omega arith),
      )
      (ground arith)
quanta-encode (a ∷ b ∷ c ∷ s) h =
    rw
      (
        value64-char64 (a / 4) (omega arith),
        value64-char64 (a % 4 * 16 + b / 16) (omega arith),
        value64-char64 (b % 16 * 4 + c / 64) (omega arith),
        value64-char64 (c % 64) (omega arith),
        quanta-encode s h.1.1.1,
      )
      (ground arith)

-- Decoding inverts encoding.
pub decode-encode : (s : Bytes) → IsBytes s → decode (encode s) ≡ ok s
unfolding decode
decode-encode s h = rw (skip-encode s h) (quanta-encode s h)

-- What holds of the 64 characters and of the padding holds of every character of an encoding.
module _ (Q : ℕ → Type 0) (digit : (v : ℕ) → v < 64 → Q (char64 v)) (padding : Q b'=') where
  pub encode-All : (s : Bytes) → IsBytes s → All Q (encode s)
  unfolding encode
  encode-All [] h = tt
  encode-All (a ∷ []) h =
      (digit (a / 4) (omega arith), (digit (a % 4 * 16) (omega arith), (padding, (padding, tt))))
  encode-All (a ∷ b ∷ []) h = (
    digit (a / 4) (omega arith),
    (digit (a % 4 * 16 + b / 16) (omega arith), (digit (b % 16 * 4) (omega arith), (padding, tt))),
  )
  encode-All (a ∷ b ∷ c ∷ s) h = (
    digit (a / 4) (omega arith),
    (
      digit (a % 4 * 16 + b / 16) (omega arith),
      (
        digit (b % 16 * 4 + c / 64) (omega arith),
        (digit (c % 64) (omega arith), encode-All s h.1.1.1),
      ),
    ),
  )

-- No item is a colon.
abbrev pub NoColon : Bytes → Type 0
NoColon = All (λ c. c ≢ b':')

-- An encoding holds no colon, so the first colon of a token is the separator.
pub encode-NoColon : (s : Bytes) → IsBytes s → NoColon (encode s)
encode-NoColon = encode-All (λ c. c ≢ b':') (λ v h. (char64_range v h).1) (omega arith)

-- No item is a quotation mark.
abbrev pub NoQuote : Bytes → Type 0
NoQuote = All (λ c. c ≢ b'"')

pub encode-NoQuote : (s : Bytes) → IsBytes s → NoQuote (encode s)
encode-NoQuote =
    encode-All (λ c. c ≢ b'"') (λ v h e. absurd (omega (arith, char64_range v h))) (omega arith)
