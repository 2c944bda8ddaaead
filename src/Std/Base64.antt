-- ===== src/Std/Base64.antt =====
-- Go's encoding/base64, StdEncoding: EncodeToString and DecodeString. The position in a
-- CorruptInputError is left out: no text with it is ever sent.
pub mod Laws
use blockade.Prelude.{
  ltb, leb, eqb, if◌then◌else◌, Error, new, Result, ok, err, Bytes, bytes, ℕ, ◌+◌, ◌-◌, ◌*◌, ◌/◌,
  ◌%◌, ◌≡◌, refl, ◌&&◌, ◌||◌, Option, none, some, [], ◌∷◌,
}

-- The character of a six-bit value.
unfoldable pub char64 : ℕ → ℕ
char64 v =
    if ltb v 26
    then b'A' + v
    else if ltb v 52
    then b'a' + (v - 26)
    else if ltb v 62
    then b'0' + (v - 52)
    else if eqb v 62
    then b'+'
    else b'/'

unfoldable pub encode : Bytes → Bytes
unfolding char64
encode [] = []
encode (a ∷ []) = char64 (a / 4) ∷ char64 (a % 4 * 16) ∷ b'=' ∷ b'=' ∷ []
encode (a ∷ b ∷ []) =
    char64 (a / 4) ∷ char64 (a % 4 * 16 + b / 16) ∷ char64 (b % 16 * 4) ∷ b'=' ∷ []
encode (a ∷ b ∷ c ∷ s) =
    char64 (a / 4)
    ∷ char64 (a % 4 * 16 + b / 16)
    ∷ char64 (b % 16 * 4 + c / 64)
    ∷ char64 (c % 64)
    ∷ encode s

unfoldable pub value64 : ℕ → Option ℕ
value64 c =
    if leb b'A' c && leb c b'Z'
    then some (c - b'A')
    else if leb b'a' c && leb c b'z'
    then some (c - b'a' + 26)
    else if leb b'0' c && leb c b'9'
    then some (c - b'0' + 52)
    else if eqb c b'+'
    then some 62
    else if eqb c b'/'
    then some 63
    else none

abbrev pub corrupt : Error
corrupt = new "illegal base64 data"

-- The decoder skips line ends wherever they stand.
unfoldable pub skip_newlines : Bytes → Bytes
skip_newlines [] = []
skip_newlines (c ∷ s) =
    let rest = skip_newlines s in if eqb c 0x0a || eqb c 0x0d then rest else c ∷ rest

-- The last two characters of a quantum: both digits, the second padding, or both padding.
-- Padding ends the text.
unfoldable pub finish_quantum :
    ℕ → ℕ → Option ℕ → Option ℕ → ℕ → ℕ → Bytes → Result Bytes → Result Bytes
finish_quantum w x (some y) (some z) c d rest more = elim more [
  | err e ↦ err e
  | ok bs ↦ ok ((w * 4 + x / 16) ∷ (x % 16 * 16 + y / 4) ∷ (y % 4 * 64 + z) ∷ bs)
]
finish_quantum w x (some y) none c d [] more =
    if eqb d b'=' then ok ((w * 4 + x / 16) ∷ (x % 16 * 16 + y / 4) ∷ []) else err corrupt
finish_quantum w x none z c d [] more =
    if eqb c b'=' && eqb d b'=' then ok ((w * 4 + x / 16) ∷ []) else err corrupt
finish_quantum w x y z c d rest more = err corrupt

unfoldable pub quantum :
    Option ℕ → Option ℕ → Option ℕ → Option ℕ → ℕ → ℕ → Bytes → Result Bytes → Result Bytes
unfolding finish_quantum
quantum (some w) (some x) y z c d rest more = finish_quantum w x y z c d rest more
quantum w x y z c d rest more = err corrupt

unfoldable pub quanta : Bytes → Result Bytes
unfolding quantum value64
quanta [] = ok []
quanta (a ∷ b ∷ c ∷ d ∷ s) =
    quantum (value64 a) (value64 b) (value64 c) (value64 d) c d s (quanta s)
quanta s = err corrupt

unfoldable pub decode : Bytes → Result Bytes
unfolding quanta skip_newlines
decode s = quanta (skip_newlines s)

encode_padded : encode (bytes "light w") ≡ bytes "bGlnaHQgdw=="
unfolding encode
encode_padded = refl

decode_padded : decode (bytes "bGlnaHQgdw==") ≡ ok (bytes "light w")
unfolding decode
decode_padded = refl

decode_garbage : decode (bytes "bGlnaHQgdw==x") ≡ err corrupt
unfolding decode
decode_garbage = refl
