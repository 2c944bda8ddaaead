-- ===== src/Std/Hex.antt =====
-- Go's encoding/hex: EncodeToString and DecodeString.
pub mod Laws
use blockade.Prelude.{
  ltb, leb, if◌then◌else◌, length, Error, new, invalid_byte, Result, ok, err, Bytes, ℕ, ◌+◌, ◌-◌,
  ◌*◌, ◌/◌, ◌%◌, ◌&&◌, Option, none, some, [], ◌∷◌,
}

-- The digit of a value below 16, in lower case.
unfoldable pub digit : ℕ → ℕ
digit d = if ltb d 10 then b'0' + d else b'a' + (d - 10)

unfoldable pub encode : Bytes → Bytes
unfolding digit
encode [] = []
encode (b ∷ bs) = digit (b / 16) ∷ digit (b % 16) ∷ encode bs

-- The value of a digit of either case.
unfoldable pub value : ℕ → Option ℕ
value c =
    if leb b'0' c && leb c b'9'
    then some (c - b'0')
    else if leb b'a' c && leb c b'f'
    then some (c - b'a' + 10)
    else if leb b'A' c && leb c b'F'
    then some (c - b'A' + 10)
    else none

-- hex.ErrLength
abbrev pub odd_length : Error
odd_length = new "encoding/hex: odd length hex string"

unfoldable pub pair : Option ℕ → Option ℕ → ℕ → ℕ → Result ℕ
pair none q c d = err (invalid_byte c)
pair (some p) none c d = err (invalid_byte d)
pair (some p) (some q) c d = ok (p * 16 + q)

unfoldable pub push : Result ℕ → Result Bytes → Result Bytes
push (err e) rest = err e
push (ok b) (err e) = err e
push (ok b) (ok bs) = ok (b ∷ bs)

unfoldable pub decode : Bytes → Result Bytes
unfolding value pair push
decode [] = ok []
decode (c ∷ []) = elim (value c) [ none ↦ err (invalid_byte c) | some v ↦ err odd_length ]
decode (c ∷ d ∷ s) = push (pair (value c) (value d) c d) (decode s)
