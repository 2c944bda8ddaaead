-- ===== src/Std/Json.antt =====
-- Of Go's encoding/json: Marshal of strings, integers, arrays and structs. Texts are UTF-8 without
-- U+2028 and U+2029, so that the bytes of the longer characters stand as they are.
pub mod Laws
use blockade.Prelude.{
  ltb, eqb, if◌then◌else◌, Bytes, bytes, ℕ, ◌+◌, ◌-◌, ◌/◌, ◌%◌, ◌≡◌, refl, ◌||◌, List, [], ◌∷◌,
  ◌++◌,
}
use blockade.Std.Strings.{decimal_ℤ}
use blockade.Prelude.Int.{ℤ, pos}

pub data Value : Type 0 where
  text : Bytes → Value
  number : ℤ → Value

hex_digit : ℕ → ℕ
hex_digit d = if ltb d 10 then b'0' + d else b'a' + (d - 10)

-- The characters with an escape of two characters, and those that HTML escaping adds.
escape : ℕ → Bytes
unfolding hex_digit
escape c =
    if eqb c b'"'
    then bytes "\\\""
    else if eqb c b'\\'
    then bytes "\\\\"
    else if eqb c 0x08
    then bytes "\\b"
    else if eqb c 0x0c
    then bytes "\\f"
    else if eqb c 0x0a
    then bytes "\\n"
    else if eqb c 0x0d
    then bytes "\\r"
    else if eqb c 0x09
    then bytes "\\t"
    else if ltb c 0x20 || eqb c b'<' || eqb c b'>' || eqb c b'&'
    then bytes "\\u00" ++ (hex_digit (c / 16) ∷ hex_digit (c % 16) ∷ [])
    else c ∷ []

pub escapes : Bytes → Bytes
unfolding escape
escapes [] = []
escapes (c ∷ s) = escape c ++ escapes s

unfoldable pub quote : Bytes → Bytes
unfolding escapes
quote s = b'"' ∷ (escapes s ++ (b'"' ∷ []))

unfoldable pub value : Value → Bytes
unfolding quote decimal_ℤ
value (text s) = quote s
value (number n) = decimal_ℤ n

-- The items behind the first one.
tail_items : List Value → Bytes
unfolding value
tail_items [] = bytes "]"
tail_items (v ∷ vs) = b',' ∷ (value v ++ tail_items vs)

unfoldable pub array : List Value → Bytes
unfolding tail_items value
array [] = bytes "[]"
array (v ∷ vs) = b'[' ∷ (value v ++ tail_items vs)

array_example : array (text (bytes "a\"<b") ∷ number (pos 6) ∷ []) ≡ bytes "[\"a\\\"\\u003cb\",6]"
unfolding array
array_example = refl
