-- ===== src/Std/Errors.antt =====
-- The text of an error, as `err.Error()` gives it.
use blockade.Prelude.{
  ltb, leb, eqb, if◌then◌else◌, Error, new, wrap, got, at_index, rpc, rpc_code, invalid_byte, Bytes,
  bytes, ℕ, ◌+◌, ◌-◌, ◌/◌, ◌%◌, ◌≡◌, refl, Bool, not, ◌&&◌, ◌||◌, [], ◌∷◌, ◌++◌,
}
use blockade.Std.Strings.{decimal, decimal_ℤ}

-- An upper case hexadecimal digit.
hex_digit : ℕ → ℕ
hex_digit d = if ltb d 10 then b'0' + d else b'A' + (d - 10)

-- strconv.IsPrint on a byte's code point
is_print : ℕ → Bool
is_print c = (leb 0x20 c && leb c 0x7e) || (leb 0xa1 c && not (eqb c 0xad))

utf8 : ℕ → Bytes
utf8 c = if ltb c 0x80 then c ∷ [] else (0xc0 + c / 64) ∷ (0x80 + c % 64) ∷ []

-- fmt's %#U on a byte: U+00E9 'é'
code_point : ℕ → Bytes
unfolding hex_digit is_print utf8
code_point c =
    bytes "U+00"
    ++ hex_digit (c / 16)
      ∷ hex_digit (c % 16)
      ∷ (if is_print c then bytes " '" ++ (utf8 c ++ bytes "'") else [])

unfoldable pub message : Error → Bytes
unfolding decimal decimal_ℤ code_point
message (new s) = bytes s
message (wrap s e) = bytes s ++ (bytes ": " ++ message e)
message (got s n) = bytes s ++ (bytes ", got " ++ decimal n)
message (at_index s n t) = bytes s ++ (bytes "[" ++ (decimal n ++ (bytes "]" ++ bytes t)))
message (rpc s e) = bytes "rpc " ++ (bytes s ++ (bytes ": " ++ message e))
message (rpc_code s n t) =
    bytes "rpc " ++ (bytes s ++ (bytes ": code " ++ (decimal_ℤ n ++ (bytes ": " ++ t))))
message (invalid_byte c) = bytes "encoding/hex: invalid byte: " ++ code_point c

message_example :
    message (wrap "decode preimage hex" (invalid_byte b'g'))
    ≡ bytes "decode preimage hex: encoding/hex: invalid byte: U+0067 'g'"
unfolding message
message_example = refl
