-- ===== src/Std/Strings.antt =====
-- Of Go's `strings`: HasPrefix, TrimPrefix, SplitN(s, sep, 2) at a one-byte separator, TrimSpace.
-- Of `fmt`: %d.
pub mod Laws
use blockade.Prelude.{
  leb, eqb, if◌then◌else◌, length, Bytes, bytes, ℕ, zero, suc, ◌+◌, ◌-◌, ◌/◌, ◌%◌, ◌≡◌, refl, Bool,
  true, false, ◌&&◌, ◌||◌, Option, none, some, [], ◌∷◌, ◌++◌,
}
use mathlib.Core.List.{reverse}
use blockade.Prelude.Int.{ℤ, pos, negsuc}

unfoldable pub has_prefix : Bytes → Bytes → Bool
has_prefix s [] = true
has_prefix [] (p ∷ ps) = false
has_prefix (c ∷ s) (p ∷ ps) = eqb c p && has_prefix s ps

-- s[n:]
unfoldable pub drop : ℕ → Bytes → Bytes
drop zero s = s
drop (suc n) [] = []
drop (suc n) (c ∷ s) = drop n s

unfoldable pub trim_prefix : Bytes → Bytes → Bytes
unfolding has_prefix drop
trim_prefix s p = if has_prefix s p then drop (length p) s else s

-- The part before the first `sep` and the part after it; `none` where `sep` does not occur.
unfoldable pub split_at : ℕ → Bytes → Option (Bytes × Bytes)
split_at sep [] = none
split_at sep (c ∷ s) =
    let rest = split_at sep s in
    if eqb c sep then some ([], s) else elim rest [ none ↦ none | some (a, b) ↦ some (c ∷ a, b) ]

abbrev is_ascii_space : ℕ → Bool
is_ascii_space c = eqb c 0x20 || (leb 0x09 c && leb c 0x0d)

-- U+0085 and U+00A0
abbrev is_space2 : ℕ → ℕ → Bool
is_space2 a b = eqb a 0xc2 && (eqb b 0x85 || eqb b 0xa0)

-- U+1680, U+2000 to U+200A, U+2028, U+2029, U+202F, U+205F and U+3000
abbrev is_space3 : ℕ → ℕ → ℕ → Bool
is_space3 a b c =
    (eqb a 0xe1 && eqb b 0x9a && eqb c 0x80)
    || (eqb a 0xe2
        && ((eqb b 0x80 && ((leb 0x80 c && leb c 0x8a) || eqb c 0xa8 || eqb c 0xa9 || eqb c 0xaf))
            || (eqb b 0x81 && eqb c 0x9f)))
    || (eqb a 0xe3 && eqb b 0x80 && eqb c 0x80)

-- The length in bytes of the white space character (`unicode.IsSpace`) at the head; 0 for none.
unfoldable pub space_len : Bytes → ℕ
space_len [] = 0
space_len (a ∷ []) = if is_ascii_space a then 1 else 0
space_len (a ∷ b ∷ []) = if is_ascii_space a then 1 else if is_space2 a b then 2 else 0
space_len (a ∷ b ∷ c ∷ s) =
    if is_ascii_space a then 1 else if is_space2 a b then 2 else if is_space3 a b c then 3 else 0

-- The same at the end of a text, which is given backwards.
unfoldable pub space_len_back : Bytes → ℕ
space_len_back [] = 0
space_len_back (a ∷ []) = if is_ascii_space a then 1 else 0
space_len_back (b ∷ a ∷ []) = if is_ascii_space b then 1 else if is_space2 a b then 2 else 0
space_len_back (c ∷ b ∷ a ∷ s) =
    if is_ascii_space c then 1 else if is_space2 b c then 2 else if is_space3 a b c then 3 else 0

-- Drops the characters that `len` measures at the head; `skip` bytes of the last one are left.
unfoldable pub trim_by : (Bytes → ℕ) → ℕ → Bytes → Bytes
trim_by len skip [] = []
trim_by len (suc skip) (c ∷ s) = trim_by len skip s
trim_by len zero (c ∷ s) =
    let rest = trim_by len (len (c ∷ s) - 1) s in if eqb (len (c ∷ s)) 0 then c ∷ s else rest

unfoldable pub trim_space : Bytes → Bytes
unfolding space_len space_len_back trim_by
trim_space s = reverse (trim_by space_len_back 0 (reverse (trim_by space_len 0 s)))

-- The decimal digits of `n`, with fuel above their number.
unfoldable pub digits : ℕ → ℕ → Bytes → Bytes
digits zero n rest = rest
digits (suc f) n rest =
    let d = (b'0' + n % 10) ∷ rest in
    let more = digits f (n / 10) d in if eqb (n / 10) 0 then d else more

unfoldable pub decimal : ℕ → Bytes
unfolding digits
decimal n = digits (suc n) n []

-- %d of an int64
unfoldable pub decimal_ℤ : ℤ → Bytes
unfolding decimal
decimal_ℤ (pos n) = decimal n
decimal_ℤ (negsuc n) = b'-' ∷ decimal (suc n)

split_first : split_at b':' (bytes "ab:c:d") ≡ some (bytes "ab", bytes "c:d")
unfolding split_at
split_first = refl

trim_example : trim_space (bytes " \tx y " ++ 0xc2 ∷ 0xa0 ∷ []) ≡ bytes "x y"
unfolding trim_space
trim_example = refl

decimal_example : decimal_ℤ (negsuc 1233) ≡ bytes "-1234"
unfolding decimal_ℤ
decimal_example = refl
