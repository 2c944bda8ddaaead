-- ===== src/Std/Json/Laws.antt =====
-- Strings that need no escape.
use blockade.Prelude.{All, Bytes, ℕ, ◌≤◌, ◌≡◌, refl, ◌≢◌, [], ◌∷◌, arith}
use blockade.Std.Json.{escape, escapes}

-- Between `0` and `z`, and neither `<`, `>` nor a backslash: among others the letters and digits.
abbrev pub IsPlain : ℕ → Type 0
IsPlain c = (b'0' ≤ c) × (c ≤ b'z') × (c ≢ b'<') × (c ≢ b'>') × (c ≢ b'\\')

pub escapes-plain : (s : Bytes) → All IsPlain s → escapes s ≡ s
unfolding escapes escape
escapes-plain [] h = refl
escapes-plain (c ∷ s) h = ground (arith, escapes-plain s)
