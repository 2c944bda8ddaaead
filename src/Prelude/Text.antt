-- ===== src/Prelude/Text.antt =====
-- Go strings and byte slices: lists of byte values.
use Prim.Native.Nat.{ℕ, ◌<◌}
use Prim.Native.Char.{code}
use Prim.Native.String.{String}
use mathlib.Core.Path.{◌≡◌, refl}
use mathlib.Core.Logic.{◌↔◌}
use mathlib.Core.Bool.{Bool, true, false, ◌&&◌}
use mathlib.Core.List.{List, [], ◌∷◌}
use native.Mathlib.Omega.{arith}
use blockade.Prelude.Tests.{All, eqb}

abbrev pub Bytes : Type 0
Bytes = List ℕ

-- The bytes of an ASCII literal.
abbrev pub bytes : String → Bytes
bytes String.[] = []
bytes (String.◌∷◌ c s) = code c ∷ bytes s

-- Every item is a byte.
abbrev pub IsBytes : Bytes → Type 0
IsBytes = All (λ b. b < 256)

infix 50 ◌==◌
unfoldable pub ◌==◌ : Bytes → Bytes → Bool
[] == [] = true
[] == (b ∷ bs) = false
(a ∷ as') == [] = false
(a ∷ as') == (b ∷ bs) = eqb a b && (as' == bs)

pub eq_refl : (a : Bytes) → (a == a) ≡ true
unfolding ◌==◌
eq_refl [] = refl
eq_refl (a ∷ l) = ground (arith, eq_refl l)

eq_sound : (a b : Bytes) → (a == b) ≡ true → a ≡ b
unfolding ◌==◌
eq_sound [] [] h = refl
eq_sound [] (b ∷ bs) h = cc
eq_sound (a ∷ l) [] h = cc
eq_sound (a ∷ l) (b ∷ bs) h = ground (arith, eq_sound l bs)

pub eq_iff : (a b : Bytes) → ((a == b) ≡ true) ↔ (a ≡ b)
eq_iff a b = (eq_sound a b, λ e. rw e (eq_refl b))

pub eq_sym : (a b : Bytes) → (a == b) ≡ (b == a)
unfolding ◌==◌
eq_sym [] [] = refl
eq_sym [] (b ∷ bs) = refl
eq_sym (a ∷ l) [] = refl
eq_sym (a ∷ l) (b ∷ bs) = ground (arith, eq_sym l bs)
