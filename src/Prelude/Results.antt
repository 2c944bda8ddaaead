-- ===== src/Prelude/Results.antt =====
-- Go's `(value, error)` results. An error is kept as the way that it was made (`errors.New`,
-- `fmt.Errorf`), and `message` of Std/Errors renders it.
use Prim.Native.Nat.{ℕ}
use Prim.Native.String.{String}
use blockade.Prelude.Int.{ℤ}
use blockade.Prelude.Text.{Bytes}
use mathlib.Core.Path.{◌≡◌, refl}
use mathlib.Core.Logic.{◌⊎◌, inl, inr}

pub data Error : Type 0 where
  -- errors.New(s), or fmt.Errorf(s) with no verbs
  new : String → Error
  -- fmt.Errorf(s + ": %w", err)
  wrap : String → Error → Error
  -- fmt.Errorf(s + ", got %d", n)
  got : String → ℕ → Error
  -- fmt.Errorf(s + "[%d]" + t, n)
  at_index : String → ℕ → String → Error
  -- fmt.Errorf("rpc %s: %w", s, err)
  rpc : String → Error → Error
  -- fmt.Errorf("rpc %s: code %d: %s", s, n, t)
  rpc_code : String → ℤ → Bytes → Error
  -- hex.InvalidByteError
  invalid_byte : ℕ → Error

-- The value, or the error where it is not nil.
pub data Result {ℓ} (A : Type ℓ) : Type ℓ where
  ok : A → Result A
  err : Error → Result A

-- `if err != nil { return err }`, for do blocks
infixl 5 ◌>>=◌
abbrev pub ◌>>=◌ {ℓ κ} : {A : Type ℓ} {B : Type κ} → Result A → (A → Result B) → Result B
err e >>= next = err e
ok a >>= next = next a

-- `if err != nil { return fmt.Errorf(s + ": %w", err) }`
abbrev pub context {ℓ} : {A : Type ℓ} → String → Result A → Result A
context s (ok a) = ok a
context s (err e) = err (wrap s e)

module _ {ℓ} {A : Type ℓ} where
  pub Result-cases : (call : Result A) → ((a : A) × (call ≡ ok a)) ⊎ ((e : Error) × (call ≡ err e))
  Result-cases (err e) = inr (e, refl)
  Result-cases (ok a) = inl (a, refl)

-- An operation on a state that may return an error beside the state that it leaves.
abbrev pub Go {ℓ} : Type ℓ → Type ℓ → Type ℓ
Go S A = S → Result A × S
