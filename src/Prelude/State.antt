-- ===== src/Prelude/State.antt =====
-- Operations with a state and an error result, `Go S A`, as a monad: what ran before an error has
-- happened, so the state comes back beside the error too.
use Prim.Native.String.{String}
use blockade.Prelude.Results.{Result, ok, err, context, Go}

module _ {ℓ} {S A : Type ℓ} where
  abbrev pub pure : A → Go S A
  pure a s = (ok a, s)

  abbrev pub lift : Result A → Go S A
  lift r s = (r, s)

  -- `if err != nil { return fmt.Errorf(text + ": %w", err) }`
  abbrev pub within : String → Go S A → Go S A
  within text m s = let (r, t) = m s in (context text r, t)

module _ {ℓ} {S A B : Type ℓ} where
  abbrev pub continue : Result A → (A → Go S B) → Go S B
  continue (ok a) f s = f a s
  continue (err e) f s = (err e, s)

  infixl 5 ◌>>=◌
  abbrev pub ◌>>=◌ : Go S A → (A → Go S B) → Go S B
  ◌>>=◌ m f s = let (r, t) = m s in continue r f t
