-- ===== src/Prelude/Schedules.antt =====
-- Calls that run at the same time, as turns that they take one after another.
use Prim.Native.Nat.{ℕ, zero, suc}
use mathlib.Core.List.{List, [], ◌∷◌}

-- `advance` brings a call up to the end of its next critical section, at a time.
module _ {C W : Type 0} (advance : ℕ → C → W → C × W) where
  unfoldable pub advance_at : ℕ → ℕ → List C → W → List C × W
  advance_at i now [] w = ([], w)
  advance_at zero now (c ∷ cs) w = let (c', w') = advance now c w in (c' ∷ cs, w')
  advance_at (suc i) now (c ∷ cs) w = let (cs', w') = advance_at i now cs w in (c ∷ cs', w')

  -- The calls whose turn it is, with the time.
  unfoldable pub race : List (ℕ × ℕ) → List C → W → List C × W
  unfolding advance_at
  race [] cs w = (cs, w)
  race ((i, now) ∷ ts) cs w = let (cs', w') = advance_at i now cs w in race ts cs' w'

-- Of two calls, each takes its first turn before either takes its second.
abbrev pub both_first : ℕ → List (ℕ × ℕ)
both_first now = (0, now) ∷ (1, now) ∷ (0, now) ∷ (1, now) ∷ []
