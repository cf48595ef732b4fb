-- ===== src/Completeness/Comparisons.antt =====
-- What compliance/completeness.py does with Python's floats: the comparisons of its conditions, taken
-- as they are. Nothing is assumed of them.
use emi_analyzer.Base.{Bool}

pub record Floats : Type 1 where
  pub Float : Type 0
  -- `a < b`
  pub less : Float → Float → Bool
  -- `lo <= f <= hi`
  pub in_range : Float → Float → Float → Bool
  -- `not a`
  pub is_zero : Float → Bool
  -- `abs(a - b) > 1e-6`
  pub differ : Float → Float → Bool
  -- `lo * (1 + 1e-6)` and `hi * (1 - 1e-6)`
  pub stretch_up : Float → Float
  pub stretch_down : Float → Float
