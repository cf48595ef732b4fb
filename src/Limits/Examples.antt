-- ===== src/Limits/Examples.antt =====
-- Two bands that meet at 88, with numbers for floats.
use emi_analyzer.Base.{ℕ, suc, ◌-◌, Option, inl, inr, none, some, [], ◌∷◌, ◌≡◌, refl, codes, arith}
use emi_analyzer.Base.Json.{Floats}
use emi_analyzer.Base.Results.{ok, err, map_results}
use emi_analyzer.Base.Small.{small}
use emi_analyzer.Limits.{
  zero_division, Segment, Standard, make_standard, check_neighbours, limit_at, in_range, covers,
  level_at, least_of,
}
use emi_analyzer.Limits.Covers.{IsOrdered, HasLogarithms, limit_at-in_range}
use emi_analyzer.Limits.Least.{IsGoverning, limit_at-IsGoverning}

-- Numbers for floats, with a quotient that is above 1 where the first number is the greater one.
abbrev scale : Floats
scale = record small { div = λ a b. suc (a - b); log10 = λ a. a }

scale-IsOrdered : IsOrdered scale
scale-IsOrdered = record {
  total = λ a b. ground arith;
  trans = λ a b c ab bc. ground arith;
  lt-le = λ a b. ground arith;
}

scale-HasLogarithms : HasLogarithms scale
scale-HasLogarithms = record {
  nonzero = λ a h. ground arith;
  positive = λ a b h k. ground arith;
  apart = λ a b h k. ground arith;
}

abbrev band : ℕ → ℕ → ℕ → Option ℕ → Segment scale
band lo hi level level_hi = record {
  f_lo_hz = lo;
  f_hi_hz = hi;
  level_db = level;
  level_db_hi = level_hi;
  detector = some (codes "qp");
  peak_level_db = none;
}

abbrev class_b : Standard scale
class_b = record {
  id = codes "b";
  detector = codes "qp";
  first = band 30 88 40 none;
  others = band 88 216 43 (some 60) ∷ [];
}

limit_at-in_range_example : (level : ℕ) × (limit_at scale class_b 100 ≡ ok level)
unfolding make_standard check_neighbours in_range
limit_at-in_range_example =
    limit_at-in_range scale scale-IsOrdered scale-HasLogarithms (codes "b") (codes "qp")
      (band 30 88 40 none ∷ band 88 216 43 (some 60) ∷ []) class_b 100 refl
      (inl refl, (inr refl, tt)) refl

limit_at-IsGoverning_example :
    (s : Segment scale) × IsGoverning scale scale-IsOrdered class_b 88 40 s
unfolding limit_at covers level_at least_of map_results
limit_at-IsGoverning_example = limit_at-IsGoverning scale scale-IsOrdered class_b 88 40 refl

-- A slope from 0 Hz, which the checks let through.
abbrev from_zero : Standard scale
from_zero = record {
  id = codes "z";
  detector = codes "qp";
  first = band 0 88 40 (some 50);
  others = [];
}

slope_from_zero : limit_at scale from_zero 30 ≡ err zero_division
unfolding limit_at covers level_at least_of map_results
slope_from_zero = refl
