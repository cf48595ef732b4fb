-- ===== src/Base/Arithmetic.antt =====
-- Python's arithmetic on floats where it raises: `math.log10` raises ValueError at 0 and below, and `/` raises
-- ZeroDivisionError.
use emi_analyzer.Base.Tests.{if◌then◌else◌}
use emi_analyzer.Base.Results.{Result, ok, err, ◌>>=◌}
use emi_analyzer.Base.Json.{Floats, zero_f}

module _ (X : Floats) where
  open X use {Float, le, eq, log10, div}

  abbrev pub log10_or : {E : Type 0} → E → Float → Result E Float
  log10_or raised x = if le x (zero_f X) then err raised else ok (log10 x)

  abbrev pub divide_or : {E : Type 0} → E → Float → Float → Result E Float
  divide_or raised a b = if eq b (zero_f X) then err raised else ok (div a b)

  -- `math.log10(a / b)`
  abbrev pub log10_ratio : {E : Type 0} → E → E → Float → Float → Result E Float
  log10_ratio value_error zero_division a b = do
    q ← divide_or zero_division a b
    log10_or value_error q
