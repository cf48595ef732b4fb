-- ===== src/Limits.antt =====
-- worker/emi_worker/compliance/limits.py: the limit of a standard at a frequency. Reading the table
-- files is not modelled: a standard and its segments are given.
pub mod Covers
pub mod Least
mod Examples
use emi_analyzer.Base.Arithmetic.{log10_ratio, divide_or}
use emi_analyzer.Base.Json.{Floats, zero_f}
use emi_analyzer.Base.Results.{Result, ok, err, ◌>>=◌, map_results}
use emi_analyzer.Base.{
  ℕ, Bool, true, false, ◌&&◌, ◌||◌, Option, none, some, List, [], ◌∷◌, if◌then◌else◌, Text, text_eq,
}

-- LimitError, by the place that raises it, and the exceptions of `math.log10` and `/`.
pub data Raised : Type 0 where
  no_segments overlap gap unknown_standard no_limit not_positive : Raised
  value_error zero_division : Raised

module _ (F : Floats) where
  open F use {Float, le, lt, add, sub, mul}

  pub record Segment : Type 0 where
    pub f_lo_hz : Float
    pub f_hi_hz : Float
    pub level_db : Float
    pub level_db_hi : Option Float
    pub detector : Option Text
    pub peak_level_db : Option Float

  -- A standard has at least one segment.
  pub record Standard : Type 0 where
    pub id : Text
    pub detector : Text
    pub first : Segment
    pub others : List Segment

  -- The loop over neighbours in `_parse`.
  unfoldable pub check_neighbours : Segment → List Segment → Result {0} Raised Unit
  check_neighbours a [] = ok tt
  check_neighbours a (b ∷ more) =
      let rest = check_neighbours b more in
      if lt b.f_lo_hz a.f_hi_hz
      then err overlap
      else if lt a.f_hi_hz b.f_lo_hz
      then err gap
      else rest

  abbrev pub with_segments :
      Text → Text → Segment → List Segment → Result {0} Raised Unit → Result Raised Standard
  with_segments id detector a more (err e) = err e
  with_segments id detector a more (ok u) =
      ok (record { id = id; detector = detector; first = a; others = more })

  -- The part of `_parse` that checks one standard's segments.
  unfoldable pub make_standard : Text → Text → List Segment → Result Raised Standard
  make_standard id detector [] = err no_segments
  make_standard id detector (a ∷ more) = with_segments id detector a more (check_neighbours a more)

  -- `standard`, in the table that `load_standards` returns
  abbrev pub find_standard : List (Text × Standard) → Text → Result Raised Standard
  find_standard [] id = err unknown_standard
  find_standard ((key, std) ∷ more) id = if text_eq key id then ok std else find_standard more id

  -- `Segment.covers`
  unfoldable pub covers : Float → Segment → Bool
  covers f s = le s.f_lo_hz f && le f s.f_hi_hz

  -- Between the ends of a sloping segment, by the logarithm of the frequency
  abbrev pub between : Float → Segment → Float → Result Raised Float
  between f s hi = do
    span ← log10_ratio F value_error zero_division s.f_hi_hz s.f_lo_hz
    part ← log10_ratio F value_error zero_division f s.f_lo_hz
    along ← divide_or F zero_division part span
    ok (add s.level_db (mul along (sub hi s.level_db)))

  abbrev pub sloped : Float → Segment → Option Float → Result Raised Float
  sloped f s none = ok s.level_db
  sloped f s (some hi) =
      if le f s.f_lo_hz then ok s.level_db else if le s.f_hi_hz f then ok hi else between f s hi

  -- `Segment.level_at`
  unfoldable pub level_at : Float → Segment → Result Raised Float
  level_at f s = sloped f s s.level_db_hi

  abbrev pub last_hi : Segment → List Segment → Float
  last_hi s [] = s.f_hi_hz
  last_hi s (t ∷ more) = last_hi t more

  -- `Standard.range_hz`
  abbrev pub range_hz : Standard → Float × Float
  range_hz std = (std.first.f_lo_hz, last_hi std.first std.others)

  abbrev pub covering : Float → List Segment → List Segment
  covering f [] = []
  covering f (s ∷ more) = let rest = covering f more in if covers f s then s ∷ rest else rest

  abbrev pub keep_less : (rest_new rest_old : Result Raised Segment) → Bool → Result Raised Segment
  keep_less rest_new rest_old less = if less then rest_new else rest_old

  -- `min(..., key=...)`: the first item with the least key, where the key may raise
  unfoldable pub least_from :
      (Segment → Result Raised Float) → Segment → Float → List Segment → Result Raised Segment
  least_from key best level [] = ok best
  least_from key best level (s ∷ more) = do
    k ← key s
    keep_less (least_from key s k more) (least_from key best level more) (lt k level)

  abbrev pub min_by : (Segment → Result Raised Float) → List Segment → Result Raised Segment
  min_by key [] = err no_limit
  min_by key (s ∷ more) = do k ← key s; least_from key s k more

  abbrev pub segments : Standard → List Segment
  segments std = std.first ∷ std.others

  unfoldable pub least_of : Float → List Float → Float
  least_of best [] = best
  least_of best (x ∷ xs) = if lt x best then least_of x xs else least_of best xs

  abbrev pub min_of : List Float → Result Raised Float
  min_of [] = err no_limit
  min_of (x ∷ xs) = ok (least_of x xs)

  -- `limit_at`: the least of the levels of the segments that cover the frequency
  unfoldable pub limit_at : Standard → Float → Result Raised Float
  unfolding map_results
  limit_at std f = do levels ← map_results (level_at f) (covering f (segments std)); min_of levels

  -- `in_range`
  unfoldable pub in_range : Standard → Float → Bool
  in_range std f = le (range_hz std).0 f && le f (range_hz std).1

  abbrev pub or_default : Text → Option Text → Text
  or_default d none = d
  or_default d (some []) = d
  or_default d (some (c ∷ t)) = c ∷ t

  -- `detector_at`
  unfoldable pub detector_at : Standard → Float → Result Raised Text
  detector_at std f = do
    s ← min_by (level_at f) (covering f (segments std))
    ok (or_default std.detector s.detector)

  abbrev pub add_peak : Option Float → List Float → List Float
  add_peak none l = l
  add_peak (some p) l = p ∷ l

  abbrev pub peaks : Float → List Segment → List Float
  peaks f [] = []
  peaks f (s ∷ more) =
      let rest = peaks f more in if covers f s then add_peak s.peak_level_db rest else rest

  -- `peak_limit_at`
  abbrev pub min_or_none : List Float → Option Float
  min_or_none [] = none
  min_or_none (x ∷ xs) = some (least_of x xs)

  unfoldable pub peak_limit_at : Standard → Float → Option Float
  peak_limit_at std f = min_or_none (peaks f (segments std))

  -- The rules that `_scan_rules` returns
  pub record ScanRules : Type 0 where
    pub rules : List (Float × Float)
    pub harmonic : Float
    pub cap_hz : Float

  -- The loop of `scan_to_hz`, then `min(f * harmonic, cap)`
  abbrev pub scan_by : ScanRules → List (Float × Float) → Float → Float
  scan_by r [] f = let above = mul f r.harmonic in if lt r.cap_hz above then r.cap_hz else above
  scan_by r ((below, to) ∷ more) f = let rest = scan_by r more f in if lt f below then to else rest

  unfoldable pub scan_to_hz : ScanRules → Float → Result Raised Float
  scan_to_hz r f = if le f (zero_f F) then err not_positive else ok (scan_by r r.rules f)
