-- ===== src/Drivers/Spectrum.antt =====
-- drivers/spectrum.py: the pulse train of a driver and its harmonics. An exception of the float and
-- complex arithmetic is not modelled in this file, and what `round`, `floor` and `ceil` do at NaN is left to
-- the parameter.
use emi_analyzer.Base.{
  ℕ, zero, suc, not, ◌||◌, List, [], ◌∷◌, ◌++◌, length, ltb, ◌==◌, if◌then◌else◌, Text,
}
use emi_analyzer.Base.Results.{Result, ok, err, ◌>>=◌, ◌>>◌, guard, or_raise}
use emi_analyzer.Base.Json.{Floats, pos, zero_f}

-- DriverError, by the place that raises it, and the exceptions of arithmetic: the OverflowError of
-- `float` on a large int and of `10 ** x`, the ValueError of a logarithm, the ZeroDivisionError of a quotient.
pub data Raised : Type 0 where
  bad_period bad_edges bad_width no_room too_long : Raised
  lengths_differ too_few_points backwards below_dc no_current impedance_cancels : Raised
  not_an_object too_large wrong_format bad_version too_new too_old no_name unknown_kind : Raised
  unknown_role bad_net no_block negative_impedance too_few too_many bad_sample bad_interval : Raised
  short_capture bad_bandwidth bad_point bad_frequency bad_level not_increasing bad_rbw no_numbers :
      Raised
  missing not_sourced no_value no_source unknown_source not_a_number not_finite bad_detail :
      Text → Raised
  no_frequency bad_request wrong_kind few_samples outside_spectrum : Raised
  not_requested no_field no_port_spectrum : Raised
  no_key : Text → Raised
  overflow value_error zero_division : Raised

module _ (X : Floats) where
  open X use {
    Float, lt, le, eq, lit, whole, pi, abs, sqrt, add, sub, mul, div, pow, Complex, complex, cadd,
    csub, cmul, cdiv, cexp, ceq,
  }

  abbrev pub two : Float
  two = lit 2 0

  -- `RMS_PER_PEAK`
  abbrev pub rms_per_peak : Float
  rms_per_peak = div (lit 1 0) (sqrt two)

  pub record Trapezoid : Type 0 where
    pub amplitude_v : Float
    pub period_s : Float
    pub pulse_width_s : Float
    pub rise_s : Float
    pub fall_s : Float

  abbrev pub flat_top_s : Trapezoid → Float
  flat_top_s t = sub t.pulse_width_s (div (add t.rise_s t.fall_s) two)

  unfoldable pub validate : Trapezoid → Result {0} Raised (Unit {0})
  validate t = do
    guard (not (le t.period_s (zero_f X))) bad_period
    guard (not (le t.rise_s (zero_f X) || le t.fall_s (zero_f X))) bad_edges
    guard (not (le t.pulse_width_s (zero_f X))) bad_width
    guard (not (lt (flat_top_s t) (zero_f X))) no_room
    guard (not (lt t.period_s (add (add t.rise_s (flat_top_s t)) t.fall_s))) too_long

  -- The corner at the period's end, where the pulse ends before it.
  abbrev pub corner_times : Trapezoid → List Float
  corner_times t =
      let top = add t.rise_s (flat_top_s t) in
      let last = add top t.fall_s in
      zero_f X ∷ t.rise_s ∷ top ∷ last ∷ (if lt last t.period_s then t.period_s ∷ [] else [])

  abbrev pub corner_values : Trapezoid → List Float
  corner_values t =
      let last = add (add t.rise_s (flat_top_s t)) t.fall_s in
      zero_f X
      ∷ t.amplitude_v
      ∷ t.amplitude_v
      ∷ zero_f X
      ∷ (if lt last t.period_s then zero_f X ∷ [] else [])

  unfoldable pub breakpoints : Trapezoid → Result Raised (List Float × List Float)
  breakpoints t = do validate t; ok (corner_times t, corner_values t)

  abbrev pub last_or : Float → List Float → Float
  last_or d [] = d
  last_or d (x ∷ xs) = last_or x xs

  abbrev pub real : Float → Complex
  real x = complex x (zero_f X)

  -- What one segment that takes some time adds to the coefficient.
  abbrev pub segment : ℕ → Float → (t v length v' : Float) → Complex
  segment zero w t v length v' =
      let b = div (sub v' v) length in
      real (add (mul v length) (div (mul (mul b length) length) two))
  segment (suc n) w t v length v' =
      let b = div (sub v' v) length in
      let jw = cmul (complex (zero_f X) (lit 1 0)) (real w) in
      let minus_jw = csub (real (zero_f X)) jw in
      let e = cexp (cmul minus_jw (real length)) in
      let rest = csub (real (lit 1 0)) e in
      cmul (cexp (cmul minus_jw (real t))) (
        csub (csub (cdiv (cmul (real v) rest) jw) (cdiv (cmul (cmul (real b) (real length)) e) jw))
          (cdiv (cmul (real b) rest) (real (mul w w))))

  -- The loop over the segments.
  unfoldable pub sum_segments :
      ℕ → Float → Complex → List Float → List Float → Result Raised Complex
  sum_segments n w total (t ∷ t' ∷ ts) (v ∷ v' ∷ vs) =
      let length = sub t' t in
      let rest = sum_segments n w total (t' ∷ ts) (v' ∷ vs) in
      let more = sum_segments n w (cadd total (segment n w t v length v')) (t' ∷ ts) (v' ∷ vs) in
      if lt length (zero_f X) then err backwards else if eq length (zero_f X) then rest else more
  sum_segments n w total _ _ = ok total

  -- `n` is not negative, as at every call.
  unfoldable pub piecewise_linear_series :
      List Float → List Float → Float → ℕ → Result Raised Complex
  piecewise_linear_series times values period_s n = do
    guard (length times == length values) lengths_differ
    guard (not (ltb (length times) 2)) too_few_points
    guard (not (le period_s (zero_f X))) bad_period
    let held = lt (last_or (zero_f X) times) period_s
    let pts_t = times ++ (if held then period_s ∷ [] else [])
    let pts_v = values ++ (if held then last_or (zero_f X) values ∷ [] else [])
    number ← or_raise (whole (pos n)) overflow
    total ← sum_segments n (div (mul (mul two pi) number) period_s) (real (zero_f X)) pts_t pts_v
    ok (cdiv total (real period_s))

  unfoldable pub corner_frequencies : Trapezoid → Result Raised (Float × Float)
  corner_frequencies t = do
    validate t
    let edge = if lt t.fall_s t.rise_s then t.fall_s else t.rise_s
    ok (div (lit 1 0) (mul pi t.pulse_width_s), div (lit 1 0) (mul pi edge))

  unfoldable pub envelope_v : Trapezoid → Float → Result Raised Float
  envelope_v t f = do
    validate t
    guard (not (le f (zero_f X))) below_dc
    (f1, f2) ← corner_frequencies t
    let flat = mul (div (mul (mul two (abs t.amplitude_v)) t.pulse_width_s) t.period_s) rms_per_peak
    ok (
        if le f f1
        then flat
        else if le f f2
        then mul flat (div f1 f)
        else mul (mul flat (div f1 f2)) (pow (div f2 f) two))

  unfoldable pub reweight : Complex → Float → Complex → Complex → Result Raised Complex
  reweight v_source source_impedance_ohm v_port i_port = do
    guard (not (ceq i_port (real (zero_f X)))) no_current
    let denom = cadd (real source_impedance_ohm) (cdiv v_port i_port)
    guard (not (ceq denom (real (zero_f X)))) impedance_cancels
    ok (cdiv (cdiv v_source denom) i_port)
