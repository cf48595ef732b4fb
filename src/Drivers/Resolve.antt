-- ===== src/Drivers/Resolve.antt =====
-- drivers/resolve.py: the voltage of a driver at each requested frequency. A reason's text is not
-- modelled.
pub mod Complete
pub mod Covers
use emi_analyzer.Base.{
  ℕ, zero, suc, ◌+◌, ◌-◌, ◌*◌, ◌/◌, ◌%◌, Bool, true, false, not, ◌||◌, ◌&&◌, Option, none, some,
  List, [], ◌∷◌, ◌++◌, length, take, any, ltb, leb, min, ◌==◌, if◌then◌else◌, Text, codes,
}
use emi_analyzer.Base.Results.{Result, ok, err, ◌>>=◌, ◌>>◌, guard, or_raise, map_results}
use emi_analyzer.Base.Json.{ℤ, pos, negsuc, Floats, zero_f}
use emi_analyzer.Base.Arithmetic.{log10_ratio, divide_or}
use emi_analyzer.Drivers.Spectrum.{
  Raised, no_frequency, bad_frequency, few_samples, outside_spectrum, no_key, overflow, value_error,
  zero_division, missing, Trapezoid, validate, breakpoints, piecewise_linear_series, envelope_v,
  rms_per_peak, two, real,
}
use emi_analyzer.Drivers.Document.{
  Kind, trapezoid, waveform, spectrum, Sourced, Payload, empty, samples, points, Driver, value_of,
  find_value, trapezoid_of,
}

-- Why a frequency is not driven.
pub data Why : Type 0 where
  not_harmonic above_bandwidth not_covered : Why
  on_null not_weighted : Why

module _ (X : Floats) where
  open X use {
    Float, lt, le, eq, lit, whole, abs, add, sub, mul, div, ten_to, round, floor, Complex, complex,
    cmul, cabs,
  }

  -- `undriven`, a dictionary by frequency
  abbrev pub Undriven : Type 0
  Undriven = List (Float × Why)

  abbrev pub put : Float → Why → Undriven → Undriven
  put f why [] = (f, why) ∷ []
  put f why ((g, w) ∷ more) = if eq g f then (g, why) ∷ more else (g, w) ∷ put f why more

  pub record Resolved : Type 0 where
    pub frequencies_hz : List Float
    pub volts : List (Option Complex)
    pub undriven : Undriven
    pub magnitude_only : Bool
    pub scale_v : Float

  unfoldable pub driven_count : List (Option Complex) → ℕ
  driven_count [] = 0
  driven_count (none ∷ vs) = driven_count vs
  driven_count (some v ∷ vs) = suc (driven_count vs)

  abbrev pub is_complete : Resolved → Bool
  is_complete r = elim r.undriven [ [] ↦ true | _ ∷ _ ↦ false ]

  abbrev pub tolerance : Float
  tolerance = div (lit 100 0) (lit 1000000 0)

  -- `_harmonic_index`, from the rounded quotient on
  abbrev pub close_to : Float → ℤ → Result Raised (Option ℕ)
  close_to exact (negsuc n) = ok none
  close_to exact (pos zero) = ok none
  close_to exact (pos (suc n)) = do
    number ← or_raise (whole (pos (suc n))) overflow
    ok (if lt tolerance (div (abs (sub exact number)) number) then none else some (suc n))

  unfoldable pub harmonic_index : Float → Float → Result Raised (Option ℕ)
  harmonic_index f period_s = close_to (mul f period_s) (round (mul f period_s))

  abbrev pub rms : Complex → Complex
  rms c = cmul (real X (mul (two X) (rms_per_peak X))) c

  abbrev pub add_first {ℓ} : {A : Type ℓ} → A → List A × Undriven → List A × Undriven
  add_first a (l, u) = (a ∷ l, u)

  -- `_resolve_lines`: the loop over the frequencies. `coefficient` is the series of the waveform at hand.
  abbrev pub line_at :
      (ℕ → Result Raised Complex)
      → Float
      → Undriven
      → Option ℕ
      → Result Raised (Option Complex × Undriven)
  line_at coefficient f u none = ok (none, put f not_harmonic u)
  line_at coefficient f u (some n) = do c ← coefficient n; ok (some (rms c), u)

  unfoldable pub lines_from :
      (ℕ → Result Raised Complex)
      → Float
      → List Float
      → Undriven
      → Result Raised (List (Option Complex) × Undriven)
  lines_from coefficient period_s [] u = ok ([], u)
  lines_from coefficient period_s (f ∷ fs) u = do
    n ← harmonic_index f period_s
    (v, u') ← line_at coefficient f u n
    (vs, u'') ← lines_from coefficient period_s fs u'
    ok (v ∷ vs, u'')

  unfoldable pub resolve_lines :
      List Float
      → List Float
      → Float
      → List Float
      → Result Raised (List (Option Complex) × Undriven)
  unfolding lines_from
  resolve_lines times values period_s fs =
      lines_from (piecewise_linear_series X times values period_s) period_s fs []

  -- `max(values)` and `min(values)`: the first of the greatest, and of the least
  abbrev pub max_from : Float → List Float → Float
  max_from best [] = best
  max_from best (x ∷ xs) = max_from (if lt best x then x else best) xs

  abbrev pub min_from : Float → List Float → Float
  min_from best [] = best
  min_from best (x ∷ xs) = min_from (if lt x best then x else best) xs

  -- `max(values) - min(values)`; a parsed waveform has samples.
  abbrev pub swing : List Float → Result Raised Float
  swing [] = err few_samples
  swing (x ∷ xs) = ok (sub (max_from x xs) (min_from x xs))

  abbrev pub range : ℕ → ℕ → List ℕ
  range start zero = []
  range start (suc n) = start ∷ range (suc start) n

  -- `[k * interval for k in range(take)]`
  unfoldable pub sample_times : Float → ℕ → Result Raised (List Float)
  sample_times interval n =
      map_results (λ k. do number ← or_raise (whole (pos k)) overflow; ok (mul number interval))
        (range 0 n)

  abbrev pub keep_valid : Trapezoid X → Result {0} Raised (Unit {0}) → Option (Trapezoid X)
  keep_valid t (ok u) = some t
  keep_valid t (err e) = none

  -- The trapezoid that continues a capture above its bandwidth.
  unfoldable pub envelope_trap : Float → Float → Option (Sourced X) → Option (Trapezoid X)
  envelope_trap amplitude period none = none
  envelope_trap amplitude period (some rise) =
      let t : Trapezoid X = record {
        amplitude_v = amplitude;
        period_s = period;
        pulse_width_s = div period (two X);
        rise_s = rise.value;
        fall_s = rise.value;
      } in
      if lt (zero_f X) amplitude && lt (zero_f X) rise.value
      then keep_valid t (validate X t)
      else none

  -- The first loop above the bandwidth.
  abbrev pub continue_at :
      Option (Trapezoid X)
      → Float
      → Undriven
      → Option Complex
      → Result Raised (Option Complex × Undriven)
  continue_at t f u none = ok (none, u)
  continue_at none f u (some v) = ok (none, put f above_bandwidth u)
  continue_at (some t) f u (some v) = do level ← envelope_v X t f; ok (some (real X level), u)

  unfoldable pub continue_lines :
      Float
      → Option (Trapezoid X)
      → List Float
      → List (Option Complex)
      → Undriven
      → Result Raised (List (Option Complex) × Undriven)
  continue_lines bandwidth t (f ∷ fs) (v ∷ vs) u = do
    (v', u') ← (if le f bandwidth then ok (v, u) else continue_at t f u v)
    (vs', u'') ← continue_lines bandwidth t fs vs u'
    ok (v' ∷ vs', u'')
  continue_lines bandwidth t _ vs u = ok (vs, u)

  abbrev pub ratio_or : Float → Float → Float → Float
  ratio_or best line bound =
      if lt (zero_f X) bound
      then (let r = div line bound in if lt best r then r else best)
      else best

  -- The loop of `join_scale`, downwards from `n`.
  unfoldable pub best_ratio :
      (ℕ → Result Raised Complex)
      → (ℕ → Result Raised Float)
      → ℕ
      → (lo stride n : ℕ) → Float
      → Result Raised Float
  best_ratio coefficient bound_at zero lo stride n best = ok best
  best_ratio coefficient bound_at (suc fuel) lo stride n best = elim (ltb n lo) [
    | true ↦ ok best
    | false ↦ do
      c ← coefficient n
      bound ← bound_at n
      let best' = ratio_or best (mul (mul (two X) (rms_per_peak X)) (cabs c)) bound
      if leb stride n
          then best_ratio coefficient bound_at fuel lo stride (n - stride) best'
          else ok best'
  ]

  -- An odd stride that samples at most `JOIN_HARMONICS` of `count` harmonics.
  abbrev pub stride_of : ℕ → ℕ
  stride_of count = let s = (count + 31) / 32 in if s % 2 == 0 then suc s else s

  abbrev pub positive_or_one : Float → Float
  positive_or_one best = if lt (zero_f X) best then best else lit 1 0

  -- `join_scale`, from the highest harmonic on
  abbrev pub join_from :
      (ℕ → Result Raised Complex) → (ℕ → Result Raised Float) → ℤ → Result Raised Float
  join_from coefficient bound_at (negsuc k) = ok (lit 1 0)
  join_from coefficient bound_at (pos zero) = ok (lit 1 0)
  join_from coefficient bound_at (pos (suc k)) = do
    let lo = (suc k + 1) / 2
    best ←
        best_ratio coefficient bound_at (suc k) lo (stride_of (suc k - lo + 1)) (suc k) (zero_f X)
    ok (positive_or_one best)

  unfoldable pub join_scale :
      List Float → List Float → Float → Float → Trapezoid X → Result Raised Float
  join_scale times values period_s bandwidth t =
      join_from (piecewise_linear_series X times values period_s)
        (λ n. do number ← or_raise (whole (pos n)) overflow; envelope_v X t (div number period_s))
        (floor (mul (mul bandwidth period_s) (add (lit 1 0) (lit 1 12))))

  abbrev pub scaled : Float → Option Complex → Option Complex
  scaled s none = none
  scaled s (some v) = some (cmul v (real X s))

  -- The second loop above the bandwidth.
  unfoldable pub scale_lines :
      Float → Float → List Float → List (Option Complex) → List (Option Complex)
  scale_lines bandwidth s (f ∷ fs) (v ∷ vs) =
      (if lt bandwidth f then scaled s v else v) ∷ scale_lines bandwidth s fs vs
  scale_lines bandwidth s _ vs = vs

  abbrev pub above_bandwidth_with :
      List Float
      → List Float
      → Float
      → List Float
      → List (Option Complex) × Undriven
      → Float
      → Option (Trapezoid X)
      → Result Raised (List (Option Complex) × Undriven)
  above_bandwidth_with times values period fs (vs, u) bandwidth none =
      continue_lines bandwidth none fs vs u
  above_bandwidth_with times values period fs (vs, u) bandwidth (some t) = do
    (vs', u') ← continue_lines bandwidth (some t) fs vs u
    s ← join_scale times values period bandwidth t
    ok (scale_lines bandwidth s fs vs', u')

  abbrev pub above_capture :
      Driver X
      → List Float
      → List Float
      → Float
      → List Float
      → List (Option Complex) × Undriven
      → Float
      → Option Float
      → Result Raised (List (Option Complex) × Undriven)
  above_capture d times values period fs lines amplitude none = ok lines
  above_capture d times values period fs lines amplitude (some bandwidth) =
      above_bandwidth_with times values period fs lines bandwidth
        (envelope_trap amplitude period (find_value X (codes "rise_s") d.values))

  -- The samples of one period: `min(n_period + 1, len(samples))`
  abbrev pub period_count : ℤ → ℕ → Result Raised ℕ
  period_count (pos (suc (suc n))) len = ok (min (suc (suc (suc n))) len)
  period_count _ len = err few_samples

  abbrev pub resolve_samples : Driver X → List Float → Payload X → Result Raised Resolved
  resolve_samples d fs (samples v interval bandwidth) = do
    period ← value_of X (codes "period_s") d.values
    n ← period_count (round (div period interval)) (length v)
    times ← sample_times interval n
    let values = take n v
    lines ← resolve_lines times values period fs
    amplitude ← swing values
    (vs, u) ← above_capture d times values period fs lines amplitude bandwidth
    ok (record {
      frequencies_hz = fs;
      volts = vs;
      undriven = u;
      magnitude_only = false;
      scale_v = amplitude;
    })
  resolve_samples d fs _ = err (no_key (codes "payload"))

  -- `_dbuv_to_volts`
  unfoldable pub dbuv_to_volts : Float → Result Raised Float
  dbuv_to_volts dbuv = do x ← or_raise (ten_to (div dbuv (lit 20 0))) overflow; ok (mul x (lit 1 6))

  abbrev pub between : Float × Float → Float × Float → Float → Result Raised Float
  between (f0, l0) (f1, l1) f =
      let sloped = do
        part ← log10_ratio X value_error zero_division f f0
        whole_step ← log10_ratio X value_error zero_division f1 f0
        along ← divide_or X zero_division part whole_step
        ok (add l0 (mul along (sub l1 l0)))
      in if eq f1 f0 then ok l0 else sloped

  -- `_interpolate_db`
  unfoldable pub interpolate_db : List (Float × Float) → Float → Result Raised Float
  interpolate_db [] f = err outside_spectrum
  interpolate_db (a ∷ []) f = err outside_spectrum
  interpolate_db (a ∷ b ∷ more) f =
      let rest = interpolate_db (b ∷ more) f in if le a.0 f && le f b.0 then between a b f else rest

  abbrev pub last_point : Float × Float → List (Float × Float) → Float × Float
  last_point p [] = p
  last_point p (q ∷ qs) = last_point q qs

  -- The loop of `_resolve_spectrum`
  unfoldable pub levels_at :
      Float
      → Float
      → List (Float × Float)
      → List Float
      → Undriven
      → Result Raised (List (Option Complex) × Undriven)
  levels_at lo hi ps [] u = ok ([], u)
  levels_at lo hi ps (f ∷ fs) u =
      let outside = do (vs, u') ← levels_at lo hi ps fs (put f not_covered u); ok (none ∷ vs, u')
      in let inside = do
        level ← interpolate_db ps f
        v ← dbuv_to_volts level
        (vs, u') ← levels_at lo hi ps fs u
        ok (some (real X v) ∷ vs, u')
        in if lt f lo || lt hi f then outside else inside

  -- `max(level for _f, level in points)`
  abbrev pub max_level : Float → List (Float × Float) → Float
  max_level best [] = best
  max_level best (p ∷ ps) = max_level (if lt best p.1 then p.1 else best) ps

  abbrev pub resolve_points : List Float → Payload X → Result Raised Resolved
  resolve_points fs (points (p ∷ ps) rbw) = do
    (vs, u) ← levels_at p.0 (last_point p ps).0 (p ∷ ps) fs []
    scale ← dbuv_to_volts (max_level p.1 ps)
    ok (record {
      frequencies_hz = fs;
      volts = vs;
      undriven = u;
      magnitude_only = true;
      scale_v = scale;
    })
  resolve_points fs _ = err (no_key (codes "payload"))

  abbrev pub resolve_trapezoid : Driver X → List Float → Result Raised Resolved
  resolve_trapezoid d fs = do
    t ← trapezoid_of X d
    (times, values) ← breakpoints X t
    (vs, u) ← resolve_lines times values t.period_s fs
    ok (record {
      frequencies_hz = fs;
      volts = vs;
      undriven = u;
      magnitude_only = false;
      scale_v = abs t.amplitude_v;
    })

  abbrev pub resolve_kind : Kind → Driver X → List Float → Result Raised Resolved
  resolve_kind trapezoid d fs = resolve_trapezoid d fs
  resolve_kind waveform d fs = resolve_samples d fs d.payload
  resolve_kind spectrum d fs = resolve_points fs d.payload

  abbrev pub is_nil : List Float → Bool
  is_nil [] = true
  is_nil (f ∷ fs) = false

  -- `resolve`
  unfoldable pub resolve : Driver X → List Float → Result Raised Resolved
  resolve d fs = do
    guard (not (is_nil fs)) no_frequency
    guard (not (any (λ f. le f (zero_f X)) fs)) bad_frequency
    resolve_kind d.kind d fs
