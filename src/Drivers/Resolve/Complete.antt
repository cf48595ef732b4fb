-- ===== src/Drivers/Resolve/Complete.antt =====
-- `undriven` of drivers/resolve.py names a frequency exactly where one has no voltage.
use emi_analyzer.Base.{
  ℕ, suc, ◌≤◌, Bool, true, false, not, ◌||◌, ◌&&◌, Option, none, some, List, [], ◌∷◌, ◌≡◌, ◌↔◌,
  refl, sym, ap, ◌∙◌, length, take, any, codes, Bool-cases, inl, inr, arith,
}
use emi_analyzer.Base.Results.{Result, ok, guard, Ensures, Ensures-bind, Ensures-eq-ok, Ensures-imp}
use emi_analyzer.Base.Json.{Floats, zero_f}
use emi_analyzer.Drivers.Spectrum.{
  Raised, no_frequency, bad_frequency, Trapezoid, breakpoints, piecewise_linear_series, envelope_v,
  real,
}
use emi_analyzer.Drivers.Document.{
  Kind, trapezoid, waveform, spectrum, Payload, empty, samples, points, Driver, value_of,
  trapezoid_of,
}
use emi_analyzer.Drivers.Resolve.{
  not_harmonic, above_bandwidth, not_covered, Undriven, put, Resolved, driven_count, is_complete,
  harmonic_index, line_at, lines_from, resolve_lines, swing, sample_times, continue_at,
  continue_lines, join_scale, scale_lines, above_bandwidth_with, above_capture, period_count,
  resolve_samples, dbuv_to_volts, interpolate_db, last_point, max_level, levels_at, resolve_points,
  resolve_kind, is_nil, resolve,
}

module _ (X : Floats) where
  open X use {Float, le, lt, Complex, div, round}

  abbrev pub nothing : Undriven X → Bool
  nothing [] = true
  nothing (w ∷ ws) = false

  abbrev pub all_driven : List (Option Complex) → Bool
  all_driven [] = true
  all_driven (none ∷ vs) = false
  all_driven (some v ∷ vs) = all_driven vs

  pub nothing-put : (f : Float) (w : _) (u : Undriven X) → nothing (put X f w u) ≡ false
  nothing-put f w [] = refl
  nothing-put f w ((g, w') ∷ u) = ground arith

  -- What a loop over `fs` that starts with `u` adds.
  abbrev pub Agrees : ℕ → Undriven X → List (Option Complex) × Undriven X → Type 0
  Agrees n u (vs, u') = (nothing u' ≡ (nothing u && all_driven vs)) × (length vs ≡ n)

  abbrev pub driven : Option Complex → Bool
  driven none = false
  driven (some v) = true

  -- What one round that starts with `u` adds.
  abbrev AgreesAt : Undriven X → Option Complex × Undriven X → Type 0
  AgreesAt u (v, u') = nothing u' ≡ (nothing u && driven v)

  Agrees-cons :
      (n : ℕ) (u u' u'' : Undriven X) (v : Option Complex) (vs : List (Option Complex))
      → AgreesAt u (v, u')
      → Agrees n u' (vs, u'')
      → Agrees (suc n) u (v ∷ vs, u'')
  Agrees-cons n u u' u'' none vs h rest = ground (arith, rest)
  Agrees-cons n u u' u'' (some v) vs h rest = ground (arith, rest)

  line_at-AgreesAt :
      (coefficient : ℕ → Result Raised Complex) (f : Float) (u : Undriven X) (n : Option ℕ)
      → Ensures (AgreesAt u) (line_at X coefficient f u n)
  line_at-AgreesAt coefficient f u none = ground (arith, nothing-put f not_harmonic u)
  line_at-AgreesAt coefficient f u (some n) = Ensures-bind _ (coefficient n) _ (λ c _. ground arith)

  lines_from-Agrees :
      (coefficient : ℕ → Result Raised Complex) (period : Float) (fs : List Float) (u : Undriven X)
      → Ensures (Agrees (length fs) u) (lines_from X coefficient period fs u)
  unfolding lines_from
  lines_from-Agrees coefficient period [] u = ground arith
  lines_from-Agrees coefficient period (f ∷ fs) u =
      Ensures-bind _ (harmonic_index X f period) _ (λ n _.
        Ensures-bind _ (line_at X coefficient f u n) _ (λ (v, u') e.
          Ensures-bind _ (lines_from X coefficient period fs u') _ (λ (vs, u'') e'.
            Agrees-cons (length fs) u u' u'' v vs
              (Ensures-eq-ok _ (line_at X coefficient f u n) (line_at-AgreesAt coefficient f u n) e)
              (Ensures-eq-ok _ (lines_from X coefficient period fs u')
                (lines_from-Agrees coefficient period fs u') e'))))

  levels_at-Agrees :
      (lo hi : Float) (ps : List (Float × Float)) (fs : List Float) (u : Undriven X)
      → Ensures (Agrees (length fs) u) (levels_at X lo hi ps fs u)
  unfolding levels_at
  levels_at-Agrees lo hi ps [] u = ground arith
  levels_at-Agrees lo hi ps (f ∷ fs) u = elim (Bool-cases (lt f lo || lt hi f)) [
    | inl outside ↦ rw outside (
        Ensures-bind _ (levels_at X lo hi ps fs (put X f not_covered u)) _ (λ (vs, u') e.
          Agrees-cons (length fs) u (put X f not_covered u) u' none vs
            (ground (arith, nothing-put f not_covered u))
            (Ensures-eq-ok _ (levels_at X lo hi ps fs (put X f not_covered u))
              (levels_at-Agrees lo hi ps fs (put X f not_covered u)) e)))
    | inr inside ↦ rw inside (
        Ensures-bind _ (interpolate_db X ps f) _ (λ level _.
          Ensures-bind _ (dbuv_to_volts X level) _ (λ v _.
            Ensures-bind _ (levels_at X lo hi ps fs u) _ (λ (vs, u') e.
              Agrees-cons (length fs) u u u' (some (real X v)) vs (ground arith)
                (Ensures-eq-ok _ (levels_at X lo hi ps fs u) (levels_at-Agrees lo hi ps fs u) e)))))
  ]

  -- What the loop above the bandwidth drops is what it names.
  abbrev Drops : List (Option Complex) → Undriven X → List (Option Complex) × Undriven X → Type 0
  Drops vs u (vs', u') =
      (k : Bool) × (nothing u' ≡ (nothing u && k))
      × (all_driven vs' ≡ (all_driven vs && k))
      × (length vs' ≡ length vs)

  abbrev DropsAt : Option Complex → Undriven X → Option Complex × Undriven X → Type 0
  DropsAt v u (v', u') =
      (k : Bool) × (nothing u' ≡ (nothing u && k)) × (driven v' ≡ (driven v && k))

  continue_at-DropsAt :
      (t : Option (Trapezoid X)) (f : Float) (u : Undriven X) (v : Option Complex)
      → Ensures (DropsAt v u) (continue_at X t f u v)
  continue_at-DropsAt t f u none = (true, ground arith, refl)
  continue_at-DropsAt none f u (some v) =
      (false, ground (arith, nothing-put f above_bandwidth u), refl)
  continue_at-DropsAt (some t) f u (some v) =
      Ensures-bind _ (envelope_v X t f) _ (λ level _. (true, ground arith, refl))

  all_driven-cons :
      (v : Option Complex) (vs : List (Option Complex))
      → all_driven (v ∷ vs) ≡ (driven v && all_driven vs)
  all_driven-cons none vs = refl
  all_driven-cons (some v) vs = refl

  Drops-cons :
      (v v' : Option Complex) (vs vs' : List (Option Complex)) (u u' u'' : Undriven X)
      → DropsAt v u (v', u')
      → Drops vs u' (vs', u'')
      → Drops (v ∷ vs) u (v' ∷ vs', u'')
  Drops-cons v v' vs vs' u u' u'' (k, named, dropped) (l, named', dropped', same) = (
    k && l,
    ground (arith, named, named'),
    ground (arith, dropped, dropped', all_driven-cons v vs, all_driven-cons v' vs'),
    ground (arith, same),
  )

  continue_lines-Drops :
      (bandwidth : Float) (t : Option (Trapezoid X)) (fs : List Float) (vs : List (Option Complex))
      (u : Undriven X)
      → Ensures (Drops vs u) (continue_lines X bandwidth t fs vs u)
  unfolding continue_lines
  continue_lines-Drops bandwidth t [] vs u = (true, ground arith, ground arith, refl)
  continue_lines-Drops bandwidth t (f ∷ fs) [] u = (true, ground arith, ground arith, refl)
  continue_lines-Drops bandwidth t (f ∷ fs) (v ∷ vs) u = elim (Bool-cases (le f bandwidth)) [
    | inl below ↦ rw below (
        Ensures-bind _ (continue_lines X bandwidth t fs vs u) _ (λ (vs', u') e.
          Drops-cons v v vs vs' u u u' (true, ground arith, ground arith)
            (Ensures-eq-ok _ (continue_lines X bandwidth t fs vs u)
              (continue_lines-Drops bandwidth t fs vs u) e)))
    | inr above ↦ rw above (
        Ensures-bind _ (continue_at X t f u v) _ (λ (v', u') e.
          Ensures-bind _ (continue_lines X bandwidth t fs vs u') _ (λ (vs', u'') e'.
            Drops-cons v v' vs vs' u u' u''
              (Ensures-eq-ok _ (continue_at X t f u v) (continue_at-DropsAt t f u v) e)
              (Ensures-eq-ok _ (continue_lines X bandwidth t fs vs u')
                (continue_lines-Drops bandwidth t fs vs u') e'))))
  ]

  scale_lines_lem :
      (bandwidth s : Float) (fs : List Float) (vs : List (Option Complex))
      → (all_driven (scale_lines X bandwidth s fs vs) ≡ all_driven vs)
        × (length (scale_lines X bandwidth s fs vs) ≡ length vs)
  unfolding scale_lines
  scale_lines_lem bandwidth s [] vs = (refl, refl)
  scale_lines_lem bandwidth s (f ∷ fs) [] = (refl, refl)
  scale_lines_lem bandwidth s (f ∷ fs) (none ∷ vs) =
      let (all, same) = scale_lines_lem bandwidth s fs vs in (ground arith, ground (arith, same))
  scale_lines_lem bandwidth s (f ∷ fs) (some v ∷ vs) =
      let (all, same) = scale_lines_lem bandwidth s fs vs in
      (ground (arith, all), ground (arith, same))

  Agrees-Drops :
      (n : ℕ) (vs : List (Option Complex)) (u : Undriven X) (r : List (Option Complex) × Undriven X)
      → Agrees n [] (vs, u)
      → Drops vs u r
      → Agrees n [] r
  Agrees-Drops n vs u r (all, count) (k, named, dropped, same) =
      (ground (arith, all, named, dropped), ground (arith, count, same))

  lines-Agrees :
      (times values : List Float) (period : Float) (fs : List Float)
      → Ensures (Agrees (length fs) []) (resolve_lines X times values period fs)
  unfolding resolve_lines
  lines-Agrees times values period fs =
      lines_from-Agrees (piecewise_linear_series X times values period) period fs []

  above_bandwidth-Agrees :
      (times values : List Float) (period : Float) (fs : List Float)
      (l : List (Option Complex) × Undriven X) (bandwidth : Float) (t : Option (Trapezoid X))
      → Agrees (length fs) [] l
      → Ensures
          (Agrees (length fs) [])
          (above_bandwidth_with X times values period fs l bandwidth t)
  above_bandwidth-Agrees times values period fs (vs, u) bandwidth none h =
      Ensures-imp _ _ (continue_lines X bandwidth none fs vs u)
        (λ r d. Agrees-Drops (length fs) vs u r h d) (continue_lines-Drops bandwidth none fs vs u)
  above_bandwidth-Agrees times values period fs (vs, u) bandwidth (some t) h =
      Ensures-bind _ (continue_lines X bandwidth (some t) fs vs u) _ (λ (vs', u') e.
        Ensures-bind _ (join_scale X times values period bandwidth t) _ (λ s _.
          let d =
            Ensures-eq-ok _ (continue_lines X bandwidth (some t) fs vs u)
              (continue_lines-Drops bandwidth (some t) fs vs u) e in
          let (all, count) = Agrees-Drops (length fs) vs u (vs', u') h d in
          let (all', count') = scale_lines_lem bandwidth s fs vs' in
          (ground (arith, all, all'), ground (arith, count, count'))))

  above_capture-Agrees :
      (d : Driver X) (times values : List Float) (period : Float) (fs : List Float)
      (l : List (Option Complex) × Undriven X) (amplitude : Float) (bandwidth : Option Float)
      → Agrees (length fs) [] l
      → Ensures
          (Agrees (length fs) [])
          (above_capture X d times values period fs l amplitude bandwidth)
  above_capture-Agrees d times values period fs l amplitude none h = h
  above_capture-Agrees d times values period fs l amplitude (some bandwidth) h =
      above_bandwidth-Agrees times values period fs l bandwidth _ h

  -- The result at hand for the frequencies.
  abbrev pub Fits : List Float → Resolved X → Type 0
  Fits fs r = (r.frequencies_hz ≡ fs) × Agrees (length fs) [] (r.volts, r.undriven)

  resolve_samples-Fits :
      (d : Driver X) (fs : List Float) (p : Payload X)
      → Ensures (Fits fs) (resolve_samples X d fs p)
  resolve_samples-Fits d fs empty = tt
  resolve_samples-Fits d fs (points ps r) = tt
  resolve_samples-Fits d fs (samples v i b) =
      Ensures-bind _ (value_of X (codes "period_s") d.values) _ (λ period _.
        Ensures-bind _ (period_count X (round (div period i)) (length v)) _ (λ n _.
          Ensures-bind _ (sample_times X i n) _ (λ times _.
            Ensures-bind _ (resolve_lines X times (take n v) period fs) _ (λ l el.
              Ensures-bind _ (swing X (take n v)) _ (λ amplitude _.
                Ensures-bind _ (above_capture X d times (take n v) period fs l amplitude b) _
                  (λ r e.
                    let h =
                      Ensures-eq-ok _ (resolve_lines X times (take n v) period fs)
                        (lines-Agrees times (take n v) period fs) el in
                    (
                      refl,
                      Ensures-eq-ok _ (above_capture X d times (take n v) period fs l amplitude b)
                          (above_capture-Agrees d times (take n v) period fs l amplitude b h) e,
                    )))))))

  resolve_points-Fits :
      (fs : List Float) (p : Payload X) → Ensures (Fits fs) (resolve_points X fs p)
  resolve_points-Fits fs empty = tt
  resolve_points-Fits fs (samples v i b) = tt
  resolve_points-Fits fs (points [] r) = tt
  resolve_points-Fits fs (points (p ∷ ps) r) =
      Ensures-bind _ (levels_at X p.0 (last_point X p ps).0 (p ∷ ps) fs []) _ (λ l e.
        Ensures-bind _ (dbuv_to_volts X (max_level X p.1 ps)) _ (λ scale _. (
          refl,
          Ensures-eq-ok _ (levels_at X p.0 (last_point X p ps).0 (p ∷ ps) fs [])
              (levels_at-Agrees p.0 (last_point X p ps).0 (p ∷ ps) fs []) e,
        )))

  resolve_kind-Fits :
      (k : Kind) (d : Driver X) (fs : List Float) → Ensures (Fits fs) (resolve_kind X k d fs)
  resolve_kind-Fits trapezoid d fs = Ensures-bind _ (trapezoid_of X d) _ (λ t _.
      Ensures-bind _ (breakpoints X t) _ (λ (times, values) _.
        Ensures-bind _ (resolve_lines X times values t.period_s fs) _ (λ l e. (
          refl,
          Ensures-eq-ok _ (resolve_lines X times values t.period_s fs)
              (lines-Agrees times values t.period_s fs) e,
        ))))
  resolve_kind-Fits waveform d fs = resolve_samples-Fits d fs d.payload
  resolve_kind-Fits spectrum d fs = resolve_points-Fits fs d.payload

  driven_count-le : (vs : List (Option Complex)) → driven_count X vs ≤ length vs
  unfolding driven_count
  driven_count-le [] = omega arith
  driven_count-le (none ∷ vs) = omega (arith, driven_count-le vs)
  driven_count-le (some v ∷ vs) = omega (arith, driven_count-le vs)

  driven_count-length :
      (vs : List (Option Complex)) → (all_driven vs ≡ true) ↔ (driven_count X vs ≡ length vs)
  unfolding driven_count
  driven_count-length [] = (λ _. refl, λ _. refl)
  driven_count-length (none ∷ vs) = (λ h. cc, λ h. absurd (omega (arith, driven_count-le vs, h)))
  driven_count-length (some v ∷ vs) =
      let (there, back) = driven_count-length vs in
      (λ h. ap suc (there h), λ h. back (omega (arith, h)))

  pub resolve-Fits : (d : Driver X) (fs : List Float) → Ensures (Fits fs) (resolve X d fs)
  unfolding resolve
  resolve-Fits d fs = Ensures-bind _ (guard (not (is_nil X fs)) no_frequency) _ (λ _ _.
      Ensures-bind _ (guard (not (any (λ f. le f (zero_f X)) fs)) bad_frequency) _
        (λ _ _. resolve_kind-Fits d.kind d fs))

  pub complete-nothing : (u : Undriven X) → nothing u ≡ elim u [ [] ↦ true | _ ∷ _ ↦ false ]
  complete-nothing [] = refl
  complete-nothing (w ∷ u) = refl

  -- For every driver and every kind: what `resolve` returns is about the frequencies that were asked for, with
  -- one entry for each, and it is complete, no frequency being named as undriven, exactly where each has a voltage.
  pub resolve-is_complete :
      (d : Driver X) (fs : List Float) (r : Resolved X)
      → resolve X d fs ≡ ok r
      → (r.frequencies_hz ≡ fs)
        × (length r.volts ≡ length fs)
        × ((is_complete X r ≡ true) ↔ (driven_count X r.volts ≡ length fs))
  resolve-is_complete d fs r e =
      let (asked, (all, count)) = Ensures-eq-ok (Fits fs) (resolve X d fs) (resolve-Fits d fs) e in
      let (there, back) = driven_count-length r.volts in
      (
        asked,
        count,
        (
          λ h. there (sym all ∙ complete-nothing r.undriven ∙ h) ∙ count,
          λ h. sym (complete-nothing r.undriven) ∙ all ∙ back (h ∙ sym count),
        ),
      )
