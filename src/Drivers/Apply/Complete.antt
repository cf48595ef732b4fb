-- ===== src/Drivers/Apply/Complete.antt =====
-- `apply_driver` of drivers/apply.py names a frequency exactly where one has no offset.
use emi_analyzer.Base.{
  Bool, true, false, not, ◌&&◌, Option, none, some, List, [], ◌∷◌, ◌≡◌, refl, sym, ap, ◌∙◌, length,
  if◌then◌else◌, all, codes, arith,
}
use emi_analyzer.Base.Results.{
  Result, ok, err, ◌>>=◌, guard, Ensures, Ensures-bind, Ensures-eq-ok, Ensures-if,
}
use emi_analyzer.Base.Json.{Floats, zero_f}
use emi_analyzer.Drivers.Spectrum.{Raised, no_frequency, reweight}
use emi_analyzer.Drivers.Document.{Driver, value_of}
use emi_analyzer.Drivers.Resolve.{
  Undriven, Why, on_null, not_weighted, put, Resolved, is_nil, resolve,
}
use emi_analyzer.Drivers.Resolve.Complete.{
  nothing, all_driven, driven, nothing-put, complete-nothing, Fits, resolve-Fits,
}
use emi_analyzer.Drivers.Apply.{
  PortSpectrum, port_at, Applied, is_applied, decibels, reference_offset_db, weighted, is_null,
  offset_at, offsets_from, requested, apply_driver,
}

module _ (X : Floats) where
  open X use {Float, le, Complex, cabs, add}

  abbrev pub is_there : Option Float → Bool
  is_there none = false
  is_there (some x) = true

  -- Every frequency has an offset.
  abbrev pub all_offsets : List (Option Float) → Bool
  all_offsets [] = true
  all_offsets (o ∷ os) = is_there o && all_offsets os

  -- A round keeps the offset of a driven frequency or names it.
  abbrev Kept : Bool → Undriven X → Option Float × Undriven X → Type 0
  Kept d u (o, u') = (k : Bool) × (nothing X u' ≡ (nothing X u && k)) × (is_there o ≡ (d && k))

  Kept-put : (f : Float) (w : Why) (u : Undriven X) → Kept true u (none, put X f w u)
  Kept-put f w u = (false, ground (arith, nothing-put X f w u), refl)

  Kept-if :
      (b : Bool) (d : Bool) (u : Undriven X) (r s : Option Float × Undriven X)
      → Kept d u r
      → Kept d u s
      → Kept d u (if b then r else s)
  Kept-if true d u r s h k = h
  Kept-if false d u r s h k = k

  weighted-Kept :
      (reference f : Float) (u : Undriven X) (r : Result Raised Complex)
      → Kept true u (weighted X reference f u r)
  weighted-Kept reference f u (err e) = Kept-put f not_weighted u
  weighted-Kept reference f u (ok c) =
      Kept-if (le (cabs c) (zero_f X)) true u (none, put X f on_null u)
        (some (add reference (decibels X (cabs c))), u) (Kept-put f on_null u)
        (true, ground arith, refl)

  offset_at-Kept :
      (port : PortSpectrum X) (reference z_s scale f : Float) (u : Undriven X) (v : Option Complex)
      → Ensures (Kept (driven X v) u) (offset_at X port reference z_s scale f u v)
  unfolding offset_at
  offset_at-Kept port reference z_s scale f u none = (true, ground arith, refl)
  offset_at-Kept port reference z_s scale f u (some v) =
      Ensures-if (Kept true u) (is_null X scale v) (ok (none, put X f on_null u))
        (port_at X port f >>= λ (v_port, i_port).
          ok (weighted X reference f u (reweight X v z_s v_port i_port)))
        (Kept-put f on_null u)
        (Ensures-bind (Kept true u) (port_at X port f) _
          (λ (v_port, i_port) _. weighted-Kept reference f u (reweight X v z_s v_port i_port)))

  abbrev AllKept : List (Option Complex) → Undriven X → List (Option Float) × Undriven X → Type 0
  AllKept vs u (os, u') =
      (k : Bool) × (nothing X u' ≡ (nothing X u && k))
      × (all_offsets os ≡ (all_driven X vs && k))
      × (length os ≡ length vs)

  AllKept-cons :
      (v : Option Complex) (vs : List (Option Complex)) (o : Option Float)
      (os : List (Option Float)) (u u' u'' : Undriven X)
      → Kept (driven X v) u (o, u')
      → AllKept vs u' (os, u'')
      → AllKept (v ∷ vs) u (o ∷ os, u'')
  AllKept-cons none vs o os u u' u'' (k, named, there) (l, named', there', same) =
      (k && l, ground (arith, named, named'), ground (arith, there, there'), ground (arith, same))
  AllKept-cons (some v) vs o os u u' u'' (k, named, there) (l, named', there', same) =
      (k && l, ground (arith, named, named'), ground (arith, there, there'), ground (arith, same))

  offsets_from-AllKept :
      (port : PortSpectrum X) (reference z_s scale : Float) (fs : List Float)
      (vs : List (Option Complex)) (u : Undriven X)
      → length vs ≡ length fs
      → Ensures (AllKept vs u) (offsets_from X port reference z_s scale fs vs u)
  unfolding offsets_from
  offsets_from-AllKept port reference z_s scale [] [] u h = (true, ground arith, refl, refl)
  offsets_from-AllKept port reference z_s scale [] (v ∷ vs) u h = absurd (omega (arith, h))
  offsets_from-AllKept port reference z_s scale (f ∷ fs) [] u h = absurd (omega (arith, h))
  offsets_from-AllKept port reference z_s scale (f ∷ fs) (v ∷ vs) u h =
      Ensures-bind (AllKept (v ∷ vs) u) (offset_at X port reference z_s scale f u v) _ (λ (o, u') e.
        Ensures-bind (AllKept (v ∷ vs) u) (offsets_from X port reference z_s scale fs vs u') _
          (λ (os, u'') e'.
            AllKept-cons v vs o os u u' u''
              (Ensures-eq-ok _ (offset_at X port reference z_s scale f u v)
                (offset_at-Kept port reference z_s scale f u v) e)
              (Ensures-eq-ok _ (offsets_from X port reference z_s scale fs vs u')
                (offsets_from-AllKept port reference z_s scale fs vs u' (omega (arith, h))) e')))

  -- What is applied to the frequencies.
  pub record IsApplied (fs : List Float) (a : Applied X) : Type 0 where
    pub asked : a.frequencies_hz ≡ fs
    pub each : length a.offset_db ≡ length fs
    pub complete : is_applied X a ≡ all_offsets a.offset_db

  finish :
      (fs : List Float) (r : Resolved X) (os : List (Option Float)) (u : Undriven X)
      → Fits X fs r
      → AllKept r.volts r.undriven (os, u)
      → IsApplied fs (record { frequencies_hz = fs; offset_db = os; undriven = u })
  finish fs r os u (_, (all, count)) (k, named, there, same) = record {
    asked = refl;
    each = same ∙ count;
    complete = sym (complete-nothing X u) ∙ named ∙ ap (λ b. b && k) all ∙ sym there;
  }

  -- Where `apply_driver` resolves the driver itself, what it returns is about the frequencies that were asked
  -- for (those of the port where none were), with one entry for each, and it is complete, no frequency being
  -- named as undriven, exactly where each has an offset.
  pub apply_driver-IsApplied :
      (d : Driver X) (port : PortSpectrum X) (magnitude : Float) (frequencies : Option (List Float))
      (a : Applied X)
      → apply_driver X d port magnitude frequencies none ≡ ok a
      → IsApplied (requested X port frequencies) a
  unfolding apply_driver
  apply_driver-IsApplied d port magnitude frequencies a e =
      let fs = requested X port frequencies in
      Ensures-eq-ok (IsApplied fs) (apply_driver X d port magnitude frequencies none)
        (Ensures-bind (IsApplied fs) (guard (not (is_nil X fs)) no_frequency) _ (λ _ _.
          Ensures-bind (IsApplied fs) (resolve X d fs) _ (λ r er.
            let fits = Ensures-eq-ok (Fits X fs) (resolve X d fs) (resolve-Fits X d fs) er in
            Ensures-bind (IsApplied fs) (reference_offset_db X magnitude) _ (λ reference _.
              Ensures-bind (IsApplied fs) (value_of X (codes "source_impedance_ohm") d.values) _
                (λ z_s _.
                  Ensures-bind (IsApplied fs)
                    (offsets_from X port reference z_s r.scale_v fs r.volts r.undriven) _
                    (λ (os, u) eo. finish fs r os u fits (
                      Ensures-eq-ok _
                        (offsets_from X port reference z_s r.scale_v fs r.volts r.undriven)
                        (offsets_from-AllKept port reference z_s r.scale_v fs r.volts r.undriven
                          fits.1.1)
                        eo)))))))
        e
