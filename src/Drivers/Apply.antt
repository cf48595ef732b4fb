-- ===== src/Drivers/Apply.antt =====
-- drivers/apply.py: the offset of each frequency that a driver gives to a finished solve. A port's spectrum is
-- one list, whose three columns `from_json` checks to have one length.
pub mod Complete
use emi_analyzer.Base.{
  Bool, true, false, not, ◌||◌, ◌&&◌, Option, none, some, List, [], ◌∷◌, map, if◌then◌else◌, codes,
}
use emi_analyzer.Base.Results.{Result, ok, err, ◌>>=◌, ◌>>◌, guard}
use emi_analyzer.Base.Json.{Floats, zero_f}
use emi_analyzer.Drivers.Spectrum.{
  Raised, no_frequency, not_requested, no_field, no_port_spectrum, reweight,
}
use emi_analyzer.Drivers.Document.{Driver, value_of}
use emi_analyzer.Drivers.Resolve.{Undriven, on_null, not_weighted, put, Resolved, is_nil, resolve}

module _ (X : Floats) where
  open X use {Float, lt, le, eq, lit, abs, log10, add, sub, mul, div, Complex, cabs}

  abbrev pub PortSpectrum : Type 0
  PortSpectrum = List (Float × Complex × Complex)

  abbrev pub is_at : Float → Float → Bool
  is_at frequency f =
      eq f frequency || le (abs (sub f frequency)) (div (mul frequency (lit 100 0)) (lit 1000000 0))

  -- `PortSpectrum.at`
  unfoldable pub port_at : PortSpectrum → Float → Result Raised (Complex × Complex)
  port_at [] frequency = err no_port_spectrum
  port_at ((f, v, i) ∷ more) frequency =
      let rest = port_at more frequency in if is_at frequency f then ok (v, i) else rest

  pub record Applied : Type 0 where
    pub frequencies_hz : List Float
    pub offset_db : List (Option Float)
    pub undriven : Undriven X

  abbrev pub is_applied : Applied → Bool
  is_applied a = elim a.undriven [ [] ↦ true | _ ∷ _ ↦ false ]

  -- `20.0 * math.log10(x)`
  abbrev pub decibels : Float → Float
  decibels x = mul (lit 20 0) (log10 x)

  unfoldable pub reference_offset_db : Float → Result Raised Float
  reference_offset_db magnitude = do
    guard (not (le magnitude (zero_f X))) no_field
    ok (decibels (div magnitude (lit 1 6)))

  -- The factor of a driven frequency.
  abbrev pub factor_at : Float → Float → Undriven X → Float → Option Float × Undriven X
  factor_at reference f u factor =
      if le factor (zero_f X)
      then (none, put X f on_null u)
      else (some (add reference (decibels factor)), u)

  abbrev pub weighted :
      Float → Float → Undriven X → Result Raised Complex → Option Float × Undriven X
  weighted reference f u (err e) = (none, put X f not_weighted u)
  weighted reference f u (ok c) = factor_at reference f u (cabs c)

  abbrev pub is_null : Float → Complex → Bool
  is_null scale v = lt (zero_f X) scale && lt (cabs v) (mul scale (lit 1 9))

  -- One round of the loop over the frequencies.
  unfoldable pub offset_at :
      PortSpectrum
      → Float
      → Float
      → Float
      → Float
      → Undriven X
      → Option Complex
      → Result Raised (Option Float × Undriven X)
  unfolding port_at
  offset_at port reference z_s scale f u none = ok (none, u)
  offset_at port reference z_s scale f u (some v) =
      if is_null scale v
      then ok (none, put X f on_null u)
      else port_at port f >>= λ (v_port, i_port).
          ok (weighted reference f u (reweight X v z_s v_port i_port))

  -- `volts[k]` is there for every frequency.
  unfoldable pub offsets_from :
      PortSpectrum
      → Float
      → Float
      → Float
      → List Float
      → List (Option Complex)
      → Undriven X
      → Result Raised (List (Option Float) × Undriven X)
  offsets_from port reference z_s scale (f ∷ fs) (v ∷ vs) u = do
    (o, u') ← offset_at port reference z_s scale f u v
    (os, u'') ← offsets_from port reference z_s scale fs vs u'
    ok (o ∷ os, u'')
  offsets_from port reference z_s scale _ _ u = ok ([], u)

  abbrev pub column : PortSpectrum → List Float
  column [] = []
  column ((f, v, i) ∷ more) = f ∷ column more

  -- The frequencies that are asked for.
  abbrev pub requested : PortSpectrum → Option (List Float) → List Float
  requested port none = column port
  requested port (some fs) = fs

  abbrev pub same : List Float → List Float → Bool
  same [] [] = true
  same (f ∷ fs) (g ∷ gs) = eq f g && same fs gs
  same _ _ = false

  -- A driver that is resolved here is resolved at the frequencies themselves.
  abbrev pub source_for : Driver X → List Float → Option (Resolved X) → Result Raised (Resolved X)
  source_for d fs none = resolve X d fs
  source_for d fs (some r) = do guard (same r.frequencies_hz fs) not_requested; ok r

  unfoldable pub apply_driver :
      Driver X
      → PortSpectrum
      → Float
      → Option (List Float)
      → Option (Resolved X)
      → Result Raised Applied
  unfolding offsets_from
  apply_driver d port magnitude frequencies resolved = do
    guard (not (is_nil X (requested port frequencies))) no_frequency
    source ← source_for d (requested port frequencies) resolved
    reference ← reference_offset_db magnitude
    z_s ← value_of X (codes "source_impedance_ohm") d.values
    (offsets, u) ←
        offsets_from port reference z_s source.scale_v (requested port frequencies) source.volts
          source.undriven
    ok (record { frequencies_hz = requested port frequencies; offset_db = offsets; undriven = u })
