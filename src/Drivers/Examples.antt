-- ===== src/Drivers/Examples.antt =====
-- A spectrum driver with two points, read and resolved.
use emi_analyzer.Base.{
  ℕ, true, none, some, [], ◌∷◌, ◌≡◌, ◌↔◌, refl, length, codes, strip, strip_start, strip_end,
  is_space,
}
use emi_analyzer.Base.Results.{ok, map_results}
use emi_analyzer.Base.Json.{pos, Json, str, obj, arr, nil, cons, end, field}
use emi_analyzer.Base.Small.{small, small-IsOrdered}
use emi_analyzer.Drivers.Document
use emi_analyzer.Drivers.Document.{
  Driver, points, spectrum, datasheet, signal, parse, read_spectrum, read_point, read_values,
  read_value, read_optional, sourced, source_impedance_ohm, weakest_source, sigma_db, source_sigma,
}
use emi_analyzer.Drivers.Document.Sound.{IsBody, parse-IsBody}
use emi_analyzer.Drivers.Document.Weakest.{IsOneOf, Below, weakest_source-Below}
use emi_analyzer.Drivers.Resolve.{
  Resolved, resolve, levels_at, interpolate_db, dbuv_to_volts, is_complete, driven_count,
  not_covered,
}
use emi_analyzer.Drivers.Spectrum.{reweight}
use emi_analyzer.Drivers.Resolve.{on_null}
use emi_analyzer.Drivers.Apply.{
  PortSpectrum, Applied, port_at, reference_offset_db, offset_at, offsets_from, apply_driver,
}
use emi_analyzer.Drivers.Apply.Complete.{IsApplied, apply_driver-IsApplied}
use emi_analyzer.Drivers.Resolve.Complete.{resolve-is_complete}
use emi_analyzer.Drivers.Resolve.Covers.{Outcome, resolve-spectrum}

abbrev point : ℕ → ℕ → Json ℕ
point f level = obj (
    field (codes "frequency_hz") (Json.float f) (field (codes "level_dbuv") (Json.float level) end))

abbrev impedance : Json ℕ
impedance = obj (
    field (codes "value") (Json.int (pos 50))
      (field (codes "source") (str (codes "datasheet")) end))

abbrev document : Json ℕ
document = obj (
    field (codes "format") (str (codes "emi-driver")) (
      field (codes "version") (Json.int (pos 1)) (
        field (codes "name") (str (codes " clock ")) (
          field (codes "kind") (str (codes "spectrum")) (
            field (codes "spectrum")
              (obj (
                field (codes "points") (arr (cons (point 10 40) (cons (point 20 30) nil)))
                  (field (codes "source_impedance_ohm") impedance end)))
              end)))))

abbrev clock : Driver small
clock = record {
  name = codes "clock";
  kind = spectrum;
  role = signal;
  net = none;
  values =
      (codes "source_impedance_ohm", record { value = 50; source = datasheet; detail = none }) ∷ [];
  payload = points ((10, 40) ∷ (20, 30) ∷ []) none;
}

read_clock : parse small document none ≡ ok clock
unfolding parse read_spectrum read_point read_values read_value read_optional sourced map_results
    strip strip_start strip_end is_space
read_clock = refl

abbrev answer : Resolved small
answer = record {
  frequencies_hz = 15 ∷ 25 ∷ [];
  volts = some 0 ∷ none ∷ [];
  undriven = (25, not_covered) ∷ [];
  magnitude_only = true;
  scale_v = 0;
}

clock_resolved : resolve small clock (15 ∷ 25 ∷ []) ≡ ok answer
unfolding resolve levels_at interpolate_db dbuv_to_volts
clock_resolved = refl

parse-IsBody_example :
    ((z : ℕ) × (source_impedance_ohm small clock ≡ ok z))
    × IsBody small spectrum clock.values clock.payload
parse-IsBody_example = parse-IsBody small document none clock read_clock

weakest_source-Below_example :
    (s : Document.Sourced small) × (weakest_source small clock ≡ some s.source)
    × (sigma_db small clock ≡ some (source_sigma s.source))
    × IsOneOf small s clock.values
    × Below small s clock.values
weakest_source-Below_example = weakest_source-Below small document none clock read_clock

resolve-is_complete_example :
    (answer.frequencies_hz ≡ 15 ∷ 25 ∷ [])
    × (length answer.volts ≡ 2)
    × ((is_complete small answer ≡ true) ↔ (driven_count small answer.volts ≡ 2))
resolve-is_complete_example = resolve-is_complete small clock (15 ∷ 25 ∷ []) answer clock_resolved

resolve-spectrum_example :
    Outcome small (10, 40) ((20, 30) ∷ []) (15 ∷ 25 ∷ []) (resolve small clock (15 ∷ 25 ∷ []))
resolve-spectrum_example =
    resolve-spectrum small small-IsOrdered document none clock (10, 40) ((20, 30) ∷ []) none
      (15 ∷ 25 ∷ []) read_clock refl refl refl refl

abbrev port : PortSpectrum small
port = (15, 4, 2) ∷ (25, 4, 2) ∷ []

abbrev applied : Applied small
applied = record {
  frequencies_hz = 15 ∷ 25 ∷ [];
  offset_db = none ∷ none ∷ [];
  undriven = (25, not_covered) ∷ (15, on_null) ∷ [];
}

offsets_of_clock : apply_driver small clock port 1 none none ≡ ok applied
unfolding apply_driver offsets_from offset_at port_at reference_offset_db reweight resolve levels_at
    interpolate_db dbuv_to_volts
offsets_of_clock = refl

apply_driver-IsApplied_example : IsApplied small (15 ∷ 25 ∷ []) applied
apply_driver-IsApplied_example =
    apply_driver-IsApplied small clock port 1 none applied offsets_of_clock
