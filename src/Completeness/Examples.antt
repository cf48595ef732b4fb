-- ===== src/Completeness/Examples.antt =====
-- A complete input of compliance/completeness.py, and one with a connector that nobody declared.
use emi_analyzer.Base.{ℕ, true, false, ◌&&◌, some, [], ◌∷◌, ◌≡◌, ◌↔◌, refl, ltb, leb, codes}
use emi_analyzer.Base.Sorting.{text_le, sorted, sorted_set}
use emi_analyzer.Completeness.Comparisons.{Floats}
use emi_analyzer.Completeness.{
  cable, cables_tab, bare, Inputs, check, complete, driver_gaps, connector_gaps, band_gaps,
  harmonic_gaps, power_gaps,
}
use emi_analyzer.Completeness.Ready.{IsReady}
use emi_analyzer.Completeness.Exact.{complete_iff}

-- Megahertz and metres as whole numbers.
abbrev whole : Floats
whole = record {
  Float = ℕ;
  less = ltb;
  in_range = λ lo f hi. leb lo f && leb f hi;
  is_zero = λ n. leb n 0;
  differ = λ a b. ltb a b;
  stretch_up = λ n. n;
  stretch_down = λ n. n;
}

abbrev full : Inputs whole
full = record {
  drivers = some (codes "CLK") ∷ [];
  source_nets = codes "CLK" ∷ [];
  connectors = codes "J1" ∷ [];
  cable_assignments = (codes "J1", bare (codes "usb")) ∷ [];
  modelled_cables = (codes "J1", record { cable_id = some (codes "usb"); length_m = some 2 }) ∷ [];
  excited_ports = codes "P1" ∷ [];
  far_field_ports = codes "P1" ∷ [];
  covered = (codes "P1", (30, 1000)) ∷ [];
  required_band = some (30, 1000);
  undriven_harmonics = 2000 ∷ [];
  enclosure = codes "plastic";
  power = codes "dc";
  power_entry_found = false;
  problems = [];
  has_solve = true;
}

abbrev undeclared : Inputs whole
undeclared = record full { connectors = codes "J2" ∷ codes "J1" ∷ [] }

program : Unit {0}
unfolding check driver_gaps connector_gaps band_gaps harmonic_gaps power_gaps sorted sorted_set
    text_le complete
program = tt

check-full : complete whole (check whole full) ≡ true
unfolding program
check-full = refl

check-undeclared :
    check whole undeclared ≡ record { key = cable (codes "J2"); fixed_on = cables_tab } ∷ []
unfolding program
check-undeclared = refl

complete_iff_example : (complete whole (check whole full) ≡ true) ↔ IsReady whole full
complete_iff_example = complete_iff whole full
