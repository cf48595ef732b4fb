-- ===== src/Completeness.antt =====
-- worker/emi_worker/compliance/completeness.py: the gate before a margin. `check` gives the gaps in
-- order; a gap's message is not modelled, its key and its tab are.
pub mod Comparisons
pub mod Ready
pub mod Exact
mod Examples
use emi_analyzer.Completeness.Comparisons.{Floats}
use emi_analyzer.Base.{
  contains, ℕ, zero, suc, Bool, true, false, not, ◌||◌, ◌&&◌, Option, none, some, List, [], ◌∷◌,
  ◌++◌, length, ltb, if◌then◌else◌, Text, text_eq, codes,
}
use emi_analyzer.Base.Sorting.{sorted, text_le, sorted_set}

pub data Tab : Type 0 where
  drivers_tab cables_tab solve_tab product_tab : Tab

-- The keys of `c.add`, with what the code puts behind the colon.
pub data Key (F : Type 0) : Type 0 where
  solve no_driver sources highest_frequency metal_enclosure power power_entry : Key F
  problem driver_net cable cable_solve cable_mismatch far_field band : Text → Key F
  harmonic : F → Key F

pub record Gap (F : Type 0) : Type 0 where
  pub key : Key F
  pub fixed_on : Tab

-- A connector's declaration: a dictionary with `type` and `length_m`, or a bare type. A declaration
-- of None reads as a missing one.
pub data Declaration (F : Type 0) : Type 0 where
  fields : (type : Option Text) (length_m : Option F) → Declaration F
  bare : Text → Declaration F

pub record Modelled (F : Type 0) : Type 0 where
  pub cable_id : Option Text
  pub length_m : Option F

abbrev pub lookup {ℓ} : {V : Type ℓ} → Text → List (Text × V) → Option V
lookup k [] = none
lookup k ((j, v) ∷ m) = if text_eq j k then some v else lookup k m

abbrev pub is_empty : Text → Bool
is_empty [] = true
is_empty (c ∷ t) = false

abbrev pub is_nil {ℓ} : {A : Type ℓ} → List A → Bool
is_nil [] = true
is_nil (x ∷ xs) = false

module _ (X : Floats) where
  open X use {Float, less, in_range, is_zero, differ, stretch_up, stretch_down}

  -- The keyword arguments of `check`. A driver is its net, if it has one.
  pub record Inputs : Type 0 where
    pub drivers : List (Option Text)
    pub source_nets : List Text
    pub connectors : List Text
    pub cable_assignments : List (Text × Declaration Float)
    pub modelled_cables : List (Text × Modelled Float)
    pub excited_ports : List Text
    pub far_field_ports : List Text
    pub covered : List (Text × (Float × Float))
    pub required_band : Option (Float × Float)
    pub undriven_harmonics : List Float
    pub enclosure : Text
    pub power : Text
    pub power_entry_found : Bool
    pub problems : List Text
    pub has_solve : Bool

  abbrev pub Gaps : Type 0
  Gaps = List (Gap Float)

  abbrev pub gap : Key Float → Tab → Gaps
  gap k t = record { key = k; fixed_on = t } ∷ []

  abbrev pub for_each {ℓ} : {A : Type ℓ} → (A → Gaps) → List A → Gaps
  for_each f [] = []
  for_each f (x ∷ xs) = f x ++ for_each f xs

  -- `n for n in covered_nets if n`
  abbrev pub is_covered : List (Option Text) → Text → Bool
  is_covered [] net = false
  is_covered (none ∷ ds) net = is_covered ds net
  is_covered (some n ∷ ds) net = (not (is_empty n) && text_eq n net) || is_covered ds net

  -- `named - {…}`
  abbrev pub uncovered : List (Option Text) → List Text → List Text
  uncovered ds [] = []
  uncovered ds (n ∷ ns) = let rest = uncovered ds ns in if is_covered ds n then rest else n ∷ rest

  unfoldable pub driver_gaps : List (Option Text) → List Text → Gaps
  driver_gaps [] nets = gap no_driver drivers_tab
  driver_gaps (d ∷ ds) nets =
      for_each (λ net. gap (driver_net net) drivers_tab) (sorted_set (uncovered (d ∷ ds) nets))

  abbrev pub declared_type : Declaration Float → Option Text
  declared_type (fields t l) = t
  declared_type (bare t) = some t

  abbrev pub declared_length : Declaration Float → Option Float
  declared_length (fields t l) = l
  declared_length (bare t) = none

  abbrev pub other_cable : Text → Option Text → Bool
  other_cable t none = true
  other_cable t (some id) = not (text_eq t id)

  abbrev pub other_length : Option Float → Option Float → Bool
  other_length (some a) (some b) = not (is_zero a) && (not (is_zero b) && differ a b)
  other_length _ _ = false

  -- `declared in (None, "", "none")` are the first two cases of `named_gaps`.
  -- The connector's branches from `modelled` on, for a declaration that names a cable.
  abbrev pub declared_gaps : Text → Text → Option Float → Option (Modelled Float) → Gaps
  declared_gaps ref t len none = gap (cable_solve ref) solve_tab
  declared_gaps ref t len (some m) =
      if other_cable t m.cable_id
      then gap (cable_mismatch ref) solve_tab
      else if other_length len m.length_m
      then gap (cable_mismatch ref) solve_tab
      else []

  abbrev pub undeclared_gaps : Text → Option (Modelled Float) → Gaps
  undeclared_gaps ref none = gap (cable ref) cables_tab
  undeclared_gaps ref (some m) = []

  abbrev pub named_gaps : Text → Option Text → Option Float → Option (Modelled Float) → Gaps
  named_gaps ref none len m = []
  named_gaps ref (some t) len m =
      if is_empty t || text_eq t (codes "none") then [] else declared_gaps ref t len m

  -- The body of the loop over the connectors.
  unfoldable pub connector_gaps : Option (Declaration Float) → Option (Modelled Float) → Text → Gaps
  connector_gaps none m ref = undeclared_gaps ref m
  connector_gaps (some spec) m ref = named_gaps ref (declared_type spec) (declared_length spec) m

  abbrev pub port_gaps : List Text → Text → Gaps
  port_gaps recorded port = if contains recorded port then [] else gap (far_field port) solve_tab

  -- Solved from `c_lo` to `c_hi`, with a part per million of slack at both edges.
  abbrev pub is_uncovered : Float × Float → Float × Float → Bool
  is_uncovered (lo, hi) (c_lo, c_hi) = less (stretch_up lo) c_lo || less c_hi (stretch_down hi)

  abbrev pub key_le : {V : Type 0} → Text × V → Text × V → Bool
  key_le (a, _) (b, _) = text_le a b

  unfoldable pub band_gaps : Bool → Option (Float × Float) → List (Text × (Float × Float)) → Gaps
  band_gaps has_solve none covered = if has_solve then gap highest_frequency product_tab else []
  band_gaps has_solve (some required) covered =
      for_each (λ (label, c). if is_uncovered required c then gap (band label) solve_tab else [])
        (sorted key_le covered)

  -- With no band known, every harmonic counts.
  abbrev pub is_scanned : Option (Float × Float) → Float → Bool
  is_scanned none f = true
  is_scanned (some (lo, hi)) f = in_range lo f hi

  abbrev pub float_le : Float → Float → Bool
  float_le a b = not (less b a)

  unfoldable pub harmonic_gaps : Option (Float × Float) → List Float → Gaps
  harmonic_gaps required harmonics =
      for_each (λ f. if is_scanned required f then gap (harmonic f) drivers_tab else [])
        (sorted float_le harmonics)

  unfoldable pub power_gaps : Text → Bool → Gaps
  power_gaps p found =
      if is_empty p
      then gap power product_tab
      else if not (text_eq p (codes "dc")) && not found
      then gap power_entry product_tab
      else []

  unfoldable pub check : Inputs → Gaps
  check c =
      (if c.has_solve then [] else gap solve solve_tab)
      ++ (for_each (λ key. gap (problem key) solve_tab) c.problems
          ++ (driver_gaps c.drivers c.source_nets
              ++ ((if c.has_solve && ltb 1 (length c.excited_ports)
                    then gap sources solve_tab
                    else [])
                  ++ (for_each
                        (λ ref.
                          connector_gaps (lookup ref c.cable_assignments)
                            (lookup ref c.modelled_cables) ref)
                        (sorted text_le c.connectors)
                      ++ (for_each (port_gaps c.far_field_ports) c.excited_ports
                          ++ (band_gaps c.has_solve c.required_band c.covered
                              ++ (harmonic_gaps c.required_band c.undriven_harmonics
                                  ++ ((if text_eq c.enclosure (codes "metal")
                                        then gap metal_enclosure product_tab
                                        else [])
                                      ++ power_gaps c.power c.power_entry_found))))))))

  -- `complete`
  unfoldable pub complete : Gaps → Bool
  complete gaps = is_nil gaps
