-- ===== src/Completeness/Ready.antt =====
-- The gate of compliance/completeness.py against what it asks for, item by item.
use emi_analyzer.Base.{
  contains, ◌≤◌, Bool, true, false, ◌||◌, Option, none, some, List, [], ◌∷◌, ◌++◌, ◌≡◌, ◌≢◌, ◌↔◌,
  refl, length, if◌then◌else◌, Text, text_eq, codes, All, ◌⊎◌,
}
use emi_analyzer.Completeness.Comparisons.{Floats}
use emi_analyzer.Completeness.{
  Declaration, Modelled, lookup, is_empty, Inputs, Gaps, for_each, is_covered, declared_type,
  declared_length, other_cable, other_length, is_uncovered, is_scanned,
}

append_nil_iff : {A : Type 0} (xs ys : List A) → (xs ++ ys ≡ []) ↔ ((xs ≡ []) × (ys ≡ []))
append_nil_iff [] ys = (λ h. (refl, h), λ h. h.1)
append_nil_iff (x ∷ xs) ys = (λ h. cc, λ h. cc)

pub iff_trans : {A B C : Type 0} → A ↔ B → B ↔ C → A ↔ C
iff_trans f g = (λ a. g.0 (f.0 a), λ c. f.1 (g.1 c))

pub append_iff :
    {A P Q : Type 0} {xs ys : List A}
    → ((xs ≡ []) ↔ P)
    → ((ys ≡ []) ↔ Q)
    → (xs ++ ys ≡ []) ↔ (P × Q)
append_iff {xs = xs} {ys = ys} f g =
    let (split, join) = append_nil_iff xs ys in
    (λ h. let (a, b) = split h in (f.0 a, g.0 b), λ h. join (f.1 h.0, g.1 h.1))

pub All-iff :
    {A : Type 0} {P Q : A → Type 0} (xs : List A) → ((x : A) → P x ↔ Q x) → All P xs ↔ All Q xs
All-iff [] f = (λ h. h, λ h. h)
All-iff (x ∷ xs) f =
    let (there, back) = All-iff xs f in
    (λ h. ((f x).0 h.0, there h.1), λ h. ((f x).1 h.0, back h.1))

-- A gap that a test decides is left out exactly where the test fails, or holds.
pub unless_iff : {A : Type 0} (b : Bool) (x : A) → ((if b then [] else x ∷ []) ≡ []) ↔ (b ≡ true)
unless_iff true x = (λ h. refl, λ h. refl)
unless_iff false x = (λ h. cc, λ h. cc)

pub when_iff : {A : Type 0} (b : Bool) (x : A) → ((if b then x ∷ [] else []) ≡ []) ↔ (b ≡ false)
when_iff true x = (λ h. cc, λ h. cc)
when_iff false x = (λ h. refl, λ h. refl)

module _ (X : Floats) where
  open X use {Float}

  pub for_each_iff :
      {A : Type 0} (f : A → Gaps X) (xs : List A) → (for_each X f xs ≡ []) ↔ All (λ x. f x ≡ []) xs
  for_each_iff f [] = (λ h. tt, λ h. refl)
  for_each_iff f (x ∷ xs) =
      let (split, join) = append_nil_iff (f x) (for_each X f xs) in
      let (there, back) = for_each_iff f xs in
      (λ h. let (a, b) = split h in (a, there b), λ h. join (h.0, back h.1))

  -- The solve carries the cable, as long as it is declared to be.
  abbrev pub IsCarried : Text → Option Float → Option (Modelled Float) → Type 0
  IsCarried t len none = ⊥
  IsCarried t len (some m) =
      (other_cable X t m.cable_id ≡ false) × (other_length X len m.length_m ≡ false)

  abbrev pub IsNamed : Option Text → Option Float → Option (Modelled Float) → Type 0
  IsNamed none len m = Unit
  IsNamed (some t) len m = ((is_empty t || text_eq t (codes "none")) ≡ true) ⊎ IsCarried t len m

  -- The connector is declared to carry no cable, or the solve carries the declared one; without a
  -- declaration the solve carries some cable there.
  abbrev pub IsDecided : Option (Declaration Float) → Option (Modelled Float) → Type 0
  IsDecided none none = ⊥
  IsDecided none (some m) = Unit
  IsDecided (some d) m = IsNamed (declared_type X d) (declared_length X d) m

  abbrev pub IsSolvedOver : Option (Float × Float) → List (Text × (Float × Float)) → Type 0
  IsSolvedOver none covered = ⊥
  IsSolvedOver (some required) covered = All (λ (_, c). is_uncovered X required c ≡ false) covered

  -- Every input that a margin needs.
  pub record IsReady (c : Inputs X) : Type 0 where
    pub solved : c.has_solve ≡ true
    pub sound : c.problems ≡ []
    pub driven : c.drivers ≢ []
    pub nets_driven : All (λ net. is_covered X c.drivers net ≡ true) c.source_nets
    pub one_source : length c.excited_ports ≤ 1
    pub cables :
        All
          (λ ref. IsDecided (lookup ref c.cable_assignments) (lookup ref c.modelled_cables))
          c.connectors
    pub far_fields : All (λ port. contains c.far_field_ports port ≡ true) c.excited_ports
    pub scanned : IsSolvedOver c.required_band c.covered
    pub harmonics : All (λ f. is_scanned X c.required_band f ≡ false) c.undriven_harmonics
    pub not_metal : text_eq c.enclosure (codes "metal") ≡ false
    pub powered : is_empty c.power ≡ false
    pub entry : (text_eq c.power (codes "dc") || c.power_entry_found) ≡ true
