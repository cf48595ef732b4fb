-- ===== src/Components/Resolve.antt =====
-- components/resolve.py: the model of a part, by part number first and then by value and package. The
-- built-in library is the list that `built_in` reads; `basis` and the text of notes are not modelled.
pub mod Order
pub mod Partition
pub mod Chosen
use emi_analyzer.Base.{
  Bool, true, false, not, ◌||◌, ◌&&◌, Option, none, some, List, [], ◌∷◌, ◌++◌, length,
  if◌then◌else◌, Text, text_eq, codes, strip, contains,
}
use emi_analyzer.Base.Results.{Result, ok, err, ◌>>=◌, ◌>>◌}
use emi_analyzer.Base.Json.{Floats, Json, null, str, Fields, get, is_text, truthy}
use emi_analyzer.Components.Package.{Classes, PackageMatch, parse_package}
use emi_analyzer.Components.Farads.{cap_farads}
use emi_analyzer.Components.Python.{
  Raised, type_error, Model, series_rlc, mlcc_family, Provenance, generic, Source, Texts, is_blank,
  is_none, is_nil, is_zero, normalise_part_number,
}
use emi_analyzer.Components.Document.{
  SeriesRlc, Component, rlc_of, mlcc_of, esl_for, resolve_for, cites, part_numbers,
}

-- `tier`, of which the code asks only whether it is the built-in one.
pub data Tier : Type 0 where
  mine shared unsaved built_in : Tier

pub data Matched : Type 0 where
  by_part_number by_value_and_package by_package : Matched

pub data GapKind : Type 0 where
  no_esl no_esr : GapKind

pub data Note : Type 0 where
  other_value other_package : Note

module _ (W : Classes) (X : Floats) (T : Texts X.Float) where
  open X use {Float, lt, lit, abs, sub, mul}
  open T use {float_of, to_str}

  pub record Candidate : Type 0 where
    pub component : Component X T
    pub tier : Tier

  -- PartMatch of components/match.py
  pub record PartMatch : Type 0 where
    pub ref : Text
    pub value : Text
    pub footprint : Text
    pub farads : Option Float
    pub package_of : Option PackageMatch
    pub numbers : List (Text × Text)

  pub record Resolved : Type 0 where
    pub ref : Text
    pub component_id : Text
    pub component_name : Text
    pub rlc : SeriesRlc X T
    pub gaps : List GapKind
    pub source : Option Source
    pub is_generic : Bool
    pub matched_by : Matched
    pub matched_on : Option (Text × Text)
    pub notes : List Note

  -- The part-number fields that are not blank.
  abbrev pub filled : List (Text × Text) → List (Text × Text)
  filled [] = []
  filled ((k, v) ∷ more) = if is_blank (strip v) then filled more else (k, v) ∷ filled more

  -- `match_part`
  unfoldable pub match_part : Text → Text → Text → List (Text × Text) → PartMatch
  unfolding strip
  match_part ref value footprint numbers = record {
    ref = ref;
    value = value;
    footprint = footprint;
    farads = cap_farads W X float_of value;
    package_of = parse_package W footprint;
    numbers = filled numbers;
  }

  -- `PartMatch.modellable`, with what it finds
  abbrev pub known_values : Option Float → Option PackageMatch → Option (Float × Text)
  known_values (some c) (some p) = some (c, p.imperial)
  known_values _ _ = none

  abbrev pub modellable : PartMatch → Option (Float × Text)
  modellable p = known_values p.farads p.package_of

  -- `part.package is not None and part.package.imperial == want`
  abbrev pub package_is : Json Float → Option PackageMatch → Bool
  package_is want none = false
  package_is want (some p) = is_text p.imperial want

  -- `abs(a - want) > want * 1e-6`
  abbrev pub far_from : Float → Float → Bool
  far_from want a = lt (mul want (lit 1 6)) (abs (sub a want))

  -- `cap_farads(v or "")`: the regular expression raises TypeError where `v` is no text.
  abbrev pub farads_of : Json Float → Result Raised (Option Float)
  farads_of (str t) = ok (cap_farads W X float_of t)
  farads_of j = if truthy (is_zero X T) j then err type_error else ok (cap_farads W X float_of [])

  abbrev pub same_farads : Option Float → Option Float → Bool
  same_farads (some want) (some a) = not (far_from want a)
  same_farads _ _ = false

  abbrev pub value_matches : Json Float → Option Float → Result Raised Bool
  value_matches want farads = do f ← farads_of want; ok (same_farads f farads)

  -- `_matches`, for a component that no part number rules out
  abbrev pub rules_match : Model → Component X T → PartMatch → Result Raised Bool
  rules_match mlcc_family c part = elim part.package_of [
    | none ↦ ok false
    | some p ↦ do
      family ← mlcc_of X T c
      ok (not (is_none X T (esl_for X T p.imperial family.esl_by_package)))
  ]
  rules_match series_rlc c part =
      let want_package = get (codes "package") c.match_by in
      let want_value = get (codes "value") c.match_by in
      if truthy (is_zero X T) want_package && not (package_is want_package part.package_of)
      then ok false
      else if truthy (is_zero X T) want_value
      then value_matches want_value part.farads
      else ok true

  unfoldable pub matches : Component X T → PartMatch → Bool → Result Raised Bool
  matches c part built =
      if built && not (is_nil X T (part_numbers X T c))
      then ok false
      else rules_match c.model_type c part

  -- `_rlc_for`
  abbrev pub rlc_of_kind :
      Model → Component X T → Option (Float × Text) → Result Raised (Option (SeriesRlc X T))
  rlc_of_kind series_rlc c known = do rlc ← rlc_of X T c; ok (some rlc)
  rlc_of_kind mlcc_family c none = ok none
  rlc_of_kind mlcc_family c (some (c_f, imperial)) = resolve_for X T c c_f imperial

  abbrev pub rlc_for : Component X T → PartMatch → Result Raised (Option (SeriesRlc X T))
  rlc_for c part = rlc_of_kind c.model_type c (modellable part)

  abbrev pub value_note : Option Float → Option Float → List Note
  value_note (some want) (some a) = if far_from want a then other_value ∷ [] else []
  value_note _ _ = []

  abbrev pub package_note : Json Float → Option PackageMatch → List Note
  package_note want none = []
  package_note want (some p) =
      if truthy (is_zero X T) want && not (is_text p.imperial want) then other_package ∷ [] else []

  -- `str(v or "")`
  abbrev pub text_of : Json Float → Text
  text_of j = if truthy (is_zero X T) j then to_str j else []

  -- `_disagreements`
  unfoldable pub disagreements : Component X T → PartMatch → List Note
  disagreements c part =
      value_note (cap_farads W X float_of (text_of (get (codes "value") c.match_by))) part.farads
      ++ package_note (get (codes "package") c.match_by) part.package_of

  abbrev pub is_generic_of : Provenance → Bool
  is_generic_of generic = true
  is_generic_of _ = false

  abbrev pub gaps_of : SeriesRlc X T → List GapKind
  gaps_of rlc =
      (if is_none X T rlc.esl_h then no_esl ∷ [] else [])
      ++ (if is_none X T rlc.esr_ohm then no_esr ∷ [] else [])

  -- `_resolved`
  unfoldable pub resolved :
      Component X T
      → PartMatch
      → SeriesRlc X T
      → Matched
      → Option (Text × Text)
      → List Note
      → Resolved
  resolved c part rlc how on notes = record {
    ref = part.ref;
    component_id = c.id;
    component_name = c.name;
    rlc = rlc;
    gaps = gaps_of rlc;
    source = cites X T c (codes "ESL");
    is_generic = is_generic_of c.provenance;
    matched_by = how;
    matched_on = on;
    notes = notes;
  }

  -- The first of the part's numbers that the component answers to.
  abbrev pub find_hit : List Text → List (Text × Text) → Option (Text × Text)
  find_hit numbers [] = none
  find_hit numbers ((f, v) ∷ more) =
      if contains numbers (normalise_part_number X T v) then some (f, v) else find_hit numbers more

  abbrev pub is_capacitor : Component X T → Bool
  is_capacitor c = text_eq c.kind (codes "capacitor")

  abbrev pub hit_of : Component X T → PartMatch → Option (Text × Text)
  hit_of c part = if is_capacitor c then find_hit (part_numbers X T c) part.numbers else none

  abbrev pub numbered :
      Component X T → PartMatch → Text × Text → Option (SeriesRlc X T) → Option Resolved
  numbered c part hit none = none
  numbered c part hit (some rlc) =
      some (resolved c part rlc by_part_number (some hit) (disagreements c part))

  -- The body of the loop over part numbers; none where it goes on.
  abbrev pub try_hit :
      Component X T → PartMatch → Option (Text × Text) → Result Raised (Option Resolved)
  try_hit c part none = ok none
  try_hit c part (some hit) = do rlc ← rlc_for c part; ok (numbered c part hit rlc)

  unfoldable pub try_number : PartMatch → Candidate → Result Raised (Option Resolved)
  try_number part cand = try_hit cand.component part (hit_of cand.component part)

  abbrev pub is_built_in : Tier → Bool
  is_built_in built_in = true
  is_built_in _ = false

  abbrev pub how_matched : Model → Matched
  how_matched mlcc_family = by_package
  how_matched series_rlc = by_value_and_package

  abbrev pub valued : Component X T → PartMatch → Option (SeriesRlc X T) → Option Resolved
  valued c part none = none
  valued c part (some rlc) = some (resolved c part rlc (how_matched c.model_type) none [])

  abbrev pub try_matched :
      Component X T → PartMatch → Float × Text → Bool → Result Raised (Option Resolved)
  try_matched c part (c_f, imperial) false = ok none
  try_matched c part (c_f, imperial) true = do
    rlc ← resolve_for X T c c_f imperial
    ok (valued c part rlc)

  -- The body of the second loop; none where it goes on.
  unfoldable pub try_value : PartMatch → Float × Text → Candidate → Result Raised (Option Resolved)
  try_value part known cand =
      let try = do
        matched ← matches cand.component part (is_built_in cand.tier)
        try_matched cand.component part known matched
      in if is_capacitor cand.component then try else ok none

  -- A loop that returns at the first result.
  abbrev pub or_next :
      Option Resolved → Result Raised (Option Resolved) → Result Raised (Option Resolved)
  or_next none rest = rest
  or_next (some r) rest = ok (some r)

  unfoldable pub first_of :
      (Candidate → Result Raised (Option Resolved))
      → List Candidate
      → Result Raised (Option Resolved)
  first_of try [] = ok none
  first_of try (c ∷ cs) = do r ← try c; or_next r (first_of try cs)

  abbrev pub by_value :
      PartMatch → List Candidate → Option (Float × Text) → Result Raised (Option Resolved)
  by_value part ordered none = ok none
  by_value part ordered (some known) = first_of (try_value part known) ordered

  -- `resolve_part`, with what `built_in()` returns
  unfoldable pub resolve_part :
      List Candidate → PartMatch → List Candidate → Result Raised (Option Resolved)
  unfolding first_of
  resolve_part library part candidates = do
    r ← first_of (try_number part) (candidates ++ library)
    or_next r (by_value part (candidates ++ library) (modellable part))

  pub record Coverage : Type 0 where
    pub modelled : List Resolved
    pub unmatched : List PartMatch

  abbrev pub add_part : PartMatch → Option Resolved → Coverage → Coverage
  add_part part none c = record c { unmatched = c.unmatched ++ part ∷ [] }
  add_part part (some r) c = record c { modelled = c.modelled ++ r ∷ [] }

  -- The loop of `resolve_all`
  unfoldable pub cover :
      List Candidate → List Candidate → List PartMatch → Coverage → Result Raised Coverage
  cover library candidates [] c = ok c
  cover library candidates (part ∷ parts) c = do
    got ← resolve_part library part candidates
    cover library candidates parts (add_part part got c)

  unfoldable pub resolve_all :
      List Candidate → List PartMatch → List Candidate → Result Raised Coverage
  unfolding cover
  resolve_all library parts candidates =
      cover library candidates parts (record { modelled = []; unmatched = [] })
