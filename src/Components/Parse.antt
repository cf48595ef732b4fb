-- ===== src/Components/Parse.antt =====
-- `parse` of components/document.py.
pub mod Cited
pub mod Answers
use emi_analyzer.Base.{
  zero, suc, Bool, true, false, not, ◌||◌, ◌&&◌, Option, none, some, List, [], ◌∷◌, length, all,
  ◌==◌, if◌then◌else◌, Text, codes, strip, contains,
}
use emi_analyzer.Base.Sorting.{sorted}
use emi_analyzer.Base.Results.{Result, ok, err, ◌>>=◌, ◌>>◌, guard, or_raise, map_results}
use emi_analyzer.Base.Json.{
  ℤ, pos, negsuc, Floats, Json, null, str, arr, obj, Fields, get, has, as_dict, as_list, as_text,
  is_null, is_text, truthy, Number, as_number_or_flag, to_float, find_word,
}
use emi_analyzer.Components.Python.{
  Raised, not_an_object, wrong_format, bad_version, too_new, unknown_kind, no_model, future_model,
  unknown_model, bad_range, not_increasing, unknown_provenance, bad_match, bad_aliases,
  bad_manufacturer, bad_bias, bad_reference, no_packages, uncited_bias, no_datasheet, missing,
  bad_number, uncited, overflow, Model, series_rlc, mlcc_family, Provenance, vendor, resolvers,
  future_resolvers, provenances, Source, Texts, is_blank, elements_or_none, or_empty, is_zero,
  positive_number, pair_le, is_none, is_nil,
}
use emi_analyzer.Components.Document.{SeriesRlc, MlccFamily, Component, rlc_of, mlcc_of, cites}

module _ (X : Floats) (T : Texts X.Float) (ge : Number X.Float → Number X.Float → Bool) where
  open X use {Float}
  open T use {to_str}

  abbrev pub check_version : Json Float → Result {0} Raised (Unit {0})
  check_version (Json.int (pos zero)) = err bad_version
  check_version (Json.int (pos (suc zero))) = ok tt
  check_version (Json.int (pos (suc (suc n)))) = err too_new
  check_version _ = err bad_version

  -- `doc.get(k, default)`
  abbrev pub get_or : Text → Json Float → Fields Float → Json Float
  get_or k default fs = if has k fs then get k fs else default

  -- A text under a key, as it stands and stripped, where that is not blank.
  unfoldable pub required : Text → Fields Float → Result Raised Text
  required k doc = do
    t ← or_raise (as_text (get k doc)) (missing k)
    guard (not (is_blank (strip t))) (missing k)
    ok t

  -- The comprehension over `sources`
  unfoldable pub read_sources : List (Json Float) → List Source
  read_sources [] = []
  read_sources (obj fs ∷ more) =
      record {
        doc = to_str (get_or (codes "doc") (str []) fs);
        rev = to_str (get_or (codes "rev") (str []) fs);
        what = to_str (get_or (codes "what") (str []) fs);
        url = to_str (get_or (codes "url") (str []) fs);
      }
      ∷ read_sources more
  read_sources (_ ∷ more) = read_sources more

  abbrev pub two_numbers : List (Json Float) → Result Raised (Number Float × Number Float)
  two_numbers (a ∷ b ∷ []) = do
    lo ← or_raise (as_number_or_flag a) bad_range
    hi ← or_raise (as_number_or_flag b) bad_range
    ok (lo, hi)
  two_numbers _ = err bad_range

  abbrev pub float_of_number : Number Float → Result Raised Float
  float_of_number n = or_raise (to_float X n) overflow

  -- `valid_hz`
  unfoldable pub read_range : Json Float → Result Raised (Option (Float × Float))
  read_range null = ok none
  read_range j = do
    items ← or_raise (as_list j) bad_range
    (lo, hi) ← two_numbers items
    guard (not (ge lo hi)) not_increasing
    f_lo ← float_of_number lo
    f_hi ← float_of_number hi
    ok (some (f_lo, f_hi))

  abbrev pub is_part_number : Json Float → Bool
  is_part_number (str t) = not (is_blank (strip t))
  is_part_number _ = false

  abbrev pub is_null_or : (Json Float → Bool) → Json Float → Bool
  is_null_or p null = true
  is_null_or p j = p j

  abbrev pub all_part_numbers : Json Float → Bool
  all_part_numbers j = elim (as_list j) [ none ↦ false | some js ↦ all is_part_number js ]

  -- `match`
  unfoldable pub read_match : Fields Float → Result Raised (Fields Float)
  unfolding strip
  read_match doc = do
    fs ← or_raise (as_dict (or_empty X T (get (codes "match") doc))) bad_match
    guard (is_null_or is_part_number (get (codes "mpn") fs)) (bad_number (codes "mpn"))
    guard (is_null_or is_part_number (get (codes "lcsc") fs)) (bad_number (codes "lcsc"))
    guard (is_null_or all_part_numbers (get (codes "mpn_aliases") fs)) bad_aliases
    ok fs

  -- The body of the loop over `dc_bias`
  unfoldable pub read_bias : Json Float → Result Raised (Float × Float)
  read_bias j = do
    fs ← or_raise (as_dict j) bad_bias
    v ← or_raise (positive_number X T (get (codes "v") fs)) bad_bias
    c ← or_raise (positive_number X T (get (codes "c_f") fs)) bad_bias
    volts ← float_of_number v
    farads ← float_of_number c
    ok (volts, farads)

  abbrev pub two_positive : List (Json Float) → Result Raised (Number Float × Number Float)
  two_positive (f ∷ z ∷ []) = do
    hertz ← or_raise (positive_number X T f) bad_reference
    ohms ← or_raise (positive_number X T z) bad_reference
    ok (hertz, ohms)
  two_positive _ = err bad_reference

  abbrev pub read_reference_point : Json Float → Result Raised (Number Float × Number Float)
  read_reference_point j = do items ← or_raise (as_list j) bad_reference; two_positive items

  abbrev pub float_pair : Number Float × Number Float → Result Raised (Float × Float)
  float_pair (a, b) = do x ← float_of_number a; y ← float_of_number b; ok (x, y)

  -- `reference`
  unfoldable pub read_reference : Json Float → Result Raised (Option (Float × List (Float × Float)))
  read_reference null = ok none
  read_reference j = do
    fs ← or_raise (as_dict j) bad_reference
    notch ← or_raise (positive_number X T (get (codes "notch_hz") fs)) bad_reference
    raw ← or_raise (as_list (get (codes "z_ohm") fs)) bad_reference
    numbers ← map_results read_reference_point raw
    notch_hz ← float_of_number notch
    points ← map_results float_pair numbers
    ok (some (notch_hz, points))

  -- A number of the model has a source.
  abbrev pub check_cited : Component X T → Text → Option Float → Result {0} Raised (Unit {0})
  check_cited c what none = ok tt
  check_cited c what (some x) = guard (not (is_none X T (cites X T c what))) (uncited what)

  abbrev pub check_model : Model → Component X T → Result {0} Raised (Unit {0})
  check_model series_rlc c = do
    rlc ← rlc_of X T c
    check_cited c (codes "ESL") rlc.esl_h
    check_cited c (codes "ESR") rlc.esr_ohm
  check_model mlcc_family c = do
    family ← mlcc_of X T c
    guard (not (is_nil X T family.esl_by_package)) no_packages
    guard (not (is_none X T (cites X T c (codes "ESL")))) (uncited (codes "ESL"))

  abbrev pub is_vendor : Provenance → Bool
  is_vendor vendor = true
  is_vendor _ = false

  -- The rule that a number with no source is not usable.
  unfoldable pub check_sources : Component X T → Result {0} Raised (Unit {0})
  check_sources c = do
    check_model c.model_type c
    guard (is_nil X T c.dc_bias || not (is_none X T (cites X T c (codes "DC bias")))) uncited_bias
    guard (not (is_vendor c.provenance && is_nil X T c.sources)) no_datasheet

  -- `parse` up to the call of the dataclass
  unfoldable pub read_component : Json Float → Result Raised (Component X T)
  unfolding strip
  read_component j = do
    doc ← or_raise (as_dict j) not_an_object
    guard (is_text (codes "emi-component") (get (codes "format") doc)) wrong_format
    check_version (get (codes "version") doc)
    id ← required (codes "id") doc
    kind ← required (codes "kind") doc
    name ← required (codes "name") doc
    guard (contains (codes "capacitor" ∷ []) kind) unknown_kind
    model ← or_raise (as_dict (get (codes "model") doc)) no_model
    type ← or_raise (as_text (get (codes "type") model)) no_model
    guard (not (contains future_resolvers type)) future_model
    model_type ← or_raise (find_word resolvers (get (codes "type") model)) unknown_model
    raw_sources ← elements_or_none X T (get (codes "sources") doc)
    valid_hz ← read_range (get (codes "valid_hz") doc)
    provenance ←
        or_raise (find_word provenances (get_or (codes "provenance") (str (codes "user")) doc))
          unknown_provenance
    match_by ← read_match doc
    manufacturer ← or_raise (as_text (get_or (codes "manufacturer") (str []) doc)) bad_manufacturer
    raw_bias ← elements_or_none X T (get (codes "dc_bias") doc)
    dc_bias ← map_results read_bias raw_bias
    reference ← read_reference (get (codes "reference") doc)
    ok (record {
      id = strip id;
      kind = kind;
      name = strip name;
      match_by = match_by;
      model_type = model_type;
      model = model;
      sources = read_sources raw_sources;
      valid_hz = valid_hz;
      esl_includes_mount = truthy (is_zero X T) (get (codes "esl_includes_mount") doc);
      provenance = provenance;
      manufacturer = strip manufacturer;
      dc_bias = sorted (pair_le X T) dc_bias;
      reference = reference;
    })

  unfoldable pub parse : Json Float → Result Raised (Component X T)
  parse j = do c ← read_component j; check_sources c; ok c
