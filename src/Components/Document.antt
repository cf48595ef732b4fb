-- ===== src/Components/Document.antt =====
-- components/document.py: a component and the models that it gives. The text of messages is not modelled.
use emi_analyzer.Base.{
  Bool, ◌&&◌, ◌||◌, Option, none, some, List, [], ◌∷◌, if◌then◌else◌, Text, text_eq, codes, strip,
}
use emi_analyzer.Base.Sorting.{sorted}
use emi_analyzer.Base.Results.{Result, ok, err, ◌>>=◌, ◌>>◌, guard, or_raise, map_results}
use emi_analyzer.Base.Json.{Floats, Json, str, Fields, get, has, as_dict, as_list, zero_f}
use emi_analyzer.Components.Python.{
  Raised, wrong_model, type_error, no_key, Model, series_rlc, mlcc_family, Provenance, Source,
  Texts, is_blank, is_in, normalise_part_number, float_any, elements_or_none, or_empty, opt_float,
  log10_of, divide, overflow, read_packages, read_pair, pair_le,
}

module _ (X : Floats) (T : Texts X.Float) where
  open X use {Float, lt, le, lit, add, sub, mul, div, log10, pow, ten_to}
  open T use {lower}

  pub record SeriesRlc : Type 0 where
    pub c_f : Float
    pub esl_h : Option Float
    pub esr_ohm : Option Float
    pub esl_includes_mount : Bool

  pub record MlccFamily : Type 0 where
    pub esl_by_package : List (Text × Float)
    pub esr_table : List (Float × Float)

  pub record Component : Type 0 where
    pub id : Text
    pub kind : Text
    pub name : Text
    pub match_by : Fields Float
    pub model_type : Model
    pub model : Fields Float
    pub sources : List Source
    pub valid_hz : Option (Float × Float)
    pub esl_includes_mount : Bool
    pub provenance : Provenance
    pub manufacturer : Text
    pub dc_bias : List (Float × Float)
    pub reference : Option (Float × List (Float × Float))

  -- `Component.series_rlc`
  abbrev pub series_of : Model → Component → Result Raised SeriesRlc
  series_of mlcc_family c = err wrong_model
  series_of series_rlc c = do
    guard (has (codes "c_f") c.model) (no_key (codes "c_f"))
    c_f ← float_any X T (get (codes "c_f") c.model)
    esl_h ← opt_float X T (get (codes "esl_h") c.model)
    esr_ohm ← opt_float X T (get (codes "esr_ohm") c.model)
    ok (record {
      c_f = c_f;
      esl_h = esl_h;
      esr_ohm = esr_ohm;
      esl_includes_mount = c.esl_includes_mount;
    })

  unfoldable pub rlc_of : Component → Result Raised SeriesRlc
  rlc_of c = series_of c.model_type c

  -- `Component.mlcc_family`
  abbrev pub family_of : Model → Component → Result Raised MlccFamily
  family_of series_rlc c = err wrong_model
  family_of mlcc_family c = do
    packages ← or_raise (as_dict (or_empty X T (get (codes "esl_h_by_package") c.model))) type_error
    table ← elements_or_none X T (get (codes "esr_ohm_by_c") c.model)
    esl ← read_packages X T packages
    esr ← map_results (read_pair X T) table
    ok (record { esl_by_package = esl; esr_table = sorted (pair_le X T) esr })

  unfoldable pub mlcc_of : Component → Result Raised MlccFamily
  mlcc_of c = family_of c.model_type c

  -- `MLCCFamily.esl_for`
  abbrev pub esl_for : Text → List (Text × Float) → Option Float
  esl_for k [] = none
  esl_for k ((j, x) ∷ more) = if text_eq j k then some x else esl_for k more

  abbrev pub last_pair : Float × Float → List (Float × Float) → Float × Float
  last_pair p [] = p
  last_pair p (q ∷ qs) = last_pair q qs

  -- The logarithms and the quotient raise; so does the power.
  abbrev pub between : Float × Float → Float × Float → Float → Result Raised Float
  between (c0, r0) (c1, r1) c = do
    at ← log10_of X T c
    start ← log10_of X T c0
    stop ← log10_of X T c1
    t ← divide X T (sub at start) (sub stop start)
    first ← log10_of X T r0
    last ← log10_of X T r1
    or_raise (ten_to (add first (mul t (sub last first)))) overflow

  abbrev pub found : Result Raised Float → Result Raised (Option Float)
  found r = do x ← r; ok (some x)

  -- The loop over neighbours in `esr_for`
  unfoldable pub interpolate : Float → List (Float × Float) → Result Raised (Option Float)
  interpolate c [] = ok none
  interpolate c (p ∷ []) = ok none
  interpolate c (p ∷ q ∷ more) =
      let rest = interpolate c (q ∷ more) in
      if le p.0 c && le c q.0 then found (between p q c) else rest

  -- `MLCCFamily.esr_for`
  unfoldable pub esr_for : List (Float × Float) → Float → Result Raised (Option Float)
  unfolding interpolate
  esr_for [] c = ok none
  esr_for (p ∷ more) c =
      if le c (zero_f X)
      then ok none
      else if le c p.0
      then ok (some p.1)
      else if le (last_pair p more).0 c
      then ok (some (last_pair p more).1)
      else interpolate c (p ∷ more)

  abbrev pub family_rlc :
      Component → Float → MlccFamily → Option Float → Result Raised (Option SeriesRlc)
  family_rlc c c_f family none = ok none
  family_rlc c c_f family (some esl) = do
    esr ← esr_for family.esr_table c_f
    ok (
        some (record {
          c_f = c_f;
          esl_h = some esl;
          esr_ohm = esr;
          esl_includes_mount = c.esl_includes_mount;
        }))

  -- `Component.resolve_for`
  abbrev pub resolve_model : Model → Component → Float → Text → Result Raised (Option SeriesRlc)
  resolve_model series_rlc c c_f imperial = do rlc ← rlc_of c; ok (some rlc)
  resolve_model mlcc_family c c_f imperial = do
    family ← mlcc_of c
    family_rlc c c_f family (esl_for imperial family.esl_by_package)

  unfoldable pub resolve_for : Component → Float → Text → Result Raised (Option SeriesRlc)
  resolve_for c c_f imperial = resolve_model c.model_type c c_f imperial

  -- `Component.cites`
  abbrev pub find_source : Text → List Source → Option Source
  find_source what [] = none
  find_source what (s ∷ more) =
      if is_blank s.what || is_in (lower what) (lower s.what) then some s else find_source what more

  unfoldable pub cites : Component → Text → Option Source
  cites c what = find_source what c.sources

  -- The texts among the values that are not blank, normalised.
  abbrev pub numbers_of : List (Json Float) → List Text
  numbers_of [] = []
  numbers_of (str t ∷ more) =
      if is_blank (strip t) then numbers_of more else normalise_part_number X T t ∷ numbers_of more
  numbers_of (_ ∷ more) = numbers_of more

  abbrev pub list_or_empty : Option (List (Json Float)) → List (Json Float)
  list_or_empty none = []
  list_or_empty (some js) = js

  -- `Component.part_numbers`, for a parsed component, whose `mpn_aliases` is a list or null
  unfoldable pub part_numbers : Component → List Text
  unfolding strip
  part_numbers c = numbers_of (
      get (codes "mpn") c.match_by
      ∷ get (codes "lcsc") c.match_by
      ∷ list_or_empty (as_list (get (codes "mpn_aliases") c.match_by)))
