-- ===== src/Components/Python.antt =====
-- What components/document.py makes of the values of a document: conversions, loops, and the exceptions.
use emi_analyzer.Base.{
  Bool, true, false, ◌||◌, ◌&&◌, Option, none, some, List, [], ◌∷◌, map, ◌==◌, if◌then◌else◌, Text,
  codes, is_space,
}
use emi_analyzer.Base.Arithmetic.{log10_or, divide_or}
use emi_analyzer.Base.Results.{Result, ok, err, ◌>>=◌, or_raise}
use emi_analyzer.Base.Json.{
  pos, Floats, Json, null, flag, str, arr, obj, to_list, Fields, end, field, truthy, Number,
  as_number, zero_f, is_positive,
}

-- ComponentError, by the place that raises it, and the exceptions that `parse` lets through: of `float` and
-- of loops at values of another type, and KeyError.
pub data Raised : Type 0 where
  not_an_object wrong_format bad_version too_new unknown_kind no_model future_model : Raised
  unknown_model bad_range not_increasing unknown_provenance bad_match bad_aliases : Raised
  bad_manufacturer bad_bias bad_reference not_a_number no_packages uncited_bias no_datasheet :
      Raised
  missing bad_number uncited : Text → Raised
  wrong_model type_error value_error overflow zero_division : Raised
  no_key : Text → Raised

pub data Model : Type 0 where
  series_rlc mlcc_family : Model

pub data Provenance : Type 0 where
  generic vendor measured user : Provenance

-- `RESOLVERS`, `FUTURE_RESOLVERS` and `PROVENANCE`
abbrev pub resolvers : List (Text × Model)
resolvers = (codes "series_rlc", series_rlc) ∷ (codes "mlcc_family", mlcc_family) ∷ []

abbrev pub future_resolvers : List Text
future_resolvers =
    codes "touchstone"
    ∷ codes "ferrite"
    ∷ codes "regulator_output"
    ∷ codes "connector"
    ∷ codes "package"
    ∷ []

abbrev pub provenances : List (Text × Provenance)
provenances =
    (codes "generic", generic)
    ∷ (codes "vendor", vendor)
    ∷ (codes "measured", measured)
    ∷ (codes "user", user)
    ∷ []

pub record Source : Type 0 where
  pub doc : Text
  pub rev : Text
  pub what : Text
  pub url : Text

abbrev pub is_blank : Text → Bool
is_blank [] = true
is_blank (c ∷ t) = false

-- `part in text`
abbrev pub starts_with : Text → Text → Bool
starts_with [] t = true
starts_with (c ∷ part) [] = false
starts_with (c ∷ part) (d ∷ t) = c == d && starts_with part t

unfoldable pub is_in : Text → Text → Bool
is_in part [] = is_blank part
is_in part (c ∷ t) = starts_with part (c ∷ t) || is_in part t

-- `"".join(s.split())`
abbrev pub without_spaces : Text → Text
without_spaces [] = []
without_spaces (c ∷ t) = if is_space c then without_spaces t else c ∷ without_spaces t

-- `str`, `str.lower` and `str.upper` of Python, and `float` on a text, none where it raises ValueError.
pub record Texts (F : Type 0) : Type 0 where
  pub to_str : Json F → Text
  pub lower : Text → Text
  pub upper : Text → Text
  pub float_of : Text → Option F

module _ (X : Floats) (T : Texts X.Float) where
  open X use {Float, lt, le, eq, lit, whole, add, sub, mul, div, log10, pow}
  open T use {to_str, lower, upper, float_of}

  -- `normalise_part_number`
  unfoldable pub normalise_part_number : Text → Text
  normalise_part_number s = upper (without_spaces s)

  -- `float(v)` of any value
  abbrev pub float_any : Json Float → Result Raised Float
  float_any null = err type_error
  float_any (flag true) = or_raise (whole (pos 1)) overflow
  float_any (flag false) = or_raise (whole (pos 0)) overflow
  float_any (Json.int z) = or_raise (whole z) overflow
  float_any (Json.float x) = ok x
  float_any (str t) = or_raise (float_of t) value_error
  float_any (arr js) = err type_error
  float_any (obj fs) = err type_error

  abbrev pub keys : Fields Float → List (Json Float)
  keys end = []
  keys (field k v rest) = str k ∷ keys rest

  -- What a loop over a value goes through.
  abbrev pub elements : Json Float → Result Raised (List (Json Float))
  elements (str t) = ok (map (λ c. str (c ∷ [])) t)
  elements (arr js) = ok (to_list js)
  elements (obj fs) = ok (keys fs)
  elements _ = err type_error

  abbrev pub is_zero : Float → Bool
  is_zero x = eq x (zero_f X)

  -- `v or []`, and then the loop
  abbrev pub elements_or_none : Json Float → Result Raised (List (Json Float))
  elements_or_none j = if truthy is_zero j then elements j else ok []

  -- `v or {}`
  abbrev pub or_empty : Json Float → Json Float
  or_empty j = if truthy is_zero j then j else obj end

  -- `_positive`
  abbrev pub positive_number : Json Float → Option (Number Float)
  positive_number j = elim (as_number j) [
    | none ↦ none
    | some n ↦ if is_positive X n then some n else none
  ]

  -- `_opt_float`
  unfoldable pub opt_float : Json Float → Result Raised (Option Float)
  opt_float null = ok none
  opt_float (Json.int z) = do x ← or_raise (whole z) overflow; ok (some x)
  opt_float (Json.float x) = ok (some x)
  opt_float _ = err not_a_number

  -- `{str(k): float(v) for k, v in packages.items()}`
  unfoldable pub read_packages : Fields Float → Result Raised (List (Text × Float))
  read_packages end = ok []
  read_packages (field k v more) = do x ← float_any v; rest ← read_packages more; ok ((k, x) ∷ rest)

  abbrev pub two_floats : List (Json Float) → Result Raised (Float × Float)
  two_floats (c ∷ r ∷ []) = do x ← float_any c; y ← float_any r; ok (x, y)
  two_floats _ = err value_error

  -- `for c, r in table`: an item of the loop has two items.
  abbrev pub read_pair : Json Float → Result Raised (Float × Float)
  read_pair j = do items ← elements j; two_floats items

  -- Python's order on pairs.
  abbrev pub pair_le : Float × Float → Float × Float → Bool
  pair_le (a, b) (c, d) = if eq a c then le b d else lt a c

  -- `math.log10`
  abbrev pub log10_of : Float → Result Raised Float
  log10_of x = log10_or X value_error x

  -- `a / b` of floats
  abbrev pub divide : Float → Float → Result Raised Float
  divide a b = divide_or X zero_division a b

  abbrev pub is_none {ℓ} : {A : Type ℓ} → Option A → Bool
  is_none none = true
  is_none (some a) = false

  abbrev pub is_nil {ℓ} : {A : Type ℓ} → List A → Bool
  is_nil [] = true
  is_nil (x ∷ xs) = false
