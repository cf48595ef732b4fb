-- ===== src/Drivers/Document.antt =====
-- drivers/document.py: what `parse` accepts as a driver document. The text of messages is not modelled.
pub mod Weakest
pub mod Sound
pub mod Values
use emi_analyzer.Base.{
  ℕ, zero, suc, ◌+◌, ◌-◌, Bool, true, false, not, ◌||◌, ◌&&◌, Option, none, some, List, [], ◌∷◌,
  ◌++◌, length, ltb, ◌==◌, if◌then◌else◌, Text, text_eq, codes, strip,
}
use emi_analyzer.Base.Results.{Result, ok, err, ◌>>=◌, ◌>>◌, guard, or_raise, map_results}
use emi_analyzer.Base.Json.{
  find_word, ℤ, pos, negsuc, Floats, Json, null, Fields, get, has, as_dict, as_list, as_text,
  as_int, is_null, is_text, str, Number, as_number, as_number_or_flag, zero_f, is_not_positive,
  is_finite, to_float,
}
use emi_analyzer.Drivers.Spectrum.{
  Raised, not_an_object, too_large, wrong_format, bad_version, too_new, too_old, no_name,
  unknown_kind, unknown_role, bad_net, no_block, negative_impedance, too_few, too_many, bad_sample,
  bad_interval, short_capture, bad_bandwidth, bad_point, bad_frequency, bad_level, not_increasing,
  bad_rbw, no_numbers, missing, not_sourced, no_value, no_source, unknown_source, not_a_number,
  not_finite, bad_detail, wrong_kind, no_key, overflow, Trapezoid, validate,
}

-- `SOURCES`, `KINDS` and `ROLES`
pub data Source : Type 0 where
  scope spectrum_analyzer benchpod datasheet assumed : Source

pub data Kind : Type 0 where
  trapezoid waveform spectrum : Kind

pub data Role : Type 0 where
  signal switching_regulator : Role

abbrev pub sources : List (Text × Source)
sources =
    (codes "scope", scope)
    ∷ (codes "spectrum-analyzer", spectrum_analyzer)
    ∷ (codes "benchpod", benchpod)
    ∷ (codes "datasheet", datasheet)
    ∷ (codes "assumed", assumed)
    ∷ []

abbrev pub kinds : List (Text × Kind)
kinds =
    (codes "trapezoid", trapezoid)
    ∷ (codes "waveform", waveform)
    ∷ (codes "spectrum", spectrum)
    ∷ []

abbrev pub roles : List (Text × Role)
roles = (codes "signal", signal) ∷ (codes "switching-regulator", switching_regulator) ∷ []

-- `SOURCE_SIGMA_DB`, in tenths of a decibel
unfoldable pub source_sigma : Source → ℕ
source_sigma scope = 10
source_sigma spectrum_analyzer = 10
source_sigma benchpod = 15
source_sigma datasheet = 30
source_sigma assumed = 60

abbrev pub max_document_bytes : ℕ
max_document_bytes = 2097152

abbrev pub max_samples : ℕ
max_samples = 1000000

abbrev pub trapezoid_fields : List Text
trapezoid_fields =
    codes "amplitude_v"
    ∷ codes "period_s"
    ∷ codes "pulse_width_s"
    ∷ codes "rise_s"
    ∷ codes "fall_s"
    ∷ codes "source_impedance_ohm"
    ∷ []

module _ (X : Floats) where
  open X use {Float, lt, le, whole, mul}

  pub record Sourced : Type 0 where
    pub value : Float
    pub source : Source
    pub detail : Option Text

  pub data Payload : Type 0 where
    empty : Payload
    samples :
        (samples_v : List Float) (sample_interval_s : Float) (bandwidth_hz : Option Float) → Payload
    points : (points : List (Float × Float)) (rbw_hz : Option Float) → Payload

  pub record Driver : Type 0 where
    pub name : Text
    pub kind : Kind
    pub role : Role
    pub net : Option Text
    pub values : List (Text × Sourced)
    pub payload : Payload

  -- `values[field]`
  abbrev pub find_value : Text → List (Text × Sourced) → Option Sourced
  find_value k [] = none
  find_value k ((j, s) ∷ more) = if text_eq j k then some s else find_value k more

  abbrev pub value_of : Text → List (Text × Sourced) → Result Raised Float
  value_of k vs = do s ← or_raise (find_value k vs) (no_key k); ok s.value

  abbrev pub text_or_none : Json Float → Raised → Result Raised (Option Text)
  text_or_none null e = ok none
  text_or_none (str t) e = ok (some t)
  text_or_none _ e = err e

  -- `_sourced`
  unfoldable pub sourced : Json Float → Text → Result Raised Sourced
  sourced raw k = do
    fs ← or_raise (as_dict raw) (not_sourced k)
    guard (has (codes "value") fs) (no_value k)
    guard (has (codes "source") fs) (no_source k)
    source ← or_raise (find_word sources (get (codes "source") fs)) (unknown_source k)
    value ← or_raise (as_number (get (codes "value") fs)) (not_a_number k)
    guard (is_finite X value) (not_finite k)
    detail ← text_or_none (get (codes "detail") fs) (bad_detail k)
    number ← or_raise (to_float X value) overflow
    ok (record { value = number; source = source; detail = detail })

  -- `if field not in body: raise …`, then `values[field] = _sourced(body[field], …)`, for a field that is
  -- not in `values` yet.
  unfoldable pub read_value :
      Fields Float → List (Text × Sourced) → Text → Result Raised (List (Text × Sourced))
  read_value body values k = do
    guard (has k body) (missing k)
    s ← sourced (get k body) k
    ok (values ++ (k, s) ∷ [])

  unfoldable pub read_values :
      Fields Float → List (Text × Sourced) → List Text → Result Raised (List (Text × Sourced))
  read_values body values [] = ok values
  read_values body values (k ∷ ks) = do
    values' ← read_value body values k
    read_values body values' ks

  -- The constructor call of `Driver.trapezoid`
  unfoldable pub make_trapezoid : List (Text × Sourced) → Result Raised (Trapezoid X)
  make_trapezoid values = do
    amplitude ← value_of (codes "amplitude_v") values
    period ← value_of (codes "period_s") values
    width ← value_of (codes "pulse_width_s") values
    rise ← value_of (codes "rise_s") values
    fall ← value_of (codes "fall_s") values
    ok (record {
      amplitude_v = amplitude;
      period_s = period;
      pulse_width_s = width;
      rise_s = rise;
      fall_s = fall;
    })

  unfoldable pub read_trapezoid : Fields Float → Result Raised (List (Text × Sourced) × Payload)
  read_trapezoid doc = do
    body ← or_raise (as_dict (get (codes "trapezoid") doc)) no_block
    values ← read_values body [] trapezoid_fields
    trap ← make_trapezoid values
    validate X trap
    impedance ← value_of (codes "source_impedance_ohm") values
    guard (not (lt impedance (zero_f X))) negative_impedance
    ok (values, empty)

  -- An optional bandwidth, which may be a bool.
  unfoldable pub read_optional : Json Float → Raised → Result Raised (Option (Number Float))
  read_optional null e = ok none
  read_optional j e = do
    n ← or_raise (as_number_or_flag j) e
    guard (not (is_not_positive X n)) e
    ok (some n)

  abbrev pub float_or_none : Option (Number Float) → Result Raised (Option Float)
  float_or_none none = ok none
  float_or_none (some n) = do x ← or_raise (to_float X n) overflow; ok (some x)

  abbrev pub to_float_or_raise : Number Float → Result Raised Float
  to_float_or_raise n = or_raise (to_float X n) overflow

  abbrev pub read_if_there :
      Fields Float → List (Text × Sourced) → Text → Result Raised (List (Text × Sourced))
  read_if_there body values k = if has k body then read_value body values k else ok values

  unfoldable pub read_waveform : Fields Float → Result Raised (List (Text × Sourced) × Payload)
  read_waveform doc = do
    body ← or_raise (as_dict (get (codes "waveform") doc)) no_block
    raw ← or_raise (as_list (get (codes "samples_v") body)) too_few
    guard (not (ltb (length raw) 2)) too_few
    guard (not (ltb max_samples (length raw))) too_many
    numbers ← map_results (λ s. or_raise (as_number s) bad_sample) raw
    interval ← or_raise (as_number (get (codes "sample_interval_s") body)) bad_interval
    guard (not (is_not_positive X interval)) bad_interval
    values ← read_values body [] (codes "period_s" ∷ codes "source_impedance_ohm" ∷ [])
    interval_s ← to_float_or_raise interval
    gaps ← or_raise (whole (pos (length raw - 1))) overflow
    period ← value_of (codes "period_s") values
    guard (not (lt (mul gaps interval_s) period)) short_capture
    bandwidth ← read_optional (get (codes "bandwidth_hz") body) bad_bandwidth
    values' ← read_if_there body values (codes "rise_s")
    samples_v ← map_results to_float_or_raise numbers
    bandwidth_hz ← float_or_none bandwidth
    ok (values', samples samples_v interval_s bandwidth_hz)

  -- The body of the loop over `points`.
  unfoldable pub read_point : Json Float → Result Raised (Float × Float)
  read_point j = do
    p ← or_raise (as_dict j) bad_point
    guard (has (codes "frequency_hz") p && has (codes "level_dbuv") p) bad_point
    f ← or_raise (as_number (get (codes "frequency_hz") p)) bad_frequency
    guard (not (is_not_positive X f)) bad_frequency
    lv ← or_raise (as_number (get (codes "level_dbuv") p)) bad_level
    frequency ← to_float_or_raise f
    level ← to_float_or_raise lv
    ok (frequency, level)

  -- `not any(b[0] <= a[0] for a, b in zip(parsed, parsed[1:]))`
  abbrev pub increasing : List (Float × Float) → Bool
  increasing [] = true
  increasing (a ∷ []) = true
  increasing (a ∷ b ∷ more) = not (le b.0 a.0) && increasing (b ∷ more)

  unfoldable pub read_spectrum : Fields Float → Result Raised (List (Text × Sourced) × Payload)
  read_spectrum doc = do
    body ← or_raise (as_dict (get (codes "spectrum") doc)) no_block
    raw ← or_raise (as_list (get (codes "points") body)) too_few
    guard (not (ltb (length raw) 2)) too_few
    guard (not (ltb max_samples (length raw))) too_many
    parsed ← map_results read_point raw
    guard (increasing parsed) not_increasing
    values ← read_values body [] (codes "source_impedance_ohm" ∷ [])
    rbw ← read_optional (get (codes "rbw_hz") body) bad_rbw
    rbw_hz ← float_or_none rbw
    ok (values, points parsed rbw_hz)

  abbrev pub read_body : Kind → Fields Float → Result Raised (List (Text × Sourced) × Payload)
  read_body trapezoid doc = read_trapezoid doc
  read_body waveform doc = read_waveform doc
  read_body spectrum doc = read_spectrum doc

  abbrev pub read_regulator :
      Role → Fields Float → List (Text × Sourced) → Result Raised (List (Text × Sourced))
  read_regulator signal doc values = ok values
  read_regulator switching_regulator doc values =
      read_values doc values (codes "input_current_a" ∷ codes "input_voltage_v" ∷ [])

  abbrev pub check_version : Json Float → Result {0} Raised (Unit {0})
  check_version (Json.int (pos zero)) = err too_old
  check_version (Json.int (pos (suc zero))) = ok tt
  check_version (Json.int (pos (suc (suc n)))) = err too_new
  check_version (Json.int (negsuc n)) = err too_old
  check_version _ = err bad_version

  abbrev pub too_big : Option ℕ → Bool
  too_big none = false
  too_big (some n) = ltb max_document_bytes n

  abbrev pub is_empty : Text → Bool
  is_empty [] = true
  is_empty (c ∷ t) = false

  abbrev pub no_values : List (Text × Sourced) → Bool
  no_values [] = true
  no_values (v ∷ vs) = false

  -- `doc.get("role", "signal")`
  abbrev pub role_of : Fields Float → Json Float
  role_of doc = if has (codes "role") doc then get (codes "role") doc else str (codes "signal")

  unfoldable pub parse : Json Float → Option ℕ → Result Raised Driver
  unfolding strip
  parse j document_bytes = do
    doc ← or_raise (as_dict j) not_an_object
    guard (not (too_big document_bytes)) too_large
    guard (is_text (codes "emi-driver") (get (codes "format") doc)) wrong_format
    check_version (get (codes "version") doc)
    name ← or_raise (as_text (get (codes "name") doc)) no_name
    guard (not (is_empty (strip name))) no_name
    kind ← or_raise (find_word kinds (get (codes "kind") doc)) unknown_kind
    role ← or_raise (find_word roles (role_of doc)) unknown_role
    net ← text_or_none (get (codes "net") doc) bad_net
    (values, payload) ← read_body kind doc
    values' ← read_regulator role doc values
    guard (not (no_values values')) no_numbers
    ok (record {
      name = strip name;
      kind = kind;
      role = role;
      net = net;
      values = values';
      payload = payload;
    })

  -- `max(values, key=…)`: the first of the worst. Python raises ValueError where there is none.
  abbrev pub worst_from : Sourced → List (Text × Sourced) → Sourced
  worst_from best [] = best
  worst_from best ((k, s) ∷ more) =
      worst_from (if ltb (source_sigma best.source) (source_sigma s.source) then s else best) more

  abbrev pub worst : List (Text × Sourced) → Option Source
  worst [] = none
  worst ((k, s) ∷ more) = some (worst_from s more).source

  unfoldable pub weakest_source : Driver → Option Source
  weakest_source d = worst d.values

  abbrev pub sigma_of : Option Source → Option ℕ
  sigma_of none = none
  sigma_of (some s) = some (source_sigma s)

  unfoldable pub sigma_db : Driver → Option ℕ
  sigma_db d = sigma_of (weakest_source d)

  abbrev pub trapezoid_of_kind : Kind → List (Text × Sourced) → Result Raised (Trapezoid X)
  trapezoid_of_kind trapezoid vs = make_trapezoid vs
  trapezoid_of_kind _ vs = err wrong_kind

  -- `Driver.trapezoid`
  unfoldable pub trapezoid_of : Driver → Result Raised (Trapezoid X)
  trapezoid_of d = trapezoid_of_kind d.kind d.values

  unfoldable pub source_impedance_ohm : Driver → Result Raised Float
  source_impedance_ohm d = value_of (codes "source_impedance_ohm") d.values
