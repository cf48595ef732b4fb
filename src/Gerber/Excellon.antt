-- ===== src/Gerber/Excellon.antt =====
-- The lines and the regular expressions of gerber/drill.py. What a line says does not depend on those before
-- it: it is read first, and `Drill` does what the loop does with it.
use emi_analyzer.Base.{
  ℕ, zero, suc, Bool, true, false, ◌||◌, ◌&&◌, Option, none, some, List, [], ◌∷◌, ◌++◌, all, take,
  ◌==◌, if◌then◌else◌, Text, text_eq, codes, is_space, strip, lower, and_then,
}
use emi_analyzer.Gerber.Records.{Digits, word, span_digits, if_any}

pub data Function : Type 0 where
  via component unsaid : Function

pub data Line : Type 0 where
  nothing start_header end_header stop : Line
  file_plating : Bool → Line
  attribute : Bool → Function → Line
  header_units : Bool → ℕ → Line
  define_tool : Text → Text → Line
  select_tool : Text → Line
  hit : Text → Text → Line

-- `re.search` of a pattern, by what it finds at one place.
unfoldable pub search {ℓ} : {A : Type ℓ} → (Text → Option A) → Text → Option A
search p [] = p []
search p (c ∷ t) = let later = search p t in elim (p (c ∷ t)) [ none ↦ later | some a ↦ some a ]

abbrev pub starts_with : Text → Text → Bool
starts_with [] t = true
starts_with (c ∷ part) [] = false
starts_with (c ∷ part) (d ∷ t) = c == d && starts_with part t

abbrev pub found : Text → Text → Option Bool
found part t = if starts_with part t then some true else none

abbrev pub is_there {ℓ} : {A : Type ℓ} → Option A → Bool
is_there none = false
is_there (some a) = true

-- `part in t`
abbrev pub is_in : Text → Text → Bool
is_in part t = is_there (search (found part) t)

abbrev pub or_else {ℓ} : {A : Type ℓ} → Option A → Option A → Option A
or_else none b = b
or_else (some a) b = some a

abbrev pub then_say {ℓ κ} : {A : Type ℓ} {B : Type κ} → Option A → B → Option B
then_say none b = none
then_say (some a) b = some b

-- `_FILE_FUNCTION` at one place, with whether the holes are plated
unfoldable pub file_function : Text → Option Bool
file_function t = and_then (word (codes "tf.filefunction,") t) (λ u.
    or_else (then_say (word (codes "nonplated") u) false) (
      or_else (then_say (word (codes "plated") u) true)
        (then_say (word (codes "mixedplating") u) true)))

-- `[^,]*`
abbrev pub past_field : Text → Text
past_field [] = []
past_field (c ∷ t) = if c == b',' then c ∷ t else past_field t

abbrev pub past_comma : Text → Option Text
past_comma [] = none
past_comma (c ∷ t) = if c == b',' then some t else none

abbrev pub function_of : Text → Function
function_of name =
    if starts_with (codes "via") name
    then via
    else if starts_with (codes "comp") name
    then component
    else unsaid

-- `[\d.]+`
abbrev pub add_char : ℕ → Text × Text → Text × Text
add_char c (taken, rest) = (c ∷ taken, rest)

abbrev pub span : (ℕ → Bool) → Text → Text × Text
span p [] = ([], [])
span p (c ∷ t) = if p c then add_char c (span p t) else ([], c ∷ t)

abbrev pub zeros : Text → ℕ
zeros [] = 0
zeros (c ∷ t) = if c == b'0' then suc (zeros t) else 0

abbrev pub some_zeros : ℕ → Option ℕ
some_zeros zero = none
some_zeros (suc n) = some (suc n)

-- `0*\.(0+)`, with how many zeros are behind the point
abbrev pub format_at : Text → Option ℕ
format_at [] = none
format_at (c ∷ t) = if c == b'.' then some_zeros (zeros t) else none

abbrev pub or_default {ℓ} : {A : Type ℓ} → Option A → A → A
or_default none d = d
or_default (some a) d = a

abbrev pub sign_at : Text → Text × Text
sign_at [] = ([], [])
sign_at (c ∷ t) = if c == b'+' || c == b'-' then (c ∷ [], t) else ([], c ∷ t)

-- The first reading that there is.
abbrev pub first_line : List (Option Line) → Line
first_line [] = nothing
first_line (none ∷ more) = first_line more
first_line (some l ∷ more) = l

abbrev pub if_text : Text → Line → Text → Option Line
if_text t l line = if text_eq line t then some l else none

-- `upper` is `str.upper`, and `is_word` is `\w`.
module _ (D : Digits) (is_word : ℕ → Bool) (upper : Text → Text) where
  open D use {is_digit}

  abbrev pub use_at : Text → Function
  use_at t = elim (past_comma t) [ none ↦ unsaid | some u ↦ function_of (lower (span is_word u).0) ]

  -- Behind the plating: a field that may be there, and the use of the hole behind it.
  abbrev pub use_behind : Text → Function
  use_behind t = elim (past_comma t) [ none ↦ unsaid | some u ↦ use_at (past_field u) ]

  -- `_APER_FUNCTION` at one place
  unfoldable pub aper_function : Text → Option Line
  aper_function t = and_then (word (codes "ta.aperfunction,") t) (λ u.
      or_else (and_then (word (codes "nonplated") u) (λ v. some (attribute false (use_behind v))))
        (and_then (word (codes "plated") u) (λ v. some (attribute true (use_behind v)))))

  abbrev pub plating_in : Text → Text → Bool → Option Line
  plating_in part line plated = if is_in part (upper line) then some (file_plating plated) else none

  -- A line that starts with a semicolon.
  unfoldable pub comment : Text → Line
  unfolding search file_function aper_function
  comment line = first_line (
      and_then (search file_function line) (λ plated. some (file_plating plated))
      ∷ search aper_function line
      ∷ plating_in (codes "TYPE=NON_PLATED") line false
      ∷ plating_in (codes "TYPE=PLATED") line true
      ∷ [])

  abbrev pub units_line : Text → Text → Option Line
  units_line line name =
      let metric = text_eq (upper name) (codes "METRIC") in
      some (header_units metric (or_default (search format_at line) (if metric then 3 else 4)))

  -- `_HEADER_UNITS`
  abbrev pub units : Text → Option Line
  units line =
      or_else (and_then (word (codes "metric") line) (λ t. units_line line (take 6 line)))
        (and_then (word (codes "inch") line) (λ t. units_line line (take 4 line)))

  abbrev pub is_decimal : ℕ → Bool
  is_decimal c = is_digit c || c == b'.'

  -- `_TOOL_DEF`
  abbrev pub tool_definition : Text → Option Line
  tool_definition line = and_then (word (codes "t") line) (λ t.
      and_then (if_any D (span_digits D t)) (λ (tool, u).
        and_then (or_else (word (codes "c") u) (word (codes "f") u)) (λ v.
          and_then (if_any D (span is_decimal v)) (λ (dia, rest). some (define_tool tool dia)))))

  abbrev pub selected_tool : Text × Text → Option Line
  selected_tool (tool, rest) = if all is_space rest then some (select_tool tool) else none

  -- `_TOOL_SEL`, which knows no small letter
  abbrev pub tool_selection : Text → Option Line
  tool_selection [] = none
  tool_selection (c ∷ t) =
      if c == b'T' then and_then (if_any D (span_digits D t)) selected_tool else none

  -- `[+-]?[\d.]+`
  abbrev pub signed_decimal : Text → Option (Text × Text)
  signed_decimal t =
      let (sign, u) = sign_at t in
      and_then (if_any D (span is_decimal u)) (λ (digits, rest). some (sign ++ digits, rest))

  -- `_COORD`
  abbrev pub coordinate : Text → Option Line
  coordinate line = and_then (word (codes "x") line) (λ t. and_then (signed_decimal t) (λ (x, u).
      and_then (word (codes "y") u)
        (λ v. and_then (signed_decimal v) (λ (y, rest). some (hit x y)))))

  abbrev pub is_comment : Text → Bool
  is_comment [] = false
  is_comment (c ∷ t) = c == b';'

  abbrev pub statement : Text → Line
  statement line = first_line (
      if_text (codes "M48") start_header line
      ∷ if_text (codes "%") end_header line
      ∷ if_text (codes "M95") end_header line
      ∷ if_text (codes "M30") stop line
      ∷ if_text (codes "M00") stop line
      ∷ units line
      ∷ plating_in (codes "TYPE=PLATED") line true
      ∷ plating_in (codes "TYPE=NON_PLATED") line false
      ∷ tool_definition line
      ∷ tool_selection line
      ∷ coordinate line
      ∷ [])

  -- What the loop finds on a line; a blank line says nothing.
  unfoldable pub read_line : Text → Line
  unfolding strip search span_digits
  read_line raw = if is_comment (strip raw) then comment (strip raw) else statement (strip raw)
