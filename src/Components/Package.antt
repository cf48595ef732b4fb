-- ===== src/Components/Package.antt =====
-- `parse_package` of components/match.py: the package size in the name of a footprint.
use emi_analyzer.Base.{
  strip, and_then, ℕ, Bool, true, false, not, ◌&&◌, ◌||◌, Option, none, some, List, [], ◌∷◌,
  if◌then◌else◌, ◌==◌, leb, Text, text_eq, codes, to_lower,
}

-- `\d` and `\w` of Python's `re` on text.
pub record Classes : Type 0 where
  pub is_digit : ℕ → Bool
  pub is_word : ℕ → Bool

-- `[A-Z]` under `re.I`, which takes four characters beyond ASCII too.
unfoldable pub is_letter : ℕ → Bool
is_letter c =
    (leb b'a' (to_lower c) && leb (to_lower c) b'z')
    || c == 0x130
    || c == 0x131
    || c == 0x17f
    || c == 0x212a

-- `i` under `re.I`
unfoldable pub is_i : ℕ → Bool
is_i c = to_lower c == b'i' || c == 0x130 || c == 0x131

-- The entry of `IMPERIAL_TO_METRIC` for a code.
abbrev pub find_code : List (Text × Text) → Text → Option Text
find_code [] code = none
find_code ((imperial, metric) ∷ table) code =
    if text_eq imperial code then some metric else find_code table code

abbrev pub imperial_to_metric : List (Text × Text)
imperial_to_metric =
    (codes "0201", codes "0603")
    ∷ (codes "0402", codes "1005")
    ∷ (codes "0603", codes "1608")
    ∷ (codes "0805", codes "2012")
    ∷ (codes "1206", codes "3216")
    ∷ (codes "1210", codes "3225")
    ∷ (codes "1812", codes "4532")
    ∷ (codes "2220", codes "5750")
    ∷ []

pub record PackageMatch : Type 0 where
  pub imperial : Text
  pub metric : Option Text
  pub ambiguous : Bool
  pub footprint : Text

-- The text behind a match, and the last character of the match.
pub record Matched : Type 0 where
  pub code : Text
  pub last : ℕ
  pub rest : Text

abbrev pub or_else {ℓ} : {A : Type ℓ} → Option A → Option A → Option A
or_else none b = b
or_else (some a) b = some a

-- `[A-Z]*_`, then `[A-Z]+_`.
unfoldable pub after_letters : Text → Option Text
after_letters [] = none
after_letters (c ∷ t) =
    let rest = after_letters t in if c == b'_' then some t else if is_letter c then rest else none

unfoldable pub after_class : Text → Option Text
after_class [] = none
after_class (c ∷ t) = if is_letter c then after_letters t else none

-- `_`
unfoldable pub underscore : Text → Option Text
underscore [] = none
underscore (c ∷ t) = if c == b'_' then some t else none

-- `Metric`
unfoldable pub metric_word : Text → Option Matched
metric_word (m ∷ e ∷ t ∷ r ∷ i ∷ c ∷ rest) =
    if (to_lower m == b'm' && to_lower e == b'e' && to_lower t == b't')
      && to_lower r == b'r'
      && is_i i
      && to_lower c == b'c'
    then some (record { code = m ∷ e ∷ t ∷ r ∷ i ∷ c ∷ []; last = c; rest = rest })
    else none
metric_word _ = none

-- `.split(":", 1)[-1]`
unfoldable pub past_colon : Text → Option Text
past_colon [] = none
past_colon (c ∷ t) = let rest = past_colon t in if c == b':' then some t else rest

abbrev pub part_name : Text → Option Text → Text
part_name t none = t
part_name t (some name) = name

-- The table does not know the code, or it has this metric one.
abbrev pub agrees : Option Text → Text → Bool
agrees none metric = true
agrees (some known) metric = text_eq known metric

abbrev pub guessed : Text → Text → Option Text → Option PackageMatch
guessed footprint code none = none
guessed footprint code (some metric) =
    some (record { imperial = code; metric = some metric; ambiguous = true; footprint = footprint })

abbrev pub from_bare : Text → Option Text → Option PackageMatch
from_bare footprint none = none
from_bare footprint (some code) = guessed footprint code (find_code imperial_to_metric code)

abbrev pub from_standard : Text → Option (Text × Text) → Option Text → Option PackageMatch
from_standard footprint none code = from_bare footprint code
from_standard footprint (some (imperial, metric)) code =
    if agrees (find_code imperial_to_metric imperial) metric
    then some (record {
      imperial = imperial;
      metric = some metric;
      ambiguous = false;
      footprint = footprint;
    })
    else none

module _ (W : Classes) where
  open W use {is_digit, is_word}

  -- `\b` between a character and a text
  unfoldable pub at_boundary : ℕ → Text → Bool
  at_boundary c [] = is_word c
  at_boundary c (d ∷ t) = if is_word c then not (is_word d) else is_word d

  -- `\d{4}`
  unfoldable pub four_digits : Text → Option Matched
  four_digits (a ∷ b ∷ c ∷ d ∷ rest) =
      if is_digit a && is_digit b && is_digit c && is_digit d
      then some (record { code = a ∷ b ∷ c ∷ d ∷ []; last = d; rest = rest })
      else none
  four_digits _ = none

  abbrev pub bounded {ℓ} : {A : Type ℓ} → A → Matched → Option A
  bounded a m = if at_boundary m.last m.rest then some a else none

  -- `_STANDARD`: the imperial and the metric code
  unfoldable pub standard : Text → Option (Text × Text)
  standard name = and_then (after_class name) (λ t. and_then (four_digits t) (λ imperial.
      and_then (underscore imperial.rest) (λ u.
        and_then (four_digits u)
          (λ metric. and_then (metric_word metric.rest) (bounded (imperial.code, metric.code))))))

  abbrev pub bare_code : Text → Option Text
  bare_code t = and_then (four_digits t) (λ m. bounded m.code m)

  -- `_BARE`: the code, first with a class before it
  unfoldable pub bare : Text → Option Text
  bare name = or_else (and_then (after_class name) bare_code) (bare_code name)

  abbrev pub parse_name : Text → Text → Option PackageMatch
  parse_name footprint name = from_standard footprint (standard name) (bare name)

  unfoldable pub parse_package : Text → Option PackageMatch
  parse_package [] = none
  parse_package (c ∷ t) = parse_name (c ∷ t) (strip (part_name (c ∷ t) (past_colon (c ∷ t))))
