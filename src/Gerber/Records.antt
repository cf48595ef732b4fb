-- ===== src/Gerber/Records.antt =====
-- The lines and the regular expressions of gerber/ipcd356.py.
use emi_analyzer.Base.{
  ℕ, zero, suc, ◌+◌, ◌*◌, Bool, ◌||◌, ◌&&◌, Option, none, some, List, [], ◌∷◌, take, leb, ◌==◌,
  if◌then◌else◌, Text, codes, is_space, to_lower, contains, and_then,
}
use emi_analyzer.Base.Json.{ℤ, pos, negsuc}

-- `\d` of Python's `re` on text, and the value that `int` gives to such a character.
pub record Digits : Type 0 where
  pub is_digit : ℕ → Bool
  pub value : ℕ → ℕ

-- A line break of `str.splitlines`.
unfoldable pub is_break : ℕ → Bool
is_break c =
    (leb 10 c && leb c 13) || (leb 28 c && leb c 30) || c == 0x85 || c == 0x2028 || c == 0x2029

abbrev pub add_char : ℕ → List Text → List Text
add_char c [] = (c ∷ []) ∷ []
add_char c (line ∷ lines) = (c ∷ line) ∷ lines

-- `str.splitlines`: a carriage return and a line feed are one break.
unfoldable pub split_lines : Text → List Text
split_lines [] = []
split_lines (c ∷ []) = if is_break c then [] ∷ [] else (c ∷ []) ∷ []
split_lines (c ∷ d ∷ t) =
    let rest = split_lines (d ∷ t) in
    if c == 13 && d == 10 then rest else if is_break c then [] ∷ rest else add_char c rest

abbrev pub is_return : ℕ → Bool
is_return c = c == 13 || c == 10

abbrev pub keep_unless_return : ℕ → Text → Text
keep_unless_return c [] = if is_return c then [] else c ∷ []
keep_unless_return c (d ∷ t) = c ∷ d ∷ t

-- `.rstrip("\r\n")`
unfoldable pub strip_returns : Text → Text
strip_returns [] = []
strip_returns (c ∷ t) = keep_unless_return c (strip_returns t)

-- A letter under `re.IGNORECASE`, which takes two more characters for i and one more for s.
unfoldable pub is_same_letter : ℕ → ℕ → Bool
is_same_letter letter c =
    to_lower c == letter
    || (letter == b'i' && (c == 0x130 || c == 0x131))
    || (letter == b's' && c == 0x17f)

abbrev pub word : Text → Text → Option Text
word [] t = some t
word (l ∷ ls) [] = none
word (l ∷ ls) (c ∷ t) = if is_same_letter l c then word ls t else none

-- `\s+`: what follows is no space.
unfoldable pub skip_spaces : Text → Text
skip_spaces [] = []
skip_spaces (c ∷ t) = let rest = skip_spaces t in if is_space c then rest else c ∷ t

abbrev pub spaces : Text → Option Text
spaces [] = none
spaces (c ∷ t) = if is_space c then some (skip_spaces t) else none

-- A record starts with its number.
abbrev pub is_record : Text → Bool
is_record line = contains (codes "317" ∷ codes "327" ∷ []) (take 3 line)

abbrev pub negate : ℕ → ℤ
negate zero = pos 0
negate (suc n) = negsuc n

module _ (D : Digits) where
  open D use {is_digit, value}

  abbrev pub first_digit : Text → Option ℕ
  first_digit [] = none
  first_digit (c ∷ t) = if is_digit c then some (value c) else none

  -- `_UNITS_RE`, with the digit that it finds
  unfoldable pub units : Text → Option ℕ
  units line = and_then (word (codes "p") line) (λ a. and_then (spaces a) (λ b.
      and_then (word (codes "units") b) (λ c.
        and_then (spaces c)
          (λ d. and_then (word (codes "cust") d) (λ e. and_then (spaces e) first_digit)))))

  abbrev pub add_digit : ℕ → Text × Text → Text × Text
  add_digit c (digits, rest) = (c ∷ digits, rest)

  -- `\d+`: what follows it in `_TAIL_RE` is no digit.
  unfoldable pub span_digits : Text → Text × Text
  span_digits [] = ([], [])
  span_digits (c ∷ t) =
      let more = span_digits t in if is_digit c then add_digit c more else ([], c ∷ t)

  abbrev pub if_any : Text × Text → Option (Text × Text)
  if_any ([], rest) = none
  if_any (d ∷ digits, rest) = some (d ∷ digits, rest)

  -- A letter, and behind it what a pattern takes.
  abbrev pub after {ℓ} : {A : Type ℓ} → ℕ → (Text → Option A) → Text → Option A
  after l p [] = none
  after l p (c ∷ t) = if c == l then p t else none

  pub record Tail : Type 0 where
    pub drill : Text
    pub plating : Option ℕ
    pub access : Text
    pub x : Bool × Text
    pub y : Bool × Text

  -- `[+-]\d+`, with true for a minus
  abbrev pub signed : Text → Option ((Bool × Text) × Text)
  signed [] = none
  signed (c ∷ t) =
      if c == b'+' || c == b'-'
      then and_then (if_any (span_digits t)) (λ (digits, rest). some ((c == b'-', digits), rest))
      else none

  -- `\d{2}`
  abbrev pub two_digits : Text → Option (Text × Text)
  two_digits (c ∷ d ∷ t) = if is_digit c && is_digit d then some (c ∷ d ∷ [], t) else none
  two_digits _ = none

  -- `A(\d{2})X([+-]\d+)Y([+-]\d+)`
  unfoldable pub coordinates : Text → Option ℕ → Text → Option Tail
  coordinates drill plating t = and_then (after b'A' two_digits t) (λ (access, u).
      and_then (after b'X' signed u) (λ (x, v). and_then (after b'Y' signed v) (λ (y, rest).
        some (record { drill = drill; plating = plating; access = access; x = x; y = y }))))

  abbrev pub plated_tail : Text × Text → Option Tail
  plated_tail (digits, []) = none
  plated_tail (digits, c ∷ t) =
      if c == b'P' || c == b'U' then coordinates digits (some c) t else none

  -- `_TAIL_RE` at one place: with a drill, and then without.
  unfoldable pub tail_at : Text → Option Tail
  tail_at t = elim (after b'D' (λ u. and_then (if_any (span_digits u)) plated_tail) t) [
    | none ↦ coordinates [] none t
    | some tail ↦ some tail
  ]

  -- `_TAIL_RE.search`
  unfoldable pub search_tail : Text → Option Tail
  search_tail [] = none
  search_tail (c ∷ t) =
      let later = search_tail t in elim (tail_at (c ∷ t)) [ none ↦ later | some tail ↦ some tail ]

  abbrev pub number_from : ℕ → Text → ℕ
  number_from n [] = n
  number_from n (c ∷ t) = number_from (10 * n + value c) t
