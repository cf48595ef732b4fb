-- ===== src/Components/Farads.antt =====
-- `cap_farads` of rules/decoupling.py, which reads the value field of a capacitor. The regular expression
-- gives back what it took where the rest does not match: each part gives all that it may take, in the
-- order in which `re` tries it.
use emi_analyzer.Base.{
  and_then, ℕ, Bool, ◌||◌, Option, none, some, List, [], ◌∷◌, ◌++◌, ◌==◌, if◌then◌else◌, Text,
  is_space, to_lower,
}
use emi_analyzer.Base.Json.{Floats}
use emi_analyzer.Components.Package.{Classes, at_boundary}

-- What a part took, and what is behind it.
abbrev pub Taken : Type 0
Taken = Text × Text

abbrev pub take_first : ℕ → List Taken → List Taken
take_first c [] = []
take_first c ((t, r) ∷ more) = (c ∷ t, r) ∷ take_first c more

-- `x*`: as much as there is first.
unfoldable pub star : (ℕ → Bool) → Text → List Taken
star p [] = ([], []) ∷ []
star p (c ∷ s) =
    let more = take_first c (star p s) in if p c then more ++ ([], c ∷ s) ∷ [] else ([], c ∷ s) ∷ []

-- `x+`
unfoldable pub plus : (ℕ → Bool) → Text → List Taken
unfolding star
plus p [] = []
plus p (c ∷ s) = if p c then take_first c (star p s) else []

-- `x?`
unfoldable pub optional : (ℕ → Bool) → Text → List Taken
optional p [] = ([], []) ∷ []
optional p (c ∷ s) = if p c then (c ∷ [], s) ∷ ([], c ∷ s) ∷ [] else ([], c ∷ s) ∷ []

abbrev pub or_later {ℓ} : {A : Type ℓ} → Option A → Option A → Option A
or_later none b = b
or_later (some a) b = some a

-- The first result of the first candidate that has one.
abbrev pub try_each {ℓ} : {A : Type ℓ} → List Taken → (Text → Text → Option A) → Option A
try_each [] f = none
try_each ((t, r) ∷ more) f = or_later (f t r) (try_each more f)

abbrev pub last_char : ℕ → Text → ℕ
last_char d [] = d
last_char d (c ∷ s) = last_char c s

-- `[pnuµm]` under `re.I`, which takes the Greek mu of both cases for the micro sign.
unfoldable pub is_prefix : ℕ → Bool
is_prefix c =
    to_lower c == b'p'
    || to_lower c == b'n'
    || to_lower c == b'u'
    || to_lower c == b'm'
    || c == 0xb5
    || c == 0x3bc
    || c == 0x39c

abbrev pub is_f : ℕ → Bool
is_f c = to_lower c == b'f'

abbrev pub is_separator : ℕ → Bool
is_separator c = c == b'.' || c == b','

-- `.replace(",", ".")`
abbrev pub with_point : Text → Text
with_point [] = []
with_point (c ∷ s) = (if c == b',' then b'.' else c) ∷ with_point s

module _ (W : Classes) where
  open W use {is_digit, is_word}

  -- `(?:[.,]\d+)?`
  unfoldable pub fraction : Text → List Taken
  unfolding plus
  fraction [] = ([], []) ∷ []
  fraction (c ∷ s) =
      if is_separator c
      then take_first c (plus is_digit s) ++ ([], c ∷ s) ∷ []
      else ([], c ∷ s) ∷ []

  -- `\s*([pnuµm]?)\s*F?\b` behind a text that ends in `c`
  unfoldable pub unit : ℕ → Text → Option Text
  unfolding star optional
  unit c s = try_each (star is_space s) (λ a s1. try_each (optional is_prefix s1) (λ prefix s2.
      try_each (star is_space s2) (λ b s3. try_each (optional is_f s3) (λ f s4.
        if at_boundary W (last_char (last_char (last_char (last_char c a) prefix) b) f) s4
        then some prefix
        else none))))

  -- Groups 1 and 2 of the regular expression.
  unfoldable pub match_value : Text → Option (Text × Text)
  unfolding star plus fraction
  match_value s = try_each (star is_space s) (λ _ s1. try_each (plus is_digit s1) (λ digits s2.
      try_each (fraction s2) (λ part s3.
        and_then (unit (last_char (last_char b' ' digits) part) s3)
          (λ prefix. some (digits ++ part, prefix)))))

  module _ (X : Floats) (float_of : Text → Option X.Float) where
    open X use {Float, mul, lit}

    -- `_PREFIX[m.group(2).lower()]`
    abbrev pub factor : Text → Option Float
    factor [] = some (lit 1 0)
    factor (c ∷ s) =
        if to_lower c == b'p'
        then some (lit 1 12)
        else if to_lower c == b'n'
        then some (lit 1 9)
        else if to_lower c == b'u' || c == 0xb5
        then some (lit 1 6)
        else if to_lower c == b'm'
        then some (lit 1 3)
        else none

    abbrev pub read_match : Text × Text → Option Float
    read_match (number, prefix) =
        and_then (float_of (with_point number))
          (λ x. and_then (factor prefix) (λ y. some (mul x y)))

    unfoldable pub cap_farads : Text → Option Float
    cap_farads value = and_then (match_value value) read_match
