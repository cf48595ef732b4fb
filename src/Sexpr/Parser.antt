-- ===== src/Sexpr/Parser.antt =====
-- `parse` of kicad/sexpr.py. A node is put into its parent when it is opened there and when it is
-- closed here: until then nothing reads it, and on an error nothing is returned.
use emi_analyzer.Base.{
  ℕ, Bool, true, false, ◌||◌, ◌&&◌, Option, none, some, List, [], ◌∷◌, ◌==◌, if◌then◌else◌, Text,
}
use emi_analyzer.Sexpr.Tokens.{
  Token, opening, closing, string, atom, Stream, finished, unexpected, yield, tokens, unescape,
}
use emi_analyzer.Sexpr.Tree.{Numbers, Node, nil, str, num, sub, join}

-- The raises of `_tokens` and `parse`, and `float`'s ValueError.
pub data SexprError : Type 0 where
  unexpected_character : ℕ → SexprError
  unbalanced_closing more_than_one string_outside atom_outside : SexprError
  unbalanced_opening no_expression not_a_float : SexprError

pub data Result (A : Type 0) : Type 0 where
  ok : A → Result A
  err : SexprError → Result A

module _ (N : Numbers) where
  open N use {Float, is_digit, float}

  abbrev pub starts_digit : Text → Bool
  starts_digit [] = false
  starts_digit (c ∷ cs) = is_digit c

  abbrev pub skip_digits : Text → Text
  skip_digits [] = []
  skip_digits (c ∷ cs) = let rest = skip_digits cs in if is_digit c then rest else c ∷ cs

  abbrev pub skip_sign : Text → Text
  skip_sign [] = []
  skip_sign (c ∷ cs) = if c == b'+' || c == b'-' then cs else c ∷ cs

  abbrev pub skip_point : Text → Text
  skip_point [] = []
  skip_point (c ∷ cs) = if c == b'.' then cs else c ∷ cs

  abbrev pub is_end : Text → Bool
  is_end [] = true
  is_end (c ∷ cs) = false

  abbrev pub exponent : Text → Bool
  exponent [] = true
  exponent (c ∷ cs) =
      (c == b'e' || c == b'E')
      && (starts_digit (skip_sign cs) && is_end (skip_digits (skip_sign cs)))

  abbrev pub fraction : Text → Bool
  fraction [] = false
  fraction (c ∷ cs) = c == b'.' && (starts_digit cs && exponent (skip_digits cs))

  abbrev pub unsigned : Text → Bool
  unsigned t =
      if starts_digit t then exponent (skip_digits (skip_point (skip_digits t))) else fraction t

  -- `_NUMBER.match(value)`
  unfoldable pub is_number : Text → Bool
  is_number t = unsigned (skip_sign t)

  -- The loop's variables: the innermost open node first.
  pub record State : Type 0 where
    pub stack : List (Node Float)
    pub root : Option (Node Float)

  abbrev pub append_atom : Node Float → Text → Result (Node Float)
  append_atom top value =
      if is_number value
      then (elim (float value) [ none ↦ err not_a_float | some x ↦ ok (join top (num x nil)) ])
      else ok (join top (str value nil))

  abbrev pub with_top : List (Node Float) → Option (Node Float) → Result (Node Float) → Result State
  with_top rest r (ok top) = ok (record { stack = top ∷ rest; root = r })
  with_top rest r (err e) = err e

  -- The branches of the loop, on the stack and the root.
  unfoldable pub step : Token → List (Node Float) → Option (Node Float) → Result State
  step opening stack r = ok (record { stack = nil ∷ stack; root = r })
  step closing [] r = err unbalanced_closing
  step closing (node ∷ []) none = ok (record { stack = []; root = some node })
  step closing (node ∷ []) (some old) = err more_than_one
  step closing (node ∷ parent ∷ rest) r =
      ok (record { stack = join parent (sub node nil) ∷ rest; root = r })
  step (string value) [] r = err string_outside
  step (string value) (top ∷ rest) r =
      ok (record { stack = join top (str (unescape value) nil) ∷ rest; root = r })
  step (atom value) [] r = err atom_outside
  step (atom value) (top ∷ rest) r = with_top rest r (append_atom top value)

  -- After the loop.
  unfoldable pub finish : List (Node Float) → Option (Node Float) → Result (Node Float)
  finish (node ∷ rest) r = err unbalanced_opening
  finish [] none = err no_expression
  finish [] (some node) = ok node

  unfoldable pub run : State → Stream → Result (Node Float)
  run s finished = finish s.stack s.root
  run s (unexpected c) = err (unexpected_character c)
  run s (yield t rest) = elim (step t s.stack s.root) [ ok s' ↦ run s' rest | err e ↦ err e ]

  abbrev pub start : State
  start = record { stack = []; root = none }

  unfoldable pub parse : Text → Result (Node Float)
  parse text = run start (tokens text)
