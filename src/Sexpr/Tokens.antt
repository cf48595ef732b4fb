-- ===== src/Sexpr/Tokens.antt =====
-- The tokenizer of kicad/sexpr.py: `_TOKEN`, `_ESCAPES` and `_tokens`. A text is a list of code
-- points, and a position in it is the text that is left from there.
use emi_analyzer.Base.{
  ℕ, zero, suc, Bool, true, false, not, ◌||◌, ◌&&◌, Option, none, some, [], ◌∷◌, length, ◌==◌,
  if◌then◌else◌, Text, is_space,
}

-- The groups of `_TOKEN` that carry a token.
pub data Token : Type 0 where
  opening closing : Token
  string atom : Text → Token

-- `[^\s()"]`
unfoldable pub is_atom_char : ℕ → Bool
is_atom_char c = not (is_space c || c == b'(' || c == b')' || c == b'"')

-- `[^\s()"]+`: the longest run, and what is left.
unfoldable pub span_atom : Text → Text × Text
span_atom [] = ([], [])
span_atom (c ∷ cs) =
    let (a, r) = span_atom cs in if is_atom_char c then (c ∷ a, r) else ([], c ∷ cs)

abbrev pub prepend : ℕ → Option (Text × Text) → Option (Text × Text)
prepend c none = none
prepend c (some (a, r)) = some (c ∷ a, r)

-- `(?:[^"\\]|\\.)*"` after the opening quote: the text before the closing quote, and what is left.
-- The flag says that the character before was a backslash; `.` matches no line feed.
unfoldable pub scan_string : Bool → Text → Option (Text × Text)
scan_string escaped [] = none
scan_string false (c ∷ cs) =
    if c == b'"' then some ([], cs) else prepend c (scan_string (c == 92) cs)
scan_string true (c ∷ cs) = if c == 10 then none else prepend c (scan_string false cs)

-- `_ESCAPES.sub(r"\1", value)`
unfoldable pub unescape : Text → Text
unescape [] = []
unescape (c ∷ []) = c ∷ []
unescape (c ∷ d ∷ cs) =
    let replaced = d ∷ unescape cs in
    let kept = c ∷ unescape (d ∷ cs) in if c == 92 && not (d == 10) then replaced else kept

-- What one round of the loop of `_tokens` does at a position.
pub data Next : Type 0 where
  stop : Next
  skip : Text → Next
  token : Token → Text → Next
  bad : ℕ → Next

abbrev pub quoted : Option (Text × Text) → Next
quoted none = bad b'"'
quoted (some (s, r)) = token (string s) r

abbrev pub run_of : Text × Text → Next
run_of (a, r) = token (atom a) r

unfoldable pub is_blank : ℕ → Bool
is_blank c = c == 32 || c == 9 || c == 13 || c == 10

unfoldable pub next : Text → Next
next [] = stop
next (c ∷ cs) =
    if is_blank c
    then skip cs
    else if c == b'('
    then token opening cs
    else if c == b')'
    then token closing cs
    else if c == b'"'
    then quoted (scan_string false cs)
    else if is_space c
    then bad c
    else run_of (span_atom (c ∷ cs))

-- What the generator yields, and how it ends: at the end of the text, or by a SexprError at a
-- character that begins no token.
pub data Stream : Type 0 where
  finished : Stream
  unexpected : ℕ → Stream
  yield : Token → Stream → Stream

-- A round, and the rounds after it.
abbrev pub continue_with : (Text → Stream) → Next → Stream
continue_with rest stop = finished
continue_with rest (skip r) = rest r
continue_with rest (token k r) = yield k (rest r)
continue_with rest (bad c) = unexpected c

-- The loop, on fuel: each round takes at least one character.
unfoldable pub tokens_from : ℕ → Text → Stream
tokens_from zero t = finished
tokens_from (suc f) t = continue_with (tokens_from f) (next t)

unfoldable pub tokens : Text → Stream
tokens t = tokens_from (length t) t
