-- ===== src/Sexpr/Writer.antt =====
-- A reference writer of nodes, against which the reader of kicad/sexpr.py is stated, and what the
-- tokenizer makes of each part of its output.
use emi_analyzer.Base.{
  ℕ, true, false, ◌||◌, some, [], ◌∷◌, ◌++◌, ◌≡◌, refl, arith, ◌==◌, if◌then◌else◌, all, Text,
}
use emi_analyzer.Sexpr.Tokens.{unescape, scan_string, span_atom, is_atom_char}
use emi_analyzer.Sexpr.Tree.{Numbers, Node, nil, str, num, sub}
use emi_analyzer.Sexpr.Parser.{is_number}

-- A backslash before each quote and each backslash.
pub escape : Text → Text
escape [] = []
escape (c ∷ cs) = let rest = escape cs in if c == b'"' || c == 92 then 92 ∷ c ∷ rest else c ∷ rest

unescape_plain : (c : ℕ) (t : Text) → (c == 92) ≡ false → unescape (c ∷ t) ≡ c ∷ unescape t
unfolding unescape
unescape_plain c [] h = refl
unescape_plain c (d ∷ t) h = rw h

pub unescape-escape : (s : Text) → unescape (escape s) ≡ s
unfolding escape unescape
unescape-escape [] = refl
unescape-escape (c ∷ cs) = ground (arith, unescape-escape cs, unescape_plain c (escape cs))

pub scan_string-escape :
    (s r : Text) → scan_string false (escape s ++ b'"' ∷ r) ≡ some (escape s, r)
unfolding escape scan_string
scan_string-escape [] r = refl
scan_string-escape (c ∷ cs) r = ground (arith, scan_string-escape cs r)

pub span_atom_run :
    (a : Text) (c : ℕ) (r : Text)
    → all is_atom_char a ≡ true
    → is_atom_char c ≡ false
    → span_atom (a ++ c ∷ r) ≡ (a, c ∷ r)
unfolding span_atom
span_atom_run [] c r ha hc = rw hc
span_atom_run (b ∷ a) c r ha hc = ground (arith, span_atom_run a c r)

module _ (N : Numbers) where
  open N use {Float, float}

  -- A writer of numbers that the reader reads back.
  pub record IsReadBack (show : Float → Text) : Type 0 where
    pub looks : (x : Float) → is_number N (show x) ≡ true
    pub value : (x : Float) → float (show x) ≡ some x
    pub chars : (x : Float) → all is_atom_char (show x) ≡ true

  -- The items of a node and its closing parenthesis, before the text that follows.
  unfoldable pub write_items : (Float → Text) → Node Float → Text → Text
  write_items show nil k = b')' ∷ k
  write_items show (str s n) k = b'"' ∷ escape s ++ b'"' ∷ write_items show n k
  write_items show (num x n) k = show x ++ 32 ∷ write_items show n k
  write_items show (sub m n) k = b'(' ∷ write_items show m (write_items show n k)

  unfoldable pub write : (Float → Text) → Node Float → Text
  write show n = b'(' ∷ write_items show n []
