-- ===== src/Sexpr/RoundTrip.antt =====
-- Reading what was written gives the node back.
use emi_analyzer.Base.{
  ℕ, true, false, Option, none, List, [], ◌∷◌, ◌++◌, ◌≡◌, refl, ap, arith, all, Text, is_space, ◌∙◌,
  ◌≢◌,
}
use emi_analyzer.Sexpr.Tokens.{
  continue_with, tokens_from, quoted, run_of, next, token, string, atom, opening, closing, yield,
  Stream, tokens, is_atom_char, is_blank,
}
use emi_analyzer.Sexpr.Tree.{Numbers, Node, nil, str, num, sub, join}
use emi_analyzer.Sexpr.Tree.Join.{join-nil, join_assoc}
use emi_analyzer.Sexpr.Parser.{
  State, start, err, append_atom, with_top, Result, ok, run, step, is_number, parse, finish,
}
use emi_analyzer.Sexpr.Lexing.{tokens-next}
use emi_analyzer.Sexpr.Writer.{
  IsReadBack, write, write_items, escape, unescape-escape, scan_string-escape, span_atom_run,
}

tokens-open : (t : Text) → tokens (b'(' ∷ t) ≡ yield opening (tokens t)
unfolding next is_blank
tokens-open t = tokens-next (b'(' ∷ t)

tokens-close : (t : Text) → tokens (b')' ∷ t) ≡ yield closing (tokens t)
unfolding next is_blank
tokens-close t = tokens-next (b')' ∷ t)

tokens-space : (t : Text) → tokens (32 ∷ t) ≡ tokens t
unfolding next is_blank
tokens-space t = tokens-next (32 ∷ t)

next-quoted : (s t : Text) → next (b'"' ∷ escape s ++ b'"' ∷ t) ≡ token (string (escape s)) t
unfolding next is_blank
next-quoted s t = ap quoted (scan_string-escape s t)

tokens-quoted :
    (s t : Text) → tokens (b'"' ∷ escape s ++ b'"' ∷ t) ≡ yield (string (escape s)) (tokens t)
tokens-quoted s t =
    tokens-next (b'"' ∷ escape s ++ b'"' ∷ t) ∙ ap (continue_with tokens) (next-quoted s t)

is_space-blank : (c : ℕ) → is_blank c ≡ true → is_space c ≡ true
unfolding is_blank is_space
is_space-blank c h = ground arith

is_blank_lem : (c : ℕ) → is_atom_char c ≡ true → is_blank c ≡ false
unfolding is_atom_char
is_blank_lem c h = ground (arith, is_space-blank c)

next-atom :
    (c : ℕ) (a t : Text)
    → all is_atom_char (c ∷ a) ≡ true
    → next ((c ∷ a) ++ 32 ∷ t) ≡ token (atom (c ∷ a)) (32 ∷ t)
unfolding next is_atom_char is_space
next-atom c a t h = ground (arith, is_blank_lem c, ap run_of (span_atom_run (c ∷ a) 32 t h refl))

tokens-atom :
    (a t : Text)
    → a ≢ []
    → all is_atom_char a ≡ true
    → tokens (a ++ 32 ∷ t) ≡ yield (atom a) (tokens t)
tokens-atom [] t some_char h = absurd (some_char refl)
tokens-atom (c ∷ a) t some_char h =
    tokens-next (c ∷ (a ++ 32 ∷ t))
    ∙ ap (continue_with tokens) (next-atom c a t h)
    ∙ ap (yield (atom (c ∷ a))) (tokens-space t)

module _ (N : Numbers) where
  open N use {Float}

  -- A number's text is not empty.
  is_number-ne-nil : (a : Text) → is_number N a ≡ true → a ≢ []
  unfolding is_number
  is_number-ne-nil [] h = λ e. cc
  is_number-ne-nil (c ∷ a) h = λ e. cc

  abbrev at : Node Float → List (Node Float) → Option (Node Float) → State N
  at top rest r = record { stack = top ∷ rest; root = r }

  module _ (show : Float → Text) (back : IsReadBack N show) (rest : List (Node Float))
      (r : Option (Node Float)) where
    run-string :
        (s : Text) (top : Node Float) (ts : Stream)
        → run N (at top rest r) (yield (string (escape s)) ts)
          ≡ run N (at (join top (str s nil)) rest r) ts
    unfolding run step
    run-string s top ts = rw unescape-escape

    append_atom-show :
        (x : Float) (top : Node Float) → append_atom N top (show x) ≡ ok (join top (num x nil))
    append_atom-show x top = rw (back.looks x, back.value x)

    run-atom :
        (x : Float) (top : Node Float) (ts : Stream)
        → run N (at top rest r) (yield (atom (show x)) ts)
          ≡ run N (at (join top (num x nil)) rest r) ts
    unfolding run step
    run-atom x top ts =
        ap
          (λ (o : Result (Node Float)). elim (with_top N rest r o) [
            | ok s' ↦ run N s' ts
            | err e ↦ err e
          ])
          (append_atom-show x top)

    run-closing :
        (m top : Node Float) (ts : Stream)
        → run N (at m (top ∷ rest) r) (yield closing ts)
          ≡ run N (at (join top (sub m nil)) rest r) ts
    unfolding run step
    run-closing m top ts = refl

  run-opening :
      (stack : List (Node Float)) (r : Option (Node Float)) (ts : Stream)
      → run N (record { stack = stack; root = r }) (yield opening ts) ≡ run N (at nil stack r) ts
  unfolding run step
  run-opening stack r ts = refl

  -- One item more on the innermost node, and then the others.
  step_in :
      (i n top : Node Float) (rest : List (Node Float)) (r : Option (Node Float)) (k : Text)
      → run N (at (join (join top i) n) rest r) (yield closing (tokens k))
        ≡ run N (at (join top (join i n)) rest r) (yield closing (tokens k))
  step_in i n top rest r k =
      ap (λ (m : Node Float). run N (at m rest r) (yield closing (tokens k))) (join_assoc top i n)

  run-last : (n : Node Float) → run N (at (join nil n) [] none) (yield closing (tokens [])) ≡ ok n
  unfolding run step tokens tokens_from finish join
  run-last n = refl

  module _ (show : Float → Text) (back : IsReadBack N show) where
    tokens-number :
        (x : Float) (t : Text) → tokens (show x ++ 32 ∷ t) ≡ yield (atom (show x)) (tokens t)
    tokens-number x t =
        tokens-atom (show x) t (is_number-ne-nil (show x) (back.looks x)) (back.chars x)

    -- The reader goes over the items of a node and stands before its closing parenthesis.
    run-write_items :
        (n top : Node Float) (rest : List (Node Float)) (r : Option (Node Float)) (k : Text)
        → run N (at top rest r) (tokens (write_items N show n k))
          ≡ run N (at (join top n) rest r) (yield closing (tokens k))
    unfolding write_items join
    run-write_items nil top rest r k = ap (run N (at top rest r)) (tokens-close k) ∙ rw join-nil
    run-write_items (str s n) top rest r k =
        ap (run N (at top rest r)) (tokens-quoted s (write_items N show n k))
        ∙ run-string show back rest r s top (tokens (write_items N show n k))
        ∙ run-write_items n (join top (str s nil)) rest r k
        ∙ step_in (str s nil) n top rest r k
    run-write_items (num x n) top rest r k =
        ap (run N (at top rest r)) (tokens-number x (write_items N show n k))
        ∙ run-atom show back rest r x top (tokens (write_items N show n k))
        ∙ run-write_items n (join top (num x nil)) rest r k
        ∙ step_in (num x nil) n top rest r k
    run-write_items (sub m n) top rest r k =
        ap (run N (at top rest r)) (tokens-open (write_items N show m (write_items N show n k)))
        ∙ run-opening (top ∷ rest) r (tokens (write_items N show m (write_items N show n k)))
        ∙ run-write_items m nil (top ∷ rest) r (write_items N show n k)
        ∙ run-closing show back rest r (join nil m) top (tokens (write_items N show n k))
        ∙ run-write_items n (join top (sub (join nil m) nil)) rest r k
        ∙ step_in (sub m nil) n top rest r k

    -- Every node, whatever its texts hold, is read back from what the writer makes of it.
    pub parse-write : (n : Node Float) → parse N (write N show n) ≡ ok n
    unfolding parse write
    parse-write n =
        ap (run N (start N)) (tokens-open (write_items N show n []))
        ∙ run-opening [] none (tokens (write_items N show n []))
        ∙ run-write_items n nil [] none []
        ∙ run-last n
