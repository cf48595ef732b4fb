-- ===== src/Sexpr/Examples.antt =====
-- Small texts, and what the reader of kicad/sexpr.py makes of them.
use emi_analyzer.Base.{
  Bool, true, false, none, some, [], ◌∷◌, ◌≡◌, ◌↔◌, refl, ◌==◌, ◌||◌, Text, codes, text_eq,
  if◌then◌else◌, is_space, all, ◌++◌,
}
use emi_analyzer.Sexpr.Tokens.{
  next, tokens, tokens_from, is_atom_char, span_atom, scan_string, unescape, is_blank,
}
use emi_analyzer.Sexpr.Tree.{Numbers, Node, nil, str, num, sub, join}
use emi_analyzer.Sexpr.Parser.{
  parse, ok, err, run, step, finish, is_number, unbalanced_opening, unbalanced_closing,
  more_than_one, string_outside, atom_outside, no_expression, unexpected_character,
}
use emi_analyzer.Sexpr.Ends.{EndsAs, tokens-EndsAs}
use emi_analyzer.Sexpr.Writer.{IsReadBack, write}
use emi_analyzer.Sexpr.RoundTrip.{parse-write}
use emi_analyzer.Sexpr.Events.{events, expression}
use emi_analyzer.Sexpr.Accepts.{parse_exact}
use emi_analyzer.Sexpr.Navigate.{
  values, number, text, flag, points, symbol, children, child, atoms, after_first, points_of,
}
use emi_analyzer.Sexpr.Unknown.{lookups-unknown}

-- Two numbers, 0 and 1.
abbrev toy : Numbers
toy = record {
  Float = Bool;
  is_digit = λ c. c == b'0' || c == b'1';
  float = λ t.
      if text_eq t (codes "1")
      then some true
      else if text_eq t (codes "0")
      then some false
      else none;
}

abbrev toy_show : Bool → Text
toy_show true = codes "1"
toy_show false = codes "0"

toy_looks : (x : Bool) → is_number toy (toy_show x) ≡ true
unfolding is_number
toy_looks true = refl
toy_looks false = refl

toy_value : (x : Bool) → toy.float (toy_show x) ≡ some x
toy_value true = refl
toy_value false = refl

toy_chars : (x : Bool) → all is_atom_char (toy_show x) ≡ true
unfolding is_atom_char is_space
toy_chars true = refl
toy_chars false = refl

toy-IsReadBack : IsReadBack toy toy_show
toy-IsReadBack = record { looks = toy_looks; value = toy_value; chars = toy_chars }

-- `(at 1 "a\"b" (locked))`
abbrev sample : Node Bool
sample = str (codes "at") (num true (str (97 ∷ 34 ∷ 98 ∷ []) (sub (str (codes "locked") nil) nil)))

abbrev sample_text : Text
sample_text = codes "(at 1 \"a" ++ (92 ∷ codes "\"b\" (locked))")

program : Unit {0}
unfolding parse run step finish join unescape tokens tokens_from next is_blank span_atom scan_string
    is_atom_char is_number is_space
program = tt

parse-sample : parse toy sample_text ≡ ok sample
unfolding program
parse-sample = refl

parse_errors :
    (parse toy (codes "(a") ≡ err unbalanced_opening)
    × (parse toy (codes "(a))") ≡ err unbalanced_closing)
    × (parse toy (codes "(a)(b)") ≡ err more_than_one)
    × (parse toy (codes "\"a\"") ≡ err string_outside)
    × (parse toy (codes "a") ≡ err atom_outside)
    × (parse toy (codes " ") ≡ err no_expression)
    × (parse toy (codes "(\"a)") ≡ err (unexpected_character b'"'))
unfolding program
parse_errors = (refl, refl, refl, refl, refl, refl, refl)

parse-write_example : parse toy (write toy toy_show sample) ≡ ok sample
parse-write_example = parse-write toy toy_show toy-IsReadBack sample

parse_exact_example :
    (parse toy sample_text ≡ ok sample)
    ↔ (events toy (tokens sample_text) ≡ some (expression sample))
parse_exact_example = parse_exact toy sample_text sample

tokens-EndsAs_example : EndsAs (codes "(a 1)") (tokens (codes "(a 1)"))
tokens-EndsAs_example = tokens-EndsAs (codes "(a 1)")

abbrev locked : Node Bool
locked = str (codes "locked") nil

abbrev position : Node Bool
position = sub (str (codes "at") (num true (num false nil))) nil

locked_other : text_eq (symbol locked) (codes "at") ≡ false
unfolding symbol
locked_other = refl

lookups-unknown_example :
    (values (join position (sub locked nil)) (codes "at") ≡ values (join position nil) (codes "at"))
    × (number toy (join position (sub locked nil)) (codes "at") 0 false
        ≡ number toy (join position nil) (codes "at") 0 false)
    × (text toy toy_show toy_show (join position (sub locked nil)) (codes "at") 0 []
        ≡ text toy toy_show toy_show (join position nil) (codes "at") 0 [])
    × (flag toy toy_show toy_show (join position (sub locked nil)) (codes "at")
        ≡ flag toy toy_show toy_show (join position nil) (codes "at"))
lookups-unknown_example =
    lookups-unknown toy toy_show toy_show locked (codes "at") locked_other position nil 0 false []

reading : Unit {0}
unfolding points points_of values child children symbol atoms after_first
reading = tt

points-sample :
    points toy (sub (str (codes "pts") (sub (str (codes "xy") (num true (num false nil))) nil)) nil)
    ≡ some ((true, false) ∷ [])
unfolding reading
points-sample = refl
