-- ===== src/Sexpr/Unknown.antt =====
-- A key that the code does not ask for changes no answer of kicad/sexpr.py.
use emi_analyzer.Base.{ℕ, false, ◌≡◌, refl, arith, Text, text_eq}
use mathlib.Core.Path.{ap₂}
use emi_analyzer.Sexpr.Tree.{Numbers, Node, nil, str, num, sub, join}
use emi_analyzer.Sexpr.Navigate.{
  symbol, children, child, values, value, has_text, number, text, flag, flag_of,
}

module _ {F : Type 0} (c : Node F) (name : Text) (other : text_eq (symbol c) name ≡ false) where
  children-unknown : (a b : Node F) → children (join a (sub c b)) name ≡ children (join a b) name
  unfolding children join
  children-unknown nil b = rw other
  children-unknown (str s a) b = children-unknown a b
  children-unknown (num x a) b = children-unknown a b
  children-unknown (sub d a) b = ground (arith, children-unknown a b)

  child-unknown : (a b : Node F) → child (join a (sub c b)) name ≡ child (join a b) name
  unfolding child
  child-unknown a b = rw (children-unknown a b)

  has_text-unknown : (a b : Node F) → has_text (join a (sub c b)) name ≡ has_text (join a b) name
  unfolding has_text join
  has_text-unknown nil b = refl
  has_text-unknown (str s a) b = ground (arith, has_text-unknown a b)
  has_text-unknown (num x a) b = has_text-unknown a b
  has_text-unknown (sub d a) b = has_text-unknown a b

module _ (N : Numbers) where
  open N use {Float}

  -- A child node with another symbol, wherever it stands in a node, changes neither the values under
  -- a name nor the number, the text or the flag read from there, whatever the default and the index.
  pub lookups-unknown :
      (str_of name_of : Float → Text) (c : Node Float) (name : Text)
      → text_eq (symbol c) name ≡ false
      → (a b : Node Float) (index : ℕ) (x : Float) (t : Text)
      → (values (join a (sub c b)) name ≡ values (join a b) name)
        × (number N (join a (sub c b)) name index x ≡ number N (join a b) name index x)
        × (text N str_of name_of (join a (sub c b)) name index t
            ≡ text N str_of name_of (join a b) name index t)
        × (flag N str_of name_of (join a (sub c b)) name ≡ flag N str_of name_of (join a b) name)
  unfolding values value number text flag
  lookups-unknown str_of name_of c name other a b index x t = (
    rw (child-unknown c name other a b),
    rw (child-unknown c name other a b),
    rw (child-unknown c name other a b),
    ap₂ (flag_of N str_of name_of) (has_text-unknown c name other a b)
        (child-unknown c name other a b),
  )
