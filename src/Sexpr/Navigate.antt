-- ===== src/Sexpr/Navigate.antt =====
-- The navigation helpers of kicad/sexpr.py.
use emi_analyzer.Base.{
  ℕ, Bool, true, false, not, ◌||◌, Option, none, some, List, [], ◌∷◌, ◌++◌, get_elem?,
  if◌then◌else◌, Text, text_eq, codes, lower,
}
use emi_analyzer.Sexpr.Tree.{Numbers, Node, nil, str, num, sub}

-- An item that is not a list.
pub data Atom (F : Type 0) : Type 0 where
  word : Text → Atom F
  amount : F → Atom F

module _ {F : Type 0} where
  unfoldable pub symbol : Node F → Text
  symbol (str s n) = s
  symbol _ = []

  unfoldable pub children : Node F → Text → List (Node F)
  unfolding symbol
  children nil name = []
  children (str s n) name = children n name
  children (num x n) name = children n name
  children (sub c n) name =
      let rest = children n name in if text_eq (symbol c) name then c ∷ rest else rest

  abbrev pub first : List (Node F) → Option (Node F)
  first [] = none
  first (c ∷ cs) = some c

  unfoldable pub child : Node F → Text → Option (Node F)
  unfolding children
  child node name = first (children node name)

  -- `[v for v in c if not isinstance(v, list)]`
  unfoldable pub atoms : Node F → List (Atom F)
  atoms nil = []
  atoms (str s n) = word s ∷ atoms n
  atoms (num x n) = amount x ∷ atoms n
  atoms (sub c n) = atoms n

  -- `c[1:]`
  unfoldable pub after_first : Node F → Node F
  after_first nil = nil
  after_first (str s n) = n
  after_first (num x n) = n
  after_first (sub c n) = n

  abbrev atoms_of : Option (Node F) → List (Atom F)
  atoms_of none = []
  atoms_of (some c) = atoms (after_first c)

  unfoldable pub values : Node F → Text → List (Atom F)
  unfolding child atoms after_first
  values node name = atoms_of (child node name)

  -- With no default given: none.
  unfoldable pub value : Node F → Text → ℕ → Option (Atom F)
  unfolding values
  value node name index = get_elem? (values node name) index

  -- `name in node`: an item that is this text.
  unfoldable pub has_text : Node F → Text → Bool
  has_text nil name = false
  has_text (str s n) name = text_eq s name || has_text n name
  has_text (num x n) name = has_text n name
  has_text (sub c n) name = has_text n name

abbrev is_nil : {F : Type 0} → Node F → Bool
is_nil nil = true
is_nil _ = false

module _ (N : Numbers) where
  open N use {Float, float}

  abbrev or_default : Option Float → Float → Float
  or_default none d = d
  or_default (some x) d = x

  abbrev to_number : Option (Atom Float) → Float → Float
  to_number none d = d
  to_number (some (amount x)) d = x
  to_number (some (word s)) d = or_default (float s) d

  unfoldable pub number : Node Float → Text → ℕ → Float → Float
  unfolding value
  number node name index default = to_number (value node name index) default

  -- Python's `str` of a float, and the code's own text of one (`str(int(v))` for a whole number).
  module _ (str_of name_of : Float → Text) where
    abbrev to_text : Option (Atom Float) → Text → Text
    to_text none d = d
    to_text (some (amount x)) d = name_of x
    to_text (some (word s)) d = s

    unfoldable pub text : Node Float → Text → ℕ → Text → Text
    unfolding value
    text node name index default = to_text (value node name index) default

    abbrev is_absent_word : Text → Bool
    is_absent_word w = text_eq w (codes "no") || text_eq w (codes "false") || text_eq w (codes "0")

    abbrev is_set : List (Atom Float) → Bool
    is_set [] = true
    is_set (amount x ∷ vs) = not (is_absent_word (lower (str_of x)))
    is_set (word s ∷ vs) = not (is_absent_word (lower s))

    -- The bare symbol form, where no child has the name.
    abbrev pub flag_of : Bool → Option (Node Float) → Bool
    flag_of bare none = bare
    flag_of bare (some c) = is_set (atoms (after_first c))

    unfoldable pub flag : Node Float → Text → Bool
    unfolding child atoms after_first has_text
    flag node name = flag_of (has_text node name) (child node name)

  -- `float(item)`, which raises on a list and on a text that is no number.
  abbrev float_item : Node Float → Option (Float × Node Float)
  float_item (num x n) = some (x, n)
  float_item (str s n) = elim (float s) [ none ↦ none | some x ↦ some (x, n) ]
  float_item _ = none

  abbrev float_atom : Atom Float → Option Float
  float_atom (amount x) = some x
  float_atom (word s) = float s

  infixl 5 ◌>>=◌
  abbrev ◌>>=◌ {ℓ κ} : {A : Type ℓ} {B : Type κ} → Option A → (A → Option B) → Option B
  none >>= f = none
  some a >>= f = f a

  -- `len(c) >= 2`, on what follows the symbol.
  abbrev has_two : Node Float → Bool
  has_two nil = false
  has_two (str _ n) = not (is_nil n)
  has_two (num _ n) = not (is_nil n)
  has_two (sub _ n) = not (is_nil n)

  abbrev xy_point : Node Float → Option (List (Float × Float))
  xy_point c =
      if has_two c
      then (do (x, rest) ← float_item c; (y, _) ← float_item rest; some ((x, y) ∷ []))
      else some []

  abbrev end_point : List (Atom Float) → Option (List (Float × Float))
  end_point (a ∷ b ∷ _) = do x ← float_atom a; y ← float_atom b; some ((x, y) ∷ [])
  end_point _ = some []

  abbrev arc_points : Node Float → Option (List (Float × Float))
  arc_points c = do
    s ← end_point (values c (codes "start"))
    m ← end_point (values c (codes "mid"))
    e ← end_point (values c (codes "end"))
    some (s ++ m ++ e)

  abbrev item_points : Node Float → Option (List (Float × Float))
  item_points c =
      if text_eq (symbol c) (codes "xy")
      then xy_point (after_first c)
      else if text_eq (symbol c) (codes "arc")
      then arc_points c
      else some []

  -- The loop over the items of `pts`; none where `float` raises.
  unfoldable pub points_of : Node Float → Option (List (Float × Float))
  unfolding symbol after_first values
  points_of nil = some []
  points_of (str s n) = points_of n
  points_of (num x n) = points_of n
  points_of (sub c n) = let rest = points_of n in do ps ← item_points c; qs ← rest; some (ps ++ qs)

  abbrev points_in : Option (Node Float) → Option (List (Float × Float))
  points_in none = some []
  points_in (some pts) = points_of (after_first pts)

  unfoldable pub points : Node Float → Option (List (Float × Float))
  unfolding child points_of
  points node = points_in (child node (codes "pts"))
