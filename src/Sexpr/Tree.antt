-- ===== src/Sexpr/Tree.antt =====
-- The nodes of kicad/sexpr.py, and Python's numbers as the reader uses them.
pub mod Join
use emi_analyzer.Base.{ℕ, Bool, Option, Text}

-- Python's floats and what `re` and `float` know of digits: `\d`, and `float(text)`, which is none
-- where it raises ValueError.
pub record Numbers : Type 1 where
  pub Float : Type 0
  pub is_digit : ℕ → Bool
  pub float : Text → Option Float

-- A Python list whose items are texts, floats and nodes: one constructor for each kind of first
-- item, and `nil` for the empty list.
pub data Node (F : Type 0) : Type 0 where
  nil : Node F
  str : Text → Node F → Node F
  num : F → Node F → Node F
  sub : Node F → Node F → Node F

-- `a + b` on lists.
unfoldable pub join : {F : Type 0} → Node F → Node F → Node F
join nil n = n
join (str s m) n = str s (join m n)
join (num x m) n = num x (join m n)
join (sub l m) n = sub l (join m n)
