-- ===== src/Sexpr/Tree/Join.antt =====
-- `join` is the concatenation of the lists of kicad/sexpr.py.
use emi_analyzer.Base.{◌≡◌, refl, ap}
use emi_analyzer.Sexpr.Tree.{Node, nil, str, num, sub, join}

pub join-nil : {F : Type 0} (n : Node F) → join n nil ≡ n
unfolding join
join-nil nil = refl
join-nil (str s n) = ap (str s) (join-nil n)
join-nil (num x n) = ap (num x) (join-nil n)
join-nil (sub m n) = ap (sub m) (join-nil n)

pub join_assoc : {F : Type 0} (l m n : Node F) → join (join l m) n ≡ join l (join m n)
unfolding join
join_assoc nil m n = refl
join_assoc (str s l) m n = ap (str s) (join_assoc l m n)
join_assoc (num x l) m n = ap (num x) (join_assoc l m n)
join_assoc (sub k l) m n = ap (sub k) (join_assoc l m n)
