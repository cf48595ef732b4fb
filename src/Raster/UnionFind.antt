-- ===== src/Raster/UnionFind.antt =====
-- `_UnionFind` of worker/emi_worker/raster.py. A state is the list `parent`; an index out of range is
-- none, where Python raises IndexError.
pub mod Roots
pub mod Merge
pub mod Total
pub mod Made
use emi_analyzer.Base.{
  ℕ, zero, suc, Bool, Option, none, some, List, [], ◌∷◌, ◌++◌, length, get_elem?, set, ltb, ◌==◌,
  if◌then◌else◌,
}

-- `__init__`
abbrev pub initial : List ℕ
initial = 0 ∷ []

-- `make`: the new label, and the state after it.
unfoldable pub make : List ℕ → ℕ × List ℕ
make parent = (length parent, parent ++ length parent ∷ [])

-- The first loop of `find`, on fuel.
unfoldable pub root_from : ℕ → List ℕ → ℕ → Option ℕ
root_from zero parent x = none
root_from (suc f) parent x = elim (get_elem? parent x) [
  | none ↦ none
  | some y ↦ let rest = root_from f parent y in if y == x then some x else rest
]

-- The second loop of `find`, the path compression.
unfoldable pub compress : ℕ → List ℕ → ℕ → ℕ → Option (List ℕ)
compress zero parent x root = none
compress (suc f) parent x root = elim (get_elem? parent x) [
  | none ↦ none
  | some y ↦
      let rest = compress f (set parent x root) y root in if y == root then some parent else rest
]

infixl 5 ◌>>=◌
abbrev pub ◌>>=◌ {ℓ κ} : {A : Type ℓ} {B : Type κ} → Option A → (A → Option B) → Option B
none >>= f = none
some a >>= f = f a

-- The fuel: a label's parent is never larger, so a path has at most as many labels as there are.
unfoldable pub find : List ℕ → ℕ → Option (ℕ × List ℕ)
find parent x = do
  root ← root_from (length parent) parent x
  after ← compress (length parent) parent x root
  some (root, after)

-- The larger root goes under the smaller one.
abbrev pub join_roots : ℕ → ℕ → List ℕ → Option (ℕ × List ℕ)
join_roots ra rb parent =
    if ra == rb
    then some (ra, parent)
    else if ltb ra rb
    then some (ra, set parent rb ra)
    else some (rb, set parent ra rb)

unfoldable pub union : List ℕ → ℕ → ℕ → Option (ℕ × List ℕ)
union parent a b = do (ra, p1) ← find parent a; (rb, p2) ← find p1 b; join_roots ra rb p2
