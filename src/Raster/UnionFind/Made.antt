-- ===== src/Raster/UnionFind/Made.antt =====
-- `make` of worker/emi_worker/raster.py.
use native.Mathlib.Decide.{ℕ_discrete}
use emi_analyzer.Base.{
  ℕ, zero, suc, ◌<◌, some, List, [], ◌∷◌, ◌++◌, ◌≡◌, refl, sym, ap, arith, ◌∙◌, length, get_elem?,
  ◌==◌, if◌then◌else◌,
}
use emi_analyzer.Raster.UnionFind.{make}
use emi_analyzer.Raster.UnionFind.Roots.{
  IsForest, parent_or, parent_le, root, root-parent, root-fixed,
}

get_elem?-snoc :
    (p : List ℕ) (v i : ℕ)
    → get_elem? (p ++ v ∷ []) i ≡ (if i == length p then some v else get_elem? p i)
get_elem?-snoc [] v zero = ground arith
get_elem?-snoc [] v (suc i) = ground arith
get_elem?-snoc (x ∷ p) v zero = ground arith
get_elem?-snoc (x ∷ p) v (suc i) = ground (arith, get_elem?-snoc p v i)

IsForest-make : (p : List ℕ) → IsForest p → IsForest (make p).1
unfolding make
IsForest-make p w i y e = ground (arith, get_elem?-snoc p (length p) i, w i y)

length-snoc : (p : List ℕ) (v : ℕ) → length (p ++ v ∷ []) ≡ suc (length p)
length-snoc [] v = refl
length-snoc (x ∷ p) v = ap suc (length-snoc p v)

root_old :
    (p : List ℕ) → IsForest p → (n y : ℕ) → y < n → y < length p → root (make p).1 y ≡ root p y
unfolding make
root_old p w zero y h hy = absurd (omega arith)
root_old p w (suc n) y h hy =
    let same : parent_or (get_elem? (make p).1 y) y ≡ parent_or (get_elem? p y) y =
      ground (arith, get_elem?-snoc p (length p) y) in
    elim (ℕ_discrete (parent_or (get_elem? p y) y) y) [
      | yes fixed ↦ root-fixed (make p).1 y (same ∙ fixed) ∙ sym (root-fixed p y fixed)
      | no up ↦
          let le = parent_le p w y in
          root-parent (make p).1 y (IsForest-make p w)
          ∙ ap (root (make p).1) same
          ∙ root_old p w n (parent_or (get_elem? p y) y) (omega arith) (omega arith)
          ∙ sym (root-parent p y w)
    ]

root_new : (p : List ℕ) → root (make p).1 (length p) ≡ length p
unfolding make
root_new p =
    root-fixed (make p).1 (length p) (ground (arith, get_elem?-snoc p (length p) (length p)))

-- `make` gives a label that was not there, alone in its tree; the labels that were there keep their
-- roots.
pub make_fresh :
    (p : List ℕ)
    → IsForest p
    → ((make p).0 ≡ length p)
      × (length (make p).1 ≡ suc (length p))
      × IsForest (make p).1
      × (root (make p).1 (make p).0 ≡ (make p).0)
      × ((y : ℕ) → y < length p → root (make p).1 y ≡ root p y)
unfolding make
make_fresh p w = (
  refl,
  length-snoc p (length p),
  IsForest-make p w,
  root_new p,
  λ y h. root_old p w (suc y) y (omega arith) h,
)
