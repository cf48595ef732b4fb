-- ===== src/Raster/UnionFind/Merge.antt =====
-- `find` and `union` of worker/emi_worker/raster.py against the roots of labels.
use native.Mathlib.Decide.{ℕ_discrete}
use emi_analyzer.Base.{
  ℕ, zero, suc, ◌≤◌, ◌<◌, some, List, [], ◌∷◌, ◌≡◌, ◌≢◌, refl, sym, ap, arith, ◌∙◌, length,
  get_elem?, set, ltb, ◌==◌, ◌&&◌, if◌then◌else◌,
}
use emi_analyzer.Raster.UnionFind.Roots.{
  IsForest, parent_or, parent_le, root, root-parent, root_end, root-fixed,
}

get_elem?-set :
    (p : List ℕ) (i j v : ℕ)
    → get_elem? (set p i v) j ≡ (if (i == j) && ltb i (length p) then some v else get_elem? p j)
get_elem?-set [] i j v = ground arith
get_elem?-set (x ∷ p) zero zero v = ground arith
get_elem?-set (x ∷ p) zero (suc j) v = ground arith
get_elem?-set (x ∷ p) (suc i) zero v = ground arith
get_elem?-set (x ∷ p) (suc i) (suc j) v = ground (arith, get_elem?-set p i j v)

pub length-set : (p : List ℕ) (i v : ℕ) → length (set p i v) ≡ length p
length-set [] i v = refl
length-set (x ∷ p) zero v = refl
length-set (x ∷ p) (suc i) v = ap suc (length-set p i v)

module _ (p : List ℕ) (w : IsForest p) (x r : ℕ) (hx : x < length p) (hr : r ≤ x) where
  pub IsForest-set : IsForest (set p x r)
  IsForest-set i y e = ground (arith, get_elem?-set p x i r, w i y)

  parent-set_ne :
      (y : ℕ) → y ≢ x → parent_or (get_elem? (set p x r) y) y ≡ parent_or (get_elem? p y) y
  parent-set_ne y ne = ground (arith, get_elem?-set p x y r)

  parent-set_self : parent_or (get_elem? (set p x r) x) x ≡ r
  parent-set_self = ground (arith, get_elem?-set p x x r)

  module _ (r_root : parent_or (get_elem? p r) r ≡ r) where
    root-set_root : root (set p x r) r ≡ r
    root-set_root = root-fixed (set p x r) r (elim (ℕ_discrete r x) [
      | yes same ↦ ap (λ (i : ℕ). parent_or (get_elem? (set p x r) i) i) same ∙ parent-set_self
      | no other ↦ parent-set_ne r other ∙ r_root
    ])

    root-set_self : root (set p x r) x ≡ r
    root-set_self =
        root-parent (set p x r) x IsForest-set
        ∙ ap (root (set p x r)) parent-set_self
        ∙ root-set_root

    -- The roots after `parent[x] = r`, where `x` stood under `s` or was the root `s`.
    root-set_ne :
        (y : ℕ) → y ≢ x → root (set p x r) y ≡ root (set p x r) (parent_or (get_elem? p y) y)
    root-set_ne y other =
        root-parent (set p x r) y IsForest-set ∙ ap (root (set p x r)) (parent-set_ne y other)

  -- Giving a label its own root as its parent moves no label's root.
  pub root-compress : r ≡ root p x → (n y : ℕ) → y < n → root (set p x r) y ≡ root p y
  root-compress same zero y h = absurd (omega arith)
  root-compress same (suc n) y h =
      let r_root : parent_or (get_elem? p r) r ≡ r = rw same (root_end p x w).0 in
      elim (ℕ_discrete y x) [
        | yes here ↦ rw here (root-set_self r_root ∙ same)
        | no other ↦ elim (ℕ_discrete (parent_or (get_elem? p y) y) y) [
          | yes fixed ↦
              root-fixed (set p x r) y (parent-set_ne y other ∙ fixed) ∙ sym (root-fixed p y fixed)
          | no up ↦
              let le = parent_le p w y in
              root-set_ne r_root y other
              ∙ root-compress same n (parent_or (get_elem? p y) y) (omega arith)
              ∙ sym (root-parent p y w)
        ]
      ]

  -- Giving a root another root as its parent moves exactly the labels under it.
  pub root-link :
      parent_or (get_elem? p r) r ≡ r
      → parent_or (get_elem? p x) x ≡ x
      → (n y : ℕ) → y < n
      → root (set p x r) y ≡ (if root p y == x then r else root p y)
  root-link r_root x_root zero y h = absurd (omega arith)
  root-link r_root x_root (suc n) y h = elim (ℕ_discrete y x) [
    | yes here ↦ ground (
      arith,
      ap (root p) here,
      ap (root (set p x r)) here,
      root-set_self r_root,
      root-fixed p x x_root,
    )
    | no other ↦ elim (ℕ_discrete (parent_or (get_elem? p y) y) y) [
      | yes fixed ↦
          ground
            (arith, root-fixed (set p x r) y (parent-set_ne y other ∙ fixed), root-fixed p y fixed)
      | no up ↦
          let le = parent_le p w y in
          root-set_ne r_root y other
          ∙ root-link r_root x_root n (parent_or (get_elem? p y) y) (omega arith)
          ∙ ap (λ (z : ℕ). if z == x then r else z) (sym (root-parent p y w))
    ]
  ]
