-- ===== src/Raster/UnionFind/Roots.antt =====
-- The root of a label, as a function: what `find` of worker/emi_worker/raster.py is stated against.
use emi_analyzer.Base.{
  ℕ, zero, suc, ◌≤◌, ◌<◌, Option, none, some, List, [], ◌∷◌, ◌≡◌, refl, sym, ap, arith, ◌∙◌, length,
  get_elem?,
}
use native.Mathlib.Decide.{ℕ_discrete}
use emi_analyzer.Raster.UnionFind.{root_from}

-- No parent is larger than its child.
abbrev pub IsForest : List ℕ → Type 0
IsForest p = (i y : ℕ) → get_elem? p i ≡ some y → y ≤ i

abbrev pub parent_or : Option ℕ → ℕ → ℕ
parent_or none x = x
parent_or (some y) x = y

abbrev root_fuel : ℕ → List ℕ → ℕ → ℕ
root_fuel zero p x = x
root_fuel (suc f) p x = root_fuel f p (parent_or (get_elem? p x) x)

-- The end of the path up from a label.
pub root : List ℕ → ℕ → ℕ
root p x = root_fuel x p x

pub get_elem?-lt : (p : List ℕ) (i : ℕ) → i < length p → (y : ℕ) × (get_elem? p i ≡ some y)
get_elem?-lt [] i h = absurd (omega arith)
get_elem?-lt (x ∷ p) zero h = (x, refl)
get_elem?-lt (x ∷ p) (suc i) h = get_elem?-lt p i (omega arith)

pub parent_le : (p : List ℕ) → IsForest p → (x : ℕ) → parent_or (get_elem? p x) x ≤ x
parent_le p w x = ground (arith, w x (parent_or (get_elem? p x) x))

-- A root stays where it is.
root_fuel-stay :
    (f : ℕ) (p : List ℕ) (x : ℕ) → parent_or (get_elem? p x) x ≡ x → root_fuel f p x ≡ x
root_fuel-stay zero p x h = refl
root_fuel-stay (suc f) p x h = rw h (root_fuel-stay f p x h)

root_fuel-enough :
    (f g : ℕ) (p : List ℕ) (x : ℕ) → IsForest p → x ≤ f → x ≤ g → root_fuel f p x ≡ root_fuel g p x
root_fuel-enough zero zero p x w hf hg = refl
root_fuel-enough zero (suc g) p x w hf hg =
    sym (root_fuel-stay (suc g) p x (omega (arith, parent_le p w x)))
root_fuel-enough (suc f) zero p x w hf hg =
    root_fuel-stay (suc f) p x (omega (arith, parent_le p w x))
root_fuel-enough (suc f) (suc g) p x w hf hg = elim (ℕ_discrete (parent_or (get_elem? p x) x) x) [
  | yes same ↦ root_fuel-stay (suc f) p x same ∙ sym (root_fuel-stay (suc g) p x same)
  | no up ↦
      let le = parent_le p w x in
      root_fuel-enough f g p (parent_or (get_elem? p x) x) w (omega arith) (omega arith)
]

-- The path goes on from the parent.
pub root-parent :
    (p : List ℕ) (x : ℕ) → IsForest p → root p x ≡ root p (parent_or (get_elem? p x) x)
unfolding root
root-parent p x w =
    root_fuel-enough x (suc x) p x w (omega arith) (omega arith)
    ∙ root_fuel-enough x (parent_or (get_elem? p x) x) p (parent_or (get_elem? p x) x) w
        (parent_le p w x) (omega arith)

root_fuel_end :
    (f : ℕ) (p : List ℕ) (x : ℕ)
    → IsForest p
    → x ≤ f
    → (parent_or (get_elem? p (root_fuel f p x)) (root_fuel f p x) ≡ root_fuel f p x)
      × (root_fuel f p x ≤ x)
root_fuel_end zero p x w h = (omega (arith, parent_le p w x), omega arith)
root_fuel_end (suc f) p x w h = elim (ℕ_discrete (parent_or (get_elem? p x) x) x) [
  | yes same ↦ rw (root_fuel-stay (suc f) p x same) (same, omega arith)
  | no up ↦
      let le = parent_le p w x in
      let (fixed, less) = root_fuel_end f p (parent_or (get_elem? p x) x) w (omega arith) in
      (fixed, omega arith)
]

-- The root is its own parent, and no larger than the label.
pub root_end :
    (p : List ℕ) (x : ℕ)
    → IsForest p
    → (parent_or (get_elem? p (root p x)) (root p x) ≡ root p x) × (root p x ≤ x)
unfolding root
root_end p x w = root_fuel_end x p x w (omega arith)

pub root-fixed : (p : List ℕ) (x : ℕ) → parent_or (get_elem? p x) x ≡ x → root p x ≡ x
unfolding root
root-fixed p x h = root_fuel-stay x p x h

pub root-root : (p : List ℕ) (x : ℕ) → IsForest p → root p (root p x) ≡ root p x
root-root p x w = root-fixed p (root p x) (root_end p x w).0

-- The first loop of `find` ends at the root.
pub root_from-eq-root :
    (f : ℕ) (p : List ℕ) (x : ℕ)
    → IsForest p
    → x < length p
    → x < f
    → root_from f p x ≡ some (root p x)
unfolding root_from
root_from-eq-root zero p x w hx hf = absurd (omega arith)
root_from-eq-root (suc f) p x w hx hf =
    let (y, e) = get_elem?-lt p x hx in
    let up : root p x ≡ root p y = root-parent p x w ∙ ap (λ o. root p (parent_or o x)) e in
    elim (ℕ_discrete y x) [
      | yes same ↦ ground (arith, e, root-fixed p x (ap (λ o. parent_or o x) e ∙ same))
      | no other ↦
          let le = w x y e in
          ground (arith, e, up, root_from-eq-root f p y w (omega arith) (omega arith))
    ]
