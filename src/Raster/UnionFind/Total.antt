-- ===== src/Raster/UnionFind/Total.antt =====
-- What `find` and `union` of worker/emi_worker/raster.py return on labels that were made.
use native.Mathlib.Decide.{ℕ_discrete, dec_lt}
use emi_analyzer.Base.{
  ℕ, zero, suc, ◌<◌, some, List, ◌≡◌, ◌≢◌, refl, sym, ap, arith, ◌∙◌, length, set, ◌==◌, ◌||◌, min,
  if◌then◌else◌,
}
use emi_analyzer.Raster.UnionFind.{compress, find, union, join_roots}
use emi_analyzer.Raster.UnionFind.Roots.{
  IsForest, parent_or, root, root-parent, root_end, root-fixed, root-root, root_from-eq-root,
  get_elem?-lt,
}
use emi_analyzer.Raster.UnionFind.Merge.{IsForest-set, length-set, root-compress, root-link}

-- The same labels with the same roots.
pub record IsSameForest (p q : List ℕ) : Type 0 where
  pub forest : IsForest q
  pub labels : length q ≡ length p
  pub roots : (y : ℕ) → root q y ≡ root p y

compress_lem :
    (f : ℕ) (p : List ℕ) (x : ℕ)
    → IsForest p
    → x < length p
    → x < f
    → (q : List ℕ) × (compress f p x (root p x) ≡ some q) × IsSameForest p q
unfolding compress
compress_lem zero p x w hx hf = absurd (omega arith)
compress_lem (suc f) p x w hx hf =
    let (y, e) = get_elem?-lt p x hx in
    let r : ℕ = root p x in
    let le = w x y e in
    let r_le = (root_end p x w).1 in
    elim (ℕ_discrete y r) [
      | yes ends ↦ (p, ground (arith, e), record { forest = w; labels = refl; roots = λ z. refl })
      | no goes_on ↦
          let p' : List ℕ = set p x r in
          let w' : IsForest p' = IsForest-set p w x r hx r_le in
          let same : (z : ℕ) → root p' z ≡ root p z =
            λ z. root-compress p w x r hx r_le refl (suc z) z (omega arith) in
          let up : root p x ≡ root p y = root-parent p x w ∙ ap (λ o. root p (parent_or o x)) e in
          let below : y ≢ x = λ same_label.
            goes_on (same_label ∙ sym (root-fixed p x (ap (λ o. parent_or o x) e ∙ same_label))) in
          let (q, found, kept) =
            compress_lem f p' y w' (omega (arith, length-set p x r)) (omega arith) in
          (
            q,
            ground (arith, e, ap (compress f p' y) (same y ∙ sym up), found),
            record {
              forest = kept.forest;
              labels = kept.labels ∙ length-set p x r;
              roots = λ z. kept.roots z ∙ same z;
            },
          )
    ]

-- `find` returns on every label that was made: it gives the label's root, and the path compression
-- keeps the labels and every label's root.
pub find_total :
    (p : List ℕ) (x : ℕ)
    → IsForest p
    → x < length p
    → (q : List ℕ) × (find p x ≡ some (root p x, q)) × IsSameForest p q
unfolding find
find_total p x w hx =
    let (q, made, kept) = compress_lem (length p) p x w hx hx in
    (q, rw (root_from-eq-root (length p) p x w hx hx) (rw made), kept)

-- The roots after a merge of two trees: their labels have the smaller root, the others keep theirs.
abbrev pub merged : List ℕ → ℕ → ℕ → ℕ → ℕ
merged p a b y =
    if (root p y == root p a) || (root p y == root p b) then min (root p a) (root p b) else root p y

pub record IsMerged (p q : List ℕ) (a b : ℕ) : Type 0 where
  pub forest : IsForest q
  pub labels : length q ≡ length p
  pub roots : (y : ℕ) → root q y ≡ merged p a b y

-- One root put under another, in a forest with the roots of `p`.
link_lem :
    (p q : List ℕ) (a b lo hi : ℕ)
    → IsForest p
    → IsSameForest p q
    → lo < hi
    → hi < length p
    → root p lo ≡ lo
    → root p hi ≡ hi
    → ((y : ℕ) → (if root p y == hi then lo else root p y) ≡ merged p a b y)
    → IsMerged p (set q hi lo) a b
link_lem p q a b lo hi wp kept lt hh lo_root hi_root agree =
    let fixed_lo = (root_end q lo kept.forest).0 in
    let fixed_hi = (root_end q hi kept.forest).0 in
    let hq : hi < length q = omega (arith, kept.labels) in
    let lo' : root q lo ≡ lo = kept.roots lo ∙ lo_root in
    let hi' : root q hi ≡ hi = kept.roots hi ∙ hi_root in
    record {
      forest = IsForest-set q kept.forest hi lo hq (omega arith);
      labels = length-set q hi lo ∙ kept.labels;
      roots = λ y.
          root-link q kept.forest hi lo hq (omega arith) (rw lo' at fixed_lo) (rw hi' at fixed_hi)
            (suc y) y (omega arith)
          ∙ ap (λ (r : ℕ). if r == hi then lo else r) (kept.roots y)
          ∙ agree y;
    }

IsSameForest-trans : {p q s : List ℕ} → IsSameForest p q → IsSameForest q s → IsSameForest p s
IsSameForest-trans h k = record {
  forest = k.forest;
  labels = k.labels ∙ h.labels;
  roots = λ y. k.roots y ∙ h.roots y;
}

module _ (p q : List ℕ) (a b : ℕ) (w : IsForest p) (ha : a < length p) (hb : b < length p)
    (kept : IsSameForest p q) where
  join_roots_lem :
      (s : List ℕ) × (join_roots (root p a) (root p b) q ≡ some (min (root p a) (root p b), s))
      × IsMerged p s a b
  join_roots_lem =
      let ra_le = (root_end p a w).1 in
      let rb_le = (root_end p b w).1 in
      elim (dec_lt (root p a) (root p b)) [
        | yes below ↦ (
          set q (root p b) (root p a),
          ground arith,
          link_lem p q a b (root p a) (root p b) w kept below (omega arith) (root-root p a w)
              (root-root p b w) (λ y. ground arith),
        )
        | no not_below ↦ elim (dec_lt (root p b) (root p a)) [
          | yes above ↦ (
            set q (root p a) (root p b),
            ground arith,
            link_lem p q a b (root p b) (root p a) w kept above (omega arith) (root-root p b w)
                (root-root p a w) (λ y. ground arith),
          )
          | no not_above ↦ (
            q,
            ground arith,
            record {
              forest = kept.forest;
              labels = kept.labels;
              roots = λ y. ground (arith, kept.roots y);
            },
          )
        ]
      ]

-- `union` returns on every two labels that were made: the smaller of their roots, and a state with
-- the same labels in which exactly the labels of the two trees have that root.
pub union_merges :
    (p : List ℕ) (a b : ℕ)
    → IsForest p
    → a < length p
    → b < length p
    → (q : List ℕ) × (union p a b ≡ some (min (root p a) (root p b), q)) × IsMerged p q a b
unfolding union
union_merges p a b w ha hb =
    let (p1, found_a, kept_a) = find_total p a w ha in
    let (p2, found_b, kept_b) = find_total p1 b kept_a.forest (omega (arith, kept_a.labels)) in
    let kept : IsSameForest p p2 = IsSameForest-trans kept_a kept_b in
    let (q, joined, after) = join_roots_lem p p2 a b w ha hb kept in
    (q, rw found_a (rw found_b (rw (kept_a.roots b) joined)), after)
