-- ===== src/Raster/Examples.antt =====
-- Merges of labels in worker/emi_worker/raster.py.
use emi_analyzer.Base.{ℕ, zero, suc, ◌<◌, some, List, [], ◌∷◌, ◌≡◌, refl, length, min, arith}
use emi_analyzer.Raster.UnionFind.{make, root_from, compress, find, union}
use emi_analyzer.Raster.UnionFind.Roots.{IsForest, root}
use emi_analyzer.Raster.UnionFind.Total.{IsSameForest, IsMerged, find_total, union_merges}
use emi_analyzer.Raster.UnionFind.Made.{make_fresh}

-- Background, and labels 1 to 4 of which 2, 3 and 4 are one tree.
abbrev parents : List ℕ
parents = 0 ∷ 1 ∷ 2 ∷ 2 ∷ 3 ∷ []

parents-IsForest : IsForest parents
parents-IsForest zero y e = ground arith
parents-IsForest (suc zero) y e = ground arith
parents-IsForest (suc (suc zero)) y e = ground arith
parents-IsForest (suc (suc (suc zero))) y e = ground arith
parents-IsForest (suc (suc (suc (suc zero)))) y e = ground arith
parents-IsForest (suc (suc (suc (suc (suc i))))) y e = ground arith

union_runs : union parents 4 1 ≡ some (1, 0 ∷ 1 ∷ 1 ∷ 2 ∷ 2 ∷ [])
unfolding union find root_from compress
union_runs = refl

find_total_example :
    (q : List ℕ) × (find parents 4 ≡ some (root parents 4, q)) × IsSameForest parents q
find_total_example = find_total parents 4 parents-IsForest (omega arith)

union_merges_example :
    (q : List ℕ) × (union parents 4 1 ≡ some (min (root parents 4) (root parents 1), q))
    × IsMerged parents q 4 1
union_merges_example = union_merges parents 4 1 parents-IsForest (omega arith) (omega arith)

make_fresh_example :
    ((make parents).0 ≡ length parents)
    × (length (make parents).1 ≡ suc (length parents))
    × IsForest (make parents).1
    × (root (make parents).1 (make parents).0 ≡ (make parents).0)
    × ((y : ℕ) → y < length parents → root (make parents).1 y ≡ root parents y)
make_fresh_example = make_fresh parents parents-IsForest
