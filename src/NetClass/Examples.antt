-- ===== src/NetClass/Examples.antt =====
-- The pairs of a small board.
use emi_analyzer.Base.{
  ℕ, zero, suc, ◌≤◌, Bool, true, false, none, some, List, [], ◌∷◌, ◌⊎◌, inl, refl, Text, text_eq,
  codes, count, All,
}
use emi_analyzer.NetClass.{Library, Class, Classes, find_pairs}
use emi_analyzer.NetClass.Pairing.{nets_of, IsPair}
use emi_analyzer.NetClass.Found.{pair_halves, find_pairs_real, find_pairs_once, find_pairs_complete}

abbrev set_if_positive : ℕ → Bool
set_if_positive zero = false
set_if_positive (suc n) = true

-- Patterns match by equality here.
abbrev small : Library
small = record { Float = ℕ; is_set = set_if_positive; zero_mm = 0; fnmatch = text_eq }

abbrev board : List Text
board =
    codes "USB2_DP"
    ∷ codes "CLK_N"
    ∷ codes "CLK_P"
    ∷ codes "USB2_DN"
    ∷ codes "USB2_DM"
    ∷ codes "STEP"
    ∷ []

abbrev usb : Class small
usb = record {
  name = codes "USB";
  track_width_mm = 2;
  diff_pair_width_mm = 2;
  diff_pair_gap_mm = 3;
  via_diameter_mm = 6;
}

abbrev classes : Classes small
classes = record {
  classes = (codes "USB", usb) ∷ [];
  assignment = (codes "USB2_DP", codes "USB") ∷ [];
  patterns = [];
}

find_pairs_real_example :
    All (IsPair board) (pair_halves small (find_pairs small board (some classes)))
find_pairs_real_example = find_pairs_real small board (some classes)

find_pairs_once_example :
    count (codes "USB2_DP") (nets_of (pair_halves small (find_pairs small board (some classes))))
    ≤ 1
find_pairs_once_example = find_pairs_once small board (some classes) (codes "USB2_DP")

find_pairs_complete_example :
    (1 ≤ count (codes "CLK_P") (nets_of (pair_halves small (find_pairs small board none))))
    ⊎ (1 ≤ count (codes "CLK_N") (nets_of (pair_halves small (find_pairs small board none))))
find_pairs_complete_example =
    find_pairs_complete small board none 67 (codes "LK") (codes "_P") (codes "_N")
      (inl (refl, refl)) refl refl
