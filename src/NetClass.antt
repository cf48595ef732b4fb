-- ===== src/NetClass.antt =====
-- worker/emi_worker/kicad/netclass.py: which net is in which class, and which nets are a pair. Reading
-- the project file's JSON is not modelled.
pub mod Suffix
pub mod Pairing
pub mod Complete
pub mod Found
mod Examples
use emi_analyzer.Base.{
  ℕ, Bool, true, false, not, ◌||◌, ◌&&◌, Option, none, some, List, [], ◌∷◌, ◌++◌, if◌then◌else◌,
  ◌==◌, Text, text_eq, contains, codes,
}
use emi_analyzer.Base.Sorting.{sorted, text_le}

-- Python's floats as the code uses them (`bool(x)`), and `fnmatch.fnmatch(net, pattern)`.
pub record Library : Type 1 where
  pub Float : Type 0
  pub is_set : Float → Bool
  pub zero_mm : Float
  pub fnmatch : Text → Text → Bool

abbrev pub prepend : ℕ → Option Text → Option Text
prepend c none = none
prepend c (some t) = some (c ∷ t)

-- `net[: -len(suffix)]` where `net.endswith(suffix)`
unfoldable pub strip_suffix : Text → Text → Option Text
strip_suffix suffix [] = none
strip_suffix suffix (c ∷ t) =
    if text_eq (c ∷ t) suffix then some [] else prepend c (strip_suffix suffix t)

-- The stem where `net.endswith(suffix) and len(net) > len(suffix)`
abbrev pub not_empty : Option Text → Option Text
not_empty none = none
not_empty (some []) = none
not_empty (some (c ∷ t)) = some (c ∷ t)

abbrev pub stem : Text → Text → Option Text
stem suffix net = not_empty (strip_suffix suffix net)

abbrev pub drop_end : ℕ → Text → Text
drop_end c [] = if c == b'_' || c == b'-' then [] else c ∷ []
drop_end c (d ∷ t) = c ∷ d ∷ t

-- `.rstrip("_-")`
unfoldable pub rstrip : Text → Text
rstrip [] = []
rstrip (c ∷ t) = drop_end c (rstrip t)

abbrev pub pair_suffixes : List (Text × Text)
pair_suffixes =
    (codes "_P", codes "_N")
    ∷ (codes "_p", codes "_n")
    ∷ (codes "+", codes "-")
    ∷ (codes "P", codes "N")
    ∷ []

-- `PAIR_SUFFIXES[:3] + PAIR_ONLY_SUFFIXES + PAIR_SUFFIXES[3:]`
abbrev pub search_suffixes : List (Text × Text)
search_suffixes =
    (codes "_P", codes "_N")
    ∷ (codes "_p", codes "_n")
    ∷ (codes "+", codes "-")
    ∷ (codes "DP", codes "DM")
    ∷ (codes "dp", codes "dm")
    ∷ (codes "P", codes "N")
    ∷ []

abbrev pub or_half : Option Text → Bool → Option (Text × Bool) → Option (Text × Bool)
or_half none positive rest = rest
or_half (some s) positive rest = some (rstrip s, positive)

abbrev pub split_by : List (Text × Text) → Text → Option (Text × Bool)
split_by [] net = none
split_by ((pos, neg) ∷ more) net =
    or_half (stem pos net) true (or_half (stem neg net) false (split_by more net))

unfoldable pub split_pair_name : Text → Option (Text × Bool)
unfolding strip_suffix rstrip
split_pair_name net = split_by pair_suffixes net

-- An entry of `halves_by_base`.
pub record Halves : Type 0 where
  pub base : Text
  pub positive : Text
  pub negative : Text

-- The variables of the search loop.
pub record Search : Type 0 where
  pub used : List Text
  pub found : List Halves

abbrev pub try_stem : List Text → Text → Text → Option Text → Search → Search
try_stem nets neg net none s = s
try_stem nets neg net (some st) s =
    let partner = st ++ neg in
    if contains nets partner && not (contains s.used partner)
    then record {
      used = net ∷ partner ∷ s.used;
      found = s.found ++ record { base = rstrip st; positive = net; negative = partner } ∷ [];
    }
    else s

-- The body of the inner loop.
unfoldable pub try_net : List Text → Text → Text → Text → Search → Search
try_net nets pos neg net s =
    if contains s.used net then s else try_stem nets neg net (stem pos net) s

unfoldable pub try_nets : List Text → Text → Text → List Text → Search → Search
try_nets nets pos neg [] s = s
try_nets nets pos neg (net ∷ rest) s = try_nets nets pos neg rest (try_net nets pos neg net s)

-- Suffix by suffix.
unfoldable pub find_halves : List Text → List (Text × Text) → Search → Search
find_halves nets [] s = s
find_halves nets ((pos, neg) ∷ more) s = find_halves nets more (try_nets nets pos neg nets s)

abbrev pub nothing_found : Search
nothing_found = record { used = []; found = [] }

-- The sort key `(base, positive)`.
unfoldable pub halves_le : Halves → Halves → Bool
halves_le a b =
    if text_eq a.base b.base then text_le a.positive b.positive else text_le a.base b.base

unfoldable pub found_halves : List Text → List Halves
found_halves nets = sorted halves_le (find_halves nets search_suffixes nothing_found).found

module _ (X : Library) where
  open X use {Float, is_set, zero_mm, fnmatch}

  pub record Class : Type 0 where
    pub name : Text
    pub track_width_mm : Float
    pub diff_pair_width_mm : Float
    pub diff_pair_gap_mm : Float
    pub via_diameter_mm : Float

  pub record Classes : Type 0 where
    pub classes : List (Text × Class)
    pub assignment : List (Text × Text)
    pub patterns : List (Text × Text)

  pub data Source : Type 0 where
    by_netclass by_name : Source

  pub record DiffPair : Type 0 where
    pub base : Text
    pub positive : Text
    pub negative : Text
    pub netclass : Text
    pub gap_mm : Float
    pub width_mm : Float
    pub source : Source

  abbrev pub lookup {ℓ} : {V : Type ℓ} → Text → List (Text × V) → Option V
  lookup k [] = none
  lookup k ((j, v) ∷ m) = if text_eq j k then some v else lookup k m

  abbrev pub or_else {ℓ} : {A : Type ℓ} → Option A → A → A
  or_else none d = d
  or_else (some a) d = a

  abbrev pub has_class : Option Class → Bool
  has_class none = false
  has_class (some c) = true

  abbrev pub first_pattern : List (Text × Text) → Text → Text → Text
  first_pattern [] net d = d
  first_pattern ((pattern, cls) ∷ more) net d =
      if fnmatch net pattern then cls else first_pattern more net d

  -- `NetClasses.of`
  unfoldable pub class_of : Classes → Text → Text
  class_of cs net = or_else (lookup net cs.assignment) (
      first_pattern cs.patterns net
        (if has_class (lookup (codes "Default") cs.classes) then codes "Default" else []))

  -- `NetClasses.spec`
  unfoldable pub spec : Classes → Text → Option Class
  spec cs net = lookup (class_of cs net) cs.classes

  abbrev pub named_pair : Halves → Text → DiffPair
  named_pair h cls = record {
    base = h.base;
    positive = h.positive;
    negative = h.negative;
    netclass = cls;
    gap_mm = zero_mm;
    width_mm = zero_mm;
    source = by_name;
  }

  abbrev pub classed_pair : Halves → Text → Option Class → DiffPair
  classed_pair h cls none = named_pair h cls
  classed_pair h cls (some c) =
      if is_set c.diff_pair_gap_mm || is_set c.diff_pair_width_mm
      then record {
        base = h.base;
        positive = h.positive;
        negative = h.negative;
        netclass = c.name;
        gap_mm = c.diff_pair_gap_mm;
        width_mm = c.diff_pair_width_mm;
        source = by_netclass;
      }
      else named_pair h cls

  -- The body of the last loop of `find_pairs`.
  unfoldable pub pair_of : Option Classes → Halves → DiffPair
  pair_of none h = named_pair h []
  pair_of (some cs) h = classed_pair h (class_of cs h.positive) (spec cs h.positive)

  abbrev pub map_pairs : Option Classes → List Halves → List DiffPair
  map_pairs cs [] = []
  map_pairs cs (h ∷ hs) = pair_of cs h ∷ map_pairs cs hs

  unfoldable pub find_pairs : List Text → Option Classes → List DiffPair
  find_pairs nets cs = map_pairs cs (found_halves nets)
