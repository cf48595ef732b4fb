-- ===== src/NetClass/Found.antt =====
-- What `find_pairs` of kicad/netclass.py promises of the nets of a board.
use emi_analyzer.Base.{
  ℕ, ◌≤◌, true, ◌||◌, List, [], ◌∷◌, ◌++◌, Option, some, none, ◌≡◌, ◌⊎◌, refl, ◌∙◌, arith, Text,
  Bool-cases, inl, inr, contains, count, contains_pos, All,
}
use emi_analyzer.Base.Sorting.{insert, sorted, All-sorted}
use emi_analyzer.NetClass.{
  Library, Halves, Classes, Class, DiffPair, halves_le, found_halves, find_halves, nothing_found,
  search_suffixes, pair_of, map_pairs, find_pairs, classed_pair,
}
use emi_analyzer.NetClass.Pairing.{nets_of, IsPair, searched-IsSound}
use emi_analyzer.NetClass.Complete.{IsIn, search_suffixes_nonempty, find_halves-takes}

count-insert :
    (x : Text) (h : Halves) (hs : List Halves)
    → count x (nets_of (insert halves_le h hs)) ≡ count x (nets_of (h ∷ hs))
unfolding insert
count-insert x h [] = refl
count-insert x h (k ∷ hs) = elim (Bool-cases (halves_le h k)) [
  | inl first ↦ rw first refl
  | inr later ↦ rw later (ground (arith, count-insert x h hs))
]

count-sorted :
    (x : Text) (hs : List Halves) → count x (nets_of (sorted halves_le hs)) ≡ count x (nets_of hs)
unfolding sorted
count-sorted x [] = refl
count-sorted x (h ∷ hs) = count-insert x h (sorted halves_le hs) ∙ ground (arith, count-sorted x hs)

found_halves-count :
    (nets : List Text) (x : Text)
    → count x (nets_of (found_halves nets))
      ≡ count x (find_halves nets search_suffixes nothing_found).used
unfolding found_halves
found_halves-count nets x = count-sorted x _ ∙ (searched-IsSound nets).listed x

module _ (X : Library) where
  -- The names in the pairs.
  abbrev pub halves_of : DiffPair X → Halves
  halves_of p = record { base = p.base; positive = p.positive; negative = p.negative }

  abbrev pub pair_halves : List (DiffPair X) → List Halves
  pair_halves [] = []
  pair_halves (p ∷ ps) = halves_of p ∷ pair_halves ps

  halves_of-classed_pair :
      (h : Halves) (cls : Text) (o : Option (Class X)) → halves_of (classed_pair X h cls o) ≡ h
  halves_of-classed_pair h cls none = refl
  halves_of-classed_pair h cls (some c) =
      elim (Bool-cases (X.is_set c.diff_pair_gap_mm || X.is_set c.diff_pair_width_mm)) [
        | inl set ↦ rw set refl
        | inr unset ↦ rw unset refl
      ]

  halves_of-pair_of : (cs : Option (Classes X)) (h : Halves) → halves_of (pair_of X cs h) ≡ h
  unfolding pair_of
  halves_of-pair_of none h = refl
  halves_of-pair_of (some cs) h = halves_of-classed_pair h _ _

  pair_halves-map_pairs :
      (cs : Option (Classes X)) (hs : List Halves) → pair_halves (map_pairs X cs hs) ≡ hs
  pair_halves-map_pairs cs [] = refl
  pair_halves-map_pairs cs (h ∷ hs) = rw (halves_of-pair_of cs h, pair_halves-map_pairs cs hs) refl

  pair_halves-find_pairs :
      (nets : List Text) (cs : Option (Classes X))
      → pair_halves (find_pairs X nets cs) ≡ found_halves nets
  unfolding find_pairs
  pair_halves-find_pairs nets cs = pair_halves-map_pairs cs (found_halves nets)

  -- Both halves of each pair that `find_pairs` returns are nets of the board. They are one stem that is
  -- not empty, with the two suffixes of one entry of the list behind it, and the pair's base is the stem
  -- less the `_` and `-` at its end.
  pub find_pairs_real :
      (nets : List Text) (cs : Option (Classes X))
      → All (IsPair nets) (pair_halves (find_pairs X nets cs))
  unfolding found_halves
  find_pairs_real nets cs =
      rw (pair_halves-find_pairs nets cs)
        ((All-sorted halves_le (IsPair nets) _).1 (searched-IsSound nets).pairs)

  -- A net is a half of at most one of the pairs that `find_pairs` returns.
  pub find_pairs_once :
      (nets : List Text) (cs : Option (Classes X)) (x : Text)
      → count x (nets_of (pair_halves (find_pairs X nets cs))) ≤ 1
  find_pairs_once nets cs x =
      rw (pair_halves-find_pairs nets cs, found_halves-count nets x)
        ((searched-IsSound nets).once x)

  -- Where a name that is not empty, with the two suffixes of one entry of the list behind it, gives two
  -- nets of the board, `find_pairs` returns a pair that has one of the two nets.
  pub find_pairs_complete :
      (nets : List Text) (cs : Option (Classes X)) (c : ℕ) (t pos neg : Text)
      → IsIn pos neg search_suffixes
      → contains nets ((c ∷ t) ++ pos) ≡ true
      → contains nets ((c ∷ t) ++ neg) ≡ true
      → (1 ≤ count ((c ∷ t) ++ pos) (nets_of (pair_halves (find_pairs X nets cs))))
        ⊎ (1 ≤ count ((c ∷ t) ++ neg) (nets_of (pair_halves (find_pairs X nets cs))))
  find_pairs_complete nets cs c t pos neg listed there there' =
      rw (pair_halves-find_pairs nets cs)
        (elim (find_halves-takes nets c t pos neg (search_suffixes_nonempty pos neg listed) there'
          search_suffixes nothing_found listed there) [
            | inl a ↦ inl (
                rw (found_halves-count nets ((c ∷ t) ++ pos)) (
                  contains_pos ((c ∷ t) ++ pos)
                    (find_halves nets search_suffixes nothing_found).used a))
            | inr b ↦ inr (
                rw (found_halves-count nets ((c ∷ t) ++ neg)) (
                  contains_pos ((c ∷ t) ++ neg)
                    (find_halves nets search_suffixes nothing_found).used b))
          ])
