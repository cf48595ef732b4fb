-- ===== src/NetClass/Pairing.antt =====
-- What `find_pairs` of kicad/netclass.py finds: an invariant of its search loop.
use emi_analyzer.Base.{
  ◌+◌, ◌≤◌, true, false, Option, none, some, List, [], ◌∷◌, ◌++◌, ◌≡◌, ◌≢◌, ◌⊎◌, refl, sym, ◌∙◌,
  arith, Text, text_eq, text_eq_iff, Bool-cases, inl, inr, contains, count, contains-count, All,
  All-append,
}
use emi_analyzer.NetClass.{
  stem, rstrip, Halves, Search, try_stem, try_net, try_nets, find_halves, nothing_found,
  search_suffixes,
}
use emi_analyzer.NetClass.Suffix.{stem_splits, append_cancel}

abbrev pub nets_of : List Halves → List Text
nets_of [] = []
nets_of (h ∷ hs) = h.positive ∷ h.negative ∷ nets_of hs

-- The pair is a stem with the two halves of one suffix, its base the trimmed stem.
abbrev pub IsSplit : List (Text × Text) → Halves → Type 0
IsSplit [] h = ⊥
IsSplit ((pos, neg) ∷ more) h =
    ((st : Text) × (st ≢ [])
      × (h.positive ≡ st ++ pos)
      × (h.negative ≡ st ++ neg)
      × (h.base ≡ rstrip st))
    ⊎ IsSplit more h

-- Both halves are nets of the board.
abbrev pub IsPair : List Text → Halves → Type 0
IsPair nets h =
    (contains nets h.positive ≡ true)
    × (contains nets h.negative ≡ true)
    × IsSplit search_suffixes h

pub record IsSound (nets : List Text) (s : Search) : Type 0 where
  pub pairs : All (IsPair nets) s.found
  pub listed : (x : Text) → count x (nets_of s.found) ≡ count x s.used
  pub once : (x : Text) → count x s.used ≤ 1

count-nets_of_append :
    (x : Text) (a b : List Halves)
    → count x (nets_of (a ++ b)) ≡ count x (nets_of a) + count x (nets_of b)
count-nets_of_append x [] b = omega arith
count-nets_of_append x (h ∷ a) b = ground (arith, count-nets_of_append x a b)

listed-append :
    (x : Text) (new : Halves) (found : List Halves) (used : List Text)
    → count x (nets_of found) ≡ count x used
    → count x (nets_of (found ++ new ∷ [])) ≡ count x (new.positive ∷ new.negative ∷ used)
listed-append x new found used h = ground (arith, h, count-nets_of_append x found (new ∷ []))

-- A new text in a list whose texts stand there once.
count-new :
    (x a : Text) (l : List Text)
    → contains l a ≡ false
    → count x l ≤ 1
    → (count x (a ∷ l) ≤ 1) × (text_eq a x ≡ true → count x (a ∷ l) ≡ 1)
count-new x a l new once = elim (Bool-cases (text_eq a x)) [
  | inl same ↦
      let absent : count a l ≡ 0 = contains-count a l new in
      let absent' : count x l ≡ 0 = rw (← (text_eq_iff a x).0 same) absent in ground arith
  | inr other ↦ rw other (once, λ h. cc)
]

contains-other :
    (a b : Text) (l : List Text) → a ≢ b → contains l a ≡ false → contains (b ∷ l) a ≡ false
contains-other a b l differ new = elim (Bool-cases (text_eq b a)) [
  | inl same ↦ absurd (differ (sym ((text_eq_iff b a).0 same)))
  | inr other ↦ rw other new
]

module _ (nets : List Text) (pos neg : Text) (differ : pos ≢ neg)
    (known : (h : Halves)
      → (st : Text) × (st ≢ [])
        × (h.positive ≡ st ++ pos)
        × (h.negative ≡ st ++ neg)
        × (h.base ≡ rstrip st)
      → IsSplit search_suffixes h) where
  try_stem-IsSound :
      (net : Text) (o : Option Text) (s : Search)
      → ((st : Text) → o ≡ some st → (net ≡ st ++ pos) × (st ≢ []))
      → contains nets net ≡ true
      → contains s.used net ≡ false
      → IsSound nets s
      → IsSound nets (try_stem nets neg net o s)
  try_stem-IsSound net none s split there new h = h
  try_stem-IsSound net (some st) s split there new h =
      let (whole, some_stem) = split st refl in
      let partner : Text = st ++ neg in
      let other : net ≢ partner = λ e. differ (append_cancel st pos neg (sym whole ∙ e)) in
      elim (Bool-cases (contains nets partner)) [
        | inr absent ↦ rw absent h
        | inl present ↦ elim (Bool-cases (contains s.used partner)) [
          | inl taken ↦ rw (present, taken) h
          | inr free ↦
              rw (present, free)
                (record {
                  pairs =
                      All-append (IsPair nets) s.found _ h.pairs
                        ((there, present, known _ (st, some_stem, whole, refl, refl)), tt);
                  listed = λ x. listed-append x _ s.found s.used (h.listed x);
                  once = λ x.
                      (count-new x net (partner ∷ s.used)
                        (contains-other net partner s.used other new)
                        (count-new x partner s.used free (h.once x)).0).0;
                })
        ]
      ]

  try_net-IsSound :
      (net : Text) (s : Search)
      → contains nets net ≡ true
      → IsSound nets s
      → IsSound nets (try_net nets pos neg net s)
  unfolding try_net
  try_net-IsSound net s there h = elim (Bool-cases (contains s.used net)) [
    | inl taken ↦ rw taken h
    | inr new ↦ rw new (try_stem-IsSound net (stem pos net) s (stem_splits pos net) there new h)
  ]

  try_nets-IsSound :
      (rest : List Text) (s : Search)
      → All (λ net. contains nets net ≡ true) rest
      → IsSound nets s
      → IsSound nets (try_nets nets pos neg rest s)
  unfolding try_nets
  try_nets-IsSound [] s there h = h
  try_nets-IsSound (net ∷ rest) s there h =
      try_nets-IsSound rest _ there.1 (try_net-IsSound net s there.0 h)

find_halves-IsSound :
    (nets : List Text) (suffixes : List (Text × Text)) (s : Search)
    → All (λ p. p.0 ≢ p.1) suffixes
    → ((h : Halves) → IsSplit suffixes h → IsSplit search_suffixes h)
    → All (λ net. contains nets net ≡ true) nets
    → IsSound nets s
    → IsSound nets (find_halves nets suffixes s)
unfolding find_halves
find_halves-IsSound nets [] s differ known there h = h
find_halves-IsSound nets ((pos, neg) ∷ more) s differ known there h =
    find_halves-IsSound nets more _ differ.1 (λ x e. known x (inr e)) there
      (try_nets-IsSound nets pos neg differ.0 (λ x e. known x (inl e)) nets s there h)

unlike : (p q : Text) → text_eq p q ≡ false → p ≢ q
unlike p q other same = ground (arith, other, (text_eq_iff p q).1 same)

search_suffixes_differ : All (λ p. p.0 ≢ p.1) search_suffixes
search_suffixes_differ = (
  unlike _ _ refl,
  (unlike _ _ refl, (unlike _ _ refl, (unlike _ _ refl, (unlike _ _ refl, (unlike _ _ refl, tt))))),
)

All-contains :
    (nets part : List Text)
    → ((x : Text) → contains part x ≡ true → contains nets x ≡ true)
    → All (λ net. contains nets net ≡ true) part
All-contains nets [] sub = tt
All-contains nets (x ∷ part) sub = (
  sub x (rw ((text_eq_iff x x).1 refl) refl),
  All-contains nets part (λ y there. sub y (ground (arith, there))),
)

pub searched-IsSound :
    (nets : List Text) → IsSound nets (find_halves nets search_suffixes nothing_found)
searched-IsSound nets =
    find_halves-IsSound nets search_suffixes nothing_found search_suffixes_differ (λ h e. e)
      (All-contains nets nets (λ x there. there))
      (record { pairs = tt; listed = λ x. refl; once = λ x. omega arith })
