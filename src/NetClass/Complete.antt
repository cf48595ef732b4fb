-- ===== src/NetClass/Complete.antt =====
-- The search loop of `find_pairs` in kicad/netclass.py leaves no pair unnoticed.
use emi_analyzer.Base.{
  ℕ, true, not, ◌&&◌, Option, none, some, List, [], ◌∷◌, ◌++◌, ◌≡◌, ◌≢◌, ◌⊎◌, refl, arith, Text,
  text_eq, text_eq_iff, Bool-cases, inl, inr, contains, All,
}
use emi_analyzer.NetClass.{stem, Search, try_stem, try_net, try_nets, find_halves, search_suffixes}
use emi_analyzer.NetClass.Suffix.{stem-append}

-- The suffix is one of the list.
abbrev pub IsIn : Text → Text → List (Text × Text) → Type 0
IsIn pos neg [] = ⊥
IsIn pos neg ((p, n) ∷ more) = ((p ≡ pos) × (n ≡ neg)) ⊎ IsIn pos neg more

nonempty :
    (pos neg : Text) (suffixes : List (Text × Text))
    → All (λ p. p.0 ≢ []) suffixes
    → IsIn pos neg suffixes
    → pos ≢ []
nonempty pos neg [] all listed = absurd listed
nonempty pos neg ((p, n) ∷ more) all (inl (same, same')) = rw (← same) all.0
nonempty pos neg ((p, n) ∷ more) all (inr later) = nonempty pos neg more all.1 later

pub search_suffixes_nonempty : (pos neg : Text) → IsIn pos neg search_suffixes → pos ≢ []
search_suffixes_nonempty pos neg =
    nonempty pos neg search_suffixes
      (λ e. cc, (λ e. cc, (λ e. cc, (λ e. cc, (λ e. cc, (λ e. cc, tt))))))

contains_self : (x : Text) (l : List Text) → contains (x ∷ l) x ≡ true
contains_self x l = rw ((text_eq_iff x x).1 refl) refl

module _ (nets : List Text) where
  try_stem-keeps :
      (net neg x : Text) (o : Option Text) (s : Search)
      → contains s.used x ≡ true
      → contains (try_stem nets neg net o s).used x ≡ true
  try_stem-keeps net neg x none s h = h
  try_stem-keeps net neg x (some st) s h =
      elim (Bool-cases (contains nets (st ++ neg) && not (contains s.used (st ++ neg)))) [
        | inl paired ↦ rw paired (ground (arith, h))
        | inr left ↦ rw left h
      ]

  try_net-keeps :
      (pos neg net x : Text) (s : Search)
      → contains s.used x ≡ true
      → contains (try_net nets pos neg net s).used x ≡ true
  unfolding try_net
  try_net-keeps pos neg net x s h = elim (Bool-cases (contains s.used net)) [
    | inl taken ↦ rw taken h
    | inr new ↦ rw new (try_stem-keeps net neg x (stem pos net) s h)
  ]

  try_nets-keeps :
      (pos neg x : Text) (rest : List Text) (s : Search)
      → contains s.used x ≡ true
      → contains (try_nets nets pos neg rest s).used x ≡ true
  unfolding try_nets
  try_nets-keeps pos neg x [] s h = h
  try_nets-keeps pos neg x (net ∷ rest) s h =
      try_nets-keeps pos neg x rest _ (try_net-keeps pos neg net x s h)

  find_halves-keeps :
      (x : Text) (suffixes : List (Text × Text)) (s : Search)
      → contains s.used x ≡ true
      → contains (find_halves nets suffixes s).used x ≡ true
  unfolding find_halves
  find_halves-keeps x [] s h = h
  find_halves-keeps x ((pos, neg) ∷ more) s h =
      find_halves-keeps x more _ (try_nets-keeps pos neg x nets s h)

  -- One of the two nets is in a pair.
  abbrev pub IsTaken : Text → Text → Search → Type 0
  IsTaken a b s = (contains s.used a ≡ true) ⊎ (contains s.used b ≡ true)

  module _ (c : ℕ) (t pos neg : Text) (some_pos : pos ≢ [])
      (there : contains nets ((c ∷ t) ++ neg) ≡ true) where
    try_net-takes :
        (s : Search)
        → IsTaken ((c ∷ t) ++ pos) ((c ∷ t) ++ neg) (try_net nets pos neg ((c ∷ t) ++ pos) s)
    unfolding try_net
    try_net-takes s = elim (Bool-cases (contains s.used ((c ∷ t) ++ pos))) [
      | inl taken ↦ rw taken (inl taken)
      | inr new ↦
          rw (new, stem-append c t pos some_pos)
            (elim (Bool-cases (contains s.used ((c ∷ t) ++ neg))) [
              | inl taken ↦ rw (there, taken) (inr taken)
              | inr free ↦
                  rw (there, free)
                    (inl (contains_self ((c ∷ t) ++ pos) (((c ∷ t) ++ neg) ∷ s.used)))
            ])
    ]

    try_nets-takes :
        (rest : List Text) (s : Search)
        → contains rest ((c ∷ t) ++ pos) ≡ true
        → IsTaken ((c ∷ t) ++ pos) ((c ∷ t) ++ neg) (try_nets nets pos neg rest s)
    unfolding try_nets
    try_nets-takes [] s h = cc
    try_nets-takes (net ∷ rest) s h = elim (Bool-cases (text_eq net ((c ∷ t) ++ pos))) [
      | inl same ↦ rw ((text_eq_iff net ((c ∷ t) ++ pos)).0 same) (elim (try_net-takes s) [
        | inl a ↦ inl (try_nets-keeps pos neg _ rest _ a)
        | inr b ↦ inr (try_nets-keeps pos neg _ rest _ b)
      ])
      | inr other ↦ try_nets-takes rest _ (rw other at h)
    ]

    pub find_halves-takes :
        (suffixes : List (Text × Text)) (s : Search)
        → IsIn pos neg suffixes
        → contains nets ((c ∷ t) ++ pos) ≡ true
        → IsTaken ((c ∷ t) ++ pos) ((c ∷ t) ++ neg) (find_halves nets suffixes s)
    unfolding find_halves
    find_halves-takes [] s listed h = absurd listed
    find_halves-takes ((p, n) ∷ more) s (inl (same, same')) h =
        rw (same, same')
          (elim (try_nets-takes nets s h) [
            | inl a ↦ inl (find_halves-keeps _ more _ a)
            | inr b ↦ inr (find_halves-keeps _ more _ b)
          ])
    find_halves-takes ((p, n) ∷ more) s (inr later) h = find_halves-takes more _ later h
