-- ===== src/Components/Names.antt =====
-- Which package `parse_package` of components/match.py reads out of a footprint's name.
use mathlib.Core.Path.{subst}
use emi_analyzer.Base.{
  strip_start, strip_end, strip, ℕ, true, false, ◌&&◌, Option, none, some, [], ◌∷◌, ◌++◌, ◌≡◌, ◌⊎◌,
  inl, inr, refl, ◌==◌, Text, codes, is_space, to_lower, Bool-cases, arith, All,
}
use emi_analyzer.Components.Package.{
  Classes, PackageMatch, imperial_to_metric, find_code, is_letter, is_i, after_letters, after_class,
  underscore, metric_word, past_colon, at_boundary, four_digits, standard, bare, agrees, part_name,
  guessed, from_bare, from_standard, parse_name, parse_package,
}

-- What is read of a footprint's name.
abbrev pub name_of : Text → Text
name_of footprint = strip (part_name footprint (past_colon footprint))

module _ (W : Classes) where
  -- The name has both codes, the table does not contradict them, and the match is not ambiguous.
  pub record IsStandard (name : Text) (m : PackageMatch) : Type 0 where
    pub metric : Text
    pub written : standard W name ≡ some (m.imperial, metric)
    pub has_metric : m.metric ≡ some metric
    pub same : agrees (find_code imperial_to_metric m.imperial) metric ≡ true
    pub certain : m.ambiguous ≡ false

  -- The name has no pair of codes but a bare one, the table gives the other, and the match is ambiguous.
  pub record IsGuessed (name : Text) (m : PackageMatch) : Type 0 where
    pub metric : Text
    pub unwritten : standard W name ≡ none
    pub bare_code : bare W name ≡ some m.imperial
    pub has_metric : m.metric ≡ some metric
    pub known : find_code imperial_to_metric m.imperial ≡ some metric
    pub uncertain : m.ambiguous ≡ true

  abbrev pub IsKnown : Text → PackageMatch → Type 0
  IsKnown footprint m =
      (m.footprint ≡ footprint)
      × (IsStandard (name_of footprint) m ⊎ IsGuessed (name_of footprint) m)

  abbrev IsGood : Text → Text → Option PackageMatch → Type 0
  IsGood footprint name none = Unit
  IsGood footprint name (some m) =
      (m.footprint ≡ footprint) × (IsStandard name m ⊎ IsGuessed name m)

  guessed-IsGood :
      (footprint name code : Text) (o : Option Text)
      → standard W name ≡ none
      → bare W name ≡ some code
      → find_code imperial_to_metric code ≡ o
      → IsGood footprint name (guessed footprint code o)
  guessed-IsGood footprint name code none s b e = tt
  guessed-IsGood footprint name code (some metric) s b e = (
    refl,
    inr (record {
      metric = metric;
      unwritten = s;
      bare_code = b;
      has_metric = refl;
      known = e;
      uncertain = refl;
    }),
  )

  from_bare-IsGood :
      (footprint name : Text) (o : Option Text)
      → standard W name ≡ none
      → bare W name ≡ o
      → IsGood footprint name (from_bare footprint o)
  from_bare-IsGood footprint name none s b = tt
  from_bare-IsGood footprint name (some code) s b = guessed-IsGood footprint name code _ s b refl

  from_standard-IsGood :
      (footprint name : Text) (s : Option (Text × Text))
      → standard W name ≡ s
      → IsGood footprint name (from_standard footprint s (bare W name))
  from_standard-IsGood footprint name none s = from_bare-IsGood footprint name (bare W name) s refl
  from_standard-IsGood footprint name (some (imperial, metric)) s =
      elim (Bool-cases (agrees (find_code imperial_to_metric imperial) metric)) [
        | inl same ↦ rw same (
          refl,
          inl (record {
            metric = metric;
            written = s;
            has_metric = refl;
            same = same;
            certain = refl;
          }),
        )
        | inr other ↦ rw other tt
      ]

  parse_package-IsGood :
      (footprint : Text) → IsGood footprint (name_of footprint) (parse_package W footprint)
  unfolding parse_package
  parse_package-IsGood [] = tt
  parse_package-IsGood (c ∷ t) =
      from_standard-IsGood (c ∷ t) (name_of (c ∷ t)) (standard W (name_of (c ∷ t))) refl

  -- A match keeps the footprint. Either the name behind the library has both codes, they are those of the match,
  -- the table of standard packages does not contradict them, and the match is not ambiguous; or the name has no
  -- such pair but a bare code, the metric code is the table's for it, and the match is ambiguous.
  pub parse_package-IsKnown :
      (footprint : Text) (m : PackageMatch)
      → parse_package W footprint ≡ some m
      → IsKnown footprint m
  parse_package-IsKnown footprint m e =
      subst (IsGood footprint (name_of footprint)) e (parse_package-IsGood footprint)

pub strip_end-append :
    (t : Text) (d : ℕ) (u : Text) → strip_end (d ∷ u) ≡ d ∷ u → strip_end (t ++ d ∷ u) ≡ t ++ d ∷ u
unfolding strip_end
strip_end-append [] d u h = h
strip_end-append (c ∷ []) d u h = rw h refl
strip_end-append (c ∷ b ∷ t) d u h = rw (strip_end-append (b ∷ t) d u h) refl

some-none : {a : Text} → some a ≡ none → ⊥
some-none e = cc

past_colon-append :
    (lib name : Text) → past_colon lib ≡ none → past_colon (lib ++ b':' ∷ name) ≡ some name
unfolding past_colon
past_colon-append [] name h = refl
past_colon-append (c ∷ lib) name h = elim (Bool-cases (c == b':')) [
  | inl colon ↦ absurd (some-none (rw colon at h))
  | inr other ↦ rw other (past_colon-append lib name (rw other at h))
]

letter_not_underscore : (c : ℕ) → is_letter c ≡ true → (c == b'_') ≡ false
unfolding is_letter to_lower
letter_not_underscore c h = ground arith

pub letter_not_space : (c : ℕ) → is_letter c ≡ true → is_space c ≡ false
unfolding is_letter to_lower is_space
letter_not_space c h = ground arith

pub after_letters-append :
    (cls rest : Text)
    → All (λ c. is_letter c ≡ true) cls
    → after_letters (cls ++ b'_' ∷ rest) ≡ some rest
unfolding after_letters
after_letters-append [] rest h = refl
after_letters-append (c ∷ cls) rest h =
    rw (letter_not_underscore c h.0, h.0) (after_letters-append cls rest h.1)

-- `C_0402_1005Metric` and the like.
abbrev pub standard_name : Text → Text → Text → Text
standard_name cls imperial metric = cls ++ b'_' ∷ (imperial ++ b'_' ∷ (metric ++ codes "Metric"))

strip-standard_name :
    (c : ℕ) (cls imperial metric : Text)
    → is_letter c ≡ true
    → strip (standard_name (c ∷ cls) imperial metric) ≡ standard_name (c ∷ cls) imperial metric
unfolding strip strip_start strip_end is_space
strip-standard_name c cls imperial metric h =
    let word : strip_end (codes "Metric") ≡ codes "Metric" = refl in
    rw (letter_not_space c h) (
      strip_end-append (c ∷ cls) _ _
        (strip_end-append (b'_' ∷ imperial) _ _ (strip_end-append (b'_' ∷ metric) _ _ word)))

module _ (W : Classes) where
  open W use {is_digit, is_word}

  -- Four digits.
  abbrev pub IsCode : Text → Type 0
  IsCode (a ∷ b ∷ c ∷ d ∷ []) = (is_digit a && is_digit b && is_digit c && is_digit d) ≡ true
  IsCode _ = ⊥

  abbrev pub last_of : Text → ℕ
  last_of (a ∷ b ∷ c ∷ d ∷ _) = d
  last_of _ = 0

  pub four_digits-append :
      (code rest : Text)
      → IsCode code
      → four_digits W (code ++ rest)
        ≡ some (record { code = code; last = last_of code; rest = rest })
  unfolding four_digits
  four_digits-append [] rest h = absurd h
  four_digits-append (a ∷ []) rest h = absurd h
  four_digits-append (a ∷ b ∷ []) rest h = absurd h
  four_digits-append (a ∷ b ∷ c ∷ []) rest h = absurd h
  four_digits-append (a ∷ b ∷ c ∷ d ∷ []) rest h = rw h refl
  four_digits-append (a ∷ b ∷ c ∷ d ∷ _ ∷ _) rest h = absurd h

  standard-standard_name :
      (c : ℕ) (cls imperial metric : Text)
      → is_word b'c' ≡ true
      → All (λ d. is_letter d ≡ true) (c ∷ cls)
      → IsCode imperial
      → IsCode metric
      → standard W (standard_name (c ∷ cls) imperial metric) ≡ some (imperial, metric)
  unfolding standard after_class underscore metric_word at_boundary to_lower is_i
  standard-standard_name c cls imperial metric word letters hi hm =
      rw
        (
          letters.0,
          after_letters-append cls (imperial ++ b'_' ∷ (metric ++ codes "Metric")) letters.1,
          four_digits-append imperial (b'_' ∷ (metric ++ codes "Metric")) hi,
          four_digits-append metric (codes "Metric") hm,
          word,
        )
        refl

  pub parse_package-append :
      (lib name : Text)
      → past_colon lib ≡ none
      → parse_package W (lib ++ b':' ∷ name) ≡ parse_name W (lib ++ b':' ∷ name) (strip name)
  unfolding parse_package
  parse_package-append [] name h = rw (past_colon-append [] name h) refl
  parse_package-append (c ∷ lib) name h = rw (past_colon-append (c ∷ lib) name h) refl

  -- A library, a colon, a class of letters, and two codes that the table does not contradict are read
  -- as those two codes, where `c` is a character of words.
  pub parse_package-standard_name :
      (lib : Text) (c : ℕ) (cls imperial metric : Text)
      → is_word b'c' ≡ true
      → past_colon lib ≡ none
      → All (λ d. is_letter d ≡ true) (c ∷ cls)
      → IsCode imperial
      → IsCode metric
      → agrees (find_code imperial_to_metric imperial) metric ≡ true
      → parse_package W (lib ++ b':' ∷ standard_name (c ∷ cls) imperial metric)
        ≡ some (record {
          imperial = imperial;
          metric = some metric;
          ambiguous = false;
          footprint = lib ++ b':' ∷ standard_name (c ∷ cls) imperial metric;
        })
  parse_package-standard_name lib c cls imperial metric word plain letters hi hm same =
      rw
        (
          parse_package-append lib (standard_name (c ∷ cls) imperial metric) plain,
          strip-standard_name c cls imperial metric letters.0,
          standard-standard_name c cls imperial metric word letters hi hm,
          same,
        )
        refl
