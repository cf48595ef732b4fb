-- ===== src/Components/Longer.antt =====
-- Names that go on behind a standard one, in components/match.py.
use emi_analyzer.Base.{
  strip_start, strip_end, strip, ℕ, true, false, none, [], ◌∷◌, ◌++◌, ◌≡◌, refl, Text, codes,
  to_lower, All, arith,
}
use emi_analyzer.Components.Package.{
  Classes, is_letter, is_i, after_class, underscore, metric_word, past_colon, at_boundary,
  four_digits, standard, bare, parse_package,
}
use emi_analyzer.Components.Names.{
  IsCode, last_of, four_digits-append, after_letters-append, strip_end-append, letter_not_space,
  parse_package-append,
}

-- `C_0402_1005Metric_HandSolder` and the like.
abbrev pub longer_name : Text → Text → Text → Text → Text
longer_name cls imperial metric more =
    cls ++ b'_' ∷ (imperial ++ b'_' ∷ (metric ++ (codes "Metric" ++ b'_' ∷ more)))

strip-longer_name :
    (c : ℕ) (cls imperial metric more : Text)
    → is_letter c ≡ true
    → strip_end (b'_' ∷ more) ≡ b'_' ∷ more
    → strip (longer_name (c ∷ cls) imperial metric more)
      ≡ longer_name (c ∷ cls) imperial metric more
unfolding strip strip_start
strip-longer_name c cls imperial metric more h ends = rw (letter_not_space c h) (
    strip_end-append (c ∷ cls) _ _ (
      strip_end-append (b'_' ∷ imperial) _ _
        (strip_end-append (b'_' ∷ metric) _ _ (strip_end-append (codes "Metric") _ _ ends))))

module _ (W : Classes) where
  open W use {is_digit, is_word}

  module _ (words : (d : ℕ) → is_digit d ≡ true → is_word d ≡ true) (low_c : is_word b'c' ≡ true)
      (line : is_word b'_' ≡ true) where
    last_of_word : (code : Text) → IsCode W code → is_word (last_of W code) ≡ true
    last_of_word [] h = absurd h
    last_of_word (a ∷ []) h = absurd h
    last_of_word (a ∷ b ∷ []) h = absurd h
    last_of_word (a ∷ b ∷ c ∷ []) h = absurd h
    last_of_word (a ∷ b ∷ c ∷ d ∷ []) h = words d (ground (arith, h))
    last_of_word (a ∷ b ∷ c ∷ d ∷ _ ∷ _) h = absurd h

    standard-longer_name :
        (c : ℕ) (cls imperial metric more : Text)
        → All (λ d. is_letter d ≡ true) (c ∷ cls)
        → IsCode W imperial
        → IsCode W metric
        → standard W (longer_name (c ∷ cls) imperial metric more) ≡ none
    unfolding standard after_class underscore metric_word at_boundary to_lower is_i
    standard-longer_name c cls imperial metric more letters hi hm =
        rw
          (
            letters.0,
            after_letters-append cls
                (imperial ++ b'_' ∷ (metric ++ (codes "Metric" ++ b'_' ∷ more))) letters.1,
            four_digits-append W imperial (b'_' ∷ (metric ++ (codes "Metric" ++ b'_' ∷ more))) hi,
            four_digits-append W metric (codes "Metric" ++ b'_' ∷ more) hm,
            low_c,
            line,
          )
          refl

    not_code : (c : ℕ) (t : Text) → is_digit c ≡ false → four_digits W (c ∷ t) ≡ none
    unfolding four_digits
    not_code c [] h = refl
    not_code c (_ ∷ []) h = refl
    not_code c (_ ∷ _ ∷ []) h = refl
    not_code c (_ ∷ _ ∷ _ ∷ t) h = rw h refl

    bare-longer_name :
        (c : ℕ) (cls imperial metric more : Text)
        → is_digit c ≡ false
        → All (λ d. is_letter d ≡ true) (c ∷ cls)
        → IsCode W imperial
        → bare W (longer_name (c ∷ cls) imperial metric more) ≡ none
    unfolding bare after_class at_boundary
    bare-longer_name c cls imperial metric more plain letters hi =
        rw
          (
            letters.0,
            after_letters-append cls
                (imperial ++ b'_' ∷ (metric ++ (codes "Metric" ++ b'_' ∷ more))) letters.1,
            four_digits-append W imperial (b'_' ∷ (metric ++ (codes "Metric" ++ b'_' ∷ more))) hi,
            last_of_word imperial hi,
            line,
            not_code c
                (cls ++ b'_' ∷ (imperial ++ b'_' ∷ (metric ++ (codes "Metric" ++ b'_' ∷ more))))
                plain,
          )
          refl

    -- No package is read from a library, a colon, a class of letters, two codes, `Metric`, an underscore and
    -- more, as in the names of footprints for hand soldering, where digits, `c` and
    -- `_` are characters of words, the first letter is no digit, and the name does not end in white space.
    pub parse_package-longer_name :
        (lib : Text) (c : ℕ) (cls imperial metric more : Text)
        → past_colon lib ≡ none
        → is_digit c ≡ false
        → All (λ d. is_letter d ≡ true) (c ∷ cls)
        → IsCode W imperial
        → IsCode W metric
        → strip_end (b'_' ∷ more) ≡ b'_' ∷ more
        → parse_package W (lib ++ b':' ∷ longer_name (c ∷ cls) imperial metric more) ≡ none
    parse_package-longer_name lib c cls imperial metric more none_before plain letters hi hm ends =
        rw
          (
            parse_package-append W lib (longer_name (c ∷ cls) imperial metric more) none_before,
            strip-longer_name c cls imperial metric more letters.0 ends,
            standard-longer_name c cls imperial metric more letters hi hm,
            bare-longer_name c cls imperial metric more plain letters hi,
          )
          refl
