-- ===== src/Components/Examples.antt =====
-- Footprint names with ASCII digits and letters.
use emi_analyzer.Base.{
  strip, strip_start, strip_end, is_space, ℕ, Bool, true, false, ◌&&◌, ◌||◌, none, some, [], ◌≡◌,
  refl, ◌==◌, leb, codes, to_lower,
}
use emi_analyzer.Components.Package.{
  Classes, PackageMatch, parse_package, standard, bare, four_digits, at_boundary, after_class,
  after_letters, underscore, metric_word, past_colon, is_letter, is_i,
}
use emi_analyzer.Components.Longer.{parse_package-longer_name}
use emi_analyzer.Components.Names.{IsKnown, parse_package-IsKnown, parse_package-standard_name}

abbrev pub ascii_digit : ℕ → Bool
ascii_digit c = leb b'0' c && leb c b'9'

abbrev pub ascii : Classes
ascii = record {
  is_digit = ascii_digit;
  is_word =
      λ c. ascii_digit c || c == b'_' || (leb b'A' c && leb c b'Z') || (leb b'a' c && leb c b'z');
}

abbrev bare_match : PackageMatch
bare_match = record {
  imperial = codes "0603";
  metric = some (codes "1608");
  ambiguous = true;
  footprint = codes "C_0603";
}

reads_bare : parse_package ascii (codes "C_0603") ≡ some bare_match
unfolding parse_package standard bare four_digits at_boundary after_class after_letters underscore
    metric_word past_colon strip strip_start strip_end is_letter is_i to_lower is_space
reads_bare = refl

no_package : parse_package ascii (codes "lib:C_1005") ≡ none
unfolding parse_package standard bare four_digits at_boundary after_class after_letters underscore
    metric_word past_colon strip strip_start strip_end is_letter is_i to_lower is_space
no_package = refl

parse_package-IsKnown_example : IsKnown ascii (codes "C_0603") bare_match
parse_package-IsKnown_example = parse_package-IsKnown ascii (codes "C_0603") bare_match reads_bare

parse_package-standard_name_example :
    parse_package ascii (codes "Capacitor_SMD:C_0402_1005Metric")
    ≡ some (record {
      imperial = codes "0402";
      metric = some (codes "1005");
      ambiguous = false;
      footprint = codes "Capacitor_SMD:C_0402_1005Metric";
    })
unfolding is_letter past_colon to_lower
parse_package-standard_name_example =
    parse_package-standard_name ascii (codes "Capacitor_SMD") b'C' [] (codes "0402") (codes "1005")
      refl refl (refl, tt) refl refl refl

digits_are_words : (d : ℕ) → ascii_digit d ≡ true → ascii.is_word d ≡ true
digits_are_words d h = rw h refl

parse_package-longer_name_example :
    parse_package ascii (codes "Capacitor_SMD:C_0402_1005Metric_Pad_HandSolder") ≡ none
unfolding is_letter past_colon to_lower strip_end is_space
parse_package-longer_name_example =
    parse_package-longer_name ascii digits_are_words refl refl (codes "Capacitor_SMD") b'C' []
      (codes "0402") (codes "1005") (codes "Pad_HandSolder") refl refl (refl, tt) refl refl refl
