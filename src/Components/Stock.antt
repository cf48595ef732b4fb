-- ===== src/Components/Stock.antt =====
-- Two components and three parts of a board: a series model with a part number, and a family.
use emi_analyzer.Base.{
  ℕ, ◌+◌, ◌-◌, ◌*◌, Bool, true, false, none, some, List, [], ◌∷◌, ◌++◌, Option, ◌≡◌, refl, leb,
  codes, Text, strip, strip_start, strip_end, is_space, to_lower,
}
use emi_analyzer.Base.Sorting.{sorted}
use emi_analyzer.Base.Results.{ok, map_results}
use emi_analyzer.Base.Json.{pos, Json, Number, str, obj, arr, nil, cons, Fields, end, field}
use emi_analyzer.Base.Small.{small}
use emi_analyzer.Components.Package.{PackageMatch}
use emi_analyzer.Components.Package
use emi_analyzer.Components.Farads.{
  star, plus, optional, is_prefix, fraction, unit, match_value, cap_farads,
}
use emi_analyzer.Components.Python.{
  series_rlc, mlcc_family, generic, user, Source, Texts, is_in, normalise_part_number, opt_float,
  read_packages,
}
use emi_analyzer.Components.Document.{
  Component, rlc_of, mlcc_of, interpolate, esr_for, resolve_for, cites, part_numbers,
}
use emi_analyzer.Components.Parse.{
  required, read_sources, read_range, read_match, read_bias, read_reference, check_sources,
  read_component, parse,
}
use emi_analyzer.Components.Parse.Cited.{IsCited, parse-IsCited}
use emi_analyzer.Components.Parse.Answers.{Answers, resolve_for-Answers}
use emi_analyzer.Components.Examples.{ascii}
use emi_analyzer.Components.Resolve.{
  Candidate, unsaved, built_in, by_part_number, by_package, PartMatch, Resolved, no_esr, match_part,
  matches, disagreements, resolved, try_number, try_value, first_of, by_value, modellable,
  resolve_part, Coverage, cover, resolve_all,
}
use emi_analyzer.Components.Resolve.Order.{in_order, resolve_part-in_order}
use emi_analyzer.Components.Resolve.Chosen.{IsChosen, resolve_part-IsChosen}
use emi_analyzer.Components.Resolve.Partition.{Covers, resolve_all-Covers}

abbrev decimal : ℕ → Text → ℕ
decimal n [] = n
decimal n (c ∷ t) = decimal (10 * n + (c - b'0')) t

abbrev decimal_of : Text → Option ℕ
decimal_of t = some (decimal 0 t)

abbrev text_in : Json ℕ → Text
text_in (str t) = t
text_in _ = []

abbrev plain : Texts ℕ
plain = record { to_str = text_in; lower = λ t. t; upper = λ t. t; float_of = decimal_of }

abbrev number_of : Number ℕ → ℕ
number_of (Number.int (pos n)) = n
number_of (Number.int _) = 0
number_of (Number.float x) = x

abbrev number_ge : Number ℕ → Number ℕ → Bool
number_ge a b = leb (number_of b) (number_of a)

abbrev common : Text → Json ℕ → Fields ℕ → Json ℕ
common id model more = obj (
    field (codes "format") (str (codes "emi-component")) (
      field (codes "version") (Json.int (pos 1)) (
        field (codes "id") (str id) (
          field (codes "kind") (str (codes "capacitor")) (
            field (codes "name") (str (codes "bulk")) (
              field (codes "model") model (
                field (codes "sources")
                  (arr (
                    cons
                      (obj (
                        field (codes "doc") (str (codes "x"))
                          (field (codes "what") (str (codes "ESL")) end)))
                      nil))
                  more)))))))

abbrev part_document : Json ℕ
part_document =
    common (codes "p")
      (obj (
        field (codes "type") (str (codes "series_rlc"))
          (field (codes "c_f") (Json.int (pos 7)) (field (codes "esl_h") (Json.int (pos 2)) end))))
      (field (codes "match")
        (obj
          (field (codes "mpn") (str (codes "A1")) (field (codes "value") (str (codes "7F")) end)))
        end)

abbrev family_document : Json ℕ
family_document =
    common (codes "f")
      (obj (
        field (codes "type") (str (codes "mlcc_family")) (
          field (codes "esl_h_by_package") (obj (field (codes "0402") (Json.int (pos 3)) end))
            end)))
      (field (codes "provenance") (str (codes "generic")) end)

abbrev cited : List Source
cited = record { doc = codes "x"; rev = []; what = codes "ESL"; url = [] } ∷ []

abbrev part_component : Component small plain
part_component = record {
  id = codes "p";
  kind = codes "capacitor";
  name = codes "bulk";
  match_by = field (codes "mpn") (str (codes "A1")) (field (codes "value") (str (codes "7F")) end);
  model_type = series_rlc;
  model =
      field (codes "type") (str (codes "series_rlc"))
        (field (codes "c_f") (Json.int (pos 7)) (field (codes "esl_h") (Json.int (pos 2)) end));
  sources = cited;
  valid_hz = none;
  esl_includes_mount = false;
  provenance = user;
  manufacturer = [];
  dc_bias = [];
  reference = none;
}

abbrev family : Component small plain
family = record {
  id = codes "f";
  kind = codes "capacitor";
  name = codes "bulk";
  match_by = end;
  model_type = mlcc_family;
  model =
      field (codes "type") (str (codes "mlcc_family"))
        (field (codes "esl_h_by_package") (obj (field (codes "0402") (Json.int (pos 3)) end)) end);
  sources = cited;
  valid_hz = none;
  esl_includes_mount = false;
  provenance = generic;
  manufacturer = [];
  dc_bias = [];
  reference = none;
}

read_part : parse small plain number_ge part_document ≡ ok part_component
unfolding parse read_component required read_sources read_range read_match read_bias read_reference
    check_sources rlc_of mlcc_of opt_float read_packages cites is_in map_results sorted strip
    strip_start strip_end is_space
read_part = refl

read_family : parse small plain number_ge family_document ≡ ok family
unfolding parse read_component required read_sources read_range read_match read_bias read_reference
    check_sources rlc_of mlcc_of opt_float read_packages cites is_in map_results sorted strip
    strip_start strip_end is_space
read_family = refl

parse-IsCited_example : IsCited small plain number_ge part_component
parse-IsCited_example = parse-IsCited small plain number_ge part_document part_component read_part

resolve_for-Answers_example :
    Answers small plain number_ge family mlcc_family
      (resolve_for small plain family 9 (codes "0402"))
resolve_for-Answers_example =
    resolve_for-Answers small plain number_ge family_document family 9 (codes "0402") read_family

abbrev library : List (Candidate ascii small plain)
library = record { component = family; tier = built_in } ∷ []

abbrev mine : List (Candidate ascii small plain)
mine = record { component = part_component; tier = unsaved } ∷ []

abbrev of_number : PartMatch ascii small plain
of_number = record {
  ref = codes "C1";
  value = [];
  footprint = [];
  farads = none;
  package_of = none;
  numbers = (codes "LCSC", codes "A 1") ∷ [];
}

abbrev of_package : PartMatch ascii small plain
of_package = record {
  ref = codes "C2";
  value = codes "8F";
  footprint = codes "C_0402_1005Metric";
  farads = some 8;
  package_of = some (record {
    imperial = codes "0402";
    metric = some (codes "1005");
    ambiguous = false;
    footprint = codes "C_0402_1005Metric";
  });
  numbers = [];
}

abbrev unknown : PartMatch ascii small plain
unknown = record {
  ref = codes "C3";
  value = [];
  footprint = [];
  farads = none;
  package_of = none;
  numbers = [];
}

read_value :
    match_part ascii small plain (codes "C2") (codes "8F") (codes "C_0402_1005Metric") []
    ≡ of_package
unfolding match_part cap_farads match_value unit fraction star plus optional is_prefix
    Package.parse_package Package.standard Package.bare Package.four_digits Package.at_boundary
    Package.after_class Package.after_letters Package.underscore Package.metric_word
    Package.past_colon strip strip_start strip_end Package.is_letter Package.is_i to_lower is_space
read_value = refl

abbrev by_number : Resolved ascii small plain
by_number = record {
  ref = codes "C1";
  component_id = codes "p";
  component_name = codes "bulk";
  rlc = record { c_f = 7; esl_h = some 2; esr_ohm = none; esl_includes_mount = false };
  gaps = no_esr ∷ [];
  source = some (record { doc = codes "x"; rev = []; what = codes "ESL"; url = [] });
  is_generic = false;
  matched_by = by_part_number;
  matched_on = some (codes "LCSC", codes "A 1");
  notes = [];
}

abbrev of_family : Resolved ascii small plain
of_family = record {
  ref = codes "C2";
  component_id = codes "f";
  component_name = codes "bulk";
  rlc = record { c_f = 8; esl_h = some 3; esr_ohm = none; esl_includes_mount = false };
  gaps = no_esr ∷ [];
  source = some (record { doc = codes "x"; rev = []; what = codes "ESL"; url = [] });
  is_generic = true;
  matched_by = by_package;
  matched_on = none;
  notes = [];
}

chosen_by_number : resolve_part ascii small plain library of_number mine ≡ ok (some by_number)
unfolding resolve_part first_of try_number try_value matches resolved disagreements resolve_for
    rlc_of mlcc_of part_numbers normalise_part_number opt_float read_packages esr_for interpolate
    cites is_in map_results sorted strip strip_start strip_end is_space cap_farads match_value unit
    fraction star plus optional is_prefix to_lower Package.at_boundary
chosen_by_number = refl

resolve_part-IsChosen_example : IsChosen ascii small plain of_number (mine ++ library) by_number
resolve_part-IsChosen_example =
    resolve_part-IsChosen ascii small plain library of_number mine by_number chosen_by_number

resolve_part-in_order_example :
    resolve_part ascii small plain library of_package mine
    ≡ in_order ascii small plain (
        first_of ascii small plain (try_number ascii small plain of_package) mine
        ∷ first_of ascii small plain (try_number ascii small plain of_package) library
        ∷ by_value ascii small plain of_package mine (modellable ascii small plain of_package)
        ∷ by_value ascii small plain of_package library (modellable ascii small plain of_package)
        ∷ [])
resolve_part-in_order_example = resolve_part-in_order ascii small plain library of_package mine

abbrev whole_board : Coverage ascii small plain
whole_board = record { modelled = by_number ∷ of_family ∷ []; unmatched = unknown ∷ [] }

all_resolved :
    resolve_all ascii small plain library (of_number ∷ unknown ∷ of_package ∷ []) mine
    ≡ ok whole_board
unfolding resolve_all cover resolve_part first_of try_number try_value matches resolved
    disagreements resolve_for rlc_of mlcc_of part_numbers normalise_part_number opt_float
    read_packages esr_for interpolate cites is_in map_results sorted strip strip_start strip_end
    is_space cap_farads match_value unit fraction star plus optional is_prefix to_lower
    Package.at_boundary
all_resolved = refl

resolve_all-Covers_example :
    Covers ascii small plain library mine
      (of_number ∷ unknown ∷ of_package ∷ [])
      (record { modelled = []; unmatched = [] })
      whole_board
resolve_all-Covers_example =
    resolve_all-Covers ascii small plain library mine (of_number ∷ unknown ∷ of_package ∷ [])
      whole_board all_resolved

-- The fraction and the prefix are given back where a letter follows.
not_a_capacitance : cap_farads ascii small decimal_of (codes "4.7k") ≡ some 4
unfolding cap_farads match_value unit fraction star plus optional is_prefix to_lower
    Package.at_boundary is_space
not_a_capacitance = refl
