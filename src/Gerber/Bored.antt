-- ===== src/Gerber/Bored.antt =====
-- A drill file with a via, an unplated hole, and a hit of a tool that is selected by another spelling.
use emi_analyzer.Base.{
  ℕ, ◌+◌, ◌-◌, ◌*◌, ◌/◌, true, false, ◌&&◌, ◌||◌, ◌==◌, some, List, [], ◌∷◌, ◌++◌, ◌≡◌, refl, leb,
  length, codes, Text, strip, strip_start, strip_end, is_space, to_lower, if◌then◌else◌,
}
use emi_analyzer.Base.Results.{ok, map_results}
use emi_analyzer.Base.Small.{small}
use emi_analyzer.Gerber.Records.{split_lines, is_break, is_same_letter, span_digits}
use emi_analyzer.Gerber.Excellon.{
  via, unsaid, search, file_function, aper_function, comment, read_line,
}
use emi_analyzer.Gerber.Drill.{
  Numbers, Hole, decode, read_hole, step, read_lines, parse_holes, no_tool_size, holes_to_vias,
  parse_drill,
}
use emi_analyzer.Gerber.Drill.Holes.{program, found_in, hole_of, hits, parse_holes-found}
use emi_analyzer.Gerber.Examples.{ascii, line_feed}

abbrev to_upper : Text → Text
to_upper [] = []
to_upper (c ∷ t) = (if leb b'a' c && leb c b'z' then c - 32 else c) ∷ to_upper t

abbrev before_point : ℕ → Text → ℕ
before_point n [] = n
before_point n (c ∷ t) = if c == b'.' then n else before_point (10 * n + (c - b'0')) t

abbrev python : Numbers ℕ
python = record {
  is_word = λ c.
      (leb b'0' c && leb c b'9')
      || (leb b'A' c && leb c b'Z')
      || (leb b'a' c && leb c b'z')
      || c == b'_';
  upper = to_upper;
  float_of = λ t. some (before_point 0 t);
  ratio = λ m n. some (m / n);
}

abbrev file : Text
file =
    codes "M48"
    ++ line_feed
    ++ codes "; #@! TF.FileFunction,MixedPlating,1,2"
    ++ line_feed
    ++ codes "METRIC"
    ++ line_feed
    ++ codes "; #@! TA.AperFunction,Plated,PTH,ViaDrill"
    ++ line_feed
    ++ codes "T1C2.0"
    ++ line_feed
    ++ codes "; #@! TA.AperFunction,NonPlated,NPTH"
    ++ line_feed
    ++ codes "T02C5.0"
    ++ line_feed
    ++ codes "%"
    ++ line_feed
    ++ codes "T1"
    ++ line_feed
    ++ codes "X7000Y9.0"
    ++ line_feed
    ++ codes "T2"
    ++ line_feed
    ++ codes "X1Y1"
    ++ line_feed
    ++ codes "T02"
    ++ line_feed
    ++ codes "X3.0Y4.0"
    ++ line_feed
    ++ codes "M30"
    ++ line_feed
    ++ codes "X1Y1"

abbrev up : ℕ
up = 1000000000001

abbrev holes : List (Hole ascii small python)
holes =
    record { x = 7; y = up; drill_mm = 2; plated = true; function = via }
    ∷ record { x = 3; y = up; drill_mm = 5; plated = false; function = unsaid }
    ∷ []

file_read : parse_holes ascii small python file ≡ ok (holes, 1)
unfolding parse_holes read_lines step read_hole decode read_line comment aper_function file_function
    search split_lines is_break is_same_letter span_digits strip strip_start strip_end is_space
    to_lower
file_read = refl

parse_holes-found_example :
    (map_results
        (hole_of ascii small python)
        (found_in ascii small python [] (program ascii small python file))
      ≡ ok holes)
    × (1 + length holes ≡ hits ascii small python [] (program ascii small python file))
parse_holes-found_example = parse_holes-found ascii small python file holes 1 file_read

one_via :
    parse_drill ascii small python file (codes "F.Cu" ∷ codes "B.Cu" ∷ [])
    ≡ ok (
      record {
        x = 7;
        y = up;
        size_mm = 2;
        drill_mm = 2;
        layers = codes "F.Cu" ∷ codes "B.Cu" ∷ [];
        net = [];
        kind = codes "through";
      }
          ∷ [],
      no_tool_size 1 ∷ [],
    )
unfolding parse_drill holes_to_vias
one_via = rw file_read refl
