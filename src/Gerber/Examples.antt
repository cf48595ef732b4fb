-- ===== src/Gerber/Examples.antt =====
-- A netlist in millimetres with a via, a record with no name and a record with no coordinates.
use emi_analyzer.Base.{
  ◌-◌, true, ◌&&◌, [], ◌∷◌, ◌++◌, ◌≡◌, refl, leb, codes, Text, strip, strip_start, strip_end,
  is_space, to_lower,
}
use emi_analyzer.Base.Results.{ok, err}
use emi_analyzer.Base.Small.{small}
use emi_analyzer.Gerber.Records.{
  Digits, split_lines, strip_returns, is_break, units, is_same_letter, skip_spaces, span_digits,
  coordinates, tail_at, search_tail,
}
use emi_analyzer.Gerber.Netlist.{
  no_units, Netlist, skipped, read_point, read_line, read_lines, parse,
}
use emi_analyzer.Gerber.Netlist.{looks_like_netlist, nets, by_net}
use emi_analyzer.Gerber.Excellon.{search}
use emi_analyzer.Gerber.Netlist.Groups.{keys, group, points_of, by_net-nets}
use emi_analyzer.Gerber.Netlist.Reads.{IsRead, parse-IsRead}

abbrev pub ascii : Digits
ascii = record { is_digit = λ c. leb b'0' c && leb c b'9'; value = λ c. c - b'0' }

abbrev pub line_feed : Text
line_feed = 13 ∷ 10 ∷ []

abbrev board : Text
board =
    codes "C  board"
    ++ line_feed
    ++ codes "P  UNITS CUST 0"
    ++ line_feed
    ++ codes "317GND              VIA   -     D0006PA00X+3000Y+0500"
    ++ line_feed
    ++ codes "327                 R1    -1         A01X+3000Y+0500"
    ++ line_feed
    ++ codes "327NET1             R1    -1    "
    ++ line_feed

abbrev netlist : Netlist ascii small
netlist = record {
  points =
      record {
        net = codes "GND";
        x_mm = 0;
        y_mm = 0;
        ref = codes "VIA";
        pin = [];
        access = 0;
        drill_mm = 0;
        plated = true;
      }
      ∷ [];
  warnings = skipped 2 1 ∷ [];
}

board_read : parse ascii small board ≡ ok netlist
unfolding parse split_lines strip_returns is_break units is_same_letter skip_spaces span_digits
    coordinates tail_at search_tail read_point read_line read_lines strip strip_start strip_end
    is_space to_lower
board_read = refl

units_missing : parse ascii small (codes "317GND") ≡ err no_units
unfolding parse split_lines strip_returns is_break units is_same_letter skip_spaces span_digits
    coordinates tail_at search_tail read_point read_line read_lines strip strip_start strip_end
    is_space to_lower
units_missing = refl

parse-IsRead_example : IsRead ascii small (split_lines board) netlist
parse-IsRead_example = parse-IsRead ascii small board netlist board_read

is_recognized : looks_like_netlist board ≡ true
unfolding looks_like_netlist split_lines is_break search
is_recognized = refl

by_net-nets_example :
    (keys ascii small (by_net ascii small netlist) ≡ nets ascii small netlist)
    × ((net : Text)
        → group ascii small net (by_net ascii small netlist)
          ≡ points_of ascii small net netlist.points)
by_net-nets_example = by_net-nets ascii small netlist
