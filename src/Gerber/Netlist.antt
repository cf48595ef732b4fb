-- ===== src/Gerber/Netlist.antt =====
-- gerber/ipcd356.py: `parse` of an IPC-D-356 netlist.
pub mod Reads
pub mod Groups
use emi_analyzer.Base.{
  ℕ, zero, suc, ◌+◌, ◌*◌, Bool, true, false, not, ◌||◌, ◌&&◌, Option, none, some, List, [], ◌∷◌,
  ◌++◌, length, take, drop, any, ltb, leb, ◌==◌, if◌then◌else◌, Text, text_eq, codes, strip,
  contains,
}
use emi_analyzer.Base.Results.{Result, ok, err, ◌>>=◌, ◌>>◌, guard, or_raise}
use emi_analyzer.Base.Json.{ℤ, pos, negsuc, Floats, zero_f}
use emi_analyzer.Gerber.Excellon.{is_in}
use emi_analyzer.Gerber.Records.{
  Digits, split_lines, strip_returns, is_record, units, Tail, search_tail, number_from, negate,
}

-- NetlistError, by the place that raises it, and what `int` and `float` raise on long numbers.
pub data Raised : Type 0 where
  unknown_unit no_units no_points : Raised
  too_long overflow : Raised

module _ (D : Digits) where
  -- `int`, which takes at most 4300 digits
  abbrev pub int_of : Bool × Text → Result Raised ℤ
  int_of (minus, digits) =
      if ltb 4300 (length digits)
      then err too_long
      else ok (if minus then negate (number_from D 0 digits) else pos (number_from D 0 digits))

  module _ (X : Floats) where
    open X use {Float, lit, whole, mul, div}

    pub record NetPoint : Type 0 where
      pub net : Text
      pub x_mm : Float
      pub y_mm : Float
      pub ref : Text
      pub pin : Text
      pub access : ℕ
      pub drill_mm : Float
      pub plated : Bool

    -- The warnings of `Netlist`, with the numbers that they give.
    pub data Warning : Type 0 where
      truncated : ℕ → Warning
      skipped : ℕ → ℕ → Warning

    pub record Netlist : Type 0 where
      pub points : List NetPoint
      pub warnings : List Warning

    -- `_UNIT_SCALE_MM`
    abbrev pub unit_scale_mm : ℕ → Option Float
    unit_scale_mm zero = some (div (lit 254 1) (lit 10000 0))
    unit_scale_mm (suc zero) = some (div (lit 1 0) (lit 1000 0))
    unit_scale_mm (suc (suc zero)) = some (div (lit 254 1) (lit 100000 0))
    unit_scale_mm (suc (suc (suc zero))) = some (div (lit 1 0) (lit 10000 0))
    unit_scale_mm (suc (suc (suc (suc n)))) = none

    -- `int(...) * scale`
    abbrev pub scaled : Float → Bool × Text → Result Raised Float
    scaled scale digits = do n ← int_of digits; x ← or_raise (whole n) overflow; ok (mul x scale)

    abbrev pub drill_of : Float → Text → Result Raised Float
    drill_of scale [] = ok (zero_f X)
    drill_of scale (d ∷ digits) = scaled scale (false, d ∷ digits)

    abbrev pub is_plated : Option ℕ → Bool
    is_plated none = true
    is_plated (some c) = c == b'P'

    -- A record with a net name and a tail.
    unfoldable pub read_point : Float → Text → Text → Tail D → Result Raised NetPoint
    unfolding strip
    read_point scale line net tail = do
      x ← scaled scale tail.x
      y ← scaled scale tail.y
      drill ← drill_of scale tail.drill
      ok (record {
        net = net;
        x_mm = x;
        y_mm = y;
        ref = strip (take 6 (drop 20 line));
        pin = strip (take 4 (drop 27 line));
        access = number_from D 0 tail.access;
        drill_mm = drill;
        plated = is_plated tail.plating;
      })

    pub record State : Type 0 where
      pub scale : Option Float
      pub points : List NetPoint
      pub skipped : ℕ

    abbrev pub skip : State → State
    skip s = record s { skipped = suc s.skipped }

    abbrev pub add_point : State → NetPoint → State
    add_point s p = record s { points = s.points ++ p ∷ [] }

    abbrev pub named_record : Float → Text → Tail D → Text → State → Result Raised State
    named_record scale line tail [] s = ok (skip s)
    named_record scale line tail (c ∷ net) s = do
      p ← read_point scale line (c ∷ net) tail
      ok (add_point s p)

    abbrev pub tail_record : Float → Text → Option (Tail D) → State → Result Raised State
    tail_record scale line none s = ok (skip s)
    tail_record scale line (some tail) s =
        named_record scale line tail (strip (take 14 (drop 3 line))) s

    abbrev pub read_record : Option Float → Text → State → Result Raised State
    read_record none line s = err no_units
    read_record (some scale) line s = tail_record scale line (search_tail D line) s

    abbrev pub set_units : Option ℕ → State → Result Raised State
    set_units none s = ok s
    set_units (some unit) s = do
      scale ← or_raise (unit_scale_mm unit) unknown_unit
      ok (record s { scale = some scale })

    abbrev pub is_parameter : Text → Bool
    is_parameter [] = false
    is_parameter (c ∷ t) = c == b'P' || c == b'C'

    -- The body of the loop; a blank line is no record.
    unfoldable pub read_line : Text → State → Result Raised State
    unfolding strip
    read_line line s =
        if is_parameter line
        then set_units (units D line) s
        else if is_record line
        then read_record s.scale line s
        else ok s

    unfoldable pub read_lines : List Text → State → Result Raised State
    read_lines [] s = ok s
    read_lines (raw ∷ more) s = do s1 ← read_line (strip_returns raw) s; read_lines more s1

    -- How many names fill the field of 14 characters.
    abbrev pub count_long : List NetPoint → ℕ
    count_long [] = 0
    count_long (p ∷ ps) = if leb 14 (length p.net) then suc (count_long ps) else count_long ps

    abbrev pub truncated_warning : ℕ → List Warning
    truncated_warning zero = []
    truncated_warning (suc n) = truncated (suc n) ∷ []

    abbrev pub skipped_warning : ℕ → ℕ → List Warning
    skipped_warning zero read = []
    skipped_warning (suc n) read = skipped (suc n) read ∷ []

    abbrev pub is_empty : List NetPoint → Bool
    is_empty [] = true
    is_empty (p ∷ ps) = false

    abbrev pub finish : State → Result Raised Netlist
    finish s = do
      guard (not (is_empty s.points)) no_points
      ok (record {
        points = s.points;
        warnings =
            truncated_warning (count_long s.points) ++ skipped_warning s.skipped (length s.points);
      })

    abbrev pub start : State
    start = record { scale = none; points = []; skipped = 0 }

    unfoldable pub parse : Text → Result Raised Netlist
    unfolding split_lines read_lines
    parse text = do s ← read_lines (split_lines text) start; finish s

    -- `seen.setdefault(net, None)`
    abbrev pub see : Text → List Text → List Text
    see net seen = if contains seen net then seen else seen ++ net ∷ []

    abbrev pub nets_from : List Text → List NetPoint → List Text
    nets_from seen [] = seen
    nets_from seen (p ∷ ps) = nets_from (see p.net seen) ps

    -- `Netlist.nets`: the names in the order in which they come first.
    unfoldable pub nets : Netlist → List Text
    nets n = nets_from [] n.points

    -- `out.setdefault(p.net, []).append(p)`
    abbrev pub add_to : NetPoint → List (Text × List NetPoint) → List (Text × List NetPoint)
    add_to p [] = (p.net, p ∷ []) ∷ []
    add_to p ((net, ps) ∷ groups) =
        let rest = add_to p groups in
        if text_eq net p.net then (net, ps ++ p ∷ []) ∷ groups else (net, ps) ∷ rest

    abbrev pub group_from :
        List (Text × List NetPoint) → List NetPoint → List (Text × List NetPoint)
    group_from groups [] = groups
    group_from groups (p ∷ ps) = group_from (add_to p groups) ps

    -- `Netlist.by_net`
    unfoldable pub by_net : Netlist → List (Text × List NetPoint)
    by_net n = group_from [] n.points

    -- `NetPoint.is_through`
    abbrev pub is_through : NetPoint → Bool
    is_through p = p.access == 0

    -- `NetPoint.is_via`, with `str.upper`
    abbrev pub is_via : (Text → Text) → NetPoint → Bool
    is_via upper p = text_eq (upper p.ref) (codes "VIA") || text_eq p.ref []

-- `looks_like_netlist`
unfoldable pub looks_like_netlist : Text → Bool
unfolding split_lines
looks_like_netlist text =
    is_in (codes "UNITS CUST") (take 4000 text) || any is_record (split_lines (take 4000 text))
