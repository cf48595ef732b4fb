-- ===== src/Gerber/Drill.antt =====
-- gerber/drill.py: `parse_holes` and `parse_drill`.
pub mod InForce
pub mod Holes
use emi_analyzer.Base.{
  ℕ, zero, suc, ◌+◌, ◌*◌, ◌^◌, Bool, true, false, not, ◌||◌, ◌&&◌, Option, none, some, List, [],
  ◌∷◌, ◌++◌, length, any, ltb, ◌==◌, if◌then◌else◌, Text, text_eq, codes,
}
use emi_analyzer.Base.Results.{Result, ok, err, ◌>>=◌, or_raise}
use emi_analyzer.Base.Json.{Floats}
use emi_analyzer.Gerber.Records.{Digits, split_lines, number_from}
use emi_analyzer.Gerber.Excellon.{
  Function, unsaid, Line, nothing, start_header, end_header, stop, file_plating, attribute,
  header_units, define_tool, select_tool, hit, read_line,
}

-- What `float` and `int` raise on a text and what a quotient of long ints raises.
pub data Raised : Type 0 where
  value_error overflow : Raised

-- What the reader uses of Python: `str.upper`, `float` on a text, none where it raises, and the quotient of
-- two ints, none where it overflows.
pub record Numbers (F : Type 0) : Type 0 where
  pub is_word : ℕ → Bool
  pub upper : Text → Text
  pub float_of : Text → Option F
  pub ratio : ℕ → ℕ → Option F

-- The loop ends at M30 or M00.
abbrev pub ends : Line → Bool
ends stop = true
ends _ = false

module _ (D : Digits) (X : Floats) (N : Numbers X.Float) where
  open X use {Float, lit, neg, mul}
  open N use {is_word, upper, float_of, ratio}

  pub record Hole : Type 0 where
    pub x : Float
    pub y : Float
    pub drill_mm : Float
    pub plated : Bool
    pub function : Function

  pub record Tool : Type 0 where
    pub dia : Float
    pub plated : Option Bool
    pub function : Function

  pub record State : Type 0 where
    pub tools : List (Text × Tool)
    pub metric : Bool
    pub decimals : ℕ
    pub current : Option Text
    pub plated : Bool
    pub pending : Option (Bool × Function)
    pub holes : List Hole
    pub skipped : ℕ
    pub in_header : Bool

  abbrev pub start : State
  start = record {
    tools = [];
    metric = true;
    decimals = 3;
    current = none;
    plated = true;
    pending = none;
    holes = [];
    skipped = 0;
    in_header = true;
  }

  -- `v if metric else v * 25.4`
  abbrev pub to_mm : Bool → Float → Float
  to_mm metric v = if metric then v else mul v (lit 254 1)

  abbrev pub is_point : ℕ → Bool
  is_point c = c == b'.'

  abbrev pub is_sign : ℕ → Bool
  is_sign c = c == b'+' || c == b'-'

  -- `value.lstrip("+-")`
  abbrev pub without_signs : Text → Text
  without_signs [] = []
  without_signs (c ∷ t) = if is_sign c then without_signs t else c ∷ t

  abbrev pub is_negative : Text → Bool
  is_negative [] = false
  is_negative (c ∷ t) = c == b'-'

  -- `int(digits) / (10 ** decimals)`; `int` takes at most 4300 digits
  abbrev pub int_ratio : Text → ℕ → Result Raised Float
  int_ratio digits decimals =
      if ltb 4300 (length digits)
      then err value_error
      else or_raise (ratio (number_from D 0 digits) (10 ^ decimals)) overflow

  abbrev pub implicit : Text → ℕ → Result Raised Float
  implicit value decimals = do
    v ← int_ratio (without_signs value) decimals
    ok (if is_negative value then neg v else v)

  -- `_decode`
  unfoldable pub decode : Text → Bool → ℕ → Result Raised Float
  decode value metric decimals = do
    v ←
        (if any is_point value
          then or_raise (float_of value) value_error
          else implicit value decimals)
    ok (to_mm metric v)

  abbrev pub lookup : Text → List (Text × Tool) → Option Tool
  lookup t [] = none
  lookup t ((k, tool) ∷ more) = if text_eq k t then some tool else lookup t more

  -- `tools[t] = tool`: the newest entry is found first.
  abbrev pub put : Text → Tool → List (Text × Tool) → List (Text × Tool)
  put t tool tools = (t, tool) ∷ tools

  abbrev pub pending_plated : Option (Bool × Function) → Option Bool
  pending_plated none = none
  pending_plated (some (plated, function)) = some plated

  abbrev pub pending_function : Option (Bool × Function) → Function
  pending_function none = unsaid
  pending_function (some (plated, function)) = function

  abbrev pub chosen : Option Text → List (Text × Tool) → Option Tool
  chosen none tools = none
  chosen (some t) tools = lookup t tools

  abbrev pub or_file : Option Bool → Bool → Bool
  or_file none file = file
  or_file (some plated) file = plated

  -- One hole, with a tool that has a size.
  unfoldable pub read_hole : Tool → Bool → Bool → ℕ → Text → Text → Result Raised Hole
  unfolding decode
  read_hole tool file metric decimals x y = do
    right ← decode x metric decimals
    up ← decode y metric decimals
    ok (record {
      x = right;
      y = neg up;
      drill_mm = tool.dia;
      plated = or_file tool.plated file;
      function = tool.function;
    })

  abbrev pub drill_hole : Option Tool → Text → Text → State → Result Raised State
  drill_hole none x y s = ok (record s { skipped = suc s.skipped })
  drill_hole (some tool) x y s = do
    h ← read_hole tool s.plated s.metric s.decimals x y
    ok (record s { holes = s.holes ++ h ∷ [] })

  -- The body of the loop, for a line at which it does not end.
  unfoldable pub step : Line → State → Result Raised State
  unfolding read_hole
  step nothing s = ok s
  step start_header s = ok (record s { in_header = true })
  step end_header s = ok (record s { in_header = false })
  step stop s = ok s
  step (file_plating plated) s = ok (record s { plated = plated })
  step (attribute plated function) s = ok (record s { pending = some (plated, function) })
  step (header_units metric decimals) s = ok (record s { metric = metric; decimals = decimals })
  step (define_tool t dia) s = do
    d ← or_raise (float_of dia) value_error
    ok (record s {
      tools =
          put t
            (record {
              dia = to_mm s.metric d;
              plated = pending_plated s.pending;
              function = pending_function s.pending;
            })
            s.tools;
      pending = none;
    })
  step (select_tool t) s = ok (record s { current = some t })
  step (hit x y) s = if s.in_header then ok s else drill_hole (chosen s.current s.tools) x y s

  unfoldable pub read_lines : List Line → State → Result Raised State
  unfolding step
  read_lines [] s = ok s
  read_lines (l ∷ more) s =
      let on = (step l s >>= λ s1. read_lines more s1) in if ends l then ok s else on

  abbrev pub read_all : List Text → List Line
  read_all [] = []
  read_all (raw ∷ more) = read_line D is_word upper raw ∷ read_all more

  -- `parse_holes`: the holes, and how many had no tool size, which the warning gives.
  unfoldable pub parse_holes : Text → Result Raised (List Hole × ℕ)
  unfolding read_lines read_line split_lines
  parse_holes text = do s ← read_lines (read_all (split_lines text)) start; ok (s.holes, s.skipped)

  -- `Via` of kicad/board.py, as a drill file gives it
  pub record Via : Type 0 where
    pub x : Float
    pub y : Float
    pub size_mm : Float
    pub drill_mm : Float
    pub layers : List Text
    pub net : Text
    pub kind : Text

  abbrev pub via_of : List Text → Hole → Via
  via_of layers h = record {
    x = h.x;
    y = h.y;
    size_mm = h.drill_mm;
    drill_mm = h.drill_mm;
    layers = layers;
    net = [];
    kind = codes "through";
  }

  unfoldable pub holes_to_vias : List Hole → List Text → List Via
  holes_to_vias [] layers = []
  holes_to_vias (h ∷ hs) layers =
      let rest = holes_to_vias hs layers in if h.plated then via_of layers h ∷ rest else rest

  pub data Warning : Type 0 where
    no_tool_size : ℕ → Warning
    no_plated_holes : Warning

  abbrev pub size_warning : ℕ → List Warning
  size_warning zero = []
  size_warning (suc n) = no_tool_size (suc n) ∷ []

  abbrev pub via_warning : List Via → List Warning
  via_warning [] = no_plated_holes ∷ []
  via_warning (v ∷ vs) = []

  unfoldable pub parse_drill : Text → List Text → Result Raised (List Via × List Warning)
  unfolding parse_holes holes_to_vias
  parse_drill text layers = do
    (holes, skipped) ← parse_holes text
    ok (
      holes_to_vias holes layers,
      size_warning skipped ++ via_warning (holes_to_vias holes layers),
    )
