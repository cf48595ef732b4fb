-- ===== src/Gerber/Drill/Holes.antt =====
-- Which holes `parse_holes` of gerber/drill.py finds.
use emi_analyzer.Base.{
  ℕ, ◌+◌, Bool, true, false, Option, none, some, List, [], ◌∷◌, ◌++◌, ◌≡◌, refl, sym, ap, ◌∙◌, inl,
  inr, length, length-append, append-nil, append_assoc, if◌then◌else◌, Text, Bool-cases, and_then,
  arith,
}
use emi_analyzer.Base.Results.{
  Result, ok, or_raise, map_results, map_results-append, Ensures, Ensures-bind, Ensures-eq-ok,
  Ensures-imp,
}
use emi_analyzer.Base.Json.{Floats}
use emi_analyzer.Gerber.Records.{Digits, split_lines}
use emi_analyzer.Gerber.Excellon.{
  Line, nothing, start_header, end_header, stop, file_plating, attribute, header_units, define_tool,
  select_tool, hit,
}
use emi_analyzer.Gerber.Drill.{
  Raised, value_error, Numbers, Hole, Tool, State, start, chosen, read_hole, drill_hole, step, ends,
  read_lines, read_all, parse_holes,
}
use emi_analyzer.Gerber.Drill.InForce.{
  look, on_plating, on_header, definition, units_at, tool_at, AgreesAt, step-AgreesAt,
}

-- The lines before the end of the program.
abbrev pub until_end : List Line → List Line
until_end [] = []
until_end (l ∷ ls) = if ends l then [] else l ∷ until_end ls

module _ (D : Digits) (X : Floats) (N : Numbers X.Float) where
  open X use {Float}
  open N use {is_word, upper, float_of}

  abbrev pub Found : Type 0
  Found = Tool D X N × Bool × (Bool × ℕ) × Text × Text

  -- A hit in the body whose tool has a size.
  abbrev pub found_with : Option (Tool D X N) → List Line → Text → Text → List Found
  found_with none before x y = []
  found_with (some tool) before x y =
      (tool, look on_plating true before, units_at D X N before, x, y) ∷ []

  abbrev pub found_at : List Line → Line → List Found
  found_at before (hit x y) =
      if look on_header true before then [] else found_with (tool_at D X N before) before x y
  found_at before _ = []

  abbrev pub found_in : List Line → List Line → List Found
  found_in before [] = []
  found_in before (l ∷ ls) = found_at before l ++ found_in (before ++ l ∷ []) ls

  -- The hits in the body.
  abbrev pub is_hit : List Line → Line → ℕ
  is_hit before (hit x y) = if look on_header true before then 0 else 1
  is_hit before _ = 0

  abbrev pub hits : List Line → List Line → ℕ
  hits before [] = 0
  hits before (l ∷ ls) = is_hit before l + hits (before ++ l ∷ []) ls

  abbrev pub hole_of : Found → Result Raised (Hole D X N)
  hole_of (tool, file, (metric, decimals), x, y) = read_hole D X N tool file metric decimals x y

  -- What a line adds to the holes, and to the hits with no tool size.
  abbrev Adds : List Line → Line → State D X N → State D X N → Type 0
  Adds before l s t =
      (hs : List (Hole D X N)) × (map_results hole_of (found_at before l) ≡ ok hs)
      × (t.holes ≡ s.holes ++ hs)
      × (t.skipped + length hs ≡ s.skipped + is_hit before l)

  chosen-tool_at :
      (before : List Line) (s : State D X N)
      → AgreesAt D X N before s
      → (c : Option Text) → chosen D X N c s.tools ≡ and_then c (definition D X N before)
  chosen-tool_at before s a none = refl
  chosen-tool_at before s (eu, ec, ep, eh, ed) (some t) = ap (λ d. d.2) (ed t)

  drill_hole-Adds :
      (before : List Line) (s : State D X N) (x y : Text) (o : Option (Tool D X N))
      → look on_header true before ≡ false
      → tool_at D X N before ≡ o
      → s.plated ≡ look on_plating true before
      → (s.metric, s.decimals) ≡ units_at D X N before
      → Ensures (Adds before (hit x y) s) (drill_hole D X N o x y s)
  unfolding map_results
  drill_hole-Adds before s x y none body tool plated units =
      ([], rw (body, tool) refl, sym (append-nil s.holes), rw body (omega arith))
  drill_hole-Adds before s x y (some t) body tool plated units =
      Ensures-bind (Adds before (hit x y) s) (read_hole D X N t s.plated s.metric s.decimals x y) _
        (λ h e.
          (h ∷ [], rw (body, tool, sym plated, sym units, e) refl, refl, rw body (omega arith)))

  nothing_added :
      (before : List Line) (l : Line) (s : State D X N)
      → found_at before l ≡ []
      → is_hit before l ≡ 0
      → Adds before l s s
  unfolding map_results
  nothing_added before l s f n = ([], rw f refl, sym (append-nil s.holes), rw n (omega arith))

  hit-Adds :
      (before : List Line) (x y : Text) (s : State D X N)
      → AgreesAt D X N before s
      → (header : Bool) → look on_header true before ≡ header
      → Ensures
          (Adds before (hit x y) s)
          (if header then ok s else drill_hole D X N (chosen D X N s.current s.tools) x y s)
  hit-Adds before x y s a true h = nothing_added before (hit x y) s (rw h refl) (rw h refl)
  hit-Adds before x y s a false h =
      drill_hole-Adds before s x y (chosen D X N s.current s.tools) h
        (sym (ap (λ c. and_then c (definition D X N before)) a.1)
          ∙ sym (chosen-tool_at before s a s.current))
        a.2 a.0

  step-Adds :
      (before : List Line) (l : Line) (s : State D X N)
      → AgreesAt D X N before s
      → Ensures (Adds before l s) (step D X N l s)
  unfolding step
  step-Adds before nothing s a = nothing_added before nothing s refl refl
  step-Adds before start_header s a = nothing_added before start_header s refl refl
  step-Adds before end_header s a = nothing_added before end_header s refl refl
  step-Adds before stop s a = nothing_added before stop s refl refl
  step-Adds before (file_plating plated) s a =
      nothing_added before (file_plating plated) s refl refl
  step-Adds before (attribute plated function) s a =
      nothing_added before (attribute plated function) s refl refl
  step-Adds before (header_units metric decimals) s a =
      nothing_added before (header_units metric decimals) s refl refl
  step-Adds before (define_tool k dia) s a =
      Ensures-bind (Adds before (define_tool k dia) s) (or_raise (float_of dia) value_error) _
        (λ _ _. nothing_added before (define_tool k dia) s refl refl)
  step-Adds before (select_tool t) s a = nothing_added before (select_tool t) s refl refl
  step-Adds before (hit x y) s a = hit-Adds before x y s a s.in_header (sym a.3)

  -- What the rest of the lines adds.
  abbrev AddsAll : List Line → List Line → State D X N → State D X N → Type 0
  AddsAll before ls s t =
      (hs : List (Hole D X N)) × (map_results hole_of (found_in before ls) ≡ ok hs)
      × (t.holes ≡ s.holes ++ hs)
      × (t.skipped + length hs ≡ s.skipped + hits before ls)

  AddsAll-cons :
      (before : List Line) (l : Line) (ls : List Line) (s t u : State D X N)
      → Adds before l s t
      → AddsAll (before ++ l ∷ []) ls t u
      → AddsAll before (l ∷ ls) s u
  AddsAll-cons before l ls s t u (hs, read, holes, count) (gs, read', holes', count') = (
    hs ++ gs,
    map_results-append hole_of (found_at before l) (found_in (before ++ l ∷ []) ls) hs gs read
        read',
    rw (holes', holes) (append_assoc s.holes hs gs),
    omega (arith, length-append hs gs, count, count'),
  )

  read_lines-AddsAll :
      (before ls : List Line) (s : State D X N)
      → AgreesAt D X N before s
      → Ensures (AddsAll before (until_end ls) s) (read_lines D X N ls s)
  unfolding read_lines map_results
  read_lines-AddsAll before [] s a = ([], refl, sym (append-nil s.holes), omega arith)
  read_lines-AddsAll before (l ∷ ls) s a = elim (Bool-cases (ends l)) [
    | inl last ↦ rw last ([], refl, sym (append-nil s.holes), omega arith)
    | inr on ↦ rw on (
        Ensures-bind (AddsAll before (l ∷ until_end ls) s) (step D X N l s) _ (λ t e.
          Ensures-imp (AddsAll (before ++ l ∷ []) (until_end ls) t)
            (AddsAll before (l ∷ until_end ls) s) (read_lines D X N ls t)
            (λ u h.
              AddsAll-cons before l (until_end ls) s t u
                (Ensures-eq-ok (Adds before l s) (step D X N l s) (step-Adds before l s a) e) h)
            (read_lines-AddsAll (before ++ l ∷ []) ls t (
              Ensures-eq-ok (AgreesAt D X N (before ++ l ∷ [])) (step D X N l s)
                (step-AgreesAt D X N before l s a) e))))
  ]

  abbrev pub program : Text → List Line
  program text = until_end (read_all D X N (split_lines text))

  -- The holes of a file are the hits of its body whose tool has a size, in the order of the lines up to the
  -- end of the program. Each is read with the tool that was selected last, as the last line that defines this
  -- tool gives it (in the units in force there, with the attribute since the definition before), and with the
  -- units and the plating of the file that are in force at the hit. The other hits of the body are counted.
  pub parse_holes-found :
      (text : Text) (holes : List (Hole D X N)) (skipped : ℕ)
      → parse_holes D X N text ≡ ok (holes, skipped)
      → (map_results hole_of (found_in [] (program text)) ≡ ok holes)
        × (skipped + length holes ≡ hits [] (program text))
  unfolding parse_holes
  parse_holes-found text holes skipped e =
      Ensures-eq-ok
        (λ (hs, n).
          (map_results hole_of (found_in [] (program text)) ≡ ok hs)
          × (n + length hs ≡ hits [] (program text)))
        (parse_holes D X N text)
        (Ensures-bind _ (read_lines D X N (read_all D X N (split_lines text)) (start D X N)) _
          (λ s h.
            let (hs, read, all_holes, count) =
              Ensures-eq-ok (AddsAll [] (program text) (start D X N))
                (read_lines D X N (read_all D X N (split_lines text)) (start D X N))
                (read_lines-AddsAll [] (read_all D X N (split_lines text)) (start D X N)
                  (refl, refl, refl, refl, λ t. refl))
                h in
            (read ∙ ap ok (sym all_holes), rw all_holes (omega (arith, count)))))
        e
