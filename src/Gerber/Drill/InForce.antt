-- ===== src/Gerber/Drill/InForce.antt =====
-- What is in force at a line of a drill file: it is looked up in the lines before it, for each thing by itself,
-- and the state of the loop is just that.
use emi_analyzer.Base.{
  ℕ, Bool, true, false, Option, none, some, List, [], ◌∷◌, ◌++◌, ◌≡◌, refl, sym, ◌∙◌, if◌then◌else◌,
  Text, text_eq, and_then,
}
use emi_analyzer.Base.Results.{
  ok, or_raise, or_raise-eq-ok, Ensures-if, Ensures, Ensures-bind, Ensures-imp,
}
use emi_analyzer.Base.Json.{Floats}
use emi_analyzer.Gerber.Records.{Digits}
use emi_analyzer.Gerber.Excellon.{
  Function, Line, nothing, start_header, end_header, stop, file_plating, attribute, header_units,
  define_tool, select_tool, hit,
}
use emi_analyzer.Gerber.Drill.{
  value_error, Numbers, Tool, State, to_mm, lookup, pending_plated, pending_function, chosen,
  read_hole, drill_hole, step,
}

-- What a list of lines makes of a value, line by line.
abbrev pub look {ℓ} : {A : Type ℓ} → (Line → A → A) → A → List Line → A
look f a [] = a
look f a (l ∷ ls) = look f (f l a) ls

look-append {ℓ} :
    {A : Type ℓ} (f : Line → A → A) (a : A) (ls : List Line) (l : Line)
    → look f a (ls ++ l ∷ []) ≡ f l (look f a ls)
look-append f a [] l = refl
look-append f a (k ∷ ls) l = look-append f (f k a) ls l

abbrev pub on_units : Line → Bool × ℕ → Bool × ℕ
on_units (header_units metric decimals) u = (metric, decimals)
on_units _ u = u

abbrev pub on_select : Line → Option Text → Option Text
on_select (select_tool t) c = some t
on_select _ c = c

abbrev pub on_plating : Line → Bool → Bool
on_plating (file_plating plated) p = plated
on_plating _ p = p

abbrev pub on_header : Line → Bool → Bool
on_header start_header h = true
on_header end_header h = false
on_header _ h = h

module _ (D : Digits) (X : Floats) (N : Numbers X.Float) where
  open X use {Float}
  open N use {is_word, upper, float_of}

  -- The units and the attribute in force, and the definition of one tool.
  abbrev pub Definition : Type 0
  Definition = Bool × Option (Bool × Function) × Option (Tool D X N)

  abbrev pub tool_of : Bool → Option (Bool × Function) → Float → Tool D X N
  tool_of metric pending d = record {
    dia = to_mm D X N metric d;
    plated = pending_plated D X N pending;
    function = pending_function D X N pending;
  }

  abbrev pub on_define : Text → Line → Definition → Definition
  on_define t (header_units metric decimals) (m, pending, tool) = (metric, pending, tool)
  on_define t (attribute plated function) (m, pending, tool) = (m, some (plated, function), tool)
  on_define t (define_tool k dia) (m, pending, tool) = (
    m,
    none,
    if text_eq k t then and_then (float_of dia) (λ d. some (tool_of m pending d)) else tool,
  )
  on_define t _ (m, pending, tool) = (m, pending, tool)

  abbrev pub definition : List Line → Text → Option (Tool D X N)
  definition before t = (look (on_define t) (true, none, none) before).2

  -- What is in force behind some lines.
  abbrev pub units_at : List Line → Bool × ℕ
  units_at before = look on_units (true, 3) before

  abbrev pub tool_at : List Line → Option (Tool D X N)
  tool_at before = and_then (look on_select none before) (definition before)

  -- The state is what is in force.
  abbrev pub Agrees :
      State D X N → Bool × ℕ → Option Text → Bool → Bool → (Text → Definition) → Type 0
  Agrees s u c p h d =
      ((s.metric, s.decimals) ≡ u)
      × (s.current ≡ c)
      × (s.plated ≡ p)
      × (s.in_header ≡ h)
      × ((t : Text) → (s.metric, s.pending, lookup D X N t s.tools) ≡ d t)

  lookup-put :
      (s : State D X N) (k t : Text) (dia : Text) (d : Float) (e : Definition)
      → float_of dia ≡ some d
      → (s.metric, s.pending, lookup D X N t s.tools) ≡ e
      → (s.metric, none, lookup D X N t ((k, tool_of s.metric s.pending d) ∷ s.tools))
        ≡ on_define t (define_tool k dia) e
  lookup-put s k t dia d e f h = rw (sym h, f) refl

  drill_hole-Agrees :
      (s : State D X N) (x y : Text) (o : Option (Tool D X N)) (u : Bool × ℕ) (c : Option Text)
      (p h : Bool) (d : Text → Definition)
      → Agrees s u c p h d
      → Ensures (λ s1. Agrees s1 u c p h d) (drill_hole D X N o x y s)
  drill_hole-Agrees s x y none u c p h d a = a
  drill_hole-Agrees s x y (some tool) u c p h d a =
      Ensures-bind (λ s1. Agrees s1 u c p h d)
        (read_hole D X N tool s.plated s.metric s.decimals x y) _ (λ _ _. a)

  step-Agrees :
      (l : Line) (s : State D X N) (u : Bool × ℕ) (c : Option Text) (p h : Bool)
      (d : Text → Definition)
      → Agrees s u c p h d
      → Ensures
          (λ s1.
            Agrees s1
              (on_units l u)
              (on_select l c)
              (on_plating l p)
              (on_header l h)
              (λ t. on_define t l (d t)))
          (step D X N l s)
  unfolding step
  step-Agrees nothing s u c p h d a = a
  step-Agrees start_header s u c p h d (eu, ec, ep, eh, ed) = (eu, ec, ep, refl, ed)
  step-Agrees end_header s u c p h d (eu, ec, ep, eh, ed) = (eu, ec, ep, refl, ed)
  step-Agrees stop s u c p h d a = a
  step-Agrees (file_plating plated) s u c p h d (eu, ec, ep, eh, ed) = (eu, ec, refl, eh, ed)
  step-Agrees (attribute plated function) s u c p h d (eu, ec, ep, eh, ed) =
      (eu, ec, ep, eh, λ t. rw (sym (ed t)) refl)
  step-Agrees (header_units metric decimals) s u c p h d (eu, ec, ep, eh, ed) =
      (refl, ec, ep, eh, λ t. rw (sym (ed t)) refl)
  step-Agrees (define_tool k dia) s u c p h d (eu, ec, ep, eh, ed) =
      Ensures-bind (λ s1. Agrees s1 u c p h (λ t. on_define t (define_tool k dia) (d t)))
        (or_raise (float_of dia) value_error) _
        (λ x e. (
          eu,
          ec,
          ep,
          eh,
          λ t. lookup-put s k t dia x (d t) (or_raise-eq-ok (float_of dia) value_error e) (ed t),
        ))
  step-Agrees (select_tool t) s u c p h d (eu, ec, ep, eh, ed) = (eu, refl, ep, eh, ed)
  step-Agrees (hit x y) s u c p h d a =
      Ensures-if (λ s1. Agrees s1 u c p h d) s.in_header (ok s)
        (drill_hole D X N (chosen D X N s.current s.tools) x y s) a
        (drill_hole-Agrees s x y (chosen D X N s.current s.tools) u c p h d a)

  abbrev pub AgreesAt : List Line → State D X N → Type 0
  AgreesAt before s =
      Agrees s (units_at before) (look on_select none before) (look on_plating true before)
        (look on_header true before) (λ t. look (on_define t) (true, none, none) before)

  pub step-AgreesAt :
      (before : List Line) (l : Line) (s : State D X N)
      → AgreesAt before s
      → Ensures (AgreesAt (before ++ l ∷ [])) (step D X N l s)
  step-AgreesAt before l s a =
      Ensures-imp _ (AgreesAt (before ++ l ∷ [])) (step D X N l s)
        (λ s1 (eu, ec, ep, eh, ed). (
          eu ∙ sym (look-append on_units (true, 3) before l),
          ec ∙ sym (look-append on_select none before l),
          ep ∙ sym (look-append on_plating true before l),
          eh ∙ sym (look-append on_header true before l),
          λ t. ed t ∙ sym (look-append (on_define t) (true, none, none) before l),
        ))
        (step-Agrees l s _ _ _ _ _ a)
