-- ===== src/Sexpr/Events.antt =====
-- A reference reading of kicad/sexpr.py, stated on events: those of a node, in the order of the text,
-- and what each token means as one.
use mathlib.Core.List.{append_assoc}
use emi_analyzer.Base.{
  Option, none, some, List, [], ◌∷◌, ◌++◌, ◌≡◌, refl, ap, sym, if◌then◌else◌, Text, ◌∙◌, append-nil,
}
use emi_analyzer.Sexpr.Tokens.{
  Token, string, atom, opening, closing, Stream, finished, unexpected, yield, unescape,
}
use emi_analyzer.Sexpr.Tree.{Numbers, Node, nil, str, num, sub, join}
use emi_analyzer.Sexpr.Tree.Join.{join-nil, join_assoc}
use emi_analyzer.Sexpr.Parser.{State, start, Result, ok, err, is_number, finish}

pub data Event (F : Type 0) : Type 0 where
  enter leave : Event F
  text : Text → Event F
  number : F → Event F

module _ {F : Type 0} where
  -- The items of a node.
  abbrev pub linear : Node F → List (Event F)
  linear nil = []
  linear (str s n) = text s ∷ linear n
  linear (num x n) = number x ∷ linear n
  linear (sub m n) = enter ∷ linear m ++ leave ∷ linear n

  -- One whole expression.
  abbrev pub expression : Node F → List (Event F)
  expression n = enter ∷ linear n ++ leave ∷ []

  linear-join : (m n : Node F) → linear (join m n) ≡ linear m ++ linear n
  unfolding join
  linear-join nil n = refl
  linear-join (str s m) n = ap (λ l. text s ∷ l) (linear-join m n)
  linear-join (num x m) n = ap (λ l. number x ∷ l) (linear-join m n)
  linear-join (sub l m) n = rw (linear-join m n) (simp append_assoc)

  abbrev pub cons_some : Option (Event F) → Option (List (Event F)) → Option (List (Event F))
  cons_some (some e) (some es) = some (e ∷ es)
  cons_some _ _ = none

-- The result of a computation that may raise, without its error.
abbrev pub value : {A : Type 0} → Result A → Option A
value (ok a) = some a
value (err e) = none

abbrev pub bind : {A B : Type 0} → Option A → (A → Option B) → Option B
bind none f = none
bind (some a) f = f a

module _ (N : Numbers) where
  open N use {Float, float}

  -- Quoted text stays text; a bare atom is a number exactly where `_NUMBER` matches it.
  abbrev pub meaning : Token → Option (Event Float)
  meaning opening = some enter
  meaning closing = some leave
  meaning (string s) = some (text (unescape s))
  meaning (atom a) =
      if is_number N a
      then (elim (float a) [ none ↦ none | some x ↦ some (number x) ])
      else some (text a)

  abbrev pub events : Stream → Option (List (Event Float))
  events finished = some []
  events (unexpected c) = none
  events (yield t rest) = cons_some (meaning t) (events rest)

  -- `step` and `run` on events, where an error is none.
  abbrev pub do_event : Event Float → List (Node Float) → Option (Node Float) → Option (State N)
  do_event enter stack r = some (record { stack = nil ∷ stack; root = r })
  do_event leave [] r = none
  do_event leave (node ∷ []) none = some (record { stack = []; root = some node })
  do_event leave (node ∷ []) (some old) = none
  do_event leave (node ∷ parent ∷ rest) r =
      some (record { stack = join parent (sub node nil) ∷ rest; root = r })
  do_event (text s) [] r = none
  do_event (text s) (top ∷ rest) r = some (record { stack = join top (str s nil) ∷ rest; root = r })
  do_event (number x) [] r = none
  do_event (number x) (top ∷ rest) r =
      some (record { stack = join top (num x nil) ∷ rest; root = r })

  unfoldable pub replay : State N → List (Event Float) → Option (Node Float)
  replay s [] = value (finish N s.stack s.root)
  replay s (e ∷ es) = bind (do_event e s.stack s.root) (λ s'. replay s' es)

  -- The events that led to a stack and a root.
  abbrev before : List (Node Float) → Option (Node Float) → List (Event Float)
  before [] none = []
  before [] (some m) = expression m
  before (top ∷ rest) r = before rest r ++ enter ∷ linear top

  abbrev Extends : Option (State N) → List (Event Float) → Type 0
  Extends (some s) es = before s.stack s.root ≡ es
  Extends none es = Unit

  Extends-do_event :
      (e : Event Float) (stack : List (Node Float)) (r : Option (Node Float))
      → Extends (do_event e stack r) (before stack r ++ e ∷ [])
  Extends-do_event enter stack r = refl
  Extends-do_event leave [] r = tt
  Extends-do_event leave (node ∷ []) none = refl
  Extends-do_event leave (node ∷ []) (some old) = tt
  Extends-do_event leave (node ∷ parent ∷ rest) r = simp (linear-join, append_assoc)
  Extends-do_event (text s) [] r = tt
  Extends-do_event (text s) (top ∷ rest) r = simp (linear-join, append_assoc)
  Extends-do_event (number x) [] r = tt
  Extends-do_event (number x) (top ∷ rest) r = simp (linear-join, append_assoc)

  finish_sound :
      (stack : List (Node Float)) (r : Option (Node Float)) (n : Node Float)
      → value (finish N stack r) ≡ some n
      → before stack r ++ [] ≡ expression n
  unfolding finish
  finish_sound [] none n h = cc
  finish_sound [] (some m) n h = cc (append-nil (expression m))
  finish_sound (top ∷ stack) r n h = cc

  bind_sound :
      (o : Option (State N)) (es : List (Event Float)) (n : Node Float) (prior : List (Event Float))
      → Extends o prior
      → ((s : State N) → replay s es ≡ some n → before s.stack s.root ++ es ≡ expression n)
      → bind o (λ s'. replay s' es) ≡ some n
      → prior ++ es ≡ expression n
  bind_sound none es n prior ext rec h = cc
  bind_sound (some s) es n prior ext rec h = ap (λ l. l ++ es) (sym ext) ∙ rec s h

  pub replay_sound :
      (es : List (Event Float)) (s : State N) (n : Node Float)
      → replay s es ≡ some n
      → before s.stack s.root ++ es ≡ expression n
  unfolding replay
  replay_sound [] s n h = finish_sound s.stack s.root n h
  replay_sound (e ∷ es) s n h =
      sym (append_assoc (before s.stack s.root) (e ∷ []) es)
      ∙ bind_sound (do_event e s.stack s.root) es n (before s.stack s.root ++ e ∷ [])
          (Extends-do_event e s.stack s.root) (λ s' g. replay_sound es s' n g) h

  replay-linear :
      (m top : Node Float) (rest : List (Node Float)) (r : Option (Node Float))
      (es : List (Event Float))
      → replay (record { stack = top ∷ rest; root = r }) (linear m ++ es)
        ≡ replay (record { stack = join top m ∷ rest; root = r }) es
  unfolding replay join
  replay-linear nil top rest r es =
      ap (λ (t : Node Float). replay (record { stack = t ∷ rest; root = r }) es)
        (sym (join-nil top))
  replay-linear (str s m) top rest r es =
      replay-linear m (join top (str s nil)) rest r es
      ∙ ap (λ (t : Node Float). replay (record { stack = t ∷ rest; root = r }) es)
          (join_assoc top (str s nil) m)
  replay-linear (num x m) top rest r es =
      replay-linear m (join top (num x nil)) rest r es
      ∙ ap (λ (t : Node Float). replay (record { stack = t ∷ rest; root = r }) es)
          (join_assoc top (num x nil) m)
  replay-linear (sub l m) top rest r es =
      ap (replay (record { stack = nil ∷ top ∷ rest; root = r }))
        (append_assoc (linear l) (leave ∷ linear m) es)
      ∙ replay-linear l nil (top ∷ rest) r (leave ∷ linear m ++ es)
      ∙ replay-linear m (join top (sub (join nil l) nil)) rest r es
      ∙ ap (λ (t : Node Float). replay (record { stack = t ∷ rest; root = r }) es)
          (join_assoc top (sub l nil) m)

  pub replay-expression : (n : Node Float) → replay (start N) (expression n) ≡ some n
  unfolding replay finish join
  replay-expression n = replay-linear n nil [] none (leave ∷ [])
