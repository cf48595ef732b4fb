-- ===== src/Sexpr/Accepts.antt =====
-- What `parse` of kicad/sexpr.py accepts.
use emi_analyzer.Sexpr.Events.{
  Event, enter, leave, text, number, expression, cons_some, value, bind, meaning, events, do_event,
  replay, replay_sound, replay-expression,
}
use emi_analyzer.Base.{
  Option, none, some, List, [], ◌∷◌, ◌≡◌, ◌↔◌, refl, ap, sym, arith, Text, ◌∙◌, inl, inr,
  Bool-cases, Option-cases,
}
use emi_analyzer.Sexpr.Tokens.{
  Token, string, atom, opening, closing, Stream, finished, unexpected, yield, tokens, unescape,
}
use emi_analyzer.Sexpr.Tree.{Numbers, Node}
use emi_analyzer.Sexpr.Parser.{
  State, start, Result, ok, err, run, step, is_number, append_atom, with_top, parse,
}

some_inj : {A : Type 0} {a b : A} → some a ≡ some b → a ≡ b
some_inj h = cc

value-ok : {A : Type 0} (r : Result A) {a : A} → value r ≡ some a → r ≡ ok a
value-ok (ok b) h = cc
value-ok (err e) h = cc

module _ (N : Numbers) where
  open N use {Float, float}

  atom_meaning :
      (a : Text) (e : Event Float) (top : Node Float) (rest : List (Node Float))
      (r : Option (Node Float))
      → meaning N (atom a) ≡ some e
      → value (with_top N rest r (append_atom N top a)) ≡ do_event N e (top ∷ rest) r
  atom_meaning a e top rest r h = ground arith

  step-meaning :
      (t : Token) (e : Event Float) (stack : List (Node Float)) (r : Option (Node Float))
      → meaning N t ≡ some e
      → value (step N t stack r) ≡ do_event N e stack r
  unfolding step
  step-meaning opening e stack r h = ground arith
  step-meaning closing e [] r h = ground arith
  step-meaning closing e (node ∷ []) none h = ground arith
  step-meaning closing e (node ∷ []) (some m) h = ground arith
  step-meaning closing e (node ∷ parent ∷ rest) r h = ground arith
  step-meaning (string s) e [] r h = ground arith
  step-meaning (string s) e (top ∷ rest) r h = ground arith
  step-meaning (atom a) e [] r h = ground arith
  step-meaning (atom a) e (top ∷ rest) r h = atom_meaning a e top rest r h

  atom_has_meaning :
      (a : Text) (top : Node Float) (rest : List (Node Float)) (r : Option (Node Float))
      (s : State N)
      → with_top N rest r (append_atom N top a) ≡ ok s
      → (e : Event Float) × (meaning N (atom a) ≡ some e)
  atom_has_meaning a top rest r s h = elim (Bool-cases (is_number N a)) [
    | inl yes_number ↦ elim (Option-cases (float a)) [
      | inl failed ↦ absurd (ground arith)
      | inr (x, read) ↦ (number x, rw (yes_number, read))
    ]
    | inr no_number ↦ (text a, rw no_number)
  ]

  -- What `step` takes has a meaning.
  step_has_meaning :
      (t : Token) (stack : List (Node Float)) (r : Option (Node Float)) (s : State N)
      → step N t stack r ≡ ok s
      → (e : Event Float) × (meaning N t ≡ some e)
  unfolding step
  step_has_meaning opening stack r s h = (enter, refl)
  step_has_meaning closing stack r s h = (leave, refl)
  step_has_meaning (string v) stack r s h = (text (unescape v), refl)
  step_has_meaning (atom a) [] r s h = cc
  step_has_meaning (atom a) (top ∷ rest) r s h = atom_has_meaning a top rest r s h

  value_of_run :
      (d : Result (State N)) (ts : Stream)
      → value (elim d as (λ _. Result (Node Float)) [ ok s' ↦ run N s' ts | err e ↦ err e ])
        ≡ bind (value d) (λ s'. value (run N s' ts))
  value_of_run (ok s') ts = refl
  value_of_run (err e) ts = refl

  bind_same :
      (o : Option (State N)) (f g : State N → Option (Node Float))
      → ((s : State N) → f s ≡ g s)
      → bind o f ≡ bind o g
  bind_same none f g h = refl
  bind_same (some s) f g h = h s

  uncons :
      (a : Option (Event Float)) (b : Option (List (Event Float))) (es : List (Event Float))
      → cons_some a b ≡ some es
      → (e : Event Float) × (a ≡ some e)
        × (rest : List (Event Float)) × (b ≡ some rest)
        × (e ∷ rest ≡ es)
  uncons none b es h = cc
  uncons (some e) none es h = cc
  uncons (some e) (some rest) es h = (e, refl, rest, refl, cc)

  -- The reader's loop is `replay` on the events N of its tokens.
  run-eq-replay :
      (ts : Stream) (s : State N) (es : List (Event Float))
      → events N ts ≡ some es
      → value (run N s ts) ≡ replay N s es
  unfolding run replay
  run-eq-replay finished s es h = rw (← some_inj h) (refl)
  run-eq-replay (unexpected c) s es h = cc
  run-eq-replay (yield t ts) s es h =
      let (e, means, rest, more, joined) = uncons (meaning N t) (events N ts) es h in
      value_of_run (step N t s.stack s.root) ts
      ∙ ap (λ (o : Option (State N)). bind o (λ s'. value (run N s' ts)))
          (step-meaning t e s.stack s.root means)
      ∙ bind_same (do_event N e s.stack s.root) (λ s'. value (run N s' ts)) (λ s'. replay N s' rest)
          (λ s'. run-eq-replay ts s' rest more)
      ∙ ap (replay N s) joined

  events_of_run :
      (ts : Stream) (s : State N) (n : Node Float)
      → run N s ts ≡ ok n
      → (es : List (Event Float)) × (events N ts ≡ some es)
  unfolding run
  events_of_run finished s n h = ([], refl)
  events_of_run (unexpected c) s n h = cc
  events_of_run (yield t ts) s n h =
      events_of_yield (step N t s.stack s.root) refl h (λ s' g. events_of_run ts s' n g)
    where
      events_of_yield :
          (d : Result (State N))
          → step N t s.stack s.root ≡ d
          → (elim d as (λ _. Result (Node Float)) [ ok s' ↦ run N s' ts | err e ↦ err e ]) ≡ ok n
          → ((s' : State N)
              → run N s' ts ≡ ok n
              → (es : List (Event Float)) × (events N ts ≡ some es))
          → (es : List (Event Float)) × (events N (yield t ts) ≡ some es)
      events_of_yield (ok s') q g rec =
          let (e, means) = step_has_meaning t s.stack s.root s' q in
          let (es, more) = rec s' g in (e ∷ es, rw (means, more))
      events_of_yield (err x) q g rec = cc

  -- `parse` returns a node exactly where the text's tokens are that node's events, none missing
  -- and none left over.
  pub parse_exact :
      (t : Text) (n : Node Float) → (parse N t ≡ ok n) ↔ (events N (tokens t) ≡ some (expression n))
  unfolding parse
  parse_exact t n = (
    λ h.
        let (es, given) = events_of_run (tokens t) (start N) n h in
        let same = run-eq-replay (tokens t) (start N) es given in
        given ∙ ap some (replay_sound N es (start N) n (sym same ∙ ap value h)),
    λ h.
        value-ok (run N (start N) (tokens t))
          (run-eq-replay (tokens t) (start N) (expression n) h ∙ replay-expression N n),
  )
