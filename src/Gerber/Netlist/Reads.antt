-- ===== src/Gerber/Netlist/Reads.antt =====
-- What `parse` of gerber/ipcd356.py reads: the records that have a name and a tail, at the scale in force.
use emi_analyzer.Base.{
  ℕ, ◌+◌, Bool, true, false, not, ◌||◌, ◌&&◌, Option, none, some, List, [], ◌∷◌, ◌++◌, ◌≡◌, refl,
  sym, ap, ◌∙◌, inl, inr, length, length-append, append-nil, append_assoc, take, drop,
  if◌then◌else◌, Text, strip, Bool-cases, arith,
}
use emi_analyzer.Base.Results.{
  Result, ok, guard, or_raise, map_results, map_results-append, guard-eq-ok, Ensures, Ensures-bind,
  Ensures-eq-ok, Ensures-imp, or_raise-eq-ok,
}
use emi_analyzer.Base.Json.{Floats}
use emi_analyzer.Gerber.Records.{
  Digits, split_lines, strip_returns, is_record, units, Tail, search_tail,
}
use emi_analyzer.Gerber.Netlist.{
  Raised, unknown_unit, NetPoint, Netlist, unit_scale_mm, read_point, State, named_record,
  tail_record, read_record, set_units, is_parameter, read_line, read_lines, count_long,
  truncated_warning, skipped_warning, is_empty, finish, start, parse,
}

abbrev pub records : List Text → ℕ
records [] = 0
records (raw ∷ more) = (if is_record (strip_returns raw) then 1 else 0) + records more

abbrev pub name_field : Text → Text
name_field line = strip (take 14 (drop 3 line))

module _ (D : Digits) (X : Floats) where
  open X use {Float}

  -- The scale behind a line: that of its units, if it declares any.
  abbrev pub scale_behind : Option ℕ → Option Float → Option Float
  scale_behind none scale = scale
  scale_behind (some unit) scale = unit_scale_mm D X unit

  abbrev pub next_scale : Text → Option Float → Option Float
  next_scale line scale = if is_parameter D X line then scale_behind (units D line) scale else scale

  abbrev pub Entry : Type 0
  Entry = Float × Text × Text × Tail D

  abbrev pub named_entry : Float → Text → Tail D → Text → List Entry
  named_entry scale line tail [] = []
  named_entry scale line tail (c ∷ net) = (scale, line, c ∷ net, tail) ∷ []

  abbrev pub entry : Option Float → Text → Text → Option (Tail D) → List Entry
  entry none line net o = []
  entry (some scale) line net none = []
  entry (some scale) line net (some tail) = named_entry scale line tail net

  -- A record is no parameter line.
  not_parameter : (line : Text) → is_record line ≡ true → is_parameter D X line ≡ false
  not_parameter [] h = refl
  not_parameter (c ∷ []) h = ground arith
  not_parameter (c ∷ d ∷ []) h = ground arith
  not_parameter (c ∷ d ∷ e ∷ t) h = ground arith

  abbrev pub entries : Option Float → Text → List Entry
  entries scale line =
      if is_record line then entry scale line (name_field line) (search_tail D line) else []

  -- The records with a name and a tail, each with the scale of the last units line before it.
  abbrev pub readable : Option Float → List Text → List Entry
  readable scale [] = []
  readable scale (raw ∷ more) =
      entries scale (strip_returns raw) ++ readable (next_scale (strip_returns raw) scale) more

  abbrev pub is_there : Option Float → Bool
  is_there none = false
  is_there (some x) = true

  -- No record comes before the units.
  abbrev pub units_first : Option Float → List Text → Bool
  units_first scale [] = true
  units_first scale (raw ∷ more) =
      (not (is_record (strip_returns raw)) || is_there scale)
      && units_first (next_scale (strip_returns raw) scale) more

  abbrev pub point_of : Entry → Result Raised (NetPoint D X)
  point_of (scale, line, net, tail) = read_point D X scale line net tail

  abbrev Step : Text → State D X → State D X → Type 0
  Step line s t =
      (ps : List (NetPoint D X)) × (map_results point_of (entries s.scale line) ≡ ok ps)
      × (t.points ≡ s.points ++ ps)
      × (t.skipped + length ps ≡ s.skipped + (if is_record line then 1 else 0))
      × (t.scale ≡ next_scale line s.scale)
      × ((not (is_record line) || is_there s.scale) ≡ true)

  Step-set_units :
      (line : Text) (s : State D X) (o : Option ℕ)
      → units D line ≡ o
      → is_parameter D X line ≡ true
      → is_record line ≡ false
      → Ensures (Step line s) (set_units D X o s)
  unfolding map_results
  Step-set_units line s none e p r =
      ([], rw r refl, sym (append-nil s.points), rw r refl, rw (p, e) refl, rw r refl)
  Step-set_units line s (some unit) e p r =
      Ensures-bind (Step line s) (or_raise (unit_scale_mm D X unit) unknown_unit) _ (λ scale h. (
        [],
        rw r refl,
        sym (append-nil s.points),
        rw r refl,
        rw (p, e) (sym (or_raise-eq-ok (unit_scale_mm D X unit) unknown_unit h)),
        rw r refl,
      ))

  Step-named :
      (line : Text) (s : State D X) (scale : Float) (tail : Tail D) (net : Text)
      → name_field line ≡ net
      → search_tail D line ≡ some tail
      → s.scale ≡ some scale
      → is_record line ≡ true
      → is_parameter D X line ≡ false
      → Ensures (Step line s) (named_record D X scale line tail net s)
  unfolding map_results
  Step-named line s scale tail [] en et es r p = (
    [],
    rw (r, en, es, et) refl,
    sym (append-nil s.points),
    rw r (omega arith),
    rw p refl,
    rw (r, es) refl,
  )
  Step-named line s scale tail (c ∷ net) en et es r p =
      Ensures-bind (Step line s) (read_point D X scale line (c ∷ net) tail) _ (λ q h.
        (q ∷ [], rw (r, en, es, et, h) refl, refl, rw r (omega arith), rw p refl, rw (r, es) refl))

  Step-tail :
      (line : Text) (s : State D X) (scale : Float) (o : Option (Tail D))
      → search_tail D line ≡ o
      → s.scale ≡ some scale
      → is_record line ≡ true
      → is_parameter D X line ≡ false
      → Ensures (Step line s) (tail_record D X scale line o s)
  unfolding map_results
  Step-tail line s scale none et es r p = (
    [],
    rw (r, es, et) refl,
    sym (append-nil s.points),
    rw r (omega arith),
    rw p refl,
    rw (r, es) refl,
  )
  Step-tail line s scale (some tail) et es r p =
      Step-named line s scale tail (name_field line) refl et es r p

  Step-record :
      (line : Text) (s : State D X) (o : Option Float)
      → s.scale ≡ o
      → is_record line ≡ true
      → is_parameter D X line ≡ false
      → Ensures (Step line s) (read_record D X o line s)
  Step-record line s none es r p = tt
  Step-record line s (some scale) es r p = Step-tail line s scale (search_tail D line) refl es r p

  read_line-Step : (line : Text) (s : State D X) → Ensures (Step line s) (read_line D X line s)
  unfolding read_line map_results
  read_line-Step line s = elim (Bool-cases (is_record line)) [
    | inl record_line ↦
        let p = not_parameter line record_line in
        rw (p, record_line) (Step-record line s s.scale refl record_line p)
    | inr other ↦ elim (Bool-cases (is_parameter D X line)) [
      | inl p ↦ rw p (Step-set_units line s (units D line) refl p other)
      | inr p ↦
          rw (p, other)
            ([], rw other refl, sym (append-nil s.points), rw other refl, rw p refl, rw other refl)
    ]
  ]

  -- What the rest of the lines adds to a state.
  abbrev Reads : List Text → State D X → State D X → Type 0
  Reads lines s t =
      (ps : List (NetPoint D X)) × (map_results point_of (readable s.scale lines) ≡ ok ps)
      × (t.points ≡ s.points ++ ps)
      × (t.skipped + length ps ≡ s.skipped + records lines)
      × (units_first s.scale lines ≡ true)

  Reads-cons :
      (raw : Text) (more : List Text) (s t u : State D X)
      → Step (strip_returns raw) s t
      → Reads more t u
      → Reads (raw ∷ more) s u
  Reads-cons raw more s t u (ps, read, points, skips, scale, first)
        (qs, read', points', skips', first') =
      (
        ps ++ qs,
        map_results-append point_of (entries s.scale (strip_returns raw)) _ ps qs read
            (rw (sym scale) read'),
        rw (points', points) (append_assoc s.points ps qs),
        omega (arith, length-append ps qs, skips, skips'),
        rw (first, sym scale) first',
      )

  read_lines-Reads :
      (lines : List Text) (s : State D X) → Ensures (Reads lines s) (read_lines D X lines s)
  unfolding read_lines map_results
  read_lines-Reads [] s = ([], refl, sym (append-nil s.points), omega arith, refl)
  read_lines-Reads (raw ∷ more) s =
      Ensures-bind (Reads (raw ∷ more) s) (read_line D X (strip_returns raw) s) _ (λ t e.
        Ensures-imp (Reads more t) (Reads (raw ∷ more) s) (read_lines D X more t)
          (λ u h.
            Reads-cons raw more s t u
              (Ensures-eq-ok (Step (strip_returns raw) s) (read_line D X (strip_returns raw) s)
                (read_line-Step (strip_returns raw) s) e)
              h)
          (read_lines-Reads more t))

  -- What a netlist says of the text that it was read from.
  pub record IsRead (lines : List Text) (n : Netlist D X) : Type 0 where
    pub points : map_results point_of (readable none lines) ≡ ok n.points
    pub some_point : is_empty D X n.points ≡ false
    pub warned :
        (k : ℕ) × (k + length n.points ≡ records lines)
        × (n.warnings
            ≡ truncated_warning D X (count_long D X n.points)
              ++ skipped_warning D X k (length n.points))
    pub first : units_first none lines ≡ true

  finish-IsRead :
      (lines : List Text) (s : State D X)
      → Reads lines (start D X) s
      → Ensures (IsRead lines) (finish D X s)
  finish-IsRead lines s (ps, read, points, skips, first) =
      Ensures-bind (IsRead lines) (guard (not (is_empty D X s.points)) _) _ (λ _ e. record {
        points = read ∙ ap ok (sym points);
        some_point = ground (arith, guard-eq-ok (not (is_empty D X s.points)) _ e);
        warned = (s.skipped, rw points (omega (arith, skips)), refl);
        first = first;
      })

  -- The points of a netlist are those of the records with a name and a tail, in the order of the text, at the
  -- scale of the last units line before each; there is at least one. No record comes before the units. The
  -- other records are counted in the warning on skipped records, and with the points they are all records.
  pub parse-IsRead :
      (text : Text) (n : Netlist D X) → parse D X text ≡ ok n → IsRead (split_lines text) n
  unfolding parse
  parse-IsRead text n e =
      Ensures-eq-ok (IsRead (split_lines text)) (parse D X text)
        (Ensures-bind (IsRead (split_lines text)) (read_lines D X (split_lines text) (start D X)) _
          (λ s h. finish-IsRead (split_lines text) s (
            Ensures-eq-ok (Reads (split_lines text) (start D X))
              (read_lines D X (split_lines text) (start D X))
              (read_lines-Reads (split_lines text) (start D X)) h)))
        e
