-- ===== src/Drivers/Resolve/Covers.antt =====
-- An uploaded spectrum in drivers/resolve.py has a level wherever it covers a frequency.
use mathlib.Core.Path.{subst}
use emi_analyzer.Base.{
  ℕ, ◌≤◌, Bool, true, false, not, ◌||◌, Option, none, some, List, [], ◌∷◌, ◌≡◌, refl, ap, ◌∙◌,
  length, any, map, ◌⊎◌, sym, Bool-cases, inl, inr, arith,
}
use emi_analyzer.Base.Results.{Result, ok, err, ◌>>=◌}
use emi_analyzer.Base.Json.{Floats, Json, zero_f, IsOrdered}
use emi_analyzer.Drivers.Spectrum.{Raised, real}
use emi_analyzer.Drivers.Document.{Kind, spectrum, points, Driver, parse}
use emi_analyzer.Drivers.Document.Sound.{IsBody, parse-IsBody}
use emi_analyzer.Drivers.Resolve.{
  between, max_level, Undriven, put, Resolved, not_covered, dbuv_to_volts, interpolate_db,
  last_point, levels_at, resolve_points, resolve_kind, is_nil, resolve,
}

module _ (X : Floats) where
  open X use {Float, le, lt, Complex}

  abbrev pub is_driven : Option Complex → Bool
  is_driven none = false
  is_driven (some v) = true

  -- The frequencies that the points cover.
  abbrev pub covers : Float → Float → Float → Bool
  covers lo hi f = not (lt f lo || lt hi f)

  -- Neighbouring points around a frequency.
  abbrev pub IsNext : Float × Float → Float × Float → List (Float × Float) → Type 0
  IsNext x y (a ∷ b ∷ more) = ((x ≡ a) × (y ≡ b)) ⊎ IsNext x y (b ∷ more)
  IsNext x y _ = ⊥

  abbrev pub IsBracket : Float → Float × Float → Float × Float → List (Float × Float) → Type 0
  IsBracket f x y ps = IsNext x y ps × (le x.0 f ≡ true) × (le f y.0 ≡ true)

  abbrev pub IsOneOf : Float → List Float → Type 0
  IsOneOf f [] = ⊥
  IsOneOf f (g ∷ fs) = (f ≡ g) ⊎ IsOneOf f fs

  -- The voltage between two points.
  abbrev pub volts_between : Float × Float → Float × Float → Float → Result Raised Float
  volts_between x y f = between X x y f >>= λ level. dbuv_to_volts X level

  -- The arithmetic raises at one of the frequencies, between the points around it.
  pub record Fails (ps : List (Float × Float)) (lo hi : Float) (fs : List Float) (e : Raised)
      : Type 0 where
    pub f : Float
    pub asked : IsOneOf f fs
    pub covered : covers lo hi f ≡ true
    pub x : Float × Float
    pub y : Float × Float
    pub around : IsBracket f x y ps
    pub raises : volts_between x y f ≡ err e

  abbrev Reads :
      Float
      → Float
      → List (Float × Float)
      → List Float
      → Result Raised (List (Option Complex) × Undriven X)
      → Type 0
  Reads lo hi ps fs (ok (vs, u)) = map is_driven vs ≡ map (covers lo hi) fs
  Reads lo hi ps fs (err e) = Fails ps lo hi fs e

  -- What becomes of a spectrum at some frequencies.
  abbrev pub Outcome :
      Float × Float → List (Float × Float) → List Float → Result Raised (Resolved X) → Type 0
  Outcome p ps fs (ok r) = map is_driven r.volts ≡ map (covers p.0 (last_point X p ps).0) fs
  Outcome p ps fs (err e) =
      Fails (p ∷ ps) p.0 (last_point X p ps).0 fs e ⊎ (dbuv_to_volts X (max_level X p.1 ps) ≡ err e)

module _ (X : Floats) (O : IsOrdered X) where
  open X use {Float, le, lt, Complex}

  not_lt : (a b : Float) → lt a b ≡ false → le b a ≡ true
  not_lt a b h = ground (arith, O.lt-le a b, h)

  not_le : (a b : Float) → le a b ≡ false → le b a ≡ true
  not_le a b h = elim (O.total a b) [ inl e ↦ ground (arith, e, h) | inr e ↦ e ]

  or_left : (a b : Bool) → (a || b) ≡ false → a ≡ false
  or_left a b h = ground arith

  or_right : (a b : Bool) → (a || b) ≡ false → b ≡ false
  or_right a b h = ground arith

  interpolate_db-IsBracket :
      (a b : Float × Float) (more : List (Float × Float)) (f : Float)
      → le a.0 f ≡ true
      → le f (last_point X b more).0 ≡ true
      → (x : Float × Float) × (y : Float × Float) × IsBracket X f x y (a ∷ b ∷ more)
        × (interpolate_db X (a ∷ b ∷ more) f ≡ between X x y f)
  unfolding interpolate_db
  interpolate_db-IsBracket a b [] f lo hi = (a, b, (inl (refl, refl), lo, hi), rw (lo, hi) refl)
  interpolate_db-IsBracket a b (c ∷ more) f lo hi = elim (Bool-cases (le f b.0)) [
    | inl here ↦ (a, b, (inl (refl, refl), lo, here), rw (lo, here) refl)
    | inr beyond ↦
        let (x, y, (at, low, high), e) =
          interpolate_db-IsBracket b c more f (not_le f b.0 beyond) hi in
        (x, y, (inr at, low, high), rw (lo, beyond) e)
  ]

  later-Fails :
      (ps : List (Float × Float)) (lo hi f : Float) (fs : List Float) (e : Raised)
      → Fails X ps lo hi fs e
      → Fails X ps lo hi (f ∷ fs) e
  later-Fails ps lo hi f fs e h = record {
    f = h.f;
    asked = inr h.asked;
    covered = h.covered;
    x = h.x;
    y = h.y;
    around = h.around;
    raises = h.raises;
  }

  -- The rest of the loop behind a frequency that is covered.
  volts-Reads :
      (ps : List (Float × Float)) (lo hi f : Float) (fs : List Float) (x y : Float × Float)
      (m : Result Raised Float) (r : Result Raised (List (Option Complex) × Undriven X))
      → covers X lo hi f ≡ true
      → IsBracket X f x y ps
      → volts_between X x y f ≡ m
      → Reads X lo hi ps fs r
      → Reads X lo hi ps (f ∷ fs) (m >>= λ v. r >>= λ (vs, u). ok (some (real X v) ∷ vs, u))
  volts-Reads ps lo hi f fs x y (err e) r here at em h = record {
    f = f;
    asked = inl refl;
    covered = here;
    x = x;
    y = y;
    around = at;
    raises = em;
  }
  volts-Reads ps lo hi f fs x y (ok v) (err e) here at em h = later-Fails ps lo hi f fs e h
  volts-Reads ps lo hi f fs x y (ok v) (ok (vs, u)) here at em h =
      ap (λ l. true ∷ l) h ∙ ap (λ b. b ∷ map (covers X lo hi) fs) (sym here)

  level-Reads :
      (ps : List (Float × Float)) (lo hi f : Float) (fs : List Float) (x y : Float × Float)
      (m : Result Raised Float) (r : Result Raised (List (Option Complex) × Undriven X))
      → covers X lo hi f ≡ true
      → IsBracket X f x y ps
      → between X x y f ≡ m
      → Reads X lo hi ps fs r
      → Reads X lo hi ps (f ∷ fs) (
          m >>= λ level.
          dbuv_to_volts X level >>= λ v. r >>= λ (vs, u). ok (some (real X v) ∷ vs, u))
  level-Reads ps lo hi f fs x y (err e) r here at em h =
      volts-Reads ps lo hi f fs x y (err e) r here at
        (ap (λ m. m >>= λ level. dbuv_to_volts X level) em) h
  level-Reads ps lo hi f fs x y (ok level) r here at em h =
      volts-Reads ps lo hi f fs x y (dbuv_to_volts X level) r here at
        (ap (λ m. m >>= λ level. dbuv_to_volts X level) em) h

  outside-Reads :
      (ps : List (Float × Float)) (lo hi f : Float) (fs : List Float)
      (r : Result Raised (List (Option Complex) × Undriven X))
      → covers X lo hi f ≡ false
      → Reads X lo hi ps fs r
      → Reads X lo hi ps (f ∷ fs) (r >>= λ (vs, u). ok (none ∷ vs, u))
  outside-Reads ps lo hi f fs (err e) apart h = later-Fails ps lo hi f fs e h
  outside-Reads ps lo hi f fs (ok (vs, u)) apart h =
      ap (λ l. false ∷ l) h ∙ ap (λ b. b ∷ map (covers X lo hi) fs) (sym apart)

  levels_at-Reads :
      (a b : Float × Float) (more : List (Float × Float)) (fs : List Float) (u : Undriven X)
      → Reads X a.0
          (last_point X b more).0
          (a ∷ b ∷ more)
          fs
          (levels_at X a.0 (last_point X b more).0 (a ∷ b ∷ more) fs u)
  unfolding levels_at
  levels_at-Reads a b more [] u = refl
  levels_at-Reads a b more (f ∷ fs) u =
      let hi = (last_point X b more).0 in
      elim (Bool-cases (lt f a.0 || lt hi f)) [
        | inl outside ↦ rw outside (
            outside-Reads (a ∷ b ∷ more) a.0 hi f fs
              (levels_at X a.0 hi (a ∷ b ∷ more) fs (put X f not_covered u)) (rw outside refl)
              (levels_at-Reads a b more fs (put X f not_covered u)))
        | inr inside ↦
            let (x, y, at, e) =
              interpolate_db-IsBracket a b more f
                (not_lt f a.0 (or_left (lt f a.0) (lt hi f) inside))
                (not_lt hi f (or_right (lt f a.0) (lt hi f) inside)) in
            rw (inside, e)
              (level-Reads (a ∷ b ∷ more) a.0 hi f fs x y (between X x y f)
                (levels_at X a.0 hi (a ∷ b ∷ more) fs u) (rw inside refl) at refl
                (levels_at-Reads a b more fs u))
      ]

  -- The largest level, once the loop is done.
  scale-Outcome :
      (fs : List Float) (p : Float × Float) (ps : List (Float × Float)) (m : Result Raised Float)
      (vs : List (Option Complex)) (u : Undriven X)
      → dbuv_to_volts X (max_level X p.1 ps) ≡ m
      → map (is_driven X) vs ≡ map (covers X p.0 (last_point X p ps).0) fs
      → Outcome X p ps fs (
          m >>= λ scale. ok (record {
            frequencies_hz = fs;
            volts = vs;
            undriven = u;
            magnitude_only = true;
            scale_v = scale;
          }))
  scale-Outcome fs p ps (err e) vs u em h = inr em
  scale-Outcome fs p ps (ok scale) vs u em h = h

  loop-Outcome :
      (fs : List Float) (p : Float × Float) (ps : List (Float × Float))
      (r : Result Raised (List (Option Complex) × Undriven X))
      → Reads X p.0 (last_point X p ps).0 (p ∷ ps) fs r
      → Outcome X p ps fs (
          r >>= λ (vs, u). dbuv_to_volts X (max_level X p.1 ps) >>= λ scale. ok (record {
            frequencies_hz = fs;
            volts = vs;
            undriven = u;
            magnitude_only = true;
            scale_v = scale;
          }))
  loop-Outcome fs p ps (err e) h = inl h
  loop-Outcome fs p ps (ok (vs, u)) h =
      scale-Outcome fs p ps (dbuv_to_volts X (max_level X p.1 ps)) vs u refl h

  resolve_points-Outcome :
      (fs : List Float) (p : Float × Float) (ps : List (Float × Float)) (rbw : Option Float)
      → 2 ≤ length (p ∷ ps)
      → Outcome X p ps fs (resolve_points X fs (points (p ∷ ps) rbw))
  resolve_points-Outcome fs p [] rbw h = absurd (omega arith)
  resolve_points-Outcome fs p (q ∷ ps) rbw h =
      loop-Outcome fs p (q ∷ ps) (levels_at X p.0 (last_point X q ps).0 (p ∷ q ∷ ps) fs [])
        (levels_at-Reads p q ps fs [])

  checked :
      (k : Kind) (d : Driver X) (fs : List Float)
      → d.kind ≡ k
      → is_nil X fs ≡ false
      → any (λ f. le f (zero_f X)) fs ≡ false
      → resolve X d fs ≡ resolve_kind X k d fs
  unfolding resolve
  checked k d fs is_k some_f positive = rw (is_k, some_f, positive) refl

  -- Where no float is NaN: a spectrum that `parse` returns is resolved at every list of positive frequencies that
  -- is not empty, and it drives exactly the frequencies from its first point to its last. The only exceptions
  -- are those of `math.log10`, `/` and `**` between the two points around a frequency that it covers, and of
  -- `**` at its largest level.
  pub resolve-spectrum :
      (j : Json Float) (bytes : Option ℕ) (d : Driver X) (p : Float × Float)
      (ps : List (Float × Float)) (rbw : Option Float) (fs : List Float)
      → parse X j bytes ≡ ok d
      → d.kind ≡ spectrum
      → d.payload ≡ points (p ∷ ps) rbw
      → is_nil X fs ≡ false
      → any (λ f. le f (zero_f X)) fs ≡ false
      → Outcome X p ps fs (resolve X d fs)
  resolve-spectrum j bytes d p ps rbw fs parsed is_spectrum payload some_f positive =
      let (_, body) = parse-IsBody X j bytes d parsed in
      let body' : IsBody X spectrum d.values (points (p ∷ ps) rbw) =
        rw (is_spectrum, payload) at body in
      subst (Outcome X p ps fs)
        (sym (checked spectrum d fs is_spectrum some_f positive ∙ ap (resolve_points X fs) payload))
        (resolve_points-Outcome fs p ps rbw body'.1)
