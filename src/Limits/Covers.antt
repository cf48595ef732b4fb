-- ===== src/Limits/Covers.antt =====
-- Where a standard of compliance/limits.py has a limit.
use emi_analyzer.Base.{
  true, false, not, Option, none, some, All, ◌∙◌, List, [], ◌∷◌, ◌≡◌, ◌⊎◌, inl, inr, refl, sym, ap,
  Text, Bool-cases, arith,
}
use emi_analyzer.Base.Json.{Floats, zero_f}
use emi_analyzer.Base.Results.{Result, ok, err, map_results, err_ok}
use emi_analyzer.Limits.{
  Raised, Segment, Standard, covering, segments, between, sloped, level_at, check_neighbours,
  with_segments, make_standard, covers, last_hi, least_of, min_of, limit_at, in_range,
}

-- The comparisons are a total order, as Python's are on floats without NaN.
pub record IsOrdered (F : Floats) : Type 0 where
  pub total : (a b : F.Float) → (F.le a b ≡ true) ⊎ (F.le b a ≡ true)
  pub trans : (a b c : F.Float) → F.le a b ≡ true → F.le b c ≡ true → F.le a c ≡ true
  pub lt-le : (a b : F.Float) → F.lt a b ≡ not (F.le b a)

-- The quotient of two frequencies above zero is above zero, and its logarithm is not zero: with 0 < a < b, the
-- quotient b / a of floats is above 1.
pub record HasLogarithms (F : Floats) : Type 0 where
  pub nonzero : (a : F.Float) → F.lt (zero_f F) a ≡ true → F.eq a (zero_f F) ≡ false
  pub positive :
      (a b : F.Float)
      → F.lt (zero_f F) a ≡ true
      → F.lt a b ≡ true
      → F.le (F.div b a) (zero_f F) ≡ false
  pub apart :
      (a b : F.Float)
      → F.lt (zero_f F) a ≡ true
      → F.lt a b ≡ true
      → F.eq (F.log10 (F.div b a)) (zero_f F) ≡ false

module _ (F : Floats) (O : IsOrdered F) where
  open F use {Float, le, lt}

  not_le : (a b : Float) → le a b ≡ false → le b a ≡ true
  not_le a b h = elim (O.total a b) [ inl e ↦ ground (arith, e, h) | inr e ↦ e ]

  pub lt→le : (a b : Float) → lt a b ≡ true → le a b ≡ true
  lt→le a b h = not_le b a (ground (arith, O.lt-le a b, h))

  pub not_lt : (a b : Float) → lt a b ≡ false → le b a ≡ true
  not_lt a b h = ground (arith, O.lt-le a b, h)

  abbrev HasSome : List (Segment F) → Type 0
  HasSome [] = ⊥
  HasSome (s ∷ l) = Unit

  covering-first :
      (f : Float) (a : Segment F) (more : List (Segment F))
      → le a.f_lo_hz f ≡ true
      → le f a.f_hi_hz ≡ true
      → HasSome (covering F f (a ∷ more))
  unfolding covers
  covering-first f a more lo hi = rw (lo, hi) tt

  covering-later :
      (f : Float) (a : Segment F) (more : List (Segment F))
      → HasSome (covering F f more)
      → HasSome (covering F f (a ∷ more))
  covering-later f a more h = elim (Bool-cases (covers F f a)) [
    | inl here ↦ rw here tt
    | inr not_here ↦ rw not_here h
  ]

  covering-last_hi :
      (f : Float) (a : Segment F) (more : List (Segment F))
      → check_neighbours F a more ≡ ok tt
      → le a.f_lo_hz f ≡ true
      → le f (last_hi F a more) ≡ true
      → HasSome (covering F f (a ∷ more))
  unfolding check_neighbours
  covering-last_hi f a [] joined lo hi = covering-first f a [] lo hi
  covering-last_hi f a (b ∷ more) joined lo hi = elim (Bool-cases (le f a.f_hi_hz)) [
    | inl here ↦ covering-first f a (b ∷ more) lo here
    | inr beyond ↦ elim (Bool-cases (lt b.f_lo_hz a.f_hi_hz)) [
      | inl overlap ↦ absurd (err_ok (rw overlap at joined))
      | inr apart ↦ elim (Bool-cases (lt a.f_hi_hz b.f_lo_hz)) [
        | inl gap ↦ absurd (err_ok (rw (apart, gap) at joined))
        | inr meet ↦ covering-later f a (b ∷ more) (
            covering-last_hi f b more (rw (apart, meet) at joined)
              (O.trans _ _ _ (not_lt _ _ meet) (not_le _ _ beyond)) hi)
      ]
    ]
  ]

  with_segments-ok :
      (id detector : Text) (a : Segment F) (more : List (Segment F)) (r : Result {0} Raised Unit)
      (std : Standard F)
      → with_segments F id detector a more r ≡ ok std
      → (r ≡ ok tt) × (std.first ≡ a) × (std.others ≡ more)
  with_segments-ok id detector a more (err e) std h = cc
  with_segments-ok id detector a more (ok tt) std h =
      let same : record { id = id; detector = detector; first = a; others = more } ≡ std = cc in
      (refl, ap (λ s. s.first) (sym same), ap (λ s. s.others) (sym same))

  lt_trans : (a b c : Float) → lt a b ≡ true → lt b c ≡ true → lt a c ≡ true
  lt_trans a b c h k =
      ground (arith, O.lt-le a b, O.lt-le b c, O.lt-le a c, O.trans c a b, lt→le a b h)

  -- A segment is flat, or it starts above 0 Hz.
  abbrev pub IsLogarithmic : Segment F → Type 0
  IsLogarithmic s = (s.level_db_hi ≡ none) ⊎ (lt (zero_f F) s.f_lo_hz ≡ true)

  module _ (L : HasLogarithms F) where
    between_total :
        (f : Float) (s : Segment F) (hi : Float)
        → lt (zero_f F) s.f_lo_hz ≡ true
        → lt s.f_lo_hz f ≡ true
        → lt f s.f_hi_hz ≡ true
        → (level : Float) × (between F f s hi ≡ ok level)
    between_total f s hi above lo up =
        let wide = lt_trans s.f_lo_hz f s.f_hi_hz lo up in
        (
          F.add s.level_db (
              F.mul (F.div (F.log10 (F.div f s.f_lo_hz)) (F.log10 (F.div s.f_hi_hz s.f_lo_hz)))
                (F.sub hi s.level_db)),
          rw
              (
                L.nonzero s.f_lo_hz above,
                L.positive s.f_lo_hz s.f_hi_hz above wide,
                L.positive s.f_lo_hz f above lo,
                L.apart s.f_lo_hz s.f_hi_hz above wide,
              )
              refl,
        )

    sloped_total :
        (f : Float) (s : Segment F) (hi : Float)
        → lt (zero_f F) s.f_lo_hz ≡ true
        → (level : Float) × (sloped F f s (some hi) ≡ ok level)
    sloped_total f s hi above = elim (Bool-cases (le f s.f_lo_hz)) [
      | inl low ↦ (s.level_db, rw low refl)
      | inr up ↦ elim (Bool-cases (le s.f_hi_hz f)) [
        | inl high ↦ (hi, rw (up, high) refl)
        | inr down ↦
            let (level, e) =
              between_total f s hi above (O.lt-le s.f_lo_hz f ∙ ap not up)
                (O.lt-le f s.f_hi_hz ∙ ap not down) in
            (level, rw (up, down) e)
      ]
    ]

    by_slope :
        (f : Float) (s : Segment F) (o : Option Float)
        → (o ≡ none) ⊎ (lt (zero_f F) s.f_lo_hz ≡ true)
        → (level : Float) × (sloped F f s o ≡ ok level)
    by_slope f s none h = (s.level_db, refl)
    by_slope f s (some hi) (inl flat) = cc
    by_slope f s (some hi) (inr above) = sloped_total f s hi above

    level_at_total :
        (f : Float) (s : Segment F)
        → IsLogarithmic s
        → (level : Float) × (level_at F f s ≡ ok level)
    unfolding level_at
    level_at_total f s h = by_slope f s s.level_db_hi h

    levels_total :
        (f : Float) (l : List (Segment F))
        → All IsLogarithmic l
        → (levels : List Float) × (map_results (level_at F f) (covering F f l) ≡ ok levels)
          × (HasSome (covering F f l) → (level : Float) × (min_of F levels ≡ ok level))
    unfolding map_results
    levels_total f [] h = ([], refl, λ none_there. absurd none_there)
    levels_total f (s ∷ l) h = elim (Bool-cases (covers F f s)) [
      | inr apart ↦ rw apart (levels_total f l h.1)
      | inl here ↦
          let (level, e) = level_at_total f s h.0 in
          let (levels, es, _) = levels_total f l h.1 in
          rw here (level ∷ levels, rw (e, es) refl, λ _. (least_of F level levels, refl))
    ]

    -- Where no float is NaN and the quotient and the logarithm of two frequencies behave: a standard whose
    -- segments pass the checks of `_parse`, and whose sloping segments start above 0 Hz, has a limit at every
    -- frequency from its first segment's start to its last segment's end, and nothing is raised.
    pub limit_at-in_range :
        (id detector : Text) (all : List (Segment F)) (std : Standard F) (f : Float)
        → make_standard F id detector all ≡ ok std
        → All IsLogarithmic all
        → in_range F std f ≡ true
        → (level : Float) × (limit_at F std f ≡ ok level)
    unfolding limit_at make_standard in_range
    limit_at-in_range id detector [] std f made slopes inside = absurd (err_ok made)
    limit_at-in_range id detector (a ∷ more) std f made slopes inside =
        let (joined, first, others) = with_segments-ok id detector a more _ std made in
        let (levels, e, least) = levels_total f (segments F std) (rw (first, others) slopes) in
        let there =
          covering-last_hi f std.first std.others (rw (first, others) joined)
            (ground (arith, inside)) (ground (arith, inside)) in
        rw e (least there)
