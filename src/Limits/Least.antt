-- ===== src/Limits/Least.antt =====
-- Which segment of a standard of compliance/limits.py decides its limit at a frequency.
use mathlib.Core.Path.{subst}
use emi_analyzer.Base.{
  Bool, true, false, List, [], ◌∷◌, ◌≡◌, ◌⊎◌, inl, inr, refl, sym, ap, ◌∙◌, Bool-cases, All,
  if◌then◌else◌,
}
use emi_analyzer.Base.Json.{Floats}
use emi_analyzer.Base.Results.{
  Result, ok, ◌>>=◌, map_results, map_results-eq-ok, bind-eq-ok, ok_inj, err_ok,
}
use emi_analyzer.Limits.{
  Raised, Segment, Standard, covers, level_at, covering, keep_less, least_from, least_of, min_of,
  limit_at, detector_at, or_default, segments,
}
use emi_analyzer.Limits.Covers.{IsOrdered, not_lt, lt→le}

module _ (F : Floats) where
  open F use {Float, le, lt}

  abbrev pub IsIn : Segment F → List (Segment F) → Type 0
  IsIn s [] = ⊥
  IsIn s (t ∷ more) = (s ≡ t) ⊎ IsIn s more

  covering-IsIn :
      (f : Float) (s : Segment F) (l : List (Segment F))
      → IsIn s (covering F f l)
      → IsIn s l × (covers F f s ≡ true)
  covering-IsIn f s [] h = absurd h
  covering-IsIn f s (t ∷ l) h = elim (Bool-cases (covers F f t)) [
    | inr apart ↦ let (there, c) = covering-IsIn f s l (rw apart at h) in (inr there, c)
    | inl here ↦ elim (rw here at h) [
      | inl same ↦ (inl same, rw same here)
      | inr later ↦ let (there, c) = covering-IsIn f s l later in (inr there, c)
    ]
  ]

  bool_clash : true ≡ false → ⊥
  bool_clash h = cc

  All-covering {κ} :
      (P : Segment F → Type κ) (f : Float) (l : List (Segment F))
      → All P (covering F f l)
      → All (λ s. covers F f s ≡ true → P s) l
  All-covering P f [] h = tt
  All-covering P f (t ∷ l) h = elim (Bool-cases (covers F f t)) [
    | inl here ↦ let (first, rest) = rw here at h in ((λ _. first), All-covering P f l rest)
    | inr apart ↦ ((λ c. absurd (bool_clash (sym c ∙ apart))), All-covering P f l (rw apart at h))
  ]

  -- A segment has a level, and it is not below `x`.
  abbrev pub NotBelow : (Segment F → Result Raised Float) → Float → Segment F → Type 0
  NotBelow key x s = (k : Float) × (key s ≡ ok k) × (le x k ≡ true)

module _ (F : Floats) (O : IsOrdered F) where
  open F use {Float, le, lt}

  le_refl : (a : Float) → le a a ≡ true
  le_refl a = elim (O.total a a) [ inl e ↦ e | inr e ↦ e ]

  -- The segment that the loop of `min` chooses, whose level is the least one.
  abbrev IsLeast :
      (Segment F → Result Raised Float)
      → Segment F
      → List (Segment F)
      → Float
      → Result Raised (Segment F)
      → Type 0
  IsLeast key b l x r =
      (m : Segment F) × (r ≡ ok m)
      × IsIn F m (b ∷ l)
      × (key m ≡ ok x)
      × All (NotBelow F key x) (b ∷ l)

  IsLeast-cons :
      (key : Segment F → Result Raised Float) (b s : Segment F) (kb ks x y : Float)
      (l : List (Segment F)) (less : Bool) (rs rb : Result Raised (Segment F))
      → lt ks kb ≡ less
      → key b ≡ ok kb
      → key s ≡ ok ks
      → IsLeast key s l x rs
      → IsLeast key b l y rb
      → IsLeast key b (s ∷ l) (if less then x else y) (keep_less F rs rb less)
  IsLeast-cons key b s kb ks x y l true rs rb e eb es (m, r, there, em, ((k, ek, low), rest)) _ =
      let low_s : le x ks ≡ true = rw (sym (ok_inj (sym ek ∙ es))) low in
      (
        m,
        r,
        inr there,
        em,
        ((kb, eb, O.trans _ _ _ low_s (lt→le F O ks kb e)), ((k, ek, low), rest)),
      )
  IsLeast-cons key b s kb ks x y l false rs rb e eb es _ (m, r, there, em, ((k, ek, low), rest)) =
      let low_b : le y kb ≡ true = rw (sym (ok_inj (sym ek ∙ eb))) low in
      (
        m,
        r,
        elim there [ inl same ↦ inl same | inr later ↦ inr (inr later) ],
        em,
        ((k, ek, low), ((ks, es, O.trans _ _ _ low_b (not_lt F O ks kb e)), rest)),
      )

  least_from-IsLeast :
      (key : Segment F → Result Raised Float) (b : Segment F) (kb : Float) (l : List (Segment F))
      (levels : List Float)
      → key b ≡ ok kb
      → map_results key l ≡ ok levels
      → IsLeast key b l (least_of F kb levels) (least_from F key b kb l)
  unfolding least_from least_of map_results
  least_from-IsLeast key b kb [] levels eb h =
      let e : [] ≡ levels = ok_inj h in
      rw (sym e) (b, refl, inl refl, eb, ((kb, eb, le_refl kb), tt))
  least_from-IsLeast key b kb (s ∷ l) levels eb h =
      let (ks, more, es, em, e) = map_results-eq-ok (key s) (map_results key l) levels h in
      let step : Result Raised Float → Result Raised (Segment F) =
        λ m. m >>= λ k. keep_less F (least_from F key s k l) (least_from F key b kb l) (lt k kb) in
      let both : IsLeast key b (s ∷ l) (least_of F kb (ks ∷ more)) (step (ok ks)) =
        IsLeast-cons key b s kb ks (least_of F ks more) (least_of F kb more) l (lt ks kb)
          (least_from F key s ks l) (least_from F key b kb l) refl eb es
          (least_from-IsLeast key s ks l more es em) (least_from-IsLeast key b kb l more eb em) in
      subst (λ ls. IsLeast key b (s ∷ l) (least_of F kb ls) (step (key s))) (sym e)
        (subst (λ m. IsLeast key b (s ∷ l) (least_of F kb (ks ∷ more)) (step m)) (sym es) both)

  -- `s` is a segment that covers the frequency, with the given level and detector, and no other covering
  -- segment has a smaller level.
  abbrev pub IsGoverning : Standard F → Float → Float → Segment F → Type 0
  IsGoverning std f level s =
      IsIn F s (segments F std)
      × (covers F f s ≡ true)
      × (level_at F f s ≡ ok level)
      × (detector_at F std f ≡ ok (or_default F std.detector s.detector))
      × All (λ t. covers F f t ≡ true → NotBelow F (level_at F f) level t) (segments F std)

  chosen-IsGoverning :
      (std : Standard F) (f level : Float) (c : List (Segment F))
      → covering F f (segments F std) ≡ c
      → (map_results (level_at F f) c >>= λ levels. min_of F levels) ≡ ok level
      → (s : Segment F) × IsGoverning std f level s
  unfolding detector_at map_results
  chosen-IsGoverning std f level [] e h = absurd (err_ok h)
  chosen-IsGoverning std f level (b ∷ l) e h =
      let key = level_at F f in
      let (levels, read, least) = bind-eq-ok (map_results key (b ∷ l)) (min_of F) h in
      let (kb, ks, eb, el, is) = map_results-eq-ok (key b) (map_results key l) levels read in
      let same : least_of F kb ks ≡ level = ok_inj (ap (min_of F) (sym is) ∙ least) in
      let (s, chosen, there, es, lower) = least_from-IsLeast key b kb l ks eb el in
      let (inside, here) = covering-IsIn F f s (segments F std) (rw e there) in
      (
        s,
        (
          inside,
          here,
          es ∙ ap ok same,
          rw (e, eb, chosen) refl,
          All-covering F (NotBelow F key level) f (segments F std)
              (rw e (subst (λ x. All (NotBelow F key x) (b ∷ l)) same lower)),
        ),
      )

  -- Where no float is NaN and `limit_at` returns a level, it is the level of a segment that covers the
  -- frequency, every segment that covers it has a level and none has a smaller one, and `detector_at` returns
  -- the detector of that segment.
  pub limit_at-IsGoverning :
      (std : Standard F) (f level : Float)
      → limit_at F std f ≡ ok level
      → (s : Segment F) × IsGoverning std f level s
  unfolding limit_at
  limit_at-IsGoverning std f level h = chosen-IsGoverning std f level _ refl h
