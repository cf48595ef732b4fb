-- ===== src/Drivers/Document/Weakest.antt =====
-- `Driver.weakest_source` and `Driver.sigma_db` of drivers/document.py.
use emi_analyzer.Base.{
  ℕ, ◌≤◌, false, Option, some, List, [], ◌∷◌, ◌≡◌, ◌⊎◌, refl, ◌∙◌, inl, inr, ltb, if◌then◌else◌,
  Text, All, Bool-cases, arith,
}
use emi_analyzer.Base.Results.{ok, Ensures-eq-ok}
use emi_analyzer.Base.Json.{Floats, Json}
use emi_analyzer.Drivers.Document.{
  source_sigma, Sourced, Driver, parse, no_values, worst_from, worst, weakest_source, sigma_db,
}
use emi_analyzer.Drivers.Document.Sound.{parse-IsParsed}

module _ (X : Floats) where
  abbrev pub IsOneOf : Sourced X → List (Text × Sourced X) → Type 0
  IsOneOf s [] = ⊥
  IsOneOf s ((k, t) ∷ more) = (s ≡ t) ⊎ IsOneOf s more

  abbrev σ : Sourced X → ℕ
  σ s = source_sigma s.source

  abbrev pub Below : Sourced X → List (Text × Sourced X) → Type 0
  Below s vs = All (λ v. source_sigma v.1.source ≤ source_sigma s.source) vs

  -- The worse of two, as the loop takes it.
  abbrev worse : Sourced X → Sourced X → Sourced X
  worse b s = if ltb (σ b) (σ s) then s else b

  worse-cases : (b s : Sourced X) → (worse b s ≡ b) ⊎ (worse b s ≡ s)
  worse-cases b s = elim (Bool-cases (ltb (σ b) (σ s))) [
    | inl e ↦ inr (rw e refl)
    | inr e ↦ inl (rw e refl)
  ]

  worse_bounds : (b s : Sourced X) → (σ b ≤ σ (worse b s)) × (σ s ≤ σ (worse b s))
  worse_bounds b s = elim (Bool-cases (ltb (σ b) (σ s))) [
    | inl e ↦ rw e (ground arith, omega arith)
    | inr e ↦ rw e (omega arith, ground arith)
  ]

  worst_from-IsOneOf :
      (b : Sourced X) (vs : List (Text × Sourced X))
      → (worst_from X b vs ≡ b) ⊎ IsOneOf (worst_from X b vs) vs
  worst_from-IsOneOf b [] = inl refl
  worst_from-IsOneOf b ((k, s) ∷ vs) = elim (worst_from-IsOneOf (worse b s) vs) [
    | inr later ↦ inr (inr later)
    | inl here ↦ elim (worse-cases b s) [ inl e ↦ inl (here ∙ e) | inr e ↦ inr (inl (here ∙ e)) ]
  ]

  worst_from-Below :
      (b : Sourced X) (vs : List (Text × Sourced X))
      → (σ b ≤ σ (worst_from X b vs)) × Below (worst_from X b vs) vs
  worst_from-Below b [] = (omega arith, tt)
  worst_from-Below b ((k, s) ∷ vs) =
      let (first, rest) = worst_from-Below (worse b s) vs in
      let (left, right) = worse_bounds b s in
      (omega (arith, first, left), (omega (arith, first, right), rest))

  worst_lem :
      (vs : List (Text × Sourced X))
      → no_values X vs ≡ false
      → (s : Sourced X) × (worst X vs ≡ some s.source) × IsOneOf s vs × Below s vs
  worst_lem [] h = cc
  worst_lem ((k, s) ∷ vs) h =
      let (first, rest) = worst_from-Below s vs in
      (worst_from X s vs, refl, worst_from-IsOneOf s vs, (first, rest))

  -- A driver that `parse` returns has a weakest source: that of one of its values, and no value has a
  -- source with a larger sigma. `sigma_db` is that sigma.
  pub weakest_source-Below :
      (j : Json X.Float) (bytes : Option ℕ) (d : Driver X)
      → parse X j bytes ≡ ok d
      → (s : Sourced X) × (weakest_source X d ≡ some s.source)
        × (sigma_db X d ≡ some (source_sigma s.source))
        × IsOneOf s d.values
        × Below s d.values
  unfolding weakest_source sigma_db
  weakest_source-Below j bytes d e =
      let (_, some_value) = Ensures-eq-ok _ (parse X j bytes) (parse-IsParsed X j bytes) e in
      let (s, is_worst, one, below) = worst_lem d.values some_value in
      (s, is_worst, rw is_worst refl, one, below)
