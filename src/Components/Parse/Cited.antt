-- ===== src/Components/Parse/Cited.antt =====
-- A number with no source is not usable: what `parse` of components/document.py lets through.
use emi_analyzer.Base.{
  Bool, true, false, not, ◌||◌, ◌&&◌, Option, none, some, ◌≡◌, ◌⊎◌, refl, inl, inr, Text, codes,
  arith, Option-cases,
}
use emi_analyzer.Base.Results.{
  ok, guard, Ensures, Ensures-bind, Ensures-eq-ok, Ensures-imp, guard-eq-ok, guard-Ensures,
}
use emi_analyzer.Base.Json.{Floats, Json, Number}
use emi_analyzer.Components.Python.{
  no_packages, uncited_bias, no_datasheet, uncited, Model, series_rlc, mlcc_family, Source, Texts,
  is_none, is_nil,
}
use emi_analyzer.Components.Document.{SeriesRlc, MlccFamily, Component, rlc_of, mlcc_of, cites}
use emi_analyzer.Components.Parse.{
  check_cited, check_model, check_sources, is_vendor, read_component, parse,
}

module _ (X : Floats) (T : Texts X.Float) (ge : Number X.Float → Number X.Float → Bool) where
  open X use {Float}

  abbrev pub HasSource : Component X T → Text → Type 0
  HasSource c what = (s : Source) × (cites X T c what ≡ some s)

  -- A number that is there has a source.
  abbrev pub CitedIf : Component X T → Text → Option Float → Type 0
  CitedIf c what none = Unit
  CitedIf c what (some x) = HasSource c what

  clash : false ≡ true → ⊥
  clash e = cc

  found :
      (c : Component X T) (what : Text)
      → not (is_none X T (cites X T c what)) ≡ true
      → HasSource c what
  found c what h = elim (Option-cases (cites X T c what)) [
    | inl absent ↦ absurd (clash (rw absent at h))
    | inr (s, e) ↦ (s, e)
  ]

  check_cited-CitedIf :
      (c : Component X T) (what : Text) (o : Option Float)
      → Ensures (λ _. CitedIf c what o) (check_cited X T ge c what o)
  check_cited-CitedIf c what none = tt
  check_cited-CitedIf c what (some x) =
      guard-Ensures (not (is_none X T (cites X T c what))) (uncited what) (found c what)

  -- The model that is checked is there, and cited.
  abbrev pub ModelIsCited : Model → Component X T → Type 0
  ModelIsCited series_rlc c =
      (rlc : SeriesRlc X T) × (rlc_of X T c ≡ ok rlc)
      × CitedIf c (codes "ESL") rlc.esl_h
      × CitedIf c (codes "ESR") rlc.esr_ohm
  ModelIsCited mlcc_family c =
      (family : MlccFamily X T) × (mlcc_of X T c ≡ ok family)
      × (is_nil X T family.esl_by_package ≡ false)
      × HasSource c (codes "ESL")

  negated : (b : Bool) → not b ≡ true → b ≡ false
  negated b h = ground arith

  check_model-ModelIsCited :
      (k : Model) (c : Component X T) → Ensures (λ _. ModelIsCited k c) (check_model X T ge k c)
  check_model-ModelIsCited series_rlc c = Ensures-bind _ (rlc_of X T c) _ (λ rlc e.
      Ensures-bind _ (check_cited X T ge c (codes "ESL") rlc.esl_h) _ (λ _ el.
        Ensures-imp _ _ (check_cited X T ge c (codes "ESR") rlc.esr_ohm)
          (λ _ r. (
            rlc,
            e,
            Ensures-eq-ok _ (check_cited X T ge c (codes "ESL") rlc.esl_h)
                (check_cited-CitedIf c (codes "ESL") rlc.esl_h) el,
            r,
          ))
          (check_cited-CitedIf c (codes "ESR") rlc.esr_ohm)))
  check_model-ModelIsCited mlcc_family c = Ensures-bind _ (mlcc_of X T c) _ (λ family e.
      Ensures-bind _ (guard (not (is_nil X T family.esl_by_package)) no_packages) _
        (λ _ some_package.
          guard-Ensures (not (is_none X T (cites X T c (codes "ESL")))) (uncited (codes "ESL"))
            (λ h. (family, e, negated _ (guard-eq-ok _ _ some_package), found c (codes "ESL") h))))

  pub record IsCited (c : Component X T) : Type 0 where
    pub model : ModelIsCited c.model_type c
    pub bias : (is_nil X T c.dc_bias ≡ true) ⊎ HasSource c (codes "DC bias")
    pub datasheet : (is_vendor X T ge c.provenance && is_nil X T c.sources) ≡ false

  either :
      (b : Bool) (c : Component X T) (what : Text)
      → (b || not (is_none X T (cites X T c what))) ≡ true
      → (b ≡ true) ⊎ HasSource c what
  either true c what h = inl refl
  either false c what h = inr (found c what h)

  check_sources-IsCited : (c : Component X T) → Ensures (λ _. IsCited c) (check_sources X T ge c)
  unfolding check_sources
  check_sources-IsCited c =
      let bias_cited = is_nil X T c.dc_bias || not (is_none X T (cites X T c (codes "DC bias"))) in
      Ensures-bind _ (check_model X T ge c.model_type c) _ (λ _ em.
        Ensures-bind _ (guard bias_cited uncited_bias) _ (λ _ eb.
          guard-Ensures (not (is_vendor X T ge c.provenance && is_nil X T c.sources)) no_datasheet
            (λ h. record {
              model =
                  Ensures-eq-ok _ (check_model X T ge c.model_type c)
                    (check_model-ModelIsCited c.model_type c) em;
              bias =
                  either (is_nil X T c.dc_bias) c (codes "DC bias") (guard-eq-ok bias_cited _ eb);
              datasheet = negated _ h;
            })))

  -- What `parse` returns is cited: a series model has a source for its ESL and one for its ESR where it has
  -- such a number; a family has a package and a source for its ESL values; a component with capacitance under
  -- bias has a source for that; and a vendor part has a source. None of the calls that read the model raises.
  pub parse-IsCited : (j : Json Float) (c : Component X T) → parse X T ge j ≡ ok c → IsCited c
  unfolding parse
  parse-IsCited j c e =
      Ensures-eq-ok IsCited (parse X T ge j)
        (Ensures-bind IsCited (read_component X T ge j) _ (λ c' _.
          Ensures-bind IsCited (check_sources X T ge c') _ (λ _ checked.
            Ensures-eq-ok _ (check_sources X T ge c') (check_sources-IsCited c') checked)))
        e

  -- The numbers of a model that a component gives for a part.
  abbrev pub ModelCited : Component X T → Model → Option (SeriesRlc X T) → Type 0
  ModelCited c k none = Unit
  ModelCited c series_rlc (some rlc) =
      CitedIf c (codes "ESL") rlc.esl_h × CitedIf c (codes "ESR") rlc.esr_ohm
  ModelCited c mlcc_family (some rlc) = CitedIf c (codes "ESL") rlc.esl_h
