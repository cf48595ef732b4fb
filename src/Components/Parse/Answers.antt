-- ===== src/Components/Parse/Answers.antt =====
-- What `resolve_for` of components/document.py does on a component that `parse` returned.
use emi_analyzer.Base.{
  Bool, true, false, ◌&&◌, Option, none, some, List, [], ◌∷◌, ◌≡◌, Text, codes, if◌then◌else◌,
}
use emi_analyzer.Base.Results.{Result, ok, err, ◌>>=◌, or_raise}
use emi_analyzer.Base.Json.{Floats, Json, Number, zero_f}
use emi_analyzer.Components.Python.{
  Raised, value_error, overflow, zero_division, Model, series_rlc, mlcc_family, Texts, log10_of,
  divide, is_zero,
}
use emi_analyzer.Components.Document.{
  SeriesRlc, MlccFamily, Component, esl_for, between, found, interpolate, last_pair, esr_for,
  family_rlc, resolve_model, resolve_for,
}
use emi_analyzer.Components.Parse.{parse}
use emi_analyzer.Components.Parse.Cited.{HasSource, ModelIsCited, ModelCited, parse-IsCited}

-- The exceptions of `math.log10`, of `/` and of `**`.
abbrev pub IsArithmetic : Raised → Type 0
IsArithmetic value_error = Unit
IsArithmetic overflow = Unit
IsArithmetic zero_division = Unit
IsArithmetic _ = ⊥

-- What is raised, if anything is, is one of these.
abbrev Raises {ℓ} : {A : Type ℓ} → Result Raised A → Type 0
Raises (ok a) = Unit
Raises (err e) = IsArithmetic e

Raises-bind {ℓ κ} :
    {A : Type ℓ} {B : Type κ} (r : Result Raised A) (f : A → Result Raised B)
    → Raises r
    → ((a : A) → Raises (f a))
    → Raises (r >>= f)
Raises-bind (ok a) f h k = k a
Raises-bind (err e) f h k = h

Raises-if {ℓ} :
    {A : Type ℓ} (b : Bool) (r s : Result Raised A)
    → Raises r
    → Raises s
    → Raises (if b then r else s)
Raises-if true r s h k = h
Raises-if false r s h k = k

or_raise-Raises {ℓ} : {A : Type ℓ} (o : Option A) → Raises (or_raise o overflow)
or_raise-Raises none = tt
or_raise-Raises (some a) = tt

module _ (X : Floats) (T : Texts X.Float) where
  open X use {ten_to, Float, le, log10, div, add, sub, mul}

  log10_of-Raises : (x : Float) → Raises (log10_of X T x)
  log10_of-Raises x = Raises-if (le x (zero_f X)) (err value_error) (ok (log10 x)) tt tt

  divide-Raises : (a b : Float) → Raises (divide X T a b)
  divide-Raises a b = Raises-if (is_zero X T b) (err zero_division) (ok (div a b)) tt tt

  between-Raises : (p q : Float × Float) (c : Float) → Raises (between X T p q c)
  between-Raises (c0, r0) (c1, r1) c = Raises-bind (log10_of X T c) _ (log10_of-Raises c) (λ at.
      Raises-bind (log10_of X T c0) _ (log10_of-Raises c0) (λ start.
        Raises-bind (log10_of X T c1) _ (log10_of-Raises c1) (λ stop.
          Raises-bind (divide X T (sub at start) (sub stop start)) _ (divide-Raises _ _) (λ t.
            Raises-bind (log10_of X T r0) _ (log10_of-Raises r0) (λ first.
              Raises-bind (log10_of X T r1) _ (log10_of-Raises r1)
                (λ last. or_raise-Raises (ten_to (add first (mul t (sub last first))))))))))

  found-Raises : (r : Result Raised Float) → Raises r → Raises (found X T r)
  found-Raises (ok x) h = tt
  found-Raises (err e) h = h

  interpolate-Raises : (c : Float) (table : List (Float × Float)) → Raises (interpolate X T c table)
  unfolding interpolate
  interpolate-Raises c [] = tt
  interpolate-Raises c (p ∷ []) = tt
  interpolate-Raises c (p ∷ q ∷ more) =
      Raises-if (le p.0 c && le c q.0) (found X T (between X T p q c))
        (interpolate X T c (q ∷ more)) (found-Raises (between X T p q c) (between-Raises p q c))
        (interpolate-Raises c (q ∷ more))

  esr_for-Raises : (table : List (Float × Float)) (c : Float) → Raises (esr_for X T table c)
  unfolding esr_for
  esr_for-Raises [] c = tt
  esr_for-Raises (p ∷ more) c = Raises-if (le c (zero_f X)) (ok none) _ tt (
      Raises-if (le c p.0) (ok (some p.1)) _ tt (
        Raises-if (le (last_pair X T p more).0 c) (ok (some (last_pair X T p more).1))
          (interpolate X T c (p ∷ more)) tt (interpolate-Raises c (p ∷ more))))

  module _ (ge : Number X.Float → Number X.Float → Bool) where
    -- A series model always answers. A family may raise on the numbers of its table, and nothing else.
    abbrev pub Answers : Component X T → Model → Result Raised (Option (SeriesRlc X T)) → Type 0
    Answers c k (ok r) = ModelCited X T ge c k r
    Answers c series_rlc (err e) = ⊥
    Answers c mlcc_family (err e) = IsArithmetic e

    with_esr-Answers :
        (c : Component X T) (c_f esl : Float) (esr : Result Raised (Option Float))
        → HasSource X T ge c (codes "ESL")
        → Raises esr
        → Answers c mlcc_family (
            esr >>= λ r. ok (
              some (record {
                c_f = c_f;
                esl_h = some esl;
                esr_ohm = r;
                esl_includes_mount = c.esl_includes_mount;
              })))
    with_esr-Answers c c_f esl (ok r) source h = source
    with_esr-Answers c c_f esl (err e) source h = h

    family_rlc-Answers :
        (c : Component X T) (c_f : Float) (family : MlccFamily X T) (esl : Option Float)
        → HasSource X T ge c (codes "ESL")
        → Answers c mlcc_family (family_rlc X T c c_f family esl)
    family_rlc-Answers c c_f family none source = tt
    family_rlc-Answers c c_f family (some esl) source =
        with_esr-Answers c c_f esl (esr_for X T family.esr_table c_f) source
          (esr_for-Raises family.esr_table c_f)

    resolve_model-Answers :
        (k : Model) (c : Component X T) (c_f : Float) (imperial : Text)
        → ModelIsCited X T ge k c
        → Answers c k (resolve_model X T k c c_f imperial)
    resolve_model-Answers series_rlc c c_f imperial (rlc, e, esl, esr) = rw e (esl, esr)
    resolve_model-Answers mlcc_family c c_f imperial (family, e, _, source) =
        rw e (family_rlc-Answers c c_f family (esl_for X T imperial family.esl_by_package) source)

    -- A series model that `parse` returns answers `resolve_for` for every part, and a family raises nothing
    -- but the errors of `math.log10`, `/` and `**` on its table. A model that is returned has a source for
    -- its ESL, and a series model for its ESR too, where it has the number.
    pub resolve_for-Answers :
        (j : Json Float) (c : Component X T) (c_f : Float) (imperial : Text)
        → parse X T ge j ≡ ok c
        → Answers c c.model_type (resolve_for X T c c_f imperial)
    unfolding resolve_for
    resolve_for-Answers j c c_f imperial e =
        resolve_model-Answers c.model_type c c_f imperial (parse-IsCited X T ge j c e).model
