-- ===== src/Components/Resolve/Chosen.antt =====
-- Which component a resolved part gets in components/resolve.py, and why.
use emi_analyzer.Base.{
  Bool, true, false, not, ◌&&◌, Option, none, some, List, [], ◌∷◌, ◌++◌, ◌≡◌, ◌⊎◌, refl, sym, ap,
  inl, inr, Text, contains, Bool-cases,
}
use emi_analyzer.Base.Results.{Result, ok, Ensures, Ensures-bind, Ensures-eq-ok, Ensures-imp}
use emi_analyzer.Base.Json.{Floats}
use emi_analyzer.Components.Package.{Classes}
use emi_analyzer.Components.Python.{Raised, Texts, normalise_part_number, is_nil}
use emi_analyzer.Components.Document.{SeriesRlc, Component, part_numbers, resolve_for}
use emi_analyzer.Components.Resolve.{
  Candidate, PartMatch, Resolved, modellable, rlc_for, find_hit, hit_of, is_capacitor, numbered,
  try_hit, try_number, is_built_in, rules_match, matches, valued, try_matched, try_value, resolved,
  or_next, first_of, by_value, resolve_part,
}

module _ (W : Classes) (X : Floats) (T : Texts X.Float) where
  open X use {Float}

  -- Where an element stands in a list.
  abbrev pub IsIn : {A : Type 0} → A → List A → Type 0
  IsIn a [] = ⊥
  IsIn a (x ∷ xs) = (a ≡ x) ⊎ IsIn a xs

  -- A field of the part names the component: its number is one of the component's.
  abbrev pub Names : Component X T → PartMatch W X T → Text × Text → Type 0
  Names c part hit =
      IsIn hit part.numbers
      × (contains (part_numbers X T c) (normalise_part_number X T hit.1) ≡ true)

  -- The record of a choice by part number.
  abbrev pub ByNumber : PartMatch W X T → Component X T → Resolved W X T → Type 0
  ByNumber part c r =
      (hit : Text × Text) × (rlc : SeriesRlc X T) × Names c part hit
      × (rlc_for W X T c part ≡ ok (some rlc))
      × (r.rlc ≡ rlc)
      × (r.matched_on ≡ some hit)

  -- The record of a choice by value and package: the component's rules match, and a component of the
  -- library has no part number.
  abbrev pub ByRules : PartMatch W X T → Candidate W X T → Resolved W X T → Type 0
  ByRules part cand r =
      (known : Float × Text) × (modellable W X T part ≡ some known)
      × (rules_match W X T cand.component.model_type cand.component part ≡ ok true)
      × ((is_built_in W X T cand.tier && not (is_nil X T (part_numbers X T cand.component)))
          ≡ false)
      × (resolve_for X T cand.component known.0 known.1 ≡ ok (some r.rlc))

  -- A resolved part is about its part, and its component is a capacitor with a reason.
  pub record IsPicked (part : PartMatch W X T) (cand : Candidate W X T) (r : Resolved W X T)
      : Type 0 where
    pub of_part : r.ref ≡ part.ref
    pub from : r.component_id ≡ cand.component.id
    pub capacitor : is_capacitor W X T cand.component ≡ true
    pub reason : ByNumber part cand.component r ⊎ ByRules part cand r

  -- What holds of a result that is there.
  abbrev IfSome : (Resolved W X T → Type 0) → Option (Resolved W X T) → Type 0
  IfSome P none = Unit
  IfSome P (some r) = P r

  some_inj : {A : Type 0} {a b : A} → some a ≡ some b → a ≡ b
  some_inj e = cc

  none-some : {A : Type 0} {a : A} → ◌≡◌ {A = Option A} none (some a) → ⊥
  none-some e = cc

  false-true : ◌≡◌ {A = Result Raised Bool} (ok false) (ok true) → ⊥
  false-true e = cc

  find_hit-Names :
      (numbers : List Text) (fields : List (Text × Text)) (hit : Text × Text)
      → find_hit W X T numbers fields ≡ some hit
      → IsIn hit fields × (contains numbers (normalise_part_number X T hit.1) ≡ true)
  find_hit-Names numbers [] hit e = cc
  find_hit-Names numbers ((f, v) ∷ more) hit e =
      elim (Bool-cases (contains numbers (normalise_part_number X T v))) [
        | inl same ↦ (
          inl (sym (some_inj (rw same at e))),
          rw
              (sym (
                ap (λ h. contains numbers (normalise_part_number X T h.1))
                  (some_inj (rw same at e))))
              same,
        )
        | inr other ↦
            let (there, number) = find_hit-Names numbers more hit (rw other at e) in
            (inr there, number)
      ]

  hit_of-Names :
      (c : Component X T) (part : PartMatch W X T) (hit : Text × Text)
      → hit_of W X T c part ≡ some hit
      → (is_capacitor W X T c ≡ true) × Names c part hit
  hit_of-Names c part hit e = elim (Bool-cases (is_capacitor W X T c)) [
    | inl is ↦ (is, find_hit-Names (part_numbers X T c) part.numbers hit (rw is at e))
    | inr isnt ↦ absurd (none-some (rw isnt at e))
  ]

  numbered-IsPicked :
      (part : PartMatch W X T) (cand : Candidate W X T) (hit : Text × Text)
      (o : Option (SeriesRlc X T))
      → (is_capacitor W X T cand.component ≡ true) × Names cand.component part hit
      → rlc_for W X T cand.component part ≡ ok o
      → IfSome (IsPicked part cand) (numbered W X T cand.component part hit o)
  unfolding resolved
  numbered-IsPicked part cand hit none h e = tt
  numbered-IsPicked part cand hit (some rlc) (capacitor, names) e = record {
    of_part = refl;
    from = refl;
    capacitor = capacitor;
    reason = inl (hit, rlc, names, e, refl, refl);
  }

  try_hit-IsPicked :
      (part : PartMatch W X T) (cand : Candidate W X T) (o : Option (Text × Text))
      → hit_of W X T cand.component part ≡ o
      → Ensures (IfSome (IsPicked part cand)) (try_hit W X T cand.component part o)
  try_hit-IsPicked part cand none e = tt
  try_hit-IsPicked part cand (some hit) e =
      Ensures-bind (IfSome (IsPicked part cand)) (rlc_for W X T cand.component part) _
        (λ o eo. numbered-IsPicked part cand hit o (hit_of-Names cand.component part hit e) eo)

  try_number-IsPicked :
      (part : PartMatch W X T) (cand : Candidate W X T)
      → Ensures (IfSome (IsPicked part cand)) (try_number W X T part cand)
  unfolding try_number
  try_number-IsPicked part cand = try_hit-IsPicked part cand (hit_of W X T cand.component part) refl

  -- What a match says: a component of the library has no part number, and the rules match.
  matches-rules :
      (c : Component X T) (part : PartMatch W X T) (built : Bool)
      → matches W X T c part built ≡ ok true
      → ((built && not (is_nil X T (part_numbers X T c))) ≡ false)
        × (rules_match W X T c.model_type c part ≡ ok true)
  unfolding matches
  matches-rules c part built e =
      elim (Bool-cases (built && not (is_nil X T (part_numbers X T c)))) [
        | inl barred ↦ absurd (false-true (rw barred at e))
        | inr free ↦ (free, rw free at e)
      ]

  valued-IsPicked :
      (part : PartMatch W X T) (cand : Candidate W X T) (known : Float × Text)
      (o : Option (SeriesRlc X T))
      → is_capacitor W X T cand.component ≡ true
      → modellable W X T part ≡ some known
      → matches W X T cand.component part (is_built_in W X T cand.tier) ≡ ok true
      → resolve_for X T cand.component known.0 known.1 ≡ ok o
      → IfSome (IsPicked part cand) (valued W X T cand.component part o)
  unfolding resolved
  valued-IsPicked part cand known none capacitor e m r = tt
  valued-IsPicked part cand known (some rlc) capacitor e m r =
      let (free, rules) = matches-rules cand.component part (is_built_in W X T cand.tier) m in
      record {
        of_part = refl;
        from = refl;
        capacitor = capacitor;
        reason = inr (known, e, rules, free, r);
      }

  try_matched-IsPicked :
      (part : PartMatch W X T) (cand : Candidate W X T) (known : Float × Text) (b : Bool)
      → is_capacitor W X T cand.component ≡ true
      → modellable W X T part ≡ some known
      → matches W X T cand.component part (is_built_in W X T cand.tier) ≡ ok b
      → Ensures (IfSome (IsPicked part cand)) (try_matched W X T cand.component part known b)
  try_matched-IsPicked part cand known false capacitor e m = tt
  try_matched-IsPicked part cand known true capacitor e m =
      Ensures-bind (IfSome (IsPicked part cand)) (resolve_for X T cand.component known.0 known.1) _
        (λ o r. valued-IsPicked part cand known o capacitor e m r)

  try_value-IsPicked :
      (part : PartMatch W X T) (known : Float × Text) (cand : Candidate W X T)
      → modellable W X T part ≡ some known
      → Ensures (IfSome (IsPicked part cand)) (try_value W X T part known cand)
  unfolding try_value
  try_value-IsPicked part known cand e = elim (Bool-cases (is_capacitor W X T cand.component)) [
    | inl is ↦ rw is (
        Ensures-bind (IfSome (IsPicked part cand))
          (matches W X T cand.component part (is_built_in W X T cand.tier)) _
          (λ b m. try_matched-IsPicked part cand known b is e m))
    | inr isnt ↦ rw isnt tt
  ]

  -- The component of a resolved part is one of those offered.
  abbrev pub IsChosen : PartMatch W X T → List (Candidate W X T) → Resolved W X T → Type 0
  IsChosen part ordered r = (cand : Candidate W X T) × IsIn cand ordered × IsPicked part cand r

  IfSome-imp :
      (P Q : Resolved W X T → Type 0) (o : Option (Resolved W X T))
      → ((r : Resolved W X T) → P r → Q r)
      → IfSome P o
      → IfSome Q o
  IfSome-imp P Q none f h = tt
  IfSome-imp P Q (some r) f h = f r h

  or_next-IsChosen :
      (part : PartMatch W X T) (c : Candidate W X T) (cs : List (Candidate W X T))
      (got : Option (Resolved W X T)) (rest : Result Raised (Option (Resolved W X T)))
      → IfSome (IsPicked part c) got
      → Ensures (IfSome (IsChosen part cs)) rest
      → Ensures (IfSome (IsChosen part (c ∷ cs))) (or_next W X T got rest)
  or_next-IsChosen part c cs none rest h k =
      Ensures-imp (IfSome (IsChosen part cs)) (IfSome (IsChosen part (c ∷ cs))) rest
        (λ o.
          IfSome-imp (IsChosen part cs) (IsChosen part (c ∷ cs)) o
            (λ r (cand, there, picked). (cand, inr there, picked)))
        k
  or_next-IsChosen part c cs (some r) rest h k = (c, inl refl, h)

  first_of-IsChosen :
      (part : PartMatch W X T) (try : Candidate W X T → Result Raised (Option (Resolved W X T)))
      (cs : List (Candidate W X T))
      → ((cand : Candidate W X T) → Ensures (IfSome (IsPicked part cand)) (try cand))
      → Ensures (IfSome (IsChosen part cs)) (first_of W X T try cs)
  unfolding first_of
  first_of-IsChosen part try [] h = tt
  first_of-IsChosen part try (c ∷ cs) h =
      Ensures-bind (IfSome (IsChosen part (c ∷ cs))) (try c) _ (λ got e.
        or_next-IsChosen part c cs got (first_of W X T try cs)
          (Ensures-eq-ok (IfSome (IsPicked part c)) (try c) (h c) e)
          (first_of-IsChosen part try cs h))

  by_value-IsChosen :
      (part : PartMatch W X T) (cs : List (Candidate W X T)) (o : Option (Float × Text))
      → modellable W X T part ≡ o
      → Ensures (IfSome (IsChosen part cs)) (by_value W X T part cs o)
  by_value-IsChosen part cs none e = tt
  by_value-IsChosen part cs (some known) e =
      first_of-IsChosen part (try_value W X T part known) cs
        (λ cand. try_value-IsPicked part known cand e)

  second :
      (part : PartMatch W X T) (cs : List (Candidate W X T)) (got : Option (Resolved W X T))
      → IfSome (IsChosen part cs) got
      → Ensures
          (IfSome (IsChosen part cs))
          (or_next W X T got (by_value W X T part cs (modellable W X T part)))
  second part cs none h = by_value-IsChosen part cs (modellable W X T part) refl
  second part cs (some r) h = h

  -- A resolved part carries its own name, and its component is a capacitor among the user's components and
  -- the library. Either a field of the part is one of the component's numbers, and the field is recorded;
  -- or the part has a known value and package, the component's rules match it, and the component is no
  -- library part with a number of its own. The model is what that component gives.
  pub resolve_part-IsChosen :
      (library : List (Candidate W X T)) (part : PartMatch W X T)
      (candidates : List (Candidate W X T)) (r : Resolved W X T)
      → resolve_part W X T library part candidates ≡ ok (some r)
      → IsChosen part (candidates ++ library) r
  unfolding resolve_part
  resolve_part-IsChosen library part candidates r e =
      Ensures-eq-ok (IfSome (IsChosen part (candidates ++ library)))
        (resolve_part W X T library part candidates)
        (Ensures-bind (IfSome (IsChosen part (candidates ++ library)))
          (first_of W X T (try_number W X T part) (candidates ++ library)) _
          (λ got h. second part (candidates ++ library) got (
            Ensures-eq-ok (IfSome (IsChosen part (candidates ++ library)))
              (first_of W X T (try_number W X T part) (candidates ++ library))
              (first_of-IsChosen part (try_number W X T part) (candidates ++ library)
                (try_number-IsPicked part))
              h)))
        e
