-- ===== src/Drivers/Document/Values.antt =====
-- The dictionary `values` of drivers/document.py: what is read stays there.
use emi_analyzer.Base.{
  some, List, [], ◌∷◌, ◌++◌, ◌≡◌, refl, Text, text_eq, text_eq_iff, All, Bool-cases, inl, inr,
}
use emi_analyzer.Base.Results.{ok, guard, Ensures, Ensures-bind, Ensures-eq-ok, Ensures-imp}
use emi_analyzer.Base.Json.{Floats, Fields, get, has}
use emi_analyzer.Drivers.Spectrum.{Trapezoid, missing}
use emi_analyzer.Drivers.Document.{
  Sourced, find_value, value_of, read_value, read_values, sourced, make_trapezoid, trapezoid_fields,
}

module _ (X : Floats) where
  open X use {Float}

  abbrev pub IsThere : Text → List (Text × Sourced X) → Type 0
  IsThere k vs = (s : Sourced X) × (find_value X k vs ≡ some s)

  -- Nothing is lost or changed.
  abbrev pub Extends : List (Text × Sourced X) → List (Text × Sourced X) → Type 0
  Extends vs ws =
      (k : Text) (s : Sourced X) → find_value X k vs ≡ some s → find_value X k ws ≡ some s

  find_value-append : (vs ws : List (Text × Sourced X)) → Extends vs (vs ++ ws)
  find_value-append [] ws k s h = cc
  find_value-append ((j, r) ∷ vs) ws k s h = elim (Bool-cases (text_eq j k)) [
    | inl same ↦ rw same (rw same at h)
    | inr other ↦ rw other (find_value-append vs ws k s (rw other at h))
  ]

  find_value-last :
      (vs : List (Text × Sourced X)) (k : Text) (s : Sourced X) → IsThere k (vs ++ (k, s) ∷ [])
  find_value-last [] k s = (s, rw ((text_eq_iff k k).1 refl) refl)
  find_value-last ((j, r) ∷ vs) k s = elim (Bool-cases (text_eq j k)) [
    | inl same ↦ (r, rw same refl)
    | inr other ↦ let (t, e) = find_value-last vs k s in (t, rw other e)
  ]

  pub read_value-IsThere :
      (body : Fields Float) (vs : List (Text × Sourced X)) (k : Text)
      → Ensures (λ ws. IsThere k ws × Extends vs ws) (read_value X body vs k)
  unfolding read_value
  read_value-IsThere body vs k = Ensures-bind _ (guard (has k body) (missing k)) _ (λ _ _.
      Ensures-bind _ (sourced X (get k body) k) _
        (λ s _. (find_value-last vs k s, find_value-append vs ((k, s) ∷ []))))

  pub read_values-IsThere :
      (body : Fields Float) (vs : List (Text × Sourced X)) (ks : List Text)
      → Ensures (λ ws. All (λ k. IsThere k ws) ks × Extends vs ws) (read_values X body vs ks)
  unfolding read_values
  read_values-IsThere body vs [] = (tt, λ k s h. h)
  read_values-IsThere body vs (k ∷ ks) = Ensures-bind _ (read_value X body vs k) _ (λ ws e.
      let (there, kept) =
        Ensures-eq-ok _ (read_value X body vs k) (read_value-IsThere body vs k) e in
      Ensures-imp _ _ (read_values X body ws ks)
        (λ xs h. (((there.0, h.1 k there.0 there.1), h.0), λ j s q. h.1 j s (kept j s q)))
        (read_values-IsThere body ws ks))

  pub value_of-IsThere :
      (k : Text) (vs : List (Text × Sourced X))
      → IsThere k vs
      → (x : Float) × (value_of X k vs ≡ ok x)
  value_of-IsThere k vs (s, e) = (s.value, rw e refl)

  abbrev pub HasAll : List (Text × Sourced X) → Type 0
  HasAll vs = All (λ k. IsThere k vs) trapezoid_fields

  -- With all six fields the constructor call succeeds, and more values change nothing.
  pub make_trapezoid-HasAll :
      (vs ws : List (Text × Sourced X))
      → HasAll vs
      → Extends vs ws
      → (t : Trapezoid X) × (make_trapezoid X vs ≡ ok t) × (make_trapezoid X ws ≡ ok t)
  unfolding make_trapezoid
  make_trapezoid-HasAll vs ws h kept =
      let ((a, ea), ((p, ep), ((w, ew), ((r, er), ((f, ef), _))))) = h in
      (
        record {
          amplitude_v = a.value;
          period_s = p.value;
          pulse_width_s = w.value;
          rise_s = r.value;
          fall_s = f.value;
        },
        rw (ea, ep, ew, er, ef) refl,
        rw (kept _ a ea, kept _ p ep, kept _ w ew, kept _ r er, kept _ f ef) refl,
      )
