-- ===== src/Components/Resolve/Order.antt =====
-- The order in which components/resolve.py tries the components of the user and of the library.
use emi_analyzer.Base.{Option, none, some, List, [], ◌∷◌, ◌++◌, ◌≡◌, refl, sym, ap, ◌∙◌, Text}
use emi_analyzer.Base.Results.{Result, ok, err, ◌>>=◌}
use emi_analyzer.Base.Json.{Floats}
use emi_analyzer.Components.Package.{Classes}
use emi_analyzer.Components.Python.{Raised, Texts}
use emi_analyzer.Components.Resolve.{
  Candidate, PartMatch, Resolved, modellable, try_number, try_value, or_next, first_of, by_value,
  resolve_part,
}

module _ (W : Classes) (X : Floats) (T : Texts X.Float) where
  open X use {Float}

  abbrev Answer : Type 0
  Answer = Result Raised (Option (Resolved W X T))

  -- One search after another, until one has a result or raises.
  abbrev pub in_order : List Answer → Answer
  in_order [] = ok none
  in_order (r ∷ rs) = do a ← r; or_next W X T a (in_order rs)

  and_next : Answer → Answer → Answer
  and_next r rest = r >>= λ a. or_next W X T a rest

  and_next_assoc : (r s t : Answer) → and_next (and_next r s) t ≡ and_next r (and_next s t)
  unfolding and_next
  and_next_assoc (err e) s t = refl
  and_next_assoc (ok none) s t = refl
  and_next_assoc (ok (some r)) s t = refl

  and_next-none : (r : Answer) → and_next r (ok none) ≡ r
  unfolding and_next
  and_next-none (err e) = refl
  and_next-none (ok none) = refl
  and_next-none (ok (some r)) = refl

  first_of-append :
      (try : Candidate W X T → Answer) (xs ys : List (Candidate W X T))
      → first_of W X T try (xs ++ ys) ≡ and_next (first_of W X T try xs) (first_of W X T try ys)
  unfolding first_of and_next
  first_of-append try [] ys = refl
  first_of-append try (x ∷ xs) ys =
      ap (and_next (try x)) (first_of-append try xs ys)
      ∙ sym (and_next_assoc (try x) (first_of W X T try xs) (first_of W X T try ys))

  by_value-append :
      (part : PartMatch W X T) (xs ys : List (Candidate W X T)) (known : Option (Float × Text))
      → by_value W X T part (xs ++ ys) known
        ≡ and_next (by_value W X T part xs known) (by_value W X T part ys known)
  unfolding and_next
  by_value-append part xs ys none = refl
  by_value-append part xs ys (some known) = first_of-append (try_value W X T part known) xs ys

  -- `resolve_part` is four searches, one after another: by part number among the user's components, by part
  -- number in the library, by value and package among the user's components, and by value and package in the
  -- library.
  pub resolve_part-in_order :
      (library : List (Candidate W X T)) (part : PartMatch W X T)
      (candidates : List (Candidate W X T))
      → resolve_part W X T library part candidates
        ≡ in_order (
            first_of W X T (try_number W X T part) candidates
            ∷ first_of W X T (try_number W X T part) library
            ∷ by_value W X T part candidates (modellable W X T part)
            ∷ by_value W X T part library (modellable W X T part)
            ∷ [])
  unfolding resolve_part and_next
  resolve_part-in_order library part candidates =
      let number = first_of W X T (try_number W X T part) in
      let value : List (Candidate W X T) → Answer =
        λ cs. by_value W X T part cs (modellable W X T part) in
      ap (λ r. and_next r (value (candidates ++ library)))
        (first_of-append (try_number W X T part) candidates library)
      ∙ and_next_assoc (number candidates) (number library) (value (candidates ++ library))
      ∙ ap (λ r. and_next (number candidates) (and_next (number library) r))
          (by_value-append part candidates library (modellable W X T part)
            ∙ ap (and_next (value candidates)) (sym (and_next-none (value library))))
