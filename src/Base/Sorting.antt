-- ===== src/Base/Sorting.antt =====
-- Python's `sorted`, on texts and on pairs with such a key, and what it keeps.
use mathlib.Core.Logic.{◌↔◌, inl, inr}
use mathlib.Core.Bool.{Bool, true, false, ◌&&◌, ◌||◌}
use mathlib.Core.List.{List, [], ◌∷◌}
use emi_analyzer.Base.Tests.{ltb, ◌==◌, if◌then◌else◌, Bool-cases}
use emi_analyzer.Base.Lists.{All}
use emi_analyzer.Base.Chars.{Text, text_eq, text_eq_iff}

-- `s <= t` on texts: by code points.
unfoldable pub text_le : Text → Text → Bool
text_le [] t = true
text_le (a ∷ s) [] = false
text_le (a ∷ s) (b ∷ t) = ltb a b || (a == b && text_le s t)

module _ {ℓ} {A : Type ℓ} (le : A → A → Bool) where
  unfoldable pub insert : A → List A → List A
  insert x [] = x ∷ []
  insert x (y ∷ ys) = let rest = insert x ys in if le x y then x ∷ y ∷ ys else y ∷ rest

  unfoldable pub sorted : List A → List A
  unfolding insert
  sorted [] = []
  sorted (x ∷ xs) = insert x (sorted xs)

  module _ {κ} (P : A → Type κ) where
    All-insert : (x : A) (xs : List A) → All P (insert x xs) ↔ (P x × All P xs)
    unfolding insert
    All-insert x [] = (λ h. h, λ h. h)
    All-insert x (y ∷ ys) = elim (Bool-cases (le x y)) [
      | inl first ↦ rw first (λ h. h, λ h. h)
      | inr later ↦
          let (there, back) = All-insert x ys in
          rw later
            (λ h. let (px, rest) = there h.1 in (px, (h.0, rest)), λ h. (h.1.0, back (h.0, h.1.1)))
    ]

    -- What holds of all the items holds of all the sorted items, and the other way round.
    pub All-sorted : (xs : List A) → All P (sorted xs) ↔ All P xs
    unfolding sorted
    All-sorted [] = (λ h. h, λ h. h)
    All-sorted (x ∷ xs) =
        let (there, back) = All-sorted xs in
        let (split, join) = All-insert x (sorted xs) in
        (λ h. let (px, rest) = split h in (px, there rest), λ h. join (h.0, back h.1))

-- `sorted(set(xs))`
unfoldable pub insert_new : Text → List Text → List Text
insert_new x [] = x ∷ []
insert_new x (y ∷ ys) =
    let rest = insert_new x ys in
    if text_eq x y then y ∷ ys else if text_le x y then x ∷ y ∷ ys else y ∷ rest

unfoldable pub sorted_set : List Text → List Text
unfolding insert_new
sorted_set [] = []
sorted_set (x ∷ xs) = insert_new x (sorted_set xs)

module _ {κ} (P : Text → Type κ) where
  All-insert_new : (x : Text) (xs : List Text) → All P (insert_new x xs) ↔ (P x × All P xs)
  unfolding insert_new
  All-insert_new x [] = (λ h. h, λ h. h)
  All-insert_new x (y ∷ ys) = elim (Bool-cases (text_eq x y)) [
    | inl same ↦ rw same (λ h. (rw ((text_eq_iff x y).0 same) h.0, h), λ h. h.1)
    | inr other ↦ elim (Bool-cases (text_le x y)) [
      | inl first ↦ rw (other, first) (λ h. h, λ h. h)
      | inr later ↦
          let (there, back) = All-insert_new x ys in
          rw (other, later)
            (λ h. let (px, rest) = there h.1 in (px, (h.0, rest)), λ h. (h.1.0, back (h.0, h.1.1)))
    ]
  ]

  pub All-sorted_set : (xs : List Text) → All P (sorted_set xs) ↔ All P xs
  unfolding sorted_set
  All-sorted_set [] = (λ h. h, λ h. h)
  All-sorted_set (x ∷ xs) =
      let (there, back) = All-sorted_set xs in
      let (split, join) = All-insert_new x (sorted_set xs) in
      (λ h. let (px, rest) = split h in (px, there rest), λ h. join (h.0, back h.1))
