-- ===== src/Scratch/Names.antt =====
-- Which names pass the checks of worker/emi_worker/scratch.py.
use emi_analyzer.Base.{
  ℕ, zero, suc, Bool, true, false, ◌&&◌, ◌||◌, List, [], ◌∷◌, ◌++◌, ◌≡◌, refl, arith, ◌≤◌, length,
  ◌==◌, Text, lower, to_lower, Bool-cases, All-append, ◌∙◌, All, inl, inr, ◌≢◌, ap,
}
use emi_analyzer.Scratch.{
  at_end, is_hex, is_hyphen, repeat, match_row, plain_row, uuid_row, valid_run_id, is_alnum,
  is_name_char, match_tail, path_safe,
}

-- A class of the rows takes only characters that a name may have.
abbrev IsRow : List (ℕ → Bool) → Type 0
IsRow ps = All (λ p. (c : ℕ) → p (to_lower c) ≡ true → is_name_char c ≡ true) ps

hex_name : (c : ℕ) → is_hex (to_lower c) ≡ true → is_alnum c ≡ true
unfolding to_lower
hex_name c h = ground arith

hex_name_char : (c : ℕ) → is_hex (to_lower c) ≡ true → is_name_char c ≡ true
hex_name_char c h = rw (hex_name c h)

hyphen_name_char : (c : ℕ) → is_hyphen (to_lower c) ≡ true → is_name_char c ≡ true
unfolding to_lower
hyphen_name_char c h = ground arith

newline_lower : (c : ℕ) → (to_lower c == 10) ≡ true → (c == 10) ≡ true
unfolding to_lower
newline_lower c h = ground arith

and_left : (a b : Bool) → (a && b) ≡ true → a ≡ true
and_left true b h = refl
and_left false b h = h

and_right : (a b : Bool) → (a && b) ≡ true → b ≡ true
and_right true b h = h
and_right false b h = cc

or_true : (a : Bool) → (a || true) ≡ true
or_true true = refl
or_true false = refl

IsRow-repeat :
    (p : ℕ → Bool)
    → ((c : ℕ) → p (to_lower c) ≡ true → is_name_char c ≡ true)
    → (n : ℕ) → IsRow (repeat n p)
IsRow-repeat p h zero = tt
IsRow-repeat p h (suc n) = (h, IsRow-repeat p h n)

match_tail-row :
    (ps : List (ℕ → Bool)) (n : ℕ) (t : Text)
    → length ps ≤ n
    → IsRow ps
    → match_row ps (lower t) ≡ true
    → match_tail n t ≡ true
match_tail-row ps n [] len row h = refl
match_tail-row [] zero (c ∷ []) len row h = newline_lower c h
match_tail-row [] zero (c ∷ d ∷ t) len row h = cc
match_tail-row [] (suc n) (c ∷ []) len row h = rw (newline_lower c h)
match_tail-row [] (suc n) (c ∷ d ∷ t) len row h = cc
match_tail-row (p ∷ ps) zero (c ∷ t) len row h = absurd (omega arith)
match_tail-row (p ∷ ps) (suc n) (c ∷ t) len row h =
    let named : is_name_char c ≡ true = row.0 c (and_left (p (to_lower c)) _ h) in
    let rest = match_tail-row ps n t (omega arith) row.1 (and_right (p (to_lower c)) _ h) in
    rw (named, rest) (or_true (at_end (c ∷ t)))

All_group : (n : ℕ) (ps : List (ℕ → Bool)) → IsRow ps → IsRow (repeat n is_hex ++ is_hyphen ∷ ps)
All_group n ps h =
    All-append (λ p. (c : ℕ) → p (to_lower c) ≡ true → is_name_char c ≡ true) (repeat n is_hex)
      (is_hyphen ∷ ps) (IsRow-repeat is_hex hex_name_char n) (hyphen_name_char, h)

abbrev last_group : List (ℕ → Bool)
last_group = repeat 12 is_hex

abbrev last_two : List (ℕ → Bool)
last_two = repeat 4 is_hex ++ is_hyphen ∷ last_group

abbrev last_three : List (ℕ → Bool)
last_three = repeat 4 is_hex ++ is_hyphen ∷ last_two

abbrev last_four : List (ℕ → Bool)
last_four = repeat 4 is_hex ++ is_hyphen ∷ last_three

abbrev uuid_rest : List (ℕ → Bool)
uuid_rest = repeat 7 is_hex ++ is_hyphen ∷ last_four

IsRow-uuid_rest : IsRow uuid_rest
IsRow-uuid_rest = All_group 7 last_four (
    All_group 4 last_three
      (All_group 4 last_two (All_group 4 last_group (IsRow-repeat is_hex hex_name_char 12))))

path_safe-row :
    (ps : List (ℕ → Bool)) (c : ℕ) (t : Text)
    → length ps ≤ 127
    → IsRow ps
    → match_row (is_hex ∷ ps) (lower (c ∷ t)) ≡ true
    → path_safe (c ∷ t) ≡ true
unfolding path_safe
path_safe-row ps c t len row h = rw (
  hex_name c (and_left (is_hex (to_lower c)) _ h),
  match_tail-row ps 127 t len row (and_right (is_hex (to_lower c)) _ h),
)

-- The id of a run that `_enqueue` lets through never makes `run_dir` raise for its form.
pub path_safe-valid_run_id : (id : Text) → valid_run_id id ≡ true → path_safe id ≡ true
unfolding valid_run_id path_safe
path_safe-valid_run_id [] h = cc
path_safe-valid_run_id (c ∷ t) h = elim (Bool-cases (match_row plain_row (lower (c ∷ t)))) [
  | inl plain ↦
      path_safe-row (repeat 31 is_hex) c t (omega arith) (IsRow-repeat is_hex hex_name_char 31)
        plain
  | inr not_plain ↦ path_safe-row uuid_rest c t (omega arith) IsRow-uuid_rest (rw not_plain at h)
]

-- No separator, no dot, no backslash and no null.
abbrev pub IsSegmentChar : ℕ → Type 0
IsSegmentChar c = (c ≢ b'/') × (c ≢ b'.') × (c ≢ 92) × (c ≢ 0)

alnum_segment : (c : ℕ) → is_alnum c ≡ true → IsSegmentChar c
alnum_segment c h = ground arith

name_segment : (c : ℕ) → is_name_char c ≡ true → IsSegmentChar c
name_segment c h = ground arith

end_segment : (c : ℕ) → (c == 10) ≡ true → IsSegmentChar c
end_segment c h = ground arith

match_tail_chars :
    (n : ℕ) (t : Text) → match_tail n t ≡ true → All IsSegmentChar t × (length t ≤ suc n)
match_tail_chars n [] h = (tt, omega arith)
match_tail_chars zero (c ∷ []) h = ((end_segment c h, tt), omega arith)
match_tail_chars zero (c ∷ d ∷ t) h = cc
match_tail_chars (suc n) (c ∷ []) h = elim (Bool-cases (c == 10)) [
  | inl ends ↦ ((end_segment c ends, tt), omega arith)
  | inr goes_on ↦
      ((name_segment c (and_left (is_name_char c) true (rw goes_on at h)), tt), omega arith)
]
match_tail_chars (suc n) (c ∷ d ∷ t) h =
    let (chars, len) = match_tail_chars n (d ∷ t) (and_right (is_name_char c) _ h) in
    ((name_segment c (and_left (is_name_char c) _ h), chars), omega arith)

-- A name that `run_dir` takes is not empty, is one path segment and is no dot segment: it holds
-- neither a separator nor a dot.
pub path_safe_chars :
    (id : Text) → path_safe id ≡ true → (id ≢ []) × All IsSegmentChar id × (length id ≤ 129)
unfolding path_safe
path_safe_chars [] h = cc
path_safe_chars (c ∷ t) h =
    let (chars, len) = match_tail_chars 127 t (and_right (is_alnum c) _ h) in
    (λ e. cc, (alnum_segment c (and_left (is_alnum c) _ h), chars), omega arith)

match_row-newline :
    (ps : List (ℕ → Bool)) (t : Text)
    → length t ≡ length ps
    → match_row ps t ≡ true
    → match_row ps (t ++ 10 ∷ []) ≡ true
match_row-newline [] [] len h = refl
match_row-newline [] (c ∷ t) len h = absurd (omega arith)
match_row-newline (p ∷ ps) [] len h = absurd (omega arith)
match_row-newline (p ∷ ps) (c ∷ t) len h =
    rw (and_left (p c) _ h) (match_row-newline ps t (omega arith) (and_right (p c) _ h))

lower-append : (s t : Text) → lower (s ++ t) ≡ lower s ++ lower t
lower-append [] t = refl
lower-append (c ∷ s) t = ap (λ l. to_lower c ∷ l) (lower-append s t)

length-lower : (s : Text) → length (lower s) ≡ length s
length-lower [] = refl
length-lower (c ∷ s) = ap suc (length-lower s)

match_row-le : (ps : List (ℕ → Bool)) (t : Text) → match_row ps t ≡ true → length ps ≤ length t
match_row-le [] t h = omega arith
match_row-le (p ∷ ps) [] h = cc
match_row-le (p ∷ ps) (c ∷ t) h = omega (arith, match_row-le ps t (and_right (p c) _ h))

-- An id of 32 characters that passes the check passes it with a line feed behind it too.
pub valid_run_id-newline :
    (id : Text) → length id ≡ 32 → valid_run_id id ≡ true → valid_run_id (id ++ 10 ∷ []) ≡ true
unfolding valid_run_id to_lower
valid_run_id-newline id len h = elim (Bool-cases (match_row plain_row (lower id))) [
  | inl plain ↦
      rw lower-append (rw (match_row-newline plain_row (lower id) (length-lower id ∙ len) plain))
  | inr not_plain ↦
      absurd (omega (arith, match_row-le uuid_row (lower id) (rw not_plain at h), length-lower id))
]
