-- ===== src/Scratch/Examples.antt =====
-- Run ids as worker/emi_worker/scratch.py sees them.
use emi_analyzer.Base.{
  true, false, [], ◌∷◌, ◌++◌, ◌≡◌, ◌≢◌, ◌≤◌, refl, length, All, Text, codes, to_lower,
}
use emi_analyzer.Scratch.{Entry, valid_run_id, path_safe, clear_leftovers}
use emi_analyzer.Scratch.Names.{
  IsSegmentChar, path_safe-valid_run_id, path_safe_chars, valid_run_id-newline,
}

abbrev plain_id : Text
plain_id = codes "0123456789abcdefABCDEF0123456789"

plain_id-valid : valid_run_id plain_id ≡ true
unfolding valid_run_id to_lower
plain_id-valid = refl

uuid-valid : valid_run_id (codes "01234567-89ab-cdef-0123-456789abcdef") ≡ true
unfolding valid_run_id to_lower
uuid-valid = refl

invalid_ids :
    (valid_run_id (codes "../etc") ≡ false)
    × (valid_run_id [] ≡ false)
    × (path_safe (codes "a/b") ≡ false)
unfolding valid_run_id path_safe to_lower
invalid_ids = (refl, refl, refl)

path_safe-valid_run_id_example : path_safe plain_id ≡ true
path_safe-valid_run_id_example = path_safe-valid_run_id plain_id plain_id-valid

path_safe_chars_example : (plain_id ≢ []) × All IsSegmentChar plain_id × (length plain_id ≤ 129)
path_safe_chars_example = path_safe_chars plain_id path_safe-valid_run_id_example2
  where
    path_safe-valid_run_id_example2 : path_safe plain_id ≡ true
    path_safe-valid_run_id_example2 = path_safe-valid_run_id plain_id plain_id-valid

valid_run_id-newline_example : valid_run_id (plain_id ++ 10 ∷ []) ≡ true
valid_run_id-newline_example = valid_run_id-newline plain_id refl plain_id-valid

abbrev ours : Entry
ours = record { name = codes "a"; is_link = false; is_dir = true; has_marker = true }

abbrev theirs : Entry
theirs = record { name = codes "b"; is_link = false; is_dir = true; has_marker = false }

clear_leftovers-sample : clear_leftovers (theirs ∷ ours ∷ []) ≡ ours ∷ []
unfolding clear_leftovers
clear_leftovers-sample = refl
