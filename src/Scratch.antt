-- ===== src/Scratch.antt =====
-- worker/emi_worker/scratch.py: the run ids that name directories, and the startup sweep. The two
-- regular expressions are matched character by character; their `$` also matches before a line feed
-- that ends the text.
pub mod Names
mod Examples
use emi_analyzer.Base.{
  ℕ, zero, suc, Bool, true, false, not, ◌&&◌, ◌||◌, List, [], ◌∷◌, ◌++◌, leb, ◌==◌, if◌then◌else◌,
  Text, lower,
}

-- `$`
abbrev pub at_end : Text → Bool
at_end [] = true
at_end (c ∷ []) = c == 10
at_end (c ∷ d ∷ t) = false

-- `[0-9a-f]`
abbrev pub is_hex : ℕ → Bool
is_hex c = (leb b'0' c && leb c b'9') || (leb b'a' c && leb c b'f')

abbrev pub is_hyphen : ℕ → Bool
is_hyphen c = c == b'-'

abbrev pub repeat {ℓ} : {A : Type ℓ} → ℕ → A → List A
repeat zero a = []
repeat (suc n) a = a ∷ repeat n a

-- A fixed row of character classes and `$`.
abbrev pub match_row : List (ℕ → Bool) → Text → Bool
match_row [] t = at_end t
match_row (p ∷ ps) [] = false
match_row (p ∷ ps) (c ∷ t) = p c && match_row ps t

abbrev pub plain_row : List (ℕ → Bool)
plain_row = repeat 32 is_hex

abbrev pub uuid_row : List (ℕ → Bool)
uuid_row =
    repeat 8 is_hex
    ++ (is_hyphen
        ∷ (repeat 4 is_hex
            ++ (is_hyphen
                ∷ (repeat 4 is_hex
                    ++ (is_hyphen ∷ (repeat 4 is_hex ++ (is_hyphen ∷ repeat 12 is_hex)))))))

-- `_SERVER_RUN_ID.match(run_id.lower())`
unfoldable pub valid_run_id : Text → Bool
valid_run_id id = match_row plain_row (lower id) || match_row uuid_row (lower id)

-- `[A-Za-z0-9]`
abbrev pub is_alnum : ℕ → Bool
is_alnum c =
    (leb b'A' c && leb c b'Z') || ((leb b'a' c && leb c b'z') || (leb b'0' c && leb c b'9'))

-- `[A-Za-z0-9_-]`
abbrev pub is_name_char : ℕ → Bool
is_name_char c = is_alnum c || (c == b'_' || c == b'-')

-- `[A-Za-z0-9_-]{0,n}$`
abbrev pub match_tail : ℕ → Text → Bool
match_tail n [] = true
match_tail zero (c ∷ t) = at_end (c ∷ t)
match_tail (suc n) (c ∷ t) = at_end (c ∷ t) || (is_name_char c && match_tail n t)

-- `_PATH_SAFE.match(run_id)`: where it fails, `run_dir` raises before it touches a path.
unfoldable pub path_safe : Text → Bool
path_safe [] = false
path_safe (c ∷ t) = is_alnum c && match_tail 127 t

-- What `os` says of an entry of the folder, and of the marker in it.
pub record Entry : Type 0 where
  pub name : Text
  pub is_link : Bool
  pub is_dir : Bool
  pub has_marker : Bool

-- The loop of `clear_leftovers`: the entries that `rmtree` is called on, in order.
unfoldable pub clear_leftovers : List Entry → List Entry
clear_leftovers [] = []
clear_leftovers (e ∷ es) =
    let removed = clear_leftovers es in
    if e.is_link || not e.is_dir then removed else if not e.has_marker then removed else e ∷ removed
