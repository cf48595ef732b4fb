-- ===== src/Base/Chars.antt =====
-- Text as code points, and the character classes of the regular expressions that the code uses.
use Prim.Native.Nat.{ℕ, suc, ◌+◌, ◌≤◌}
use Prim.Native.Char.{code}
use Prim.Native.String.{String}
use mathlib.Core.Path.{◌≡◌, refl}
use mathlib.Core.Logic.{◌↔◌}
use mathlib.Core.Bool.{Bool, true, false, ◌&&◌, ◌||◌}
use mathlib.Core.List.{List, [], ◌∷◌}
use native.Mathlib.Omega.{arith}
use emi_analyzer.Base.Tests.{leb, ◌==◌, if◌then◌else◌}

abbrev pub Text : Type 0
Text = List ℕ

abbrev pub codes : String → Text
codes String.[] = []
codes (String.◌∷◌ c s) = code c ∷ codes s

-- `\s` of Python's `re` on text.
unfoldable pub is_space : ℕ → Bool
is_space c =
    (leb 9 c && leb c 13)
    || (leb 28 c && leb c 32)
    || c == 0x85
    || c == 0xa0
    || c == 0x1680
    || (leb 0x2000 c && leb c 0x200a)
    || (leb 0x2028 c && leb c 0x2029)
    || c == 0x202f
    || c == 0x205f
    || c == 0x3000

-- `.strip()`
unfoldable pub strip_start : Text → Text
strip_start [] = []
strip_start (c ∷ t) = let rest = strip_start t in if is_space c then rest else c ∷ t

abbrev pub keep_char : ℕ → Text → Text
keep_char c [] = if is_space c then [] else c ∷ []
keep_char c (d ∷ t) = c ∷ d ∷ t

unfoldable pub strip_end : Text → Text
strip_end [] = []
strip_end (c ∷ t) = keep_char c (strip_end t)

unfoldable pub strip : Text → Text
strip t = strip_end (strip_start t)

abbrev pub text_eq : Text → Text → Bool
text_eq [] [] = true
text_eq (a ∷ s) (b ∷ t) = a == b && text_eq s t
text_eq _ _ = false

pub text_eq_iff : (s t : Text) → (text_eq s t ≡ true) ↔ (s ≡ t)
text_eq_iff [] [] = ground arith
text_eq_iff [] (b ∷ t) = ground arith
text_eq_iff (a ∷ s) [] = ground arith
text_eq_iff (a ∷ s) (b ∷ t) = ground (arith, text_eq_iff s t)

-- `str.lower` on ASCII letters. Another letter is left as it is: none of those becomes a letter
-- that the code compares with.
unfoldable pub to_lower : ℕ → ℕ
to_lower c = if leb b'A' c && leb c b'Z' then c + 32 else c

abbrev pub lower : Text → Text
lower [] = []
lower (c ∷ s) = to_lower c ∷ lower s

-- `x in xs`, and how often it stands there.
abbrev pub contains : List Text → Text → Bool
contains [] x = false
contains (y ∷ ys) x = text_eq y x || contains ys x

abbrev pub count : Text → List Text → ℕ
count x [] = 0
count x (y ∷ ys) = if text_eq y x then suc (count x ys) else count x ys

pub contains-count : (x : Text) (s : List Text) → contains s x ≡ false → count x s ≡ 0
contains-count x [] h = refl
contains-count x (y ∷ s) h = ground (arith, contains-count x s)

pub contains_pos : (x : Text) (l : List Text) → contains l x ≡ true → 1 ≤ count x l
contains_pos x [] h = cc
contains_pos x (y ∷ l) h = ground (arith, contains_pos x l)
