-- ===== src/Base/Json.antt =====
-- Values of Python's `json`, and the tests that the documents' readers make of them.
use Prim.Native.Nat.{ℕ, zero, suc}
use mathlib.Core.Bool.{Bool, true, false, not, ◌||◌, ◌&&◌}
use mathlib.Core.Option.{Option, none, some}
use mathlib.Core.List.{List, [], ◌∷◌}
use mathlib.Core.Path.{◌≡◌}
use mathlib.Core.Logic.{◌⊎◌}
use emi_analyzer.Base.Tests.{if◌then◌else◌}
use emi_analyzer.Base.Chars.{Text, text_eq}

-- `negsuc n` is -(n + 1).
pub data ℤ : Type 0 where
  pos : ℕ → ℤ
  negsuc : ℕ → ℤ

-- Python's floats and complex numbers, as the code computes with them. `whole` is `float` on an int, none
-- where it raises OverflowError; `lit m e` is the literal m * 10 ** -e; `ten_to` is `10 ** x`, none where it
-- overflows; `pow` is taken of numbers up to 1.
pub record Floats : Type 1 where
  pub Float : Type 0
  pub lt : Float → Float → Bool
  pub le : Float → Float → Bool
  pub eq : Float → Float → Bool
  pub lit : ℕ → ℕ → Float
  pub whole : ℤ → Option Float
  pub inf : Float
  pub pi : Float
  pub neg : Float → Float
  pub abs : Float → Float
  pub sqrt : Float → Float
  pub log10 : Float → Float
  pub add : Float → Float → Float
  pub sub : Float → Float → Float
  pub mul : Float → Float → Float
  pub div : Float → Float → Float
  pub pow : Float → Float → Float
  pub ten_to : Float → Option Float
  pub round : Float → ℤ
  pub floor : Float → ℤ
  pub ceil : Float → ℤ
  pub Complex : Type 0
  pub complex : Float → Float → Complex
  pub cadd : Complex → Complex → Complex
  pub csub : Complex → Complex → Complex
  pub cmul : Complex → Complex → Complex
  pub cdiv : Complex → Complex → Complex
  pub cexp : Complex → Complex
  pub cabs : Complex → Float
  pub ceq : Complex → Complex → Bool

mutual
  pub data Json (F : Type 0) : Type 0 where
    null : Json F
    flag : Bool → Json F
    int : ℤ → Json F
    float : F → Json F
    str : Text → Json F
    arr : Items F → Json F
    obj : Fields F → Json F

  pub data Items (F : Type 0) : Type 0 where
    nil : Items F
    cons : Json F → Items F → Items F

  -- A dictionary; a key stands in it once.
  pub data Fields (F : Type 0) : Type 0 where
    end : Fields F
    field : Text → Json F → Fields F → Fields F

module _ {F : Type 0} where
  abbrev pub to_list : Items F → List (Json F)
  to_list nil = []
  to_list (cons j js) = j ∷ to_list js

  -- `d.get(k)`: a missing key reads as None.
  abbrev pub get : Text → Fields F → Json F
  get k end = null
  get k (field j v rest) = if text_eq j k then v else get k rest

  -- `k in d`
  abbrev pub has : Text → Fields F → Bool
  has k end = false
  has k (field j v rest) = text_eq j k || has k rest

  -- `isinstance(v, dict)` and the like
  abbrev pub as_dict : Json F → Option (Fields F)
  as_dict (obj fs) = some fs
  as_dict _ = none

  abbrev pub as_list : Json F → Option (List (Json F))
  as_list (arr js) = some (to_list js)
  as_list _ = none

  abbrev pub as_text : Json F → Option Text
  as_text (str t) = some t
  as_text _ = none

  -- An int that is no bool.
  abbrev pub as_int : Json F → Option ℤ
  as_int (int z) = some z
  as_int _ = none

  abbrev pub is_null : Json F → Bool
  is_null null = true
  is_null _ = false

  -- `v == text`
  abbrev pub is_text : Text → Json F → Bool
  is_text t (str s) = text_eq s t
  is_text t _ = false

  -- `bool(v)`
  abbrev pub truthy : (F → Bool) → Json F → Bool
  truthy is_zero null = false
  truthy is_zero (flag b) = b
  truthy is_zero (int (pos zero)) = false
  truthy is_zero (int _) = true
  truthy is_zero (float x) = not (is_zero x)
  truthy is_zero (str []) = false
  truthy is_zero (str _) = true
  truthy is_zero (arr nil) = false
  truthy is_zero (arr _) = true
  truthy is_zero (obj end) = false
  truthy is_zero (obj _) = true

-- The entry of a table of words that a JSON value is equal to.
abbrev pub find_word {ℓ} : {A : Type ℓ} {F : Type 0} → List (Text × A) → Json F → Option A
find_word [] j = none
find_word ((w, a) ∷ more) j = if is_text w j then some a else find_word more j

-- A Python number: an int or a float.
pub data Number (F : Type 0) : Type 0 where
  int : ℤ → Number F
  float : F → Number F

-- `isinstance(v, (int, float)) and not isinstance(v, bool)`
abbrev pub as_number : {F : Type 0} → Json F → Option (Number F)
as_number (Json.int z) = some (Number.int z)
as_number (Json.float x) = some (Number.float x)
as_number _ = none

-- `isinstance(v, (int, float))`: a bool is an int.
abbrev pub as_number_or_flag : {F : Type 0} → Json F → Option (Number F)
as_number_or_flag (flag true) = some (Number.int (pos 1))
as_number_or_flag (flag false) = some (Number.int (pos 0))
as_number_or_flag (Json.int z) = some (Number.int z)
as_number_or_flag (Json.float x) = some (Number.float x)
as_number_or_flag _ = none

module _ (X : Floats) where
  open X use {Float, lt, le, eq, lit, whole, inf, neg}

  abbrev pub zero_f : Float
  zero_f = lit 0 0

  -- `v > 0`
  abbrev pub is_positive : Number Float → Bool
  is_positive (Number.int (pos (suc n))) = true
  is_positive (Number.int _) = false
  is_positive (Number.float x) = lt zero_f x

  -- `v <= 0`. It is not the opposite of `v > 0` where `v` is NaN.
  abbrev pub is_not_positive : Number Float → Bool
  is_not_positive (Number.int (pos (suc n))) = false
  is_not_positive (Number.int _) = true
  is_not_positive (Number.float x) = le x zero_f

  -- `v == v and v not in (inf, -inf)`
  abbrev pub is_finite : Number Float → Bool
  is_finite (Number.int z) = true
  is_finite (Number.float x) = eq x x && not (eq x inf || eq x (neg inf))

  -- `float(v)`
  abbrev pub to_float : Number Float → Option Float
  to_float (Number.int z) = whole z
  to_float (Number.float x) = some x

-- The comparisons are a total order, as Python's are on floats without NaN.
pub record IsOrdered (X : Floats) : Type 0 where
  pub total : (a b : X.Float) → (X.le a b ≡ true) ⊎ (X.le b a ≡ true)
  pub lt-le : (a b : X.Float) → X.lt a b ≡ not (X.le b a)
