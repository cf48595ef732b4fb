-- ===== src/Base/Results.antt =====
-- Python code that returns or raises: results, do blocks, and loops over lists.
use mathlib.Core.Path.{◌≡◌, refl, sym, ap, ◌∙◌, subst}
use mathlib.Core.Bool.{Bool, true, false}
use mathlib.Core.Option.{Option, none, some}
use mathlib.Core.List.{List, [], ◌∷◌, ◌++◌}
use emi_analyzer.Base.Tests.{if◌then◌else◌}

pub data Result {ℓ} (E : Type 0) (A : Type ℓ) : Type ℓ where
  ok : A → Result E A
  err : E → Result E A

-- What follows a statement that may raise: it is not reached after an exception.
infixl 5 ◌>>=◌
abbrev pub ◌>>=◌ {ℓ κ} :
    {E : Type 0} {A : Type ℓ} {B : Type κ} → Result E A → (A → Result E B) → Result E B
err raised >>= next = err raised
ok value >>= next = next value

-- What an `Option` holds, or an exception.
abbrev pub or_raise {ℓ} : {E : Type 0} {A : Type ℓ} → Option A → E → Result E A
or_raise (some a) e = ok a
or_raise none e = err e

-- `[f(x) for x in xs]`, where `f` may raise
unfoldable pub map_results {ℓ κ} :
    {E : Type 0} {A : Type ℓ} {B : Type κ} → (A → Result E B) → List A → Result E (List B)
map_results f [] = ok []
map_results f (x ∷ xs) = do y ← f x; ys ← map_results f xs; ok (y ∷ ys)

-- `if not test: raise raised`
abbrev pub guard : {E : Type 0} → Bool → E → Result {0} E (Unit {0})
guard test raised = elim test [ false ↦ err raised | true ↦ ok tt ]

infixl 5 ◌>>◌
abbrev pub ◌>>◌ {κ} : {E : Type 0} {B : Type κ} → Result {0} E (Unit {0}) → Result E B → Result E B
first >> then_this = first >>= λ done. then_this

pub or_raise-eq-ok {ℓ} :
    {E : Type 0} {A : Type ℓ} (o : Option A) (e : E) {a : A} → or_raise o e ≡ ok a → o ≡ some a
or_raise-eq-ok (some a) e h = cc
or_raise-eq-ok none e h = cc

pub guard-eq-ok : {E : Type 0} (b : Bool) (e : E) {u : Unit {0}} → guard b e ≡ ok u → b ≡ true
guard-eq-ok true e h = refl
guard-eq-ok false e h = cc

pub ok_inj {ℓ} : {E : Type 0} {A : Type ℓ} {a b : A} → ◌≡◌ {A = Result E A} (ok a) (ok b) → a ≡ b
ok_inj h = cc

pub err_ok {ℓ} : {E : Type 0} {A : Type ℓ} {e : E} {a : A} → ◌≡◌ {A = Result E A} (err e) (ok a) → ⊥
err_ok h = cc

-- What holds of a result, if there is one.
abbrev pub Ensures {ℓ κ} : {E : Type 0} {A : Type ℓ} → (A → Type κ) → Result E A → Type κ
Ensures P (ok a) = P a
Ensures P (err e) = Unit

pub Ensures-bind {ℓ κ μ} :
    {E : Type 0} {A : Type ℓ} {B : Type κ} (Q : B → Type μ) (m : Result E A) (f : A → Result E B)
    → ((a : A) → m ≡ ok a → Ensures Q (f a))
    → Ensures Q (m >>= f)
Ensures-bind Q (ok a) f h = h a refl
Ensures-bind Q (err e) f h = tt

pub Ensures-eq-ok {ℓ κ} :
    {E : Type 0} {A : Type ℓ} (P : A → Type κ) (m : Result E A) {a : A}
    → Ensures P m
    → m ≡ ok a
    → P a
Ensures-eq-ok P (ok b) h e = subst P (ok_inj e) h
Ensures-eq-ok P (err e') h e = absurd (err_ok e)

pub Ensures-imp {ℓ κ μ} :
    {E : Type 0} {A : Type ℓ} (P : A → Type κ) (Q : A → Type μ) (m : Result E A)
    → ((a : A) → P a → Q a)
    → Ensures P m
    → Ensures Q m
Ensures-imp P Q (ok a) imp h = imp a h
Ensures-imp P Q (err e) imp h = tt

pub guard-Ensures {κ} :
    {E : Type 0} {P : Type κ} (b : Bool) (e : E) → (b ≡ true → P) → Ensures (λ _. P) (guard b e)
guard-Ensures true e h = h refl
guard-Ensures false e h = tt

pub map_results-eq-ok :
    {E B : Type 0} (r : Result E B) (m : Result E (List B)) (zs : List B)
    → (r >>= λ y. m >>= λ ys. ok (y ∷ ys)) ≡ ok zs
    → (y : B) × (ys : List B) × (r ≡ ok y) × (m ≡ ok ys) × (zs ≡ y ∷ ys)
map_results-eq-ok (ok y) (ok ys) zs e = (y, ys, refl, refl, sym (ok_inj e))
map_results-eq-ok (ok y) (err raised) zs e = absurd (err_ok e)
map_results-eq-ok (err raised) m zs e = absurd (err_ok e)

pub map_results-append :
    {E A B : Type 0} (f : A → Result E B) (xs ys : List A) (us vs : List B)
    → map_results f xs ≡ ok us
    → map_results f ys ≡ ok vs
    → map_results f (xs ++ ys) ≡ ok (us ++ vs)
unfolding map_results
map_results-append f [] ys us vs hx hy = hy ∙ ap (λ l. ok (l ++ vs)) (ok_inj hx)
map_results-append f (x ∷ xs) ys us vs hx hy =
    let (z, zs, hz, hzs, e) = map_results-eq-ok (f x) (map_results f xs) us hx in
    rw (hz, map_results-append f xs ys zs vs hzs hy, e) refl

pub Ensures-if {ℓ κ} :
    {E : Type 0} {A : Type ℓ} (P : A → Type κ) (b : Bool) (r s : Result E A)
    → Ensures P r
    → Ensures P s
    → Ensures P (if b then r else s)
Ensures-if P true r s h k = h
Ensures-if P false r s h k = k

pub bind-eq-ok {ℓ κ} :
    {E : Type 0} {A : Type ℓ} {B : Type κ} (m : Result E A) (f : A → Result E B) {b : B}
    → (m >>= f) ≡ ok b
    → (a : A) × (m ≡ ok a) × (f a ≡ ok b)
bind-eq-ok (ok a) f h = (a, refl, h)
bind-eq-ok (err e) f h = absurd (err_ok h)
