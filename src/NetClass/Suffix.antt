-- ===== src/NetClass/Suffix.antt =====
-- Suffixes in kicad/netclass.py.
use emi_analyzer.Base.{
  ℕ, true, Option, none, some, [], ◌∷◌, ◌++◌, ◌≡◌, ◌≢◌, refl, ap, ◌∙◌, arith, Text, text_eq,
  text_eq_iff, length, length-append, Bool-cases, inl, inr,
}
use emi_analyzer.NetClass.{strip_suffix, prepend, not_empty, stem}

some_inj : {a b : Text} → some a ≡ some b → a ≡ b
some_inj h = cc

cons_inj : {c : ℕ} {a b : Text} → c ∷ a ≡ c ∷ b → a ≡ b
cons_inj h = cc

cons_ne : {c : ℕ} {a : Text} → c ∷ a ≡ [] → ⊥
cons_ne h = cc

-- The stem that a suffix leaves.
abbrev Splits : Text → Text → Option Text → Type 0
Splits suffix net none = Unit
Splits suffix net (some s) = net ≡ s ++ suffix

Splits-prepend :
    (suffix t : Text) (c : ℕ) (o : Option Text)
    → Splits suffix t o
    → Splits suffix (c ∷ t) (prepend c o)
Splits-prepend suffix t c none h = tt
Splits-prepend suffix t c (some s) h = ap (λ l. c ∷ l) h

Splits-strip_suffix : (suffix net : Text) → Splits suffix net (strip_suffix suffix net)
unfolding strip_suffix
Splits-strip_suffix suffix [] = tt
Splits-strip_suffix suffix (c ∷ t) = elim (Bool-cases (text_eq (c ∷ t) suffix)) [
  | inl whole ↦ rw whole ((text_eq_iff (c ∷ t) suffix).0 whole)
  | inr part ↦
      rw part (Splits-prepend suffix t c (strip_suffix suffix t) (Splits-strip_suffix suffix t))
]

Splits-not_empty :
    (suffix net s : Text) (o : Option Text)
    → Splits suffix net o
    → not_empty o ≡ some s
    → (net ≡ s ++ suffix) × (s ≢ [])
Splits-not_empty suffix net s none h e = cc
Splits-not_empty suffix net s (some []) h e = cc
Splits-not_empty suffix net s (some (c ∷ t)) h e =
    let same : c ∷ t ≡ s = some_inj e in (rw (← same) h, λ empty. cons_ne (same ∙ empty))

-- The stem of a net is not empty, and the suffix completes it to the net.
pub stem_splits : (suffix net s : Text) → stem suffix net ≡ some s → (net ≡ s ++ suffix) × (s ≢ [])
stem_splits suffix net s e =
    Splits-not_empty suffix net s (strip_suffix suffix net) (Splits-strip_suffix suffix net) e

not_whole : (c : ℕ) (s suffix : Text) → text_eq (c ∷ (s ++ suffix)) suffix ≡ true → ⊥
not_whole c s suffix h =
    omega
      (arith, ap length ((text_eq_iff (c ∷ (s ++ suffix)) suffix).0 h), length-append {0} s suffix)

strip_suffix-append : (s suffix : Text) → suffix ≢ [] → strip_suffix suffix (s ++ suffix) ≡ some s
unfolding strip_suffix
strip_suffix-append [] [] ne = absurd (ne refl)
strip_suffix-append [] (d ∷ suffix) ne = rw ((text_eq_iff (d ∷ suffix) (d ∷ suffix)).1 refl)
strip_suffix-append (c ∷ s) suffix ne = elim (Bool-cases (text_eq (c ∷ (s ++ suffix)) suffix)) [
  | inl whole ↦ absurd (not_whole c s suffix whole)
  | inr part ↦ rw part (rw (strip_suffix-append s suffix ne))
]

-- A stem with a suffix behind it is found again.
pub stem-append :
    (c : ℕ) (t suffix : Text) → suffix ≢ [] → stem suffix ((c ∷ t) ++ suffix) ≡ some (c ∷ t)
stem-append c t suffix ne = ap not_empty (strip_suffix-append (c ∷ t) suffix ne)

pub append_cancel : (s a b : Text) → s ++ a ≡ s ++ b → a ≡ b
append_cancel [] a b h = h
append_cancel (c ∷ s) a b h = append_cancel s a b (cons_inj h)
