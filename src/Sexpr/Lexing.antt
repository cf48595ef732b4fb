-- ===== src/Sexpr/Lexing.antt =====
-- The loop of `_tokens` ends: every round takes a character, so the fuel of `tokens` is enough.
use emi_analyzer.Base.{
  ℕ, zero, suc, ◌≤◌, ◌<◌, Bool, true, false, some, [], ◌∷◌, length, ◌≡◌, refl, arith, ap, ◌==◌,
  Option, none, Text, is_space,
}
use emi_analyzer.Sexpr.Tokens.{
  Next, stop, skip, token, bad, Stream, yield, next, quoted, prepend, continue_with, scan_string,
  span_atom, is_atom_char, tokens_from, tokens,
}

-- What a round leaves is shorter than `n`.
abbrev pub Shorter : Next → ℕ → Type 0
Shorter (skip r) n = length r < n
Shorter (token k r) n = length r < n
Shorter _ n = Unit

abbrev Leaves : Option (Text × Text) → ℕ → Type 0
Leaves none n = Unit
Leaves (some (a, r)) n = length r < n

Leaves-prepend : (c n : ℕ) (o : Option (Text × Text)) → Leaves o n → Leaves (prepend c o) (suc n)
Leaves-prepend c n none h = tt
Leaves-prepend c n (some (a, r)) h = omega arith

Leaves-scan_string : (e : Bool) (t : Text) → Leaves (scan_string e t) (length t)
unfolding scan_string
Leaves-scan_string e [] = tt
Leaves-scan_string false (c ∷ cs) = ground (
  arith,
  Leaves-scan_string (c == 92) cs,
  Leaves-prepend c (length cs) (scan_string (c == 92) cs),
)
Leaves-scan_string true (c ∷ cs) =
    ground (arith, Leaves-scan_string false cs, Leaves-prepend c (length cs) (scan_string false cs))

length-span_atom : (t : Text) → length (span_atom t).1 ≤ length t
unfolding span_atom
length-span_atom [] = omega arith
length-span_atom (c ∷ cs) = ground (arith, length-span_atom cs)

Shorter-quoted : (n : ℕ) (o : Option (Text × Text)) → Leaves o n → Shorter (quoted o) (suc n)
Shorter-quoted n none h = tt
Shorter-quoted n (some (a, r)) h = omega arith

is_atom_char_lem :
    (c : ℕ)
    → is_space c ≡ false
    → (c == b'(') ≡ false
    → (c == b')') ≡ false
    → (c == b'"') ≡ false
    → is_atom_char c ≡ true
unfolding is_atom_char
is_atom_char_lem c h1 h2 h3 h4 = rw (h1, h2, h3, h4)

length-span_atom_cons :
    (c : ℕ) (cs : Text) → is_atom_char c ≡ true → length (span_atom (c ∷ cs)).1 < length (c ∷ cs)
unfolding span_atom
length-span_atom_cons c cs h = rw h (ground (arith, length-span_atom cs))

-- Every round of the loop that goes on takes at least one character.
pub Shorter-next : (t : Text) → Shorter (next t) (length t)
unfolding next
Shorter-next [] = tt
Shorter-next (c ∷ cs) = ground (
  arith,
  Shorter-quoted (length cs) (scan_string false cs) (Leaves-scan_string false cs),
  length-span_atom_cons c cs,
  is_atom_char_lem c,
)

continue_same :
    (n : ℕ) (p q : Text → Stream) (nx : Next)
    → Shorter nx n
    → ((r : Text) → length r < n → p r ≡ q r)
    → continue_with p nx ≡ continue_with q nx
continue_same n p q stop h same = refl
continue_same n p q (skip r) h same = same r h
continue_same n p q (token k r) h same = ap (yield k) (same r h)
continue_same n p q (bad c) h same = refl

-- Any two amounts of fuel that cover the text give the same tokens.
pub tokens_from_enough :
    (f g : ℕ) (t : Text) → length t ≤ f → length t ≤ g → tokens_from f t ≡ tokens_from g t
unfolding tokens_from next
tokens_from_enough zero zero t hf hg = refl
tokens_from_enough zero (suc g) [] hf hg = refl
tokens_from_enough zero (suc g) (c ∷ cs) hf hg = absurd (omega arith)
tokens_from_enough (suc f) zero [] hf hg = refl
tokens_from_enough (suc f) zero (c ∷ cs) hf hg = absurd (omega arith)
tokens_from_enough (suc f) (suc g) t hf hg =
    continue_same (length t) (tokens_from f) (tokens_from g) (next t) (Shorter-next t)
      λ r h. tokens_from_enough f g r (omega arith) (omega arith)

-- The tokenizer satisfies its loop with no bound on the rounds: what a round leaves is read on
-- from there, so the fuel never ends the stream.
pub tokens-next : (t : Text) → tokens t ≡ continue_with tokens (next t)
unfolding tokens tokens_from next
tokens-next [] = refl
tokens-next (c ∷ cs) =
    continue_same (length (c ∷ cs)) (tokens_from (length cs)) tokens (next (c ∷ cs))
      (Shorter-next (c ∷ cs))
      λ r h. tokens_from_enough (length cs) (length r) r (omega arith) (omega arith)
