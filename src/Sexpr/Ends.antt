-- ===== src/Sexpr/Ends.antt =====
-- The loop of `_tokens` in kicad/sexpr.py comes to an end: its rounds, counted one by one.
use emi_analyzer.Base.{ℕ, zero, suc, ◌≤◌, ◌<◌, [], ◌∷◌, length, ◌≡◌, refl, Text, arith}
use emi_analyzer.Sexpr.Tokens.{
  Token, Next, stop, skip, token, bad, Stream, finished, unexpected, yield, next, continue_with,
  tokens,
}
use emi_analyzer.Sexpr.Lexing.{Shorter, Shorter-next, tokens-next}

-- `Runs n t s`: from `t` the loop makes `n` rounds that go on, then it ends, and `s` is what it yields and how
-- it ends. A loop that does not end has no such `n`.
pub data Runs : ℕ → Text → Stream → Type 0 where
  ends : {t : Text} → next t ≡ stop → Runs zero t finished
  fails : {t : Text} {c : ℕ} → next t ≡ bad c → Runs zero t (unexpected c)
  skips : {n : ℕ} {t r : Text} {s : Stream} → next t ≡ skip r → Runs n r s → Runs (suc n) t s
  yields :
      {n : ℕ} {t r : Text} {k : Token} {s : Stream}
      → next t ≡ token k r
      → Runs n r s
      → Runs (suc n) t (yield k s)

-- The loop ends after at most as many rounds as there are characters.
abbrev pub EndsAs : Text → Stream → Type 0
EndsAs t s = (n : ℕ) × (n ≤ length t) × Runs n t s

round-EndsAs :
    (t : Text) (nx : Next)
    → next t ≡ nx
    → Shorter nx (length t)
    → ((r : Text) → length r < length t → EndsAs r (tokens r))
    → EndsAs t (continue_with tokens nx)
round-EndsAs t stop e h later = (0, omega arith, ends e)
round-EndsAs t (skip r) e h later =
    let (n, few, runs) = later r h in (suc n, omega (arith, few, h), skips e runs)
round-EndsAs t (token k r) e h later =
    let (n, few, runs) = later r h in (suc n, omega (arith, few, h), yields e runs)
round-EndsAs t (bad c) e h later = (0, omega arith, fails e)

tokens-EndsAs_within : (m : ℕ) (t : Text) → length t ≤ m → EndsAs t (tokens t)
tokens-EndsAs_within zero [] h =
    rw (tokens-next [])
      (round-EndsAs [] (next []) refl (Shorter-next []) (λ r less. absurd (omega arith)))
tokens-EndsAs_within zero (c ∷ t) h = absurd (omega arith)
tokens-EndsAs_within (suc m) t h = rw (tokens-next t) (
    round-EndsAs t (next t) refl (Shorter-next t)
      (λ r less. tokens-EndsAs_within m r (omega (arith, less, h))))

-- The loop of the tokenizer ends on every text, at its end or at a character that begins no token, after at
-- most as many rounds as the text has characters; the stream is what those rounds yield.
pub tokens-EndsAs : (t : Text) → EndsAs t (tokens t)
tokens-EndsAs t = tokens-EndsAs_within (length t) t (omega arith)
