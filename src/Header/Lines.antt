-- ===== src/Header/Lines.antt =====
-- The head of the loops `for len(p) > 0 { line := p; if i := bytes.IndexByte(line, '\n'); ... }`.
use buildutil.Base.{ℕ, List, [], ◌∷◌, ◌++◌, if◌then◌else◌, ◌==◌, Bytes, arith, ◌≡◌, refl, ap, Lacks}
use native.Mathlib.Decide.{ℕ_discrete}

-- What the body of the loop sees in one round: the variables `line` and `p`.
pub record Line : Type 0 where
  pub text : Bytes
  pub rest : Bytes

abbrev pub line_of : Bytes → Bytes → Line
line_of text rest = record { text = text; rest = rest }

extend : ℕ → List Line → List Line
extend c [] = line_of (c ∷ []) [] ∷ []
extend c (l ∷ ls) = record l { text = c ∷ l.text } ∷ ls

-- The rounds of the loop on `p`.
unfoldable pub lines : Bytes → List Line
unfolding extend
lines [] = []
lines (c ∷ p) = let rest = lines p in if c == b'\n' then line_of [] p ∷ rest else extend c rest

-- The first round sees the text up to the first newline, and the second begins behind it.
pub lines-newline :
    (text rest : Bytes)
    → Lacks b'\n' text
    → lines (text ++ (b'\n' ∷ rest)) ≡ line_of text rest ∷ lines rest
unfolding lines
lines-newline [] rest h = ground arith
lines-newline (c ∷ text) rest h = ground (arith, lines-newline text rest)

-- A last line with no newline is a round of its own.
pub lines_last :
    (c : ℕ) (text : Bytes) → Lacks b'\n' (c ∷ text) → lines (c ∷ text) ≡ line_of (c ∷ text) [] ∷ []
unfolding lines
lines_last c [] h = ground arith
lines_last c (d ∷ text) h = ground (arith, lines_last d text h.1)

-- A text that is not empty begins with a line.
pub data Cut (p : Bytes) : Type 0 where
  at_newline : (text rest : Bytes) → Lacks b'\n' text → p ≡ text ++ (b'\n' ∷ rest) → Cut p
  at_end : (c : ℕ) (text : Bytes) → Lacks b'\n' (c ∷ text) → p ≡ c ∷ text → Cut p

pub Cut-cons : (c : ℕ) (p : Bytes) → Cut (c ∷ p)
Cut-cons c [] = elim (ℕ_discrete c b'\n') [
  | yes e ↦ at_newline [] [] tt (ap (λ d. d ∷ []) e)
  | no n ↦ at_end c [] (n, tt) refl
]
Cut-cons c (d ∷ p) = elim (ℕ_discrete c b'\n') [
  | yes e ↦ at_newline [] (d ∷ p) tt (ap (λ x. x ∷ (d ∷ p)) e)
  | no n ↦ elim (Cut-cons d p) [
    | at_newline text rest h e ↦ at_newline (c ∷ text) rest (n, h) (ap (◌∷◌ c) e)
    | at_end x text h e ↦ at_end c (x ∷ text) (n, h) (ap (◌∷◌ c) e)
  ]
]
