-- ===== src/PackageName/Find.antt =====
-- The loop of `readPackageName` ends, and leaves a suffix of what it was given.
use buildutil.Base.{
  ℕ, zero, suc, ◌≤◌, ◌<◌, Bool, true, false, [], ◌∷◌, ◌++◌, Option, none, some, if◌then◌else◌, ◌==◌,
  codes, Bytes, cut, cut-eq-some, length, Result, ok, err, ◌>>=◌, syntax, arith, ◌≡◌, refl, ap, sym,
  ◌∙◌, length-append, append_assoc,
}
use buildutil.PackageName.{is_skipped, behind, skip_comment, find_clause}

-- `r` stands at the end of `b`.
abbrev pub Suffix : Bytes → Bytes → Type 0
Suffix r b = (before : Bytes) × (b ≡ before ++ r)

pub Suffix-trans : {r s b : Bytes} → Suffix r s → Suffix s b → Suffix r b
Suffix-trans {r} (x, e) (y, f) = (y ++ x, f ∙ ap (λ t. y ++ t) e ∙ sym (append_assoc y x r))

Suffix-length : {r b : Bytes} → Suffix r b → length r ≤ length b
Suffix-length {r} (x, e) = omega (arith, ap length e, length-append x r)

-- A result that is a suffix of `b`, or the syntax error.
pub data Leaves (b : Bytes) : Result Bytes → Type 0 where
  left_over : (r : Bytes) → Suffix r b → Leaves b (ok r)
  refused : Leaves b (err syntax)

Leaves-longer : {s b : Bytes} {r : Result Bytes} → Suffix s b → Leaves s r → Leaves b r
Leaves-longer x (left_over r y) = left_over r (Suffix-trans y x)
Leaves-longer x refused = refused

behind-Leaves : (sep s : Bytes) (o : Option (Bytes × Bytes)) → cut sep s ≡ o → Leaves s (behind o)
behind-Leaves sep s none e = refused
behind-Leaves sep s (some (before, [])) e = refused
behind-Leaves sep s (some (before, c ∷ after)) e = left_over (c ∷ after) (
  before ++ sep,
  cut-eq-some sep s before (c ∷ after) e ∙ sym (append_assoc before sep (c ∷ after)),
)

if-Leaves :
    {b : Bytes} {x y : Result Bytes} (t : Bool)
    → Leaves b x
    → Leaves b y
    → Leaves b (if t then x else y)
if-Leaves true f g = f
if-Leaves false f g = g

skip_comment-Leaves : (b : Bytes) → Leaves b (skip_comment b)
unfolding skip_comment
skip_comment-Leaves [] = refused
skip_comment-Leaves (c ∷ b) =
    if-Leaves (c == b'/') (behind-Leaves (codes "\n") (c ∷ b) _ refl)
      (if-Leaves (c == b'*') (behind-Leaves (codes "*/") (c ∷ b) _ refl) refused)

bind-Leaves :
    {b : Bytes} {m : Result Bytes} (next : Bytes → Result Bytes)
    → Leaves b m
    → ((r : Bytes) → length r ≤ length b → Leaves r (next r))
    → Leaves b (m >>= next)
bind-Leaves next (left_over r s) f = Leaves-longer s (f r (Suffix-length s))
bind-Leaves next refused f = refused

pub find_clause-Leaves : (f : ℕ) (b : Bytes) → length b < f → Leaves b (find_clause f b)
unfolding find_clause
find_clause-Leaves zero b h = absurd (omega arith)
find_clause-Leaves (suc f) [] h = left_over [] ([], refl)
find_clause-Leaves (suc f) (c ∷ b) h =
    let tail : Suffix b (c ∷ b) = (c ∷ [], refl) in
    let here : Leaves (c ∷ b) (ok (c ∷ b)) = left_over (c ∷ b) ([], refl) in
    let skipped = Leaves-longer tail (find_clause-Leaves f b (omega arith)) in
    let commented = Leaves-longer tail (
      bind-Leaves (find_clause f) (skip_comment-Leaves b)
        (λ r k. find_clause-Leaves f r (omega (arith, k)))) in
    if-Leaves _ here (if-Leaves (is_skipped c) skipped (if-Leaves (c == b'/') commented here))
