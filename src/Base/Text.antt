-- ===== src/Base/Text.antt =====
-- Go strings and byte slices as lists of bytes, with what the source uses of `strings` and `bytes`.
use Prim.Native.Nat.{ℕ, zero, suc, ◌+◌}
use Prim.Native.Char.{code}
use Prim.Native.String.{String}
use mathlib.Core.Path.{◌≡◌, refl, ap, ◌∙◌}
use mathlib.Core.Logic.{◌↔◌, ◌≢◌, inl, inr}
use mathlib.Core.Bool.{Bool, true, false, ◌&&◌}
use mathlib.Core.Option.{Option, none, some}
use mathlib.Core.List.{List, [], ◌∷◌, ◌++◌}
use native.Mathlib.Omega.{arith}
use buildutil.Base.Tests.{◌==◌, if◌then◌else◌, Option-cases}

abbrev pub Bytes : Type 0
Bytes = List ℕ

-- The bytes of an ASCII literal.
abbrev pub codes : String → Bytes
codes String.[] = []
codes (String.◌∷◌ c s) = code c ∷ codes s

abbrev pub length {ℓ} : {A : Type ℓ} → List A → ℕ
length [] = 0
length (x ∷ xs) = suc (length xs)

abbrev pub drop {ℓ} : {A : Type ℓ} → ℕ → List A → List A
drop zero xs = xs
drop (suc n) [] = []
drop (suc n) (x ∷ xs) = drop n xs

abbrev pub take {ℓ} : {A : Type ℓ} → ℕ → List A → List A
take zero xs = []
take (suc n) [] = []
take (suc n) (x ∷ xs) = x ∷ take n xs

abbrev pub is_empty {ℓ} : {A : Type ℓ} → List A → Bool
is_empty [] = true
is_empty (x ∷ xs) = false

-- `==` on strings, and `bytes.Equal`.
unfoldable pub same : Bytes → Bytes → Bool
same [] [] = true
same (x ∷ xs) (y ∷ ys) = x == y && same xs ys
same _ _ = false

pub same_iff : (a b : Bytes) → (same a b ≡ true) ↔ (a ≡ b)
unfolding same
same_iff (x ∷ a) (y ∷ b) = ground (arith, same_iff a b)
same_iff _ _ = ground arith

pub same_refl : (a : Bytes) → same a a ≡ true
same_refl a = (same_iff a a).1 refl

-- `strings.CutPrefix`: what stands behind the prefix, if it is there.
unfoldable pub strip : Bytes → Bytes → Option Bytes
strip [] s = some s
strip (p ∷ ps) [] = none
strip (p ∷ ps) (c ∷ cs) = if p == c then strip ps cs else none

pub strip-append : (p s : Bytes) → strip p (p ++ s) ≡ some s
unfolding strip
strip-append [] s = refl
strip-append (x ∷ p) s = ground (arith, strip-append p s)

pub strip-eq-some : (p s r : Bytes) → strip p s ≡ some r → s ≡ p ++ r
unfolding strip
strip-eq-some [] s r e = ground arith
strip-eq-some (x ∷ p) [] r e = ground arith
strip-eq-some (x ∷ p) (c ∷ s) r e = ground (arith, strip-eq-some p s r)

-- `strings.HasPrefix(s, p)`, with the source's argument order.
unfoldable pub has_prefix : Bytes → Bytes → Bool
unfolding strip
has_prefix s p = elim (strip p s) [ none ↦ false | some _ ↦ true ]

-- `strings.TrimPrefix(s, p)`
unfoldable pub trim_prefix : Bytes → Bytes → Bytes
unfolding strip
trim_prefix s p = elim (strip p s) [ none ↦ s | some r ↦ r ]

-- `strings.Cut(s, sep)`: the parts around the first `sep`, or `none` where it is not found.
unfoldable pub cut : Bytes → Bytes → Option (Bytes × Bytes)
unfolding strip
cut sep [] = elim (strip sep []) [ none ↦ none | some r ↦ some ([], r) ]
cut sep (c ∷ cs) =
    let later = cut sep cs in
    elim (strip sep (c ∷ cs)) [
      | none ↦ elim later [ none ↦ none | some (a, b) ↦ some (c ∷ a, b) ]
      | some r ↦ some ([], r)
    ]

pub cut-eq-some : (sep s a b : Bytes) → cut sep s ≡ some (a, b) → s ≡ a ++ (sep ++ b)
unfolding cut
cut-eq-some sep [] a b e = ground (arith, strip-eq-some sep [] b)
cut-eq-some sep (c ∷ s) a b e = elim (Option-cases (strip sep (c ∷ s))) [
  | inl absent ↦ ground (arith, cut-eq-some sep s (drop 1 a) b)
  | inr (r, found) ↦ ground (arith, strip-eq-some sep (c ∷ s) r found)
]

abbrev pub grow : ℕ → List Bytes → List Bytes
grow c [] = (c ∷ []) ∷ []
grow c (p ∷ ps) = (c ∷ p) ∷ ps

-- `strings.Split(s, sep)` for a separator of one byte.
unfoldable pub split : ℕ → Bytes → List Bytes
split sep [] = [] ∷ []
split sep (c ∷ cs) = let rest = split sep cs in if c == sep then [] ∷ rest else grow c rest

-- `strings.Join(parts, sep)` for a separator of one byte.
unfoldable pub join : ℕ → List Bytes → Bytes
join sep [] = []
join sep (p ∷ []) = p
join sep (p ∷ (q ∷ ps)) = p ++ (sep ∷ join sep (q ∷ ps))

-- No byte of the text is `sep`.
abbrev pub Lacks : ℕ → Bytes → Type 0
Lacks sep [] = Unit
Lacks sep (c ∷ cs) = (c ≢ sep) × Lacks sep cs

abbrev pub AllLack : ℕ → List Bytes → Type 0
AllLack sep [] = Unit
AllLack sep (p ∷ ps) = Lacks sep p × AllLack sep ps

pub split-Lacks : (sep : ℕ) (p : Bytes) → Lacks sep p → split sep p ≡ p ∷ []
unfolding split
split-Lacks sep [] h = refl
split-Lacks sep (c ∷ p) h = ground (arith, split-Lacks sep p)

pub split-append :
    (sep : ℕ) (p s : Bytes) → Lacks sep p → split sep (p ++ (sep ∷ s)) ≡ p ∷ split sep s
unfolding split
split-append sep [] s h = ground arith
split-append sep (c ∷ p) s h = ground (arith, split-append sep p s)

-- Splitting a join gives the parts back.
pub split-join :
    (sep : ℕ) (ps : List Bytes) → ps ≢ [] → AllLack sep ps → split sep (join sep ps) ≡ ps
unfolding join
split-join sep [] ne h = absurd (ne refl)
split-join sep (p ∷ []) ne h = split-Lacks sep p h.0
split-join sep (p ∷ (q ∷ ps)) ne h =
    split-append sep p (join sep (q ∷ ps)) h.0
    ∙ ap (◌∷◌ p) (split-join sep (q ∷ ps) (λ e. ground arith) h.1)

pub take-length {ℓ} : {A : Type ℓ} (xs ys : List A) → take (length xs) (xs ++ ys) ≡ xs
take-length [] ys = refl
take-length (x ∷ xs) ys = ap (◌∷◌ x) (take-length xs ys)

pub take-drop {ℓ} : {A : Type ℓ} (n : ℕ) (xs : List A) → take n xs ++ drop n xs ≡ xs
take-drop zero xs = refl
take-drop (suc n) [] = refl
take-drop (suc n) (x ∷ xs) = ap (◌∷◌ x) (take-drop n xs)

pub length-append {ℓ} : {A : Type ℓ} (xs ys : List A) → length (xs ++ ys) ≡ length xs + length ys
length-append [] ys = omega arith
length-append (x ∷ xs) ys = omega (arith, length-append xs ys)

pub split-ne-nil : (sep : ℕ) (s : Bytes) → split sep s ≢ []
unfolding split
split-ne-nil sep [] e = ground arith
split-ne-nil sep (c ∷ s) e = ground (arith, split-ne-nil sep s)

join-grow : (sep c : ℕ) (ps : List Bytes) → ps ≢ [] → join sep (grow c ps) ≡ c ∷ join sep ps
unfolding join
join-grow sep c [] ne = absurd (ne refl)
join-grow sep c (p ∷ []) ne = refl
join-grow sep c (p ∷ (q ∷ ps)) ne = refl

join_nil_cons : (sep : ℕ) (ps : List Bytes) → ps ≢ [] → join sep ([] ∷ ps) ≡ sep ∷ join sep ps
unfolding join
join_nil_cons sep [] ne = absurd (ne refl)
join_nil_cons sep (p ∷ ps) ne = refl

-- Joining the parts of a split gives the text back.
pub join-split : (sep : ℕ) (s : Bytes) → join sep (split sep s) ≡ s
unfolding split
join-split sep [] = unfold join in refl
join-split sep (c ∷ s) =
    let ne = split-ne-nil sep s in
    ground (
      arith,
      join-grow sep c (split sep s) ne,
      join_nil_cons sep (split sep s) ne,
      join-split sep s,
    )
