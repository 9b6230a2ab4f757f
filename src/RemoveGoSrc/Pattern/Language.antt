-- ===== src/RemoveGoSrc/Pattern/Language.antt =====
-- The texts that a regular expression stands for, and the tests against them.
use buildutil.Base.{
  ℕ, Bool, true, ◌&&◌, List, [], ◌∷◌, ◌++◌, Bytes, strip, strip-append, strip-eq-some, has, same,
  same_iff, arith, ◌≡◌, ◌≢◌, ◌⊎◌, refl, sym, ap, ◌∙◌, inl, inr, Bool-cases, Option-cases,
  append_assoc,
}
use buildutil.RemoveGoSrc.Pattern.{
  Regexp, text, one_of, then_, either, maybe, repeated, after_text, after_one_of, after_repeated,
  matches,
}

abbrev pub all_in : (ℕ → Bool) → Bytes → Bool
all_in class [] = true
all_in class (c ∷ s) = class c && all_in class s

-- The text is one of those that the expression stands for.
abbrev pub Language : Regexp → Bytes → Type 0
Language (text t) s = s ≡ t
Language (one_of ts) s = has ts s ≡ true
Language (then_ r q) s = (a : Bytes) × (b : Bytes) × (s ≡ a ++ b) × Language r a × Language q b
Language (either r q) s = Language r s ⊎ Language q s
Language (maybe r) s = Language r s ⊎ (s ≡ [])
Language (repeated class) s = (s ≢ []) × (all_in class s ≡ true)

-- A front of the text is one of those, and what is behind it passes.
abbrev pub Front : Regexp → (Bytes → Bool) → Bytes → Type 0
Front r next s = (a : Bytes) × (b : Bytes) × (s ≡ a ++ b) × Language r a × (next b ≡ true)

text-Front :
    (t : Bytes) (next : Bytes → Bool) (s : Bytes)
    → after_text t next s ≡ true
    → (b : Bytes) × (s ≡ t ++ b) × (next b ≡ true)
unfolding after_text
text-Front t next s h = elim (Option-cases (strip t s)) [
  | inl missing ↦ ground (arith, missing, h)
  | inr (b, found) ↦ (b, strip-eq-some t s b found, ground (arith, found, h))
]

text-passes :
    (t : Bytes) (next : Bytes → Bool) (b : Bytes)
    → next b ≡ true
    → after_text t next (t ++ b) ≡ true
unfolding after_text
text-passes t next b h = rw (after_text, strip-append t b) h

one_of-Front :
    (ts : List Bytes) (next : Bytes → Bool) (s : Bytes)
    → after_one_of ts next s ≡ true
    → Front (one_of ts) next s
unfolding after_one_of has
one_of-Front [] next s h = cc
one_of-Front (t ∷ ts) next s h = elim (Bool-cases (after_text t next s)) [
  | inl now ↦
      let (b, split, passes) = text-Front t next s now in
      (t, b, split, ground (arith, (same_iff t t).1 refl), passes)
  | inr later ↦
      let (a, b, split, listed, passes) = one_of-Front ts next s (ground (arith, later, h)) in
      (a, b, split, ground (arith, listed), passes)
]

one_of-passes :
    (ts : List Bytes) (next : Bytes → Bool) (a b : Bytes)
    → has ts a ≡ true
    → next b ≡ true
    → after_one_of ts next (a ++ b) ≡ true
unfolding after_one_of has
one_of-passes [] next a b h n = cc
one_of-passes (t ∷ ts) next a b h n = elim (Bool-cases (same t a)) [
  | inl here ↦
      let equal : t ≡ a = (same_iff t a).0 here in
      let now : after_text t next (a ++ b) ≡ true = rw equal (text-passes a next b n) in
      ground (arith, now)
  | inr there ↦
      let later = one_of-passes ts next a b (ground (arith, h, there)) n in ground (arith, later)
]

repeated-Front :
    (class : ℕ → Bool) (next : Bytes → Bool) (s : Bytes)
    → after_repeated class next s ≡ true
    → Front (repeated class) next s
unfolding after_repeated
repeated-Front class next [] h = cc
repeated-Front class next (c ∷ s) h = elim (Bool-cases (next s)) [
  | inl now ↦ (c ∷ [], s, refl, (λ e. cc, ground (arith, h)), now)
  | inr later ↦
      let (a, b, split, (nonempty, all), passes) =
        repeated-Front class next s (ground (arith, later, h)) in
      (c ∷ a, b, ap (λ r. c ∷ r) split, (λ e. cc, ground (arith, h, all)), passes)
]

repeated-passes :
    (class : ℕ → Bool) (next : Bytes → Bool) (a b : Bytes)
    → a ≢ []
    → all_in class a ≡ true
    → next b ≡ true
    → after_repeated class next (a ++ b) ≡ true
unfolding after_repeated
repeated-passes class next [] b e all n = absurd (e refl)
repeated-passes class next (c ∷ []) b e all n = ground (arith, all, n)
repeated-passes class next (c ∷ d ∷ a) b e all n =
    let later = repeated-passes class next (d ∷ a) b (λ q. cc) (ground (arith, all)) n in
    ground (arith, all, later)

pub matches-Front :
    (r : Regexp) (next : Bytes → Bool) (s : Bytes) → matches r next s ≡ true → Front r next s
unfolding matches
matches-Front (text t) next s h =
    let (b, split, passes) = text-Front t next s h in (t, b, split, refl, passes)
matches-Front (one_of ts) next s h = one_of-Front ts next s h
matches-Front (then_ r q) next s h =
    let (a, b, split, in_r, more) = matches-Front r (matches q next) s h in
    let (c, d, split_b, in_q, passes) = matches-Front q next b more in
    (
      a ++ c,
      d,
      split ∙ ap (λ t. a ++ t) split_b ∙ sym (append_assoc a c d),
      (a, c, refl, in_r, in_q),
      passes,
    )
matches-Front (either r q) next s h = elim (Bool-cases (matches r next s)) [
  | inl left ↦
      let (a, b, split, in_r, passes) = matches-Front r next s left in
      (a, b, split, inl in_r, passes)
  | inr other ↦
      let (a, b, split, in_q, passes) = matches-Front q next s (ground (arith, other, h)) in
      (a, b, split, inr in_q, passes)
]
matches-Front (maybe r) next s h = elim (Bool-cases (matches r next s)) [
  | inl left ↦
      let (a, b, split, in_r, passes) = matches-Front r next s left in
      (a, b, split, inl in_r, passes)
  | inr other ↦ ([], s, refl, inr refl, ground (arith, other, h))
]
matches-Front (repeated class) next s h = repeated-Front class next s h

pub passes-matches :
    (r : Regexp) (next : Bytes → Bool) (a b : Bytes)
    → Language r a
    → next b ≡ true
    → matches r next (a ++ b) ≡ true
unfolding matches
passes-matches (text t) next a b e n = rw e (text-passes t next b n)
passes-matches (one_of ts) next a b h n = one_of-passes ts next a b h n
passes-matches (then_ r q) next a b (c, d, split, in_r, in_q) n =
    rw (split, append_assoc c d b)
      (passes-matches r (matches q next) c (d ++ b) in_r (passes-matches q next d b in_q n))
passes-matches (either r q) next a b (inl in_r) n =
    let left = passes-matches r next a b in_r n in ground (arith, left)
passes-matches (either r q) next a b (inr in_q) n =
    let right = passes-matches q next a b in_q n in ground (arith, right)
passes-matches (maybe r) next a b (inl in_r) n =
    let left = passes-matches r next a b in_r n in ground (arith, left)
passes-matches (maybe r) next a b (inr empty) n = rw empty (ground (arith, n))
passes-matches (repeated class) next a b (nonempty, all) n =
    repeated-passes class next a b nonempty all n
