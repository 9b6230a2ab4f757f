-- ===== src/RemoveGoSrc/Pattern/Found.antt =====
-- Where a regular expression is found in a text.
use buildutil.Base.{
  Bool, true, ◌&&◌, [], ◌∷◌, ◌++◌, Bytes, is_empty, ◌==◌, arith, ◌≡◌, refl, ap, ◌∙◌, inl, inr,
  Bool-cases, append-nil,
}
use buildutil.RemoveGoSrc.Pattern.{Regexp, matches, matches_end, matches_line}
use buildutil.RemoveGoSrc.Pattern.Language.{Language, matches-Front, passes-matches}

-- The text ends in one that the expression stands for.
abbrev pub EndsIn : Regexp → Bytes → Type 0
EndsIn r s = (p : Bytes) × (a : Bytes) × (s ≡ p ++ a) × Language r a

-- What stands behind `p` is the start of a line.
abbrev pub at_line : Bool → Bytes → Bool
at_line start [] = start
at_line start (c ∷ p) = at_line (c == 10) p

-- At the start of a line stands a text that the expression stands for.
abbrev pub LineHas : Regexp → Bool → Bytes → Type 0
LineHas r start s =
    (p : Bytes) × (a : Bytes) × (b : Bytes) × (s ≡ p ++ (a ++ b))
    × (at_line start p ≡ true)
    × Language r a

matches-end : (r : Regexp) (s : Bytes) → matches r is_empty s ≡ true → Language r s
matches-end r s h =
    let (a, b, split, in_r, ends) = matches-Front r is_empty s h in
    let empty : b ≡ [] = ground (arith, ends) in
    let whole : s ≡ a = split ∙ ap (λ t. a ++ t) empty ∙ append-nil a in rw whole in_r

end-matches : (r : Regexp) (s : Bytes) → Language r s → matches r is_empty s ≡ true
end-matches r s h = rw (append-nil s) at (passes-matches r is_empty s [] h refl)

pub matches_end-EndsIn : (r : Regexp) (s : Bytes) → matches_end r s ≡ true → EndsIn r s
unfolding matches_end
matches_end-EndsIn r [] h = ([], [], refl, matches-end r [] h)
matches_end-EndsIn r (c ∷ s) h = elim (Bool-cases (matches r is_empty (c ∷ s))) [
  | inl now ↦ ([], c ∷ s, refl, matches-end r (c ∷ s) now)
  | inr later ↦
      let (p, a, split, in_r) = matches_end-EndsIn r s (ground (arith, later, h)) in
      (c ∷ p, a, ap (λ t. c ∷ t) split, in_r)
]

pub EndsIn-matches_end : (r : Regexp) (p a : Bytes) → Language r a → matches_end r (p ++ a) ≡ true
unfolding matches_end
EndsIn-matches_end r [] [] h = end-matches r [] h
EndsIn-matches_end r [] (c ∷ a) h = let now = end-matches r (c ∷ a) h in ground (arith, now)
EndsIn-matches_end r (c ∷ p) a h = let later = EndsIn-matches_end r p a h in ground (arith, later)

pub matches_line-LineHas :
    (r : Regexp) (start : Bool) (s : Bytes) → matches_line r start s ≡ true → LineHas r start s
unfolding matches_line
matches_line-LineHas r start [] h =
    let (a, b, split, in_r, passes) = matches-Front r (λ rest. true) [] (ground (arith, h)) in
    ([], a, b, split, ground (arith, h), in_r)
matches_line-LineHas r start (c ∷ s) h =
    elim (Bool-cases (start && matches r (λ rest. true) (c ∷ s))) [
      | inl now ↦
          let (a, b, split, in_r, passes) =
            matches-Front r (λ rest. true) (c ∷ s) (ground (arith, now)) in
          ([], a, b, split, ground (arith, now), in_r)
      | inr later ↦
          let (p, a, b, split, line, in_r) =
            matches_line-LineHas r (c == 10) s (ground (arith, later, h)) in
          (c ∷ p, a, b, ap (λ t. c ∷ t) split, line, in_r)
    ]

front-matches_line :
    (r : Regexp) (start : Bool) (s : Bytes)
    → start ≡ true
    → matches r (λ rest. true) s ≡ true
    → matches_line r start s ≡ true
unfolding matches_line
front-matches_line r start [] line m = ground (arith, m, line)
front-matches_line r start (c ∷ s) line m = ground (arith, m, line)

pub LineHas-matches_line :
    (r : Regexp) (start : Bool) (p a b : Bytes)
    → at_line start p ≡ true
    → Language r a
    → matches_line r start (p ++ (a ++ b)) ≡ true
unfolding matches_line
LineHas-matches_line r start [] a b line h =
    front-matches_line r start (a ++ b) line (passes-matches r (λ rest. true) a b h refl)
LineHas-matches_line r start (c ∷ p) a b line h =
    let later = LineHas-matches_line r (c == 10) p a b line h in ground (arith, later)
