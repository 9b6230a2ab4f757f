-- ===== src/RemoveGoSrc/Directives/Found.antt =====
-- The regular expressions of cmd/remove-go-src/main.go and their description without them.
use buildutil.Base.{
  sym, append_assoc, ◌∙◌, ℕ, Bool, true, [], ◌∷◌, ◌++◌, codes, Bytes, ap, refl, ◌≡◌, ◌⊎◌, ◌==◌,
  arith, inl, inr, Bool-cases,
}
use buildutil.RemoveGoSrc.Pattern.{repeated, is_class_space, os_arch_re, go_build_re}
use buildutil.RemoveGoSrc.Pattern.Language.{Language, all_in}
use buildutil.RemoveGoSrc.Pattern.Found.{EndsIn, LineHas, at_line}
use buildutil.RemoveGoSrc.Directives.{
  OsArchName, Blank, tab, newline, form_feed, carriage_return, space, AllBlank, White, BeforeLine,
  BuildLine,
}

is_class_space-Blank : (c : ℕ) → is_class_space c ≡ true → Blank c
is_class_space-Blank c h = elim (Bool-cases (c == 9)) [
  | inl e ↦ let q : c ≡ 9 = ground (arith, e) in rw q tab
  | inr n9 ↦ elim (Bool-cases (c == 10)) [
    | inl e ↦ let q : c ≡ 10 = ground (arith, e) in rw q newline
    | inr n10 ↦ elim (Bool-cases (c == 12)) [
      | inl e ↦ let q : c ≡ 12 = ground (arith, e) in rw q form_feed
      | inr n12 ↦ elim (Bool-cases (c == 13)) [
        | inl e ↦ let q : c ≡ 13 = ground (arith, e) in rw q carriage_return
        | inr n13 ↦ let q : c ≡ 32 = ground (arith, h, n9, n10, n12, n13) in rw q space
      ]
    ]
  ]
]

Blank-is_class_space : (c : ℕ) → Blank c → is_class_space c ≡ true
Blank-is_class_space c tab = refl
Blank-is_class_space c newline = refl
Blank-is_class_space c form_feed = refl
Blank-is_class_space c carriage_return = refl
Blank-is_class_space c space = refl

all_in-AllBlank : (s : Bytes) → all_in is_class_space s ≡ true → AllBlank s
all_in-AllBlank [] h = tt
all_in-AllBlank (c ∷ s) h =
    (is_class_space-Blank c (ground (arith, h)), all_in-AllBlank s (ground (arith, h)))

AllBlank-all_in : (s : Bytes) → AllBlank s → all_in is_class_space s ≡ true
AllBlank-all_in [] h = refl
AllBlank-all_in (c ∷ s) h = ground (arith, Blank-is_class_space c h.0, AllBlank-all_in s h.1)

repeated-White : (s : Bytes) → Language (repeated is_class_space) s → White s
repeated-White s (ne, h) = (ne, all_in-AllBlank s h)

White-repeated : (s : Bytes) → White s → Language (repeated is_class_space) s
White-repeated s (ne, h) = (ne, AllBlank-all_in s h)

at_line-BeforeLine :
    (start : Bool) (p : Bytes)
    → at_line start p ≡ true
    → (p ≡ []) ⊎ ((q : Bytes) × (p ≡ q ++ (10 ∷ [])))
at_line-BeforeLine start [] h = inl refl
at_line-BeforeLine start (c ∷ p) h = elim (at_line-BeforeLine (c == 10) p h) [
  | inl last ↦ let byte : c ≡ 10 = ground (arith, rw last at h) in inr ([], rw (last, byte) refl)
  | inr (q, split) ↦ inr (c ∷ q, ap (λ t. c ∷ t) split)
]

at_line-newline : (start : Bool) (q : Bytes) → at_line start (q ++ (10 ∷ [])) ≡ true
at_line-newline start [] = refl
at_line-newline start (c ∷ q) = at_line-newline (c == 10) q

BeforeLine-at_line : (p : Bytes) → BeforeLine p → at_line true p ≡ true
BeforeLine-at_line p (inl first) = rw first refl
BeforeLine-at_line p (inr (q, split)) = rw split (at_line-newline true q)

pub EndsIn-OsArchName : (base : Bytes) → EndsIn os_arch_re base → OsArchName base
EndsIn-OsArchName base
      (
        p,
        a,
        split,
        (u, s, a_is, under, (os, s1, s_is, known, (mid, ext, m_is, inr none_left, go))),
      ) =
    (
      p,
      os,
      known,
      inl (split ∙ ap (λ t. p ++ t) (a_is ∙ rw (under, s_is, m_is, none_left, go) refl)),
    )
EndsIn-OsArchName base
      (
        p,
        a,
        split,
        (
          u,
          s,
          a_is,
          under,
          (os, s1, s_is, known, (mid, ext, m_is, inl (v, arch, mid_is, again, known_a), go)),
        ),
      ) =
    (
      p,
      os,
      known,
      inr (
        arch,
        known_a,
        split ∙ ap (λ t. p ++ t) (a_is ∙ rw (under, s_is, m_is, mid_is, again, go) refl),
      ),
    )

pub OsArchName-EndsIn : (base : Bytes) → OsArchName base → EndsIn os_arch_re base
OsArchName-EndsIn base (p, os, known, inl split) = (
  p,
  codes "_" ++ (os ++ codes ".go"),
  split,
  (
    codes "_",
    os ++ codes ".go",
    refl,
    refl,
    (os, codes ".go", refl, known, ([], codes ".go", refl, inr refl, refl)),
  ),
)
OsArchName-EndsIn base (p, os, known, inr (arch, known_a, split)) = (
  p,
  codes "_" ++ (os ++ (codes "_" ++ (arch ++ codes ".go"))),
  split,
  (
    codes "_",
    os ++ (codes "_" ++ (arch ++ codes ".go")),
    refl,
    refl,
    (
      os,
      codes "_" ++ (arch ++ codes ".go"),
      refl,
      known,
      (codes "_" ++ arch, codes ".go", refl, inl (codes "_", arch, refl, refl, known_a), refl),
    ),
  ),
)

word_of :
    (word : Bytes)
    → (word ≡ codes "go:build")
      ⊎ ((white : Bytes) × (plus : Bytes) × (word ≡ white ++ plus)
          × Language (repeated is_class_space) white
          × (plus ≡ codes "+build"))
    → (word ≡ codes "go:build") ⊎ ((white : Bytes) × White white × (word ≡ white ++ codes "+build"))
word_of word (inl go) = inl go
word_of word (inr (white, plus, split, blank, build)) =
    inr (white, repeated-White white blank, split ∙ ap (λ t. white ++ t) build)

pub LineHas-BuildLine : (content : Bytes) → LineHas go_build_re true content → BuildLine content
LineHas-BuildLine content
      (
        p,
        a,
        b,
        split,
        line,
        (
          u,
          s,
          a_is,
          slashes,
          (word, s1, s_is, which, (gap, [], s1_is, blank, (some_shown, shown))),
        ),
      ) =
    absurd (some_shown refl)
LineHas-BuildLine content
      (
        p,
        a,
        b,
        split,
        line,
        (
          u,
          s,
          a_is,
          slashes,
          (word, s1, s_is, which, (gap, c ∷ more, s1_is, blank, (some_shown, shown))),
        ),
      ) =
    let rest =
      append_assoc word (gap ++ (c ∷ more)) b
      ∙ ap (λ t. word ++ t) (append_assoc gap (c ∷ more) b) in
    let whole : a ++ b ≡ codes "//" ++ (word ++ (gap ++ (c ∷ (more ++ b)))) =
      rw (a_is, slashes, s_is, s1_is) (ap (λ t. codes "//" ++ t) rest) in
    (
      p,
      word,
      gap,
      c,
      more ++ b,
      split ∙ ap (λ t. p ++ t) whole,
      at_line-BeforeLine true p line,
      word_of word which,
      repeated-White gap blank,
      ground (arith, shown),
      ground (arith, shown),
    )

of_word :
    (word : Bytes)
    → (word ≡ codes "go:build") ⊎ ((white : Bytes) × White white × (word ≡ white ++ codes "+build"))
    → (word ≡ codes "go:build")
      ⊎ ((white : Bytes) × (plus : Bytes) × (word ≡ white ++ plus)
          × Language (repeated is_class_space) white
          × (plus ≡ codes "+build"))
of_word word (inl go) = inl go
of_word word (inr (white, blank, split)) =
    inr (white, codes "+build", split, White-repeated white blank, refl)

pub BuildLine-LineHas : (content : Bytes) → BuildLine content → LineHas go_build_re true content
BuildLine-LineHas content (p, word, gap, c, b, split, line, which, blank, low, high) =
    let rest =
      append_assoc word (gap ++ (c ∷ [])) b ∙ ap (λ t. word ++ t) (append_assoc gap (c ∷ []) b) in
    (
      p,
      codes "//" ++ (word ++ (gap ++ (c ∷ []))),
      b,
      split ∙ ap (λ t. p ++ (codes "//" ++ t)) (sym rest),
      BeforeLine-at_line p line,
      (
        codes "//",
        word ++ (gap ++ (c ∷ [])),
        refl,
        refl,
        (
          word,
          gap ++ (c ∷ []),
          refl,
          of_word word which,
          (gap, c ∷ [], refl, White-repeated gap blank, (λ q. cc q, ground (arith, low, high))),
        ),
      ),
    )
