-- ===== src/ImportPath/Testdata.antt =====
-- What the tests of `ImportPath` rule out of a path that it returns: a directory testdata, and a
-- directory of the same path below GOROOT or an earlier root.
use buildutil.Base.{
  refl, strip-eq-some, cut-eq-some, ◌∙◌, strip, true, false, List, [], ◌∷◌, ◌++◌, none, reverse,
  codes, Bytes, same, same_iff, cut, strip-append, has, has_prefix, is_empty, ap, sym, ◌≡◌, ◌≢◌,
  arith, inl, inr, Bool-cases, Option-cases,
}
use mathlib.Core.List.{reverse-append, reverse-reverse}
use buildutil.ContextUtil.{FileContext, System}
use buildutil.ImportPath.{in_testdata, join_path, is_dir, found_earlier, conflicts}

-- No element of the path is `testdata`.
pub record OutsideTestdata (sub : Bytes) : Type 0 where
  pub inside : (a b : Bytes) → sub ≢ a ++ (codes "/testdata/" ++ b)
  pub last : (a : Bytes) → sub ≢ a ++ codes "/testdata"
  pub first : (b : Bytes) → sub ≢ codes "testdata/" ++ b
  pub whole : sub ≢ codes "testdata"

cut-finds : (sep a b : Bytes) → cut sep (a ++ (sep ++ b)) ≢ none
unfolding cut
cut-finds [] [] [] q = ground (arith, strip-append [] [])
cut-finds [] [] (c ∷ b) q = ground (arith, strip-append [] (c ∷ b))
cut-finds (s ∷ sep) [] b q = ground (arith, strip-append (s ∷ sep) b)
cut-finds sep (c ∷ a) b q = elim (Option-cases (strip sep (c ∷ (a ++ (sep ++ b))))) [
  | inl absent ↦ cut-finds sep a b (ground (arith, absent, q))
  | inr (r, found) ↦ ground (arith, found, q)
]

has_prefix-append : (p s : Bytes) → has_prefix (p ++ s) p ≡ true
unfolding has_prefix
has_prefix-append p s = ground (arith, strip-append p s)

pub in_testdata-false : (sub : Bytes) → in_testdata sub ≡ false → OutsideTestdata sub
unfolding in_testdata
in_testdata-false sub h = record {
  inside = λ a b q. elim (Option-cases (cut (codes "/testdata/") sub)) [
    | inl absent ↦
        cut-finds (codes "/testdata/") a b (ap (cut (codes "/testdata/")) (sym q) ∙ absent)
    | inr (parts, found) ↦ ground (arith, h, found)
  ];
  last = λ a q.
      let ends : has_prefix (reverse sub) (reverse (codes "/testdata")) ≡ true =
        rw (q, reverse-append a (codes "/testdata"))
          (has_prefix-append (reverse (codes "/testdata")) (reverse a)) in
      ground (arith, h, ends);
  first = λ b q.
      let starts : has_prefix sub (codes "testdata/") ≡ true =
        rw q (has_prefix-append (codes "testdata/") b) in
      ground (arith, h, starts);
  whole = λ q. ground (arith, h, (same_iff sub (codes "testdata")).1 q);
}

has_prefix-true : (s p : Bytes) → has_prefix s p ≡ true → (b : Bytes) × (s ≡ p ++ b)
unfolding has_prefix
has_prefix-true s p h = elim (Option-cases (strip p s)) [
  | inl absent ↦ ground (arith, absent, h)
  | inr (b, found) ↦ (b, strip-eq-some p s b found)
]

ends_in :
    (sub b : Bytes)
    → reverse sub ≡ reverse (codes "/testdata") ++ b
    → sub ≡ reverse b ++ codes "/testdata"
ends_in sub b q =
    sym (reverse-reverse sub)
    ∙ ap reverse q
    ∙ reverse-append (reverse (codes "/testdata")) b
    ∙ ap (λ s. reverse b ++ s) (reverse-reverse (codes "/testdata"))

pub in_testdata-true : (sub : Bytes) → in_testdata sub ≡ true → OutsideTestdata sub → ⊥
unfolding in_testdata
in_testdata-true sub h out = elim (Option-cases (cut (codes "/testdata/") sub)) [
  | inr ((a, b), found) ↦ out.inside a b (cut-eq-some (codes "/testdata/") sub a b found)
  | inl no_inside ↦ elim (Bool-cases (has_prefix (reverse sub) (reverse (codes "/testdata")))) [
    | inl ends ↦
        let (b, q) = has_prefix-true (reverse sub) (reverse (codes "/testdata")) ends in
        out.last (reverse b) (ends_in sub b q)
    | inr no_end ↦ elim (Bool-cases (has_prefix sub (codes "testdata/"))) [
      | inl starts ↦ let (b, q) = has_prefix-true sub (codes "testdata/") starts in out.first b q
      | inr no_start ↦
          out.whole
            ((same_iff sub (codes "testdata")).0 (ground (arith, h, no_inside, no_end, no_start)))
    ]
  ]
]

module _ (e : System) (c : FileContext) where
  -- Neither GOROOT nor one of the roots has the directory in its source directory.
  pub record Unshadowed (early : List Bytes) (sub : Bytes) : Type 0 where
    pub not_in_goroot :
        is_empty c.goroot ≡ false
        → is_dir e c (join_path c (c.goroot ∷ codes "src" ∷ sub ∷ [])) ≡ false
    pub not_earlier :
        (r : Bytes)
        → has early r ≡ true
        → is_dir e c (join_path c (r ∷ codes "src" ∷ sub ∷ [])) ≡ false

  found_earlier-false :
      (early : List Bytes) (sub r : Bytes)
      → found_earlier e c early sub ≡ false
      → has early r ≡ true
      → is_dir e c (join_path c (r ∷ codes "src" ∷ sub ∷ [])) ≡ false
  unfolding found_earlier has
  found_earlier-false [] sub r h k = cc k
  found_earlier-false (root ∷ roots) sub r h k =
      elim (Bool-cases (is_dir e c (join_path c (root ∷ codes "src" ∷ sub ∷ [])))) [
        | inl there ↦ cc (rw there at h)
        | inr free ↦ elim (Bool-cases (same root r)) [
          | inl this ↦ rw (← (same_iff root r).0 this) free
          | inr other ↦ found_earlier-false roots sub r (rw free at h) (ground (arith, other, k))
        ]
      ]

  pub conflicts-false :
      (early : List Bytes) (sub : Bytes) → conflicts e c early sub ≡ false → Unshadowed early sub
  unfolding conflicts
  conflicts-false early sub h = record {
    not_in_goroot = λ some_root. ground (arith, h, some_root);
    not_earlier = λ r k. found_earlier-false early sub r (ground (arith, h)) k;
  }

  found_earlier-true :
      (early : List Bytes) (sub : Bytes)
      → found_earlier e c early sub ≡ true
      → (r : Bytes) × (has early r ≡ true)
        × (is_dir e c (join_path c (r ∷ codes "src" ∷ sub ∷ [])) ≡ true)
  unfolding found_earlier has
  found_earlier-true [] sub h = cc h
  found_earlier-true (root ∷ roots) sub h =
      elim (Bool-cases (is_dir e c (join_path c (root ∷ codes "src" ∷ sub ∷ [])))) [
        | inl there ↦ (root, ground (arith, (same_iff root root).1 refl), there)
        | inr free ↦
            let (r, k, d) = found_earlier-true roots sub (rw free at h) in (r, ground (arith, k), d)
      ]

  pub conflicts-true :
      (early : List Bytes) (sub : Bytes) → conflicts e c early sub ≡ true → Unshadowed early sub → ⊥
  unfolding conflicts
  conflicts-true early sub h u = elim (Bool-cases (found_earlier e c early sub)) [
    | inl found ↦
        let (r, k, d) = found_earlier-true early sub found in
        let free = u.not_earlier r k in ground (arith, d, free)
    | inr absent ↦
        let some_root : is_empty c.goroot ≡ false = ground (arith, h, absent) in
        let free = u.not_in_goroot some_root in ground (arith, h, absent, free)
  ]
