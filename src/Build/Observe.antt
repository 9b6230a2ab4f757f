-- ===== src/Build/Observe.antt =====
-- The answer of `shouldBuild` does not depend on the map it is given.
use buildutil.Base.{
  Bool, true, false, List, [], ◌∷◌, Bytes, arith, ◌≡◌, refl, ap, sym, ◌∙◌, Error, Result, ok, err,
  Result-cases, Option-cases, inl, inr,
}
use buildutil.Context.{Context}
use buildutil.Tags.{Expr, Tags, eval}
use buildutil.Tags.Eval.{eval_lem}
use buildutil.Header.{Header, parse_file_header}
use buildutil.Header.Lines.{Line, lines}
use buildutil.Header.Space.{trim_space}
use buildutil.Build.{
  Syntax, Parsed-cases, Built, build_line, build_lines, build_header, should_build,
  should_build_only,
}

-- The answer alone.
abbrev pub answer_of : Result Built → Result Bool
answer_of (ok r) = ok r.should_build
answer_of (err e) = err e

module _ (syntax : Syntax) (u : Bool) (c : Context) where
  eval-answer : (x : Expr) (m n : Tags) → (eval u c x m).0 ≡ (eval u c x n).0
  eval-answer x m n = (eval_lem u c x m).0 ∙ sym ((eval_lem u c x n).0)

  build_line-answer :
      (line : Bytes) (b : Bool) (m n : Tags)
      → (build_line syntax u c line (b, m)).0 ≡ (build_line syntax u c line (b, n)).0
  unfolding build_line
  build_line-answer line b m n = elim (Parsed-cases (syntax.parse line)) [
    | inl (x, read) ↦ ground (arith, read, eval-answer x m n)
    | inr (message, read) ↦ ground (arith, read)
  ]

  build_lines-answer :
      (ls : List Line) (st st' : Bool × Tags)
      → st.0 ≡ st'.0
      → (build_lines syntax u c ls st).0 ≡ (build_lines syntax u c ls st').0
  unfolding build_lines
  build_lines-answer [] st st' e = e
  build_lines-answer (l ∷ ls) (b, m) (b', n) e = build_lines-answer ls _ _ (
      build_line-answer (trim_space l.text) b m n
      ∙ ap (λ d. (build_line syntax u c (trim_space l.text) (d, n)).0) e)

  build_header-answer :
      (h : Header) (m n : Tags)
      → answer_of (build_header syntax u c h m) ≡ answer_of (build_header syntax u c h n)
  unfolding build_header
  build_header-answer h m n = elim (Option-cases h.go_build) [
    | inl no_build ↦
        ground (arith, no_build, build_lines-answer (lines h.trimmed) (true, m) (true, n) refl)
    | inr (line, build) ↦ elim (Parsed-cases (syntax.parse line)) [
      | inl (x, read) ↦ ground (arith, build, read, eval-answer x m n)
      | inr (message, read) ↦ ground (arith, build, read)
    ]
  ]

  -- For any two maps, nil or not, `shouldBuild` gives the same answer or the same error.
  pub should_build-answer :
      (content : Bytes) (m n : Tags)
      → answer_of (should_build syntax u c content m)
        ≡ answer_of (should_build syntax u c content n)
  unfolding should_build
  should_build-answer content m n = elim (Result-cases (parse_file_header content)) [
    | inl (h, e) ↦ rw e (build_header-answer h m n)
    | inr (x, e) ↦ rw e
  ]

  -- So an answer `true` with some map is an answer of `shouldBuildOnly` with any other.
  pub should_build_only-answer :
      (content : Bytes) (m n : Tags) (r : Built)
      → should_build syntax u c content m ≡ ok r
      → should_build_only syntax u c content n ≡ r.should_build
  unfolding should_build_only
  should_build_only-answer content m n r e =
      let same : answer_of (should_build syntax u c content n) ≡ ok r.should_build =
        should_build-answer content n m ∙ ap answer_of e in
      elim (Result-cases (should_build syntax u c content n)) [
        | inl (s, f) ↦
            let done : ok s.should_build ≡ ok r.should_build = rw f at same in
            ground (arith, f, done)
        | inr (x, f) ↦ cc (rw f at same)
      ]

  -- Beside an error `shouldBuildOnly` answers false, with any map.
  pub should_build_only-error :
      (content : Bytes) (m n : Tags) (x : Error)
      → should_build syntax u c content m ≡ err x
      → should_build_only syntax u c content n ≡ false
  unfolding should_build_only
  should_build_only-error content m n x e =
      let same : answer_of (should_build syntax u c content n) ≡ err x =
        should_build-answer content n m ∙ ap answer_of e in
      elim (Result-cases (should_build syntax u c content n)) [
        | inl (s, f) ↦ absurd (ground (arith, f, same))
        | inr (y, f) ↦ ground (arith, f)
      ]
