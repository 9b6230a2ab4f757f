-- ===== src/Build/Agree.antt =====
-- `parseBuildConstraint` and `shouldBuild` agree: the parsed constraint, evaluated, is the answer of
-- `shouldBuild`, and its tags are those that `shouldBuild` records.
use buildutil.Base.{
  Bool, true, false, not, ◌&&◌, ◌||◌, List, [], ◌∷◌, Option, none, some, if◌then◌else◌, Bytes,
  arith, ◌≡◌, refl, sym, ◌∙◌, has, Keys, ok, err, Error, >>=-eq-ok, Option-cases, Bool-cases, inl,
  inr,
}
use buildutil.Context.{Context}
use buildutil.Tags.{Expr, and, Tags, eval}
use buildutil.Tags.Eval.{satisfies, mentions, keys, eval_lem, value}
use buildutil.Header.{Header, parse_file_header}
use buildutil.Header.Lines.{Line, lines}
use buildutil.Header.Space.{trim_space}
use buildutil.Build.{
  joined, Parsed-cases, Syntax, Built, is_plus_line, build_line, build_lines, build_header,
  should_build, constraint_line, constraint_lines, header_constraint, parse_build_constraint,
  constraint, eval_constraint,
}

-- A nil expression holds in every context and has no tags.
abbrev pub holds : Bool → Context → Option Expr → Bool
holds u c none = true
holds u c (some x) = satisfies u c x

abbrev pub mentions_any : Option Expr → Bytes → Bool
mentions_any none k = false
mentions_any (some x) k = mentions x k

pub eval_constraint-holds :
    (u : Bool) (c : Context) (x : Option Expr) → eval_constraint u c (constraint x) ≡ holds u c x
unfolding eval_constraint
eval_constraint-holds u c none = refl
eval_constraint-holds u c (some x) = (eval_lem u c x none).0

module _ (syntax : Syntax) (u : Bool) (c : Context) where
  -- `st` is what `shouldBuild` has after lines whose constraint is `x`, from the map `m`.
  record Follows (m : Keys) (x : Option Expr) (st : Bool × Tags) : Type 0 where
    answer : st.0 ≡ holds u c x
    is_map : st.1 ≡ some (keys st.1)
    records : (k : Bytes) → has (keys st.1) k ≡ (has m k || mentions_any x k)

  eval-Follows :
      (m n : Keys) (x : Option Expr) (y : Expr)
      → ((k : Bytes) → has n k ≡ (has m k || mentions_any x k))
      → (b : Bool) → b ≡ holds u c x
      → (z : Option Expr) → (holds u c z ≡ (holds u c x && satisfies u c y))
      → ((k : Bytes) → mentions_any z k ≡ (mentions_any x k || mentions y k))
      → Follows m z ((if not (eval u c y (some n)).0 then false else b), (eval u c y (some n)).1)
  eval-Follows m n x y r b e z hz mz =
      let l = eval_lem u c y (some n) in
      record {
        answer = ground (arith, l.0, e, hz);
        is_map = (l.2 n []).0;
        records = λ k. ground (arith, (l.2 n k).1, r k, mz k);
      }

  joined-Follows :
      (m n : Keys) (x : Option Expr) (y : Expr) (b : Bool)
      → Follows m x (b, some n)
      → Follows m
          (some (joined x y))
          ((if not (eval u c y (some n)).0 then false else b), (eval u c y (some n)).1)
  unfolding keys value mentions
  joined-Follows m n none y b f =
      eval-Follows m n none y f.records b f.answer (some y) refl (λ k. refl)
  joined-Follows m n (some x) y b f =
      eval-Follows m n (some x) y f.records b f.answer (some (and x y)) refl (λ k. refl)

  build_line-Follows :
      (m : Keys) (line : Bytes) (x y : Option Expr) (st : Bool × Tags)
      → Follows m x st
      → constraint_line syntax line x ≡ ok y
      → Follows m y (build_line syntax u c line st)
  unfolding build_line constraint_line
  build_line-Follows m line x y (b, none) f e = cc f.is_map
  build_line-Follows m line x y (b, some n) f e = elim (Bool-cases (is_plus_line syntax line)) [
    | inl plus ↦ elim (Parsed-cases (syntax.parse line)) [
      | inl (w, read) ↦
          let made : some (joined x w) ≡ y = cc (rw (plus, read) at e) in
          rw (plus, read, ← made) (joined-Follows m n x w b f)
      | inr (message, read) ↦ cc (rw (plus, read) at e)
    ]
    | inr skip ↦ let same : x ≡ y = cc (rw skip at e) in rw (skip, ← same) f
  ]

  build_lines-Follows :
      (m : Keys) (ls : List Line) (x y : Option Expr) (st : Bool × Tags)
      → Follows m x st
      → constraint_lines syntax ls x ≡ ok y
      → Follows m y (build_lines syntax u c ls st)
  unfolding build_lines constraint_lines
  build_lines-Follows m [] x y st f e = let same : x ≡ y = cc e in rw (← same) f
  build_lines-Follows m (l ∷ ls) x y st f e =
      let (z, first, later) =
        >>=-eq-ok (constraint_line syntax (trim_space l.text) x) (constraint_lines syntax ls) e in
      build_lines-Follows m ls z y (build_line syntax u c (trim_space l.text) st)
        (build_line-Follows m (trim_space l.text) x z st f first) later

  pub record Agrees (m : Keys) (x : Option Expr) (r : Built) : Type 0 where
    pub answer : r.should_build ≡ eval_constraint u c (constraint x)
    pub records :
        (r.all_tags ≡ some (keys r.all_tags))
        × ((k : Bytes) → has (keys r.all_tags) k ≡ (has m k || mentions_any x k))

  Follows-Agrees :
      (m : Keys) (x : Option Expr) (st : Bool × Tags) (only : Bool)
      → Follows m x st
      → Agrees m x (record { should_build = st.0; binary_only = only; all_tags = st.1 })
  Follows-Agrees m x st only f = record {
    answer = f.answer ∙ sym (eval_constraint-holds u c x);
    records = (f.is_map, f.records);
  }

  build_header-Agrees :
      (h : Header) (m : Keys) (x : Option Expr)
      → header_constraint syntax h ≡ ok x
      → (r : Built) × (build_header syntax u c h (some m) ≡ ok r) × Agrees m x r
  unfolding build_header header_constraint
  build_header-Agrees h m x e = elim (Option-cases h.go_build) [
    | inl no_build ↦
        let start : Follows m none (true, some m) = record {
          answer = refl;
          is_map = unfold keys in refl;
          records = λ k. unfold keys in ground arith;
        } in
        let listed : constraint_lines syntax (lines h.trimmed) none ≡ ok x =
          ground (arith, no_build, e) in
        let f = build_lines-Follows m (lines h.trimmed) none x (true, some m) start listed in
        (_, ground (arith, no_build), Follows-Agrees m x _ h.binary_only f)
    | inr (line, build) ↦ elim (Parsed-cases (syntax.parse line)) [
      | inl (w, read) ↦
          let l = eval_lem u c w (some m) in
          let made : some w ≡ x = ground (arith, build, read, e) in
          (
            record {
              should_build = (eval u c w (some m)).0;
              binary_only = h.binary_only;
              all_tags = (eval u c w (some m)).1;
            },
            ground (arith, build, read),
            rw (← made) (record {
              answer = l.0 ∙ sym (eval_constraint-holds u c (some w));
              records = ((l.2 m []).0, λ k. (l.2 m k).1);
            }),
          )
      | inr (message, read) ↦ absurd (ground (arith, build, read, e))
    ]
  ]

  -- Where `parseBuildConstraint` returns a constraint, `shouldBuild` returns no error, its answer is
  -- what `Constraint.Eval` says of that constraint, and the map it was given then has the keys it had
  -- and the tags of the constraint.
  pub should_build-parse_build_constraint :
      (content : Bytes) (m : Keys) (x : Option Expr)
      → parse_build_constraint syntax content ≡ ok x
      → (r : Built) × (should_build syntax u c content (some m) ≡ ok r) × Agrees m x r
  unfolding should_build parse_build_constraint
  should_build-parse_build_constraint content m x e =
      let (h, read, made) = >>=-eq-ok (parse_file_header content) (header_constraint syntax) e in
      let (r, built, agrees) = build_header-Agrees h m x made in (r, rw read built, agrees)

  -- An error of `shouldBuild` is an error of `parseBuildConstraint` too.
  pub parse_build_constraint-error :
      (content : Bytes) (m : Tags) (x : Error)
      → should_build syntax u c content m ≡ err x
      → parse_build_constraint syntax content ≡ err x
  unfolding should_build parse_build_constraint build_header header_constraint
  parse_build_constraint-error content m x e = ground arith
