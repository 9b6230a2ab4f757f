-- ===== src/Build.antt =====
-- `shouldBuild`, `parseBuildConstraint` and the type `Constraint` of buildutil.go, over the functions
-- `constraint.IsPlusBuild` and `constraint.Parse` of go/build/constraint.
pub mod Agree
pub mod Observe
pub mod Front
use buildutil.Base.{
  Keys, is_empty, ◌≡◌, refl, ◌⊎◌, inl, inr, ℕ, Bool, true, false, not, ◌&&◌, ◌||◌, List, [], ◌∷◌,
  ◌++◌, Option, none, some, if◌then◌else◌, codes, Bytes, same, cut, has_prefix, strip, Result, ok,
  err, ◌>>=◌, parsing_go_build, constraint_error,
}
use buildutil.Context.{Context}
use buildutil.Tags.{Expr, and, Tags, eval}
use buildutil.Header.{slash_slash, Header, parse_file_header}
use buildutil.Header.Space.{trim_space}
use buildutil.Header.Lines.{Line, lines}

-- What `constraint.Parse` returns: an expression, or an error with its message.
pub data Parsed : Type 0 where
  parsed : Expr → Parsed
  invalid : Bytes → Parsed

pub Parsed-cases : (p : Parsed) → ((x : Expr) × (p ≡ parsed x)) ⊎ ((s : Bytes) × (p ≡ invalid s))
Parsed-cases (parsed x) = inl (x, refl)
Parsed-cases (invalid s) = inr (s, refl)

-- The functions of go/build/constraint that the source calls.
pub record Syntax : Type 0 where
  pub parse : Bytes → Parsed
  pub is_plus_build : Bytes → Bool

-- `bytes.Contains`
contains : Bytes → Bytes → Bool
contains s sep = elim (cut sep s) [ none ↦ false | some parts ↦ true ]

-- The results of `shouldBuild`, and the map that it has written to.
pub record Built : Type 0 where
  pub should_build : Bool
  pub binary_only : Bool
  pub all_tags : Tags

-- `y`, behind the expression so far, if there is one.
abbrev pub joined : Option Expr → Expr → Expr
joined none y = y
joined (some x) y = and x y

module _ (syntax : Syntax) where
  -- The two tests by which the loops over lines skip a line, which is trimmed.
  unfoldable pub is_plus_line : Bytes → Bool
  unfolding contains
  is_plus_line line =
      if not (has_prefix line slash_slash) || not (contains line (codes "+build"))
      then false
      else syntax.is_plus_build line

  -- One round of the loop of `shouldBuild`.
  unfoldable pub build_line : Bool → Context → Bytes → Bool × Tags → Bool × Tags
  build_line u c line (b, m) =
      if not (is_plus_line line) then (b, m) else elim (syntax.parse line) [
        | invalid message ↦ (b, m)
        | parsed x ↦ let (r, n) = eval u c x m in (if not r then false else b, n)
      ]

  unfoldable pub build_lines : Bool → Context → List Line → Bool × Tags → Bool × Tags
  build_lines u c [] st = st
  build_lines u c (l ∷ ls) st = build_lines u c ls (build_line u c (trim_space l.text) st)

  -- `shouldBuild`, behind `parseFileHeader`.
  unfoldable pub build_header : Bool → Context → Header → Tags → Result Built
  build_header u c h m = elim h.go_build [
    | some line ↦ elim (syntax.parse line) [
      | invalid message ↦ err (parsing_go_build message)
      | parsed x ↦
          let (b, n) = eval u c x m in
          ok (record { should_build = b; binary_only = h.binary_only; all_tags = n })
    ]
    | none ↦
        let (b, n) = build_lines u c (lines h.trimmed) (true, m) in
        ok (record { should_build = b; binary_only = h.binary_only; all_tags = n })
  ]

  -- `shouldBuild`
  unfoldable pub should_build : Bool → Context → Bytes → Tags → Result Built
  should_build u c content m = parse_file_header content >>= λ h. build_header u c h m

  -- `shouldBuildOnly`: the first result, which is false beside an error.
  unfoldable pub should_build_only : Bool → Context → Bytes → Tags → Bool
  should_build_only u c content m = elim (should_build u c content m) [
    | ok r ↦ r.should_build
    | err e ↦ false
  ]

  -- One round of the loop of `parseBuildConstraint`; `none` is the nil expression.
  unfoldable pub constraint_line : Bytes → Option Expr → Result (Option Expr)
  constraint_line line x = if not (is_plus_line line) then ok x else elim (syntax.parse line) [
    | invalid message ↦ err (constraint_error message)
    | parsed y ↦ ok (some (joined x y))
  ]

  unfoldable pub constraint_lines : List Line → Option Expr → Result (Option Expr)
  constraint_lines [] x = ok x
  constraint_lines (l ∷ ls) x = constraint_line (trim_space l.text) x >>= constraint_lines ls

  unfoldable pub header_constraint : Header → Result (Option Expr)
  header_constraint h = elim h.go_build [
    | some line ↦ elim (syntax.parse line) [
      | invalid message ↦ err (parsing_go_build message)
      | parsed x ↦ ok (some x)
    ]
    | none ↦ constraint_lines (lines h.trimmed) none
  ]

  -- `parseBuildConstraint`
  unfoldable pub parse_build_constraint : Bytes → Result (Option Expr)
  parse_build_constraint content = parse_file_header content >>= header_constraint

-- A `*Constraint`: nil, or the struct with its field `expr`, which may be nil.
pub data Constraint : Type 0 where
  nil_constraint : Constraint
  constraint : Option Expr → Constraint

-- `NewConstraint`
unfoldable pub new_constraint : Option Expr → Keys → Constraint
new_constraint none tags = if is_empty tags then constraint none else constraint none
new_constraint (some x) tags = constraint (some x)

-- `Constraint.Empty`
unfoldable pub is_empty_constraint : Constraint → Bool
is_empty_constraint nil_constraint = true
is_empty_constraint (constraint none) = true
is_empty_constraint (constraint (some x)) = false

-- `Constraint.Expr`
unfoldable pub constraint_expr : Constraint → Option Expr
constraint_expr nil_constraint = none
constraint_expr (constraint x) = if is_empty_constraint (constraint x) then none else x

eval_expr : Bool → Context → Option Expr → Bool
eval_expr u c none = false
eval_expr u c (some x) = (eval u c x none).0

-- `Constraint.Eval`; the source does not evaluate a nil expression.
unfoldable pub eval_constraint : Bool → Context → Constraint → Bool
unfolding is_empty_constraint constraint_expr eval_expr
eval_constraint u c k = is_empty_constraint k || eval_expr u c (constraint_expr k)
