-- ===== src/Files/Agree.antt =====
-- `ParseConstraint` tells what `Include` and `MatchContext` do with the same file.
use buildutil.Base.{
  [], Bool, true, ◌&&◌, List, Option, none, some, Bytes, Keys, Result, ok, >>=-eq-ok, ◌≡◌, sym, ◌∙◌,
  arith,
}
use buildutil.Context.{Context, Toolchain}
use buildutil.Tags.{Expr}
use buildutil.FileName.{good_os_arch_file}
use buildutil.Build.{
  Syntax, should_build_only, parse_build_constraint, Constraint, constraint, eval_constraint,
}
use buildutil.Build.Agree.{should_build-parse_build_constraint}
use buildutil.Build.Observe.{should_build_only-answer}
use buildutil.Match.{matched}
use buildutil.Match.Run.{match_context}
use buildutil.Match.Answer.{match_context-should_build}
use buildutil.Paths.{Surroundings, fix_gopath}
use buildutil.Files.{File, read_data, include, parse_constraint, match_context_file}

module _ (syntax : Syntax) where
  eval_constraint-data :
      (u : Bool) (c : Context) (front : Bytes) (x : Option Expr)
      → parse_build_constraint syntax front ≡ ok x
      → should_build_only syntax u c front none ≡ eval_constraint u c (constraint x)
  eval_constraint-data u c front x read =
      let (r, built, agrees) = should_build-parse_build_constraint syntax u c front [] x read in
      should_build_only-answer syntax u c front (some []) none r built ∙ agrees.answer

  -- What `ParseConstraint` has read, for a result that is no error.
  parse_constraint-data :
      (opened : Result File) (k : Constraint)
      → parse_constraint syntax opened ≡ ok k
      → (front : Bytes) × (x : Option Expr) × (read_data opened ≡ ok front)
        × (parse_build_constraint syntax front ≡ ok x)
        × (constraint x ≡ k)
  unfolding parse_constraint
  parse_constraint-data opened k e =
      let (front, read, rest) = >>=-eq-ok (read_data opened) _ e in
      let (x, parsed, made) = >>=-eq-ok (parse_build_constraint syntax front) _ rest in
      (front, x, read, parsed, cc made)

  -- Where `ParseConstraint` returns a constraint, `Include` is true exactly if the file's name is good in
  -- the context and the constraint holds in it.
  pub include-parse_constraint :
      (u : Bool) (c : Context) (base : Bytes) (opened : Result File) (k : Constraint)
      → parse_constraint syntax opened ≡ ok k
      → include syntax u c base opened
        ≡ ((good_os_arch_file u c base none).0 && eval_constraint u c k)
  unfolding include
  include-parse_constraint u c base opened k e =
      let (front, x, read, parsed, made) = parse_constraint-data opened k e in
      let answer = eval_constraint-data u c front x parsed in
      rw (read, ← made) (ground (arith, answer))

  -- If `ParseConstraint` returns a constraint and `MatchContext` a context for the same file, then the
  -- constraint holds in that context.
  pub match_context_file-parse_constraint :
      (t : Toolchain) (range : Keys → List Bytes) (e : Surroundings) (orig d : Context)
      (dir base : Bytes) (opened : Result File) (k : Constraint)
      → parse_constraint syntax opened ≡ ok k
      → match_context_file syntax t range e orig dir base opened ≡ ok (matched d)
      → eval_constraint t.match_unix d k ≡ true
  unfolding match_context_file
  match_context_file-parse_constraint t range e orig d dir base opened k parsed_all found =
      let (front, x, read, parsed, made) = parse_constraint-data opened k parsed_all in
      let run : ok (match_context t syntax range (fix_gopath e dir) orig base front)
          ≡ ok (matched d) =
        rw read at found in
      let (builds, f) =
        match_context-should_build t syntax range (fix_gopath e dir) orig base front d none
          (cc run) in
      rw (← made) (sym (eval_constraint-data t.match_unix d front x parsed) ∙ builds)
