-- ===== src/Match/Choice/Error.antt =====
-- The error that `MatchContext` of match.go returns at its end.
use buildutil.Base.{
  ◌≢◌, false, List, [], Option, none, some, Bytes, Keys, arith, ◌≡◌, refl, sym, ◌∙◌, ◌⊎◌,
  Bool-cases, inl, inr, ok,
}
use buildutil.Context.{Context, Toolchain}
use buildutil.Tags.{Expr, Tags}
use buildutil.Tags.Eval.{keys, eval_lem}
use buildutil.Build.{Syntax, Built, should_build, should_build_only, parse_build_constraint}
use buildutil.Build.Agree.{should_build-parse_build_constraint, eval_constraint-holds}
use buildutil.Build.Observe.{should_build_only-answer}
use buildutil.Match.{Try, hit, miss, failed, match_context_error}
use buildutil.Match.Platform.{holds_in, try_eval}
use buildutil.Match.Choose.{set_experiments, external_tags, try_build_tags, try_cgo}
use buildutil.Match.Search.{Required, try_systems}
use buildutil.Match.Choice.{Choice}
use buildutil.Match.Choice.Found.{try_systems-finds}
use buildutil.Match.Run.{
  search_context, fixed_phases, compiler_check, last_phases, after_build, pinned_context,
  match_context,
}

-- The context that a phase hands on.
abbrev pub reached : Try → Context
reached (hit c) = c
reached (miss c) = c

-- The context that the last phase starts from, where the phases on tags and cgo have found nothing.
abbrev pub last_context : Toolchain → (Keys → List Bytes) → Expr → Keys → Context → Context
last_context t range x tags c =
    let u = t.match_unix in
    let d = reached (try_eval u x (set_experiments x (range tags) c)) in
    let e = reached (try_build_tags x u (external_tags x t d (range tags)) d) in
    reached (try_cgo x u tags e)

Try-cases : (r : Try) → ((d : Context) × (r ≡ hit d)) ⊎ (r ≡ miss (reached r))
Try-cases (hit d) = inl (d, refl)
Try-cases (miss d) = inr refl

module _ (t : Toolchain) (syntax : Syntax) (range : Keys → List Bytes)
    (fix_gopath : Context → Option Bytes) where
  last_phases-error :
      (x : Expr) (q : Required) (tags : Keys) (c d : Context)
      → try_systems t.match_unix t x q tags (reached (try_cgo x t.match_unix tags c)) ≡ hit d
      → last_phases t syntax range fix_gopath x q tags c ≢ failed false match_context_error
  unfolding last_phases
  last_phases-error x q tags c d h e = elim (Try-cases (try_cgo x t.match_unix tags c)) [
    | inl (b, found) ↦ ground (arith, found, e)
    | inr missed ↦ ground (arith, missed, h, e)
  ]

  fixed_phases-error :
      (x : Expr) (q : Required) (tags : Keys) (c d : Context)
      → try_systems t.match_unix t x q tags (reached (try_cgo x t.match_unix tags c)) ≡ hit d
      → fixed_phases t syntax range fix_gopath x q tags c ≢ failed false match_context_error
  unfolding fixed_phases compiler_check
  fixed_phases-error x q tags c d h e = ground (arith, last_phases-error x q tags c d h)

  search_context-error :
      (x : Expr) (q : Required) (tags : Keys) (c d : Context)
      → try_systems t.match_unix t x q tags (last_context t range x tags c) ≡ hit d
      → search_context t syntax range fix_gopath x q tags c ≢ failed false match_context_error
  unfolding search_context
  search_context-error x q tags c d h e =
      let u = t.match_unix in
      let first = try_eval u x (set_experiments x (range tags) c) in
      let now = reached first in
      let second = try_build_tags x u (external_tags x t now (range tags)) now in
      elim (Try-cases first) [
        | inl (b, found) ↦ ground (arith, found, e)
        | inr missed ↦ elim (Try-cases second) [
          | inl (b, found) ↦ ground (arith, missed, found, e)
          | inr missed_too ↦
              fixed_phases-error x q tags (reached second) d h
                (ground (arith, missed, missed_too, e))
        ]
      ]

  after_build-search :
      (content : Bytes) (q : Required) (c : Context) (r : Built) (x : Expr)
      → parse_build_constraint syntax content ≡ ok (some x)
      → after_build t syntax range fix_gopath content q c r ≡ failed false match_context_error
      → search_context t syntax range fix_gopath x q (keys r.all_tags) c
        ≡ failed false match_context_error
  unfolding after_build
  after_build-search content q c r x read e = ground (arith, read, e)

  match_context-search :
      (orig : Context) (base content : Bytes) (r : Built) (x : Expr)
      → let s = pinned_context t syntax range fix_gopath orig base in
        parse_build_constraint syntax content ≡ ok (some x)
        → should_build syntax t.match_unix s.ctxt content (some s.tags) ≡ ok r
        → match_context t syntax range fix_gopath orig base content
          ≡ failed false match_context_error
        → search_context t syntax range fix_gopath x s.required (keys r.all_tags) s.ctxt
          ≡ failed false match_context_error
  unfolding match_context
  match_context-search orig base content r x read built e =
      let s = pinned_context t syntax range fix_gopath orig base in
      after_build-search content s.required s.ctxt r x read (ground (arith, built, e))

  should_build_only-holds_in :
      (content : Bytes) (x : Expr) (c : Context) (m : Tags)
      → parse_build_constraint syntax content ≡ ok (some x)
      → should_build_only syntax t.match_unix c content m ≡ holds_in t.match_unix c x
  should_build_only-holds_in content x c m read =
      let (r, built, agrees) =
        should_build-parse_build_constraint syntax t.match_unix c content [] (some x) read in
      should_build_only-answer syntax t.match_unix c content (some []) m r built
      ∙ agrees.answer
      ∙ eval_constraint-holds t.match_unix c (some x)
      ∙ sym ((eval_lem t.match_unix c x none).0)

  -- Where `MatchContext` ends with its last error, no context that its last phase may choose, from the
  -- one that the phases before have reached, accepts the content of the file.
  pub match_context-error :
      (orig : Context) (base content : Bytes) (m : Tags) (r : Built) (x : Expr) (f : Context)
      → let s = pinned_context t syntax range fix_gopath orig base in
        parse_build_constraint syntax content ≡ ok (some x)
        → should_build syntax t.match_unix s.ctxt content (some s.tags) ≡ ok r
        → match_context t syntax range fix_gopath orig base content
          ≡ failed false match_context_error
        → Choice t s.required (keys r.all_tags) (last_context t range x (keys r.all_tags) s.ctxt) f
        → should_build_only syntax t.match_unix f content m ≡ false
  match_context-error orig base content m r x f read built e chosen =
      let s = pinned_context t syntax range fix_gopath orig base in
      let tags = keys r.all_tags in
      let u = t.match_unix in
      elim (Bool-cases (holds_in u f x)) [
        | inr fails ↦ should_build_only-holds_in content x f m read ∙ fails
        | inl holds ↦
            let (d, found, chosen_too, fits) =
              try_systems-finds u t x s.required tags (last_context t range x tags s.ctxt) f chosen
                holds in
            absurd (
              search_context-error x s.required tags s.ctxt d found
                (match_context-search orig base content r x read built e))
      ]
