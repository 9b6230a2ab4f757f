-- ===== src/Match/Sound.antt =====
-- The phases of `MatchContext` on tags, and the search as a whole.
use buildutil.Base.{
  Bool, true, false, not, ◌&&◌, ◌||◌, List, [], ◌∷◌, ◌++◌, Option, none, some, if◌then◌else◌, Bytes,
  Keys, has, ◌≡◌, refl, Bool-cases, inl, inr, codes,
}
use buildutil.Context.{Context, Toolchain}
use buildutil.Platforms.{cgo_enabled}
use buildutil.Tags.{Expr, lookup_tag, is_go_experiment_tag, check_compiler}
use buildutil.Build.{Syntax}
use buildutil.Build.Agree.{holds}
use buildutil.Match.{
  compiler_error, CompilerError, Try, hit, miss, Outcome, matched, failed, match_context_error,
}
use buildutil.Match.Platform.{holds_in, try_eval}
use buildutil.Match.Choose.{
  adjust, set_experiment, set_experiments, set_build_tag, set_build_tags, quick_tags, after_quick,
  try_build_tags, external_tags, impossible_release, try_cgo,
}
use buildutil.Match.Search.{Required, try_systems}
use buildutil.Match.Run.{last_phases, compiler_check, fixed_phases, search_context}
use buildutil.Match.Frame.{Frame, frame_refl, frame_trans, Sound, try_eval-Sound, try_systems-Sound}

set_experiment-Frame : (x : Expr) (d : Context) (name : Bytes) → Frame d (set_experiment x d name)
unfolding set_experiment
set_experiment-Frame x d name =
    elim (Bool-cases (is_go_experiment_tag name && (lookup_tag x name).found)) [
      | inl e ↦ rw e (record { release_tags = refl; compiler = refl; goroot = refl; gopath = refl })
      | inr e ↦ rw e (frame_refl d)
    ]

set_experiments-Frame :
    (x : Expr) (names : List Bytes) (d : Context) → Frame d (set_experiments x names d)
unfolding set_experiments
set_experiments-Frame x [] d = frame_refl d
set_experiments-Frame x (name ∷ names) d =
    frame_trans (set_experiment-Frame x d name) (set_experiments-Frame x names _)

set_build_tag-Frame : (x : Expr) (d : Context) (name : Bytes) → Frame d (set_build_tag x d name)
unfolding set_build_tag
set_build_tag-Frame x d name = elim (Bool-cases (lookup_tag x name).found) [
  | inl e ↦ rw e (record { release_tags = refl; compiler = refl; goroot = refl; gopath = refl })
  | inr e ↦ rw e (frame_refl d)
]

set_build_tags-Frame :
    (x : Expr) (names : List Bytes) (d : Context) → Frame d (set_build_tags x names d)
unfolding set_build_tags
set_build_tags-Frame x [] d = frame_refl d
set_build_tags-Frame x (name ∷ names) d =
    frame_trans (set_build_tag-Frame x d name) (set_build_tags-Frame x names _)

module _ (u : Bool) (x : Expr) (c : Context) where
  with_tags :
      (d : Context) (tags : List Bytes) → Frame c d → Frame c (record d { build_tags = tags })
  with_tags d tags f = record {
    release_tags = f.release_tags;
    compiler = f.compiler;
    goroot = f.goroot;
    gopath = f.gopath;
  }

  quick_tags-Sound :
      (tags orig : List Bytes) (d : Context) → Frame c d → Sound u x c (quick_tags x u tags orig d)
  unfolding quick_tags
  quick_tags-Sound [] orig d f = with_tags d orig f
  quick_tags-Sound (tag ∷ tags) orig d f =
      let now = record d { build_tags = adjust (lookup_tag x tag) orig tag } in
      elim (Bool-cases (lookup_tag x tag).found) [
        | inl found ↦ elim (Bool-cases (holds_in u now x)) [
          | inl holds ↦ rw (found, holds) (holds, with_tags d _ f)
          | inr fails ↦ rw (found, fails) (quick_tags-Sound tags _ d f)
        ]
        | inr missing ↦ rw missing (quick_tags-Sound tags orig d f)
      ]

  after_quick-Sound :
      (tags saved : List Bytes) (r : Try)
      → Sound u x c r
      → Sound u x c (after_quick x u tags saved r)
  unfolding after_quick
  after_quick-Sound tags saved (hit d) s = s
  after_quick-Sound tags saved (miss d) f =
      try_eval-Sound u x c _ (frame_trans (with_tags d saved f) (set_build_tags-Frame x tags _))

  try_build_tags-Sound :
      (tags : List Bytes) (d : Context) → Frame c d → Sound u x c (try_build_tags x u tags d)
  unfolding try_build_tags
  try_build_tags-Sound [] d f = f
  try_build_tags-Sound (tag ∷ tags) d f =
      after_quick-Sound (tag ∷ tags) d.build_tags _ (quick_tags-Sound (tag ∷ tags) d.build_tags d f)

  try_cgo-Sound : (tags : Keys) (d : Context) → Frame c d → Sound u x c (try_cgo x u tags d)
  unfolding try_cgo
  try_cgo-Sound tags d f =
      let toggled = record d { cgo_enabled = not d.cgo_enabled } in
      let may =
        has tags (codes "cgo")
        && (d.cgo_enabled || has cgo_enabled (d.goos ++ (b'/' ∷ d.goarch))) in
      elim (Bool-cases may) [
        | inl wanted ↦ elim (Bool-cases (holds_in u toggled x)) [
          | inl holds ↦
              rw (wanted, holds)
                (
                  holds,
                  record {
                    release_tags = f.release_tags;
                    compiler = f.compiler;
                    goroot = f.goroot;
                    gopath = f.gopath;
                  },
                )
          | inr fails ↦ rw (wanted, fails) f
        ]
        | inr unwanted ↦ rw unwanted f
      ]

  abbrev pub OutcomeSound : Outcome → Type 0
  OutcomeSound (matched d) = (holds_in u d x ≡ true) × Frame c d
  OutcomeSound (failed p r) = Unit

  -- A phase, and what follows where it misses.
  then-Sound :
      (r : Try) (next : Context → Outcome)
      → Sound u x c r
      → ((d : Context) → Frame c d → OutcomeSound (next d))
      → OutcomeSound (elim r [ hit d ↦ matched d | miss d ↦ next d ])
  then-Sound (hit d) next s n = s
  then-Sound (miss d) next f n = n d f

  if-OutcomeSound :
      (b : Bool) (r s : Outcome)
      → OutcomeSound r
      → OutcomeSound s
      → OutcomeSound (if b then r else s)
  if-OutcomeSound true r s h k = h
  if-OutcomeSound false r s h k = k

  check-OutcomeSound :
      (e : Option CompilerError) (next : Outcome)
      → OutcomeSound next
      → OutcomeSound (elim e [ none ↦ next | some k ↦ failed true (compiler_error k) ])
  check-OutcomeSound none next n = n
  check-OutcomeSound (some k) next n = tt

module _ (t : Toolchain) (syntax : Syntax) (range : Keys → List Bytes)
    (fix_gopath : Context → Option Bytes) where
  module _ (x : Expr) (q : Required) (tags : Keys) (c : Context) where
    last_phases-Sound :
        (d : Context)
        → Frame c d
        → OutcomeSound t.match_unix x c (last_phases t syntax range fix_gopath x q tags d)
    unfolding last_phases
    last_phases-Sound d f =
        then-Sound t.match_unix x c (try_cgo x t.match_unix tags d) _
          (try_cgo-Sound t.match_unix x c tags d f)
          (λ e g.
            then-Sound t.match_unix x c (try_systems t.match_unix t x q tags e)
              (λ d'. failed false match_context_error)
              (try_systems-Sound t.match_unix x c t q tags e g) (λ e' g'. tt))

    fixed_phases-Sound :
        (d : Context)
        → Frame c d
        → OutcomeSound t.match_unix x c (fixed_phases t syntax range fix_gopath x q tags d)
    unfolding fixed_phases
    fixed_phases-Sound d f =
        let last = last_phases t syntax range fix_gopath x q tags d in
        let s = last_phases-Sound d f in
        if-OutcomeSound t.match_unix x c (impossible_release x t d (range tags)) _
          (compiler_check t syntax range fix_gopath x tags d last) tt
          (if-OutcomeSound t.match_unix x c (has tags (codes "gc") || has tags (codes "gccgo")) _
            last (check-OutcomeSound t.match_unix x c (check_compiler d x) last s) s)

    pub search_context-Sound :
        OutcomeSound t.match_unix x c (search_context t syntax range fix_gopath x q tags c)
    unfolding search_context
    search_context-Sound =
        then-Sound t.match_unix x c (try_eval t.match_unix x (set_experiments x (range tags) c)) _
          (try_eval-Sound t.match_unix x c _ (set_experiments-Frame x (range tags) c))
          (λ d f.
            then-Sound t.match_unix x c
              (try_build_tags x t.match_unix (external_tags x t d (range tags)) d) _
              (try_build_tags-Sound t.match_unix x c (external_tags x t d (range tags)) d f)
              (λ e g. fixed_phases-Sound e g))
