-- ===== src/Match/Answer.antt =====
-- A context that `MatchContext` returns builds the file.
use buildutil.Base.{
  Bool, true, false, not, ◌&&◌, List, [], ◌∷◌, Option, none, some, if◌then◌else◌, Bytes, Keys, has,
  arith, ◌≡◌, refl, sym, ◌∙◌, Bool-cases, inl, inr, is_empty, Result, ok, err, Result-cases,
}
use buildutil.Context.{Context, Toolchain}
use buildutil.Syslist.{known_os, known_arch}
use buildutil.Tags.{Expr, Tags}
use buildutil.Tags.Eval.{keys, eval_lem}
use buildutil.FileName.{good_os_arch_file}
use buildutil.Build.{Syntax, Built, should_build, should_build_only, parse_build_constraint}
use buildutil.Build.Agree.{should_build-parse_build_constraint, eval_constraint-holds}
use buildutil.Build.Observe.{should_build_only-answer}
use buildutil.Match.{Outcome, matched, failed}
use buildutil.Match.Platform.{holds_in, find_supported_arch, find_supported_os}
use buildutil.Match.Search.{Required}
use buildutil.Match.Run.{
  Pinned, pin, pin_all, add_compatible, with_arch, with_os, make_valid, is_nil, init_context,
  pin_name, search_context, after_build, on_built, pinned_context, match_context,
}
use buildutil.Match.Sound.{OutcomeSound, search_context-Sound}
use buildutil.Match.Frame.{Frame, frame_refl, frame_trans}

pin-Frame : (s : Pinned) (tag : Bytes) → Frame s.ctxt (pin s tag).ctxt
unfolding pin
pin-Frame s tag = elim (Bool-cases (has known_os tag)) [
  | inl os ↦ rw os (record { release_tags = refl; compiler = refl; goroot = refl; gopath = refl })
  | inr other ↦ elim (Bool-cases (has known_arch tag)) [
    | inl arch ↦
        rw (other, arch)
          (record { release_tags = refl; compiler = refl; goroot = refl; gopath = refl })
    | inr no_arch ↦ rw (other, no_arch) (frame_refl s.ctxt)
  ]
]

pin_all-Frame : (l : List Bytes) (s : Pinned) → Frame s.ctxt (pin_all l s).ctxt
unfolding pin_all
pin_all-Frame [] s = frame_refl s.ctxt
pin_all-Frame (tag ∷ l) s = frame_trans (pin-Frame s tag) (pin_all-Frame l (pin s tag))

with_arch-Frame : (c : Context) (r : Bytes × Bool) → Frame c (with_arch c r)
with_arch-Frame c (arch, true) = record {
  release_tags = refl;
  compiler = refl;
  goroot = refl;
  gopath = refl;
}
with_arch-Frame c (arch, false) = frame_refl c

with_os-Frame : (c : Context) (r : Bytes × Bool) → Frame c (with_os c r)
with_os-Frame c (os, true) = record {
  release_tags = refl;
  compiler = refl;
  goroot = refl;
  gopath = refl;
}
with_os-Frame c (os, false) = frame_refl c

if-Frame :
    (c : Context) (b : Bool) (d e : Context) → Frame c d → Frame c e → Frame c (if b then d else e)
if-Frame c true d e f g = f
if-Frame c false d e f g = g

make_valid-Frame : (t : Toolchain) (q : Required) (c : Context) → Frame c (make_valid t q c)
unfolding make_valid
make_valid-Frame t q c =
    let arches = with_arch c (find_supported_arch t c) in
    let oses = with_os c (find_supported_os t c) in
    if-Frame c (not (is_nil q.os) && is_empty q.arch) arches
      (if not (is_empty q.arch) && is_nil q.os then oses else c)
      (with_arch-Frame c (find_supported_arch t c))
      (if-Frame c (not (is_empty q.arch) && is_nil q.os) oses c
        (with_os-Frame c (find_supported_os t c)) (frame_refl c))

add_compatible-ctxt : (s : Pinned) → (add_compatible s).ctxt ≡ s.ctxt
unfolding add_compatible
add_compatible-ctxt s = ground arith

module _ (t : Toolchain) (syntax : Syntax) (range : Keys → List Bytes)
    (fix_gopath : Context → Option Bytes) where
  pin_name-Frame :
      (c : Context) (base : Bytes) → Frame c (pin_name t syntax range fix_gopath c base).ctxt
  unfolding pin_name
  pin_name-Frame c base =
      let r = good_os_arch_file t.match_unix c base (some []) in
      let start : Pinned = record {
        ctxt = c;
        required = record { os = none; arch = [] };
        tags = keys r.1;
      } in
      elim (Bool-cases r.0) [
        | inl good ↦ rw good (frame_refl c)
        | inr bad ↦ rw bad (pin_all-Frame (range (keys r.1)) start)
      ]

  pinned_context-Frame :
      (orig : Context) (base : Bytes)
      → Frame
          (init_context t syntax range fix_gopath orig)
          (pinned_context t syntax range fix_gopath orig base).ctxt
  unfolding pinned_context
  pinned_context-Frame orig base =
      let c = init_context t syntax range fix_gopath orig in
      let s = add_compatible (pin_name t syntax range fix_gopath c base) in
      frame_trans
        (rw (add_compatible-ctxt (pin_name t syntax range fix_gopath c base))
          (pin_name-Frame c base))
        (make_valid-Frame t s.required s.ctxt)

  -- A constraint that holds in a context is one that `shouldBuildOnly` accepts.
  should_build-holds_in :
      (content : Bytes) (x : Expr) (c : Context) (m : Tags)
      → parse_build_constraint syntax content ≡ ok (some x)
      → holds_in t.match_unix c x ≡ true
      → should_build_only syntax t.match_unix c content m ≡ true
  should_build-holds_in content x c m read holds_now =
      let (r, built, agrees) =
        should_build-parse_build_constraint syntax t.match_unix c content [] (some x) read in
      should_build_only-answer syntax t.match_unix c content (some []) m r built
      ∙ agrees.answer
      ∙ eval_constraint-holds t.match_unix c (some x)
      ∙ sym ((eval_lem t.match_unix c x none).0)
      ∙ holds_now

  -- What a result of `MatchContext` promises about the content that was read, and about the context
  -- that it started from.
  abbrev Promise : Context → Bytes → Tags → Outcome → Type 0
  Promise c content m (matched d) =
      (should_build_only syntax t.match_unix d content m ≡ true) × Frame c d
  Promise c content m (failed p r) = Unit

  search_context-Promise :
      (x : Expr) (q : Required) (tags : Keys) (c : Context) (content : Bytes) (m : Tags)
      → parse_build_constraint syntax content ≡ ok (some x)
      → Promise c content m (search_context t syntax range fix_gopath x q tags c)
  search_context-Promise x q tags c content m read =
      promise (search_context t syntax range fix_gopath x q tags c)
        (search_context-Sound t syntax range fix_gopath x q tags c)
    where
      promise : (o : Outcome) → OutcomeSound t.match_unix x c o → Promise c content m o
      promise (matched d) (holds_now, f) = (should_build-holds_in content x d m read holds_now, f)
      promise (failed p r) s = tt

  after_build-Promise :
      (content : Bytes) (q : Required) (c : Context) (r : Built) (m n : Tags)
      → should_build syntax t.match_unix c content n ≡ ok r
      → Promise c content m (after_build t syntax range fix_gopath content q c r)
  unfolding after_build
  after_build-Promise content q c r m n built = elim (Bool-cases r.should_build) [
    | inl builds ↦
        rw builds (
          should_build_only-answer syntax t.match_unix c content n m r built ∙ builds,
          frame_refl c,
        )
    | inr no_build ↦ elim (Result-cases (parse_build_constraint syntax content)) [
      | inl (none, read) ↦ rw (no_build, read) tt
      | inl (some x, read) ↦ elim (Bool-cases (is_empty (keys r.all_tags))) [
        | inl no_tags ↦ rw (no_build, read, no_tags) tt
        | inr tags ↦
            rw (no_build, read, tags)
              (search_context-Promise x q (keys r.all_tags) c content m read)
      ]
      | inr (e, read) ↦ rw (no_build, read) tt
    ]
  ]

  on_built-Promise :
      (content : Bytes) (s : Pinned) (m : Tags) (r : Result Built)
      → should_build syntax t.match_unix s.ctxt content (some s.tags) ≡ r
      → Promise s.ctxt content m (on_built t syntax range fix_gopath content s r)
  on_built-Promise content s m (ok r) e =
      after_build-Promise content s.required s.ctxt r m (some s.tags) e
  on_built-Promise content s m (err x) e = tt

  -- If `MatchContext` returns a context, then `shouldBuildOnly` accepts the file's content in that context,
  -- with any map of tags. The context has the release tags, the compiler, the GOROOT and the GOPATH that
  -- the copy of the given one had after its empty fields were set.
  pub match_context-should_build :
      (orig : Context) (base content : Bytes) (d : Context) (m : Tags)
      → match_context t syntax range fix_gopath orig base content ≡ matched d
      → (should_build_only syntax t.match_unix d content m ≡ true)
        × Frame (init_context t syntax range fix_gopath orig) d
  unfolding match_context
  match_context-should_build orig base content d m e =
      let s = pinned_context t syntax range fix_gopath orig base in
      let (builds, f) = rw e at (on_built-Promise content s m _ refl) in
      (builds, frame_trans (pinned_context-Frame orig base) f)
