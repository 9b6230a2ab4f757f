-- ===== src/Match/Run.antt =====
-- `MatchContext` of match.go, from the data that `readImportsFast` has read on.
use buildutil.Base.{
  Bool, true, false, not, ◌&&◌, ◌||◌, List, [], ◌∷◌, Option, none, some, if◌then◌else◌, Bytes, Keys,
  has, put, delete, codes, same, is_empty, Result, ok, err,
}
use buildutil.Context.{Context, Toolchain}
use buildutil.Syslist.{known_os, known_arch}
use buildutil.Tags.{Expr, check_compiler}
use buildutil.Tags.Eval.{keys}
use buildutil.FileName.{good_os_arch_file}
use buildutil.Build.{Syntax, Built, should_build, parse_build_constraint}
use buildutil.Util.Copy.{copy_context}
use buildutil.Match.{
  hit, miss, build_error, nil_build_constraint, no_build_tags, impossible_go_version,
  compiler_error, match_context_error, Outcome, matched, failed,
}
use buildutil.Match.Platform.{find_supported_arch, find_supported_os, try_eval}
use buildutil.Match.Choose.{
  set_experiments, external_tags, try_build_tags, impossible_release, try_cgo,
}
use buildutil.Match.Search.{Required, try_systems}

abbrev or_default : Bytes → Bytes → Bytes
or_default s d = if is_empty s then d else s

-- `compatibleOSes`, with no system for a missing key.
unfoldable pub compatible_oses : Bytes → List Bytes
compatible_oses os =
    if same os (codes "android")
    then codes "linux" ∷ []
    else if same os (codes "illumos")
    then codes "solaris" ∷ []
    else if same os (codes "ios")
    then codes "darwin" ∷ []
    else []

-- The variables that the loop over the tags of the file's name writes.
pub record Pinned : Type 0 where
  pub ctxt : Context
  pub required : Required
  pub tags : Keys

-- One round of that loop.
unfoldable pub pin : Pinned → Bytes → Pinned
pin s tag =
    if has known_os tag
    then record {
      ctxt = record s.ctxt { goos = tag };
      required = record s.required { os = some (tag ∷ []) };
      tags = delete tag s.tags;
    }
    else if has known_arch tag
    then record {
      ctxt = record s.ctxt { goarch = tag };
      required = record s.required { arch = tag };
      tags = delete tag s.tags;
    }
    else s

unfoldable pub pin_all : List Bytes → Pinned → Pinned
pin_all [] s = s
pin_all (tag ∷ names) s = pin_all names (pin s tag)

put_all : List Bytes → Keys → Keys
put_all [] m = m
put_all (s ∷ l) m = put_all l (put s m)

-- "Update the requiredOS map with any compatible OSes."
unfoldable pub add_compatible : Pinned → Pinned
unfolding put_all compatible_oses
add_compatible s = elim s.required.os [
  | none ↦ s
  | some m ↦ record s {
    required = record (s.required) { os = some (put_all (compatible_oses s.ctxt.goos) m) };
  }
]

abbrev pub with_arch : Context → Bytes × Bool → Context
with_arch c (arch, found) = if found then record c { goarch = arch } else c

abbrev pub with_os : Context → Bytes × Bool → Context
with_os c (os, found) = if found then record c { goos = os } else c

abbrev pub is_nil : Option Keys → Bool
is_nil none = true
is_nil (some m) = false

-- The switch that makes the system and the architecture a valid pair.
unfoldable pub make_valid : Toolchain → Required → Context → Context
make_valid t q c =
    if not (is_nil q.os) && is_empty q.arch
    then with_arch c (find_supported_arch t c)
    else if not (is_empty q.arch) && is_nil q.os
    then with_os c (find_supported_os t c)
    else c

-- `range` is the order in which a `range` statement runs over a map, `fix_gopath` is `fixGOPATH` on the
-- file's name.
module _ (t : Toolchain) (syntax : Syntax) (range : Keys → List Bytes)
    (fix_gopath : Context → Option Bytes) where
  -- The copy of the context, with its empty fields set.
  unfoldable pub init_context : Context → Context
  init_context orig =
      let c = copy_context orig in
      let d = record c {
        goarch = or_default c.goarch t.goarch;
        goos = or_default c.goos t.goos;
        goroot = or_default c.goroot t.goroot;
        compiler = or_default c.compiler t.compiler;
      } in
      elim (fix_gopath d) [ none ↦ d | some path ↦ record d { gopath = path } ]

  -- What the file's name asks for.
  unfoldable pub pin_name : Context → Bytes → Pinned
  pin_name c base =
      let (good, seen) = good_os_arch_file t.match_unix c base (some []) in
      let start : Pinned = record {
        ctxt = c;
        required = record { os = none; arch = [] };
        tags = keys seen;
      } in
      if not good then pin_all (range (keys seen)) start else start

  -- What stands behind `checkCompiler`, up to the end.
  unfoldable pub last_phases : Expr → Required → Keys → Context → Outcome
  last_phases x q tags c = elim (try_cgo x t.match_unix tags c) [
    | hit d ↦ matched d
    | miss d ↦ elim (try_systems t.match_unix t x q tags d) [
      | hit d' ↦ matched d'
      | miss d' ↦ failed false match_context_error
    ]
  ]

  unfoldable pub compiler_check : Expr → Keys → Context → Outcome → Outcome
  compiler_check x tags c next =
      if has tags (codes "gc") || has tags (codes "gccgo")
      then elim (check_compiler c x) [ none ↦ next | some e ↦ failed true (compiler_error e) ]
      else next

  -- The two checks for what cannot be changed, and what follows them.
  unfoldable pub fixed_phases : Expr → Required → Keys → Context → Outcome
  unfolding compiler_check
  fixed_phases x q tags c =
      if impossible_release x t c (range tags)
      then failed true impossible_go_version
      else compiler_check x tags c (last_phases x q tags c)

  -- The search for a context in which the expression holds.
  unfoldable pub search_context : Expr → Required → Keys → Context → Outcome
  search_context x q tags c = elim (try_eval t.match_unix x (set_experiments x (range tags) c)) [
    | hit d ↦ matched d
    | miss d ↦ elim (try_build_tags x t.match_unix (external_tags x t d (range tags)) d) [
      | hit d' ↦ matched d'
      | miss d' ↦ fixed_phases x q tags d'
    ]
  ]

  -- What follows `shouldBuild`, which has answered with `r`.
  unfoldable pub after_build : Bytes → Required → Context → Built → Outcome
  after_build content q c r =
      if r.should_build then matched c else elim (parse_build_constraint syntax content) [
        | err e ↦ failed false (build_error e)
        | ok none ↦ failed false nil_build_constraint
        | ok (some x) ↦
            if is_empty (keys r.all_tags)
            then failed false no_build_tags
            else search_context x q (keys r.all_tags) c
      ]

  -- The context that the file's name asks for, and what it requires.
  unfoldable pub pinned_context : Context → Bytes → Pinned
  unfolding pin_name add_compatible make_valid
  pinned_context orig base =
      let s = add_compatible (pin_name (init_context orig) base) in
      record s { ctxt = make_valid t s.required s.ctxt }

  -- What follows the call of `shouldBuild`.
  abbrev pub on_built : Bytes → Pinned → Result Built → Outcome
  on_built content s (err e) = failed false (build_error e)
  on_built content s (ok r) = after_build content s.required s.ctxt r

  -- `MatchContext`: `base` is the base of the file's name, and `content` what has been read of the file.
  unfoldable pub match_context : Context → Bytes → Bytes → Outcome
  match_context orig base content =
      let s = pinned_context orig base in
      on_built content s (should_build syntax t.match_unix s.ctxt content (some s.tags))
