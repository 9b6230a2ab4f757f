-- ===== src/Tags.antt =====
-- Build tags: the expressions of go/build/constraint, `matchTag` and `eval` of buildutil.go, and
-- `lookupTag`, `checkCompiler` and `isInternalTag` of match.go. Tags/Eval and Tags/Polarity prove them.
pub mod Eval
pub mod Polarity
use buildutil.Base.{
  ℕ, Bool, true, false, not, ◌&&◌, ◌||◌, List, [], ◌∷◌, ◌++◌, Option, none, some, if◌then◌else◌,
  leb, ◌==◌, codes, Bytes, same, has, put, has_prefix, strip, drop, Keys, is_empty,
}
use buildutil.Context.{Context, Toolchain}
use buildutil.Syslist.{known_os, known_arch, unix_os}
use buildutil.Util.{strings_contains}

-- `constraint.Expr`, with its four kinds of node.
pub data Expr : Type 0 where
  tag : Bytes → Expr
  neg : Expr → Expr
  and : Expr → Expr → Expr
  or : Expr → Expr → Expr

-- The map `allTags`, which may be nil.
abbrev pub Tags : Type 0
Tags = Option Keys

-- `if allTags != nil { allTags[name] = true }`
unfoldable pub note : Bytes → Tags → Tags
note name none = none
note name (some m) = some (put name m)

-- What `matchTag` returns; `u` is the constant `matchUnixAndBoringCrypto`.
unfoldable pub match_name : Bool → Context → Bytes → Bool
match_name u c name =
    if c.cgo_enabled && same name (codes "cgo")
    then true
    else if same name c.goos || same name c.goarch || same name c.compiler
    then true
    else if same c.goos (codes "android") && same name (codes "linux")
    then true
    else if same c.goos (codes "illumos") && same name (codes "solaris")
    then true
    else if same c.goos (codes "ios") && same name (codes "darwin")
    then true
    else if u && (same name (codes "unix") && has unix_os c.goos)
    then true
    else let other =
        if u && same name (codes "boringcrypto") then codes "goexperiment.boringcrypto" else name in
      if strings_contains c.build_tags other
      then true
      else if strings_contains c.tool_tags other
      then true
      else strings_contains c.release_tags other

-- `matchTag`: the answer, and the map that it has written to.
unfoldable pub match_tag : Bool → Context → Bytes → Tags → Bool × Tags
match_tag u c name all_tags = (match_name u c name, note name all_tags)

-- `x.Eval(ok)` with the function that `eval` hands it: both sides of a node are evaluated.
unfoldable pub eval : Bool → Context → Expr → Tags → Bool × Tags
unfolding match_tag
eval u c (tag t) all_tags = match_tag u c t all_tags
eval u c (neg x) all_tags = let (b, m) = eval u c x all_tags in (not b, m)
eval u c (and x y) all_tags =
    let (a, m) = eval u c x all_tags in let (b, n) = eval u c y m in (a && b, n)
eval u c (or x y) all_tags =
    let (a, m) = eval u c x all_tags in let (b, n) = eval u c y m in (a || b, n)

-- The two results of `lookupTag`.
pub record Found : Type 0 where
  pub found : Bool
  pub negated : Bool

abbrev not_found : Found
not_found = record { found = false; negated = false }

-- `lookupTag`
unfoldable pub lookup_tag : Expr → Bytes → Found
lookup_tag (tag v) t = if same v t then record { found = true; negated = false } else not_found
lookup_tag (neg x) t =
    let r = lookup_tag x t in
    if not r.found then not_found else record { found = true; negated = not r.negated }
lookup_tag (and x y) t =
    let r = lookup_tag x t in
    let s = lookup_tag y t in if r.found then r else if s.found then s else not_found
lookup_tag (or x y) t =
    let r = lookup_tag x t in
    let s = lookup_tag y t in if r.found then r else if s.found then s else not_found

-- The errors of `checkCompiler`.
pub data CompilerError : Type 0 where
  mismatch_gc mismatch_gccgo negated_gc negated_gccgo : CompilerError

-- `checkCompiler`: `none` where the source returns nil.
unfoldable pub check_compiler : Context → Expr → Option CompilerError
check_compiler c x =
    let gc = lookup_tag x (codes "gc") in
    let gccgo = lookup_tag x (codes "gccgo") in
    if same c.compiler (codes "gc")
    then if gccgo.found && not gccgo.negated
      then some mismatch_gccgo
      else if gc.found && gc.negated
      then some negated_gc
      else none
    else if same c.compiler (codes "gccgo")
    then if gc.found && not gc.negated
      then some mismatch_gc
      else if gccgo.found && gccgo.negated
      then some negated_gccgo
      else none
    else none

abbrev is_digit : ℕ → Bool
is_digit c = leb b'0' c && leb c b'9'

digits_only : Bytes → Bool
digits_only [] = true
digits_only (c ∷ s) = is_digit c && digits_only s

-- `goVersionTagRe.MatchString`: the pattern is `^go1\.\d+$`.
is_version : Bytes → Bool
unfolding digits_only strip
is_version s = elim (strip (codes "go1.") s) [
  | none ↦ false
  | some rest ↦ not (is_empty rest) && digits_only rest
]

-- `isGoReleaseTag`; the keys of `knownReleaseTag` are the release tags of `build.Default`.
unfoldable pub is_go_release_tag : Toolchain → Bytes → Bool
unfolding is_version
is_go_release_tag t s = has t.default_release_tags s || has_prefix s (codes "go1.") && is_version s

-- `isGoExperimentTag`
unfoldable pub is_go_experiment_tag : Bytes → Bool
is_go_experiment_tag name = has_prefix name (codes "goexperiment.")

-- `isInternalTag`
unfoldable pub is_internal_tag : Toolchain → Context → Bytes → Bool
unfolding is_go_release_tag is_go_experiment_tag
is_internal_tag t c name =
    if same name (codes "gc")
      || same name (codes "gccgo")
      || has known_os name
      || has known_arch name
      || is_go_experiment_tag name
      || is_go_release_tag t name
    then true
    else if strings_contains c.tool_tags name
    then true
    else strings_contains c.release_tags name
