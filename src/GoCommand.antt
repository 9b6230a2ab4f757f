-- ===== src/GoCommand.antt =====
-- gocommand.go: the arguments and the environment of a go command for a build context.
pub mod Arguments
pub mod Environment
pub mod Lookups
pub mod Settings
pub mod EnvMap
use buildutil.Base.{
  ℕ, Bool, true, false, not, ◌&&◌, ◌||◌, List, [], ◌∷◌, ◌++◌, Option, none, some, if◌then◌else◌,
  Bytes, codes, same, strip, has_prefix, trim_prefix, split, join, is_empty,
}
use buildutil.Context.{Context}
use buildutil.Util.Environ.{Environ, lookup, set}

-- `strings.TrimPrefix(tag, "!")`
abbrev pub base_tag : Bytes → Bytes
base_tag tag = trim_prefix tag (codes "!")

-- The inner loop of `mergeTagArgs`: some new tag is the tag `s`, or its negation.
unfoldable pub names_tag : List Bytes → Bytes → Bool
names_tag [] s = false
names_tag (x ∷ new) s = if same s (base_tag x) then true else names_tag new s

-- The outer loop.
unfoldable pub unnamed_tags : List Bytes → List Bytes → List Bytes
unnamed_tags [] new = []
unnamed_tags (arg ∷ old) new =
    let rest = unnamed_tags old new in if names_tag new (base_tag arg) then rest else arg ∷ rest

-- `mergeTagArgs`
unfoldable pub merge_tag_args : List Bytes → List Bytes → List Bytes
merge_tag_args old new =
    if is_empty old then new else if is_empty new then old else unnamed_tags old new ++ new

-- `strings.Split(s, ",")` of the argument behind `-tags`, or nil where there is none.
abbrev split_next : List Bytes → List Bytes
split_next [] = []
split_next (v ∷ rest) = split b',' v

-- `extractTagArgs`; nil is the empty list.
unfoldable pub extract_tag_args : List Bytes → List Bytes
extract_tag_args [] = []
extract_tag_args (s ∷ rest) =
    let later = extract_tag_args rest in
    if same s (codes "--")
    then []
    else if same s (codes "-tags")
    then split_next rest
    else elim (strip (codes "-tags=") s) [ none ↦ later | some v ↦ split b',' v ]

abbrev replace_next : List Bytes → List Bytes → List Bytes
replace_next [] tags = []
replace_next (v ∷ rest) tags = join b',' tags ∷ rest

-- `replaceTagArgs`
unfoldable pub replace_tag_args : List Bytes → List Bytes → List Bytes
replace_tag_args [] tags = []
replace_tag_args (s ∷ rest) tags =
    let later = s ∷ replace_tag_args rest tags in
    if same s (codes "--")
    then s ∷ rest
    else if same s (codes "-tags")
    then s ∷ replace_next rest tags
    else elim (strip (codes "-tags=") s) [
      | none ↦ later
      | some v ↦ (codes "-tags=" ++ join b',' tags) ∷ rest
    ]

-- What `GoCommandContext` makes of an `exec.Cmd`.
pub record Cmd : Type 0 where
  pub name : Bytes
  pub args : List Bytes
  pub env : Environ

-- The value of a key, empty where it is not set.
abbrev pub value_or_empty : Option Bytes → Bytes
value_or_empty none = []
value_or_empty (some v) = v

-- The GOEXPERIMENT names among the tool tags.
unfoldable pub experiments : List Bytes → List Bytes
experiments [] = []
experiments (s ∷ tags) =
    let rest = experiments tags in
    elim (strip (codes "goexperiment.") s) [ none ↦ rest | some name ↦ name ∷ rest ]

unfoldable pub set_goroot : Context → Environ → Environ
set_goroot c e =
    let s = value_or_empty (lookup e (codes "GOROOT")) in
    if not (is_empty s) && not (same s c.goroot) then set e (codes "GOROOT") c.goroot else e

unfoldable pub set_unless_empty : Bytes → Bytes → Environ → Environ
set_unless_empty key value e = if not (is_empty value) then set e key value else e

unfoldable pub set_experiment : Context → Environ → Environ
set_experiment c e =
    if not (is_empty c.tool_tags)
    then set e (codes "GOEXPERIMENT") (join b',' (experiments c.tool_tags))
    else e

-- The environment before the build tags are looked at.
unfoldable pub platform_env : Context → Environ → Environ
platform_env c env0 =
    let e1 = set_goroot c (set env0 (codes "GOPATH") c.gopath) in
    let e2 =
      set_unless_empty (codes "GOARCH") c.goarch (set_unless_empty (codes "GOOS") c.goos e1) in
    let e3 = set e2 (codes "CGO_ENABLED") (if c.cgo_enabled then codes "1" else codes "0") in
    set_experiment c e3

-- GOFLAGS with the tags behind the flags that it has.
unfoldable pub set_goflags : Context → Environ → Environ
set_goflags c e =
    let s = value_or_empty (lookup e (codes "GOFLAGS")) in
    let tags = codes "-tags=" ++ join b',' c.build_tags in
    set e (codes "GOFLAGS") (if not (is_empty s) then s ++ (b' ' ∷ tags) else tags)

-- `GoCommandContext`, for a context that is not nil; `env0` is `os.Environ()`.
unfoldable pub go_command_context : Environ → Context → Bytes → List Bytes → Cmd
go_command_context env0 c name args =
    let e = platform_env c env0 in
    let existing = extract_tag_args args in
    if is_empty c.build_tags
    then record { name = name; args = args; env = e }
    else if not (is_empty existing)
    then record {
      name = name;
      args = replace_tag_args args (merge_tag_args existing c.build_tags);
      env = e;
    }
    else record { name = name; args = args; env = set_goflags c e }

-- `GoCommand`: `GoCommandContext` for a context that may be nil; `default` is `build.Default`.
unfoldable pub go_command : Environ → Context → Option Context → Bytes → List Bytes → Cmd
unfolding go_command_context
go_command env0 default none name args = go_command_context env0 default name args
go_command env0 default (some c) name args = go_command_context env0 c name args
