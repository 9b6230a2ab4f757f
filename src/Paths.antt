-- ===== src/Paths.antt =====
-- The paths and the GOPATH of match.go and buildutil.go: `isSubdir`, `hasSubdir`, `gopath`, `resolveGOPATH`
-- and `fixGOPATH`, where the separator is `/` and the list separator is `:`.
pub mod Laws
use buildutil.Base.{
  ℕ, zero, suc, ◌-◌, Bool, true, false, not, ◌&&◌, ◌||◌, List, [], ◌∷◌, ◌++◌, Option, none, some,
  if◌then◌else◌, codes, Bytes, ltb, ◌==◌, same, split, cut, has_prefix, length, take, drop,
  is_empty,
}
use buildutil.Context.{Context}

abbrev first_is : ℕ → Bytes → Bool
first_is ch [] = false
first_is ch (c ∷ s) = c == ch

-- `isSubdir`
unfoldable pub is_subdir : Bytes → Bytes → Bool
is_subdir root dir =
    let n = length root in
    ltb 0 n && (ltb n (length dir) && (same (take n dir) root && first_is b'/' (drop n dir)))

-- `hasSubdir`: `none` where its second result is false.
unfoldable pub has_subdir : Bytes → Bytes → Option Bytes
unfolding is_subdir
has_subdir root dir = if is_subdir root dir then some (drop (suc (length root)) dir) else none

-- `pathContainsSrcDir`
pub path_contains_src_dir : Bytes → Bool
path_contains_src_dir s = elim (cut (codes "/src") s) [ none ↦ false | some parts ↦ true ]

-- `filepath.Split`: up to the last separator, and behind it.
unfoldable pub split_path : Bytes → Bytes × Bytes
split_path [] = ([], [])
split_path (c ∷ s) =
    let (d, name) = split_path s in
    if not (is_empty d) then (c ∷ d, name) else if c == b'/' then (c ∷ [], name) else ([], c ∷ name)

-- The parent of the loop in `resolveGOPATH`: the last byte is taken off.
unfoldable pub parent_of : Bytes → Bytes
parent_of dir = let d = (split_path dir).0 in take (length d - 1) d

-- That loop, on fuel.
unfoldable pub resolve_loop : ℕ → Bytes → Option Bytes
resolve_loop zero dir = none
resolve_loop (suc f) dir =
    let parent = parent_of dir in
    let later = resolve_loop f parent in
    if same (split_path dir).1 (codes "src")
    then some parent
    else if is_empty parent || same parent dir
    then none
    else later

-- What the source reads of its surroundings: `filepath.EvalSymlinks` with its first result,
-- `build.Default.GOPATH`, and the field `SplitPathList` of the context, which may be nil.
pub record Surroundings : Type 0 where
  pub eval_symlinks : Bytes → Bytes
  pub default_gopath : Bytes
  pub split_path_list : Option (Bytes → List Bytes)

-- `filepath.SplitList`
abbrev pub split_list : Bytes → List Bytes
split_list [] = []
split_list (c ∷ s) = split b':' (c ∷ s)

-- `splitPathList`
unfoldable pub split_path_list : Surroundings → Bytes → List Bytes
split_path_list e s = elim e.split_path_list [ none ↦ split_list s | some f ↦ f s ]

-- `resolveGOPATH`: `none` where its second result is false.
unfoldable pub resolve_gopath : Surroundings → Bytes → Option Bytes
unfolding path_contains_src_dir resolve_loop
resolve_gopath e dir =
    if path_contains_src_dir dir
    then resolve_loop (suc (length dir)) dir
    else let real = e.eval_symlinks dir in
      if path_contains_src_dir real then resolve_loop (suc (length real)) real else none

-- The loop over the roots in `fixGOPATH`.
pub in_some_root : List Bytes → Bytes → Bool
in_some_root [] dir = false
in_some_root (root ∷ roots) dir = is_subdir root dir || in_some_root roots dir

is_nil : Option (Bytes → List Bytes) → Bool
is_nil none = true
is_nil (some f) = false

-- `fixGOPATH`: `dir` is the directory of the file's name, and `none` where the second result is false.
unfoldable pub fix_gopath : Surroundings → Bytes → Context → Option Bytes
unfolding in_some_root is_nil
fix_gopath e dir c =
    let path = if is_empty c.gopath then e.default_gopath else c.gopath in
    if in_some_root (split_path_list e path) dir
    then some path
    else if not (is_empty c.goroot) && is_subdir c.goroot dir
    then some path
    else elim (resolve_gopath e dir) [
      | none ↦ none
      | some found ↦ some (
          if is_nil e.split_path_list && not (is_empty c.gopath)
          then found ++ (b':' ∷ c.gopath)
          else found)
    ]

-- `gopath`
unfoldable pub gopath_dirs : Bytes → List Bytes → List Bytes
gopath_dirs goroot [] = []
gopath_dirs goroot (p ∷ ps) =
    let rest = gopath_dirs goroot ps in
    if is_empty p || same p goroot
    then rest
    else if has_prefix p (codes "~")
    then rest
    else p ∷ rest
