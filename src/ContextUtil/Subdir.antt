-- ===== src/ContextUtil/Subdir.antt =====
-- Whether a directory is below another, and the GOPATH: `HasSubdir`, `hasSubdirImpl`, `inGopath` and
-- `cleanGoPaths` of contextutil/contextutil.go. `isSubdir` and `hasSubdir` there are the functions of
-- that name in buildutil.go.
pub mod Laws
use buildutil.Base.{
  ◌+◌, ℕ, zero, suc, Bool, true, false, not, ◌&&◌, ◌||◌, List, [], ◌∷◌, ◌++◌, Option, none, some,
  if◌then◌else◌, codes, Bytes, same, has_prefix, split, join, length, is_empty, ◌==◌, Result, ok,
  err,
}
use buildutil.Paths.{is_subdir, has_subdir, split_list}
use buildutil.FilePath.{clean, dir_of}
use buildutil.ContextUtil.{FileInfo, FileContext, System}

-- `p == dir || isSubdir(p, dir)`
unfoldable pub covers : Bytes → Bytes → Bool
covers p dir = same p dir || is_subdir p dir

-- The elements of a GOPATH that the build context does not look at.
unfoldable pub is_ignored : Bytes → Bytes → Bool
is_ignored goroot p = is_empty p || has_prefix p (codes "~") || same p goroot

-- The loop of `inGopath` over what `SplitPathList` returns.
unfoldable pub in_listed : Bytes → List Bytes → Bytes → Bool
in_listed goroot [] dir = false
in_listed goroot (p ∷ ps) dir =
    let rest = in_listed goroot ps dir in
    if is_ignored goroot p
    then rest
    else if covers p dir || is_subdir (clean p) dir
    then true
    else rest

-- The loop of `inGopath` over the text of the GOPATH: the elements that a list separator ends, then
-- the last one.
unfoldable pub in_elements : List Bytes → Bytes → Bool
in_elements [] dir = false
in_elements (s ∷ []) dir = if not (is_empty s) then covers (clean s) dir else false
in_elements (p ∷ (q ∷ ps)) dir =
    let rest = in_elements (q ∷ ps) dir in
    if covers p dir then true else if not (is_empty p) && covers (clean p) dir then true else rest

-- `inGopath`
unfoldable pub in_gopath : FileContext → Bytes → Bool
in_gopath c dir = elim c.split_path_list [
  | some f ↦ in_listed c.goroot (f c.gopath) dir
  | none ↦ in_elements (split b':' c.gopath) dir
]

-- The loop of `cleanGoPaths`.
unfoldable pub clean_listed : Bytes → List Bytes → List Bytes
clean_listed goroot [] = []
clean_listed goroot (p ∷ ps) =
    let rest = clean_listed goroot ps in if is_ignored goroot p then rest else clean p ∷ rest

-- `cleanGoPaths`
unfoldable pub clean_go_paths : FileContext → FileContext
clean_go_paths c =
    let root = clean c.goroot in
    elim c.split_path_list [
      | some f ↦ record c { goroot = root }
      | none ↦ record c {
        goroot = root;
        gopath = join b':' (clean_listed root (split_list c.gopath));
      }
    ]

module _ (e : System) where
  -- The loop of `hasSubdirImpl` up from the directory, on fuel: whether the symbolic links are to be
  -- expanded, and `none` where the fuel runs out.
  unfoldable pub link_loop : ℕ → FileInfo → Bytes → Option Bool
  link_loop zero root_info path = none
  link_loop (suc f) root_info path =
      let later = link_loop f root_info (dir_of path) in
      elim (e.lstat path) [
        | err x ↦ some false
        | ok info ↦
            if info.is_symlink
            then some true
            else if root_info.identity == info.identity
            then some true
            else if same (dir_of path) path
            then some false
            else later
      ]

  -- The first result of `filepath.EvalSymlinks`, which is empty beside an error.
  unfoldable pub real_path : Bytes → Bytes
  real_path p = elim (e.eval_symlinks p) [ err x ↦ [] | ok q ↦ q ]

  -- The end of `hasSubdirImpl`, with the symbolic links expanded.
  unfoldable pub expanded_subdir : Bytes → Bytes → Option Bytes
  expanded_subdir root dir = elim (has_subdir (real_path root) dir) [
    | some rel ↦ some rel
    | none ↦ elim (has_subdir root (real_path dir)) [
      | some rel ↦ some rel
      | none ↦ has_subdir (real_path root) (real_path dir)
    ]
  ]

  -- The part of `hasSubdirImpl` that asks the file system, for clean paths.
  unfoldable pub linked_subdir : Bytes → Bytes → Option Bytes
  linked_subdir root dir = elim (e.stat root) [
    | err x ↦ none
    | ok root_info ↦ elim (link_loop (3 + length dir) root_info dir) [
      | none ↦ none
      | some expands ↦ if expands then expanded_subdir root dir else none
    ]
  ]

  -- One of the paths is in GOROOT, and the other in GOPATH.
  unfoldable pub apart : FileContext → Bytes → Bytes → Bool
  apart c root dir =
      let goroot = clean c.goroot in
      (same root goroot || is_subdir goroot root) && in_gopath c dir
      || (same dir goroot || is_subdir goroot dir) && in_gopath c root

  -- `hasSubdirImpl`: `none` where its second result is false.
  unfoldable pub has_subdir_impl : FileContext → Bytes → Bytes → Option Bytes
  has_subdir_impl c root dir = elim (has_subdir (clean root) (clean dir)) [
    | some rel ↦ some rel
    | none ↦
        if apart c (clean root) (clean dir) then none else linked_subdir (clean root) (clean dir)
  ]

  -- `HasSubdir`
  unfoldable pub has_subdir_in : FileContext → Bytes → Bytes → Option Bytes
  has_subdir_in c root dir = elim c.has_subdir [
    | some f ↦ f root dir
    | none ↦ has_subdir_impl c root dir
  ]
