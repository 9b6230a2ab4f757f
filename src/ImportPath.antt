-- ===== src/ImportPath.antt =====
-- `ImportPath` of buildutil.go, with `joinPath`, `isDir`, `hasSubdirCtxt` and `inTestdata`.
pub mod Testdata
pub mod Resolves
pub mod Links
pub mod Fast
use buildutil.Base.{
  Bool, true, false, not, ◌&&◌, ◌||◌, List, [], ◌∷◌, ◌++◌, reverse, Option, none, some,
  if◌then◌else◌, codes, Bytes, same, cut, has_prefix, is_empty, Error, Result, ok, err, path_error,
  empty_dir, cannot_find,
}
use buildutil.Paths.{has_subdir, split_list, gopath_dirs}
use buildutil.FilePath
use buildutil.ContextUtil.{FileInfo, FileContext, System}

-- `inTestdata`
unfoldable pub in_testdata : Bytes → Bool
in_testdata sub =
    let inside : Bool = elim (cut (codes "/testdata/") sub) [ none ↦ false | some parts ↦ true ] in
    inside
    || (has_prefix (reverse sub) (reverse (codes "/testdata"))
        || (has_prefix sub (codes "testdata/") || same sub (codes "testdata")))

-- `joinPath`
unfoldable pub join_path : FileContext → List Bytes → Bytes
join_path c elems = elim c.join_path [ some f ↦ f elems | none ↦ FilePath.join_path elems ]

-- `splitPathList` of the GOPATH, and `gopath`.
unfoldable pub gopath : FileContext → List Bytes
gopath c =
    gopath_dirs c.goroot
      (elim c.split_path_list [ some f ↦ f c.gopath | none ↦ split_list c.gopath ])

module _ (e : System) where
  -- `isDir`
  unfoldable pub is_dir : FileContext → Bytes → Bool
  is_dir c path = elim c.is_dir [
    | some f ↦ f path
    | none ↦ elim (e.stat path) [ err x ↦ false | ok info ↦ info.is_dir ]
  ]

  -- The first result of `filepath.EvalSymlinks`, which is empty beside an error.
  unfoldable pub evaluated : Bytes → Bytes
  evaluated p = elim (e.eval_symlinks p) [ err x ↦ [] | ok q ↦ q ]

  -- The end of `hasSubdirCtxt`, with the symbolic links expanded.
  unfoldable pub resolved_subdir : Bytes → Bytes → Option Bytes
  unfolding evaluated
  resolved_subdir root dir =
      let root_sym = evaluated root in
      let dir_sym = evaluated dir in
      elim (has_subdir root_sym dir) [
        | some rel ↦ some rel
        | none ↦ elim (has_subdir root dir_sym) [
          | some rel ↦ some rel
          | none ↦ has_subdir root_sym dir_sym
        ]
      ]

  -- `hasSubdirCtxt`: `none` where its second result is false.
  unfoldable pub has_subdir_ctxt : FileContext → Bytes → Bytes → Option Bytes
  has_subdir_ctxt c root dir = elim c.has_subdir [
    | some f ↦ f root dir
    | none ↦ elim (has_subdir root dir) [ some rel ↦ some rel | none ↦ resolved_subdir root dir ]
  ]

  -- A directory with the same path below the source directory of an earlier root.
  unfoldable pub found_earlier : FileContext → List Bytes → Bytes → Bool
  found_earlier c [] sub = false
  found_earlier c (root ∷ roots) sub =
      if is_dir c (join_path c (root ∷ codes "src" ∷ sub ∷ []))
      then true
      else found_earlier c roots sub

  -- The two tests for a directory that the path would name first.
  unfoldable pub conflicts : FileContext → List Bytes → Bytes → Bool
  conflicts c early sub =
      not (is_empty c.goroot) && is_dir c (join_path c (c.goroot ∷ codes "src" ∷ sub ∷ []))
      || found_earlier c early sub

  -- The loop of `ImportPath` over the GOPATH; `early` are the roots before. The result is the import path
  -- at a `goto Found`, and `none` where the loop ends.
  unfoldable pub search_gopath : FileContext → List Bytes → List Bytes → Bytes → Option Bytes
  search_gopath c early [] dir = none
  search_gopath c early (root ∷ roots) dir =
      let later = search_gopath c (early ++ (root ∷ [])) roots dir in
      elim (has_subdir_ctxt c (join_path c (root ∷ codes "src" ∷ [])) dir) [
        | none ↦ later
        | some sub ↦
            if in_testdata sub
            then later
            else some (if conflicts c early sub then codes "." else sub)
      ]

  -- The test of GOROOT in `ImportPath`.
  unfoldable pub search_goroot : FileContext → Bytes → Bytes
  search_goroot c dir =
      if is_empty c.goroot
      then codes "."
      else elim (has_subdir_ctxt c (join_path c (c.goroot ∷ codes "src" ∷ [])) dir) [
        | none ↦ codes "."
        | some sub ↦ if in_testdata sub then codes "." else sub
      ]

  -- `ImportPath` behind its guards.
  unfoldable pub path_of : FileContext → Bytes → Bytes
  path_of c dir =
      let found : Option Bytes =
        if not (has_prefix dir c.goroot) then search_gopath c [] (gopath c) dir else none in
      elim found [ some path ↦ path | none ↦ search_goroot c dir ]

  -- `ImportPath`
  unfoldable pub import_path : FileContext → Bytes → Bytes × Option Error
  import_path c dir =
      if is_empty dir
      then ([], some (path_error empty_dir))
      else if not (is_dir c dir)
      then (codes ".", some (path_error (cannot_find dir)))
      else (path_of c dir, none)
