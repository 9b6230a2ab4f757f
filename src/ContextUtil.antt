-- ===== src/ContextUtil.antt =====
-- contextutil/contextutil.go: the search for the root of a project (here), the tests of whether a
-- directory is below another (ContextUtil/Subdir), and contexts that see part of the file system
-- (ContextUtil/Scoped).
pub mod Search
pub mod Subdir
pub mod Scoped
use buildutil.Base.{
  ℕ, zero, suc, Bool, true, false, not, ◌&&◌, ◌||◌, List, [], ◌∷◌, ◌++◌, Option, none, some,
  if◌then◌else◌, leb, codes, Bytes, same, length, is_empty, Error, path_error, out_of_fuel, Result,
  ok, err, PathProblem, not_absolute, not_exist, no_tombstones,
}
use buildutil.Paths.{is_subdir}
use buildutil.FilePath.{clean, dir_of}

-- An `os.FileInfo`, with what `os.SameFile` compares.
pub record FileInfo : Type 0 where
  pub name : Bytes
  pub is_dir : Bool
  pub is_symlink : Bool
  pub is_regular : Bool
  pub identity : ℕ

-- The fields of `build.Context` that the package uses, and `IsDir` for buildutil.go; a field that holds a function may be nil.
-- `open_file` says whether the file can be opened.
pub record FileContext : Type 0 where
  pub goroot : Bytes
  pub gopath : Bytes
  pub dir : Bytes
  pub join_path : Option (List Bytes → Bytes)
  pub split_path_list : Option (Bytes → List Bytes)
  pub has_subdir : Option (Bytes → Bytes → Option Bytes)
  pub open_file : Option (Bytes → Bool)
  pub is_dir : Option (Bytes → Bool)
  pub read_dir : Option (Bytes → Result (List FileInfo))

-- What stands outside the repository: the file system by `os.Stat`, `os.Lstat`, `os.ReadDir`,
-- `filepath.EvalSymlinks`, `filepath.Abs` and `os.Getwd`; `IsAbsPath`, `FileExists`, `IsDir`, `JoinPath`
-- and `SplitPathList` of golang.org/x/tools/go/buildutil; and `build.Context.SrcDirs`.
pub record System : Type 0 where
  pub stat : Bytes → Result FileInfo
  pub lstat : Bytes → Result FileInfo
  pub list_dir : Bytes → Result (List FileInfo)
  pub eval_symlinks : Bytes → Result Bytes
  pub abs : Bytes → Result Bytes
  pub getwd : Result Bytes
  pub is_abs_path : FileContext → Bytes → Bool
  pub file_exists : FileContext → Bytes → Bool
  pub is_dir : FileContext → Bytes → Bool
  pub join_path : FileContext → List Bytes → Bytes
  pub split_path_list : FileContext → Bytes → List Bytes
  pub src_dirs : FileContext → List Bytes

-- `join2`
unfoldable pub join2 : FileContext → Bytes → Bytes → Bytes
join2 c p1 p2 = elim c.join_path [ some f ↦ f (p1 ∷ p2 ∷ []) | none ↦ p1 ++ (b'/' ∷ p2) ]

-- `DefaultProjectTombstones`
unfoldable pub default_project_tombstones : List Bytes
default_project_tombstones =
    codes ".git" ∷ codes "go.mod" ∷ codes "go.work" ∷ codes "glide.yaml" ∷ codes "Gopkg.toml" ∷ []

module _ (e : System) where
  -- The loop over the tombstones.
  unfoldable pub holds_tombstone : FileContext → List Bytes → Bytes → Bool
  holds_tombstone c [] dir = false
  holds_tombstone c (name ∷ names) dir =
      if e.file_exists c (join2 c dir name) then true else holds_tombstone c names dir

  -- The loop of `ContainingDirectory` over the directories, on fuel.
  unfoldable pub containing_loop : ℕ → FileContext → List Bytes → Bytes → Bytes → Result Bytes
  containing_loop zero c names stop_at dir = err out_of_fuel
  containing_loop (suc f) c names stop_at dir =
      let parent = dir_of dir in
      let later = containing_loop f c names stop_at parent in
      if holds_tombstone c names dir
      then ok dir
      else if same dir stop_at
      then err (path_error not_exist)
      else if leb (length dir) (length parent)
      then err (path_error not_exist)
      else later

  -- `ContainingDirectory` returns the child beside the error of a search that finds nothing.
  unfoldable pub found_or_child : Bytes → Result Bytes → Bytes × Option Error
  found_or_child child (ok d) = (d, none)
  found_or_child child (err x) = (child, some x)

  -- `stopAt`, behind the guards.
  unfoldable pub stop_dir : Bytes → Bytes
  stop_dir stop_at = if not (is_empty stop_at) then clean stop_at else stop_at

  -- `ContainingDirectory`
  unfoldable pub containing_directory :
      FileContext → Bytes → Bytes → List Bytes → Bytes × Option Error
  unfolding found_or_child
  containing_directory c child stop_at names =
      if is_empty names
      then ([], some (path_error no_tombstones))
      else if not (is_empty stop_at) && not (e.is_abs_path c stop_at)
      then ([], some (path_error (not_absolute stop_at)))
      else if not (e.is_abs_path c child)
      then ([], some (path_error (not_absolute child)))
      else found_or_child child
          (containing_loop (suc (length (clean child))) c names (stop_dir stop_at) (clean child))

  -- `absPath`
  unfoldable pub abs_path : FileContext → Bytes → Result Bytes
  abs_path c path =
      if e.is_abs_path c path
      then elim c.join_path [ some f ↦ ok (f (path ∷ [])) | none ↦ ok (clean path) ]
      else if not (is_empty c.dir)
      then elim (e.abs c.dir) [ err x ↦ err x | ok dir ↦ ok (e.join_path c (dir ∷ path ∷ [])) ]
      else elim e.getwd [ err x ↦ err x | ok wd ↦ ok (e.join_path c (wd ∷ path ∷ [])) ]

  -- `isFile`
  unfoldable pub is_file : FileContext → Bytes → Bool
  is_file c name = elim c.open_file [
    | some f ↦ f name
    | none ↦ elim (e.stat name) [ err x ↦ false | ok info ↦ info.is_regular ]
  ]

  -- The loop of `FindProjectRoot` over the source directories.
  unfoldable pub source_root : List Bytes → Bytes → Bytes
  source_root [] path = []
  source_root (p ∷ ps) path = if is_subdir p path then p else source_root ps path

  -- The tombstones of `FindProjectRoot`.
  unfoldable pub all_tombstones : List Bytes → List Bytes
  all_tombstones extra =
      if not (is_empty extra)
      then extra ++ default_project_tombstones
      else default_project_tombstones

  -- `FindProjectRoot` behind `absPath`.
  unfoldable pub root_of : FileContext → Bytes → List Bytes → Bytes × Option Error
  root_of c path extra =
      let start = if is_file c path then dir_of path else path in
      containing_directory c start (source_root (e.src_dirs c) start) (all_tombstones extra)

  -- `FindProjectRoot`
  unfoldable pub find_project_root : FileContext → Bytes → List Bytes → Bytes × Option Error
  find_project_root c path extra = elim (abs_path c path) [
    | err x ↦ ([], some x)
    | ok p ↦ root_of c p extra
  ]
