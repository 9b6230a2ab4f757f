-- ===== src/ContextUtil/Scoped/Reading.antt =====
-- The function `ReadDir` of a scoped context, and what it lists: `readDir`, `readSubdirs`, `sameFile` and
-- the function at the end of `ScopedContext` of contextutil/contextutil.go.
pub mod Entries
pub mod Way
use buildutil.Base.{
  Bool, true, false, not, ◌&&◌, ◌||◌, List, [], ◌∷◌, Option, none, some, if◌then◌else◌, Bytes, Keys,
  has, same, is_empty, ◌==◌, Error, Result, ok, err, ◌>>=◌, path_error, PathProblem, not_absolute,
  not_exist, not_directory,
}
use buildutil.FilePath.{clean, dir_of, base_of}
use buildutil.ContextUtil.{FileInfo, FileContext, System}
use buildutil.ContextUtil.Subdir.{covers}
use buildutil.ContextUtil.Scoped.{Dirs, subdirs_of, Scope}

-- The entries whose names the map holds.
unfoldable pub in_scope : Keys → List FileInfo → List FileInfo
in_scope names [] = []
in_scope names (info ∷ infos) =
    let rest = in_scope names infos in if has names info.name then info ∷ rest else rest

-- `names[dir]`: the bases of the directories, and nothing for a directory that is no key of `dirs`.
unfoldable pub bases : List Bytes → Keys
bases [] = []
bases (s ∷ subs) = base_of s ∷ bases subs

unfoldable pub names_of : Dirs → Bytes → Keys
names_of m dir = elim (subdirs_of m dir) [ none ↦ [] | some subs ↦ bases subs ]

-- The test of the loops over `goroots` and `pkgdirs`.
unfoldable pub some_covers : List Bytes → Bytes → Bool
some_covers [] dir = false
some_covers (p ∷ ps) dir = if covers p dir then true else some_covers ps dir

-- `os.IsNotExist`
unfoldable pub is_not_exist : Error → Bool
is_not_exist (path_error not_exist) = true
is_not_exist _ = false

-- `filepath.Dir(subdirs[0])`
unfoldable pub read_from : List Bytes → Bytes
read_from [] = []
read_from (s ∷ subs) = dir_of s

module _ (e : System) where
  -- `readDir`
  unfoldable pub read_dir : FileContext → Bytes → Result (List FileInfo)
  read_dir c path = elim c.read_dir [ some f ↦ f path | none ↦ e.list_dir path ]

  -- One round of the loop of `readSubdirs` over the file system.
  unfoldable pub add_info : Result FileInfo → Result (List FileInfo) → Result (List FileInfo)
  add_info (ok info) rest = rest >>= λ infos. ok (info ∷ infos)
  add_info (err x) rest = if is_not_exist x then rest else err x

  -- That loop; what has been read before an error is left out.
  unfoldable pub stat_subdirs : List Bytes → Result (List FileInfo)
  stat_subdirs [] = ok []
  stat_subdirs (sub ∷ subs) = add_info (e.lstat sub) (stat_subdirs subs)

  -- `readSubdirs`
  unfoldable pub read_subdirs : FileContext → List Bytes → Keys → Result (List FileInfo)
  read_subdirs c subs names = if is_empty subs then ok [] else elim c.read_dir [
    | some f ↦ f (read_from subs) >>= λ infos. ok (in_scope names infos)
    | none ↦ stat_subdirs subs
  ]

  -- `sameFile`
  unfoldable pub same_file : Bytes → Bytes → FileInfo → Bool
  same_file name base info =
      if same (base_of name) base
      then elim (e.stat name) [ err x ↦ false | ok fi ↦ fi.identity == info.identity ]
      else false

  unfoldable pub some_same_file : List Bytes → Bytes → FileInfo → Bool
  some_same_file [] base info = false
  some_same_file (p ∷ ps) base info =
      if same_file p base info then true else some_same_file ps base info

  -- The loop over the map that compares files; `none` where it finds nothing.
  unfoldable pub linked_subdirs : Dirs → Bytes → FileInfo → Option (List Bytes)
  linked_subdirs [] base info = none
  linked_subdirs ((root, subs) ∷ m) base info =
      if same_file root base info then some subs else linked_subdirs m base info

  module _ (range : Dirs → Dirs) where
    -- The end of `ReadDir`, for a directory that `os.Stat` has found; `range` is the order in which a
    -- range over the map runs.
    unfoldable pub read_found : Scope → Bytes → FileInfo → Result (List FileInfo)
    read_found s dir info =
        if not info.is_dir
        then err (path_error (not_directory dir))
        else if some_same_file s.pkgdirs (base_of dir) info
        then read_dir s.orig dir
        else elim (linked_subdirs (range s.dirs) (base_of dir) info) [
          | some subs ↦ read_subdirs s.orig subs (names_of s.dirs dir)
          | none ↦ elim s.orig.read_dir [ some f ↦ f dir | none ↦ err (path_error not_exist) ]
        ]

    -- `ReadDir` behind its first lines, for a clean path.
    unfoldable pub read_clean : Scope → Bytes → Result (List FileInfo)
    read_clean s dir =
        if some_covers s.goroots dir
        then read_dir s.orig dir
        else if some_covers s.pkgdirs dir
        then read_dir s.orig dir
        else if is_empty s.dirs
        then err (path_error not_exist)
        else elim (subdirs_of s.dirs dir) [
          | some subs ↦ read_subdirs s.orig subs (names_of s.dirs dir)
          | none ↦ elim (e.stat dir) [ err x ↦ err x | ok info ↦ read_found s dir info ]
        ]

    -- `ReadDir` of the scoped context.
    unfoldable pub scoped_read_dir : Scope → Bytes → Result (List FileInfo)
    scoped_read_dir s dir =
        if not (e.is_abs_path s.ctxt dir)
        then err (path_error (not_absolute dir))
        else read_clean s (clean dir)
