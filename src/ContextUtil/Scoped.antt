-- ===== src/ContextUtil/Scoped.antt =====
-- Contexts that see part of the file system: `minImportDir`, `sortUniqueStrings` and `ScopedContext` of
-- contextutil/contextutil.go. The function `ReadDir` of such a context is in Scoped/Reading.
pub mod Unique
pub mod Grouped
pub mod Parents
pub mod Leads
pub mod Origin
pub mod Reading
use buildutil.Base.{
  ℕ, zero, suc, ◌+◌, Bool, true, false, not, ◌&&◌, List, [], ◌∷◌, ◌++◌, Option, none, some,
  if◌then◌else◌, codes, Bytes, ltb, same, length, is_empty, Error, Result, ok, err, ◌>>=◌,
  path_error, out_of_fuel, not_absolute, not_directory, no_packages,
}
use buildutil.FilePath.{clean, dir_of}
use buildutil.ContextUtil.{FileContext, System, join2, containing_directory}
use buildutil.ContextUtil.Subdir.{clean_go_paths, has_subdir_in}
use buildutil.ContextUtil.Scoped.Unique.{sort_unique_strings}

-- `minPackage`
pub record MinPackage : Type 0 where
  pub import_path : Bytes
  pub root : Bytes
  pub src_root : Bytes
  pub is_goroot : Bool
  pub is_module : Bool

-- `map[string][]string`, each key once.
abbrev pub Dirs : Type 0
Dirs = List (Bytes × List Bytes)

-- `dirs[k]`, with its `ok`.
unfoldable pub subdirs_of : Dirs → Bytes → Option (List Bytes)
subdirs_of [] k = none
subdirs_of ((j, subs) ∷ m) k = if same j k then some subs else subdirs_of m k

-- `dirs[k] = append(dirs[k], s)`
unfoldable pub add_subdir : Bytes → Bytes → Dirs → Dirs
add_subdir k s [] = (k, s ∷ []) ∷ []
add_subdir k s ((j, subs) ∷ m) =
    let rest = add_subdir k s m in if same j k then (j, subs ++ (s ∷ [])) ∷ m else (j, subs) ∷ rest

-- The loop of `ScopedContext` from a package up to its source root, on fuel.
unfoldable pub add_parents : ℕ → Bytes → Bytes → Dirs → Result Dirs
add_parents zero src dir m = err out_of_fuel
add_parents (suc f) src dir m =
    let child = dir_of dir in
    let later = add_parents f src child (add_subdir child dir m) in
    if not (same dir src) && not (same dir child) then later else ok m

-- The loop of `ScopedContext` that sorts the directories.
unfoldable pub sort_dirs : Dirs → Dirs
sort_dirs [] = []
sort_dirs ((k, subs) ∷ m) =
    (k, if ltb 1 (length subs) then sort_unique_strings subs else subs) ∷ sort_dirs m

-- What a scoped context has beside the fields that it copies: the variables of its `ReadDir`.
pub record Scope : Type 0 where
  pub orig : FileContext
  pub ctxt : FileContext
  pub goroots : List Bytes
  pub pkgdirs : List Bytes
  pub dirs : Dirs

abbrev found_package : Bytes → Bytes → Bool → MinPackage
found_package rel src goroot = record {
  import_path = rel;
  root = dir_of src;
  src_root = src;
  is_goroot = goroot;
  is_module = false;
}

abbrev module_package : Bytes → MinPackage
module_package root = record {
  import_path = [];
  root = root;
  src_root = [];
  is_goroot = false;
  is_module = true;
}

module _ (e : System) where
  -- The loop of `minImportDir` over the GOPATH.
  unfoldable pub in_paths : FileContext → List Bytes → Bytes → Option MinPackage
  in_paths c [] dir = none
  in_paths c (p ∷ ps) dir =
      let src = join2 c p (codes "src") in
      elim (has_subdir_in e c src dir) [
        | some rel ↦ some (found_package rel src false)
        | none ↦ in_paths c ps dir
      ]

  -- The end of `minImportDir`: the root of the module.
  unfoldable pub module_of : Bytes × Option Error → Result MinPackage
  module_of (root, none) = ok (module_package root)
  module_of (root, some x) = err x

  -- `minImportDir`
  unfoldable pub min_import_dir : FileContext → Bytes → Result MinPackage
  min_import_dir c dir =
      let root = join2 c c.goroot (codes "src") in
      elim (has_subdir_in e c root dir) [
        | some rel ↦ ok (found_package rel root true)
        | none ↦ elim (in_paths c (e.split_path_list c c.gopath) dir) [
          | some p ↦ ok p
          | none ↦
              module_of (containing_directory e c dir [] (codes "go.mod" ∷ codes "go.work" ∷ []))
        ]
      ]

  -- The guards of `ScopedContext`, by the first directory that they refuse.
  unfoldable pub refused : FileContext → List Bytes → Option Error
  refused c [] = none
  refused c (dir ∷ dirs) =
      let rest = refused c dirs in
      if not (e.is_abs_path c dir)
      then some (path_error (not_absolute dir))
      else if not (e.is_dir c dir)
      then some (path_error (not_directory dir))
      else rest

  -- `filepath.EvalSymlinks`, where it names another directory.
  unfoldable pub other_names : Bytes → List Bytes
  other_names dir = elim (e.eval_symlinks dir) [
    | err x ↦ []
    | ok p ↦ if not (same p dir) then p ∷ [] else []
  ]

  unfoldable pub clean_all : List Bytes → List Bytes
  clean_all [] = []
  clean_all (dir ∷ dirs) = clean dir ∷ clean_all dirs

  unfoldable pub all_other_names : List Bytes → List Bytes
  all_other_names [] = []
  all_other_names (dir ∷ dirs) = other_names dir ++ all_other_names dirs

  -- `pkgdirs` behind its two loops.
  unfoldable pub package_dirs : List Bytes → List Bytes
  package_dirs dirs = clean_all dirs ++ all_other_names (clean_all dirs)

  -- The round of the loop over the packages that has found a package: `goroots` and `dirs` behind it.
  unfoldable pub add_package :
      FileContext → MinPackage → List Bytes × Dirs → Result (List Bytes × Dirs)
  add_package c pkg (goroots, m) =
      let dir = e.join_path c (pkg.src_root ∷ pkg.import_path ∷ []) in
      let parents = add_parents (3 + length dir) pkg.src_root dir m in
      if pkg.is_module
      then ok (goroots ++ (pkg.root ∷ []), m)
      else parents >>= λ n. ok (goroots, add_subdir pkg.root pkg.src_root n)

  -- The loop over the packages.
  unfoldable pub add_packages :
      FileContext → List Bytes → List Bytes × Dirs → Result (List Bytes × Dirs)
  add_packages c [] st = ok st
  add_packages c (root ∷ roots) st =
      min_import_dir c root >>= λ pkg. add_package c pkg st >>= add_packages c roots

  -- `ScopedContext` behind its guards.
  unfoldable pub scope_of : FileContext → List Bytes → Result Scope
  scope_of c dirs =
      let ctxt = clean_go_paths c in
      let pkgs = package_dirs dirs in
      add_packages ctxt pkgs (ctxt.goroot ∷ other_names ctxt.goroot, []) >>= λ (goroots, m).
      ok (record { orig = c; ctxt = ctxt; goroots = goroots; pkgdirs = pkgs; dirs = sort_dirs m })

  -- `ScopedContext`
  unfoldable pub scoped_context : FileContext → List Bytes → Result Scope
  scoped_context c dirs =
      if is_empty dirs
      then err (path_error no_packages)
      else elim (refused c dirs) [ some x ↦ err x | none ↦ scope_of c dirs ]
