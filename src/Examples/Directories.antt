-- ===== src/Examples/Directories.antt =====
-- A small file system: /go is GOROOT, /w is GOPATH, and /w/src/p is a project.
use buildutil.Base.{
  ◌⊎◌, split, join, strip, cut, true, false, List, [], ◌∷◌, none, some, Bytes, codes, same, has,
  length, Result, ok, err, path_error, not_exist, has_prefix, if◌then◌else◌, ◌≡◌, refl,
}
use buildutil.FilePath.{
  path_text, push, pop, push_all, base_of, trim_slashes, is_rooted, clean, dir_of, join_path,
}
use buildutil.Paths.{split_path, is_subdir, has_subdir, gopath_dirs, split_list}
use buildutil.ContextUtil.{
  join2, root_of, source_root, containing_loop, FileInfo, FileContext, System, stop_dir,
  containing_directory, found_or_child, holds_tombstone, abs_path, is_file, all_tombstones,
  find_project_root, default_project_tombstones,
}
use buildutil.ContextUtil.Search.{
  Search, Above, containing_directory-Search, find_project_root-none,
}
use buildutil.ContextUtil.Subdir.{
  has_subdir_in, apart, in_gopath, in_elements, covers, clean_listed, is_ignored, linked_subdir,
  link_loop, expanded_subdir, real_path, has_subdir_impl, clean_go_paths,
}
use buildutil.ContextUtil.Subdir.Laws.{Subpath, has_subdir_impl-Subpath}
use buildutil.ContextUtil.Scoped.{
  refused, scope_of, add_packages, add_package, add_parents, add_subdir, sort_dirs, clean_all,
  all_other_names, other_names, min_import_dir, in_paths, subdirs_of, Scope, MinPackage,
  scoped_context, package_dirs,
}
use buildutil.ContextUtil.Scoped.Reading.{
  read_clean, some_covers, names_of, bases, read_subdirs, read_from, in_scope, scoped_read_dir,
}
use buildutil.ContextUtil.Scoped.Reading.Entries.{Shown, front, scoped_read_dir-Shown}
use buildutil.ImportPath.{
  path_of, search_gopath, gopath, has_subdir_ctxt, in_testdata, conflicts, found_earlier,
  import_path,
}
use buildutil.ImportPath.Fast.{Fast, has_subdir_impl-Fast}
use buildutil.ImportPath.Resolves.{Resolves, import_path-Resolves}
use buildutil.ImportPath

abbrev directory : Bytes → FileInfo
directory name = record {
  name = name;
  is_dir = true;
  is_symlink = false;
  is_regular = false;
  identity = length name;
}

abbrev found_at : Bytes → Result FileInfo
found_at p = if has_prefix p (codes "/w") then ok (directory p) else err (path_error not_exist)

abbrev files : System
files = record {
  stat = found_at;
  lstat = found_at;
  list_dir = λ p. ok [];
  eval_symlinks = λ p. ok p;
  abs = λ p. ok p;
  getwd = ok (codes "/w");
  is_abs_path = λ c p. is_rooted p;
  file_exists = λ c p. same p (codes "/w/src/p/go.mod");
  is_dir = λ c p. true;
  join_path = λ c es. join_path es;
  split_path_list = λ c s. split_list s;
  src_dirs = λ c. codes "/w/src" ∷ [];
}

abbrev listed : Bytes → Result (List FileInfo)
listed p = ok (directory (codes "p") ∷ directory (codes "other") ∷ [])

abbrev workspace : FileContext
workspace = record {
  goroot = codes "/go";
  gopath = codes "/w";
  dir = [];
  join_path = none;
  split_path_list = none;
  has_subdir = none;
  open_file = none;
  is_dir = none;
  read_dir = some listed;
}

abbrev go_mod : List Bytes
go_mod = codes "go.mod" ∷ []

containing_directory-Search_example :
    ((d : Bytes) × Search files workspace go_mod [] (clean (codes "/w/src/p/q/")) (ok d)
      × (containing_directory files workspace (codes "/w/src/p/q/") [] go_mod ≡ (d, none)))
    ⊎ (Search files workspace go_mod [] (clean (codes "/w/src/p/q/")) (err (path_error not_exist))
        × (containing_directory files workspace (codes "/w/src/p/q/") [] go_mod
            ≡ (codes "/w/src/p/q/", some (path_error not_exist))))
containing_directory-Search_example =
    containing_directory-Search files workspace (codes "/w/src/p/q/") [] go_mod refl refl refl

project_found : find_project_root files workspace (codes "/w/src/p/q") [] ≡ (codes "/w/src/p", none)
unfolding find_project_root abs_path root_of containing_directory all_tombstones
    default_project_tombstones source_root is_file containing_loop holds_tombstone found_or_child
    join2 stop_dir clean path_text push pop push_all split join same strip has_prefix split_path
    dir_of is_subdir
project_found = refl

find_project_root-none_example :
    (p : Bytes) × (abs_path files workspace (codes "/w/src/p/q") ≡ ok p)
    × Above (codes "/w/src/p") (clean (if is_file files workspace p then dir_of p else p))
    × (holds_tombstone files workspace (all_tombstones files []) (codes "/w/src/p") ≡ true)
find_project_root-none_example =
    find_project_root-none files workspace (codes "/w/src/p/q") [] (codes "/w/src/p") project_found

subdir_found :
    has_subdir_impl files workspace (codes "/w") (codes "/w//src/p") ≡ some (codes "src/p")
unfolding has_subdir_impl has_subdir clean path_text push pop push_all split join same strip
    has_prefix split_path dir_of is_subdir
subdir_found = refl

has_subdir_impl-Subpath_example :
    Subpath files (clean (codes "/w")) (clean (codes "/w//src/p")) (codes "src/p")
has_subdir_impl-Subpath_example =
    has_subdir_impl-Subpath files workspace (codes "/w") (codes "/w//src/p") (codes "src/p")
      subdir_found

has_subdir_impl-Fast_example :
    Fast files workspace
      (clean (codes "/w"))
      (clean (codes "/w//src/p"))
      (has_subdir_impl files workspace (codes "/w") (codes "/w//src/p"))
has_subdir_impl-Fast_example =
    has_subdir_impl-Fast files workspace (codes "/w") (codes "/w//src/p") refl

path_found : import_path files workspace (codes "/w/src/p") ≡ (codes "p", none)
unfolding import_path ImportPath.is_dir path_of search_gopath gopath gopath_dirs
    ImportPath.join_path has_subdir_ctxt cut in_testdata conflicts found_earlier join_path
    has_subdir clean path_text push pop push_all split join same strip has_prefix split_path dir_of
    is_subdir
path_found = refl

import_path-Resolves_example : Resolves files workspace (codes "/w/src/p") (codes "p")
import_path-Resolves_example =
    import_path-Resolves files workspace (codes "/w/src/p") (codes "p") path_found

abbrev project : List Bytes
project = codes "/w/src/p" ∷ []

abbrev project_package : MinPackage
project_package = record {
  import_path = codes "p";
  root = codes "/w";
  src_root = codes "/w/src";
  is_goroot = false;
  is_module = false;
}

abbrev scope : Scope
scope = record {
  orig = workspace;
  ctxt = workspace;
  goroots = codes "/go" ∷ [];
  pkgdirs = project;
  dirs = (codes "/w/src", project) ∷ (codes "/w", codes "/w/src" ∷ []) ∷ [];
}

project_scoped : scoped_context files workspace project ≡ ok scope
unfolding scoped_context refused scope_of add_packages add_package add_parents add_subdir sort_dirs
    package_dirs clean_all all_other_names other_names min_import_dir in_paths clean_go_paths
    clean_listed is_ignored join2 join_path has_subdir_in has_subdir_impl has_subdir apart in_gopath
    in_elements covers linked_subdir link_loop expanded_subdir real_path clean path_text push pop
    push_all split join same strip has_prefix split_path dir_of is_subdir
project_scoped = refl

project_listed :
    scoped_read_dir files (λ m. m) scope (codes "/w/src") ≡ ok (directory (codes "p") ∷ [])
unfolding scoped_read_dir read_clean some_covers subdirs_of names_of bases base_of trim_slashes
    read_subdirs read_from in_scope has covers clean path_text push pop push_all split join same
    strip has_prefix split_path dir_of is_subdir
project_listed = refl

scoped_read_dir-Shown_example :
    Shown files workspace
      (clean (codes "/w/src"))
      (clean_go_paths workspace)
      (package_dirs files project)
      (directory (codes "p"))
scoped_read_dir-Shown_example =
    scoped_read_dir-Shown files (λ m. m) workspace project scope project_scoped (codes "/w/src")
      project
      (unfold some_covers covers clean path_text push push_all split join same is_subdir in refl)
      (unfold some_covers covers clean path_text push push_all split join same is_subdir in refl)
      (unfold subdirs_of clean path_text push push_all split join same in refl)
      (directory (codes "p") ∷ []) (directory (codes "p")) project_listed front
