-- ===== src/Files/Named.antt =====
-- The exported functions of buildutil.go that read a file and give its package name, its tags or its
-- imports: `IncludeTags`, `ShortImport`, `ReadPackageName`, `ReadPackageNameTags`, `ReadImports`,
-- `MatchFile` and `BuildTags`, over a file that has been opened.
pub mod Answers
use buildutil.Base.{
  Bool, true, false, not, List, [], Option, none, some, if◌then◌else◌, Bytes, Error, Result, ok,
  err, ◌>>=◌,
}
use buildutil.Context.{Context}
use buildutil.Tags.{Tags}
use buildutil.FileName.{good_os_arch_file}
use buildutil.Build.{Syntax, Built, should_build, should_build_only}
use buildutil.PackageName.{read_package_name}
use buildutil.Reader.GoInfo.{read_imports}
use buildutil.Files.{File, read_data}

-- The results of `MatchFile`.
pub record Matched : Type 0 where
  pub pkg_name : Bytes
  pub is_match : Bool
  pub error : Option Error

-- The results of `ReadImports`.
pub record Imports : Type 0 where
  pub pkgname : Bytes
  pub imports : List Bytes
  pub error : Option Error

abbrev failed : Error → Imports
failed x = record { pkgname = []; imports = []; error = some x }

-- `ReadPackageName`
unfoldable pub read_package_name_file : Result File → Result Bytes
read_package_name_file opened = read_data opened >>= read_package_name

-- `ReadImports`: nothing is ever added to `imports`.
unfoldable pub read_imports_file : Result File → Imports
read_imports_file opened = elim opened [
  | err x ↦ failed x
  | ok f ↦ elim (read_imports f.content f.ends) [
    | err x ↦ failed x
    | ok data_read ↦ elim (read_package_name data_read) [
      | err x ↦ failed x
      | ok name ↦ record { pkgname = name; imports = []; error = none }
    ]
  ]
]

module _ (syntax : Syntax) where
  -- The map behind `shouldBuildOnly`: an error comes before the first write to it.
  unfoldable pub tags_after : Bool → Context → Bytes → Tags → Tags
  tags_after u c front m = elim (should_build syntax u c front m) [ ok r ↦ r.all_tags | err x ↦ m ]

  -- `BuildTags`, with the context `build.Default`.
  unfoldable pub build_tags : Bool → Context → Bytes → Bytes → Tags → Tags
  build_tags u default base content m =
      tags_after u default content (good_os_arch_file u default base m).1

  -- `IncludeTags`: its results, and the map behind it.
  unfoldable pub include_tags : Bool → Context → Bytes → Result File → Tags → Result Bool × Tags
  include_tags u c base opened m =
      let (good, n) = good_os_arch_file u c base m in
      if not good then (ok false, n) else elim (read_data opened) [
        | err x ↦ (err x, n)
        | ok front ↦ (ok (should_build_only syntax u c front n), tags_after u c front n)
      ]

  -- `ShortImport`: `none` where its second result is false.
  unfoldable pub short_import : Bool → Context → Bytes → Result File → Option Bytes
  short_import u c base opened =
      if not (good_os_arch_file u c base none).0 then none else elim (read_data opened) [
        | err x ↦ none
        | ok front ↦
            if not (should_build_only syntax u c front none)
            then none
            else elim (read_package_name front) [ ok name ↦ some name | err x ↦ none ]
      ]

  -- `ReadPackageNameTags`, with the context `build.Default`: the name, whether the file is built, and
  -- the map behind it.
  unfoldable pub read_package_name_tags :
      Bool → Context → Result File → Tags → Result (Bytes × Bool × Tags)
  read_package_name_tags u default opened m = read_data opened >>= λ front.
      read_package_name front >>= λ name.
      ok (name, should_build_only syntax u default front m, tags_after u default front m)

  -- The end of `MatchFile`: what `shouldBuild` returns.
  unfoldable pub match_built : Bytes → Result Built → Matched
  match_built name (ok r) = record { pkg_name = name; is_match = r.should_build; error = none }
  match_built name (err x) = record { pkg_name = name; is_match = false; error = some x }

  -- `MatchFile`
  unfoldable pub match_file : Bool → Context → Bytes → Result File → Matched
  match_file u c base opened = elim (read_data opened) [
    | err x ↦ record { pkg_name = []; is_match = false; error = some x }
    | ok front ↦ elim (read_package_name front) [
      | err x ↦ record { pkg_name = []; is_match = false; error = some x }
      | ok name ↦
          if not (good_os_arch_file u c base none).0
          then record { pkg_name = name; is_match = false; error = none }
          else match_built name (should_build syntax u c front none)
    ]
  ]
