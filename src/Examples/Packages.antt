-- ===== src/Examples/Packages.antt =====
-- Package names, imports, and files that are matched.
use buildutil.Base.{
  true, ◌&&◌, ◌++◌, none, some, if◌then◌else◌, Bytes, codes, ok, err, syntax, ◌≡◌, ◌⊎◌,
}
use buildutil.Reader.{after_bom}
use buildutil.Reader.GoInfo.{read_go_info}
use buildutil.Reader.GoInfo.Kept.{read_go_info-front}
use buildutil.Reader.GoInfo.Ending.{read_go_info-returns}
use buildutil.Reader.Fuel.{fueled}
use buildutil.PackageName.{read_package_name}
use buildutil.PackageName.Clause.{PackageClause, read_package_name-PackageClause}
use buildutil.Files.{include}
use buildutil.Files.Named.{read_package_name_file, short_import, match_file}
use buildutil.Files.Named.Answers.{is_ok, match_file-include}
use buildutil.Examples.Reading.{windows_file}
use buildutil.Examples.Sample.{sample_syntax, windows_amd64}

abbrev imports_os : Bytes
imports_os = codes "// A\npackage main\n\nimport (\n\tf \"fmt\"\n\t`os`\n)\nvar x int\n"

read_go_info-front_example :
    (rest : Bytes) × (after_bom imports_os ≡ (read_go_info imports_os none).0 ++ rest)
read_go_info-front_example = read_go_info-front imports_os none

read_go_info-returns_example : fueled (read_go_info imports_os none).1 ≡ true
read_go_info-returns_example = read_go_info-returns imports_os none

read_package_name-PackageClause_example :
    ((name : Bytes) × (read_package_name imports_os ≡ ok name) × PackageClause imports_os name)
    ⊎ (read_package_name imports_os ≡ err syntax)
read_package_name-PackageClause_example = read_package_name-PackageClause imports_os

match_file-include_example :
    ((match_file sample_syntax true windows_amd64 (codes "main.go") windows_file).is_match ≡ (
      include sample_syntax true windows_amd64 (codes "main.go") windows_file
      && is_ok (read_package_name_file windows_file)))
    × (short_import sample_syntax true windows_amd64 (codes "main.go") windows_file ≡ (
        if (match_file sample_syntax true windows_amd64 (codes "main.go") windows_file).is_match
        then some
            (match_file sample_syntax true windows_amd64 (codes "main.go") windows_file).pkg_name
        else none))
match_file-include_example =
    match_file-include sample_syntax true windows_amd64 (codes "main.go") windows_file
