-- ===== src/Examples/Reading.antt =====
-- Files that are read.
use buildutil.Base.{
  false, ◌≤◌, ap, true, ◌&&◌, ◌++◌, none, some, Bytes, codes, Result, ok, ◌≡◌, refl, same, strip,
  has_prefix, cut,
}
use buildutil.Tags.{tag}
use buildutil.FileName.{good_os_arch_file}
use buildutil.Header.{parse_file_header, header_loop, step, inspect, comments, is_go_build_comment}
use buildutil.Header.Space.{trim_space}
use buildutil.Header.Lines.{lines}
use buildutil.Build.{header_constraint, parse_build_constraint, constraint, eval_constraint}
use buildutil.Match.{matched}
use buildutil.Reader.{
  after_bom, new_import_reader, is_ident, set_error, syntax_error, read_byte, skip_line, skip_block,
  skip_comment, is_space, skip_space, first_byte, peek_byte, next_byte, keyword_bytes, read_keyword,
  ident_bytes, read_ident, read_package, count_error, read_imports_fast,
}
use buildutil.Reader.Count.{read_package-calm}
use buildutil.Reader.Whole.{read_imports_fast-front}
use buildutil.Reader.Fuel.{fueled, read_imports_fast-returns}
use buildutil.Files.{File, read_data, include, parse_constraint, match_context_file}
use buildutil.Files.Agree.{include-parse_constraint, match_context_file-parse_constraint}
use buildutil.Examples.Contexts.{windows_source, finds_windows}
use buildutil.Examples.Sample.{
  sample_syntax, sample_parse, linux_amd64, windows_amd64, toolchain, in_order, surroundings,
}

abbrev long_source : Bytes
long_source = windows_source ++ codes "\nimport \"os\"\n"

read_imports_fast-front_example :
    (rest : Bytes) × (after_bom long_source ≡ (read_imports_fast long_source none).0 ++ rest)
read_imports_fast-front_example = read_imports_fast-front long_source none

read_imports_fast-returns_example : fueled (read_imports_fast long_source none).1 ≡ true
read_imports_fast-returns_example = read_imports_fast-returns long_source none

abbrev pub windows_file : Result File
windows_file = ok (record { content = windows_source; ends = none })

windows_data : read_data windows_file ≡ ok windows_source
unfolding read_data read_imports_fast after_bom new_import_reader is_ident set_error syntax_error
    read_byte skip_line skip_block skip_comment is_space skip_space first_byte peek_byte next_byte
    keyword_bytes read_keyword ident_bytes read_ident read_package count_error strip
windows_data = refl

windows_constraint :
    parse_constraint sample_syntax windows_file ≡ ok (constraint (some (tag (codes "windows"))))
unfolding parse_constraint parse_build_constraint header_constraint parse_file_header header_loop
    step inspect comments is_go_build_comment lines trim_space sample_parse strip has_prefix cut
    same
windows_constraint = rw windows_data refl

include-parse_constraint_example :
    include sample_syntax true linux_amd64 (codes "main.go") windows_file ≡ (
      (good_os_arch_file true linux_amd64 (codes "main.go") none).0
      && eval_constraint true linux_amd64 (constraint (some (tag (codes "windows")))))
include-parse_constraint_example =
    include-parse_constraint sample_syntax true linux_amd64 (codes "main.go") windows_file
      (constraint (some (tag (codes "windows")))) windows_constraint

windows_found :
    match_context_file sample_syntax toolchain in_order surroundings linux_amd64
      (codes "/home/go/src/p")
      (codes "main.go")
      windows_file
    ≡ ok (matched windows_amd64)
unfolding match_context_file
windows_found = rw windows_data (ap ok finds_windows)

match_context_file-parse_constraint_example :
    eval_constraint true windows_amd64 (constraint (some (tag (codes "windows")))) ≡ true
match_context_file-parse_constraint_example =
    match_context_file-parse_constraint sample_syntax toolchain in_order surroundings linux_amd64
      windows_amd64 (codes "/home/go/src/p") (codes "main.go") windows_file
      (constraint (some (tag (codes "windows")))) windows_constraint windows_found

read_package-calm_example :
    let r = read_package (new_import_reader long_source none) in (r.looping ≡ false) × (r.nerr ≤ 11)
read_package-calm_example = read_package-calm long_source none
