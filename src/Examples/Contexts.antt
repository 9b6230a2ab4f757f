-- ===== src/Examples/Contexts.antt =====
-- File names and `MatchContext`.
use buildutil.Base.{
  split, arith, true, ◌&&◌, [], ◌∷◌, ◌++◌, none, some, Bytes, codes, has, ◌≡◌, refl, same, put,
  delete, strip, has_prefix, cut, join,
}
use buildutil.Context.{Context}
use buildutil.Syslist.{known_os, known_arch}
use buildutil.Platforms.{row, supported_os_arch, supported_arch_os, default_go_platforms}
use buildutil.Platforms.Preferred.{create_preferred_list, preferred_os_list}
use buildutil.Tags.{
  note, match_name, match_tag, eval, lookup_tag, is_internal_tag, is_go_experiment_tag,
}
use buildutil.Tags.Eval.{keys}
use buildutil.Util.{strings_contains, tags_intersect}
use buildutil.Util.Copy.{copy_context, copy_tags, make}
use buildutil.Header.{parse_file_header, header_loop, step, inspect, comments, is_go_build_comment}
use buildutil.Header.Space.{trim_space}
use buildutil.Header.Lines.{lines}
use buildutil.FileName.{good_os_arch_file}
use buildutil.FileName.Laws.{extension, good_os_arch_file_platform}
use buildutil.Build.{
  header_constraint, build_header, should_build, should_build_only, parse_build_constraint,
}
use buildutil.Match.{matched}
use buildutil.Match.Platform.{first_preferred, match_goarch, match_goos, try_each, try_eval}
use buildutil.Match.Choose.{
  after_quick, external_tags, impossible_release, quick_tags, set_build_tag, set_build_tags,
  set_experiment, set_experiments, try_build_tags, try_cgo,
}
use buildutil.Match.Search.{try_arches, try_oses, try_platform, try_platforms, try_systems}
use buildutil.Match.Run.{
  after_build, compiler_check, fixed_phases, init_context, last_phases, match_context, pin_name,
  pinned_context, search_context, add_compatible, compatible_oses, make_valid, pin, pin_all,
}
use buildutil.Paths.{fix_gopath, split_path_list, is_subdir}
use buildutil.Match.Frame.{Frame}
use buildutil.Match.Answer.{match_context-should_build}
use buildutil.Examples.Sample.{
  sample_syntax, sample_parse, sample_is_plus, linux_amd64, windows_amd64, toolchain, in_order,
  keep_gopath,
}

known_windows : has known_os (codes "windows") ≡ true
unfolding known_os has same
known_windows = refl

known_arm64 : has known_arch (codes "arm64") ≡ true
unfolding known_arch has same
known_arm64 = refl

-- The name zerrors_windows_arm64_test.go.
good_os_arch_file_platform_example :
    good_os_arch_file true linux_amd64
      (join b'_' (codes "zerrors" ∷ (codes "windows" ∷ (codes "arm64" ∷ (codes "test" ∷ []))))
        ++ codes ".go")
      (some [])
    ≡ (
      match_name true linux_amd64 (codes "arm64") && match_name true linux_amd64 (codes "windows"),
      note (codes "windows") (note (codes "arm64") (some [])),
    )
good_os_arch_file_platform_example =
    good_os_arch_file_platform true linux_amd64 (codes "zerrors") [] (some []) true
      (codes "windows") (codes "arm64") known_windows known_arm64 (extension (codes "go"))
      (ground arith) (ground arith)

-- A file that Windows alone builds, and a context for Linux.
abbrev pub windows_source : Bytes
windows_source = codes "//go:build windows\n\npackage p\n"

pub finds_windows :
    match_context toolchain sample_syntax in_order keep_gopath linux_amd64
      (codes "main.go")
      windows_source
    ≡ matched windows_amd64
unfolding fix_gopath split_path_list is_subdir split match_context after_build compiler_check
    fixed_phases init_context last_phases pin_name pinned_context search_context add_compatible
    compatible_oses make_valid pin pin_all copy_context copy_tags make good_os_arch_file try_arches
    try_oses try_platform try_platforms try_systems after_quick external_tags impossible_release
    quick_tags set_build_tag set_build_tags set_experiment set_experiments try_build_tags try_cgo
    match_goarch match_goos try_each try_eval first_preferred tags_intersect row preferred_os_list
    create_preferred_list supported_os_arch known_os known_arch is_internal_tag is_go_experiment_tag
    lookup_tag note match_name match_tag eval keys strings_contains should_build
    parse_build_constraint header_constraint build_header parse_file_header header_loop step inspect
    comments is_go_build_comment lines trim_space sample_parse sample_is_plus strip has_prefix cut
    same has put delete default_go_platforms
finds_windows = refl

match_context-should_build_example :
    (should_build_only sample_syntax true windows_amd64 windows_source none ≡ true)
    × Frame (init_context toolchain sample_syntax in_order keep_gopath linux_amd64) windows_amd64
match_context-should_build_example =
    match_context-should_build toolchain sample_syntax in_order keep_gopath linux_amd64
      (codes "main.go") windows_source windows_amd64 none finds_windows

abbrev plan9_riscv : Context
plan9_riscv = record linux_amd64 { goos = codes "plan9"; goarch = codes "riscv64" }

plan9_row :
    row supported_os_arch (codes "plan9")
    ≡ some (codes "386" ∷ (codes "amd64" ∷ (codes "arm" ∷ [])))
unfolding row supported_os_arch same
plan9_row = refl

riscv_row : row supported_arch_os (codes "riscv64") ≡ some (codes "linux" ∷ [])
unfolding row supported_arch_os same
riscv_row = refl
