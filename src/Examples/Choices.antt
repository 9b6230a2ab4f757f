-- ===== src/Examples/Choices.antt =====
-- The last phase of `MatchContext`.
use buildutil.Base.{
  split, true, false, [], ◌∷◌, none, some, Keys, Bytes, codes, has, ◌≡◌, refl, same, put, delete,
  strip, has_prefix, cut, ok,
}
use buildutil.Context.{Context}
use buildutil.Syslist.{known_os, known_arch}
use buildutil.Platforms.{row, supported_os_arch, default_go_platforms}
use buildutil.Platforms.Preferred.{preferred_arch_list, create_preferred_list, preferred_os_list}
use buildutil.Tags.{
  tag, and, note, match_name, match_tag, eval, lookup_tag, is_internal_tag, is_go_experiment_tag,
  Expr,
}
use buildutil.Tags.Eval.{keys}
use buildutil.Util.{strings_contains, tags_intersect}
use buildutil.Util.Copy.{copy_context, copy_tags, make}
use buildutil.Header.{parse_file_header, header_loop, step, inspect, comments, is_go_build_comment}
use buildutil.Header.Space.{trim_space}
use buildutil.Header.Lines.{lines}
use buildutil.FileName.{good_os_arch_file}
use buildutil.Build.{
  Built, header_constraint, build_header, should_build, should_build_only, parse_build_constraint,
}
use buildutil.Match.{hit, failed, match_context_error}
use buildutil.Match.Platform.{
  holds_in, first_preferred, match_goarch, match_goos, try_each, try_eval,
}
use buildutil.Match.Choose.{
  after_quick, external_tags, impossible_release, quick_tags, set_build_tag, set_build_tags,
  set_experiment, set_experiments, try_build_tags, try_cgo,
}
use buildutil.Match.Search.{
  Required, try_arches, try_oses, try_platform, try_platforms, try_systems,
}
use buildutil.Match.Run.{
  after_build, compiler_check, fixed_phases, init_context, last_phases, match_context, pin_name,
  pinned_context, search_context, add_compatible, compatible_oses, make_valid, pin, pin_all,
}
use buildutil.Match.Choice.{Choice, system_alone, system, arch_kept}
use buildutil.Match.Choice.Found.{try_systems-finds}
use buildutil.Match.Choice.Error.{match_context-error, last_context}
use buildutil.Paths.{fix_gopath, split_path_list, is_subdir}
use buildutil.Examples.Sample.{
  sample_syntax, sample_parse, sample_is_plus, linux_amd64, windows_amd64, toolchain, in_order,
  keep_gopath,
}

abbrev anything : Required
anything = record { os = none; arch = [] }

abbrev two_systems : Keys
two_systems = codes "windows" ∷ (codes "linux" ∷ [])

only_systems : tags_intersect (codes "windows" ∷ []) known_os ≡ true
unfolding tags_intersect known_os has same
only_systems = refl

no_machines : tags_intersect (codes "windows" ∷ []) known_arch ≡ false
unfolding tags_intersect known_arch has same
no_machines = refl

windows_listed : has (preferred_os_list toolchain) (codes "windows") ≡ true
unfolding has same preferred_os_list create_preferred_list put default_go_platforms
windows_listed = refl

windows_row :
    row supported_os_arch (codes "windows")
    ≡ some (codes "386" ∷ (codes "amd64" ∷ (codes "arm" ∷ (codes "arm64" ∷ []))))
unfolding row supported_os_arch same
windows_row = refl

windows_chosen : Choice toolchain anything (codes "windows" ∷ []) linux_amd64 windows_amd64
unfolding has same
windows_chosen = system_alone only_systems no_machines (
    system (codes "windows") windows_listed refl (
      arch_kept (codes "386" ∷ (codes "amd64" ∷ (codes "arm" ∷ (codes "arm64" ∷ [])))) windows_row
        refl refl))

windows_holds : holds_in true windows_amd64 (tag (codes "windows")) ≡ true
unfolding eval match_tag match_name same note
windows_holds = refl

try_systems-finds_example :
    (d : Context) × (try_systems true toolchain
        (tag (codes "windows"))
        anything
        (codes "windows" ∷ [])
        linux_amd64
      ≡ hit d)
    × Choice toolchain anything (codes "windows" ∷ []) linux_amd64 d
    × (holds_in true d (tag (codes "windows")) ≡ true)
try_systems-finds_example =
    try_systems-finds true toolchain (tag (codes "windows")) anything (codes "windows" ∷ [])
      linux_amd64 windows_amd64 windows_chosen windows_holds

-- A file that no context builds: it wants two systems.
abbrev both_source : Bytes
both_source = codes "//go:build windows && linux\n\npackage p\n"

abbrev both : Expr
both = and (tag (codes "windows")) (tag (codes "linux"))

both_read : parse_build_constraint sample_syntax both_source ≡ ok (some both)
unfolding parse_build_constraint header_constraint parse_file_header header_loop step inspect
    comments is_go_build_comment lines trim_space sample_parse strip has_prefix cut same
both_read = refl

abbrev both_built : Built
both_built = record { should_build = false; binary_only = false; all_tags = some two_systems }

both_build :
    should_build sample_syntax true
      (pinned_context toolchain sample_syntax in_order keep_gopath linux_amd64
        (codes "main.go")).ctxt
      both_source
      (some
        (pinned_context toolchain sample_syntax in_order keep_gopath linux_amd64
          (codes "main.go")).tags)
    ≡ ok both_built
unfolding fix_gopath split_path_list is_subdir split init_context pin_name pinned_context
    add_compatible make_valid copy_context copy_tags make good_os_arch_file note match_name
    match_tag eval keys should_build header_constraint build_header parse_file_header header_loop
    step inspect comments is_go_build_comment lines trim_space sample_parse sample_is_plus strip
    has_prefix cut same has put strings_contains
both_build = refl

both_fails :
    match_context toolchain sample_syntax in_order keep_gopath linux_amd64
      (codes "main.go")
      both_source
    ≡ failed false match_context_error
unfolding fix_gopath split_path_list is_subdir split match_context after_build compiler_check
    fixed_phases init_context last_phases pin_name pinned_context search_context add_compatible
    compatible_oses make_valid pin pin_all copy_context copy_tags make good_os_arch_file try_arches
    try_oses try_platform try_platforms try_systems after_quick external_tags impossible_release
    quick_tags set_build_tag set_build_tags set_experiment set_experiments try_build_tags try_cgo
    match_goarch match_goos try_each try_eval first_preferred tags_intersect row preferred_os_list
    create_preferred_list supported_os_arch known_os known_arch is_internal_tag is_go_experiment_tag
    lookup_tag note match_name match_tag eval keys strings_contains should_build
    parse_build_constraint header_constraint build_header parse_file_header header_loop step inspect
    comments is_go_build_comment lines trim_space sample_parse sample_is_plus strip has_prefix cut
    same has put delete default_go_platforms preferred_arch_list
both_fails = refl

both_systems : tags_intersect two_systems known_os ≡ true
unfolding tags_intersect known_os has same
both_systems = refl

both_no_machines : tags_intersect two_systems known_arch ≡ false
unfolding tags_intersect known_arch has same
both_no_machines = refl

both_chosen :
    Choice toolchain
      (pinned_context toolchain sample_syntax in_order keep_gopath linux_amd64
        (codes "main.go")).required
      two_systems
      (last_context toolchain in_order both two_systems
        (pinned_context toolchain sample_syntax in_order keep_gopath linux_amd64
          (codes "main.go")).ctxt)
      windows_amd64
unfolding fix_gopath split_path_list is_subdir split init_context pin_name pinned_context
    add_compatible make_valid copy_context copy_tags make good_os_arch_file note match_name
    match_tag eval keys has same external_tags set_experiments set_experiment try_build_tags try_cgo
    try_eval is_internal_tag is_go_experiment_tag known_os known_arch strip has_prefix cut
    strings_contains
both_chosen = system_alone both_systems both_no_machines (
    system (codes "windows") windows_listed refl (
      arch_kept (codes "386" ∷ (codes "amd64" ∷ (codes "arm" ∷ (codes "arm64" ∷ [])))) windows_row
        refl refl))

match_context-error_example :
    should_build_only sample_syntax true windows_amd64 both_source none ≡ false
unfolding keys
match_context-error_example =
    match_context-error toolchain sample_syntax in_order keep_gopath linux_amd64 (codes "main.go")
      both_source none both_built both windows_amd64 both_read both_build both_fails both_chosen
