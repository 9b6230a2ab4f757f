-- ===== src/Examples/Commands.antt =====
-- The arguments and the environment of a go command.
use buildutil.Base.{
  arith, List, [], ◌∷◌, ◌≢◌, some, Bytes, codes, ◌≡◌, refl, same, strip, split, if◌then◌else◌,
  trim_prefix,
}
use buildutil.Context.{Context}
use buildutil.Util.Environ.{Environ, lookup, set}
use buildutil.Util.Environ.Laws.{IsKey, lookup-set}
use buildutil.GoCommand.{
  names_tag, unnamed_tags, extract_tag_args, merge_tag_args, replace_tag_args, go_command_context,
}
use buildutil.GoCommand.Arguments.{go_command_context-tags, extract-replace_tag_args}
use buildutil.GoCommand.Settings.{Settings, go_command_context-Settings}
use buildutil.GoCommand.Environment.{expected, go_command_context-env}
use buildutil.Examples.Sample.{linux_amd64}

abbrev tagged : Context
tagged = record linux_amd64 { build_tags = codes "!debug" ∷ (codes "race" ∷ []) }

-- build -tags=debug,netgo ./...
abbrev build_args : List Bytes
build_args = codes "build" ∷ (codes "-tags=debug,netgo" ∷ (codes "./..." ∷ []))

build_args_tags : extract_tag_args build_args ≡ codes "debug" ∷ (codes "netgo" ∷ [])
unfolding extract_tag_args split strip same
build_args_tags = refl

build_args_tagged : extract_tag_args build_args ≢ []
build_args_tagged e = cc build_args_tags

merged_tags :
    merge_tag_args (extract_tag_args build_args) tagged.build_tags
    ≡ codes "netgo" ∷ (codes "!debug" ∷ (codes "race" ∷ []))
unfolding merge_tag_args unnamed_tags names_tag trim_prefix extract_tag_args split strip same
merged_tags = refl

go_command_context-tags_example :
    extract_tag_args (go_command_context [] tagged (codes "go") build_args).args
    ≡ merge_tag_args (extract_tag_args build_args) tagged.build_tags
go_command_context-tags_example =
    go_command_context-tags [] tagged (codes "go") build_args build_args_tagged
      (rw merged_tags (ground arith))

extract-replace_tag_args_example :
    extract_tag_args (replace_tag_args build_args (codes "race" ∷ [])) ≡ codes "race" ∷ []
extract-replace_tag_args_example =
    extract-replace_tag_args build_args (codes "race" ∷ []) build_args_tagged (λ e. cc)
      (ground arith)

abbrev shell : Environ
shell = codes "PATH=/bin" ∷ (codes "GOOS=plan9" ∷ [])

abbrev flagged : Environ
flagged = codes "GOFLAGS=-mod=mod" ∷ (codes "GOROOT=/opt/go" ∷ [])

goos-IsKey : IsKey (codes "GOOS")
goos-IsKey = record { key_ne_nil = λ e. cc; no_equals = ground arith }

path-IsKey : IsKey (codes "PATH")
path-IsKey = record { key_ne_nil = λ e. cc; no_equals = ground arith }

lookup-set_example : lookup (set shell (codes "GOOS") (codes "linux")) (codes "PATH") ≡ (
    if same (codes "GOOS") (codes "PATH")
    then some (codes "linux")
    else lookup shell (codes "PATH"))
lookup-set_example =
    lookup-set shell (codes "GOOS") (codes "linux") (codes "PATH") goos-IsKey path-IsKey

go_command_context-env_example :
    lookup (go_command_context shell tagged (codes "go") build_args).env (codes "GOOS")
    ≡ expected shell tagged (codes "GOOS")
go_command_context-env_example =
    go_command_context-env shell tagged (codes "GOOS") goos-IsKey (codes "go") build_args
      (unfold same in refl) (unfold same in refl) (unfold same in refl)

-- No tags in the arguments, and an inherited GOFLAGS.
go_command_context-Settings_example :
    Settings flagged tagged
      (codes "vet" ∷ [])
      (go_command_context flagged tagged (codes "go") (codes "vet" ∷ [])).env
go_command_context-Settings_example =
    go_command_context-Settings flagged tagged (codes "go") (codes "vet" ∷ [])
