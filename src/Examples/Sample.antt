-- ===== src/Examples/Sample.antt =====
-- A toolchain, a context, and a small syntax of constraints: tags, `!tag` and one `&&`.
use buildutil.Paths.{Surroundings, fix_gopath}
use buildutil.Base.{
  Bool, true, List, [], ◌∷◌, Option, none, some, Bytes, codes, Keys, strip, cut, has_prefix,
}
use buildutil.Context.{Context, Toolchain}
use buildutil.Tags.{Expr, tag, neg, and}
use buildutil.Build.{Syntax, Parsed, parsed, invalid}

literal : Bytes → Expr
literal s = elim (strip (codes "!") s) [ none ↦ tag s | some rest ↦ neg (tag rest) ]

conjunction : Bytes → Expr
unfolding literal
conjunction s = elim (cut (codes " && ") s) [
  | none ↦ literal s
  | some (a, b) ↦ and (literal a) (literal b)
]

unfoldable pub sample_parse : Bytes → Parsed
unfolding conjunction
sample_parse s = elim (strip (codes "//go:build ") s) [
  | some rest ↦ parsed (conjunction rest)
  | none ↦ elim (strip (codes "// +build ") s) [
    | some rest ↦ parsed (conjunction rest)
    | none ↦ invalid (codes "not a build constraint")
  ]
]

unfoldable pub sample_is_plus : Bytes → Bool
sample_is_plus s = has_prefix s (codes "// +build ")

abbrev pub sample_syntax : Syntax
sample_syntax = record { parse = sample_parse; is_plus_build = sample_is_plus }

abbrev pub toolchain : Toolchain
toolchain = record {
  goos = codes "linux";
  goarch = codes "amd64";
  goroot = codes "/usr/lib/go";
  compiler = codes "gc";
  match_unix = true;
  default_release_tags = codes "go1.1" ∷ (codes "go1.18" ∷ []);
}

abbrev pub linux_amd64 : Context
linux_amd64 = record {
  goarch = codes "amd64";
  goos = codes "linux";
  goroot = codes "/usr/lib/go";
  gopath = codes "/home/go";
  cgo_enabled = true;
  compiler = codes "gc";
  build_tags = [];
  tool_tags = [];
  release_tags = codes "go1.1" ∷ (codes "go1.18" ∷ []);
}

abbrev pub windows_amd64 : Context
windows_amd64 = record linux_amd64 { goos = codes "windows" }

-- A map is ranged over in the order of its list.
abbrev pub in_order : Keys → List Bytes
in_order m = m

abbrev pub surroundings : Surroundings
surroundings = record {
  eval_symlinks = λ s. s;
  default_gopath = codes "/root/go";
  split_path_list = none;
}

-- The file lies in the GOPATH.
abbrev pub keep_gopath : Context → Option Bytes
keep_gopath = fix_gopath surroundings (codes "/home/go/src/p")
