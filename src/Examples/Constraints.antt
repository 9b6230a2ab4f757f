-- ===== src/Examples/Constraints.antt =====
-- Build constraints, headers and file names.
use buildutil.Header.Kept.{Ended, nothing, ended_line}
use buildutil.Header.Plain.{StartsPlain, with_newline, last_line}
use buildutil.Build.Front.{should_build-front}
use buildutil.Base.{
  ◌&&◌, arith, ◌==◌, Lacks, Bool, true, false, not, ◌||◌, [], ◌∷◌, ◌++◌, none, some, Bytes, codes,
  Keys, has, ok, err, ◌≡◌, refl, ◌⊎◌, same, strip, has_prefix, cut, multiple_go_build,
}
use buildutil.Tags.{Expr, tag, neg, and, or, eval, lookup_tag}
use buildutil.Tags.Eval.{value, mentions, satisfies, keys, eval_lem}
use buildutil.Tags.Polarity.{occurrences, set_tag, lookup_tag-polarity}
use buildutil.Header.{
  initial, Header, parse_file_header, header_loop, step, inspect, comments, is_go_build_comment,
}
use buildutil.Header.Space.{trim_space}
use buildutil.Header.Lines.{lines}
use buildutil.Header.Fuel.{parse_file_header-returns}
use buildutil.Header.Kept.{texts, AllComments, last_is_blank}
use buildutil.Header.Comments.{parse_file_header-comments}
use buildutil.Build.{
  header_constraint, constraint_lines, constraint_line, is_plus_line, Built, should_build,
  parse_build_constraint,
}
use buildutil.Build.Agree.{Agrees, should_build-parse_build_constraint}
use buildutil.Build.Observe.{answer_of, should_build-answer}
use buildutil.Examples.Sample.{sample_syntax, sample_parse, sample_is_plus, linux_amd64}

-- linux && !cgo || gc
abbrev sample_expr : Expr
sample_expr = or (and (tag (codes "linux")) (neg (tag (codes "cgo")))) (tag (codes "gc"))

eval_lem_example :
    ((eval true linux_amd64 sample_expr (some [])).0 ≡ satisfies true linux_amd64 sample_expr)
    × ((eval true linux_amd64 sample_expr none).1 ≡ none)
    × ((m : Keys) (k : Bytes)
        → ((eval true linux_amd64 sample_expr (some m)).1
            ≡ some (keys (eval true linux_amd64 sample_expr (some m)).1))
          × (has (keys (eval true linux_amd64 sample_expr (some m)).1) k
              ≡ (has m k || mentions sample_expr k)))
eval_lem_example = eval_lem true linux_amd64 sample_expr (some [])

-- Every tag is off but `gc`.
abbrev only_gc : Bytes → Bool
only_gc s = same s (codes "gc")

lookup_tag-polarity_example :
    value
      (set_tag only_gc (codes "cgo") (not (lookup_tag sample_expr (codes "cgo")).negated))
      sample_expr
    ≡ true
lookup_tag-polarity_example =
    lookup_tag-polarity only_gc (codes "cgo") sample_expr (unfold occurrences same in refl)
      (unfold value lookup_tag same in refl)

-- A constraint in the form of `// +build` lines.
abbrev plus_source : Bytes
plus_source = codes "// Copyright\n\n// +build linux\n// +build !cgo\n\npackage p\n"

abbrev plus_expr : Expr
plus_expr = and (tag (codes "linux")) (neg (tag (codes "cgo")))

plus_source_read : parse_build_constraint sample_syntax plus_source ≡ ok (some plus_expr)
unfolding parse_build_constraint header_constraint constraint_lines constraint_line is_plus_line
    parse_file_header header_loop step inspect comments is_go_build_comment lines trim_space
    sample_parse sample_is_plus strip has_prefix cut same
plus_source_read = refl

should_build-parse_build_constraint_example :
    (r : Built) × (should_build sample_syntax true linux_amd64 plus_source (some []) ≡ ok r)
    × Agrees sample_syntax true linux_amd64 [] (some plus_expr) r
should_build-parse_build_constraint_example =
    should_build-parse_build_constraint sample_syntax true linux_amd64 plus_source []
      (some plus_expr) plus_source_read

-- A `//go:build` comment that stands twice.
abbrev twice_source : Bytes
twice_source = codes "//go:build linux\n//go:build windows\n\npackage p\n"

twice_source_refused :
    should_build sample_syntax true linux_amd64 twice_source none ≡ err multiple_go_build
unfolding should_build parse_file_header header_loop step inspect comments is_go_build_comment lines
    trim_space strip has_prefix cut same
twice_source_refused = refl

should_build-answer_example :
    answer_of (should_build sample_syntax true linux_amd64 plus_source none)
    ≡ answer_of (should_build sample_syntax true linux_amd64 plus_source (some (codes "cgo" ∷ [])))
should_build-answer_example =
    should_build-answer sample_syntax true linux_amd64 plus_source none (some (codes "cgo" ∷ []))

parse_file_header-returns_example :
    ((h : Header) × (parse_file_header twice_source ≡ ok h))
    ⊎ (parse_file_header twice_source ≡ err multiple_go_build)
parse_file_header-returns_example = parse_file_header-returns twice_source

abbrev plus_header : Header
plus_header = record {
  trimmed = codes "// Copyright\n\n// +build linux\n// +build !cgo\n\n";
  go_build = none;
  binary_only = false;
}

plus_header_read : parse_file_header plus_source ≡ ok plus_header
unfolding parse_file_header header_loop step inspect comments is_go_build_comment lines trim_space
    strip has_prefix cut same
plus_header_read = refl

parse_file_header-comments_example :
    ((rest : Bytes) × (plus_source ≡ plus_header.trimmed ++ rest))
    × AllComments (texts plus_header.trimmed)
    × (last_is_blank (texts plus_header.trimmed) ≡ true)
parse_file_header-comments_example =
    parse_file_header-comments plus_source plus_header plus_header_read

no_newline : Bytes → Bool
no_newline [] = true
no_newline (c ∷ s) = not (c == b'\n') && no_newline s

no_newline-Lacks : (s : Bytes) → no_newline s ≡ true → Lacks b'\n' s
unfolding no_newline
no_newline-Lacks [] h = tt
no_newline-Lacks (c ∷ s) h = (λ e. ground (arith, h, e), no_newline-Lacks s (ground (arith, h)))

-- A block comment of two lines, and a blank line.
abbrev block : Bytes
block = codes "/*\n*/\n\n"

block-Ended : Ended block
unfolding no_newline
block-Ended =
    ended_line (codes "/*") (no_newline-Lacks (codes "/*") refl)
      (ended_line (codes "*/") (no_newline-Lacks (codes "*/") refl) (ended_line [] tt nothing))

block_read : header_loop 7 (lines block) initial ≡ ok (record initial { ended = true })
unfolding header_loop lines step inspect comments trim_space is_go_build_comment strip has_prefix
    cut same
block_read = refl

plain_p : StartsPlain (codes "package p\n")
unfolding no_newline trim_space strip has_prefix
plain_p = with_newline (codes "package p") [] (no_newline-Lacks (codes "package p") refl) refl

plain_q : StartsPlain (codes "package q")
unfolding no_newline trim_space strip has_prefix
plain_q = last_line b'p' (codes "ackage q") (no_newline-Lacks (codes "package q") refl) refl

should_build-front_example :
    (should_build sample_syntax true linux_amd64 (block ++ codes "package p\n") none
      ≡ should_build sample_syntax true linux_amd64 (block ++ codes "package q") none)
    × (parse_build_constraint sample_syntax (block ++ codes "package p\n")
        ≡ parse_build_constraint sample_syntax (block ++ codes "package q"))
should_build-front_example =
    should_build-front sample_syntax true linux_amd64 none block (codes "package p\n")
      (codes "package q") (record initial { ended = true }) block-Ended block_read refl plain_p
      plain_q
