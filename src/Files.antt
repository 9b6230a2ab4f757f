-- ===== src/Files.antt =====
-- The exported functions of buildutil.go and match.go that read a file: `Include`, `ParseConstraint` and
-- `MatchContext`, over a file that has been opened.
pub mod Agree
pub mod Named
pub mod Open
use buildutil.Base.{
  Bool, true, false, not, List, Option, none, some, if◌then◌else◌, Bytes, Keys, Error, Result, ok,
  err, ◌>>=◌,
}
use buildutil.Context.{Context, Toolchain}
use buildutil.FileName.{good_os_arch_file}
use buildutil.Build.{Syntax, should_build_only, parse_build_constraint, Constraint, constraint}
use buildutil.Match.{Outcome}
use buildutil.Match.Run.{match_context}
use buildutil.Paths.{Surroundings, fix_gopath}
use buildutil.Reader.{read_imports_fast}

-- A file as its reader delivers it: the bytes, and what it answers behind them, which is `io.EOF` for
-- `none` and another error for `some`.
pub record File : Type 0 where
  pub content : Bytes
  pub ends : Option Bytes

-- The data and the error of `readImportsFast`, as one result.
abbrev front_or_error : Bytes × Option Error → Result Bytes
front_or_error (front, none) = ok front
front_or_error (front, some e) = err e

-- Opening the file, which is the argument, and `readImportsFast`, with the error of either.
unfoldable pub read_data : Result File → Result Bytes
read_data opened = opened >>= λ f. front_or_error (read_imports_fast f.content f.ends)

module _ (syntax : Syntax) where
  -- `Include`; `base` is the base of the path.
  unfoldable pub include : Bool → Context → Bytes → Result File → Bool
  unfolding read_data
  include u c base opened =
      if not (good_os_arch_file u c base none).0 then false else elim (read_data opened) [
        | ok front ↦ should_build_only syntax u c front none
        | err e ↦ false
      ]

  -- `ParseConstraint`
  unfoldable pub parse_constraint : Result File → Result Constraint
  unfolding read_data
  parse_constraint opened =
      read_data opened >>= λ front. parse_build_constraint syntax front >>= λ x. ok (constraint x)

  -- `MatchContext`, with the reading of the file; an error of the reading is no `MatchError`. `dir` and
  -- `base` are the directory and the base of the file's name.
  unfoldable pub match_context_file :
      Toolchain
      → (Keys → List Bytes)
      → Surroundings
      → Context
      → Bytes
      → Bytes
      → Result File
      → Result Outcome
  unfolding read_data
  match_context_file t range e orig dir base opened = read_data opened >>= λ front.
      ok (match_context t syntax range (fix_gopath e dir) orig base front)
