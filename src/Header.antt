-- ===== src/Header.antt =====
-- `parseFileHeader` and `isGoBuildComment` of buildutil.go. Header/Space has `bytes.TrimSpace`,
-- Header/Lines the loop over lines; Header/Fuel and Header/Comments prove them.
pub mod Space
pub mod Lines
pub mod Fuel
pub mod Kept
pub mod Comments
pub mod Plain
pub mod Front
use buildutil.Base.{
  ℕ, zero, suc, ◌-◌, Bool, true, false, not, ◌&&◌, ◌||◌, List, [], ◌∷◌, ◌++◌, Option, none, some,
  if◌then◌else◌, ltb, codes, Bytes, same, cut, strip, has_prefix, length, take, drop, is_empty,
  Result, ok, err, ◌>>=◌, multiple_go_build, out_of_fuel,
}
use buildutil.Header.Space.{trim_space}
use buildutil.Header.Lines.{Line, lines}

-- The constants `slashSlash`, `slashStar`, `starSlash`, `goBuildComment` and `binaryOnlyComment`.
abbrev pub slash_slash : Bytes
slash_slash = codes "//"

abbrev pub slash_star : Bytes
slash_star = codes "/*"

abbrev pub star_slash : Bytes
star_slash = codes "*/"

abbrev go_build_comment : Bytes
go_build_comment = codes "//go:build"

abbrev binary_only_comment : Bytes
binary_only_comment = codes "//go:binary-only-package"

-- `isGoBuildComment`
unfoldable pub is_go_build_comment : Bytes → Bool
is_go_build_comment line =
    if not (has_prefix line go_build_comment)
    then false
    else let rest = drop (length go_build_comment) (trim_space line) in
      is_empty rest || ltb (length (trim_space rest)) (length rest)

-- The variables of `parseFileHeader` that live across its lines (`p` is the list of lines).
pub record State : Type 0 where
  pub end : ℕ
  pub ended : Bool
  pub in_slash_star : Bool
  pub go_build : Option Bytes
  pub binary_only : Bool

-- How the work on a line ends: `continue Lines`, or `break Lines`.
pub data Step : Type 0 where
  next_line : State → Step
  stop : State → Step

-- The loop `Comments`, on fuel.
unfoldable pub comments : ℕ → Bytes → State → Result Step
comments zero line st = err out_of_fuel
comments (suc f) line st =
    let opened =
      comments f (trim_space (drop (length slash_star) line))
        (record st { in_slash_star = true }) in
    if is_empty line
    then ok (next_line st)
    else if st.in_slash_star
    then elim (cut star_slash line) [
      | none ↦ ok (next_line st)
      | some (before, after) ↦ comments f (trim_space after) (record st { in_slash_star = false })
    ]
    else if has_prefix line slash_slash
    then ok (next_line st)
    else if has_prefix line slash_star
    then opened
    else ok (stop st)

is_set : Option Bytes → Bool
is_set none = false
is_set (some b) = true

-- The tests of one line that stand above the loop `Comments`, for a line that is not skipped as blank.
unfoldable pub inspect : Bytes → State → Result State
unfolding is_set
inspect line st =
    let first = if not (has_prefix line slash_slash) then record st { ended = true } else st in
    let build = not first.in_slash_star && is_go_build_comment line in
    if build && is_set first.go_build
    then err multiple_go_build
    else let second = if build then record first { go_build = some line } else first in
      ok (
        if not second.in_slash_star && same line binary_only_comment
        then record second { binary_only = true }
        else second)

-- One round of the loop `Lines`; `n` is `len(content)`.
unfoldable pub step : ℕ → Line → State → Result Step
step n l st =
    let line = trim_space l.text in
    if is_empty line && not st.ended
    then ok (next_line (record st { end = n - length l.rest }))
    else (do s ← inspect line st; comments (suc (length line)) line s)

-- What a round leaves to do.
abbrev pub carry_on : (State → Result State) → Result Step → Result State
carry_on next (err e) = err e
carry_on next (ok (next_line st)) = next st
carry_on next (ok (stop st)) = ok st

-- The loop `Lines`.
unfoldable pub header_loop : ℕ → List Line → State → Result State
header_loop n [] st = ok st
header_loop n (l ∷ ls) st = carry_on (header_loop n ls) (step n l st)

-- The results of `parseFileHeader`.
pub record Header : Type 0 where
  pub trimmed : Bytes
  pub go_build : Option Bytes
  pub binary_only : Bool

abbrev pub initial : State
initial = record {
  end = 0;
  ended = false;
  in_slash_star = false;
  go_build = none;
  binary_only = false;
}

-- `parseFileHeader`
unfoldable pub parse_file_header : Bytes → Result Header
parse_file_header content = do
  st ← header_loop (length content) (lines content) initial
  ok (record {
    trimmed = take st.end content;
    go_build = st.go_build;
    binary_only = st.binary_only;
  })
