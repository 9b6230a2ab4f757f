-- ===== src/Reader/GoInfo.antt =====
-- `readString`, `readImport`, `readGoInfo` and `readImports` of read.go: a file up to its imports.
pub mod Kept
pub mod Progress
pub mod Strings
pub mod Ending
use buildutil.Base.{
  ℕ, zero, suc, ◌-◌, Bool, true, false, not, ◌&&◌, ◌||◌, List, [], ◌∷◌, ◌++◌, Option, none, some,
  if◌then◌else◌, ◌==◌, codes, Bytes, length, take, Error, syntax, nul, multiple_go_build,
  parsing_go_build, constraint_error, read_error, path_error, out_of_fuel, Result, ok, err,
}
use buildutil.Reader.{
  Reader, new_import_reader, is_ident, is_set, syntax_error, read_byte, rounds, peek_byte,
  next_byte, read_keyword, read_ident,
}

-- The loop of `readString` for a string in backquotes.
pub raw_string : ℕ → Reader → Reader
raw_string zero r = record r { err = some out_of_fuel }
raw_string (suc f) r =
    let (c, s) = next_byte false r in
    let later = raw_string f (if s.eof then syntax_error s else s) in
    if is_set r.err then r else if c == b'`' then s else later

-- A round of the loop for a string in double quotes, behind the test for its end.
pub quoted_byte : ℕ → Reader → Reader
quoted_byte c s =
    let checked = if s.eof || c == b'\n' then syntax_error s else s in
    if c == 92 then (next_byte false checked).1 else checked

-- That loop.
pub quoted_string : ℕ → Reader → Reader
quoted_string zero r = record r { err = some out_of_fuel }
quoted_string (suc f) r =
    let (c, s) = next_byte false r in
    let later = quoted_string f (quoted_byte c s) in
    if is_set r.err then r else if c == b'"' then s else later

-- `readString`
pub read_string : Reader → Reader
read_string r =
    let (c, s) = next_byte true r in
    if c == b'`'
    then raw_string (rounds s) s
    else if c == b'"'
    then quoted_string (rounds s) s
    else syntax_error s

-- `readImport`, before the string.
pub import_name : Reader → Reader
import_name r =
    let (c, s) = peek_byte true r in
    if c == b'.' then record s { peek = 0 } else if is_ident c then read_ident s else s

-- `readImport`
pub read_import : Reader → Reader
read_import r = read_string (import_name r)

-- The loop of `readGoInfo` over the imports in parentheses.
pub import_group : ℕ → Reader → Reader
import_group zero r = record r { err = some out_of_fuel }
import_group (suc f) r =
    let (c, s) = peek_byte true r in
    let later = import_group f (read_import s) in if c == b')' || is_set s.err then s else later

-- An import declaration.
pub import_decl : Reader → Reader
import_decl r =
    let (c, s) = peek_byte true (read_keyword (codes "import") r) in
    let opened = (next_byte false s).1 in
    if c == b'(' then (next_byte false (import_group (rounds opened) opened)).1 else read_import s

-- The loop of `readGoInfo` over the declarations.
pub import_decls : ℕ → Reader → Reader
import_decls zero r = record r { err = some out_of_fuel }
import_decls (suc f) r =
    let (c, s) = peek_byte true r in
    let later = import_decls f (import_decl s) in if c == b'i' then later else s

-- The loop that reads the rest of the file.
pub drain : ℕ → Reader → Reader
drain zero r = record r { err = some out_of_fuel }
drain (suc f) r = let later = drain f (read_byte r).1 in if is_set r.err || r.eof then r else later

-- `r.err == errSyntax`
abbrev pub is_syntax : Option Error → Bool
is_syntax none = false
is_syntax (some syntax) = true
is_syntax (some nul) = false
is_syntax (some multiple_go_build) = false
is_syntax (some (parsing_go_build m)) = false
is_syntax (some (constraint_error m)) = false
is_syntax (some (read_error m)) = false
is_syntax (some (path_error p)) = false
is_syntax (some out_of_fuel) = false

-- The reader behind the imports.
pub read_decls : Reader → Reader
read_decls r = let s = read_ident (read_keyword (codes "package") r) in import_decls (rounds s) s

-- The reader at the end: after a syntax error it has read the whole file.
pub finish : Reader → Reader
finish r = if is_syntax r.err then drain (rounds r) (record r { err = none }) else r

-- `info.header`, for the reader behind the imports and the one at the end.
pub header_of : Reader → Reader → Bytes
header_of r s =
    if is_syntax r.err
    then s.buf
    else if not (is_set r.err) && not r.eof
    then take (length r.buf - 1) r.buf
    else r.buf

-- `readGoInfo`: `info.header`, and the error.
unfoldable pub read_go_info : Bytes → Option Bytes → Bytes × Option Error
read_go_info content ends =
    let r = read_decls (new_import_reader content ends) in (header_of r (finish r), (finish r).err)

abbrev pub header_or_error : Bytes × Option Error → Result Bytes
header_or_error (header, none) = ok header
header_or_error (header, some e) = err e

-- `readImports`
unfoldable pub read_imports : Bytes → Option Bytes → Result Bytes
read_imports content ends = header_or_error (read_go_info content ends)
