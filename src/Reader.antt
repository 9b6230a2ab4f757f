-- ===== src/Reader.antt =====
-- `importReader` and `readImportsFast` of read.go: the front of a file, up to the package clause.
-- Reader/Whole, Reader/Fuel and Reader/Count prove them.
pub mod Whole
pub mod Fuel
pub mod Count
pub mod GoInfo
use buildutil.Base.{
  ℕ, zero, suc, ◌+◌, ◌-◌, Bool, true, false, not, ◌&&◌, ◌||◌, List, [], ◌∷◌, ◌++◌, Option, none,
  some, if◌then◌else◌, leb, ltb, ◌==◌, codes, Bytes, strip, length, take, Error, syntax, nul,
  read_error, out_of_fuel,
}

-- `importReader`. The buffered reader `b` is the input that it has not delivered and what it answers
-- behind that: `none` stands for `io.EOF`. A `peek` of 0 means that there is none. `looping` tells that
-- the source has panicked.
pub record Reader : Type 0 where
  pub input : Bytes
  pub ends : Option Bytes
  pub buf : Bytes
  pub peek : ℕ
  pub err : Option Error
  pub eof : Bool
  pub nerr : ℕ
  pub looping : Bool

-- The content without the UTF-8 byte order mark that it may start with.
unfoldable pub after_bom : Bytes → Bytes
after_bom content = elim (strip (239 ∷ (187 ∷ (191 ∷ []))) content) [
  | none ↦ content
  | some rest ↦ rest
]

-- `newImportReader`, for a reader that delivers `content`.
unfoldable pub new_import_reader : Bytes → Option Bytes → Reader
new_import_reader content ends = record {
  input = after_bom content;
  ends = ends;
  buf = [];
  peek = 0;
  err = none;
  eof = false;
  nerr = 0;
  looping = false;
}

-- `isIdent`
unfoldable pub is_ident : ℕ → Bool
is_ident c =
    leb b'A' c && leb c b'Z'
    || leb b'a' c && leb c b'z'
    || leb b'0' c && leb c b'9'
    || c == b'_'
    || leb 128 c

abbrev pub is_set : Option Error → Bool
is_set none = false
is_set (some e) = true

-- `if r.err == nil { r.err = err }`
unfoldable pub set_error : Error → Reader → Reader
set_error e r = if is_set r.err then r else record r { err = some e }

-- `syntaxError`
unfoldable pub syntax_error : Reader → Reader
unfolding set_error
syntax_error r = set_error syntax r

-- `readByte`, by what is left of the input.
pub read_from : Bytes → Reader → ℕ × Reader
unfolding set_error
read_from [] r = elim r.ends [
  | none ↦ (0, record r { eof = true })
  | some message ↦ (0, set_error (read_error message) r)
]
read_from (c ∷ rest) r =
    let s = record r { input = rest; buf = r.buf ++ (c ∷ []) } in
    if c == 0 then (0, set_error nul s) else (c, s)

-- `readByte`
unfoldable pub read_byte : Reader → ℕ × Reader
unfolding read_from
read_byte r = read_from r.input r

-- The loop of `peekByte` that skips a `//` comment.
unfoldable pub skip_line : ℕ → ℕ → Reader → Reader
skip_line zero c r = record r { err = some out_of_fuel }
skip_line (suc f) c r =
    let next = read_byte r in
    let later = skip_line f next.0 next.1 in
    if c == b'\n' || is_set r.err || r.eof then r else later

-- The loop of `peekByte` that skips a block comment.
unfoldable pub skip_block : ℕ → ℕ → ℕ → Reader → Reader
skip_block zero c c1 r = record r { err = some out_of_fuel }
skip_block (suc f) c c1 r =
    let next = read_byte (if r.eof then syntax_error r else r) in
    let later = skip_block f c1 next.0 next.1 in
    if c == b'*' && c1 == b'/' || is_set r.err then r else later

-- Rounds that are enough for a loop over the input.
abbrev pub rounds : Reader → ℕ
rounds r = 3 + length r.input

-- A comment behind its first `/`: `c` is the byte behind that.
unfoldable pub skip_comment : ℕ → Reader → Reader
skip_comment c r =
    if c == b'/'
    then skip_line (rounds r) c r
    else if c == b'*'
    then skip_block (rounds r) c 0 r
    else syntax_error r

unfoldable pub is_space : ℕ → Bool
is_space c = c == b' ' || c == 12 || c == b'\t' || c == b'\r' || c == b'\n' || c == b';'

-- The loop of `peekByte`, where `skipSpace` is set.
unfoldable pub skip_space : ℕ → ℕ → Reader → ℕ × Reader
skip_space zero c r = (c, record r { err = some out_of_fuel })
skip_space (suc f) c r =
    let next = read_byte r in
    let later = skip_space f next.0 next.1 in
    let behind = read_byte (skip_comment next.0 next.1) in
    let resumed = skip_space f behind.0 behind.1 in
    if is_set r.err || r.eof
    then (c, r)
    else if is_space c
    then later
    else if c == b'/'
    then resumed
    else (c, r)

-- The byte that `peekByte` starts with.
unfoldable pub first_byte : Reader → ℕ × Reader
first_byte r = if r.peek == 0 then read_byte r else (r.peek, r)

-- What `peekByte` does after an error: it counts, and panics on a count above 10000.
unfoldable pub count_error : Reader → Reader
count_error r = let n = suc r.nerr in record r { nerr = n; looping = r.looping || ltb 10000 n }

-- `peekByte`
unfoldable pub peek_byte : Bool → Reader → ℕ × Reader
peek_byte skips r =
    let (c, s) = first_byte r in
    let (d, w) = if skips then skip_space (rounds s) c s else (c, s) in
    if is_set r.err then (0, count_error r) else (d, record w { peek = d })

-- `nextByte`
unfoldable pub next_byte : Bool → Reader → ℕ × Reader
next_byte skips r = let (c, s) = peek_byte skips r in (c, record s { peek = 0 })

-- `readKeyword`, behind its first line.
unfoldable pub keyword_bytes : Bytes → Reader → Reader
keyword_bytes [] r = let (c, s) = peek_byte false r in if is_ident c then syntax_error s else s
keyword_bytes (k ∷ kw) r =
    let (c, s) = next_byte false r in
    let later = keyword_bytes kw s in if not (c == k) then syntax_error s else later

-- `readKeyword`
unfoldable pub read_keyword : Bytes → Reader → Reader
read_keyword kw r = keyword_bytes kw (peek_byte true r).1

-- The loop of `readIdent`.
unfoldable pub ident_bytes : ℕ → Reader → Reader
ident_bytes zero r = record r { err = some out_of_fuel }
ident_bytes (suc f) r =
    let (c, s) = peek_byte false r in
    let later = ident_bytes f (record s { peek = 0 }) in if is_ident c then later else s

-- `readIdent`
unfoldable pub read_ident : Reader → Reader
read_ident r =
    let (c, s) = peek_byte true r in
    if not (is_ident c) then syntax_error s else ident_bytes (rounds s) s

-- `readImportsFast` up to its last reading.
unfoldable pub read_package : Reader → Reader
read_package r = (read_byte (read_ident (read_keyword (codes "package") r))).1

-- `readImportsFast`: the bytes that it returns, and its error.
unfoldable pub read_imports_fast : Bytes → Option Bytes → Bytes × Option Error
read_imports_fast content ends =
    let r = read_package (new_import_reader content ends) in
    if not (is_set r.err) && not r.eof
    then (take (length r.buf - 1) r.buf, none)
    else (r.buf, r.err)

-- `readComments`: the bytes that it returns, and its error.
unfoldable pub read_comments : Bytes → Option Bytes → Bytes × Option Error
read_comments content ends =
    let r = (peek_byte true (new_import_reader content ends)).1 in
    (if not (is_set r.err) && not r.eof then take (length r.buf - 1) r.buf else r.buf, r.err)
