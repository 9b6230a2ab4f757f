-- ===== src/Reader/GoInfo/Kept.antt =====
-- Reading up to the imports loses no byte either.
use buildutil.Base.{
  ℕ, zero, suc, ◌-◌, Bool, true, false, not, ◌&&◌, ◌||◌, ◌++◌, Option, none, if◌then◌else◌, ◌==◌,
  codes, Bytes, length, take, drop, take-drop, append_assoc, ◌≡◌, refl, sym, ap, ◌∙◌,
}
use buildutil.Reader.{
  Reader, after_bom, new_import_reader, is_ident, is_set, syntax_error, read_byte, rounds,
  peek_byte, next_byte, read_keyword, read_ident,
}
use buildutil.Reader.Whole.{
  Keeps, Keeps-refl, Keeps-trans, if-Keeps, syntax_error-Keeps, read_byte-Keeps, peek_byte-Keeps,
  next_byte-Keeps, read_ident-Keeps, read_keyword-Keeps,
}
use buildutil.Reader.GoInfo.{
  raw_string, quoted_byte, quoted_string, read_string, import_name, read_import, import_group,
  import_decl, import_decls, drain, read_decls, finish, header_of, read_go_info, is_syntax,
}

raw_string-Keeps : (f : ℕ) (r : Reader) → Keeps r (raw_string f r)
unfolding raw_string
raw_string-Keeps zero r = record { same_bytes = refl }
raw_string-Keeps (suc f) r =
    let s = (next_byte false r).1 in
    let t = if s.eof then syntax_error s else s in
    let next = next_byte-Keeps false r in
    let ended : Keeps s t = if-Keeps s.eof (syntax_error-Keeps s) (Keeps-refl s) in
    if-Keeps (is_set r.err) (Keeps-refl r)
      (if-Keeps _ next (Keeps-trans next (Keeps-trans ended (raw_string-Keeps f t))))

quoted_byte-Keeps : (c : ℕ) (s : Reader) → Keeps s (quoted_byte c s)
unfolding quoted_byte
quoted_byte-Keeps c s =
    let t = if s.eof || c == b'\n' then syntax_error s else s in
    let checked : Keeps s t =
      if-Keeps (s.eof || c == b'\n') (syntax_error-Keeps s) (Keeps-refl s) in
    if-Keeps (c == 92) (Keeps-trans checked (next_byte-Keeps false t)) checked

quoted_string-Keeps : (f : ℕ) (r : Reader) → Keeps r (quoted_string f r)
unfolding quoted_string
quoted_string-Keeps zero r = record { same_bytes = refl }
quoted_string-Keeps (suc f) r =
    let (c, s) = next_byte false r in
    let next = next_byte-Keeps false r in
    if-Keeps (is_set r.err) (Keeps-refl r) (
      if-Keeps _ next (
        Keeps-trans next
          (Keeps-trans (quoted_byte-Keeps c s) (quoted_string-Keeps f (quoted_byte c s)))))

read_string-Keeps : (r : Reader) → Keeps r (read_string r)
unfolding read_string
read_string-Keeps r =
    let (c, s) = next_byte true r in
    Keeps-trans (next_byte-Keeps true r) (
      if-Keeps (c == b'`') (raw_string-Keeps (rounds s) s)
        (if-Keeps (c == b'"') (quoted_string-Keeps (rounds s) s) (syntax_error-Keeps s)))

read_import-Keeps : (r : Reader) → Keeps r (read_import r)
unfolding read_import import_name
read_import-Keeps r =
    let (c, s) = peek_byte true r in
    let named : Keeps s (import_name r) =
      if-Keeps (c == b'.') (record { same_bytes = refl })
        (if-Keeps (is_ident c) (read_ident-Keeps s) (Keeps-refl s)) in
    Keeps-trans (peek_byte-Keeps true r) (Keeps-trans named (read_string-Keeps (import_name r)))

import_group-Keeps : (f : ℕ) (r : Reader) → Keeps r (import_group f r)
unfolding import_group
import_group-Keeps zero r = record { same_bytes = refl }
import_group-Keeps (suc f) r =
    let (c, s) = peek_byte true r in
    Keeps-trans (peek_byte-Keeps true r) (
      if-Keeps _ (Keeps-refl s)
        (Keeps-trans (read_import-Keeps s) (import_group-Keeps f (read_import s))))

import_decl-Keeps : (r : Reader) → Keeps r (import_decl r)
unfolding import_decl
import_decl-Keeps r =
    let k = read_keyword (codes "import") r in
    let (c, s) = peek_byte true k in
    let opened = (next_byte false s).1 in
    let group = import_group (rounds opened) opened in
    Keeps-trans (read_keyword-Keeps (codes "import") r) (
      Keeps-trans (peek_byte-Keeps true k) (
        if-Keeps (c == b'(')
          (Keeps-trans (next_byte-Keeps false s)
            (Keeps-trans (import_group-Keeps (rounds opened) opened) (next_byte-Keeps false group)))
          (read_import-Keeps s)))

import_decls-Keeps : (f : ℕ) (r : Reader) → Keeps r (import_decls f r)
unfolding import_decls
import_decls-Keeps zero r = record { same_bytes = refl }
import_decls-Keeps (suc f) r =
    let (c, s) = peek_byte true r in
    Keeps-trans (peek_byte-Keeps true r) (
      if-Keeps (c == b'i')
        (Keeps-trans (import_decl-Keeps s) (import_decls-Keeps f (import_decl s))) (Keeps-refl s))

drain-Keeps : (f : ℕ) (r : Reader) → Keeps r (drain f r)
unfolding drain
drain-Keeps zero r = record { same_bytes = refl }
drain-Keeps (suc f) r =
    if-Keeps (is_set r.err || r.eof) (Keeps-refl r)
      (Keeps-trans (read_byte-Keeps r) (drain-Keeps f (read_byte r).1))

read_decls-Keeps : (r : Reader) → Keeps r (read_decls r)
unfolding read_decls
read_decls-Keeps r =
    let k = read_keyword (codes "package") r in
    let s = read_ident k in
    Keeps-trans (read_keyword-Keeps (codes "package") r)
      (Keeps-trans (read_ident-Keeps k) (import_decls-Keeps (rounds s) s))

finish-Keeps : (r : Reader) → Keeps r (finish r)
unfolding finish
finish-Keeps r =
    let again : Reader = record r { err = none } in
    let moved : Keeps r again = record { same_bytes = refl } in
    if-Keeps (is_syntax r.err) (Keeps-trans moved (drain-Keeps (rounds r) again)) (Keeps-refl r)

header_front :
    (a b : Bool) (p q x y s : Bytes)
    → p ++ x ≡ s
    → q ++ y ≡ s
    → (rest : Bytes) × (s ≡ (if a then q else if b then take (length p - 1) p else p) ++ rest)
header_front true b p q x y s e f = (y, sym f)
header_front false true p q x y s e f = (
  drop (length p - 1) p ++ x,
  sym e ∙ ap (λ t. t ++ x) (sym (take-drop (length p - 1) p)) ∙ append_assoc _ _ x,
)
header_front false false p q x y s e f = (x, sym e)

-- The header that `readGoInfo` records is the front of the content, without a byte order mark, whether
-- it returns an error or not.
pub read_go_info-front :
    (content : Bytes) (ends : Option Bytes)
    → (rest : Bytes) × (after_bom content ≡ (read_go_info content ends).0 ++ rest)
unfolding read_go_info header_of new_import_reader
read_go_info-front content ends =
    let r0 = new_import_reader content ends in
    let r = read_decls r0 in
    let s = finish r in
    let read = read_decls-Keeps r0 in
    header_front (is_syntax r.err) (not (is_set r.err) && not r.eof) r.buf s.buf r.input s.input
      (after_bom content) read.same_bytes ((Keeps-trans read (finish-Keeps r)).same_bytes)
