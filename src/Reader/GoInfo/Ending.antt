-- ===== src/Reader/GoInfo/Ending.antt =====
-- `readGoInfo` ends: its loops never use up the fuel of the model.
use buildutil.Base.{
  ℕ, zero, suc, ◌<◌, Bool, true, false, not, ◌||◌, ◌∷◌, Option, none, if◌then◌else◌, ◌==◌, codes,
  Bytes, ◌≡◌, refl, arith,
}
use buildutil.Reader.{
  Reader, new_import_reader, is_ident, is_set, read_byte, rounds, peek_byte, next_byte,
  keyword_bytes, read_keyword, read_ident,
}
use buildutil.Reader.Fuel.{
  fueled, left, Ends, Ends-refl, Ends-trans, stop-Ends, read_byte-Reads, read_ident-Ends,
  read_keyword-Ends, left-rounds,
}
use buildutil.Reader.GoInfo.{
  read_string, import_name, read_import, import_group, import_decl, import_decls, drain, read_decls,
  finish, read_go_info, is_syntax,
}
use buildutil.Reader.GoInfo.Progress.{
  todo, Falls, Falls-trans, next_byte-Takes, peek_byte-Falls, keyword_bytes-Falls, read_ident-Falls,
  peek_byte-work,
}
use buildutil.Reader.GoInfo.Strings.{
  Goes, Goes-refl, Goes-trans, if-Goes, stop-Goes, next_byte-Goes, peek_byte-Goes, working,
  next_byte-peek, syntax_error-todo, low_after, todo-rounds, read_string-Goes, byte_taken,
  read_string-low,
}

read_ident-Goes : (r : Reader) → Goes r (read_ident r)
read_ident-Goes r = record { ends_so = read_ident-Ends r; falls_so = read_ident-Falls r }

import_name-Goes : (r : Reader) → Goes r (import_name r)
unfolding import_name
import_name-Goes r =
    let (c, s) = peek_byte true r in
    let dot : Goes s (record s { peek = 0 }) = record {
      ends_so = record { lower = omega arith; fuel = λ h. h };
      falls_so = record { falls = ground arith };
    } in
    Goes-trans (peek_byte-Goes true r)
      (if-Goes (c == b'.') dot (if-Goes (is_ident c) (read_ident-Goes s) (Goes-refl s)))

read_import-Goes : (r : Reader) → Goes r (read_import r)
unfolding read_import
read_import-Goes r = Goes-trans (import_name-Goes r) (read_string-Goes (import_name r))

read_import-low : (r : Reader) → 0 < todo r → todo (read_import r) < todo r
unfolding read_import
read_import-low r h =
    let s = import_name r in
    low_after r s (read_string s) ((import_name-Goes r).falls_so) ((read_string-Goes s).falls_so)
      (read_string-low s) h

import_group-Goes : (f : ℕ) (r : Reader) → todo r < f → Goes r (import_group f r)
unfolding import_group
import_group-Goes zero r h = absurd (omega arith)
import_group-Goes (suc f) r h =
    let (c, s) = peek_byte true r in
    let peeked = peek_byte-Goes true r in
    Goes-trans peeked (
      stop-Goes (c == b')' || is_set s.err) (Goes-refl s) (λ more.
        let low = read_import-low s (working s (ground (arith, more))) in
        Goes-trans (read_import-Goes s)
          (import_group-Goes f (read_import s) (omega (arith, h, peeked.falls_so.falls, low)))))

read_keyword-Falls : (kw : Bytes) (r : Reader) → Falls r (read_keyword kw r)
unfolding read_keyword
read_keyword-Falls kw r =
    Falls-trans (peek_byte-Falls true r) (keyword_bytes-Falls kw (peek_byte true r).1)

read_keyword-Goes : (kw : Bytes) (r : Reader) → Goes r (read_keyword kw r)
read_keyword-Goes kw r = record {
  ends_so = read_keyword-Ends kw r;
  falls_so = read_keyword-Falls kw r;
}

keyword_bytes-low :
    (k : ℕ) (kw : Bytes) (r : Reader)
    → 0 < k
    → 0 < todo r
    → todo (keyword_bytes (k ∷ kw) r) < todo r
unfolding keyword_bytes
keyword_bytes-low k kw r pos h =
    let (c, s) = next_byte false r in
    let less = (next_byte-Takes false r).less in
    let rest = keyword_bytes-Falls kw s in
    stop_low (not (c == k)) _ _ (omega (arith, syntax_error-todo s, h)) (λ e. omega (
      arith,
      rest.falls,
      byte_taken (todo r) c s h less (next_byte-peek false r) (ground (arith, e, pos)),
    ))
  where
    stop_low :
        {n : ℕ} (b : Bool) (x y : Reader)
        → todo x < n
        → (b ≡ false → todo y < n)
        → todo (if b then x else y) < n
    stop_low true x y f g = f
    stop_low false x y f g = g refl

read_keyword-low :
    (k : ℕ) (kw : Bytes) (r : Reader) → 0 < k → 0 < todo r → todo (read_keyword (k ∷ kw) r) < todo r
unfolding read_keyword
read_keyword-low k kw r pos h =
    let s = (peek_byte true r).1 in
    low_after r s (keyword_bytes (k ∷ kw) s) (peek_byte-Falls true r)
      (keyword_bytes-Falls (k ∷ kw) s) (keyword_bytes-low k kw s pos) h

-- Behind the keyword of an import declaration.
abbrev behind_import : Reader → Reader
behind_import k =
    let (c, s) = peek_byte true k in
    let opened = (next_byte false s).1 in
    if c == b'(' then (next_byte false (import_group (rounds opened) opened)).1 else read_import s

behind_import-Goes : (k : Reader) → Goes k (behind_import k)
behind_import-Goes k =
    let (c, s) = peek_byte true k in
    let opened = (next_byte false s).1 in
    let group = import_group (rounds opened) opened in
    Goes-trans (peek_byte-Goes true k) (
      if-Goes (c == b'(')
        (Goes-trans (next_byte-Goes false s) (
          Goes-trans (import_group-Goes (rounds opened) opened (todo-rounds opened))
            (next_byte-Goes false group)))
        (read_import-Goes s))

import_decl-Goes : (r : Reader) → Goes r (import_decl r)
unfolding import_decl
import_decl-Goes r =
    let k = read_keyword (codes "import") r in
    Goes-trans (read_keyword-Goes (codes "import") r) (behind_import-Goes k)

import_decl-low : (r : Reader) → 0 < todo r → todo (import_decl r) < todo r
unfolding import_decl
import_decl-low r h =
    let k = read_keyword (codes "import") r in
    let low = read_keyword-low b'i' (codes "mport") r (omega arith) h in
    let rest = (behind_import-Goes k).falls_so in omega (arith, rest.falls, low)

import_decls-Goes : (f : ℕ) (r : Reader) → todo r < f → Goes r (import_decls f r)
unfolding import_decls
import_decls-Goes zero r h = absurd (omega arith)
import_decls-Goes (suc f) r h =
    let (c, s) = peek_byte true r in
    let peeked = peek_byte-Goes true r in
    Goes-trans peeked (
      run_Goes (c == b'i') (λ found.
        let some_left = peek_byte-work true r (λ z. ground (arith, found, z)) in
        let low =
          low_after r s (import_decl s) peeked.falls_so ((import_decl-Goes s).falls_so)
            (import_decl-low s) some_left in
        Goes-trans (import_decl-Goes s)
          (import_decls-Goes f (import_decl s) (omega (arith, h, low)))))
  where
    run_Goes : {s t : Reader} (b : Bool) → (b ≡ true → Goes s t) → Goes s (if b then t else s)
    run_Goes true g = g refl
    run_Goes {s} false g = Goes-refl s

drain-Ends : (f : ℕ) (r : Reader) → left r < f → Ends r (drain f r)
unfolding drain
drain-Ends zero r h = absurd (omega arith)
drain-Ends (suc f) r h =
    let read = read_byte-Reads r in
    stop-Ends (is_set r.err || r.eof) (Ends-refl r) (λ more.
      let low = read.lowers (ground (arith, more)) in
      Ends-trans read.ends_by (drain-Ends f (read_byte r).1 (omega (arith, h, low))))

read_decls-Ends : (r : Reader) → Ends r (read_decls r)
unfolding read_decls
read_decls-Ends r =
    let k = read_keyword (codes "package") r in
    let s = read_ident k in
    Ends-trans (read_keyword-Ends (codes "package") r)
      (Ends-trans (read_ident-Ends k) ((import_decls-Goes (rounds s) s (todo-rounds s)).ends_so))

finish-fuel : (r : Reader) → fueled r.err ≡ true → fueled (finish r).err ≡ true
unfolding finish
finish-fuel r h =
    let again : Reader = record r { err = none } in
    let drained = drain-Ends (rounds again) again (left-rounds again) in
    ends_fueled (is_syntax r.err) _ r (drained.fuel refl) h
  where
    ends_fueled :
        (b : Bool) (x y : Reader)
        → fueled x.err ≡ true
        → fueled y.err ≡ true
        → fueled (if b then x else y).err ≡ true
    ends_fueled true x y f g = f
    ends_fueled false x y f g = g

-- `readGoInfo` ends on every content: its loops never use up the fuel of the model.
pub read_go_info-returns :
    (content : Bytes) (ends : Option Bytes) → fueled (read_go_info content ends).1 ≡ true
unfolding read_go_info new_import_reader
read_go_info-returns content ends =
    let r0 = new_import_reader content ends in
    finish-fuel (read_decls r0) ((read_decls-Ends r0).fuel refl)
