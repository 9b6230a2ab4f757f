-- ===== src/Reader/Count.antt =====
-- The count of calls after an error stays far below the bound at which the reader panics.
use mathlib.Core.Bool.{false≢true}
use buildutil.Base.{
  sym, ◌∙◌, ℕ, zero, suc, ◌+◌, ◌≤◌, Bool, true, false, [], ◌∷◌, ◌++◌, Option, none, some,
  if◌then◌else◌, Bytes, Error, arith, ◌≡◌, refl, ◌==◌, codes, length, syntax, nul, read_error,
}
use buildutil.Reader.{
  Reader, set_error, syntax_error, read_from, read_byte, skip_line, skip_block, skip_comment,
  skip_space, rounds, is_space, count_error, is_ident, first_byte, peek_byte, next_byte,
  keyword_bytes, read_keyword, ident_bytes, read_ident, read_package, is_set, new_import_reader,
}

-- From `r` on to `s` the count has risen by at most `n`, and the reader has not panicked if that is
-- below the bound.
record Counts (n : ℕ) (r s : Reader) : Type 0 where
  rises : s.nerr ≤ n + r.nerr
  calm : n + r.nerr ≤ 10000 → r.looping ≡ false → s.looping ≡ false

Counts-refl : (r : Reader) → Counts 0 r r
Counts-refl r = record { rises = omega arith; calm = λ h l. l }

Counts-trans : {r s t : Reader} (m n : ℕ) → Counts m r s → Counts n s t → Counts (m + n) r t
Counts-trans m n f g = record {
  rises = omega (arith, f.rises, g.rises);
  calm = λ h l. g.calm (omega (arith, h, f.rises)) (f.calm (omega (arith, h)) l);
}

Counts-more : {r s : Reader} (m n : ℕ) → m ≤ n → Counts m r s → Counts n r s
Counts-more m n h f = record {
  rises = omega (arith, h, f.rises);
  calm = λ b l. f.calm (omega (arith, h, b)) l;
}

if-Counts :
    {n : ℕ} {r s t : Reader} (b : Bool)
    → Counts n r s
    → Counts n r t
    → Counts n r (if b then s else t)
if-Counts true f g = f
if-Counts false f g = g

pair-Counts :
    {n : ℕ} {r : Reader} (b : Bool) (x y : ℕ × Reader)
    → Counts n r x.1
    → Counts n r y.1
    → Counts n r (if b then x else y).1
pair-Counts true x y f g = f
pair-Counts false x y f g = g

-- Two steps that do not count.
quiet : {r s t : Reader} → Counts 0 r s → Counts 0 s t → Counts 0 r t
quiet f g = Counts-trans 0 0 f g

set_error-Counts : (e : Error) (r : Reader) → Counts 0 r (set_error e r)
unfolding set_error
set_error-Counts e r =
    if-Counts (is_set r.err) (Counts-refl r) (record { rises = omega arith; calm = λ h l. l })

syntax_error-Counts : (r : Reader) → Counts 0 r (syntax_error r)
unfolding syntax_error
syntax_error-Counts r = set_error-Counts syntax r

at_end-Counts :
    (ends : Option Bytes) (r : Reader)
    → Counts 0 r
        (elim ends as (λ e. ℕ × Reader) [
          | none ↦ (0, record r { eof = true })
          | some message ↦ (0, set_error (read_error message) r)
        ]).1
at_end-Counts none r = record { rises = omega arith; calm = λ h l. l }
at_end-Counts (some message) r = set_error-Counts (read_error message) r

read_from-Counts : (p : Bytes) (r : Reader) → Counts 0 r (read_from p r).1
unfolding read_from
read_from-Counts [] r = at_end-Counts r.ends r
read_from-Counts (c ∷ rest) r =
    let s : Reader = record r { input = rest; buf = r.buf ++ (c ∷ []) } in
    let moved : Counts 0 r s = record { rises = omega arith; calm = λ h l. l } in
    pair-Counts (c == 0) _ _ (quiet moved (set_error-Counts nul s)) moved

read_byte-Counts : (r : Reader) → Counts 0 r (read_byte r).1
unfolding read_byte
read_byte-Counts r = read_from-Counts r.input r

skip_line-Counts : (f c : ℕ) (r : Reader) → Counts 0 r (skip_line f c r)
unfolding skip_line
skip_line-Counts zero c r = record { rises = omega arith; calm = λ h l. l }
skip_line-Counts (suc f) c r =
    let next = read_byte r in
    if-Counts _ (Counts-refl r) (quiet (read_byte-Counts r) (skip_line-Counts f next.0 next.1))

skip_block-Counts : (f c c1 : ℕ) (r : Reader) → Counts 0 r (skip_block f c c1 r)
unfolding skip_block
skip_block-Counts zero c c1 r = record { rises = omega arith; calm = λ h l. l }
skip_block-Counts (suc f) c c1 r =
    let s = if r.eof then syntax_error r else r in
    let next = read_byte s in
    let started : Counts 0 r s = if-Counts r.eof (syntax_error-Counts r) (Counts-refl r) in
    if-Counts _ (Counts-refl r)
      (quiet started (quiet (read_byte-Counts s) (skip_block-Counts f c1 next.0 next.1)))

skip_comment-Counts : (c : ℕ) (r : Reader) → Counts 0 r (skip_comment c r)
unfolding skip_comment
skip_comment-Counts c r =
    if-Counts (c == b'/') (skip_line-Counts (rounds r) c r)
      (if-Counts (c == b'*') (skip_block-Counts (rounds r) c 0 r) (syntax_error-Counts r))

skip_space-Counts : (f c : ℕ) (r : Reader) → Counts 0 r (skip_space f c r).1
unfolding skip_space
skip_space-Counts zero c r = record { rises = omega arith; calm = λ h l. l }
skip_space-Counts (suc f) c r =
    let next = read_byte r in
    let comment = skip_comment next.0 next.1 in
    let behind = read_byte comment in
    let skipped = quiet (skip_comment-Counts next.0 next.1) (read_byte-Counts comment) in
    pair-Counts _ _ _ (Counts-refl r) (
      pair-Counts (is_space c) _ _ (quiet (read_byte-Counts r) (skip_space-Counts f next.0 next.1))
        (pair-Counts (c == b'/') _ _
          (quiet (read_byte-Counts r) (quiet skipped (skip_space-Counts f behind.0 behind.1)))
          (Counts-refl r)))

first_byte-Counts : (r : Reader) → Counts 0 r (first_byte r).1
unfolding first_byte
first_byte-Counts r = pair-Counts (r.peek == 0) _ _ (read_byte-Counts r) (Counts-refl r)

-- What `peekByte` leaves where there is no error.
peeked-Counts :
    (skips : Bool) (r : Reader)
    → Counts 0 r
        (if skips
          then skip_space (rounds (first_byte r).1) (first_byte r).0 (first_byte r).1
          else ((first_byte r).0, (first_byte r).1)).1
peeked-Counts skips r =
    let s = first_byte r in
    quiet (first_byte-Counts r)
      (pair-Counts skips _ _ (skip_space-Counts (rounds s.1) s.0 s.1) (Counts-refl s.1))

peek_byte-Counts : (skips : Bool) (r : Reader) → Counts 1 r (peek_byte skips r).1
unfolding peek_byte count_error
peek_byte-Counts skips r =
    let peeked = Counts-more 0 1 (omega arith) (peeked-Counts skips r) in
    pair-Counts (is_set r.err) _ _
      (record { rises = omega arith; calm = λ h l. ground (arith, h, l) })
      (record { rises = peeked.rises; calm = peeked.calm })

ident-Counts :
    {r : Reader} (b : Bool) (x y : ℕ × Reader)
    → is_ident x.0 ≡ false
    → Counts 0 r y.1
    → is_ident (if b then x else y).0 ≡ true
    → Counts 0 r (if b then x else y).1
ident-Counts true x y n f h = absurd (false≢true (sym n ∙ h))
ident-Counts false x y n f h = f

run-Counts :
    {r s t : Reader} (b : Bool)
    → (b ≡ true → Counts 1 r t)
    → Counts 1 r s
    → Counts 1 r (if b then t else s)
run-Counts true f g = f refl
run-Counts false f g = g

-- A byte of an identifier is not peeked at after an error, so the call does not count.
peek_byte-ident :
    (r : Reader) → is_ident (peek_byte false r).0 ≡ true → Counts 0 r (peek_byte false r).1
unfolding peek_byte is_ident
peek_byte-ident r h =
    let peeked = peeked-Counts false r in
    ident-Counts (is_set r.err) _ _ refl (record { rises = peeked.rises; calm = peeked.calm }) h

next_byte-Counts : (skips : Bool) (r : Reader) → Counts 1 r (next_byte skips r).1
unfolding next_byte
next_byte-Counts skips r =
    let peeked = peek_byte-Counts skips r in record { rises = peeked.rises; calm = peeked.calm }

keyword_bytes-Counts : (kw : Bytes) (r : Reader) → Counts (suc (length kw)) r (keyword_bytes kw r)
unfolding keyword_bytes
keyword_bytes-Counts [] r =
    let s = (peek_byte false r).1 in
    Counts-trans 1 0 (peek_byte-Counts false r)
      (if-Counts _ (syntax_error-Counts s) (Counts-refl s))
keyword_bytes-Counts (k ∷ kw) r =
    let s = (next_byte false r).1 in
    Counts-more (1 + suc (length kw)) _ (omega arith) (
      Counts-trans 1 (suc (length kw)) (next_byte-Counts false r) (
        if-Counts _ (Counts-more 0 (suc (length kw)) (omega arith) (syntax_error-Counts s))
          (keyword_bytes-Counts kw s)))

ident_bytes-Counts : (f : ℕ) (r : Reader) → Counts 1 r (ident_bytes f r)
unfolding ident_bytes
ident_bytes-Counts zero r = record { rises = omega arith; calm = λ h l. l }
ident_bytes-Counts (suc f) r =
    let next : Reader = record ((peek_byte false r).1) { peek = 0 } in
    let rest = ident_bytes-Counts f next in
    run-Counts (is_ident (peek_byte false r).0)
      (λ e.
        Counts-trans 0 1 (peek_byte-ident r e) (record { rises = rest.rises; calm = rest.calm }))
      (peek_byte-Counts false r)

read_ident-Counts : (r : Reader) → Counts 2 r (read_ident r)
unfolding read_ident
read_ident-Counts r =
    let s = (peek_byte true r).1 in
    Counts-trans 1 1 (peek_byte-Counts true r) (
      if-Counts _ (Counts-more 0 1 (omega arith) (syntax_error-Counts s))
        (ident_bytes-Counts (rounds s) s))

-- `readImportsFast` never reaches the panic of `peekByte`, and it calls `peekByte` at most 11 times after
-- an error.
pub read_package-calm :
    (content : Bytes) (ends : Option Bytes)
    → let r = read_package (new_import_reader content ends) in (r.looping ≡ false) × (r.nerr ≤ 11)
unfolding read_package new_import_reader read_keyword
read_package-calm content ends =
    let r0 = new_import_reader content ends in
    let r1 = (peek_byte true r0).1 in
    let r2 = keyword_bytes (codes "package") r1 in
    let all = Counts-trans 1 10 (peek_byte-Counts true r0) (
      Counts-trans 8 2 (keyword_bytes-Counts (codes "package") r1)
        (Counts-trans 2 0 (read_ident-Counts r2) (read_byte-Counts (read_ident r2)))) in
    (all.calm (omega arith) refl, all.rises)
