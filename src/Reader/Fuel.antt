-- ===== src/Reader/Fuel.antt =====
-- The loops of the reader end: their fuel is never used up.
use mathlib.Core.Bool.{false≢true}
use buildutil.Base.{
  ◌∙◌, sym, ◌||◌, ◌&&◌, constraint_error, syntax, read_error, parsing_go_build, ap, ℕ, zero, suc,
  ◌+◌, ◌≤◌, ◌<◌, Bool, true, false, ◌||◌, ◌&&◌, [], ◌∷◌, Option, none, some, if◌then◌else◌, Bytes,
  Error, arith, ◌≡◌, refl, ap, ◌==◌, codes, length, syntax, nul, multiple_go_build,
  parsing_go_build, constraint_error, read_error, path_error, out_of_fuel,
}
use buildutil.Reader.{
  new_import_reader, read_imports_fast, Reader, set_error, syntax_error, read_from, read_byte,
  skip_line, skip_block, skip_comment, skip_space, rounds, is_space, count_error, is_ident,
  first_byte, peek_byte, next_byte, keyword_bytes, read_keyword, ident_bytes, read_ident,
  read_package, is_set,
}

-- The error is not that of the model, which has run out of fuel.
abbrev pub fueled : Option Error → Bool
fueled none = true
fueled (some out_of_fuel) = false
fueled (some syntax) = true
fueled (some nul) = true
fueled (some multiple_go_build) = true
fueled (some (parsing_go_build m)) = true
fueled (some (constraint_error m)) = true
fueled (some (read_error m)) = true
fueled (some (path_error p)) = true

-- A bound of the rounds that a loop still has.
abbrev pub left : Reader → ℕ
left r = if is_set r.err then 0 else if r.eof then 1 else 2 + length r.input

-- From `r` on to `s`, no loop has used up its fuel, and the bound has not risen.
pub record Ends (r s : Reader) : Type 0 where
  pub lower : left s ≤ left r
  pub fuel : fueled r.err ≡ true → fueled s.err ≡ true

pub Ends-refl : (r : Reader) → Ends r r
Ends-refl r = record { lower = omega arith; fuel = λ h. h }

pub Ends-trans : {r s t : Reader} → Ends r s → Ends s t → Ends r t
Ends-trans f g = record { lower = omega (arith, f.lower, g.lower); fuel = λ h. g.fuel (f.fuel h) }

set_error-Ends : (e : Error) (r : Reader) → fueled (some e) ≡ true → Ends r (set_error e r)
unfolding set_error
set_error-Ends e r h = record { lower = ground arith; fuel = λ f. ground (arith, h, f) }

pub syntax_error-Ends : (r : Reader) → Ends r (syntax_error r)
unfolding syntax_error
syntax_error-Ends r = set_error-Ends syntax r refl

-- A round that reads a byte, before the end and without an error, lowers the bound.
pub record Reads (r s : Reader) : Type 0 where
  pub ends_by : Ends r s
  pub lowers : 1 < left r → left s < left r

at_end-Reads :
    (ends : Option Bytes) (r : Reader)
    → Reads r
        (elim ends as (λ e. ℕ × Reader) [
          | none ↦ (0, record r { eof = true })
          | some message ↦ (0, set_error (read_error message) r)
        ]).1
unfolding set_error
at_end-Reads none r = record {
  ends_by = record { lower = ground arith; fuel = λ h. h };
  lowers = λ h. ground arith;
}
at_end-Reads (some message) r = record {
  ends_by = set_error-Ends (read_error message) r refl;
  lowers = λ h. ground arith;
}

read_from-Reads : (p : Bytes) (r : Reader) → r.input ≡ p → Reads r (read_from p r).1
unfolding read_from set_error
read_from-Reads [] r e = at_end-Reads r.ends r
read_from-Reads (c ∷ rest) r e =
    let size = ap length e in
    record {
      ends_by = record { lower = ground (arith, size); fuel = λ h. ground (arith, h) };
      lowers = λ h. ground (arith, size);
    }

pub read_byte-Reads : (r : Reader) → Reads r (read_byte r).1
unfolding read_byte
read_byte-Reads r = read_from-Reads r.input r refl

pub if-Ends : {r s t : Reader} (b : Bool) → Ends r s → Ends r t → Ends r (if b then s else t)
if-Ends true f g = f
if-Ends false f g = g

pub pair-Ends :
    {r : Reader} (b : Bool) (x y : ℕ × Reader)
    → Ends r x.1
    → Ends r y.1
    → Ends r (if b then x else y).1
pair-Ends true x y f g = f
pair-Ends false x y f g = g

-- A loop that stops where `b` holds, and runs on otherwise.
pub stop-Ends :
    {r s t : Reader} (b : Bool) → Ends r s → (b ≡ false → Ends r t) → Ends r (if b then s else t)
stop-Ends true f g = f
stop-Ends false f g = g refl

stop_pair-Ends :
    {r : Reader} (b : Bool) (x y : ℕ × Reader)
    → Ends r x.1
    → (b ≡ false → Ends r y.1)
    → Ends r (if b then x else y).1
stop_pair-Ends true x y f g = f
stop_pair-Ends false x y f g = g refl

-- A loop that runs on has a byte or the end before it.
going : (a : Bool) (r : Reader) → (a || is_set r.err || r.eof) ≡ false → 1 < left r
going a r h = ground (arith, h)

-- A loop that runs on where `b` holds.
pub run-Ends : {r s : Reader} (b : Bool) → (b ≡ true → Ends r s) → Ends r (if b then s else r)
run-Ends true f = f refl
run-Ends {r} false f = Ends-refl r

skip_line-Ends : (f c : ℕ) (r : Reader) → left r < f → Ends r (skip_line f c r)
unfolding skip_line
skip_line-Ends zero c r h = absurd (omega arith)
skip_line-Ends (suc f) c r h =
    let next = read_byte r in
    let read = read_byte-Reads r in
    stop-Ends (c == b'\n' || is_set r.err || r.eof) (Ends-refl r) (λ go.
      Ends-trans read.ends_by
        (skip_line-Ends f next.0 next.1 (omega (arith, h, read.lowers (going _ r go)))))

syntax_error-left : (r : Reader) → left (syntax_error r) ≡ 0
unfolding syntax_error set_error
syntax_error-left r = ground arith

block_lower :
    (r : Reader) (at_eof : Bool)
    → r.eof ≡ at_eof
    → is_set r.err ≡ false
    → left (read_byte (if at_eof then syntax_error r else r)).1 < left r
block_lower r true e h =
    let low = (read_byte-Reads (syntax_error r)).ends_by.lower in
    let none_left = syntax_error-left r in
    let one : left r ≡ 1 = ground (arith, e, h) in omega (arith, low, none_left, one)
block_lower r false e h = (read_byte-Reads r).lowers (going false r (ground (arith, e, h)))

skip_block-Ends : (f c c1 : ℕ) (r : Reader) → left r < f → Ends r (skip_block f c c1 r)
unfolding skip_block
skip_block-Ends zero c c1 r h = absurd (omega arith)
skip_block-Ends (suc f) c c1 r h =
    let s = if r.eof then syntax_error r else r in
    let next = read_byte s in
    let started : Ends r s = if-Ends r.eof (syntax_error-Ends r) (Ends-refl r) in
    let read = read_byte-Reads s in
    stop-Ends (c == b'*' && c1 == b'/' || is_set r.err) (Ends-refl r) (λ go. Ends-trans started (
      Ends-trans read.ends_by (
        skip_block-Ends f c1 next.0 next.1
          (omega (arith, h, block_lower r r.eof refl (ground (arith, go)))))))

pub left-rounds : (r : Reader) → left r < rounds r
left-rounds r = ground arith

skip_comment-Ends : (c : ℕ) (r : Reader) → Ends r (skip_comment c r)
unfolding skip_comment
skip_comment-Ends c r =
    if-Ends (c == b'/') (skip_line-Ends (rounds r) c r (left-rounds r))
      (if-Ends (c == b'*') (skip_block-Ends (rounds r) c 0 r (left-rounds r)) (syntax_error-Ends r))

skip_space-Ends : (f c : ℕ) (r : Reader) → left r < f → Ends r (skip_space f c r).1
unfolding skip_space
skip_space-Ends zero c r h = absurd (omega arith)
skip_space-Ends (suc f) c r h =
    let next = read_byte r in
    let comment = skip_comment next.0 next.1 in
    let behind = read_byte comment in
    let read = read_byte-Reads r in
    let skipped = Ends-trans (skip_comment-Ends next.0 next.1) (read_byte-Reads comment).ends_by in
    stop_pair-Ends (is_set r.err || r.eof) _ _ (Ends-refl r) (λ go.
      let low : left next.1 < f = omega (arith, h, read.lowers (going false r go)) in
      pair-Ends (is_space c) _ _ (Ends-trans read.ends_by (skip_space-Ends f next.0 next.1 low)) (
        pair-Ends (c == b'/') _ _
          (Ends-trans (Ends-trans read.ends_by skipped)
            (skip_space-Ends f behind.0 behind.1 (omega (arith, low, skipped.lower))))
          (Ends-refl r)))

first_byte-Ends : (r : Reader) → Ends r (first_byte r).1
unfolding first_byte
first_byte-Ends r = pair-Ends (r.peek == 0) _ _ ((read_byte-Reads r).ends_by) (Ends-refl r)

pub peek_byte-Ends : (skips : Bool) (r : Reader) → Ends r (peek_byte skips r).1
unfolding peek_byte count_error
peek_byte-Ends skips r =
    let (c, s) = first_byte r in
    let skipped : Ends s (if skips then skip_space (rounds s) c s else (c, s)).1 =
      pair-Ends skips _ _ (skip_space-Ends (rounds s) c s (left-rounds s)) (Ends-refl s) in
    let both = Ends-trans (first_byte-Ends r) skipped in
    pair-Ends (is_set r.err) _ _ (record { lower = omega arith; fuel = λ h. h })
      (record { lower = both.lower; fuel = both.fuel })

pub next_byte-Ends : (skips : Bool) (r : Reader) → Ends r (next_byte skips r).1
unfolding next_byte
next_byte-Ends skips r =
    let peeked = peek_byte-Ends skips r in record { lower = peeked.lower; fuel = peeked.fuel }

pub keyword_bytes-Ends : (kw : Bytes) (r : Reader) → Ends r (keyword_bytes kw r)
unfolding keyword_bytes
keyword_bytes-Ends [] r =
    let s = (peek_byte false r).1 in
    Ends-trans (peek_byte-Ends false r) (if-Ends _ (syntax_error-Ends s) (Ends-refl s))
keyword_bytes-Ends (k ∷ kw) r =
    let s = (next_byte false r).1 in
    Ends-trans (next_byte-Ends false r) (if-Ends _ (syntax_error-Ends s) (keyword_bytes-Ends kw s))

-- What a loop over an identifier has still to read: the byte peeked at, and the input.
abbrev pending : Reader → ℕ
pending r = length r.input + (if r.peek == 0 then 0 else 1)

at_end_zero :
    (ends : Option Bytes) (r : Reader)
    → (elim ends as (λ e. ℕ × Reader) [
      | none ↦ (0, record r { eof = true })
      | some message ↦ (0, set_error (read_error message) r)
    ]).0
      ≡ 0
at_end_zero none r = refl
at_end_zero (some message) r = refl

read_from-pending :
    (p : Bytes) (r : Reader)
    → r.input ≡ p
    → is_ident (read_from p r).0 ≡ true
    → length (read_from p r).1.input < length r.input
unfolding read_from is_ident set_error
read_from-pending [] r e h = absurd (false≢true (sym (ap is_ident (at_end_zero r.ends r)) ∙ h))
read_from-pending (c ∷ rest) r e h = ground (arith, ap length e, h)

peek_byte-pending :
    (r : Reader)
    → is_ident (peek_byte false r).0 ≡ true
    → length (peek_byte false r).1.input < pending r
unfolding peek_byte count_error first_byte read_byte is_ident
peek_byte-pending r h = ground (arith, h, read_from-pending r.input r refl)

ident_bytes-Ends : (f : ℕ) (r : Reader) → pending r < f → Ends r (ident_bytes f r)
unfolding ident_bytes
ident_bytes-Ends zero r h = absurd (omega arith)
ident_bytes-Ends (suc f) r h =
    let peeked = peek_byte false r in
    let next : Reader = record (peeked.1) { peek = 0 } in
    Ends-trans (peek_byte-Ends false r) (
      run-Ends (is_ident peeked.0) (λ e.
        let rest = ident_bytes-Ends f next (omega (arith, h, peek_byte-pending r e)) in
        record { lower = rest.lower; fuel = rest.fuel }))

pending-rounds : (r : Reader) → pending r < rounds r
pending-rounds r = ground arith

pub read_ident-Ends : (r : Reader) → Ends r (read_ident r)
unfolding read_ident
read_ident-Ends r =
    let s = (peek_byte true r).1 in
    Ends-trans (peek_byte-Ends true r)
      (if-Ends _ (syntax_error-Ends s) (ident_bytes-Ends (rounds s) s (pending-rounds s)))

pub read_keyword-Ends : (kw : Bytes) (r : Reader) → Ends r (read_keyword kw r)
unfolding read_keyword
read_keyword-Ends kw r =
    Ends-trans (peek_byte-Ends true r) (keyword_bytes-Ends kw (peek_byte true r).1)

read_package-Ends : (r : Reader) → Ends r (read_package r)
unfolding read_package
read_package-Ends r =
    let s = read_keyword (codes "package") r in
    Ends-trans (read_keyword-Ends (codes "package") r)
      (Ends-trans (read_ident-Ends s) ((read_byte-Reads (read_ident s)).ends_by))

-- `readImportsFast` ends on every content: its loops never use up the fuel of the model.
pub read_imports_fast-returns :
    (content : Bytes) (ends : Option Bytes) → fueled (read_imports_fast content ends).1 ≡ true
unfolding read_imports_fast new_import_reader
read_imports_fast-returns content ends =
    let done = (read_package-Ends (new_import_reader content ends)).fuel refl in
    ground (arith, done)
