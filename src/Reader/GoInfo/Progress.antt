-- ===== src/Reader/GoInfo/Progress.antt =====
-- What the reader still has to do falls with each byte that it takes.
use buildutil.Base.{
  inr, inl, Bool-cases, ℕ, zero, suc, ◌+◌, ◌≤◌, ◌<◌, Bool, true, false, ◌||◌, [], ◌∷◌, Option, none,
  some, if◌then◌else◌, ◌==◌, Bytes, length, read_error, ◌≢◌, Bool-cases, inl, inr, ◌≡◌, refl, ap,
  arith,
}
use buildutil.Reader.{
  Reader, is_set, set_error, syntax_error, read_from, read_byte, rounds, skip_line, skip_block,
  skip_comment, is_space, skip_space, first_byte, count_error, peek_byte, next_byte, keyword_bytes,
  ident_bytes, read_ident,
}

-- What there is to do behind the byte `c`, which has been taken: nothing after an error.
abbrev pub work : ℕ → Reader → ℕ
work c r = if is_set r.err then 0 else suc (length r.input + (if c == 0 then 0 else 1))

-- What there is to do, the byte peeked at included.
abbrev pub todo : Reader → ℕ
todo r = work r.peek r

-- A pair of a byte and a reader, from a reader with at most `n` to do. The byte 0 stands for an error or
-- the end.
pub record Takes (n : ℕ) (x : ℕ × Reader) : Type 0 where
  pub less : work x.0 x.1 ≤ n
  pub stops : x.0 ≡ 0 → (is_set x.1.err || x.1.eof) ≡ true

pub Takes-more : {m n : ℕ} {x : ℕ × Reader} → m ≤ n → Takes m x → Takes n x
Takes-more h t = record { less = omega (arith, h, t.less); stops = t.stops }

if-Takes :
    {n : ℕ} (b : Bool) (x y : ℕ × Reader) → Takes n x → Takes n y → Takes n (if b then x else y)
if-Takes true x y f g = f
if-Takes false x y f g = g

stop-Takes :
    {n : ℕ} (b : Bool) (x y : ℕ × Reader)
    → (b ≡ true → Takes n x)
    → Takes n y
    → Takes n (if b then x else y)
stop-Takes true x y f g = f refl
stop-Takes false x y f g = g

if-todo :
    {n : ℕ} (b : Bool) (r s : Reader) → todo r ≤ n → todo s ≤ n → todo (if b then r else s) ≤ n
if-todo true r s f g = f
if-todo false r s f g = g

at_end-Takes :
    (ends : Option Bytes) (r : Reader)
    → Takes (work 0 r) (elim ends as (λ e. ℕ × Reader) [
      | none ↦ (0, record r { eof = true })
      | some message ↦ (0, set_error (read_error message) r)
    ])
unfolding set_error
at_end-Takes none r = record { less = ground arith; stops = λ h. ground arith }
at_end-Takes (some message) r = record { less = ground arith; stops = λ h. ground arith }

read_from-Takes : (p : Bytes) (r : Reader) → r.input ≡ p → Takes (work 0 r) (read_from p r)
unfolding read_from set_error
read_from-Takes [] r e = at_end-Takes r.ends r
read_from-Takes (c ∷ rest) r e =
    let size = ap length e in record { less = ground (arith, size); stops = λ h. ground (arith, h) }

pub read_byte-Takes : (r : Reader) → Takes (work 0 r) (read_byte r)
unfolding read_byte
read_byte-Takes r = read_from-Takes r.input r refl

pub syntax_error-work : (c : ℕ) (r : Reader) → work c (syntax_error r) ≡ 0
unfolding syntax_error set_error
syntax_error-work c r = ground arith

pub no_byte : (x : ℕ × Reader) → work 0 x.1 ≤ work x.0 x.1
no_byte x = ground arith

-- A reader with at most `n` to do, whatever byte has been taken.
record Works (n : ℕ) (r : Reader) : Type 0 where
  at_most : work 0 r ≤ n

Works-refl : (r : Reader) → Works (work 0 r) r
Works-refl r = record { at_most = omega arith }

Works-trans : {n : ℕ} {r s : Reader} → Works n r → Works (work 0 r) s → Works n s
Works-trans f g = record { at_most = omega (arith, f.at_most, g.at_most) }

if-Works : {n : ℕ} {r s : Reader} (b : Bool) → Works n r → Works n s → Works n (if b then r else s)
if-Works true f g = f
if-Works false f g = g

read_byte-Works : (r : Reader) → Works (work 0 r) (read_byte r).1
read_byte-Works r = record {
  at_most = omega (arith, no_byte (read_byte r), (read_byte-Takes r).less);
}

syntax_error-Works : {n : ℕ} (r : Reader) → Works n (syntax_error r)
syntax_error-Works r = record { at_most = omega (arith, syntax_error-work 0 r) }

skip_line-Works : (f c : ℕ) (r : Reader) → Works (work 0 r) (skip_line f c r)
unfolding skip_line
skip_line-Works zero c r = record { at_most = omega arith }
skip_line-Works (suc f) c r =
    let next = read_byte r in
    if-Works _ (Works-refl r) (Works-trans (read_byte-Works r) (skip_line-Works f next.0 next.1))

skip_block-Works : (f c c1 : ℕ) (r : Reader) → Works (work 0 r) (skip_block f c c1 r)
unfolding skip_block
skip_block-Works zero c c1 r = record { at_most = omega arith }
skip_block-Works (suc f) c c1 r =
    let s = if r.eof then syntax_error r else r in
    let next = read_byte s in
    let started : Works (work 0 r) s = if-Works r.eof (syntax_error-Works r) (Works-refl r) in
    if-Works _ (Works-refl r)
      (Works-trans started (Works-trans (read_byte-Works s) (skip_block-Works f c1 next.0 next.1)))

skip_comment-Works : (c : ℕ) (r : Reader) → Works (work 0 r) (skip_comment c r)
unfolding skip_comment
skip_comment-Works c r =
    if-Works (c == b'/') (skip_line-Works (rounds r) c r)
      (if-Works (c == b'*') (skip_block-Works (rounds r) c 0 r) (syntax_error-Works r))

skip_space-Takes : (f c n : ℕ) (r : Reader) → Takes n (c, r) → Takes n (skip_space f c r)
unfolding skip_space
skip_space-Takes zero c n r t = record { less = omega arith; stops = λ h. refl }
skip_space-Takes (suc f) c n r t =
    let next = read_byte r in
    let comment = skip_comment next.0 next.1 in
    let behind = read_byte comment in
    let here : work 0 r ≤ n = omega (arith, no_byte (c, r), t.less) in
    let read = Takes-more here (read_byte-Takes r) in
    let low : work 0 comment ≤ n =
      omega
        (arith, (skip_comment-Works next.0 next.1).at_most, (read_byte-Works r).at_most, here) in
    if-Takes _ (c, r) _ t
      (if-Takes (is_space c) _ _ (skip_space-Takes f next.0 n next.1 read) (
        if-Takes (c == b'/') _ (c, r)
          (skip_space-Takes f behind.0 n behind.1 (Takes-more low (read_byte-Takes comment))) t))

peeked_first : (r : Reader) → Takes (todo r) (first_byte r)
unfolding first_byte
peeked_first r = go (r.peek == 0) refl
  where
    go : (b : Bool) → (r.peek == 0) ≡ b → Takes (todo r) (if b then read_byte r else (r.peek, r))
    go true e = Takes-more (no_byte (r.peek, r)) (read_byte-Takes r)
    go false e = record { less = omega arith; stops = λ h. ground (arith, e, h) }

pub peek_byte-Takes : (skips : Bool) (r : Reader) → Takes (todo r) (peek_byte skips r)
unfolding peek_byte count_error
peek_byte-Takes skips r =
    let s = first_byte r in
    let first = peeked_first r in
    let peeked : Takes (todo r) (if skips then skip_space (rounds s.1) s.0 s.1 else (s.0, s.1)) =
      if-Takes skips _ _ (skip_space-Takes (rounds s.1) s.0 (todo r) s.1 first) first in
    stop-Takes (is_set r.err) _ _
      (λ failed. record { less = ground (arith, failed); stops = λ h. ground (arith, failed) })
      (record { less = peeked.less; stops = peeked.stops })

pub next_byte-Takes : (skips : Bool) (r : Reader) → Takes (todo r) (next_byte skips r)
unfolding next_byte
next_byte-Takes skips r =
    let peeked = peek_byte-Takes skips r in record { less = peeked.less; stops = peeked.stops }

-- A byte is peeked at only where there is no error.
pub peek_byte-work : (skips : Bool) (r : Reader) → (peek_byte skips r).0 ≢ 0 → 0 < todo r
unfolding peek_byte
peek_byte-work skips r ne = elim (Bool-cases (is_set r.err)) [
  | inl failed ↦ absurd (ne (rw failed refl))
  | inr fine ↦ ground (arith, fine)
]

-- What follows takes no work back.
pub record Falls (r s : Reader) : Type 0 where
  pub falls : todo s ≤ todo r

pub Falls-refl : (r : Reader) → Falls r r
Falls-refl r = record { falls = omega arith }

pub Falls-trans : {r s t : Reader} → Falls r s → Falls s t → Falls r t
Falls-trans f g = record { falls = omega (arith, f.falls, g.falls) }

pub if-Falls : {r s t : Reader} (b : Bool) → Falls r s → Falls r t → Falls r (if b then s else t)
if-Falls true f g = f
if-Falls false f g = g

peek_byte-todo :
    (skips : Bool) (r : Reader)
    → todo (peek_byte skips r).1 ≤ work (peek_byte skips r).0 (peek_byte skips r).1
unfolding peek_byte count_error
peek_byte-todo skips r = elim (Bool-cases (is_set r.err)) [
  | inl failed ↦ rw failed (ground (arith, failed))
  | inr fine ↦ rw fine (omega arith)
]

pub peek_byte-Falls : (skips : Bool) (r : Reader) → Falls r (peek_byte skips r).1
peek_byte-Falls skips r = record {
  falls = omega (arith, peek_byte-todo skips r, (peek_byte-Takes skips r).less);
}

pub next_byte-Falls : (skips : Bool) (r : Reader) → Falls r (next_byte skips r).1
unfolding next_byte
next_byte-Falls skips r =
    let s = next_byte skips r in
    record { falls = omega (arith, no_byte s, (next_byte-Takes skips r).less) }

pub syntax_error-Falls : {r : Reader} (s : Reader) → Falls r (syntax_error s)
unfolding syntax_error set_error
syntax_error-Falls s = record { falls = ground arith }

pub keyword_bytes-Falls : (kw : Bytes) (r : Reader) → Falls r (keyword_bytes kw r)
unfolding keyword_bytes
keyword_bytes-Falls [] r =
    let s = (peek_byte false r).1 in
    Falls-trans (peek_byte-Falls false r) (if-Falls _ (syntax_error-Falls s) (Falls-refl s))
keyword_bytes-Falls (k ∷ kw) r =
    let s = (next_byte false r).1 in
    Falls-trans (next_byte-Falls false r)
      (if-Falls _ (syntax_error-Falls s) (keyword_bytes-Falls kw s))

ident_bytes-Falls : (f : ℕ) (r : Reader) → Falls r (ident_bytes f r)
unfolding ident_bytes
ident_bytes-Falls zero r = record { falls = omega arith }
ident_bytes-Falls (suc f) r =
    let s = (peek_byte false r).1 in
    let next : Reader = record s { peek = 0 } in
    let taken : Falls s next = record { falls = ground arith } in
    Falls-trans (peek_byte-Falls false r)
      (if-Falls _ (Falls-trans taken (ident_bytes-Falls f next)) (Falls-refl s))

pub read_ident-Falls : (r : Reader) → Falls r (read_ident r)
unfolding read_ident
read_ident-Falls r =
    let s = (peek_byte true r).1 in
    Falls-trans (peek_byte-Falls true r)
      (if-Falls _ (syntax_error-Falls s) (ident_bytes-Falls (rounds s) s))
