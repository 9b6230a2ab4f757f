-- ===== src/Reader/GoInfo/Strings.antt =====
-- The readings of string literals in an import declaration end, and make progress.
use buildutil.Base.{
  ℕ, zero, suc, ◌≤◌, ◌<◌, Bool, true, false, ◌||◌, if◌then◌else◌, ◌==◌, ◌≡◌, refl, arith,
  Bool-cases, inl, inr, ltb,
}
use buildutil.Reader.{set_error, Reader, is_set, syntax_error, rounds, peek_byte, next_byte}
use buildutil.Reader.Fuel.{
  Ends, Ends-refl, Ends-trans, syntax_error-Ends, peek_byte-Ends, next_byte-Ends,
}
use buildutil.Reader.GoInfo.{raw_string, quoted_byte, quoted_string, read_string}
use buildutil.Reader.GoInfo.Progress.{
  work, todo, Falls, Falls-refl, Falls-trans, next_byte-Takes, peek_byte-Falls, next_byte-Falls,
  syntax_error-Falls,
}

-- A step that ends and takes no work back.
pub record Goes (r s : Reader) : Type 0 where
  pub ends_so : Ends r s
  pub falls_so : Falls r s

pub Goes-refl : (r : Reader) → Goes r r
Goes-refl r = record { ends_so = Ends-refl r; falls_so = Falls-refl r }

pub Goes-trans : {r s t : Reader} → Goes r s → Goes s t → Goes r t
Goes-trans f g = record {
  ends_so = Ends-trans f.ends_so g.ends_so;
  falls_so = Falls-trans f.falls_so g.falls_so;
}

pub if-Goes : {r s t : Reader} (b : Bool) → Goes r s → Goes r t → Goes r (if b then s else t)
if-Goes true f g = f
if-Goes false f g = g

pub stop-Goes :
    {r s t : Reader} (b : Bool) → Goes r s → (b ≡ false → Goes r t) → Goes r (if b then s else t)
stop-Goes true f g = f
stop-Goes false f g = g refl

syntax_error-Goes : (r : Reader) → Goes r (syntax_error r)
syntax_error-Goes r = record { ends_so = syntax_error-Ends r; falls_so = syntax_error-Falls r }

pub next_byte-Goes : (skips : Bool) (r : Reader) → Goes r (next_byte skips r).1
next_byte-Goes skips r = record {
  ends_so = next_byte-Ends skips r;
  falls_so = next_byte-Falls skips r;
}

pub peek_byte-Goes : (skips : Bool) (r : Reader) → Goes r (peek_byte skips r).1
peek_byte-Goes skips r = record {
  ends_so = peek_byte-Ends skips r;
  falls_so = peek_byte-Falls skips r;
}

pub working : (r : Reader) → is_set r.err ≡ false → 0 < todo r
working r h = ground (arith, h)

pub next_byte-peek : (skips : Bool) (r : Reader) → (next_byte skips r).1.peek ≡ 0
unfolding next_byte
next_byte-peek skips r = refl

-- Where the end has not been met, a byte has been taken, or there is an error.
taken :
    (n c : ℕ) (s : Reader)
    → 0 < n
    → work c s ≤ n
    → (c ≡ 0 → (is_set s.err || s.eof) ≡ true)
    → s.peek ≡ 0
    → s.eof ≡ false
    → todo s < n
taken n c s h less stops none_left more = ground (arith, h, less, stops, none_left, more)

next_byte_taken :
    (skips : Bool) (r : Reader)
    → 0 < todo r
    → (next_byte skips r).1.eof ≡ false
    → todo (next_byte skips r).1 < todo r
next_byte_taken skips r h more =
    let t = next_byte-Takes skips r in
    taken (todo r) (next_byte skips r).0 (next_byte skips r).1 h t.less t.stops
      (next_byte-peek skips r) more

pub syntax_error-todo : (s : Reader) → todo (syntax_error s) ≡ 0
unfolding syntax_error set_error
syntax_error-todo s = ground arith

-- A round that turns the end into an error takes a byte, or ends the loop.
checked_taken :
    (b : Bool) (r : Reader)
    → 0 < todo r
    → (let s = (next_byte false r).1 in s.eof ≡ true → b ≡ true)
    → todo (if b then syntax_error (next_byte false r).1 else (next_byte false r).1) < todo r
checked_taken true r h e = omega (arith, syntax_error-todo (next_byte false r).1, h)
checked_taken false r h e = elim (Bool-cases (next_byte false r).1.eof) [
  | inl at_eof ↦ cc (e at_eof)
  | inr more ↦ next_byte_taken false r h more
]

raw_string-Goes : (f : ℕ) (r : Reader) → todo r < f → Goes r (raw_string f r)
unfolding raw_string
raw_string-Goes zero r h = absurd (omega arith)
raw_string-Goes (suc f) r h =
    let s = (next_byte false r).1 in
    let t = if s.eof then syntax_error s else s in
    let next = next_byte-Goes false r in
    let ended : Goes s t = if-Goes s.eof (syntax_error-Goes s) (Goes-refl s) in
    stop-Goes (is_set r.err) (Goes-refl r) (λ fine.
      let low = checked_taken s.eof r (working r fine) (λ e. e) in
      if-Goes _ next
        (Goes-trans next (Goes-trans ended (raw_string-Goes f t (omega (arith, h, low))))))

quoted_byte-Goes : (c : ℕ) (s : Reader) → Goes s (quoted_byte c s)
unfolding quoted_byte
quoted_byte-Goes c s =
    let t = if s.eof || c == b'\n' then syntax_error s else s in
    let checked : Goes s t = if-Goes (s.eof || c == b'\n') (syntax_error-Goes s) (Goes-refl s) in
    if-Goes (c == 92) (Goes-trans checked (next_byte-Goes false t)) checked

low_if :
    (n : ℕ) (b : Bool) (x y : Reader)
    → (b ≡ true → todo x < n)
    → todo y < n
    → todo (if b then x else y) < n
low_if n true x y f g = f refl
low_if n false x y f g = g

-- If a step takes work off wherever there is any, it does so behind another step.
pub low_after :
    (r s t : Reader)
    → Falls r s
    → Falls s t
    → (0 < todo s → todo t < todo s)
    → 0 < todo r
    → todo t < todo r
low_after r s t f g low h = elim (Bool-cases (ltb 0 (todo s))) [
  | inl some_left ↦ omega (arith, f.falls, low (ground (arith, some_left)))
  | inr none_left ↦ let z : todo s ≡ 0 = ground (arith, none_left) in omega (arith, g.falls, z, h)
]

quoted_byte_taken :
    (r : Reader)
    → 0 < todo r
    → todo (quoted_byte (next_byte false r).0 (next_byte false r).1) < todo r
unfolding quoted_byte
quoted_byte_taken r h =
    let (c, s) = next_byte false r in
    let t = if s.eof || c == b'\n' then syntax_error s else s in
    let low : todo t < todo r = checked_taken (s.eof || c == b'\n') r h (λ e. ground (arith, e)) in
    let next = next_byte-Falls false t in
    low_if (todo r) (c == 92) _ _ (λ e. omega (arith, next.falls, low)) low

quoted_string-Goes : (f : ℕ) (r : Reader) → todo r < f → Goes r (quoted_string f r)
unfolding quoted_string
quoted_string-Goes zero r h = absurd (omega arith)
quoted_string-Goes (suc f) r h =
    let (c, s) = next_byte false r in
    let next = next_byte-Goes false r in
    stop-Goes (is_set r.err) (Goes-refl r) (λ fine.
      let low = quoted_byte_taken r (working r fine) in
      if-Goes _ next (
        Goes-trans next (
          Goes-trans (quoted_byte-Goes c s)
            (quoted_string-Goes f (quoted_byte c s) (omega (arith, h, low))))))

pub todo-rounds : (r : Reader) → todo r < rounds r
todo-rounds r = ground arith

-- Behind its first byte, for the byte `c`.
string_behind :
    (c : ℕ) (s : Reader)
    → Goes s (
        if c == b'`'
        then raw_string (rounds s) s
        else if c == b'"'
        then quoted_string (rounds s) s
        else syntax_error s)
string_behind c s =
    if-Goes (c == b'`') (raw_string-Goes (rounds s) s (todo-rounds s))
      (if-Goes (c == b'"') (quoted_string-Goes (rounds s) s (todo-rounds s)) (syntax_error-Goes s))

pub read_string-Goes : (r : Reader) → Goes r (read_string r)
unfolding read_string
read_string-Goes r =
    Goes-trans (next_byte-Goes true r) (string_behind (next_byte true r).0 (next_byte true r).1)

-- A byte other than 0 has been taken.
pub byte_taken : (n c : ℕ) (s : Reader) → 0 < n → work c s ≤ n → s.peek ≡ 0 → 0 < c → todo s < n
byte_taken n c s h less none_left pos = ground (arith, h, less, none_left, pos)

string_low :
    (n c : ℕ) (s : Reader)
    → 0 < n
    → work c s ≤ n
    → s.peek ≡ 0
    → todo (
        if c == b'`'
        then raw_string (rounds s) s
        else if c == b'"'
        then quoted_string (rounds s) s
        else syntax_error s)
      < n
string_low n c s h less none_left =
    let raw = raw_string-Goes (rounds s) s (todo-rounds s) in
    let quoted = quoted_string-Goes (rounds s) s (todo-rounds s) in
    low_if n (c == b'`') _ _
      (λ e.
        omega (arith, raw.falls_so.falls, byte_taken n c s h less none_left (ground (arith, e))))
      (low_if n (c == b'"') _ _
        (λ e.
          omega
            (arith, quoted.falls_so.falls, byte_taken n c s h less none_left (ground (arith, e))))
        (omega (arith, syntax_error-todo s, h)))

pub read_string-low : (r : Reader) → 0 < todo r → todo (read_string r) < todo r
unfolding read_string
read_string-low r h =
    string_low (todo r) (next_byte true r).0 (next_byte true r).1 h (next_byte-Takes true r).less
      (next_byte-peek true r)
