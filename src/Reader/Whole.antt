-- ===== src/Reader/Whole.antt =====
-- The reader loses no byte: what it has kept, with what it has not read, is the input.
use buildutil.Base.{
  ◌&&◌, not, take-drop, drop, ◌-◌, length, nul, take, read_error, syntax, codes, ℕ, zero, suc, Bool,
  true, false, [], ◌∷◌, ◌++◌, Option, none, some, if◌then◌else◌, Bytes, Error, ◌≡◌, refl, sym, ◌∙◌,
  ap, append_assoc, ◌==◌,
}
use buildutil.Reader.{
  is_space, after_bom, new_import_reader, read_imports_fast, count_error, rounds, Reader, set_error,
  syntax_error, read_from, read_byte, skip_line, skip_block, skip_comment, skip_space, first_byte,
  peek_byte, next_byte, keyword_bytes, read_keyword, ident_bytes, read_ident, read_package, is_set,
}

-- `s` has lost no byte that `r` had.
pub record Keeps (r s : Reader) : Type 0 where
  pub same_bytes : s.buf ++ s.input ≡ r.buf ++ r.input

pub Keeps-refl : (r : Reader) → Keeps r r
Keeps-refl r = record { same_bytes = refl }

pub Keeps-trans : {r s t : Reader} → Keeps r s → Keeps s t → Keeps r t
Keeps-trans f g = record { same_bytes = g.same_bytes ∙ f.same_bytes }

pub if-Keeps : {r s t : Reader} (b : Bool) → Keeps r s → Keeps r t → Keeps r (if b then s else t)
if-Keeps true f g = f
if-Keeps false f g = g

pair-Keeps :
    {r : Reader} (b : Bool) (x y : ℕ × Reader)
    → Keeps r x.1
    → Keeps r y.1
    → Keeps r (if b then x else y).1
pair-Keeps true x y f g = f
pair-Keeps false x y f g = g

set_error-Keeps : (e : Error) (r : Reader) → Keeps r (set_error e r)
unfolding set_error
set_error-Keeps e r = if-Keeps (is_set r.err) (Keeps-refl r) (record { same_bytes = refl })

end-Keeps :
    (ends : Option Bytes) (r : Reader)
    → Keeps r
        (elim ends as (λ e. ℕ × Reader) [
          | none ↦ (0, record r { eof = true })
          | some message ↦ (0, set_error (read_error message) r)
        ]).1
end-Keeps none r = record { same_bytes = refl }
end-Keeps (some message) r = set_error-Keeps (read_error message) r

read_from-Keeps : (p : Bytes) (r : Reader) → r.input ≡ p → Keeps r (read_from p r).1
unfolding read_from
read_from-Keeps [] r e = end-Keeps r.ends r
read_from-Keeps (c ∷ rest) r e =
    let s : Reader = record r { input = rest; buf = r.buf ++ (c ∷ []) } in
    let moved : Keeps r s = record { same_bytes = rw e (append_assoc r.buf (c ∷ []) rest) } in
    pair-Keeps (c == 0) _ _ (Keeps-trans moved (set_error-Keeps nul s)) moved

pub read_byte-Keeps : (r : Reader) → Keeps r (read_byte r).1
unfolding read_byte
read_byte-Keeps r = read_from-Keeps r.input r refl

pub syntax_error-Keeps : (r : Reader) → Keeps r (syntax_error r)
unfolding syntax_error
syntax_error-Keeps r = set_error-Keeps syntax r

skip_line-Keeps : (f c : ℕ) (r : Reader) → Keeps r (skip_line f c r)
unfolding skip_line
skip_line-Keeps zero c r = record { same_bytes = refl }
skip_line-Keeps (suc f) c r =
    let next = read_byte r in
    if-Keeps _ (Keeps-refl r) (Keeps-trans (read_byte-Keeps r) (skip_line-Keeps f next.0 next.1))

skip_block-Keeps : (f c c1 : ℕ) (r : Reader) → Keeps r (skip_block f c c1 r)
unfolding skip_block
skip_block-Keeps zero c c1 r = record { same_bytes = refl }
skip_block-Keeps (suc f) c c1 r =
    let s = if r.eof then syntax_error r else r in
    let next = read_byte s in
    let started : Keeps r s = if-Keeps r.eof (syntax_error-Keeps r) (Keeps-refl r) in
    if-Keeps _ (Keeps-refl r)
      (Keeps-trans started (Keeps-trans (read_byte-Keeps s) (skip_block-Keeps f c1 next.0 next.1)))

skip_comment-Keeps : (c : ℕ) (r : Reader) → Keeps r (skip_comment c r)
unfolding skip_comment
skip_comment-Keeps c r =
    if-Keeps (c == b'/') (skip_line-Keeps (rounds r) c r)
      (if-Keeps (c == b'*') (skip_block-Keeps (rounds r) c 0 r) (syntax_error-Keeps r))

skip_space-Keeps : (f c : ℕ) (r : Reader) → Keeps r (skip_space f c r).1
unfolding skip_space
skip_space-Keeps zero c r = record { same_bytes = refl }
skip_space-Keeps (suc f) c r =
    let next = read_byte r in
    let behind = read_byte (skip_comment next.0 next.1) in
    let later = Keeps-trans (read_byte-Keeps r) (skip_space-Keeps f next.0 next.1) in
    let resumed = Keeps-trans (read_byte-Keeps r) (
      Keeps-trans (skip_comment-Keeps next.0 next.1) (
        Keeps-trans (read_byte-Keeps (skip_comment next.0 next.1))
          (skip_space-Keeps f behind.0 behind.1))) in
    pair-Keeps _ _ _ (Keeps-refl r)
      (pair-Keeps (is_space c) _ _ later (pair-Keeps (c == b'/') _ _ resumed (Keeps-refl r)))

first_byte-Keeps : (r : Reader) → Keeps r (first_byte r).1
unfolding first_byte
first_byte-Keeps r = pair-Keeps (r.peek == 0) _ _ (read_byte-Keeps r) (Keeps-refl r)

pub peek_byte-Keeps : (skips : Bool) (r : Reader) → Keeps r (peek_byte skips r).1
unfolding peek_byte count_error
peek_byte-Keeps skips r =
    let (c, s) = first_byte r in
    let skipped : Keeps s (if skips then skip_space (rounds s) c s else (c, s)).1 =
      pair-Keeps skips _ _ (skip_space-Keeps (rounds s) c s) (Keeps-refl s) in
    pair-Keeps (is_set r.err) _ _ (record { same_bytes = refl })
      (record { same_bytes = skipped.same_bytes ∙ (first_byte-Keeps r).same_bytes })

pub next_byte-Keeps : (skips : Bool) (r : Reader) → Keeps r (next_byte skips r).1
unfolding next_byte
next_byte-Keeps skips r = record { same_bytes = (peek_byte-Keeps skips r).same_bytes }

pub keyword_bytes-Keeps : (kw : Bytes) (r : Reader) → Keeps r (keyword_bytes kw r)
unfolding keyword_bytes
keyword_bytes-Keeps [] r =
    let s = (peek_byte false r).1 in
    Keeps-trans (peek_byte-Keeps false r) (if-Keeps _ (syntax_error-Keeps s) (Keeps-refl s))
keyword_bytes-Keeps (k ∷ kw) r =
    let s = (next_byte false r).1 in
    Keeps-trans (next_byte-Keeps false r)
      (if-Keeps _ (syntax_error-Keeps s) (keyword_bytes-Keeps kw s))

ident_bytes-Keeps : (f : ℕ) (r : Reader) → Keeps r (ident_bytes f r)
unfolding ident_bytes
ident_bytes-Keeps zero r = record { same_bytes = refl }
ident_bytes-Keeps (suc f) r =
    let s = (peek_byte false r).1 in
    let rest : Keeps s (ident_bytes f (record s { peek = 0 })) = record {
      same_bytes = (ident_bytes-Keeps f (record s { peek = 0 })).same_bytes;
    } in
    Keeps-trans (peek_byte-Keeps false r) (if-Keeps _ rest (Keeps-refl s))

pub read_ident-Keeps : (r : Reader) → Keeps r (read_ident r)
unfolding read_ident
read_ident-Keeps r =
    let s = (peek_byte true r).1 in
    Keeps-trans (peek_byte-Keeps true r)
      (if-Keeps _ (syntax_error-Keeps s) (ident_bytes-Keeps (rounds s) s))

pub read_keyword-Keeps : (kw : Bytes) (r : Reader) → Keeps r (read_keyword kw r)
unfolding read_keyword
read_keyword-Keeps kw r =
    Keeps-trans (peek_byte-Keeps true r) (keyword_bytes-Keeps kw (peek_byte true r).1)

read_package-Keeps : (r : Reader) → Keeps r (read_package r)
unfolding read_package
read_package-Keeps r =
    let s = read_keyword (codes "package") r in
    Keeps-trans (read_keyword-Keeps (codes "package") r)
      (Keeps-trans (read_ident-Keeps s) (read_byte-Keeps (read_ident s)))

-- What `readImportsFast` returns is the front of the content, without a byte order mark: no byte is
-- lost, changed or repeated, whether it returns an error or not.
pub read_imports_fast-front :
    (content : Bytes) (ends : Option Bytes)
    → (rest : Bytes) × (after_bom content ≡ (read_imports_fast content ends).0 ++ rest)
unfolding read_imports_fast new_import_reader
read_imports_fast-front content ends =
    let r0 = new_import_reader content ends in
    let r = read_package r0 in
    let all : after_bom content ≡ r.buf ++ r.input = sym ((read_package-Keeps r0).same_bytes) in
    front (not (is_set r.err) && not r.eof) r.buf r.input r.err all
  where
    front :
        (b : Bool) (buf input : Bytes) (e : Option Error)
        → after_bom content ≡ buf ++ input
        → (rest : Bytes) × (let r : Bytes × Option Error =
              if b then (take (length buf - 1) buf, none) else (buf, e) in
            after_bom content ≡ r.0 ++ rest)
    front true buf input e all = (
      drop (length buf - 1) buf ++ input,
      all ∙ ap (λ s. s ++ input) (sym (take-drop (length buf - 1) buf)) ∙ append_assoc _ _ input,
    )
    front false buf input e all = (input, all)
