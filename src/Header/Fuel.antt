-- ===== src/Header/Fuel.antt =====
-- `parseFileHeader` ends on every input.
use buildutil.Base.{
  ℕ, zero, suc, ◌≤◌, ◌<◌, true, false, not, ◌&&◌, List, [], ◌∷◌, ◌++◌, some, Bytes, arith, ◌≡◌,
  refl, cut, cut-eq-some, length, take, length-append, drop, is_empty, Result, ok, err,
  multiple_go_build, Option-cases, Bool-cases, Result-cases, ap, ◌⊎◌, inl, inr, has_prefix,
}
use buildutil.Header.Space.{trim_space, length-trim_space}
use buildutil.Header.Lines.{Line, lines}
use buildutil.Header.{
  State, Step, next_line, stop, comments, inspect, step, Header, initial, header_loop, carry_on,
  parse_file_header, star_slash, slash_slash, slash_star,
}

length-drop : (n : ℕ) (s : Bytes) → length (drop n s) ≤ length s
length-drop zero s = omega arith
length-drop (suc n) [] = omega arith
length-drop (suc n) (c ∷ s) = omega (arith, length-drop n s)

length-cut : (s a b : Bytes) → cut star_slash s ≡ some (a, b) → length b < length s
length-cut s a b e =
    omega (arith, ap length (cut-eq-some star_slash s a b e), length-append a (star_slash ++ b))

-- The loop `Comments` shortens the line in every round: fuel above its length is enough.
comments-returns :
    (f : ℕ) (line : Bytes) (st : State) → length line < f → (s : Step) × (comments f line st ≡ ok s)
unfolding comments
comments-returns zero line st h = absurd (omega arith)
comments-returns (suc f) [] st h = (next_line st, refl)
comments-returns (suc f) (c ∷ cs) st h = elim (Bool-cases st.in_slash_star) [
  | inl inside ↦ elim (Option-cases (cut star_slash (c ∷ cs))) [
    | inl missing ↦ (next_line st, ground arith)
    | inr ((a, b), found) ↦
        let shorter = length-cut (c ∷ cs) a b found in
        let (s, e) =
          comments-returns f (trim_space b) (record st { in_slash_star = false })
            (omega (arith, length-trim_space b)) in
        (s, ground (arith, e))
  ]
  | inr outside ↦ elim (Bool-cases (has_prefix (c ∷ cs) slash_slash)) [
    | inl comment ↦ (next_line st, ground arith)
    | inr other ↦
        let inner = trim_space (drop (length slash_star) (c ∷ cs)) in
        let (s, e) =
          comments-returns f inner (record st { in_slash_star = true })
            (omega (arith, length-trim_space (drop 1 cs), length-drop 1 cs)) in
        elim (Bool-cases (has_prefix (c ∷ cs) slash_star)) [
          | inl opens ↦ (s, ground (arith, e))
          | inr text ↦ (stop st, ground arith)
        ]
  ]
]

-- The only error that the code can return here.
abbrev OnlyMultiple {ℓ} : {A : Type ℓ} → Result A → Type 0
OnlyMultiple (ok a) = Unit
OnlyMultiple (err e) = e ≡ multiple_go_build

inspect-OnlyMultiple : (line : Bytes) (st : State) → OnlyMultiple (inspect line st)
unfolding inspect
inspect-OnlyMultiple line st = ground arith

step-OnlyMultiple : (n : ℕ) (l : Line) (st : State) → OnlyMultiple (step n l st)
unfolding step
step-OnlyMultiple n l st =
    let line = trim_space l.text in
    elim (Bool-cases (is_empty line && not st.ended)) [
      | inl blank ↦ rw blank tt
      | inr other ↦ elim (Result-cases (inspect line st)) [
        | inl (s, seen) ↦
            let (t, e) = comments-returns (suc (length line)) line s (omega arith) in
            rw (other, seen, e) tt
        | inr (e, refused) ↦ rw (other, refused) (rw refused at (inspect-OnlyMultiple line st))
      ]
    ]

carry_on-OnlyMultiple :
    (next : State → Result State)
    → ((st : State) → OnlyMultiple (next st))
    → (r : Result Step) → OnlyMultiple r
    → OnlyMultiple (carry_on next r)
carry_on-OnlyMultiple next h (err e) o = o
carry_on-OnlyMultiple next h (ok (next_line st)) o = h st
carry_on-OnlyMultiple next h (ok (stop st)) o = tt

header_loop-OnlyMultiple :
    (n : ℕ) (ls : List Line) (st : State) → OnlyMultiple (header_loop n ls st)
unfolding header_loop
header_loop-OnlyMultiple n [] st = tt
header_loop-OnlyMultiple n (l ∷ ls) st =
    carry_on-OnlyMultiple (header_loop n ls) (header_loop-OnlyMultiple n ls) (step n l st)
      (step-OnlyMultiple n l st)

header_of : Bytes → State → Header
header_of content st = record {
  trimmed = take st.end content;
  go_build = st.go_build;
  binary_only = st.binary_only;
}

-- `parseFileHeader` returns on every content: with a header, or with the error that there are several
-- `//go:build` comments.
pub parse_file_header-returns :
    (content : Bytes)
    → ((h : Header) × (parse_file_header content ≡ ok h))
      ⊎ (parse_file_header content ≡ err multiple_go_build)
unfolding parse_file_header header_of
parse_file_header-returns content =
    let found = header_loop (length content) (lines content) initial in
    elim (Result-cases found) [
      | inl (st, e) ↦ inl (header_of content st, rw e)
      | inr (x, e) ↦
          let only : x ≡ multiple_go_build =
            rw e at (header_loop-OnlyMultiple (length content) (lines content) initial) in
          inr (rw (e, only))
    ]
