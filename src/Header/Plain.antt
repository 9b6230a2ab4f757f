-- ===== src/Header/Plain.antt =====
-- The line that ends the header of a file for `parseFileHeader`.
use buildutil.Base.{
  ℕ, suc, Bool, true, false, not, ◌&&◌, [], ◌∷◌, ◌++◌, Bytes, arith, ◌≡◌, refl, is_empty, ok,
  has_prefix, length, Lacks, strip, same,
}
use buildutil.Header.Space.{trim_space}
use buildutil.Header.Lines.{line_of, lines, lines-newline, lines_last}
use buildutil.Header.{
  State, stop, comments, inspect, step, header_loop, slash_slash, slash_star, is_go_build_comment,
  binary_only_comment,
}

-- A line that is neither blank nor starts with a comment.
abbrev pub is_plain : Bytes → Bool
is_plain l =
    not (is_empty (trim_space l))
    && (not (has_prefix (trim_space l) slash_slash) && not (has_prefix (trim_space l) slash_star))

-- The text starts with such a line.
pub data StartsPlain : Bytes → Type 0 where
  with_newline : (l p : Bytes) → Lacks b'\n' l → is_plain l ≡ true → StartsPlain (l ++ (b'\n' ∷ p))
  last_line :
      (c : ℕ) (l : Bytes) → Lacks b'\n' (c ∷ l) → is_plain (c ∷ l) ≡ true → StartsPlain (c ∷ l)

build_comment-slash :
    (line : Bytes) → has_prefix line slash_slash ≡ false → is_go_build_comment line ≡ false
unfolding is_go_build_comment has_prefix strip
build_comment-slash [] h = refl
build_comment-slash (c ∷ []) h = ground (arith, h)
build_comment-slash (c ∷ (d ∷ line)) h = ground (arith, h)

binary_comment-slash :
    (line : Bytes) → has_prefix line slash_slash ≡ false → same line binary_only_comment ≡ false
unfolding has_prefix strip same
binary_comment-slash [] h = refl
binary_comment-slash (c ∷ []) h = ground (arith, h)
binary_comment-slash (c ∷ (d ∷ line)) h = ground (arith, h)

inspect-slash :
    (line : Bytes) (st : State)
    → has_prefix line slash_slash ≡ false
    → inspect line st ≡ ok (record st { ended = true })
unfolding inspect
inspect-slash line st h = ground (arith, h, build_comment-slash line h, binary_comment-slash line h)

comments-plain :
    (f : ℕ) (line : Bytes) (st : State)
    → is_empty line ≡ false
    → has_prefix line slash_slash ≡ false
    → has_prefix line slash_star ≡ false
    → st.in_slash_star ≡ false
    → comments (suc f) line st ≡ ok (stop st)
unfolding comments
comments-plain f line st e h k out = ground (arith, e, h, k, out)

step-plain :
    (n : ℕ) (l p : Bytes) (st : State)
    → is_plain l ≡ true
    → st.in_slash_star ≡ false
    → step n (line_of l p) st ≡ ok (stop (record st { ended = true }))
unfolding step
step-plain n l p st h out =
    let line = trim_space l in
    let some_text : is_empty line ≡ false = ground (arith, h) in
    let no_slashes : has_prefix line slash_slash ≡ false = ground (arith, h) in
    let no_star : has_prefix line slash_star ≡ false = ground (arith, h) in
    rw (some_text, inspect-slash line st no_slashes)
      (comments-plain (length line) line (record st { ended = true }) some_text no_slashes no_star
        out)

pub header_loop-plain :
    (n : ℕ) (x : Bytes) (st : State)
    → StartsPlain x
    → st.in_slash_star ≡ false
    → header_loop n (lines x) st ≡ ok (record st { ended = true })
unfolding header_loop
header_loop-plain n x st (with_newline l p h plain) out =
    rw (lines-newline l p h, step-plain n l p st plain out) refl
header_loop-plain n x st (last_line c l h plain) out =
    rw (lines_last c l h, step-plain n (c ∷ l) [] st plain out) refl
