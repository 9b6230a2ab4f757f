-- ===== src/Header/Comments.antt =====
-- What `parseFileHeader` keeps of a file: its leading comment and blank lines.
use buildutil.Base.{
  take-drop, drop, >>=-eq-ok, append-nil, sym, Result-cases, not, ◌&&◌, inr, take-length, inl, ◌≤◌,
  length-append, ◌-◌, Bool-cases, Bool-cases, ◌⊎◌, ◌∙◌, length, ℕ, zero, suc, true, false, List, [],
  ◌∷◌, ◌++◌, Bytes, arith, ◌≡◌, refl, ap, take, append_assoc, is_empty, Result, ok, err, Lacks,
}
use buildutil.Header.Space.{trim_space}
use buildutil.Header.Lines.{at_end, at_newline, Cut-cons, lines_last, line_of, lines, lines-newline}
use buildutil.Header.{
  initial, Header, parse_file_header, header_loop, carry_on, Line, step, State, Step, next_line,
  stop, comments, inspect,
}
use buildutil.Header.Kept.{
  nothing, texts, is_comment_line, AllComments, last_is_blank, AllComments-concat,
  last_is_blank-concat, Ended, texts-append, Ended-concat, texts_line, Kept, Inv, comments-SameEnd,
  inspect_end, state_of, SameEnd-state_of,
}

-- A round on a blank line moves `end` behind that line; any other round leaves it, and goes on without
-- `ended` only behind a comment.
pub record Skips (n : ℕ) (l : Line) (st t : State) : Type 0 where
  blank : is_empty (trim_space l.text) ≡ true
  not_ended : st.ended ≡ false
  pub end_moves : t.end ≡ n - length l.rest

pub record Looks (l : Line) (st t : State) : Type 0 where
  pub end_stays : t.end ≡ st.end
  comment : t.ended ≡ false → (st.ended ≡ false) × (is_comment_line l.text ≡ true)

pub step_cases :
    (n : ℕ) (l : Line) (st : State) (r : Step)
    → step n l st ≡ ok r
    → Skips n l st (state_of r) ⊎ Looks l st (state_of r)
unfolding step
step_cases n l st r e =
    let line = trim_space l.text in
    elim (Bool-cases (is_empty line && not st.ended)) [
      | inl skip ↦
          inl (record { blank = ground arith; not_ended = ground arith; end_moves = ground arith })
      | inr look ↦ elim (Result-cases (inspect line st)) [
        | inl (s, seen) ↦
            let done : comments (suc (length line)) line s ≡ ok r = rw (← e) (rw (look, seen)) in
            let same =
              SameEnd-state_of s r (rw done at (comments-SameEnd (suc (length line)) line s)) in
            let (i, j) = inspect_end line st s seen in
            inr (record {
              end_stays = same.0 ∙ i;
              comment = λ f. let (a, b) = j (sym same.1 ∙ f) in (a, ground arith);
            })
        | inr (x, refused) ↦ cc (rw (look, refused) at e)
      ]
    ]

-- One line more, `chunk`, has been read.
module _ (content done chunk rest text : Bytes) (split_as : content ≡ (done ++ chunk) ++ rest)
    (one : texts chunk ≡ text ∷ []) where
  texts-chunk : Ended done → texts (done ++ chunk) ≡ texts done ++ (text ∷ [])
  texts-chunk d = texts-append chunk d ∙ rw one

  AllComments-chunk :
      Ended done
      → AllComments (texts done)
      → is_comment_line text ≡ true
      → AllComments (texts (done ++ chunk))
  AllComments-chunk d all c = rw (texts-chunk d) (AllComments-concat (texts done) text all c)

  take-content : take (length content - length rest) content ≡ done ++ chunk
  take-content =
      let size : length content - length rest ≡ length (done ++ chunk) =
        omega (arith, ap length split_as, length-append (done ++ chunk) rest) in
      rw (size, split_as) (take-length (done ++ chunk) rest)

  step-Kept :
      (st : State) (r : Step)
      → Inv content done st
      → step (length content) (line_of text rest) st ≡ ok r
      → Kept content (state_of r)
  step-Kept st r i e = elim (step_cases (length content) (line_of text rest) st r e) [
    | inl skip ↦
        let (d, all) = i.read skip.not_ended in
        let c : is_comment_line text ≡ true = rw skip.blank in
        rw (skip.end_moves, take-content)
          (AllComments-chunk d all c, rw (texts-chunk d, last_is_blank-concat) skip.blank)
    | inr look ↦ rw look.end_stays i.kept
  ]

  step-read :
      (st : State) (r : Step)
      → Inv content done st
      → step (length content) (line_of text rest) st ≡ ok r
      → (state_of r).ended ≡ false
      → Ended done × AllComments (texts (done ++ chunk))
  step-read st r i e open_still = elim (step_cases (length content) (line_of text rest) st r e) [
    | inl skip ↦
        let (d, all) = i.read skip.not_ended in
        let c : is_comment_line text ≡ true = rw skip.blank in (d, AllComments-chunk d all c)
    | inr look ↦
        let (was, c) = look.comment open_still in
        let (d, all) = i.read was in (d, AllComments-chunk d all c)
  ]

texts_end : (c : ℕ) (text : Bytes) → Lacks b'\n' (c ∷ text) → texts (c ∷ text) ≡ (c ∷ text) ∷ []
texts_end c text h = rw (lines_last c text h)

carry_on-eq-ok :
    (next : State → Result State) (r : Result Step) (s : State)
    → carry_on next r ≡ ok s
    → (t : Step) × (r ≡ ok t) × ((next (state_of t) ≡ ok s) ⊎ (state_of t ≡ s))
carry_on-eq-ok next (err e) s h = cc
carry_on-eq-ok next (ok (next_line t)) s h = (next_line t, refl, inl h)
carry_on-eq-ok next (ok (stop t)) s h = (stop t, refl, inr cc)

-- The first round of the loop on a text whose first line is `l`.
header_loop_first :
    (n : ℕ) (p : Bytes) (l : Line) (ls : List Line) (st s : State)
    → lines p ≡ l ∷ ls
    → header_loop n (lines p) st ≡ ok s
    → (t : Step) × (step n l st ≡ ok t)
      × ((header_loop n ls (state_of t) ≡ ok s) ⊎ (state_of t ≡ s))
unfolding header_loop
header_loop_first n p l ls st s first e =
    carry_on-eq-ok (header_loop n ls) (step n l st) s (rw first at e)

-- `k` bounds the text that is left.
header_loop-Kept :
    (k : ℕ) (content done p : Bytes) (st s : State)
    → length p ≤ k
    → content ≡ done ++ p
    → Inv content done st
    → header_loop (length content) (lines p) st ≡ ok s
    → Kept content s
header_loop-Kept k content done [] st s h split_as i e =
    let same : st ≡ s = unfold lines header_loop in cc e in rw (← same) i.kept
header_loop-Kept zero content done (c ∷ p) st s h split_as i e = absurd (omega arith)
header_loop-Kept (suc k) content done (c ∷ p) st s h split_as i e = elim (Cut-cons c p) [
  | at_newline text rest lacks cut_as ↦
      let chunk = text ++ (b'\n' ∷ []) in
      let whole : content ≡ (done ++ chunk) ++ rest =
        rw (append_assoc done chunk rest, append_assoc text (b'\n' ∷ []) rest)
          (split_as ∙ ap (λ t. done ++ t) cut_as) in
      let one = texts_line text lacks in
      let (r, stepped, after) =
        header_loop_first (length content) (c ∷ p) (line_of text rest) (lines rest) st s
          (ap lines cut_as ∙ lines-newline text rest lacks) e in
      elim after [
        | inl onward ↦
            header_loop-Kept k content (done ++ chunk) rest (state_of r) s
              (omega (arith, ap length cut_as, length-append text (b'\n' ∷ rest))) whole
              (record {
                kept = step-Kept content done chunk rest text whole one st r i stepped;
                read = λ f.
                    let (d, all) =
                      step-read content done chunk rest text whole one st r i stepped f in
                    (Ended-concat text d lacks, all);
              })
              onward
        | inr there ↦ rw (← there) (step-Kept content done chunk rest text whole one st r i stepped)
      ]
  | at_end x text lacks cut_as ↦
      let whole : content ≡ (done ++ (x ∷ text)) ++ [] =
        rw append-nil (split_as ∙ ap (λ t. done ++ t) cut_as) in
      let one = texts_end x text lacks in
      let (r, stepped, after) =
        header_loop_first (length content) (c ∷ p) (line_of (x ∷ text) []) [] st s
          (ap lines cut_as ∙ lines_last x text lacks) e in
      let last = step-Kept content done (x ∷ text) [] (x ∷ text) whole one st r i stepped in
      elim after [
        | inl onward ↦
            let same : state_of r ≡ s = unfold header_loop in cc onward in rw (← same) last
        | inr there ↦ rw (← there) last
      ]
]

-- What `parseFileHeader` keeps is the front of the content. It is made of blank lines and `//` comments
-- alone, and its last line is blank.
pub parse_file_header-comments :
    (content : Bytes) (h : Header)
    → parse_file_header content ≡ ok h
    → ((rest : Bytes) × (content ≡ h.trimmed ++ rest))
      × AllComments (texts h.trimmed)
      × (last_is_blank (texts h.trimmed) ≡ true)
unfolding parse_file_header
parse_file_header-comments content h e =
    let (st, run, made) = >>=-eq-ok (header_loop (length content) (lines content) initial) _ e in
    let start : Inv content [] initial = record {
      kept = unfold lines in (tt, refl);
      read = λ f. (nothing, unfold lines in tt);
    } in
    let kept =
      header_loop-Kept (length content) content [] content initial st (omega arith) refl start
        run in
    let trimmed : take st.end content ≡ h.trimmed = cc made in
    (
      (drop st.end content, rw (← trimmed) (sym (take-drop st.end content))),
      rw (← trimmed) kept.0,
      rw (← trimmed) kept.1,
    )
