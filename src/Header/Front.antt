-- ===== src/Header/Front.antt =====
-- How far into a content `parseFileHeader` of buildutil.go reads.
use buildutil.Base.{
  ℕ, zero, suc, ◌+◌, ◌-◌, ◌≤◌, true, false, List, [], ◌∷◌, ◌++◌, Bytes, arith, ◌≡◌, ◌⊎◌, inl, inr,
  refl, sym, ap, ◌∙◌, append_assoc, Result, ok, err, length, length-append, take, Lacks,
}
use buildutil.Header.Lines.{Line, line_of, lines, lines-newline}
use buildutil.Header.Comments.{step_cases}
use buildutil.Header.Kept.{Ended, nothing, ended_line, state_of}
use buildutil.Header.{
  State, Step, next_line, stop, step, carry_on, header_loop, parse_file_header, initial,
}
use buildutil.Header.Plain.{StartsPlain, header_loop-plain}

-- A step, for two contents: the lines have the same text and end at the same place.
step-line :
    (n m : ℕ) (l p q : Bytes) (st : State)
    → n - length p ≡ m - length q
    → step n (line_of l p) st ≡ step m (line_of l q) st
unfolding step
step-line n m l p q st e = rw e refl

-- Whole lines `t`, from a state: whatever follows, the loop ends in them, or it goes on behind them.
abbrev Behind : ℕ → Bytes → State → Type 0
Behind k t st =
    ((x : Bytes)
      → header_loop (k + length (t ++ x)) (lines (t ++ x)) st
        ≡ header_loop (k + length t) (lines t) st)
    ⊎ ((s : State) × (header_loop (k + length t) (lines t) st ≡ ok s)
        × ((x : Bytes)
            → header_loop (k + length (t ++ x)) (lines (t ++ x)) st
              ≡ header_loop (k + length t + length x) (lines x) s))

-- A round on a line with a newline, and the rounds behind it; `k` bytes stand before the line.
round_line :
    (k : ℕ) (text rest : Bytes) (st : State)
    → Lacks b'\n' text
    → header_loop (k + length (text ++ (b'\n' ∷ rest))) (lines (text ++ (b'\n' ∷ rest))) st
      ≡ carry_on
          (header_loop (k + suc (length text) + length rest) (lines rest))
          (step (k + suc (length text)) (line_of text []) st)
unfolding header_loop
round_line k text rest st h =
    let total : k + length (text ++ (b'\n' ∷ rest)) ≡ k + suc (length text) + length rest =
      ground (arith, length-append text (b'\n' ∷ rest)) in
    let n = k + suc (length text) + length rest in
    ap (λ m. header_loop m (lines (text ++ (b'\n' ∷ rest))) st) total
    ∙ ap (λ ls. header_loop n ls st) (lines-newline text rest h)
    ∙ ap (carry_on (header_loop n (lines rest)))
        (step-line n (k + suc (length text)) text rest [] st (omega arith))

round_line-append :
    (k : ℕ) (text rest x : Bytes) (st : State)
    → Lacks b'\n' text
    → header_loop
        (k + length ((text ++ (b'\n' ∷ rest)) ++ x))
        (lines ((text ++ (b'\n' ∷ rest)) ++ x))
        st
      ≡ carry_on
          (header_loop (k + suc (length text) + length (rest ++ x)) (lines (rest ++ x)))
          (step (k + suc (length text)) (line_of text []) st)
round_line-append k text rest x st h =
    rw (append_assoc text (b'\n' ∷ rest) x) (round_line k text (rest ++ x) st h)

header_loop-Behind : {t : Bytes} (k : ℕ) (st : State) → Ended t → Behind k t st
header_loop-Behind k st nothing = inr (
  st,
  unfold lines header_loop in refl,
  λ x. ap (λ n. header_loop (n + length x) (lines x) st) (omega arith),
)
header_loop-Behind k st (ended_line {rest} text h e) =
    go (step (k + suc (length text)) (line_of text []) st) (round_line k text rest st h)
      (λ x. round_line-append k text rest x st h)
      (λ s. header_loop-Behind (k + suc (length text)) s e)
  where
    total : k + length (text ++ (b'\n' ∷ rest)) ≡ k + suc (length text) + length rest
    total = ground (arith, length-append text (b'\n' ∷ rest))

    go :
        (r : Result Step)
        → header_loop (k + length (text ++ (b'\n' ∷ rest))) (lines (text ++ (b'\n' ∷ rest))) st
          ≡ carry_on (header_loop (k + suc (length text) + length rest) (lines rest)) r
        → ((x : Bytes)
            → header_loop
                (k + length ((text ++ (b'\n' ∷ rest)) ++ x))
                (lines ((text ++ (b'\n' ∷ rest)) ++ x))
                st
              ≡ carry_on
                  (header_loop (k + suc (length text) + length (rest ++ x)) (lines (rest ++ x)))
                  r)
        → ((s : State) → Behind (k + suc (length text)) rest s)
        → Behind k (text ++ (b'\n' ∷ rest)) st
    go (err z) a b later = inl (λ x. b x ∙ sym a)
    go (ok (stop s)) a b later = inl (λ x. b x ∙ sym a)
    go (ok (next_line s)) a b later = elim (later s) [
      | inl same_end ↦ inl (λ x. b x ∙ same_end x ∙ sym a)
      | inr (u, ends, goes_on) ↦ inr (
        u,
        a ∙ ends,
        λ x. b x ∙ goes_on x ∙ ap (λ n. header_loop (n + length x) (lines x) u) (sym total),
      )
    ]

-- The variable `end` never passes the length of the content.
step_end :
    (n : ℕ) (l : Line) (st : State) (r : Step)
    → step n l st ≡ ok r
    → st.end ≤ n
    → (state_of r).end ≤ n
step_end n l st r e h = elim (step_cases n l st r e) [
  | inl skips ↦ rw skips.end_moves (omega arith)
  | inr looks ↦ rw looks.end_stays h
]

header_loop_end :
    (n : ℕ) (ls : List Line) (st s : State) → header_loop n ls st ≡ ok s → st.end ≤ n → s.end ≤ n
unfolding header_loop
header_loop_end n [] st s e h = let same : st.end ≡ s.end = ground (arith, e) in rw (← same) h
header_loop_end n (l ∷ ls) st s e h =
    go (step n l st) refl e (λ t c b. header_loop_end n ls t s c b)
  where
    go :
        (r : Result Step)
        → step n l st ≡ r
        → carry_on (header_loop n ls) r ≡ ok s
        → ((t : State) → header_loop n ls t ≡ ok s → t.end ≤ n → s.end ≤ n)
        → s.end ≤ n
    go (err x) q c later = cc
    go (ok (stop t)) q c later =
        let same : t.end ≡ s.end = ground (arith, c) in
        let bound : t.end ≤ n = step_end n l st (stop t) q h in rw (← same) bound
    go (ok (next_line t)) q c later = later t c (step_end n l st (next_line t) q h)

take-append : (n : ℕ) (t x : Bytes) → n ≤ length t → take n (t ++ x) ≡ take n t
take-append zero t x h = refl
take-append (suc n) [] x h = absurd (omega arith)
take-append (suc n) (c ∷ t) x h = ap (λ r. c ∷ r) (take-append n t x (omega arith))

ok-injective : {s u : State} → ok s ≡ ok u → s ≡ u
ok-injective e = ground (arith, e)

transport_end : {s u : State} {n : ℕ} → s ≡ u → s.end ≤ n → u.end ≤ n
transport_end e h = rw e at h

from_zero :
    (z : Bytes)
    → header_loop (length z) (lines z) initial ≡ header_loop (0 + length z) (lines z) initial
from_zero z = ap (λ n. header_loop n (lines z) initial) (omega arith)

-- The state in which the loop ends, whatever plain line stands behind the lines `t`.
header_loop-front :
    (t : Bytes) (s : State)
    → Ended t
    → header_loop (length t) (lines t) initial ≡ ok s
    → s.in_slash_star ≡ false
    → (u : State) × (u.end ≤ length t)
      × ((x : Bytes)
          → StartsPlain x
          → header_loop (length (t ++ x)) (lines (t ++ x)) initial ≡ ok u)
header_loop-front t s e run out =
    let bound = header_loop_end (length t) (lines t) initial s run (omega arith) in
    elim (header_loop-Behind 0 initial e) [
      | inl ends ↦ (s, bound, λ x plain. from_zero (t ++ x) ∙ ends x ∙ sym (from_zero t) ∙ run)
      | inr (u, ends, goes_on) ↦
          let same_state : s ≡ u = ok-injective (sym run ∙ from_zero t ∙ ends) in
          let outside : u.in_slash_star ≡ false =
            ap (λ v. v.in_slash_star) (sym same_state) ∙ out in
          let stays : u.end ≤ length t = transport_end same_state bound in
          (
            record u { ended = true },
            stays,
            λ x plain. from_zero (t ++ x) ∙ goes_on x ∙ header_loop-plain _ x u plain outside,
          )
    ]

-- For whole lines after which `parseFileHeader` is not inside a block comment, and two texts behind them
-- that each begin with a line that is neither blank nor a comment: the header is the same.
pub parse_file_header-front :
    (t x y : Bytes) (s : State)
    → Ended t
    → header_loop (length t) (lines t) initial ≡ ok s
    → s.in_slash_star ≡ false
    → StartsPlain x
    → StartsPlain y
    → parse_file_header (t ++ x) ≡ parse_file_header (t ++ y)
unfolding parse_file_header
parse_file_header-front t x y s e run out plain_x plain_y =
    let (u, bound, ends) = header_loop-front t s e run out in
    rw (ends x plain_x, ends y plain_y, take-append u.end t x bound, take-append u.end t y bound)
      refl
