-- ===== src/Header/Kept.antt =====
-- The text of comment lines, and the steps that keep it.
use buildutil.Base.{
  ◌∙◌, ℕ, zero, suc, Bool, true, false, ◌||◌, List, [], ◌∷◌, ◌++◌, map, Option, none, some,
  if◌then◌else◌, Bytes, arith, ◌≡◌, refl, ap, cut, take, append_assoc, is_empty, Result, ok, err,
  has_prefix, Lacks,
}
use buildutil.Header.Space.{trim_space}
use buildutil.Header.Lines.{lines, lines-newline}
use buildutil.Header.{
  State, Step, next_line, stop, comments, inspect, slash_slash, slash_star, star_slash,
}

-- The texts of the lines.
abbrev pub texts : Bytes → List Bytes
texts p = map (λ l. l.text) (lines p)

-- A blank line, or one that begins with `//`, spaces around it aside.
abbrev pub is_comment_line : Bytes → Bool
is_comment_line t = is_empty (trim_space t) || has_prefix (trim_space t) slash_slash

abbrev pub AllComments : List Bytes → Type 0
AllComments [] = Unit
AllComments (t ∷ ts) = (is_comment_line t ≡ true) × AllComments ts

-- The last line, if there is a line, is blank.
abbrev pub last_is_blank : List Bytes → Bool
last_is_blank [] = true
last_is_blank (t ∷ []) = is_empty (trim_space t)
last_is_blank (t ∷ (s ∷ ts)) = last_is_blank (s ∷ ts)

pub AllComments-concat :
    (ts : List Bytes) (t : Bytes)
    → AllComments ts
    → is_comment_line t ≡ true
    → AllComments (ts ++ (t ∷ []))
AllComments-concat [] t h c = (c, tt)
AllComments-concat (s ∷ ts) t h c = (h.0, AllComments-concat ts t h.1 c)

pub last_is_blank-concat :
    (ts : List Bytes) (t : Bytes) → last_is_blank (ts ++ (t ∷ [])) ≡ is_empty (trim_space t)
last_is_blank-concat [] t = refl
last_is_blank-concat (s ∷ []) t = refl
last_is_blank-concat (s ∷ (r ∷ ts)) t = last_is_blank-concat (r ∷ ts) t

-- Each line of the text ends in a newline.
pub data Ended : Bytes → Type 0 where
  nothing : Ended []
  ended_line :
      {rest : Bytes} (text : Bytes) → Lacks b'\n' text → Ended rest → Ended (text ++ (b'\n' ∷ rest))

pub texts-append :
    {done : Bytes} (p : Bytes) → Ended done → texts (done ++ p) ≡ texts done ++ texts p
texts-append p nothing = unfold lines in refl
texts-append p (ended_line {rest} text h e) =
    rw
      (
        append_assoc text (b'\n' ∷ rest) p,
        lines-newline text (rest ++ p) h,
        lines-newline text rest h,
      )
      (ap (◌∷◌ text) (texts-append p e))

pub Ended-concat :
    {done : Bytes} (text : Bytes)
    → Ended done
    → Lacks b'\n' text
    → Ended (done ++ (text ++ (b'\n' ∷ [])))
Ended-concat text nothing h = ended_line text h nothing
Ended-concat text (ended_line {rest} s g e) h =
    rw (append_assoc s (b'\n' ∷ rest) (text ++ (b'\n' ∷ [])))
      (ended_line s g (Ended-concat text e h))

pub texts_line : (text : Bytes) → Lacks b'\n' text → texts (text ++ (b'\n' ∷ [])) ≡ text ∷ []
texts_line text h = rw (lines-newline text [] h) (unfold lines in refl)

-- What is kept of the content, at a state of the loop.
abbrev pub Kept : Bytes → State → Type 0
Kept content st =
    AllComments (texts (take st.end content)) × (last_is_blank (texts (take st.end content)) ≡ true)

-- `done` has been read and `p` is left; as long as `ended` is false all that was read is comments.
pub record Inv (content done : Bytes) (st : State) : Type 0 where
  pub kept : Kept content st
  pub read : st.ended ≡ false → Ended done × AllComments (texts done)

-- `Comments` does not write the variables `end` and `ended`.
abbrev SameEnd : State → Result Step → Type 0
SameEnd st (ok (next_line t)) = (t.end ≡ st.end) × (t.ended ≡ st.ended)
SameEnd st (ok (stop t)) = (t.end ≡ st.end) × (t.ended ≡ st.ended)
SameEnd st (err e) = Unit

if-SameEnd :
    (st : State) (b : Bool) (r q : Result Step)
    → SameEnd st r
    → SameEnd st q
    → SameEnd st (if b then r else q)
if-SameEnd st true r q h k = h
if-SameEnd st false r q h k = k

cut-SameEnd :
    (st : State) (o : Option (Bytes × Bytes)) (f : Bytes → Result Step)
    → ((s : Bytes) → SameEnd st (f s))
    → SameEnd st (elim o [ none ↦ ok (next_line st) | some (before, after) ↦ f after ])
cut-SameEnd st none f h = (refl, refl)
cut-SameEnd st (some (before, after)) f h = h after

pub comments-SameEnd : (f : ℕ) (line : Bytes) (st : State) → SameEnd st (comments f line st)
unfolding comments
comments-SameEnd zero line st = tt
comments-SameEnd (suc f) line st =
    if-SameEnd st (is_empty line) _ _ (refl, refl)
      (if-SameEnd st st.in_slash_star _ _
        (cut-SameEnd st (cut star_slash line)
          (λ s. comments f (trim_space s) (record st { in_slash_star = false }))
          (λ s.
            same_end (record st { in_slash_star = false }) refl refl _
              (comments-SameEnd f (trim_space s) (record st { in_slash_star = false }))))
        (if-SameEnd st (has_prefix line slash_slash) _ _ (refl, refl)
          (if-SameEnd st (has_prefix line slash_star) _ _
            (same_end (record st { in_slash_star = true }) refl refl _
              (comments-SameEnd f _ (record st { in_slash_star = true })))
            (refl, refl))))
  where
    same_end :
        (t : State)
        → t.end ≡ st.end
        → t.ended ≡ st.ended
        → (r : Result Step) → SameEnd t r
        → SameEnd st r
    same_end t e d (ok (next_line s)) h = (h.0 ∙ e, h.1 ∙ d)
    same_end t e d (ok (stop s)) h = (h.0 ∙ e, h.1 ∙ d)
    same_end t e d (err x) h = tt

-- The tests above the loop set `ended` on a line that is no comment, and leave `end` alone.
pub inspect_end :
    (line : Bytes) (st s : State)
    → inspect line st ≡ ok s
    → (s.end ≡ st.end)
      × (s.ended ≡ false → (st.ended ≡ false) × (has_prefix line slash_slash ≡ true))
unfolding inspect
inspect_end line st s e = ground arith

abbrev pub state_of : Step → State
state_of (next_line st) = st
state_of (stop st) = st

pub SameEnd-state_of :
    (st : State) (r : Step)
    → SameEnd st (ok r)
    → ((state_of r).end ≡ st.end) × ((state_of r).ended ≡ st.ended)
SameEnd-state_of st (next_line t) h = h
SameEnd-state_of st (stop t) h = h
