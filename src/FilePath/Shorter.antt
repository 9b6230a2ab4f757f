-- ===== src/FilePath/Shorter.antt =====
-- `filepath.Dir` takes a path towards `/` or `.`.
use buildutil.Base.{
  ℕ, suc, ◌+◌, ◌<◌, ◌≤◌, Bool, true, false, List, [], ◌∷◌, reverse, if◌then◌else◌, codes, Bytes,
  same, same_iff, length, length-append, drop, grow, split, join, is_empty, ◌==◌, split-ne-nil, ◌≡◌,
  ◌≢◌, refl, ap, ◌⊎◌, inl, inr, arith, Bool-cases,
}
use mathlib.Core.List.{reverse_aux}
use buildutil.Paths.{split_path}
use buildutil.Paths.Laws.{length-split_path}
use buildutil.FilePath.{is_rooted, pop, push, push_all, path_text, clean, dir_of}

-- The bytes of the elements, with one more for each.
size : List Bytes → ℕ
size [] = 0
size (p ∷ ps) = suc (length p + size ps)

abbrev blank : Bytes → ℕ
blank [] = 1
blank (c ∷ p) = 0

blanks : List Bytes → ℕ
blanks [] = 0
blanks (p ∷ ps) = blank p + blanks ps

length-same : (p q : Bytes) → same p q ≡ true → length p ≡ length q
length-same p q h = ap length ((same_iff p q).0 h)

size-pop : (rooted : Bool) (st : List Bytes) → size (pop rooted st) ≤ size st + 3
unfolding size pop
size-pop true [] = omega arith
size-pop false [] = omega arith
size-pop rooted (p ∷ st) = elim (Bool-cases (same p (codes ".."))) [
  | inl dots ↦ rw dots (omega arith)
  | inr name ↦ rw name (omega arith)
]

size-push :
    (rooted : Bool) (p : Bytes) (st : List Bytes)
    → size (push rooted p st) + blank p ≤ size st + suc (length p)
unfolding size push
size-push rooted [] st = omega arith
size-push rooted (c ∷ p) st = ground (arith, length-same (c ∷ p) (codes ".."), size-pop rooted st)

size-push_all :
    (rooted : Bool) (ps st : List Bytes)
    → size (push_all rooted ps st) + blanks ps ≤ size st + size ps
unfolding size blanks push_all
size-push_all rooted [] st = omega arith
size-push_all rooted (p ∷ ps) st =
    omega (arith, size-push_all rooted ps (push rooted p st), size-push rooted p st)

size-grow : (c : ℕ) (ps : List Bytes) → ps ≢ [] → size (grow c ps) ≡ suc (size ps)
unfolding size
size-grow c [] h = absurd (h refl)
size-grow c (p ∷ ps) h = omega arith

size-split : (s : Bytes) → size (split b'/' s) ≡ suc (length s)
unfolding size split
size-split [] = omega arith
size-split (c ∷ s) = ground (arith, size-split s, size-grow c (split b'/' s) (split-ne-nil b'/' s))

ends_slash : Bytes → Bool
ends_slash [] = false
ends_slash (c ∷ []) = c == b'/'
ends_slash (c ∷ (d ∷ s)) = ends_slash (d ∷ s)

blanks-drop : (ps : List Bytes) → blanks (drop 1 ps) ≤ blanks ps
unfolding blanks
blanks-drop [] = omega arith
blanks-drop (p ∷ ps) = omega arith

drop-grow : (c : ℕ) (ps : List Bytes) → ps ≢ [] → drop 1 (grow c ps) ≡ drop 1 ps
drop-grow c [] h = absurd (h refl)
drop-grow c (p ∷ ps) h = refl

blanks-split : (s : Bytes) → ends_slash s ≡ true → 1 ≤ blanks (drop 1 (split b'/' s))
unfolding ends_slash split blanks
blanks-split [] h = cc
blanks-split (c ∷ []) h = ground (arith, h)
blanks-split (c ∷ (d ∷ s)) h = elim (Bool-cases (c == b'/')) [
  | inl slash ↦ rw slash (omega (arith, blanks-split (d ∷ s) h, blanks-drop (split b'/' (d ∷ s))))
  | inr other ↦
      rw (other, drop-grow c (split b'/' (d ∷ s)) (split-ne-nil b'/' (d ∷ s)))
        (blanks-split (d ∷ s) h)
]

blanks-rooted : (s : Bytes) → ends_slash s ≡ true → is_rooted s ≡ true → 2 ≤ blanks (split b'/' s)
unfolding ends_slash split blanks
blanks-rooted [] h r = cc
blanks-rooted (c ∷ s) h r = rw r (omega (arith, rw r at (blanks-split (c ∷ s) h)))

length-join : (p : Bytes) (ps : List Bytes) → length (join b'/' (p ∷ ps)) < size (p ∷ ps)
unfolding size join
length-join p [] = omega arith
length-join p (q ∷ ps) =
    omega (arith, length-append p (b'/' ∷ join b'/' (q ∷ ps)), length-join q ps)

ends_slash-cons :
    (c : ℕ) (s : Bytes) → is_empty s ≡ false → ends_slash s ≡ true → ends_slash (c ∷ s) ≡ true
unfolding ends_slash
ends_slash-cons c [] n h = cc
ends_slash-cons c (d ∷ s) n h = h

split_path-ends : (s : Bytes) → ((split_path s).0 ≡ []) ⊎ (ends_slash (split_path s).0 ≡ true)
unfolding split_path ends_slash
split_path-ends [] = inl refl
split_path-ends (c ∷ s) = elim (Bool-cases (is_empty (split_path s).0)) [
  | inr more ↦ elim (split_path-ends s) [
    | inl nothing ↦ absurd (ground (arith, more, nothing))
    | inr ended ↦ rw more (inr (ends_slash-cons c (split_path s).0 more ended))
  ]
  | inl last ↦ elim (Bool-cases (c == b'/')) [
    | inl slash ↦ rw (last, slash) (inr slash)
    | inr other ↦ rw (last, other) (inl refl)
  ]
]

size-reverse_aux : (ps qs : List Bytes) → size (reverse_aux ps qs) ≡ size ps + size qs
unfolding size
size-reverse_aux [] qs = omega arith
size-reverse_aux (p ∷ ps) qs = omega (arith, size-reverse_aux ps (p ∷ qs))

-- What `filepath.Dir` makes of a path.
pub data Parent (path : Bytes) : Bytes → Type 0 where
  dot : Parent path (codes ".")
  slash : Parent path (codes "/")
  shorter : {dir : Bytes} → length dir < length path → Parent path dir

Parent-text :
    (path : Bytes) (rooted : Bool) (ps : List Bytes)
    → size ps + (if rooted then 2 else 1) ≤ suc (length path)
    → Parent path (
        if rooted
        then b'/' ∷ join b'/' ps
        else if is_empty (join b'/' ps)
        then codes "."
        else join b'/' ps)
unfolding size join
Parent-text path true [] h = slash
Parent-text path false [] h = dot
Parent-text path true (p ∷ ps) h = shorter (omega (arith, h, length-join p ps))
Parent-text path false (p ∷ ps) h = elim (Bool-cases (is_empty (join b'/' (p ∷ ps)))) [
  | inl nothing ↦ rw nothing dot
  | inr some_text ↦ rw some_text (shorter (omega (arith, h, length-join p ps)))
]

size-nil : size [] ≡ 0
unfolding size
size-nil = refl

blanks-split_path :
    (s : Bytes) → ends_slash s ≡ true → (if is_rooted s then 2 else 1) ≤ blanks (split b'/' s)
blanks-split_path s h = elim (Bool-cases (is_rooted s)) [
  | inl root ↦ rw root (blanks-rooted s h root)
  | inr plain ↦ rw plain (omega (arith, blanks-split s h, blanks-drop (split b'/' s)))
]

clean-nil : {path : Bytes} → Parent path (clean [])
unfolding clean path_text push_all push split join
clean-nil = dot

Parent-clean : (path : Bytes) → ends_slash path ≡ true → Parent path (clean path)
unfolding clean path_text
Parent-clean path h =
    let rooted = is_rooted path in
    let st = push_all rooted (split b'/' path) [] in
    Parent-text path rooted (reverse st) (
      omega (
        arith,
        size-reverse_aux st [],
        size-nil,
        size-push_all rooted (split b'/' path) [],
        size-split path,
        blanks-split_path path h,
      ))

Parent-longer :
    {short long dir : Bytes} → length short ≤ length long → Parent short dir → Parent long dir
Parent-longer h dot = dot
Parent-longer h slash = slash
Parent-longer h (shorter q) = shorter (omega (arith, h, q))

pub Parent-dir_of : (path : Bytes) → Parent path (dir_of path)
unfolding dir_of
Parent-dir_of path = elim (split_path-ends path) [
  | inl nothing ↦ rw nothing clean-nil
  | inr ended ↦ Parent-longer (length-split_path path) (Parent-clean (split_path path).0 ended)
]

-- The steps of `filepath.Dir` from a path up to one that it leaves as it is are not more than this.
pub rank : Bytes → ℕ
rank path = if same (dir_of path) path then 0 else suc (length path)

pub rank-length : (path : Bytes) → rank path ≤ suc (length path)
unfolding rank
rank-length path = ground arith

rank-Parent :
    {path dir : Bytes} → Parent path dir → same (dir_of path) path ≡ false → rank dir < rank path
unfolding rank
rank-Parent {path} dot h =
    rw h (unfold dir_of clean path_text push_all push split_path split join same in (omega arith))
rank-Parent {path} slash h =
    rw h (unfold dir_of clean path_text push_all push split_path split join same in (omega arith))
rank-Parent {path} {dir} (shorter q) h = rw h (ground (arith, q))

pub rank-dir_of : (path : Bytes) → same (dir_of path) path ≡ false → rank (dir_of path) < rank path
rank-dir_of path h = rank-Parent (Parent-dir_of path) h
