-- ===== src/Paths/Laws.antt =====
-- What the functions on paths find.
use buildutil.Base.{
  ℕ, zero, suc, ◌-◌, ◌≤◌, ◌<◌, true, false, [], ◌∷◌, ◌++◌, some, Bytes, same, same_iff, length,
  take, drop, take-drop, is_empty, arith, ◌≡◌, refl, ap, sym, ◌∙◌, inl, inr, Bool-cases,
}
use buildutil.Paths.{first_is, is_subdir, has_subdir, split_path, parent_of, resolve_loop}

first_is-slash : (s : Bytes) → first_is b'/' s ≡ true → s ≡ b'/' ∷ drop 1 s
first_is-slash [] h = cc h
first_is-slash (c ∷ s) h = ground (arith, h)

drop-drop : (n : ℕ) (s : Bytes) → drop 1 (drop n s) ≡ drop (suc n) s
drop-drop zero s = refl
drop-drop (suc n) [] = refl
drop-drop (suc n) (c ∷ s) = drop-drop n s

-- What `isSubdir` has found out.
is_subdir-tests :
    (root dir : Bytes)
    → is_subdir root dir ≡ true
    → (take (length root) dir ≡ root)
      × (drop (length root) dir ≡ b'/' ∷ drop (suc (length root)) dir)
unfolding is_subdir
is_subdir-tests root dir h =
    let here : same (take (length root) dir) root ≡ true = ground (arith, h) in
    let slash : first_is b'/' (drop (length root) dir) ≡ true = ground (arith, h) in
    (
      (same_iff (take (length root) dir) root).0 here,
      first_is-slash (drop (length root) dir) slash ∙ ap (◌∷◌ b'/') (drop-drop (length root) dir),
    )

-- If `hasSubdir` finds a relative path, the directory is the root, a separator and that path.
pub has_subdir_lem :
    (root dir rel : Bytes) → has_subdir root dir ≡ some rel → dir ≡ root ++ (b'/' ∷ rel)
unfolding has_subdir
has_subdir_lem root dir rel h = elim (Bool-cases (is_subdir root dir)) [
  | inl inside ↦
      let (front, behind) = is_subdir-tests root dir inside in
      let found : drop (suc (length root)) dir ≡ rel = cc (rw inside at h) in
      rw (← found) (
        sym (take-drop (length root) dir)
        ∙ ap (λ s. s ++ drop (length root) dir) front
        ∙ ap (λ s. root ++ s) behind)
  | inr outside ↦ cc (rw outside at h)
]

split_path-append : (s : Bytes) → (split_path s).0 ++ (split_path s).1 ≡ s
unfolding split_path
split_path-append [] = refl
split_path-append (c ∷ s) = ground (arith, split_path-append s)

pub length-split_path : (s : Bytes) → length (split_path s).0 ≤ length s
unfolding split_path
length-split_path [] = omega arith
length-split_path (c ∷ s) = ground (arith, length-split_path s)

length-take : (n : ℕ) (s : Bytes) → length (take n s) ≤ n
length-take zero s = omega arith
length-take (suc n) [] = omega arith
length-take (suc n) (c ∷ s) = omega (arith, length-take n s)

length_positive : (s : Bytes) → is_empty s ≡ false → 0 < length s
length_positive [] h = cc h
length_positive (c ∷ s) h = omega arith

parent_of-shorter :
    (dir : Bytes) → is_empty (parent_of dir) ≡ false → length (parent_of dir) < length dir
unfolding parent_of
parent_of-shorter dir h = omega (
  arith,
  length-take (length (split_path dir).0 - 1) (split_path dir).0,
  length-split_path dir,
  length_positive (take (length (split_path dir).0 - 1) (split_path dir).0) h,
)

-- The fuel of the loop in `resolveGOPATH` is enough: with more of it the loop has the same result.
pub resolve_loop-fuel :
    (f g : ℕ) (dir : Bytes)
    → length dir < f
    → length dir < g
    → resolve_loop f dir ≡ resolve_loop g dir
unfolding resolve_loop
resolve_loop-fuel zero g dir h k = absurd (omega arith)
resolve_loop-fuel (suc f) zero dir h k = absurd (omega arith)
resolve_loop-fuel (suc f) (suc g) dir h k = elim (Bool-cases (is_empty (parent_of dir))) [
  | inl root ↦ ground (arith, root)
  | inr below ↦
      let short = parent_of-shorter dir below in
      let same_rest =
        resolve_loop-fuel f g (parent_of dir) (omega (arith, h, short)) (omega (arith, k, short)) in
      rw same_rest refl
]
