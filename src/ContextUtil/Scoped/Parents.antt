-- ===== src/ContextUtil/Scoped/Parents.antt =====
-- The loop that adds the directories from a package up to its source root.
use buildutil.Base.{
  ℕ, zero, suc, ◌+◌, ◌<◌, Bool, true, false, not, ◌&&◌, ◌||◌, [], ◌∷◌, none, some, Bytes, has,
  has-append, same, same_iff, same_refl, length, ok, Bool-cases, inl, inr, ◌≡◌, refl, arith,
}
use buildutil.FilePath.{dir_of}
use buildutil.FilePath.Shorter.{rank, rank-length, rank-dir_of}
use buildutil.ContextUtil.Scoped.{Dirs, subdirs_of, add_subdir, add_parents, sort_dirs}
use buildutil.ContextUtil.Scoped.Unique.{sort_unique_strings-Ascending}

-- The map has the directory in the list of `k`.
unfoldable pub holds : Dirs → Bytes → Bytes → Bool
holds m k s = elim (subdirs_of m k) [ none ↦ false | some subs ↦ has subs s ]

pub holds-add_subdir :
    (j t : Bytes) (m : Dirs) (k s : Bytes)
    → holds (add_subdir j t m) k s ≡ (holds m k s || (same j k && same t s))
unfolding holds add_subdir subdirs_of has
holds-add_subdir j t [] k s = ground arith
holds-add_subdir j t ((i, subs) ∷ m) k s = ground (
  arith,
  holds-add_subdir j t m k s,
  has-append subs (t ∷ []) s,
  same_iff i j,
  same_iff i k,
  same_iff j k,
)

pub holds-sort_dirs : (m : Dirs) (k s : Bytes) → holds (sort_dirs m) k s ≡ holds m k s
unfolding holds sort_dirs subdirs_of
holds-sort_dirs [] k s = refl
holds-sort_dirs ((i, subs) ∷ m) k s =
    ground (arith, holds-sort_dirs m k s, (sort_unique_strings-Ascending subs).1 s)

-- The loop of `ScopedContext` goes on above the directory.
abbrev pub goes_on : Bytes → Bytes → Bool
goes_on src dir = not (same dir src) && not (same dir (dir_of dir))

-- `d` is the directory or above it, and below the source root.
pub data Leads (src d : Bytes) : Bytes → Type 0 where
  here : goes_on src d ≡ true → Leads src d d
  later : {dir : Bytes} → goes_on src dir ≡ true → Leads src d (dir_of dir) → Leads src d dir

pub add_parents-next :
    (f : ℕ) (src dir : Bytes) (m n : Dirs)
    → goes_on src dir ≡ true
    → add_parents (suc f) src dir m ≡ ok n
    → add_parents f src (dir_of dir) (add_subdir (dir_of dir) dir m) ≡ ok n
unfolding add_parents
add_parents-next f src dir m n on q = ground (arith, on, q)

pub add_parents-holds :
    (f : ℕ) (src dir : Bytes) (m n : Dirs) (k s : Bytes)
    → add_parents f src dir m ≡ ok n
    → holds m k s ≡ true
    → holds n k s ≡ true
unfolding add_parents
add_parents-holds zero src dir m n k s q h = cc
add_parents-holds (suc f) src dir m n k s q h = elim (Bool-cases (goes_on src dir)) [
  | inl on ↦
      add_parents-holds f src (dir_of dir) (add_subdir (dir_of dir) dir m) n k s
        (add_parents-next f src dir m n on q)
        (ground (arith, h, holds-add_subdir (dir_of dir) dir m k s))
  | inr off ↦ let same_map : m ≡ n = ground (arith, off, q) in rw (← same_map) h
]

pub add_parents-Leads :
    (f : ℕ) (src dir d : Bytes) (m n : Dirs)
    → add_parents f src dir m ≡ ok n
    → Leads src d dir
    → holds n (dir_of d) d ≡ true
add_parents-Leads zero src dir d m n q l = unfold add_parents in cc
add_parents-Leads (suc f) src dir d m n q (here on) =
    add_parents-holds f src (dir_of d) (add_subdir (dir_of d) d m) n (dir_of d) d
      (add_parents-next f src d m n on q)
      (ground
        (arith, holds-add_subdir (dir_of d) d m (dir_of d) d, same_refl (dir_of d), same_refl d))
add_parents-Leads (suc f) src dir d m n q (later on l) =
    add_parents-Leads f src (dir_of dir) d (add_subdir (dir_of dir) dir m) n
      (add_parents-next f src dir m n on q) l

goes_on-moves : (src dir : Bytes) → goes_on src dir ≡ true → same (dir_of dir) dir ≡ false
goes_on-moves src dir on = ground (arith, on, same_iff (dir_of dir) dir, same_iff dir (dir_of dir))

add_parents-some :
    (f : ℕ) (src dir : Bytes) (m : Dirs)
    → rank dir < f
    → (n : Dirs) × (add_parents f src dir m ≡ ok n)
unfolding add_parents
add_parents-some zero src dir m h = absurd (omega (arith, h))
add_parents-some (suc f) src dir m h = elim (Bool-cases (goes_on src dir)) [
  | inl on ↦
      let (n, q) =
        add_parents-some f src (dir_of dir) (add_subdir (dir_of dir) dir m)
          (omega (arith, h, rank-dir_of dir (goes_on-moves src dir on))) in
      (n, ground (arith, on, q))
  | inr off ↦ (m, ground (arith, off))
]

-- The loop of `ScopedContext` from a package up to its source root ends: its fuel is enough.
pub add_parents-ends :
    (src dir : Bytes) (m : Dirs) → (n : Dirs) × (add_parents (3 + length dir) src dir m ≡ ok n)
add_parents-ends src dir m =
    add_parents-some (3 + length dir) src dir m (omega (arith, rank-length dir))
