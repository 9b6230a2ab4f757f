-- ===== src/FileName.antt =====
-- `goodOSArchFile` of file.go: what a file's name says about the systems it is for.
pub mod Laws
use buildutil.Base.{
  ℕ, Bool, true, false, not, ◌&&◌, ◌||◌, List, [], ◌∷◌, ◌++◌, Option, none, some, if◌then◌else◌,
  codes, Bytes, same, has, cut, split, reverse,
}
use buildutil.Context.{Context}
use buildutil.Syslist.{known_os, known_arch}
use buildutil.Tags.{Tags, match_tag}

-- `strings.Cut(name, ".")`, its first result.
before_dot : Bytes → Bytes
before_dot name = elim (cut (b'.' ∷ []) name) [ none ↦ name | some (before, after) ↦ before ]

-- The parts are held in reverse here and below: `l[n-1]` is the first and `l[n-2]` the second.
drop_test : List Bytes → List Bytes
drop_test [] = []
drop_test (s ∷ l) = if same s (codes "test") then l else s ∷ l

match_last : Bool → Context → Bytes → Tags → Bool × Tags
match_last u c s m = if has known_os s || has known_arch s then match_tag u c s m else (true, m)

-- Both tags are matched, the architecture first.
match_both : Bool → Context → Bytes → Bytes → Tags → Bool × Tags
match_both u c arch os m =
    let (ok_arch, m1) = match_tag u c arch m in
    let (ok_os, m2) = match_tag u c os m1 in (ok_arch && ok_os, m2)

-- The two tests behind the split.
match_parts : Bool → Context → List Bytes → Tags → Bool × Tags
unfolding match_last match_both
match_parts u c [] m = (true, m)
match_parts u c (a ∷ []) m = match_last u c a m
match_parts u c (a ∷ (o ∷ l)) m =
    if has known_os o && has known_arch a then match_both u c a o m else match_last u c a m

-- `goodOSArchFile`: the answer, and the map that it has written to.
unfoldable pub good_os_arch_file : Bool → Context → Bytes → Tags → Bool × Tags
unfolding before_dot drop_test match_parts
good_os_arch_file u c name m = elim (cut (b'_' ∷ []) (before_dot name)) [
  | none ↦ (true, m)
  | some (ignored, rest) ↦ match_parts u c (drop_test (reverse (split b'_' (b'_' ∷ rest)))) m
]
