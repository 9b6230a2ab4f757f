-- ===== src/Match/Platform.antt =====
-- `findSupportedArch`, `findSupportedOS`, `matchGOARCH` and `matchGOOS` of match.go.
pub mod Laws
use buildutil.Base.{
  Bool, true, false, not, ◌&&◌, ◌||◌, List, [], ◌∷◌, Option, none, some, if◌then◌else◌, Bytes, Keys,
  has,
}
use buildutil.Context.{Context, Toolchain}
use buildutil.Platforms.{row, supported_os_arch, supported_arch_os}
use buildutil.Platforms.Preferred.{preferred_os_list, preferred_arch_list}
use buildutil.Tags.{Expr, eval}
use buildutil.Match.{Try, hit, miss}

-- The two loops that end `findSupportedArch` and `findSupportedOS`: the first preferred name that the
-- map has, or else the first name of the map, in the order in which it is ranged over.
unfoldable pub first_preferred : List Bytes → Keys → Bytes × Bool
first_preferred [] [] = ([], false)
first_preferred [] (s ∷ m) = (s, true)
first_preferred (p ∷ ps) m = if has m p then (p, true) else first_preferred ps m

-- `findSupportedArch`
unfoldable pub find_supported_arch : Toolchain → Context → Bytes × Bool
unfolding first_preferred
find_supported_arch t c = elim (row supported_os_arch c.goos) [
  | none ↦ (c.goarch, true)
  | some arches ↦
      if has arches c.goarch
      then (c.goarch, true)
      else first_preferred (preferred_arch_list t) arches
]

-- `findSupportedOS`
unfoldable pub find_supported_os : Toolchain → Context → Bytes × Bool
unfolding first_preferred
find_supported_os t c = elim (row supported_arch_os c.goarch) [
  | none ↦ (c.goos, true)
  | some oses ↦
      if has oses c.goos then (c.goos, true) else first_preferred (preferred_os_list t) oses
]

-- `eval(ctxt, expr, nil)`
abbrev pub holds_in : Bool → Context → Expr → Bool
holds_in u c x = (eval u c x none).0

-- A loop that writes each name of a list into the context, if it passes a test, and stops where the
-- expression holds. Where none does, the context is left as it was.
unfoldable pub try_each :
    Bool → (Bytes → Bool) → (Bytes → Context) → Expr → List Bytes → Context → Try
try_each u test write x [] c = miss c
try_each u test write x (s ∷ l) c =
    let later = try_each u test write x l c in
    if test s then (if holds_in u (write s) x then hit (write s) else later) else later

abbrev set_goarch : Context → Bytes → Context
set_goarch c s = record c { goarch = s }

abbrev set_goos : Context → Bytes → Context
set_goos c s = record c { goos = s }

abbrev pub or_try : Try → (Context → Try) → Try
or_try (hit c) next = hit c
or_try (miss c) next = next c

-- The result of `eval` on the context as it is.
unfoldable pub try_eval : Bool → Expr → Context → Try
try_eval u x c = if holds_in u c x then hit c else miss c

-- `matchGOARCH`: `hit` where the source returns true, with the context that it leaves.
unfoldable pub match_goarch : Bool → Toolchain → Context → Expr → Try
unfolding try_each try_eval
match_goarch u t c x = elim (row supported_os_arch c.goos) [
  | none ↦ try_eval u x c
  | some arches ↦
      if has arches c.goarch
      then try_eval u x c
      else or_try (try_each u (has arches) (set_goarch c) x (preferred_arch_list t) c)
          (try_each u (λ s. true) (set_goarch c) x arches)
]

-- `matchGOOS`
unfoldable pub match_goos : Bool → Toolchain → Context → Expr → Try
unfolding try_each try_eval
match_goos u t c x = elim (row supported_arch_os c.goarch) [
  | none ↦ try_eval u x c
  | some oses ↦
      if has oses c.goos
      then try_eval u x c
      else or_try (try_each u (has oses) (set_goos c) x (preferred_os_list t) c)
          (try_each u (λ s. true) (set_goos c) x oses)
]
