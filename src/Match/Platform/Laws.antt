-- ===== src/Match/Platform/Laws.antt =====
-- `findSupportedArch` and `findSupportedOS` answer with a supported pair, and leave one that is supported.
use buildutil.Base.{
  Bool, true, false, List, [], ◌∷◌, some, if◌then◌else◌, Bytes, Keys, has, arith, ◌≡◌, ◌≢◌, refl,
  same_refl,
}
use buildutil.Context.{Context, Toolchain}
use buildutil.Platforms.{row, supported_os_arch, supported_arch_os}
use buildutil.Platforms.Preferred.{preferred_os_list, preferred_arch_list}
use buildutil.Match.Platform.{first_preferred, find_supported_arch, find_supported_os}

-- A name that the map has, with the answer that there is one.
abbrev pub Chosen : Keys → Bytes × Bool → Type 0
Chosen m r = (r.1 ≡ true) × (has m r.0 ≡ true)

if-Chosen :
    (m : Keys) (b : Bool) (r s : Bytes × Bool)
    → (b ≡ true → Chosen m r)
    → Chosen m s
    → Chosen m (if b then r else s)
if-Chosen m true r s f g = f refl
if-Chosen m false r s f g = g

first_preferred-Chosen : (ps : List Bytes) (m : Keys) → m ≢ [] → Chosen m (first_preferred ps m)
unfolding first_preferred
first_preferred-Chosen [] [] ne = absurd (ne refl)
first_preferred-Chosen [] (s ∷ m) ne = (refl, unfold has in ground (arith, same_refl s))
first_preferred-Chosen (p ∷ ps) m ne =
    if-Chosen m (has m p) (p, true) (first_preferred ps m) (λ h. (refl, h))
      (first_preferred-Chosen ps m ne)

-- For a system that the table has, with some architecture, `findSupportedArch` returns true and an
-- architecture that the table has for the system; it is the one of the context if that is supported.
pub find_supported_arch_lem :
    (t : Toolchain) (c : Context) (arches : Keys)
    → row supported_os_arch c.goos ≡ some arches
    → arches ≢ []
    → ((find_supported_arch t c).1 ≡ true)
      × (has arches (find_supported_arch t c).0 ≡ true)
      × (has arches c.goarch ≡ true → (find_supported_arch t c).0 ≡ c.goarch)
unfolding find_supported_arch
find_supported_arch_lem t c arches e ne =
    let found =
      if-Chosen arches (has arches c.goarch) (c.goarch, true)
        (first_preferred (preferred_arch_list t) arches) (λ h. (refl, h))
        (first_preferred-Chosen (preferred_arch_list t) arches ne) in
    rw (e, find_supported_arch) (found.0, found.1, λ h. rw h refl)

-- For an architecture that the table has, with some system, `findSupportedOS` returns true and a system
-- that the table has for the architecture; it is the one of the context if that is supported.
pub find_supported_os_lem :
    (t : Toolchain) (c : Context) (oses : Keys)
    → row supported_arch_os c.goarch ≡ some oses
    → oses ≢ []
    → ((find_supported_os t c).1 ≡ true)
      × (has oses (find_supported_os t c).0 ≡ true)
      × (has oses c.goos ≡ true → (find_supported_os t c).0 ≡ c.goos)
unfolding find_supported_os
find_supported_os_lem t c oses e ne =
    let found =
      if-Chosen oses (has oses c.goos) (c.goos, true) (first_preferred (preferred_os_list t) oses)
        (λ h. (refl, h)) (first_preferred-Chosen (preferred_os_list t) oses ne) in
    rw (e, find_supported_os) (found.0, found.1, λ h. rw h refl)
