-- ===== src/Platforms/Laws.antt =====
-- The tables of platform_list.go agree with one another and with syslist.go.
use buildutil.Base.{
  Bool, true, false, not, ◌&&◌, ◌||◌, List, [], ◌∷◌, ◌++◌, none, some, arith, ◌≡◌, refl, Bytes,
  same, same_iff, has, Keys, Bool_ext,
}
use buildutil.Syslist.{known_os, known_arch}
use buildutil.Platforms.{
  GoPlatform, Table, row, default_go_platforms, cgo_enabled, supported_os_arch, supported_arch_os,
}

-- `t[a][b]`: a missing row is a nil map.
unfoldable pub supports : Table → Bytes → Bytes → Bool
unfolding row has same
supports t a b = elim (row t a) [ none ↦ false | some r ↦ has r b ]

all_keys : (Bytes → Bool) → Keys → Bool
all_keys p [] = true
all_keys p (k ∷ m) = p k && all_keys p m

all_keys-has :
    (p : Bytes → Bool) (m : Keys) (k : Bytes) → all_keys p m ≡ true → has m k ≡ true → p k ≡ true
unfolding all_keys has
all_keys-has p [] k a h = cc
all_keys-has p (j ∷ m) k a h = ground (arith, all_keys-has p m k, same_iff j k)

every : (Bytes → Bytes → Bool) → Table → Bool
unfolding all_keys
every p [] = true
every p ((a, r) ∷ t) = all_keys (p a) r && every p t

every-supports :
    (p : Bytes → Bytes → Bool) (t : Table) (a b : Bytes)
    → every p t ≡ true
    → supports t a b ≡ true
    → p a b ≡ true
unfolding every supports
every-supports p [] a b e h = cc
every-supports p ((c, r) ∷ t) a b e h =
    ground (arith, every-supports p t a b, same_iff c a, all_keys-has (p c) r b)

-- `supportedPlatformsArchOs` is `supportedPlatformsOsArch` turned round.
pub supported_turned :
    (os arch : Bytes) → supports supported_os_arch os arch ≡ supports supported_arch_os arch os
unfolding every supports supported_os_arch supported_arch_os
supported_turned os arch =
    Bool_ext (supports supported_os_arch os arch) (supports supported_arch_os arch os)
      (every-supports (λ a b. supports supported_arch_os b a) supported_os_arch os arch refl)
      (every-supports (λ a b. supports supported_os_arch b a) supported_arch_os arch os refl)

unfoldable pub is_platform : Bytes → Bytes → GoPlatform → Bool
unfolding same
is_platform os arch p = same p.goos os && same p.goarch arch

unfoldable pub listed : List GoPlatform → Bytes → Bytes → Bool
unfolding is_platform
listed [] os arch = false
listed (p ∷ ps) os arch = is_platform os arch p || listed ps os arch

all_platforms : (GoPlatform → Bool) → List GoPlatform → Bool
all_platforms q [] = true
all_platforms q (p ∷ ps) = q p && all_platforms q ps

-- The platform stands in the list.
pub data Listed (p : GoPlatform) : List GoPlatform → Type 0 where
  here : {ps : List GoPlatform} → Listed p (p ∷ ps)
  there : {q : GoPlatform} {ps : List GoPlatform} → Listed p ps → Listed p (q ∷ ps)

all_platforms-Listed :
    (q : GoPlatform → Bool) {p : GoPlatform} {ps : List GoPlatform}
    → Listed p ps
    → all_platforms q ps ≡ true
    → q p ≡ true
unfolding all_platforms
all_platforms-Listed q here a = ground arith
all_platforms-Listed q (there l) a = ground (arith, all_platforms-Listed q l)

all_platforms-listed :
    (q : Bytes → Bytes → Bool) (ps : List GoPlatform) (os arch : Bytes)
    → all_platforms (λ p. q p.goos p.goarch) ps ≡ true
    → listed ps os arch ≡ true
    → q os arch ≡ true
unfolding all_platforms listed
all_platforms-listed q [] os arch a h = cc
all_platforms-listed q (p ∷ ps) os arch a h =
    ground (arith, all_platforms-listed q ps os arch, same_iff p.goos os, same_iff p.goarch arch)

-- The table of supported platforms has exactly the pairs of `DefaultGoPlatforms`.
pub supported-listed :
    (os arch : Bytes) → supports supported_os_arch os arch ≡ listed default_go_platforms os arch
unfolding every supports supported_os_arch listed default_go_platforms all_platforms
supported-listed os arch =
    Bool_ext (supports supported_os_arch os arch) (listed default_go_platforms os arch)
      (every-supports (listed default_go_platforms) supported_os_arch os arch refl)
      (all_platforms-listed (supports supported_os_arch) default_go_platforms os arch refl)

iff : Bool → Bool → Bool
iff true b = b
iff false b = not b

iff-eq : (a b : Bool) → iff a b ≡ true → a ≡ b
unfolding iff
iff-eq a b h = ground arith

abbrev described : GoPlatform → Bool
described p =
    iff (has cgo_enabled (p.goos ++ (b'/' ∷ p.goarch))) p.cgo_supported
    && (has known_os p.goos && has known_arch p.goarch)

-- A platform of `DefaultGoPlatforms` has a known system and a known architecture, and `cgoEnabled` says
-- of it what its field `CgoSupported` says.
pub default_go_platforms_lem :
    {p : GoPlatform}
    → Listed p default_go_platforms
    → (has known_os p.goos ≡ true)
      × (has known_arch p.goarch ≡ true)
      × (has cgo_enabled (p.goos ++ (b'/' ∷ p.goarch)) ≡ p.cgo_supported)
default_go_platforms_lem {p} l =
    let d : described p ≡ true = all_platforms-Listed described l table in
    (ground arith, ground arith, iff-eq _ _ (ground arith))
  where
    table : all_platforms described default_go_platforms ≡ true
    table =
        unfold all_platforms iff has same cgo_enabled known_os known_arch default_go_platforms in
        refl
