-- ===== src/Match/Search.antt =====
-- The last phase of `MatchContext`: it tries other systems and architectures.
use buildutil.Base.{
  Bool, true, false, not, ◌&&◌, ◌||◌, List, [], ◌∷◌, Option, none, some, if◌then◌else◌, Bytes, Keys,
  has, same, is_empty,
}
use buildutil.Context.{Context, Toolchain}
use buildutil.Platforms.{GoPlatform, default_go_platforms}
use buildutil.Platforms.Preferred.{preferred_os_list, preferred_arch_list}
use buildutil.Syslist.{known_os, known_arch}
use buildutil.Tags.{Expr}
use buildutil.Util.{tags_intersect}
use buildutil.Match.{Try, hit, miss}
use buildutil.Match.Platform.{holds_in, match_goarch, match_goos}

-- `requiredOS`, a map that may be nil, and `requiredArch`, empty where there is none.
pub record Required : Type 0 where
  pub os : Option Keys
  pub arch : Bytes

-- The system passes `requiredOS != nil && !requiredOS[os]`.
abbrev pub os_allowed : Option Keys → Bytes → Bool
os_allowed none os = true
os_allowed (some m) os = has m os

-- The architecture passes `requiredArch != "" && arch != requiredArch`.
abbrev pub arch_allowed : Bytes → Bytes → Bool
arch_allowed required arch = is_empty required || same arch required

-- A round of a loop, and the rounds behind it.
abbrev pub keep_on : Try → Try → Try
keep_on (hit c) later = hit c
keep_on (miss c) later = later

module _ (u : Bool) (t : Toolchain) (x : Expr) (q : Required) where
  -- A platform with cgo as it supports it, and again without cgo.
  unfoldable pub try_platform : Context → GoPlatform → Try
  try_platform c p =
      let first = record c { goos = p.goos; goarch = p.goarch; cgo_enabled = p.cgo_supported } in
      let second = record first { cgo_enabled = false } in
      if holds_in u first x
      then hit first
      else if first.cgo_enabled && holds_in u second x
      then hit second
      else miss c

  -- `case hasOS && hasArch`
  unfoldable pub try_platforms : List GoPlatform → Context → Try
  try_platforms [] c = miss c
  try_platforms (p ∷ ps) c =
      let later = try_platforms ps c in
      if same p.goos c.goos && same p.goarch c.goarch
      then later
      else if not (arch_allowed q.arch p.goarch)
      then later
      else if not (os_allowed q.os p.goos)
      then later
      else keep_on (try_platform c p) later

  -- `case hasOS`
  unfoldable pub try_oses : List Bytes → Context → Try
  try_oses [] c = miss c
  try_oses (os ∷ oses) c =
      let later = try_oses oses c in
      if same os c.goos
      then later
      else if not (os_allowed q.os os)
      then later
      else keep_on (match_goarch u t (record c { goos = os }) x) later

  -- `case hasArch`
  unfoldable pub try_arches : List Bytes → Context → Try
  try_arches [] c = miss c
  try_arches (arch ∷ arches) c =
      let later = try_arches arches c in
      if same arch c.goarch
      then later
      else if not (arch_allowed q.arch arch)
      then later
      else keep_on (match_goos u t (record c { goarch = arch }) x) later

  -- The switch.
  unfoldable pub try_systems : Keys → Context → Try
  try_systems tags c =
      let has_os = tags_intersect tags known_os in
      let has_arch = tags_intersect tags known_arch in
      if has_os && has_arch
      then try_platforms default_go_platforms c
      else if has_os
      then try_oses (preferred_os_list t) c
      else if has_arch
      then try_arches (preferred_arch_list t) c
      else miss c
