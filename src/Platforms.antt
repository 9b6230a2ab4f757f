-- ===== src/Platforms.antt =====
-- platform_list.go, GoPlatform of platform.go, and `createPreferredList` of match.go.
pub mod Laws
pub mod Load
pub mod Preferred
use buildutil.Base.{
  List, [], ◌∷◌, Bool, true, false, Option, none, some, if◌then◌else◌, codes, same, has, Bytes,
  Keys,
}

-- `GoPlatform`
pub record GoPlatform : Type 0 where
  pub goos : Bytes
  pub goarch : Bytes
  pub cgo_supported : Bool
  pub first_class : Bool

abbrev platform : Bytes → Bytes → Bool → Bool → GoPlatform
platform os arch cgo first = record {
  goos = os;
  goarch = arch;
  cgo_supported = cgo;
  first_class = first;
}

-- `map[string]map[string]bool`
abbrev pub Table : Type 0
Table = List (Bytes × Keys)

-- `m[k]` with its `ok`.
unfoldable pub row : Table → Bytes → Option Keys
row [] k = none
row ((j, r) ∷ t) k = if same j k then some r else row t k

-- `DefaultGoPlatforms`
unfoldable pub default_go_platforms : List GoPlatform
default_go_platforms =
    platform (codes "darwin") (codes "amd64") true true
    ∷ platform (codes "darwin") (codes "arm64") true true
    ∷ platform (codes "linux") (codes "amd64") true true
    ∷ platform (codes "linux") (codes "arm64") true true
    ∷ platform (codes "windows") (codes "amd64") true true
    ∷ platform (codes "windows") (codes "386") true true
    ∷ platform (codes "linux") (codes "arm") true true
    ∷ platform (codes "linux") (codes "386") true true
    ∷ platform (codes "aix") (codes "ppc64") true false
    ∷ platform (codes "android") (codes "386") true false
    ∷ platform (codes "android") (codes "amd64") true false
    ∷ platform (codes "android") (codes "arm") true false
    ∷ platform (codes "android") (codes "arm64") true false
    ∷ platform (codes "dragonfly") (codes "amd64") true false
    ∷ platform (codes "freebsd") (codes "386") true false
    ∷ platform (codes "freebsd") (codes "amd64") true false
    ∷ platform (codes "freebsd") (codes "arm") true false
    ∷ platform (codes "freebsd") (codes "arm64") true false
    ∷ platform (codes "illumos") (codes "amd64") true false
    ∷ platform (codes "ios") (codes "amd64") true false
    ∷ platform (codes "ios") (codes "arm64") true false
    ∷ platform (codes "js") (codes "wasm") false false
    ∷ platform (codes "linux") (codes "loong64") true false
    ∷ platform (codes "linux") (codes "mips") true false
    ∷ platform (codes "linux") (codes "mips64") true false
    ∷ platform (codes "linux") (codes "mips64le") true false
    ∷ platform (codes "linux") (codes "mipsle") true false
    ∷ platform (codes "linux") (codes "ppc64") false false
    ∷ platform (codes "linux") (codes "ppc64le") true false
    ∷ platform (codes "linux") (codes "riscv64") true false
    ∷ platform (codes "linux") (codes "s390x") true false
    ∷ platform (codes "netbsd") (codes "386") true false
    ∷ platform (codes "netbsd") (codes "amd64") true false
    ∷ platform (codes "netbsd") (codes "arm") true false
    ∷ platform (codes "netbsd") (codes "arm64") true false
    ∷ platform (codes "openbsd") (codes "386") true false
    ∷ platform (codes "openbsd") (codes "amd64") true false
    ∷ platform (codes "openbsd") (codes "arm") true false
    ∷ platform (codes "openbsd") (codes "arm64") true false
    ∷ platform (codes "openbsd") (codes "mips64") true false
    ∷ platform (codes "plan9") (codes "386") false false
    ∷ platform (codes "plan9") (codes "amd64") false false
    ∷ platform (codes "plan9") (codes "arm") false false
    ∷ platform (codes "solaris") (codes "amd64") true false
    ∷ platform (codes "windows") (codes "arm") false false
    ∷ platform (codes "windows") (codes "arm64") true false
    ∷ []

-- `cgoEnabled`
unfoldable pub cgo_enabled : Keys
cgo_enabled =
    codes "aix/ppc64"
    ∷ codes "android/386"
    ∷ codes "android/amd64"
    ∷ codes "android/arm"
    ∷ codes "android/arm64"
    ∷ codes "darwin/amd64"
    ∷ codes "darwin/arm64"
    ∷ codes "dragonfly/amd64"
    ∷ codes "freebsd/386"
    ∷ codes "freebsd/amd64"
    ∷ codes "freebsd/arm"
    ∷ codes "freebsd/arm64"
    ∷ codes "illumos/amd64"
    ∷ codes "ios/amd64"
    ∷ codes "ios/arm64"
    ∷ codes "linux/386"
    ∷ codes "linux/amd64"
    ∷ codes "linux/arm"
    ∷ codes "linux/arm64"
    ∷ codes "linux/loong64"
    ∷ codes "linux/mips"
    ∷ codes "linux/mips64"
    ∷ codes "linux/mips64le"
    ∷ codes "linux/mipsle"
    ∷ codes "linux/ppc64le"
    ∷ codes "linux/riscv64"
    ∷ codes "linux/s390x"
    ∷ codes "netbsd/386"
    ∷ codes "netbsd/amd64"
    ∷ codes "netbsd/arm"
    ∷ codes "netbsd/arm64"
    ∷ codes "openbsd/386"
    ∷ codes "openbsd/amd64"
    ∷ codes "openbsd/arm"
    ∷ codes "openbsd/arm64"
    ∷ codes "openbsd/mips64"
    ∷ codes "solaris/amd64"
    ∷ codes "windows/386"
    ∷ codes "windows/amd64"
    ∷ codes "windows/arm64"
    ∷ []

-- `supportedPlatformsOsArch`
unfoldable pub supported_os_arch : Table
supported_os_arch =
    (codes "aix", codes "ppc64" ∷ [])
    ∷ (codes "android", codes "386" ∷ codes "amd64" ∷ codes "arm" ∷ codes "arm64" ∷ [])
    ∷ (codes "darwin", codes "amd64" ∷ codes "arm64" ∷ [])
    ∷ (codes "dragonfly", codes "amd64" ∷ [])
    ∷ (codes "freebsd", codes "386" ∷ codes "amd64" ∷ codes "arm" ∷ codes "arm64" ∷ [])
    ∷ (codes "illumos", codes "amd64" ∷ [])
    ∷ (codes "ios", codes "amd64" ∷ codes "arm64" ∷ [])
    ∷ (codes "js", codes "wasm" ∷ [])
    ∷ (
      codes "linux",
      codes "386"
          ∷ codes "amd64"
          ∷ codes "arm"
          ∷ codes "arm64"
          ∷ codes "loong64"
          ∷ codes "mips"
          ∷ codes "mips64"
          ∷ codes "mips64le"
          ∷ codes "mipsle"
          ∷ codes "ppc64"
          ∷ codes "ppc64le"
          ∷ codes "riscv64"
          ∷ codes "s390x"
          ∷ [],
    )
    ∷ (codes "netbsd", codes "386" ∷ codes "amd64" ∷ codes "arm" ∷ codes "arm64" ∷ [])
    ∷ (
      codes "openbsd",
      codes "386" ∷ codes "amd64" ∷ codes "arm" ∷ codes "arm64" ∷ codes "mips64" ∷ [],
    )
    ∷ (codes "plan9", codes "386" ∷ codes "amd64" ∷ codes "arm" ∷ [])
    ∷ (codes "solaris", codes "amd64" ∷ [])
    ∷ (codes "windows", codes "386" ∷ codes "amd64" ∷ codes "arm" ∷ codes "arm64" ∷ [])
    ∷ []

-- `supportedPlatformsArchOs`
unfoldable pub supported_arch_os : Table
supported_arch_os =
    (
      codes "386",
      codes "android"
          ∷ codes "freebsd"
          ∷ codes "linux"
          ∷ codes "netbsd"
          ∷ codes "openbsd"
          ∷ codes "plan9"
          ∷ codes "windows"
          ∷ [],
    )
    ∷ (
      codes "amd64",
      codes "android"
          ∷ codes "darwin"
          ∷ codes "dragonfly"
          ∷ codes "freebsd"
          ∷ codes "illumos"
          ∷ codes "ios"
          ∷ codes "linux"
          ∷ codes "netbsd"
          ∷ codes "openbsd"
          ∷ codes "plan9"
          ∷ codes "solaris"
          ∷ codes "windows"
          ∷ [],
    )
    ∷ (
      codes "arm",
      codes "android"
          ∷ codes "freebsd"
          ∷ codes "linux"
          ∷ codes "netbsd"
          ∷ codes "openbsd"
          ∷ codes "plan9"
          ∷ codes "windows"
          ∷ [],
    )
    ∷ (
      codes "arm64",
      codes "android"
          ∷ codes "darwin"
          ∷ codes "freebsd"
          ∷ codes "ios"
          ∷ codes "linux"
          ∷ codes "netbsd"
          ∷ codes "openbsd"
          ∷ codes "windows"
          ∷ [],
    )
    ∷ (codes "loong64", codes "linux" ∷ [])
    ∷ (codes "mips", codes "linux" ∷ [])
    ∷ (codes "mips64", codes "linux" ∷ codes "openbsd" ∷ [])
    ∷ (codes "mips64le", codes "linux" ∷ [])
    ∷ (codes "mipsle", codes "linux" ∷ [])
    ∷ (codes "ppc64", codes "aix" ∷ codes "linux" ∷ [])
    ∷ (codes "ppc64le", codes "linux" ∷ [])
    ∷ (codes "riscv64", codes "linux" ∷ [])
    ∷ (codes "s390x", codes "linux" ∷ [])
    ∷ (codes "wasm", codes "js" ∷ [])
    ∷ []
