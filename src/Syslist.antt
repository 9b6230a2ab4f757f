-- ===== src/Syslist.antt =====
-- syslist.go: the known operating systems and architectures.
pub mod Laws
use buildutil.Base.{List, [], ◌∷◌, codes, Keys}

-- `knownOS`
unfoldable pub known_os : Keys
known_os =
    codes "aix"
    ∷ codes "android"
    ∷ codes "darwin"
    ∷ codes "dragonfly"
    ∷ codes "freebsd"
    ∷ codes "hurd"
    ∷ codes "illumos"
    ∷ codes "ios"
    ∷ codes "js"
    ∷ codes "linux"
    ∷ codes "nacl"
    ∷ codes "netbsd"
    ∷ codes "openbsd"
    ∷ codes "plan9"
    ∷ codes "solaris"
    ∷ codes "windows"
    ∷ codes "zos"
    ∷ []

-- `unixOS`
unfoldable pub unix_os : Keys
unix_os =
    codes "aix"
    ∷ codes "android"
    ∷ codes "darwin"
    ∷ codes "dragonfly"
    ∷ codes "freebsd"
    ∷ codes "hurd"
    ∷ codes "illumos"
    ∷ codes "ios"
    ∷ codes "linux"
    ∷ codes "netbsd"
    ∷ codes "openbsd"
    ∷ codes "solaris"
    ∷ []

-- `knownArch`
unfoldable pub known_arch : Keys
known_arch =
    codes "386"
    ∷ codes "amd64"
    ∷ codes "amd64p32"
    ∷ codes "arm"
    ∷ codes "armbe"
    ∷ codes "arm64"
    ∷ codes "arm64be"
    ∷ codes "loong64"
    ∷ codes "mips"
    ∷ codes "mipsle"
    ∷ codes "mips64"
    ∷ codes "mips64le"
    ∷ codes "mips64p32"
    ∷ codes "mips64p32le"
    ∷ codes "ppc"
    ∷ codes "ppc64"
    ∷ codes "ppc64le"
    ∷ codes "riscv"
    ∷ codes "riscv64"
    ∷ codes "s390"
    ∷ codes "s390x"
    ∷ codes "sparc"
    ∷ codes "sparc64"
    ∷ codes "wasm"
    ∷ []

-- `knownOSList`
unfoldable pub known_os_list : Keys
known_os_list =
    codes "aix"
    ∷ codes "android"
    ∷ codes "darwin"
    ∷ codes "dragonfly"
    ∷ codes "freebsd"
    ∷ codes "hurd"
    ∷ codes "illumos"
    ∷ codes "ios"
    ∷ codes "js"
    ∷ codes "linux"
    ∷ codes "nacl"
    ∷ codes "netbsd"
    ∷ codes "openbsd"
    ∷ codes "plan9"
    ∷ codes "solaris"
    ∷ codes "windows"
    ∷ codes "zos"
    ∷ []

-- `knownArchList`
unfoldable pub known_arch_list : Keys
known_arch_list =
    codes "386"
    ∷ codes "amd64"
    ∷ codes "amd64p32"
    ∷ codes "arm"
    ∷ codes "arm64"
    ∷ codes "arm64be"
    ∷ codes "armbe"
    ∷ codes "loong64"
    ∷ codes "mips"
    ∷ codes "mips64"
    ∷ codes "mips64le"
    ∷ codes "mips64p32"
    ∷ codes "mips64p32le"
    ∷ codes "mipsle"
    ∷ codes "ppc"
    ∷ codes "ppc64"
    ∷ codes "ppc64le"
    ∷ codes "riscv"
    ∷ codes "riscv64"
    ∷ codes "s390"
    ∷ codes "s390x"
    ∷ codes "sparc"
    ∷ codes "sparc64"
    ∷ codes "wasm"
    ∷ []
