-- ===== src/Match/Choice.antt =====
-- The contexts that the last phase of `MatchContext` may choose, described without its loops. Choice/Each,
-- Choice/Platforms and Choice/Found compare them with the loops of match.go.
pub mod Each
pub mod Platforms
pub mod Found
pub mod Error
use buildutil.Base.{
  Bool, true, false, not, ◌&&◌, List, [], ◌∷◌, Option, none, some, Bytes, Keys, has, same, ◌≡◌,
}
use buildutil.Context.{Context, Toolchain}
use buildutil.Platforms.{
  GoPlatform, default_go_platforms, row, supported_os_arch, supported_arch_os,
}
use buildutil.Platforms.Laws.{Listed}
use buildutil.Platforms.Preferred.{preferred_os_list, preferred_arch_list}
use buildutil.Syslist.{known_os, known_arch}
use buildutil.Util.{tags_intersect}
use buildutil.Match.Search.{Required, os_allowed, arch_allowed}

-- The architectures that may stand in the context beside its system: its own one, if the table has no
-- row for the system or has it in the row, and otherwise each one of the row.
pub data ArchChoice (c d : Context) : Type 0 where
  arch_no_row : row supported_os_arch c.goos ≡ none → d ≡ c → ArchChoice c d
  arch_kept :
      (arches : Keys)
      → row supported_os_arch c.goos ≡ some arches
      → has arches c.goarch ≡ true
      → d ≡ c
      → ArchChoice c d
  arch_changed :
      (arches : Keys) (arch : Bytes)
      → row supported_os_arch c.goos ≡ some arches
      → has arches c.goarch ≡ false
      → has arches arch ≡ true
      → d ≡ record c { goarch = arch }
      → ArchChoice c d

-- The systems that may stand in the context beside its architecture.
pub data OsChoice (c d : Context) : Type 0 where
  os_no_row : row supported_arch_os c.goarch ≡ none → d ≡ c → OsChoice c d
  os_kept :
      (oses : Keys)
      → row supported_arch_os c.goarch ≡ some oses
      → has oses c.goos ≡ true
      → d ≡ c
      → OsChoice c d
  os_changed :
      (oses : Keys) (os : Bytes)
      → row supported_arch_os c.goarch ≡ some oses
      → has oses c.goos ≡ false
      → has oses os ≡ true
      → d ≡ record c { goos = os }
      → OsChoice c d

-- The platform is not the one of the context, and the file's name allows it.
abbrev pub may_use : Required → Context → GoPlatform → Bool
may_use q c p =
    not (same p.goos c.goos && same p.goarch c.goarch)
    && (arch_allowed q.arch p.goarch && os_allowed q.os p.goos)

-- The contexts with another platform: with cgo as the platform supports it, and without cgo.
pub data PlatformChoice (q : Required) (ps : List GoPlatform) (c d : Context) : Type 0 where
  with_cgo :
      (p : GoPlatform)
      → Listed p ps
      → may_use q c p ≡ true
      → d ≡ record c { goos = p.goos; goarch = p.goarch; cgo_enabled = p.cgo_supported }
      → PlatformChoice q ps c d
  without_cgo :
      (p : GoPlatform)
      → Listed p ps
      → may_use q c p ≡ true
      → d ≡ record c { goos = p.goos; goarch = p.goarch; cgo_enabled = false }
      → PlatformChoice q ps c d

pub data SystemChoice (q : Required) (oses : List Bytes) (c d : Context) : Type 0 where
  system :
      (os : Bytes)
      → has oses os ≡ true
      → (not (same os c.goos) && os_allowed q.os os) ≡ true
      → ArchChoice (record c { goos = os }) d
      → SystemChoice q oses c d

pub data MachineChoice (q : Required) (arches : List Bytes) (c d : Context) : Type 0 where
  machine :
      (arch : Bytes)
      → has arches arch ≡ true
      → (not (same arch c.goarch) && arch_allowed q.arch arch) ≡ true
      → OsChoice (record c { goarch = arch }) d
      → MachineChoice q arches c d

-- What the tags let the phase change: the platform, the system alone, or the architecture alone.
pub data Choice (t : Toolchain) (q : Required) (tags : Keys) (c d : Context) : Type 0 where
  platform :
      tags_intersect tags known_os ≡ true
      → tags_intersect tags known_arch ≡ true
      → PlatformChoice q default_go_platforms c d
      → Choice t q tags c d
  system_alone :
      tags_intersect tags known_os ≡ true
      → tags_intersect tags known_arch ≡ false
      → SystemChoice q (preferred_os_list t) c d
      → Choice t q tags c d
  machine_alone :
      tags_intersect tags known_os ≡ false
      → tags_intersect tags known_arch ≡ true
      → MachineChoice q (preferred_arch_list t) c d
      → Choice t q tags c d
