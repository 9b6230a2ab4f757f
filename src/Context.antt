-- ===== src/Context.antt =====
-- The part of `build.Context` (go/build) that decides whether a file matches, and the facts of the
-- running toolchain that the source reads from `runtime`.
use buildutil.Base.{Bool, List, Bytes}

pub record Context : Type 0 where
  pub goarch : Bytes
  pub goos : Bytes
  pub goroot : Bytes
  pub gopath : Bytes
  pub cgo_enabled : Bool
  pub compiler : Bytes
  pub build_tags : List Bytes
  pub tool_tags : List Bytes
  pub release_tags : List Bytes

-- `runtime.GOOS`, `runtime.GOARCH`, `runtime.GOROOT()` and `runtime.Compiler`; `match_unix` is the
-- constant `matchUnixAndBoringCrypto` of buildutil_go118.go and buildutil_go119.go, and
-- `default_release_tags` is `build.Default.ReleaseTags`.
pub record Toolchain : Type 0 where
  pub goos : Bytes
  pub goarch : Bytes
  pub goroot : Bytes
  pub compiler : Bytes
  pub match_unix : Bool
  pub default_release_tags : List Bytes
