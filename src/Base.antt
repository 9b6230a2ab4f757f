-- ===== src/Base.antt =====
-- The names that the other modules share: library names passed on, tests on bytes, texts as lists of
-- bytes (Base/Text), the key sets that stand for Go's `map[string]bool` (Base/KeySet), sorting, and results.
mod Tests
mod Text
mod KeySet
mod Sort
mod Results
pub use Tests.*
unfoldable pub use Text.*
unfoldable pub use KeySet.*
unfoldable pub use Sort.*
pub use Results.*
pub use Prim.Native.Nat.{ℕ, zero, suc, ◌+◌, ◌-◌, ◌*◌, ◌≤◌, ◌<◌}
pub use Prim.Native.String.{String}
pub use mathlib.Core.Path.{◌≡◌, refl, sym, ap, ◌∙◌}
pub use mathlib.Core.Logic.{◌≢◌, ◌↔◌, ◌⊎◌, inl, inr}
pub use mathlib.Core.Bool.{Bool, true, false, not, ◌&&◌, ◌||◌}
pub use mathlib.Core.Option.{Option, none, some}
pub use mathlib.Core.List.{List, [], ◌∷◌, ◌++◌, map, reverse, append-nil, append_assoc}
pub use native.Mathlib.Omega.{arith}
