-- ===== src/Base/KeySet.antt =====
-- The key set of a Go `map[string]bool` whose values are all `true`. The order of the list is no part
-- of the map: it is the order in which a `range` over the map happens to run.
use mathlib.Core.Path.{◌≡◌, refl}
use mathlib.Core.Bool.{Bool, false, ◌||◌, ◌&&◌, not}
use mathlib.Core.List.{List, [], ◌∷◌, ◌++◌}
use native.Mathlib.Omega.{arith}
use buildutil.Base.Tests.{if◌then◌else◌}
use buildutil.Base.Text.{Bytes, same, same_iff}

abbrev pub Keys : Type 0
Keys = List Bytes

-- `m[k]`
unfoldable pub has : Keys → Bytes → Bool
has [] k = false
has (j ∷ m) k = same j k || has m k

-- `m[k] = true`
unfoldable pub put : Bytes → Keys → Keys
put k m = if has m k then m else m ++ (k ∷ [])

-- `delete(m, k)`
unfoldable pub delete : Bytes → Keys → Keys
delete k [] = []
delete k (j ∷ m) = let rest = delete k m in if same j k then rest else j ∷ rest

pub has-append : (m n : Keys) (k : Bytes) → has (m ++ n) k ≡ (has m k || has n k)
unfolding has
has-append [] n k = refl
has-append (j ∷ m) n k = ground (arith, has-append m n k)

pub has-put : (j : Bytes) (m : Keys) (k : Bytes) → has (put j m) k ≡ (same j k || has m k)
unfolding put has
has-put j m k = ground (arith, has-append m (j ∷ []) k, same_iff j k)

pub has-delete :
    (j : Bytes) (m : Keys) (k : Bytes) → has (delete j m) k ≡ (has m k && not (same j k))
unfolding has delete
has-delete j [] k = refl
has-delete j (i ∷ m) k = ground (arith, has-delete j m k, same_iff i j, same_iff j k, same_iff i k)
