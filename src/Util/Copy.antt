-- ===== src/Util/Copy.antt =====
-- `CopyContext` of internal/util/util.go: the three tag lists are copied into one new array and cut out
-- of it again. A nil slice and an empty one are the same list here.
use buildutil.Base.{
  ℕ, zero, suc, ◌+◌, not, List, [], ◌∷◌, ◌++◌, if◌then◌else◌, arith, ◌≡◌, refl, Bytes, ◌==◌, length,
  take, drop, take-length,
}
use buildutil.Context.{Context}

-- `make([]string, n)`
unfoldable pub make : ℕ → List Bytes
make zero = []
make (suc n) = [] ∷ make n

-- `copy(a, src)`, for an array that is long enough.
copy_to : List Bytes → List Bytes → List Bytes
copy_to a src = src ++ drop (length src) a

-- One of the three blocks of `CopyContext`: the slice that the field gets, and what is left of the array.
unfoldable pub copy_tags : List Bytes → List Bytes → List Bytes × List Bytes
unfolding copy_to
copy_tags a src =
    let n = length src in
    let b = copy_to a src in if not (n == 0) then (take n b, drop n b) else ([], a)

-- `CopyContext`
unfoldable pub copy_context : Context → Context
copy_context orig =
    let n = length orig.build_tags + length orig.tool_tags + length orig.release_tags in
    let (build, a) = copy_tags (make n) orig.build_tags in
    let (tool, b) = copy_tags a orig.tool_tags in
    let (release, c) = copy_tags b orig.release_tags in
    record orig { build_tags = build; tool_tags = tool; release_tags = release }

copy_tags_lem : (a src : List Bytes) → (copy_tags a src).0 ≡ src
unfolding copy_tags
copy_tags_lem a [] = refl
copy_tags_lem a (s ∷ src) = ground (arith, take-length src (drop (length (s ∷ src)) a))

-- The copy has the tags of the original, and all else that it has.
pub copy_context-eq : (c : Context) → copy_context c ≡ c
unfolding copy_context
copy_context-eq c = simp copy_tags_lem
