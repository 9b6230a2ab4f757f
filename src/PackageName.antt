-- ===== src/PackageName.antt =====
-- `readPackageName` of read.go: the name in the package clause of what has been read of a file.
pub mod Clause
pub mod Find
use buildutil.Base.{
  ℕ, zero, suc, Bool, true, false, not, ◌&&◌, ◌||◌, List, [], ◌∷◌, Option, none, some,
  if◌then◌else◌, ltb, ◌==◌, codes, Bytes, cut, has_prefix, length, drop, is_empty, Result, ok, err,
  ◌>>=◌, syntax, out_of_fuel,
}
use buildutil.Reader.{is_ident}

-- `isSpace`
unfoldable pub is_gap : ℕ → Bool
is_gap c = c == b' ' || c == b'\t' || c == b'\n' || c == b'\r'

-- The loops that trim such bytes off the left.
unfoldable pub trim_gap : Bytes → Bytes
trim_gap [] = []
trim_gap (c ∷ b) = let rest = trim_gap b in if is_gap c then rest else c ∷ b

-- `len("package _")`
abbrev pub min_len : ℕ
min_len = 9

-- The bytes that the loop skips.
unfoldable pub is_skipped : ℕ → Bool
is_skipped c = c == b' ' || c == b'\t' || c == b'\n' || c == b'\r' || c == 12 || c == b';'

-- What is left behind a comment that ends in `sep`; nothing left is an error.
abbrev pub behind : Option (Bytes × Bytes) → Result Bytes
behind none = err syntax
behind (some (before, [])) = err syntax
behind (some (before, c ∷ after)) = ok (c ∷ after)

-- A comment behind its first `/`. A block comment is searched for `*/` from its `*` on.
unfoldable pub skip_comment : Bytes → Result Bytes
skip_comment [] = err syntax
skip_comment (c ∷ b) =
    if c == b'/'
    then behind (cut (codes "\n") (c ∷ b))
    else if c == b'*'
    then behind (cut (codes "*/") (c ∷ b))
    else err syntax

-- The loop `Loop`, on fuel: what it leaves in `b`.
unfoldable pub find_clause : ℕ → Bytes → Result Bytes
find_clause zero b = err out_of_fuel
find_clause (suc f) [] = ok []
find_clause (suc f) (c ∷ b) =
    let skipped = find_clause f b in
    let commented = skip_comment b >>= find_clause f in
    if ltb (length (c ∷ b)) min_len
    then ok (c ∷ b)
    else if is_skipped c
    then skipped
    else if c == b'/'
    then commented
    else ok (c ∷ b)

-- The longest front of identifier bytes.
unfoldable pub ident_front : Bytes → Bytes
ident_front [] = []
ident_front (c ∷ b) = let rest = ident_front b in if is_ident c then c ∷ rest else []

abbrev pub starts_with_gap : Bytes → Bool
starts_with_gap [] = false
starts_with_gap (c ∷ b) = is_gap c

-- Behind the loop.
unfoldable pub clause_name : Bytes → Result Bytes
clause_name b =
    let name = ident_front (trim_gap (drop 7 b)) in
    if not (ltb (length b) min_len) && has_prefix b (codes "package")
    then if not (starts_with_gap (drop 7 b))
      then err syntax
      else if is_empty name
      then err syntax
      else ok name
    else err syntax

-- `readPackageName`
unfoldable pub read_package_name : Bytes → Result Bytes
read_package_name b = let s = trim_gap b in find_clause (suc (length s)) s >>= clause_name
