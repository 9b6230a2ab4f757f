-- ===== src/FilePath.antt =====
-- What the source uses of Go's package path/filepath, on a system whose separator is `/`: `Clean`,
-- `Dir`, `Base`, `Join` and `Ext`.
pub mod Shorter
use buildutil.Base.{
  ℕ, Bool, true, false, not, ◌||◌, ◌&&◌, List, [], ◌∷◌, reverse, if◌then◌else◌, codes, Bytes, same,
  ◌==◌, split, join, is_empty,
}
use buildutil.Paths.{split_path}

abbrev pub is_rooted : Bytes → Bool
is_rooted [] = false
is_rooted (c ∷ s) = c == b'/'

-- An element `..`, on the elements before it, the last one first.
unfoldable pub pop : Bool → List Bytes → List Bytes
pop rooted [] = if rooted then [] else codes ".." ∷ []
pop rooted (p ∷ st) = if same p (codes "..") then codes ".." ∷ p ∷ st else st

-- One element of a path.
unfoldable pub push : Bool → Bytes → List Bytes → List Bytes
push rooted p st =
    if is_empty p || same p (codes ".")
    then st
    else if same p (codes "..")
    then pop rooted st
    else p ∷ st

unfoldable pub push_all : Bool → List Bytes → List Bytes → List Bytes
push_all rooted [] st = st
push_all rooted (p ∷ ps) st = push_all rooted ps (push rooted p st)

-- The text of the elements, the last one first.
unfoldable pub path_text : Bool → List Bytes → Bytes
path_text rooted st =
    let s = join b'/' (reverse st) in
    if rooted then b'/' ∷ s else if is_empty s then codes "." else s

-- `filepath.Clean`
unfoldable pub clean : Bytes → Bytes
clean path = path_text (is_rooted path) (push_all (is_rooted path) (split b'/' path) [])

-- `filepath.Dir`
unfoldable pub dir_of : Bytes → Bytes
dir_of path = clean (split_path path).0

-- Without the separators at its end.
unfoldable pub trim_slashes : Bytes → Bytes
trim_slashes [] = []
trim_slashes (c ∷ s) =
    let rest = trim_slashes s in if is_empty rest && c == b'/' then [] else c ∷ rest

-- `filepath.Base`
unfoldable pub base_of : Bytes → Bytes
base_of path =
    let name = (split_path (trim_slashes path)).1 in
    if is_empty path then codes "." else if is_empty name then codes "/" else name

-- `filepath.Join`
unfoldable pub join_path : List Bytes → Bytes
join_path [] = []
join_path (e ∷ es) =
    let rest = join_path es in if is_empty e then rest else clean (join b'/' (e ∷ es))

abbrev contains_byte : ℕ → Bytes → Bool
contains_byte b [] = false
contains_byte b (c ∷ s) = c == b || contains_byte b s

-- `filepath.Ext`
unfoldable pub ext_of : Bytes → Bytes
ext_of [] = []
ext_of (c ∷ s) =
    let rest = ext_of s in
    if not (is_empty rest)
    then rest
    else if c == b'.' && not (contains_byte b'/' s)
    then c ∷ s
    else []
