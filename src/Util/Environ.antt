-- ===== src/Util/Environ.antt =====
-- `Environ` of internal/util/util.go: a list of `key=value` texts, as `os.Environ` returns it.
pub mod Laws
use buildutil.Base.{
  ℕ, zero, suc, Bool, true, false, not, ◌&&◌, ◌||◌, List, [], ◌∷◌, ◌++◌, Option, none, some,
  if◌then◌else◌, ltb, ◌==◌, Bytes, same, cut, codes, length, take, drop,
}

-- The environment (the field `env`).
abbrev pub Environ : Type 0
Environ = List Bytes

abbrev first_is : ℕ → Bytes → Bool
first_is ch [] = false
first_is ch (c ∷ s) = c == ch

-- The two tests of the loop in `Index`, for the entry `s`: `ch` is `key[0]`.
pub is_entry : ℕ → Bytes → Bytes → Bool
is_entry ch key s =
    if not (first_is ch s)
    then false
    else ltb (length key) (length s)
      && (same (take (length key) s) key && first_is b'=' (drop (length key) s))

find_entry : ℕ → Bytes → Environ → Option ℕ
unfolding is_entry
find_entry ch key [] = none
find_entry ch key (s ∷ env) =
    let later = find_entry ch key env in
    if is_entry ch key s then some 0 else elim later [ none ↦ none | some i ↦ some (suc i) ]

-- `Index`: `none` where the source returns -1.
pub index : Environ → Bytes → Option ℕ
unfolding find_entry
index env [] = none
index env (ch ∷ key) = find_entry ch (ch ∷ key) env

abbrev entry : Environ → ℕ → Bytes
entry [] i = []
entry (s ∷ env) zero = s
entry (s ∷ env) (suc i) = entry env i

abbrev replace : Environ → ℕ → Bytes → Environ
replace [] i v = []
replace (s ∷ env) zero v = v ∷ env
replace (s ∷ env) (suc i) v = s ∷ replace env i v

-- The text behind the first `=`, or the whole text where there is none.
after_equals : Bytes → Bytes
after_equals s = elim (cut (b'=' ∷ []) s) [ none ↦ s | some (before, value) ↦ value ]

-- `Lookup`: `none` where the source returns `found = false`.
unfoldable pub lookup : Environ → Bytes → Option Bytes
unfolding index after_equals
lookup env key = elim (index env key) [ none ↦ none | some i ↦ some (after_equals (entry env i)) ]

-- `Set`
unfoldable pub set : Environ → Bytes → Bytes → Environ
unfolding index
set env key value = elim (index env key) [
  | none ↦ env ++ ((key ++ (b'=' ∷ value)) ∷ [])
  | some i ↦ replace env i (key ++ (b'=' ∷ value))
]
