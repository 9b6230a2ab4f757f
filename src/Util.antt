-- ===== src/Util.antt =====
-- internal/util/util.go: string slices used as sets (here), the environment of a command
-- (Util/Environ), and the copy of a build context (Util/Copy).
pub mod Laws
pub mod Same
pub mod Environ
pub mod Copy
use buildutil.Base.{
  ℕ, ◌≤◌, suc, Bool, true, false, not, ◌&&◌, ◌||◌, List, [], ◌∷◌, ◌++◌, if◌then◌else◌, leb, ltb,
  ◌==◌, ◌-◌, ◌+◌, Bytes, same, length, drop,
}

-- `StringsContains`
unfoldable pub strings_contains : List Bytes → Bytes → Bool
strings_contains [] val = false
strings_contains (s ∷ a) val = if same s val then true else strings_contains a val

-- `StringsAppend`
unfoldable pub strings_append : List Bytes → Bytes → List Bytes
unfolding strings_contains
strings_append a val = if not (strings_contains a val) then a ++ (val ∷ []) else a

-- The loop of `StringsRemoveAll`, on the elements not yet read.
pub kept : List Bytes → Bytes → List Bytes
kept [] val = []
kept (s ∷ a) val = let rest = kept a val in if not (same s val) then s ∷ rest else rest

-- What `StringsRemoveAll` leaves: the slice that it returns, and the contents of the slice that it was
-- given. The result is written into the front of that slice's array (`v := a[:0]`).
pub record Removed : Type 0 where
  pub result : List Bytes
  pub argument : List Bytes

-- `StringsRemoveAll`
unfoldable pub strings_remove_all : List Bytes → Bytes → Removed
unfolding kept
strings_remove_all a val =
    let v = kept a val in record { result = v; argument = v ++ drop (length v) a }

-- `TagsIntersect`
unfoldable pub tags_intersect : List Bytes → List Bytes → Bool
unfolding strings_contains
tags_intersect [] m2 = false
tags_intersect (k ∷ m1) m2 = if strings_contains m2 k then true else tags_intersect m1 m2

-- The search of `StringsSame` for slices of at most 64 strings.
pub each_in : List Bytes → List Bytes → Bool
unfolding strings_contains
each_in [] a2 = true
each_in (s1 ∷ a1) a2 = if strings_contains a2 s1 then each_in a1 a2 else false

-- `map[string]int`, with 0 for a key that is not there.
abbrev pub Counts : Type 0
Counts = Bytes → ℕ

abbrev pub assign : Bytes → ℕ → Counts → Counts
assign s n want k = if same s k then n else want k

-- `for _, s := range a1 { want[s]++ }`
pub counted : List Bytes → Counts → Counts
counted [] want = want
counted (s ∷ a1) want = counted a1 (assign s (want s + 1) want)

-- The second loop: no value of the map goes below 0.
pub covered : List Bytes → Counts → Bool
covered [] want = true
covered (s ∷ a2) want =
    let rest = covered a2 (assign s (want s - 1) want) in if leb (want s) 0 then false else rest

-- `StringsSame`
unfoldable pub strings_same : List Bytes → List Bytes → Bool
unfolding each_in counted covered
strings_same a1 a2 =
    if not (length a1 == length a2)
    then false
    else if leb (length a1) 64
    then each_in a1 a2
    else covered a2 (counted a1 (λ k. 0))
