-- ===== src/ContextUtil/Scoped/Unique.antt =====
-- `sortUniqueStrings` of contextutil/contextutil.go, and what its result holds.
use buildutil.Base.{
  precedes, sort_strings, precedes-total, Sorted, sort_strings-Sorted, has-sort_strings, ◌∙◌, true,
  ◌||◌, not, List, [], ◌∷◌, if◌then◌else◌, Bytes, has, leb, same, same_iff, length, ◌≡◌, ◌≢◌, refl,
  inl, inr, arith, Bool-cases,
}

-- The loop of `sortUniqueStrings`; `k` is the string that was added last.
unfoldable pub unique_loop : Bytes → List Bytes → List Bytes
unique_loop k [] = []
unique_loop k (v ∷ vs) =
    let rest = unique_loop (if not (same v k) then v else k) vs in
    if not (same v k) then v ∷ rest else rest

unfoldable pub unique_front : List Bytes → List Bytes
unique_front [] = []
unique_front (k ∷ vs) = k ∷ unique_loop k vs

-- `sortUniqueStrings`
unfoldable pub sort_unique_strings : List Bytes → List Bytes
sort_unique_strings list = if leb (length list) 1 then list else unique_front (sort_strings list)

-- Every string of the list comes behind the one in front of it.
abbrev AscendingFrom : Bytes → List Bytes → Type 0
AscendingFrom k [] = Unit
AscendingFrom k (t ∷ ts) = (precedes k t ≡ true) × AscendingFrom t ts

abbrev pub Ascending : List Bytes → Type 0
Ascending [] = Unit
Ascending (k ∷ ts) = AscendingFrom k ts

unique_loop-AscendingFrom :
    (k : Bytes) (vs : List Bytes) → Sorted k vs → AscendingFrom k (unique_loop k vs)
unfolding unique_loop
unique_loop-AscendingFrom k [] w = tt
unique_loop-AscendingFrom k (v ∷ vs) w = elim (Bool-cases (same v k)) [
  | inl again ↦
      let equal : v ≡ k = (same_iff v k).0 again in
      let rest : Sorted k vs = rw (← equal) w.1 in rw again (unique_loop-AscendingFrom k vs rest)
  | inr other ↦
      let differs : v ≢ k = λ q. ground (arith, other, (same_iff v k).1 q) in
      rw other (precedes-total v k w.0 differs, unique_loop-AscendingFrom v vs w.1)
]

has-unique_loop :
    (k : Bytes) (vs : List Bytes) (x : Bytes)
    → (same k x || has (unique_loop k vs) x) ≡ (same k x || has vs x)
unfolding has unique_loop
has-unique_loop k [] x = refl
has-unique_loop k (v ∷ vs) x =
    ground (arith, has-unique_loop k vs x, has-unique_loop v vs x, same_iff v k)

short-Ascending : (list : List Bytes) → leb (length list) 1 ≡ true → Ascending list
short-Ascending [] h = tt
short-Ascending (k ∷ []) h = tt
short-Ascending (k ∷ (v ∷ vs)) h = absurd (ground (arith, h))

unique_front-Ascending : (ss : List Bytes) → Sorted [] ss → Ascending (unique_front ss)
unfolding unique_front
unique_front-Ascending [] w = tt
unique_front-Ascending (k ∷ vs) w = unique_loop-AscendingFrom k vs w.1

has-unique_front : (ss : List Bytes) (x : Bytes) → has (unique_front ss) x ≡ has ss x
unfolding has unique_front
has-unique_front [] x = refl
has-unique_front (k ∷ vs) x = has-unique_loop k vs x

-- What `sortUniqueStrings` returns holds the strings of the list, in ascending order and none of them
-- twice.
pub sort_unique_strings-Ascending :
    (list : List Bytes)
    → Ascending (sort_unique_strings list)
      × ((x : Bytes) → has (sort_unique_strings list) x ≡ has list x)
unfolding sort_unique_strings
sort_unique_strings-Ascending list = elim (Bool-cases (leb (length list) 1)) [
  | inl short ↦ rw short (short-Ascending list short, λ x. refl)
  | inr long ↦ rw long (
    unique_front-Ascending (sort_strings list) (sort_strings-Sorted list),
    λ x. has-unique_front (sort_strings list) x ∙ has-sort_strings list x,
  )
]
