-- ===== src/Util/Laws.antt =====
-- The string slices of util.go as sets.
use buildutil.Base.{
  ◌≤◌, true, false, not, ◌&&◌, ◌||◌, List, [], ◌∷◌, ◌++◌, arith, ◌≡◌, refl, Bytes, same, same_iff,
  same_refl, length, has, has-append, Bool-cases, inl, inr,
}
use buildutil.Util.{strings_contains, strings_append, kept, strings_remove_all, tags_intersect}

pub strings_contains-has : (a : List Bytes) (v : Bytes) → strings_contains a v ≡ has a v
unfolding strings_contains has
strings_contains-has [] v = refl
strings_contains-has (s ∷ a) v = ground (arith, strings_contains-has a v)

-- After `StringsAppend(a, v)` the slice holds the strings that it held, and `v`.
pub strings_contains-strings_append :
    (a : List Bytes) (v w : Bytes)
    → strings_contains (strings_append a v) w ≡ (strings_contains a w || same v w)
unfolding strings_append has
strings_contains-strings_append a v w = ground (
  arith,
  strings_contains-has a w,
  strings_contains-has a v,
  strings_contains-has (a ++ (v ∷ [])) w,
  has-append a (v ∷ []) w,
  same_iff v w,
)

strings_contains-kept :
    (a : List Bytes) (v w : Bytes)
    → strings_contains (kept a v) w ≡ (strings_contains a w && not (same v w))
unfolding strings_contains kept
strings_contains-kept [] v w = refl
strings_contains-kept (s ∷ a) v w =
    ground (arith, strings_contains-kept a v w, same_iff s v, same_iff s w, same_iff v w)

-- After `StringsRemoveAll(a, v)` the result holds the strings that `a` held, except `v`.
pub strings_contains-strings_remove_all :
    (a : List Bytes) (v w : Bytes)
    → strings_contains (strings_remove_all a v).result w ≡ (strings_contains a w && not (same v w))
unfolding strings_remove_all
strings_contains-strings_remove_all a v w = strings_contains-kept a v w

pub kept_absent : (a : List Bytes) (v : Bytes) → strings_contains a v ≡ false → kept a v ≡ a
unfolding kept strings_contains
kept_absent [] v h = refl
kept_absent (s ∷ a) v h = ground (arith, kept_absent a v)

-- `StringsRemoveAll` undoes `StringsAppend` of a new string.
pub strings_remove_all-strings_append :
    (a : List Bytes) (v : Bytes)
    → strings_contains a v ≡ false
    → (strings_remove_all (strings_append a v) v).result ≡ a
unfolding strings_remove_all strings_append
strings_remove_all-strings_append a v h = rw h (go a h)
  where
    go : (a : List Bytes) → strings_contains a v ≡ false → kept (a ++ (v ∷ [])) v ≡ a
    go [] h = ground (arith, same_refl v)
    go (s ∷ a) h = ground (arith, go a)

length-kept : (a : List Bytes) (v : Bytes) → length (kept a v) ≤ length a
unfolding kept
length-kept [] v = omega arith
length-kept (s ∷ a) v = ground (arith, length-kept a v)

-- `TagsIntersect` is true exactly if some key is in both maps.
pub tags_intersect-true :
    (m1 m2 : List Bytes)
    → tags_intersect m1 m2 ≡ true
    → (k : Bytes) × (has m1 k ≡ true) × (has m2 k ≡ true)
unfolding tags_intersect has
tags_intersect-true [] m2 e = cc
tags_intersect-true (k ∷ m1) m2 e = elim (Bool-cases (strings_contains m2 k)) [
  | inl both ↦ (k, ground (arith, same_refl k), ground (arith, strings_contains-has m2 k))
  | inr missing ↦
      let (j, in1, in2) = tags_intersect-true m1 m2 (ground arith) in (j, ground arith, in2)
]

pub tags_intersect-false :
    (m1 m2 : List Bytes) (k : Bytes)
    → tags_intersect m1 m2 ≡ false
    → has m1 k ≡ true
    → has m2 k ≡ false
unfolding tags_intersect has
tags_intersect-false [] m2 k e h = cc
tags_intersect-false (j ∷ m1) m2 k e h =
    ground (arith, tags_intersect-false m1 m2 k, same_iff j k, strings_contains-has m2 j)
