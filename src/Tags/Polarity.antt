-- ===== src/Tags/Polarity.antt =====
-- `lookupTag` finds every tag, and tells how to set one that stands once.
use buildutil.Base.{
  ℕ, ◌+◌, Bool, true, false, not, if◌then◌else◌, Bytes, arith, ◌≡◌, ◌≢◌, ap, same, same_iff,
  Bool-cases, inl, inr,
}
use buildutil.Tags.{Expr, tag, neg, and, or, lookup_tag}
use buildutil.Tags.Eval.{value, mentions}

-- `lookupTag` finds a tag exactly if it stands in the expression.
pub found-mentions : (x : Expr) (t : Bytes) → (lookup_tag x t).found ≡ mentions x t
unfolding lookup_tag mentions
found-mentions (tag v) t = ground arith
found-mentions (neg x) t = ground (arith, found-mentions x t)
found-mentions (and x y) t = ground (arith, found-mentions x t, found-mentions y t)
found-mentions (or x y) t = ground (arith, found-mentions x t, found-mentions y t)

-- How often the tag stands in the expression.
unfoldable pub occurrences : Expr → Bytes → ℕ
occurrences (tag v) t = if same v t then 1 else 0
occurrences (neg x) t = occurrences x t
occurrences (and x y) t = occurrences x t + occurrences y t
occurrences (or x y) t = occurrences x t + occurrences y t

-- The values `v`, with that of `t` set to `b`.
abbrev pub set_tag : (Bytes → Bool) → Bytes → Bool → Bytes → Bool
set_tag v t b s = if same t s then b else v s

value-absent :
    (v : Bytes → Bool) (t : Bytes) (b b' : Bool) (x : Expr)
    → occurrences x t ≡ 0
    → value (set_tag v t b) x ≡ value (set_tag v t b') x
unfolding value occurrences
value-absent v t b b' (tag w) h = ground (arith, same_iff w t, same_iff t w)
value-absent v t b b' (neg x) h = ap not (value-absent v t b b' x h)
value-absent v t b b' (and x y) h = ground (arith, value-absent v t b b' x, value-absent v t b b' y)
value-absent v t b b' (or x y) h = ground (arith, value-absent v t b b' x, value-absent v t b b' y)

occurrences-found : (x : Expr) (t : Bytes) → (lookup_tag x t).found ≡ false → occurrences x t ≡ 0
unfolding occurrences lookup_tag
occurrences-found (tag v) t h = ground arith
occurrences-found (neg x) t h = ground (arith, occurrences-found x t)
occurrences-found (and x y) t h = ground (arith, occurrences-found x t, occurrences-found y t)
occurrences-found (or x y) t h = ground (arith, occurrences-found x t, occurrences-found y t)

found-occurrences : (x : Expr) (t : Bytes) → (lookup_tag x t).found ≡ true → occurrences x t ≢ 0
unfolding occurrences lookup_tag
found-occurrences (tag v) t h = ground arith
found-occurrences (neg x) t h = ground (arith, found-occurrences x t)
found-occurrences (and x y) t h = ground (arith, found-occurrences x t, found-occurrences y t)
found-occurrences (or x y) t h = ground (arith, found-occurrences x t, found-occurrences y t)

-- Of a tag that stands once, `negated` tells which value serves the expression: if the expression holds
-- with the tag set to `negated`, it holds with the tag set to `not negated`, whatever the other tags are.
pub lookup_tag-polarity :
    (v : Bytes → Bool) (t : Bytes) (x : Expr)
    → occurrences x t ≡ 1
    → value (set_tag v t (lookup_tag x t).negated) x ≡ true
    → value (set_tag v t (not (lookup_tag x t).negated)) x ≡ true
unfolding lookup_tag value occurrences
lookup_tag-polarity v t (tag w) one h = ground (arith, same_iff t w, same_iff w t)
lookup_tag-polarity v t (neg x) one h = elim (Bool-cases (lookup_tag x t).negated) [
  | inl r ↦ ground (arith, r, lookup_tag-polarity v t x one, occurrences-found x t)
  | inr r ↦ ground (arith, r, lookup_tag-polarity v t x one, occurrences-found x t)
]
lookup_tag-polarity v t (and x y) one h = elim (Bool-cases (lookup_tag x t).found) [
  | inl left ↦
      let r = (lookup_tag x t).negated in
      ground
        (arith, found-occurrences x t left, lookup_tag-polarity v t x, value-absent v t r (not r) y)
  | inr right ↦
      let r = (lookup_tag y t).negated in
      ground (
        arith,
        occurrences-found x t right,
        occurrences-found y t,
        lookup_tag-polarity v t y,
        value-absent v t r (not r) x,
      )
]
lookup_tag-polarity v t (or x y) one h = elim (Bool-cases (lookup_tag x t).found) [
  | inl left ↦
      let r = (lookup_tag x t).negated in
      ground
        (arith, found-occurrences x t left, lookup_tag-polarity v t x, value-absent v t r (not r) y)
  | inr right ↦
      let r = (lookup_tag y t).negated in
      ground (
        arith,
        occurrences-found x t right,
        occurrences-found y t,
        lookup_tag-polarity v t y,
        value-absent v t r (not r) x,
      )
]
