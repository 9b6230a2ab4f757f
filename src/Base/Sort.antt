-- ===== src/Base/Sort.antt =====
-- `<` on strings, and `sort.Strings`.
use mathlib.Core.Path.{◌≡◌, refl}
use mathlib.Core.Logic.{◌≢◌, inl, inr}
use mathlib.Core.Bool.{Bool, true, false, ◌||◌, ◌&&◌}
use mathlib.Core.List.{List, [], ◌∷◌}
use native.Mathlib.Omega.{arith}
use buildutil.Base.Tests.{if◌then◌else◌, ltb, ◌==◌, Bool-cases}
use buildutil.Base.Text.{Bytes, same}
use buildutil.Base.KeySet.{has}

-- `<` on strings.
unfoldable pub precedes : Bytes → Bytes → Bool
precedes s [] = false
precedes [] (d ∷ t) = true
precedes (c ∷ s) (d ∷ t) = ltb c d || (c == d && precedes s t)

-- `sort.Strings`, as a sort by insertion.
unfoldable pub insert : Bytes → List Bytes → List Bytes
insert s [] = s ∷ []
insert s (t ∷ ts) = let rest = insert s ts in if precedes t s then t ∷ rest else s ∷ t ∷ ts

unfoldable pub sort_strings : List Bytes → List Bytes
sort_strings [] = []
sort_strings (s ∷ ss) = insert s (sort_strings ss)

pub precedes-total : (a b : Bytes) → precedes a b ≡ false → a ≢ b → precedes b a ≡ true
unfolding precedes
precedes-total [] [] h n = absurd (n refl)
precedes-total (x ∷ a) [] h n = refl
precedes-total [] (y ∷ b) h n = cc
precedes-total (x ∷ a) (y ∷ b) h n = ground (arith, precedes-total a b)

precedes-asym : (a b : Bytes) → precedes a b ≡ true → precedes b a ≡ false
unfolding precedes
precedes-asym a [] h = cc
precedes-asym [] (y ∷ b) h = refl
precedes-asym (x ∷ a) (y ∷ b) h = ground (arith, precedes-asym a b)

-- No string of the list comes before the one in front of it; `k` stands before the list.
abbrev pub Sorted : Bytes → List Bytes → Type 0
Sorted k [] = Unit
Sorted k (t ∷ ts) = (precedes t k ≡ false) × Sorted t ts

insert-Sorted :
    (k s : Bytes) (ts : List Bytes) → precedes s k ≡ false → Sorted k ts → Sorted k (insert s ts)
unfolding insert
insert-Sorted k s [] h w = (h, tt)
insert-Sorted k s (t ∷ ts) h w = elim (Bool-cases (precedes t s)) [
  | inl less ↦ rw less (w.0, insert-Sorted t s ts (precedes-asym t s less) w.1)
  | inr more ↦ rw more (h, (more, w.1))
]

precedes-nil : (s : Bytes) → precedes s [] ≡ false
unfolding precedes
precedes-nil [] = refl
precedes-nil (c ∷ s) = refl

pub sort_strings-Sorted : (ss : List Bytes) → Sorted [] (sort_strings ss)
unfolding sort_strings
sort_strings-Sorted [] = tt
sort_strings-Sorted (s ∷ ss) =
    insert-Sorted [] s (sort_strings ss) (precedes-nil s) (sort_strings-Sorted ss)

has-insert :
    (s : Bytes) (ts : List Bytes) (x : Bytes) → has (insert s ts) x ≡ (same s x || has ts x)
unfolding has insert
has-insert s [] x = refl
has-insert s (t ∷ ts) x = ground (arith, has-insert s ts x)

pub has-sort_strings : (ss : List Bytes) (x : Bytes) → has (sort_strings ss) x ≡ has ss x
unfolding has sort_strings
has-sort_strings [] x = refl
has-sort_strings (s ∷ ss) x =
    ground (arith, has-insert s (sort_strings ss) x, has-sort_strings ss x)
