-- ===== src/Syslist/Laws.antt =====
-- The exported lists of syslist.go against its maps.
use buildutil.Base.{
  Bool, true, false, not, ◌&&◌, ◌||◌, List, [], ◌∷◌, arith, ◌≡◌, refl, ltb, ◌==◌, Bytes, same,
  same_iff, has, Keys, Bool_ext,
}
use buildutil.Syslist.{known_os, unix_os, known_arch, known_os_list, known_arch_list}

-- Every key of the first set is one of the second.
unfoldable pub within : Keys → Keys → Bool
unfolding has same
within [] n = true
within (k ∷ m) n = has n k && within m n

pub within-has : (m n : Keys) (k : Bytes) → within m n ≡ true → has m k ≡ true → has n k ≡ true
unfolding within has
within-has [] n k w h = cc
within-has (j ∷ m) n k w h = ground (arith, within-has m n k, same_iff j k)

pub has_ext : (m n : Keys) (k : Bytes) → within m n ≡ true → within n m ≡ true → has m k ≡ has n k
has_ext m n k v w = Bool_ext (has m k) (has n k) (within-has m n k v) (within-has n m k w)

-- `a < b` on strings: by bytes.
less : Bytes → Bytes → Bool
less a [] = false
less [] (y ∷ b) = true
less (x ∷ a) (y ∷ b) = ltb x y || (x == y && less a b)

pub sorted : List Bytes → Bool
unfolding less
sorted [] = true
sorted (a ∷ []) = true
sorted (a ∷ (b ∷ l)) = less a b && sorted (b ∷ l)

-- `KnownOSList` holds exactly the keys of `knownOS`, `KnownArchList` those of `knownArch`, both lists
-- are sorted with no string twice, and every system that the tag `unix` stands for is known.
pub known_lists :
    (s : Bytes)
    → (has known_os_list s ≡ has known_os s)
      × (has known_arch_list s ≡ has known_arch s)
      × (has unix_os s ≡ true → has known_os s ≡ true)
      × (sorted known_os_list ≡ true)
      × (sorted known_arch_list ≡ true)
unfolding known_os unix_os known_arch known_os_list known_arch_list sorted within
known_lists s = (
  has_ext known_os_list known_os s refl refl,
  has_ext known_arch_list known_arch s refl refl,
  within-has unix_os known_os s refl,
  refl,
  refl,
)

disjoint : Keys → Keys → Bool
unfolding has same
disjoint [] n = true
disjoint (k ∷ m) n = not (has n k) && disjoint m n

disjoint-has : (m n : Keys) (k : Bytes) → disjoint m n ≡ true → has m k ≡ true → has n k ≡ false
unfolding disjoint has
disjoint-has [] n k d h = cc
disjoint-has (j ∷ m) n k d h = ground (arith, disjoint-has m n k, same_iff j k)

-- No text is both a known operating system and a known architecture.
pub known_disjoint : (s : Bytes) → has known_os s ≡ true → has known_arch s ≡ false
unfolding known_os known_arch disjoint
known_disjoint s h = disjoint-has known_os known_arch s refl h
