-- ===== src/Util/Same.antt =====
-- `StringsSame` of internal/util/util.go: what the two ways of comparing decide.
use buildutil.Base.{
  ℕ, ◌+◌, ◌-◌, ◌≤◌, ◌<◌, suc, true, false, List, [], ◌∷◌, if◌then◌else◌, arith, ◌≡◌, refl, ◌≢◌, ◌↔◌,
  Bytes, same, same_iff, same_refl, length,
}
use buildutil.Util.{strings_contains, Counts, assign, counted, covered, strings_same}

-- How often `s` stands in the slice.
abbrev pub count : Bytes → List Bytes → ℕ
count s [] = 0
count s (x ∷ xs) = (if same x s then 1 else 0) + count s xs

counted_lem : (a : List Bytes) (want : Counts) (s : Bytes) → counted a want s ≡ count s a + want s
unfolding counted
counted_lem [] want s = omega arith
counted_lem (x ∷ a) want s =
    ground (arith, counted_lem a (assign x (want x + 1) want) s, same_iff x s)

covered-count :
    (a : List Bytes) (want : Counts) (s : Bytes) → covered a want ≡ true → count s a ≤ want s
unfolding covered
covered-count [] want s h = omega arith
covered-count (x ∷ a) want s h =
    ground (arith, covered-count a (assign x (want x - 1) want) s, same_iff x s)

covered_intro :
    (a : List Bytes) (want : Counts) → ((s : Bytes) → count s a ≤ want s) → covered a want ≡ true
unfolding covered
covered_intro [] want h = refl
covered_intro (x ∷ a) want h = ground (
  arith,
  h x,
  same_refl x,
  covered_intro a (assign x (want x - 1) want)
      (λ s. ground (arith, h s, h x, same_iff x s, same_refl x)),
)

erase : Bytes → List Bytes → List Bytes
erase s [] = []
erase s (x ∷ xs) = let rest = erase s xs in if same x s then xs else x ∷ rest

count-erase :
    (s t : Bytes) (a : List Bytes)
    → 0 < count s a
    → (count t a ≡ (if same s t then 1 else 0) + count t (erase s a))
      × (length a ≡ suc (length (erase s a)))
unfolding erase
count-erase s t [] h = absurd (omega arith)
count-erase s t (x ∷ a) h =
    ground (arith, count-erase s t a, same_iff x s, same_iff x t, same_iff s t)

-- Slices of one length, of which one holds each string at least as often, hold each as often.
counts_equal :
    (a b : List Bytes)
    → length a ≡ length b
    → ((s : Bytes) → count s b ≤ count s a)
    → (s : Bytes) → count s a ≡ count s b
counts_equal [] [] e h s = refl
counts_equal (x ∷ a) [] e h s = absurd (omega arith)
counts_equal a (y ∷ b) e h s =
    let here : 0 < count y a = ground (arith, h y, same_refl y) in
    let (c, l) = count-erase y s a here in
    let rest : count s (erase y a) ≡ count s b =
      counts_equal (erase y a) b (omega arith) (λ t. ground (arith, h t, count-erase y t a here))
        s in
    omega (arith, c, rest)

-- For more than 64 strings `StringsSame` is true exactly if both slices hold every string as often.
pub strings_same-long :
    (a b : List Bytes)
    → 64 < length a
    → (strings_same a b ≡ true) ↔ ((length a ≡ length b) × ((s : Bytes) → count s a ≡ count s b))
unfolding strings_same
strings_same-long a b h = (to, from)
  where
    to : strings_same a b ≡ true → (length a ≡ length b) × ((s : Bytes) → count s a ≡ count s b)
    to e =
        let l : length a ≡ length b = ground arith in
        let c : covered b (counted a (λ k. 0)) ≡ true = ground arith in
        (
          l,
          counts_equal a b l (λ s. omega (arith, covered-count b _ s c, counted_lem a (λ k. 0) s)),
        )

    from : (length a ≡ length b) × ((s : Bytes) → count s a ≡ count s b) → strings_same a b ≡ true
    from (l, c) =
        let w =
          covered_intro b (counted a (λ k. 0))
            (λ s. omega (arith, c s, counted_lem a (λ k. 0) s)) in
        ground (arith, l, w)

-- For up to 64 strings repeated strings are not counted, and the answer depends on the order of the
-- arguments: `[a, a]` is found the same as `[a, b]`, and `[a, b]` is not found the same as `[a, a]`.
pub strings_same-repeated :
    (a b : Bytes)
    → a ≢ b
    → (strings_same (a ∷ (a ∷ [])) (a ∷ (b ∷ [])) ≡ true)
      × (strings_same (a ∷ (b ∷ [])) (a ∷ (a ∷ [])) ≡ false)
unfolding strings_same strings_contains
strings_same-repeated a b ne = ground (arith, same_refl a, same_iff a b, same_iff b a)
