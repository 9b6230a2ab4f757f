-- ===== src/Header/Space.antt =====
-- `bytes.TrimSpace` on UTF-8 text: the six ASCII spaces, U+0085, U+00A0 and the spaces of two and three
-- bytes that `unicode.IsSpace` accepts.
use buildutil.Base.{
  ℕ, zero, suc, ◌≤◌, ◌+◌, Bool, ◌&&◌, ◌||◌, [], ◌∷◌, if◌then◌else◌, leb, ◌==◌, Bytes, arith, ◌≡◌,
  length, reverse,
}
use mathlib.Core.List.{reverse_aux}

is_ascii_space : ℕ → Bool
is_ascii_space c = leb b'\t' c && leb c b'\r' || c == b' '

-- U+0085 and U+00A0
is_space2 : ℕ → ℕ → Bool
is_space2 a b = a == 0xC2 && (b == 0x85 || b == 0xA0)

-- U+1680, U+2000 to U+200A, U+2028, U+2029, U+202F, U+205F and U+3000
is_space3 : ℕ → ℕ → ℕ → Bool
is_space3 a b c =
    a == 0xE1 && b == 0x9A && c == 0x80
    || a == 0xE2 && b == 0x80 && (leb 0x80 c && leb c 0x8A || c == 0xA8 || c == 0xA9 || c == 0xAF)
    || a == 0xE2 && b == 0x81 && c == 0x9F
    || a == 0xE3 && b == 0x80 && c == 0x80

-- The number of bytes of the space that the text begins with.
space_len : Bytes → ℕ
unfolding is_ascii_space is_space2 is_space3
space_len [] = 0
space_len (a ∷ []) = if is_ascii_space a then 1 else 0
space_len (a ∷ (b ∷ [])) = if is_ascii_space a then 1 else if is_space2 a b then 2 else 0
space_len (a ∷ (b ∷ (c ∷ s))) =
    if is_ascii_space a then 1 else if is_space2 a b then 2 else if is_space3 a b c then 3 else 0

-- The same for a text that is held in reverse.
space_len_back : Bytes → ℕ
unfolding is_ascii_space is_space2 is_space3
space_len_back [] = 0
space_len_back (a ∷ []) = if is_ascii_space a then 1 else 0
space_len_back (a ∷ (b ∷ [])) = if is_ascii_space a then 1 else if is_space2 b a then 2 else 0
space_len_back (a ∷ (b ∷ (c ∷ s))) =
    if is_ascii_space a then 1 else if is_space2 b a then 2 else if is_space3 c b a then 3 else 0

-- Drops spaces from the front; the number counts the bytes left of a space that was found.
drop_spaces : (Bytes → ℕ) → ℕ → Bytes → Bytes
drop_spaces len k [] = []
drop_spaces len (suc k) (c ∷ s) = drop_spaces len k s
drop_spaces len zero (c ∷ s) = elim (len (c ∷ s)) [ zero ↦ c ∷ s | suc n ↦ drop_spaces len n s ]

-- `bytes.TrimSpace`
unfoldable pub trim_space : Bytes → Bytes
unfolding drop_spaces space_len space_len_back
trim_space s = reverse (drop_spaces space_len_back 0 (reverse (drop_spaces space_len 0 s)))

length-drop_spaces : (len : Bytes → ℕ) (k : ℕ) (s : Bytes) → length (drop_spaces len k s) ≤ length s
unfolding drop_spaces
length-drop_spaces len k [] = omega arith
length-drop_spaces len (suc k) (c ∷ s) = omega (arith, length-drop_spaces len k s)
length-drop_spaces len zero (c ∷ s) = go (len (c ∷ s)) (λ n. length-drop_spaces len n s)
  where
    go :
        (m : ℕ)
        → ((n : ℕ) → length (drop_spaces len n s) ≤ length s)
        → length (elim m as (λ k. Bytes) [ zero ↦ c ∷ s | suc n ↦ drop_spaces len n s ])
          ≤ length (c ∷ s)
    go zero ih = omega arith
    go (suc n) ih = omega (arith, ih n)

length-reverse_aux : (s acc : Bytes) → length (reverse_aux s acc) ≡ length s + length acc
length-reverse_aux [] acc = omega arith
length-reverse_aux (c ∷ s) acc = omega (arith, length-reverse_aux s (c ∷ acc))

-- Trimming never makes a text longer.
pub length-trim_space : (s : Bytes) → length (trim_space s) ≤ length s
unfolding trim_space
length-trim_space s =
    let front = drop_spaces space_len 0 s in
    let back = drop_spaces space_len_back 0 (reverse front) in
    omega (
      arith,
      length-reverse_aux back [],
      length-drop_spaces space_len_back 0 (reverse front),
      length-reverse_aux front [],
      length-drop_spaces space_len 0 s,
    )
