-- ===== src/Util/Environ/Laws.antt =====
-- `Environ` as a map: what `Lookup` finds after `Set`. A key has no `=` and is not empty.
use buildutil.Base.{
  ℕ, Bool, true, false, ◌&&◌, [], ◌∷◌, ◌++◌, Option, none, some, arith, ◌≡◌, ◌≢◌, refl, ◌∙◌,
  if◌then◌else◌, ltb, Bytes, same, same_iff, cut, strip, length, take, drop, Lacks, inl, inr,
  Option-cases,
}
use buildutil.Util.Environ.{
  Environ, first_is, is_entry, find_entry, index, after_equals, lookup, set,
}

-- A key that `Set` and `Lookup` can find again.
pub record IsKey (key : Bytes) : Type 0 where
  pub key_ne_nil : key ≢ []
  pub no_equals : Lacks b'=' key

abbrev is_some : Option Bytes → Bool
is_some none = false
is_some (some v) = true

-- The value of the entry `s`, if it is one for `key`.
abbrev value_of : Bytes → Bytes → Option Bytes
value_of key s = strip (key ++ (b'=' ∷ [])) s

is_entry_tests :
    (key s : Bytes)
    → (ltb (length key) (length s)
        && (same (take (length key) s) key && first_is b'=' (drop (length key) s)))
      ≡ is_some (value_of key s)
unfolding strip same
is_entry_tests [] [] = refl
is_entry_tests [] (c ∷ s) = ground arith
is_entry_tests (x ∷ key) [] = ground arith
is_entry_tests (x ∷ key) (c ∷ s) = ground (arith, is_entry_tests key s)

is_entry-value_of :
    (x : ℕ) (key s : Bytes) → is_entry x (x ∷ key) s ≡ is_some (value_of (x ∷ key) s)
unfolding is_entry
is_entry-value_of x key [] = unfold strip in refl
is_entry-value_of x key (c ∷ s) =
    unfold strip same in ground (arith, is_entry_tests (x ∷ key) (c ∷ s))

-- The value of the first entry for `key`.
abbrev first_value : Bytes → Environ → Option Bytes
first_value key [] = none
first_value key (s ∷ env) =
    let later = first_value key env in elim (value_of key s) [ none ↦ later | some v ↦ some v ]

cut_at_key : (key v : Bytes) → Lacks b'=' key → cut (b'=' ∷ []) (key ++ (b'=' ∷ v)) ≡ some (key, v)
unfolding cut strip
cut_at_key [] v h = refl
cut_at_key (c ∷ key) v h = ground (arith, cut_at_key key v)

value_of-eq-some : (key s v : Bytes) → value_of key s ≡ some v → s ≡ key ++ (b'=' ∷ v)
unfolding strip
value_of-eq-some [] [] v e = ground arith
value_of-eq-some [] (c ∷ s) v e = ground arith
value_of-eq-some (x ∷ key) [] v e = ground arith
value_of-eq-some (x ∷ key) (c ∷ s) v e = ground (arith, value_of-eq-some key s v)

value_of_self : (key v : Bytes) → value_of key (key ++ (b'=' ∷ v)) ≡ some v
unfolding strip
value_of_self [] v = refl
value_of_self (x ∷ key) v = ground (arith, value_of_self key v)

value_of_other :
    (j key v : Bytes)
    → Lacks b'=' j
    → Lacks b'=' key
    → same key j ≡ false
    → value_of j (key ++ (b'=' ∷ v)) ≡ none
unfolding strip same
value_of_other [] [] v hj hk ne = cc
value_of_other [] (x ∷ key) v hj hk ne = ground arith
value_of_other (y ∷ j) [] v hj hk ne = ground arith
value_of_other (y ∷ j) (x ∷ key) v hj hk ne = ground (arith, value_of_other j key v)

after_equals-value_of :
    (key s v : Bytes) → Lacks b'=' key → value_of key s ≡ some v → after_equals s ≡ v
unfolding after_equals
after_equals-value_of key s v h e =
    rw (value_of-eq-some key s v e) (ground (arith, cut_at_key key v h))

module _ (x : ℕ) (key : Bytes) (h : Lacks b'=' (x ∷ key)) where
  lookup-first_value_cons : (env : Environ) → lookup env (x ∷ key) ≡ first_value (x ∷ key) env
  unfolding lookup
  lookup-first_value_cons [] = unfold index find_entry in refl
  lookup-first_value_cons (s ∷ env) = elim (Option-cases (value_of (x ∷ key) s)) [
    | inl other ↦
        unfold index find_entry in
        ground (arith, is_entry-value_of x key s, lookup-first_value_cons env)
    | inr (v, mine) ↦
        unfold index find_entry in
        ground (arith, is_entry-value_of x key s, after_equals-value_of (x ∷ key) s v h mine)
  ]

  first_value-set :
      (j v : Bytes) (env : Environ)
      → Lacks b'=' j
      → first_value j (set env (x ∷ key) v)
        ≡ (if same (x ∷ key) j then some v else first_value j env)
  unfolding set
  first_value-set j v [] hj =
      unfold index find_entry in
      ground (arith, same_iff (x ∷ key) j, value_of_self j v, value_of_other j (x ∷ key) v hj h)
  first_value-set j v (s ∷ env) hj =
      unfold index find_entry in
      ground (
        arith,
        same_iff (x ∷ key) j,
        value_of_self j v,
        value_of_other j (x ∷ key) v hj h,
        is_entry-value_of x key s,
        first_value-set j v env hj,
        value_of_entry s,
      )
    where
      value_of_entry :
          (s : Bytes)
          → is_some (value_of (x ∷ key) s) ≡ true
          → same (x ∷ key) j ≡ false
          → value_of j s ≡ none
      value_of_entry s e ne = elim (Option-cases (value_of (x ∷ key) s)) [
        | inl missing ↦ ground arith
        | inr (w, mine) ↦
            rw (value_of-eq-some (x ∷ key) s w mine) (value_of_other j (x ∷ key) w hj h ne)
      ]

pub lookup-first_value :
    (env : Environ) (key : Bytes) → IsKey key → lookup env key ≡ first_value key env
lookup-first_value env [] k = absurd (k.key_ne_nil refl)
lookup-first_value env (x ∷ key) k = lookup-first_value_cons x key k.no_equals env

-- After `Set(key, value)` the value of `key` is `value`, and every other key has the value it had.
pub lookup-set :
    (env : Environ) (key value j : Bytes)
    → IsKey key
    → IsKey j
    → lookup (set env key value) j ≡ (if same key j then some value else lookup env j)
lookup-set env [] value j k kj = absurd (k.key_ne_nil refl)
lookup-set env (x ∷ key) value j k kj =
    lookup-first_value _ j kj
    ∙ first_value-set x key k.no_equals j value env kj.no_equals
    ∙ rw (lookup-first_value env j kj)
