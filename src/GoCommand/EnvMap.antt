-- ===== src/GoCommand/EnvMap.antt =====
-- `envMap` of gocommand.go.
use buildutil.Base.{
  List, [], ◌∷◌, Option, none, some, if◌then◌else◌, Bytes, same, same_iff, cut, arith, ◌≡◌, refl,
  ap, ◌∙◌,
}

-- A Go map of strings.
abbrev pub StringMap : Type 0
StringMap = List (Bytes × Bytes)

-- `m[k] = v`
unfoldable pub set_value : Bytes → Bytes → StringMap → StringMap
set_value k v [] = (k, v) ∷ []
set_value k v ((j, x) ∷ m) =
    let rest = set_value k v m in if same j k then (j, v) ∷ m else (j, x) ∷ rest

unfoldable pub value_at : StringMap → Bytes → Option Bytes
value_at [] k = none
value_at ((j, x) ∷ m) k = let rest = value_at m k in if same j k then some x else rest

-- `k, v, _ := cut(s, "=")`
unfoldable pub key_value : Bytes → Bytes × Bytes
key_value s = elim (cut (b'=' ∷ []) s) [ none ↦ (s, []) | some (k, v) ↦ (k, v) ]

unfoldable pub set_values : List Bytes → StringMap → StringMap
unfolding set_value key_value
set_values [] m = m
set_values (s ∷ a) m = let (k, v) = key_value s in set_values a (set_value k v m)

-- `envMap`
unfoldable pub env_map : List Bytes → StringMap
unfolding set_values
env_map a = set_values a []

-- The value of the last text with the key, and the given one if there is none.
abbrev pub last_value : Bytes → List Bytes → Option Bytes → Option Bytes
last_value k [] before = before
last_value k (s ∷ a) before =
    let now = if same (key_value s).0 k then some (key_value s).1 else before in last_value k a now

value_at-set_value :
    (m : StringMap) (j v k : Bytes)
    → value_at (set_value j v m) k ≡ (if same j k then some v else value_at m k)
unfolding value_at set_value
value_at-set_value [] j v k = refl
value_at-set_value ((i, x) ∷ m) j v k =
    let rest = value_at-set_value m j v k in
    ground (arith, rest, same_iff i j, same_iff i k, same_iff j k)

value_at-set_values :
    (a : List Bytes) (m : StringMap) (k : Bytes)
    → value_at (set_values a m) k ≡ last_value k a (value_at m k)
unfolding set_values
value_at-set_values [] m k = refl
value_at-set_values (s ∷ a) m k =
    let (j, v) = key_value s in
    value_at-set_values a (set_value j v m) k ∙ ap (last_value k a) (value_at-set_value m j v k)

-- The map of an environment has, for each key, the value of the last text with that key.
pub env_map_lem : (a : List Bytes) (k : Bytes) → value_at (env_map a) k ≡ last_value k a none
unfolding env_map value_at
env_map_lem a k = value_at-set_values a [] k
