-- ===== src/PackageName/Clause.antt =====
-- What `readPackageName` finds is the name in a package clause, and it finds such a clause.
use buildutil.Base.{
  ℕ, suc, ◌≤◌, Bool, true, false, [], ◌∷◌, ◌++◌, ltb, codes, Bytes, has_prefix, strip,
  strip-eq-some, length, is_empty, Result, ok, err, ◌>>=◌, syntax, arith, ◌≡◌, ◌≢◌, refl, ap, sym,
  ◌∙◌, ◌⊎◌, inl, inr, Option-cases, Bool-cases, append_assoc, length-append,
}
use buildutil.Reader.{is_ident}
use buildutil.PackageName.{
  is_gap, trim_gap, min_len, is_skipped, find_clause, ident_front, starts_with_gap, clause_name,
  read_package_name,
}
use buildutil.PackageName.Find.{
  Suffix, Suffix-trans, Leaves, left_over, refused, find_clause-Leaves,
}

-- Every byte passes the test.
abbrev pub Every : (ℕ → Bool) → Bytes → Type 0
Every p [] = Unit
Every p (c ∷ s) = (p c ≡ true) × Every p s

-- The text is empty, or starts with a byte that fails the test.
abbrev pub Stops : (ℕ → Bool) → Bytes → Type 0
Stops p [] = Unit
Stops p (c ∷ s) = p c ≡ false

-- `package`, white space, and the whole of a name.
pub record PackageClause (content name : Bytes) : Type 0 where
  pub before : Bytes
  pub gap : Bytes
  pub rest : Bytes
  pub stands : content ≡ before ++ (codes "package" ++ (gap ++ (name ++ rest)))
  pub gap_ne_nil : gap ≢ []
  pub gap_is_space : Every is_gap gap
  pub name_ne_nil : name ≢ []
  pub name_is_ident : Every is_ident name
  pub name_is_whole : Stops is_ident rest

trim_gap-Suffix : (b : Bytes) → (gap : Bytes) × (b ≡ gap ++ trim_gap b) × Every is_gap gap
unfolding trim_gap
trim_gap-Suffix [] = ([], refl, tt)
trim_gap-Suffix (c ∷ b) = elim (Bool-cases (is_gap c)) [
  | inl space ↦
      let (gap, e, all) = trim_gap-Suffix b in (c ∷ gap, rw space (ap (◌∷◌ c) e), (space, all))
  | inr other ↦ ([], rw other refl, tt)
]

ident_front-Suffix :
    (b : Bytes)
    → Every is_ident (ident_front b)
      × ((rest : Bytes) × (b ≡ ident_front b ++ rest) × Stops is_ident rest)
unfolding ident_front
ident_front-Suffix [] = (tt, ([], refl, tt))
ident_front-Suffix (c ∷ b) = elim (Bool-cases (is_ident c)) [
  | inl ident ↦
      let (all, (rest, e, stops)) = ident_front-Suffix b in
      rw ident ((ident, all), (rest, ap (◌∷◌ c) e, stops))
  | inr other ↦ rw other (tt, (c ∷ b, refl, other))
]

gap_starts : (gap s r : Bytes) → starts_with_gap r ≡ true → r ≡ gap ++ s → s ≡ trim_gap r → gap ≢ []
unfolding trim_gap
gap_starts gap s [] h e f g = cc h
gap_starts gap s (c ∷ r) h e f g =
    let same : c ∷ r ≡ s = rw g at e in
    let trimmed : s ≡ trim_gap r = rw h at f in
    let (front, whole, all) = trim_gap-Suffix r in
    omega
      (arith, ap length same, ap length trimmed, ap length whole, length-append front (trim_gap r))

empty-ne-nil : (s : Bytes) → is_empty s ≡ false → s ≢ []
empty-ne-nil [] h e = cc h
empty-ne-nil (c ∷ s) h e = cc e

-- What stands behind `package`.
behind_package :
    (r : Bytes)
    → let b = codes "package" ++ r in
      ((name : Bytes) × (clause_name b ≡ ok name) × PackageClause b name)
      ⊎ (clause_name b ≡ err syntax)
unfolding clause_name has_prefix strip
behind_package r = elim (Bool-cases (ltb (length (codes "package" ++ r)) min_len)) [
  | inl short ↦ inr (rw short refl)
  | inr enough ↦ elim (Bool-cases (starts_with_gap r)) [
    | inr none_there ↦ inr (rw (enough, none_there) refl)
    | inl space ↦ elim (Bool-cases (is_empty (ident_front (trim_gap r)))) [
      | inl nameless ↦ inr (rw (enough, space, nameless) refl)
      | inr named ↦
          let (gap, e, all_gap) = trim_gap-Suffix r in
          let (all, (rest, f, stops)) = ident_front-Suffix (trim_gap r) in
          inl (
            ident_front (trim_gap r),
            rw (enough, space, named) refl,
            record {
              before = [];
              gap = gap;
              rest = rest;
              stands = ap (λ s. codes "package" ++ s) (e ∙ ap (λ s. gap ++ s) f);
              gap_ne_nil = gap_starts gap (trim_gap r) r space e refl;
              gap_is_space = all_gap;
              name_ne_nil = empty-ne-nil (ident_front (trim_gap r)) named;
              name_is_ident = all;
              name_is_whole = stops;
            },
          )
    ]
  ]
]

clause_name-PackageClause :
    (b : Bytes)
    → ((name : Bytes) × (clause_name b ≡ ok name) × PackageClause b name)
      ⊎ (clause_name b ≡ err syntax)
clause_name-PackageClause b = elim (Option-cases (strip (codes "package") b)) [
  | inl absent ↦ inr (unfold clause_name has_prefix in ground (arith, absent))
  | inr (r, found) ↦ rw (strip-eq-some (codes "package") b r found) (behind_package r)
]

longer : {s b : Bytes} (name : Bytes) → Suffix s b → PackageClause s name → PackageClause b name
longer name (front, e) k = record {
  before = front ++ k.before;
  gap = k.gap;
  rest = k.rest;
  stands =
      e
      ∙ ap (λ t. front ++ t) k.stands
      ∙ sym (append_assoc front k.before (codes "package" ++ (k.gap ++ (name ++ k.rest))));
  gap_ne_nil = k.gap_ne_nil;
  gap_is_space = k.gap_is_space;
  name_ne_nil = k.name_ne_nil;
  name_is_ident = k.name_is_ident;
  name_is_whole = k.name_is_whole;
}

found_clause :
    (content s : Bytes) (m : Result Bytes)
    → Suffix s content
    → Leaves s m
    → ((name : Bytes) × ((m >>= clause_name) ≡ ok name) × PackageClause content name)
      ⊎ ((m >>= clause_name) ≡ err syntax)
found_clause content s (err e) x refused = inr refl
found_clause content s (ok r) x (left_over b y) = elim (clause_name-PackageClause r) [
  | inl (name, read, k) ↦ inl (name, read, longer name (Suffix-trans y x) k)
  | inr no_clause ↦ inr no_clause
]

-- `readPackageName` returns on every content: with the whole name of a package clause that stands in it,
-- `package`, white space and identifier bytes up to one that is none, or with a syntax error.
pub read_package_name-PackageClause :
    (content : Bytes)
    → ((name : Bytes) × (read_package_name content ≡ ok name) × PackageClause content name)
      ⊎ (read_package_name content ≡ err syntax)
unfolding read_package_name
read_package_name-PackageClause content =
    let (gap, e, all) = trim_gap-Suffix content in
    found_clause content (trim_gap content) _ (gap, e)
      (find_clause-Leaves (suc (length (trim_gap content))) (trim_gap content) (omega arith))

trim_gap-append : (gap s : Bytes) → Every is_gap gap → trim_gap (gap ++ s) ≡ trim_gap s
unfolding trim_gap
trim_gap-append [] s h = refl
trim_gap-append (c ∷ gap) s h = rw (h.0) (trim_gap-append gap s h.1)

ident-not_gap : (c : ℕ) → is_ident c ≡ true → is_gap c ≡ false
unfolding is_ident is_gap
ident-not_gap c h = ground (arith, h)

ident_front-append :
    (name rest : Bytes)
    → Every is_ident name
    → Stops is_ident rest
    → ident_front (name ++ rest) ≡ name
unfolding ident_front
ident_front-append [] [] h k = refl
ident_front-append [] (c ∷ rest) h k = rw k refl
ident_front-append (c ∷ name) rest h k = rw (h.0) (ap (◌∷◌ c) (ident_front-append name rest h.1 k))

trim_gap-name :
    (name rest : Bytes) → name ≢ [] → Every is_ident name → trim_gap (name ++ rest) ≡ name ++ rest
unfolding trim_gap
trim_gap-name [] rest ne h = absurd (ne refl)
trim_gap-name (c ∷ name) rest ne h = rw (ident-not_gap c h.0) refl

-- A text that starts with `package` is not trimmed.
starts_package : (r : Bytes) → trim_gap (codes "package" ++ r) ≡ codes "package" ++ r
unfolding trim_gap is_gap
starts_package r = refl

found_package :
    (f : ℕ) (r : Bytes)
    → 2 ≤ length r
    → find_clause (suc f) (codes "package" ++ r) ≡ ok (codes "package" ++ r)
unfolding find_clause is_skipped
found_package f r h = ground arith

package_name :
    (r name : Bytes)
    → 2 ≤ length r
    → starts_with_gap r ≡ true
    → ident_front (trim_gap r) ≡ name
    → name ≢ []
    → clause_name (codes "package" ++ r) ≡ ok name
unfolding clause_name has_prefix strip
package_name r [] h space named ne = absurd (ne refl)
package_name r (d ∷ name) h space named ne =
    let enough : ltb (length (codes "package" ++ r)) min_len ≡ false = ground arith in
    rw (enough, space, named) refl

front_lem :
    (front s : Bytes) → Every is_gap front → read_package_name (front ++ s) ≡ read_package_name s
unfolding read_package_name
front_lem front s h = rw (trim_gap-append front s h) refl

clause_lem :
    (gap name rest : Bytes)
    → gap ≢ []
    → Every is_gap gap
    → name ≢ []
    → Every is_ident name
    → Stops is_ident rest
    → read_package_name (codes "package" ++ (gap ++ (name ++ rest))) ≡ ok name
unfolding read_package_name
clause_lem [] name rest g ga n na s = absurd (g refl)
clause_lem (c ∷ gap) [] rest g ga n na s = absurd (n refl)
clause_lem (c ∷ gap) (d ∷ name) rest g ga n na s =
    let r = (c ∷ gap) ++ ((d ∷ name) ++ rest) in
    let trimmed =
      trim_gap-append (c ∷ gap) ((d ∷ name) ++ rest) ga ∙ trim_gap-name (d ∷ name) rest n na in
    let named = ap ident_front trimmed ∙ ident_front-append (d ∷ name) rest na s in
    rw (starts_package r, found_package _ r (omega (arith, length-append gap ((d ∷ name) ++ rest))))
      (package_name r (d ∷ name) (omega (arith, length-append gap ((d ∷ name) ++ rest))) ga.0 named
        n)

-- A package clause behind white space is read: the result is the whole name.
pub read_package_name-clause :
    (front gap name rest : Bytes)
    → Every is_gap front
    → gap ≢ []
    → Every is_gap gap
    → name ≢ []
    → Every is_ident name
    → Stops is_ident rest
    → read_package_name (front ++ (codes "package" ++ (gap ++ (name ++ rest)))) ≡ ok name
read_package_name-clause front gap name rest fa g ga n na s =
    front_lem front (codes "package" ++ (gap ++ (name ++ rest))) fa
    ∙ clause_lem gap name rest g ga n na s
