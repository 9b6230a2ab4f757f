-- ===== src/Match/Choice/Each.antt =====
-- `matchGOARCH` and `matchGOOS` of match.go, and the choices that they have.
use buildutil.Base.{
  Bool, true, false, List, [], ◌∷◌, none, some, Bytes, Keys, has, same, same_iff, Bool-cases,
  Option-cases, inl, inr, ◌≡◌, refl, sym, ap, ◌∙◌, arith,
}
use buildutil.Context.{Context, Toolchain}
use buildutil.Platforms.{row, supported_os_arch, supported_arch_os}
use buildutil.Platforms.Preferred.{preferred_os_list, preferred_arch_list}
use buildutil.Tags.{Expr}
use buildutil.Match.{Try, hit, miss}
use buildutil.Match.Platform.{holds_in, try_each, or_try, try_eval, match_goarch, match_goos}
use buildutil.Match.Choice.{
  ArchChoice, arch_no_row, arch_kept, arch_changed, OsChoice, os_no_row, os_kept, os_changed,
}

abbrev pub is_hit : Try → Bool
is_hit (hit c) = true
is_hit (miss c) = false

-- A result of a search from `c` among the contexts that `P` describes: one of them in which the
-- expression holds, or the context as it was.
abbrev pub Chosen : Bool → Expr → Context → (Context → Type 0) → Try → Type 0
Chosen u x c P (hit d) = P d × (holds_in u d x ≡ true)
Chosen u x c P (miss d) = d ≡ c

module _ (u : Bool) (x : Expr) where
  try_each-hits :
      (test : Bytes → Bool) (write : Bytes → Context) (l : List Bytes) (c : Context) (s : Bytes)
      → has l s ≡ true
      → test s ≡ true
      → holds_in u (write s) x ≡ true
      → is_hit (try_each u test write x l c) ≡ true
  unfolding try_each has
  try_each-hits test write [] c s h p holds = cc
  try_each-hits test write (r ∷ l) c s h p holds = elim (Bool-cases (same r s)) [
    | inl here ↦
        let equal : r ≡ s = (same_iff r s).0 here in
        let passes : test r ≡ true = rw equal p in
        let fits : holds_in u (write r) x ≡ true = rw equal holds in rw (passes, fits) refl
    | inr there ↦
        let later = try_each-hits test write l c s (ground (arith, h, there)) p holds in
        ground (arith, later)
  ]

  try_each-Chosen :
      (test : Bytes → Bool) (write : Bytes → Context) (l : List Bytes) (c : Context)
      (P : Context → Type 0)
      → ((s : Bytes) → has l s ≡ true → test s ≡ true → P (write s))
      → Chosen u x c P (try_each u test write x l c)
  unfolding try_each has
  try_each-Chosen test write [] c P f = refl
  try_each-Chosen test write (r ∷ l) c P f =
      let later = try_each-Chosen test write l c P (λ s h p. f s (ground (arith, h)) p) in
      elim (Bool-cases (test r)) [
        | inr fails ↦ rw fails later
        | inl passes ↦ elim (Bool-cases (holds_in u (write r) x)) [
          | inl holds ↦
              rw (passes, holds) (f r (ground (arith, (same_iff r r).1 refl)) passes, holds)
          | inr not_here ↦ rw (passes, not_here) later
        ]
      ]

  try_eval-Chosen : (c : Context) (P : Context → Type 0) → P c → Chosen u x c P (try_eval u x c)
  unfolding try_eval
  try_eval-Chosen c P p = elim (Bool-cases (holds_in u c x)) [
    | inl holds ↦ rw holds (p, holds)
    | inr fails ↦ rw fails refl
  ]

  or_try-Chosen :
      (c : Context) (P : Context → Type 0) (r : Try) (next : Context → Try)
      → Chosen u x c P r
      → Chosen u x c P (next c)
      → Chosen u x c P (or_try r next)
  or_try-Chosen c P (hit d) next h n = h
  or_try-Chosen c P (miss d) next h n = rw h n

  or_try-hits :
      (r : Try) (next : Context → Try)
      → ((c : Context) → is_hit (next c) ≡ true)
      → is_hit (or_try r next) ≡ true
  or_try-hits (hit d) next n = refl
  or_try-hits (miss d) next n = n d

  goarch_no_row :
      (t : Toolchain) (c : Context)
      → row supported_os_arch c.goos ≡ none
      → match_goarch u t c x ≡ try_eval u x c
  unfolding match_goarch
  goarch_no_row t c q = ground (arith, q)

  goarch_kept :
      (t : Toolchain) (c : Context) (arches : Keys)
      → row supported_os_arch c.goos ≡ some arches
      → has arches c.goarch ≡ true
      → match_goarch u t c x ≡ try_eval u x c
  unfolding match_goarch
  goarch_kept t c arches q h = ground (arith, q, h)

  goarch_changed :
      (t : Toolchain) (c : Context) (arches : Keys)
      → row supported_os_arch c.goos ≡ some arches
      → has arches c.goarch ≡ false
      → match_goarch u t c x
        ≡ or_try
            (try_each u (has arches) (λ s. record c { goarch = s }) x (preferred_arch_list t) c)
            (try_each u (λ s. true) (λ s. record c { goarch = s }) x arches)
  unfolding match_goarch
  goarch_changed t c arches q h = ground (arith, q, h)

  goos_no_row :
      (t : Toolchain) (c : Context)
      → row supported_arch_os c.goarch ≡ none
      → match_goos u t c x ≡ try_eval u x c
  unfolding match_goos
  goos_no_row t c q = ground (arith, q)

  goos_kept :
      (t : Toolchain) (c : Context) (oses : Keys)
      → row supported_arch_os c.goarch ≡ some oses
      → has oses c.goos ≡ true
      → match_goos u t c x ≡ try_eval u x c
  unfolding match_goos
  goos_kept t c oses q h = ground (arith, q, h)

  goos_changed :
      (t : Toolchain) (c : Context) (oses : Keys)
      → row supported_arch_os c.goarch ≡ some oses
      → has oses c.goos ≡ false
      → match_goos u t c x
        ≡ or_try
            (try_each u (has oses) (λ s. record c { goos = s }) x (preferred_os_list t) c)
            (try_each u (λ s. true) (λ s. record c { goos = s }) x oses)
  unfolding match_goos
  goos_changed t c oses q h = ground (arith, q, h)

  pub at_equal : (c d : Context) → d ≡ c → holds_in u d x ≡ true → holds_in u c x ≡ true
  at_equal c d e holds = ap (λ y. holds_in u y x) (sym e) ∙ holds

  pub match_goarch-Chosen :
      (t : Toolchain) (c : Context) → Chosen u x c (ArchChoice c) (match_goarch u t c x)
  match_goarch-Chosen t c = elim (Option-cases (row supported_os_arch c.goos)) [
    | inl no_row ↦
        rw (goarch_no_row t c no_row) (try_eval-Chosen c (ArchChoice c) (arch_no_row no_row refl))
    | inr (arches, found) ↦ elim (Bool-cases (has arches c.goarch)) [
      | inl kept ↦
          rw (goarch_kept t c arches found kept)
            (try_eval-Chosen c (ArchChoice c) (arch_kept arches found kept refl))
      | inr other ↦
          let change : (s : Bytes) → has arches s ≡ true → ArchChoice c (record c { goarch = s }) =
            λ s h. arch_changed arches s found other h refl in
          rw (goarch_changed t c arches found other) (
            or_try-Chosen c (ArchChoice c) _ _
              (try_each-Chosen (has arches) (λ s. record c { goarch = s }) (preferred_arch_list t) c
                (ArchChoice c) (λ s h p. change s p))
              (try_each-Chosen (λ s. true) (λ s. record c { goarch = s }) arches c (ArchChoice c)
                (λ s h p. change s h)))
    ]
  ]

  pub match_goarch-hits :
      (t : Toolchain) (c d : Context)
      → ArchChoice c d
      → holds_in u d x ≡ true
      → is_hit (match_goarch u t c x) ≡ true
  unfolding try_eval
  match_goarch-hits t c d (arch_no_row no_row e) holds =
      rw (goarch_no_row t c no_row, at_equal c d e holds) refl
  match_goarch-hits t c d (arch_kept arches found kept e) holds =
      rw (goarch_kept t c arches found kept, at_equal c d e holds) refl
  match_goarch-hits t c d (arch_changed arches arch found other h e) holds =
      let fits = at_equal (record c { goarch = arch }) d e holds in
      rw (goarch_changed t c arches found other) (
        or_try-hits _ _
          (λ b. try_each-hits (λ s. true) (λ s. record c { goarch = s }) arches b arch h refl fits))

  pub match_goos-Chosen :
      (t : Toolchain) (c : Context) → Chosen u x c (OsChoice c) (match_goos u t c x)
  match_goos-Chosen t c = elim (Option-cases (row supported_arch_os c.goarch)) [
    | inl no_row ↦
        rw (goos_no_row t c no_row) (try_eval-Chosen c (OsChoice c) (os_no_row no_row refl))
    | inr (oses, found) ↦ elim (Bool-cases (has oses c.goos)) [
      | inl kept ↦
          rw (goos_kept t c oses found kept)
            (try_eval-Chosen c (OsChoice c) (os_kept oses found kept refl))
      | inr other ↦
          let change : (s : Bytes) → has oses s ≡ true → OsChoice c (record c { goos = s }) =
            λ s h. os_changed oses s found other h refl in
          rw (goos_changed t c oses found other) (
            or_try-Chosen c (OsChoice c) _ _
              (try_each-Chosen (has oses) (λ s. record c { goos = s }) (preferred_os_list t) c
                (OsChoice c) (λ s h p. change s p))
              (try_each-Chosen (λ s. true) (λ s. record c { goos = s }) oses c (OsChoice c)
                (λ s h p. change s h)))
    ]
  ]

  pub match_goos-hits :
      (t : Toolchain) (c d : Context)
      → OsChoice c d
      → holds_in u d x ≡ true
      → is_hit (match_goos u t c x) ≡ true
  unfolding try_eval
  match_goos-hits t c d (os_no_row no_row e) holds =
      rw (goos_no_row t c no_row, at_equal c d e holds) refl
  match_goos-hits t c d (os_kept oses found kept e) holds =
      rw (goos_kept t c oses found kept, at_equal c d e holds) refl
  match_goos-hits t c d (os_changed oses os found other h e) holds =
      let fits = at_equal (record c { goos = os }) d e holds in
      rw (goos_changed t c oses found other) (
        or_try-hits _ _
          (λ b. try_each-hits (λ s. true) (λ s. record c { goos = s }) oses b os h refl fits))
