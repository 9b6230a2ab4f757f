-- ===== src/Match/Choice/Platforms.antt =====
-- The search over platforms in the last phase of `MatchContext`.
use buildutil.Base.{
  Bool, true, false, ◌&&◌, List, [], ◌∷◌, Bool-cases, inl, inr, ◌≡◌, refl, ap, ◌∙◌, arith,
}
use buildutil.Context.{Context, Toolchain}
use buildutil.Platforms.{GoPlatform}
use buildutil.Platforms.Laws.{Listed, here, there}
use buildutil.Tags.{Expr}
use buildutil.Match.{Try, hit, miss}
use buildutil.Match.Platform.{holds_in}
use buildutil.Match.Search.{Required, keep_on, try_platform, try_platforms}
use buildutil.Match.Choice.{may_use, PlatformChoice, with_cgo, without_cgo}
use buildutil.Match.Choice.Each.{is_hit, Chosen, at_equal}

wider :
    (q : Required) (p : GoPlatform) (ps : List GoPlatform) (c d : Context)
    → PlatformChoice q ps c d
    → PlatformChoice q (p ∷ ps) c d
wider q p ps c d (with_cgo r l m e) = with_cgo r (there l) m e
wider q p ps c d (without_cgo r l m e) = without_cgo r (there l) m e

module _ (u : Bool) (t : Toolchain) (x : Expr) (q : Required) where
  -- A choice of another kind may be put in place of the description.
  pub Chosen-map :
      (c : Context) (P R : Context → Type 0) (r : Try)
      → ((d : Context) → P d → R d)
      → Chosen u x c P r
      → Chosen u x c R r
  Chosen-map c P R (hit d) f h = (f d h.0, h.1)
  Chosen-map c P R (miss d) f h = h

  pub keep_on-Chosen :
      (b c : Context) (P : Context → Type 0) (r later : Try)
      → Chosen u x b P r
      → Chosen u x c P later
      → Chosen u x c P (keep_on r later)
  keep_on-Chosen b c P (hit d) later h n = h
  keep_on-Chosen b c P (miss d) later h n = n

  pub keep_on-now : (r later : Try) → is_hit r ≡ true → is_hit (keep_on r later) ≡ true
  keep_on-now (hit d) later h = refl
  keep_on-now (miss d) later h = cc

  pub keep_on-later : (r later : Try) → is_hit later ≡ true → is_hit (keep_on r later) ≡ true
  keep_on-later (hit d) later h = refl
  keep_on-later (miss d) later h = h

  try_platform-Chosen :
      (ps : List GoPlatform) (c : Context) (p : GoPlatform)
      → may_use q c p ≡ true
      → Chosen u x c (PlatformChoice q (p ∷ ps) c) (try_platform u t x q c p)
  unfolding try_platform
  try_platform-Chosen ps c p m =
      let first = record c { goos = p.goos; goarch = p.goarch; cgo_enabled = p.cgo_supported } in
      let second = record first { cgo_enabled = false } in
      elim (Bool-cases (holds_in u first x)) [
        | inl holds ↦ rw holds (with_cgo p here m refl, holds)
        | inr fails ↦ elim (Bool-cases (first.cgo_enabled && holds_in u second x)) [
          | inl holds ↦ rw (fails, holds) (without_cgo p here m refl, ground (arith, holds))
          | inr none_fits ↦ rw (fails, none_fits) refl
        ]
      ]

  try_platform-hits :
      (c : Context) (p : GoPlatform)
      → holds_in u (record c { goos = p.goos; goarch = p.goarch; cgo_enabled = p.cgo_supported }) x
        ≡ true
      → is_hit (try_platform u t x q c p) ≡ true
  unfolding try_platform
  try_platform-hits c p h = rw h refl

  -- Without cgo: the same context as before where the platform does not support it.
  try_platform_hits_without :
      (c : Context) (p : GoPlatform)
      → holds_in u (record c { goos = p.goos; goarch = p.goarch; cgo_enabled = false }) x ≡ true
      → is_hit (try_platform u t x q c p) ≡ true
  unfolding try_platform
  try_platform_hits_without c p h = elim (Bool-cases p.cgo_supported) [
    | inl yes_cgo ↦ ground (arith, yes_cgo, h)
    | inr no_cgo ↦ try_platform-hits c p (
        ap (λ b. holds_in u (record c { goos = p.goos; goarch = p.goarch; cgo_enabled = b }) x)
          no_cgo
        ∙ h)
  ]

  try_platforms-now :
      (p : GoPlatform) (ps : List GoPlatform) (c : Context)
      → may_use q c p ≡ true
      → try_platforms u t x q (p ∷ ps) c
        ≡ keep_on (try_platform u t x q c p) (try_platforms u t x q ps c)
  unfolding try_platforms
  try_platforms-now p ps c m = ground (arith, m)

  try_platforms-skip :
      (p : GoPlatform) (ps : List GoPlatform) (c : Context)
      → may_use q c p ≡ false
      → try_platforms u t x q (p ∷ ps) c ≡ try_platforms u t x q ps c
  unfolding try_platforms
  try_platforms-skip p ps c m = ground (arith, m)

  pub try_platforms-Chosen :
      (ps : List GoPlatform) (c : Context)
      → Chosen u x c (PlatformChoice q ps c) (try_platforms u t x q ps c)
  try_platforms-Chosen [] c = unfold try_platforms in refl
  try_platforms-Chosen (p ∷ ps) c =
      let later =
        Chosen-map c (PlatformChoice q ps c) (PlatformChoice q (p ∷ ps) c)
          (try_platforms u t x q ps c) (wider q p ps c) (try_platforms-Chosen ps c) in
      elim (Bool-cases (may_use q c p)) [
        | inr skip ↦ rw (try_platforms-skip p ps c skip) later
        | inl now ↦ rw (try_platforms-now p ps c now) (
            keep_on-Chosen c c (PlatformChoice q (p ∷ ps) c) (try_platform u t x q c p) _
              (try_platform-Chosen ps c p now) later)
      ]

  Listed-hits :
      (p : GoPlatform) {ps : List GoPlatform} (c : Context)
      → Listed p ps
      → may_use q c p ≡ true
      → is_hit (try_platform u t x q c p) ≡ true
      → is_hit (try_platforms u t x q ps c) ≡ true
  Listed-hits p c (here {ps}) m h = rw (try_platforms-now p ps c m) (keep_on-now _ _ h)
  Listed-hits p c (there {q = r} {ps} l) m h =
      let later = Listed-hits p c l m h in
      elim (Bool-cases (may_use q c r)) [
        | inr skip ↦ rw (try_platforms-skip r ps c skip) later
        | inl now ↦ rw (try_platforms-now r ps c now) (keep_on-later _ _ later)
      ]

  pub try_platforms-hits :
      (ps : List GoPlatform) (c d : Context)
      → PlatformChoice q ps c d
      → holds_in u d x ≡ true
      → is_hit (try_platforms u t x q ps c) ≡ true
  try_platforms-hits ps c d (with_cgo p l m e) h =
      Listed-hits p c l m (try_platform-hits c p (at_equal u x _ d e h))
  try_platforms-hits ps c d (without_cgo p l m e) h =
      Listed-hits p c l m (try_platform_hits_without c p (at_equal u x _ d e h))
