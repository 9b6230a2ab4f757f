-- ===== src/Match/Choice/Found.antt =====
-- The search over systems and over architectures in the last phase of `MatchContext`, and the phase as a whole.
use buildutil.Base.{
  Bool, true, false, not, ◌&&◌, List, [], ◌∷◌, Bytes, Keys, has, same, same_iff, same_refl,
  Bool-cases, inl, inr, ◌≡◌, refl, sym, arith,
}
use buildutil.Context.{Context, Toolchain}
use buildutil.Platforms.{default_go_platforms}
use buildutil.Platforms.Preferred.{preferred_os_list, preferred_arch_list}
use buildutil.Syslist.{known_os, known_arch}
use buildutil.Tags.{Expr}
use buildutil.Util.{tags_intersect}
use buildutil.Match.{Try, hit, miss}
use buildutil.Match.Platform.{holds_in, match_goarch, match_goos}
use buildutil.Match.Search.{
  Required, os_allowed, arch_allowed, keep_on, try_platforms, try_oses, try_arches, try_systems,
}
use buildutil.Match.Choice.{
  ArchChoice, OsChoice, SystemChoice, system, MachineChoice, machine, Choice, platform,
  system_alone, machine_alone,
}
use buildutil.Match.Choice.Each.{
  is_hit, Chosen, match_goarch-Chosen, match_goarch-hits, match_goos-Chosen, match_goos-hits,
}
use buildutil.Match.Choice.Platforms.{
  Chosen-map, keep_on-Chosen, keep_on-now, keep_on-later, try_platforms-Chosen, try_platforms-hits,
}

has-here : (s : Bytes) (l : List Bytes) → has (s ∷ l) s ≡ true
unfolding has
has-here s l = ground (arith, same_refl s)

has-there : (r : Bytes) (l : List Bytes) (s : Bytes) → has l s ≡ true → has (r ∷ l) s ≡ true
unfolding has
has-there r l s h = ground (arith, h)

wider_systems :
    (q : Required) (os : Bytes) (oses : List Bytes) (c d : Context)
    → SystemChoice q oses c d
    → SystemChoice q (os ∷ oses) c d
wider_systems q os oses c d (system s h m a) = system s (has-there os oses s h) m a

wider_machines :
    (q : Required) (arch : Bytes) (arches : List Bytes) (c d : Context)
    → MachineChoice q arches c d
    → MachineChoice q (arch ∷ arches) c d
wider_machines q arch arches c d (machine s h m a) = machine s (has-there arch arches s h) m a

module _ (u : Bool) (t : Toolchain) (x : Expr) (q : Required) where
  try_oses-now :
      (os : Bytes) (oses : List Bytes) (c : Context)
      → (not (same os c.goos) && os_allowed q.os os) ≡ true
      → try_oses u t x q (os ∷ oses) c
        ≡ keep_on (match_goarch u t (record c { goos = os }) x) (try_oses u t x q oses c)
  unfolding try_oses
  try_oses-now os oses c m = ground (arith, m)

  try_oses-skip :
      (os : Bytes) (oses : List Bytes) (c : Context)
      → (not (same os c.goos) && os_allowed q.os os) ≡ false
      → try_oses u t x q (os ∷ oses) c ≡ try_oses u t x q oses c
  unfolding try_oses
  try_oses-skip os oses c m = ground (arith, m)

  try_oses-Chosen :
      (oses : List Bytes) (c : Context)
      → Chosen u x c (SystemChoice q oses c) (try_oses u t x q oses c)
  try_oses-Chosen [] c = unfold try_oses in refl
  try_oses-Chosen (os ∷ oses) c =
      let later =
        Chosen-map u t x q c (SystemChoice q oses c) (SystemChoice q (os ∷ oses) c)
          (try_oses u t x q oses c) (wider_systems q os oses c) (try_oses-Chosen oses c) in
      elim (Bool-cases (not (same os c.goos) && os_allowed q.os os)) [
        | inr skip ↦ rw (try_oses-skip os oses c skip) later
        | inl now ↦
            let b = record c { goos = os } in
            rw (try_oses-now os oses c now) (
              keep_on-Chosen u t x q b c (SystemChoice q (os ∷ oses) c) (match_goarch u t b x) _
                (Chosen-map u t x q b (ArchChoice b) (SystemChoice q (os ∷ oses) c)
                  (match_goarch u t b x) (λ d a. system os (has-here os oses) now a)
                  (match_goarch-Chosen u x t b))
                later)
      ]

  try_oses-hits :
      (oses : List Bytes) (c d : Context) (os : Bytes)
      → has oses os ≡ true
      → (not (same os c.goos) && os_allowed q.os os) ≡ true
      → ArchChoice (record c { goos = os }) d
      → holds_in u d x ≡ true
      → is_hit (try_oses u t x q oses c) ≡ true
  try_oses-hits [] c d os h m a f = unfold has in cc
  try_oses-hits (r ∷ oses) c d os h m a f = elim (Bool-cases (same r os)) [
    | inl this ↦
        let equal : os ≡ r = sym ((same_iff r os).0 this) in
        let now = rw equal at m in
        rw (try_oses-now r oses c now) (
          keep_on-now u t x q _ _
            (match_goarch-hits u x t (record c { goos = r }) d (rw equal at a) f))
    | inr other ↦
        let later = try_oses-hits oses c d os (unfold has in ground (arith, h, other)) m a f in
        elim (Bool-cases (not (same r c.goos) && os_allowed q.os r)) [
          | inr skip ↦ rw (try_oses-skip r oses c skip) later
          | inl now ↦ rw (try_oses-now r oses c now) (keep_on-later u t x q _ _ later)
        ]
  ]

  try_arches-now :
      (arch : Bytes) (arches : List Bytes) (c : Context)
      → (not (same arch c.goarch) && arch_allowed q.arch arch) ≡ true
      → try_arches u t x q (arch ∷ arches) c
        ≡ keep_on (match_goos u t (record c { goarch = arch }) x) (try_arches u t x q arches c)
  unfolding try_arches
  try_arches-now arch arches c m = ground (arith, m)

  try_arches-skip :
      (arch : Bytes) (arches : List Bytes) (c : Context)
      → (not (same arch c.goarch) && arch_allowed q.arch arch) ≡ false
      → try_arches u t x q (arch ∷ arches) c ≡ try_arches u t x q arches c
  unfolding try_arches
  try_arches-skip arch arches c m = ground (arith, m)

  try_arches-Chosen :
      (arches : List Bytes) (c : Context)
      → Chosen u x c (MachineChoice q arches c) (try_arches u t x q arches c)
  try_arches-Chosen [] c = unfold try_arches in refl
  try_arches-Chosen (arch ∷ arches) c =
      let later =
        Chosen-map u t x q c (MachineChoice q arches c) (MachineChoice q (arch ∷ arches) c)
          (try_arches u t x q arches c) (wider_machines q arch arches c)
          (try_arches-Chosen arches c) in
      elim (Bool-cases (not (same arch c.goarch) && arch_allowed q.arch arch)) [
        | inr skip ↦ rw (try_arches-skip arch arches c skip) later
        | inl now ↦
            let b = record c { goarch = arch } in
            rw (try_arches-now arch arches c now) (
              keep_on-Chosen u t x q b c (MachineChoice q (arch ∷ arches) c) (match_goos u t b x) _
                (Chosen-map u t x q b (OsChoice b) (MachineChoice q (arch ∷ arches) c)
                  (match_goos u t b x) (λ d a. machine arch (has-here arch arches) now a)
                  (match_goos-Chosen u x t b))
                later)
      ]

  try_arches-hits :
      (arches : List Bytes) (c d : Context) (arch : Bytes)
      → has arches arch ≡ true
      → (not (same arch c.goarch) && arch_allowed q.arch arch) ≡ true
      → OsChoice (record c { goarch = arch }) d
      → holds_in u d x ≡ true
      → is_hit (try_arches u t x q arches c) ≡ true
  try_arches-hits [] c d arch h m a f = unfold has in cc
  try_arches-hits (r ∷ arches) c d arch h m a f = elim (Bool-cases (same r arch)) [
    | inl this ↦
        let equal : arch ≡ r = sym ((same_iff r arch).0 this) in
        let now = rw equal at m in
        rw (try_arches-now r arches c now) (
          keep_on-now u t x q _ _
            (match_goos-hits u x t (record c { goarch = r }) d (rw equal at a) f))
    | inr other ↦
        let later =
          try_arches-hits arches c d arch (unfold has in ground (arith, h, other)) m a f in
        elim (Bool-cases (not (same r c.goarch) && arch_allowed q.arch r)) [
          | inr skip ↦ rw (try_arches-skip r arches c skip) later
          | inl now ↦ rw (try_arches-now r arches c now) (keep_on-later u t x q _ _ later)
        ]
  ]

  try_systems_platform :
      (tags : Keys) (c : Context)
      → tags_intersect tags known_os ≡ true
      → tags_intersect tags known_arch ≡ true
      → try_systems u t x q tags c ≡ try_platforms u t x q default_go_platforms c
  unfolding try_systems
  try_systems_platform tags c o a = ground (arith, o, a)

  try_systems_system :
      (tags : Keys) (c : Context)
      → tags_intersect tags known_os ≡ true
      → tags_intersect tags known_arch ≡ false
      → try_systems u t x q tags c ≡ try_oses u t x q (preferred_os_list t) c
  unfolding try_systems
  try_systems_system tags c o a = ground (arith, o, a)

  try_systems_machine :
      (tags : Keys) (c : Context)
      → tags_intersect tags known_os ≡ false
      → tags_intersect tags known_arch ≡ true
      → try_systems u t x q tags c ≡ try_arches u t x q (preferred_arch_list t) c
  unfolding try_systems
  try_systems_machine tags c o a = ground (arith, o, a)

  hit_of :
      (c : Context) (P : Context → Type 0) (r : Try)
      → is_hit r ≡ true
      → Chosen u x c P r
      → (d : Context) × (r ≡ hit d) × P d × (holds_in u d x ≡ true)
  hit_of c P (hit d) h f = (d, refl, f.0, f.1)
  hit_of c P (miss d) h f = cc

  -- If the expression holds in some context that the tags let the last phase choose, then the phase ends
  -- with such a context: one of its choices in which the expression holds.
  pub try_systems-finds :
      (tags : Keys) (c f : Context)
      → Choice t q tags c f
      → holds_in u f x ≡ true
      → (d : Context) × (try_systems u t x q tags c ≡ hit d)
        × Choice t q tags c d
        × (holds_in u d x ≡ true)
  try_systems-finds tags c f (platform o a p) h = rw (try_systems_platform tags c o a) (
      hit_of c (Choice t q tags c) _ (try_platforms-hits u t x q default_go_platforms c f p h) (
        Chosen-map u t x q c _ (Choice t q tags c) _ (λ d b. platform o a b)
          (try_platforms-Chosen u t x q default_go_platforms c)))
  try_systems-finds tags c f (system_alone o a (system s i m b)) h =
      rw (try_systems_system tags c o a) (
        hit_of c (Choice t q tags c) _ (try_oses-hits (preferred_os_list t) c f s i m b h) (
          Chosen-map u t x q c _ (Choice t q tags c) _ (λ d b. system_alone o a b)
            (try_oses-Chosen (preferred_os_list t) c)))
  try_systems-finds tags c f (machine_alone o a (machine s i m b)) h =
      rw (try_systems_machine tags c o a) (
        hit_of c (Choice t q tags c) _ (try_arches-hits (preferred_arch_list t) c f s i m b h) (
          Chosen-map u t x q c _ (Choice t q tags c) _ (λ d b. machine_alone o a b)
            (try_arches-Chosen (preferred_arch_list t) c)))
