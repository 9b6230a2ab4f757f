-- ===== src/Match/Frame.antt =====
-- What the phases of `MatchContext` establish: where a phase hits, the expression holds in its context;
-- hit or miss, the fields that decide the Go version, the compiler and the paths stay as they were.
use buildutil.Base.{
  Bool, true, false, not, ◌&&◌, List, [], ◌∷◌, Option, none, some, if◌then◌else◌, Bytes, Keys, has,
  arith, ◌≡◌, refl, ◌∙◌, Bool-cases, inl, inr, same,
}
use buildutil.Context.{Context, Toolchain}
use buildutil.Platforms.{
  GoPlatform, default_go_platforms, row, supported_os_arch, supported_arch_os,
}
use buildutil.Platforms.Preferred.{preferred_os_list, preferred_arch_list}
use buildutil.Syslist.{known_os, known_arch}
use buildutil.Tags.{Expr}
use buildutil.Util.{tags_intersect}
use buildutil.Match.{Try, hit, miss}
use buildutil.Match.Platform.{holds_in, try_each, try_eval, or_try, match_goarch, match_goos}
use buildutil.Match.Search.{
  Required, try_platform, keep_on, try_platforms, try_oses, try_arches, try_systems, os_allowed,
  arch_allowed,
}

-- The fields that `MatchContext` never changes once they are set.
pub record Frame (c d : Context) : Type 0 where
  pub release_tags : d.release_tags ≡ c.release_tags
  pub compiler : d.compiler ≡ c.compiler
  pub goroot : d.goroot ≡ c.goroot
  pub gopath : d.gopath ≡ c.gopath

abbrev pub frame_refl : (c : Context) → Frame c c
frame_refl c = record { release_tags = refl; compiler = refl; goroot = refl; gopath = refl }

pub frame_trans : {c d e : Context} → Frame c d → Frame d e → Frame c e
frame_trans f g = record {
  release_tags = g.release_tags ∙ f.release_tags;
  compiler = g.compiler ∙ f.compiler;
  goroot = g.goroot ∙ f.goroot;
  gopath = g.gopath ∙ f.gopath;
}

module _ (u : Bool) (x : Expr) (c : Context) where
  abbrev pub Sound : Try → Type 0
  Sound (hit d) = (holds_in u d x ≡ true) × Frame c d
  Sound (miss d) = Frame c d

  pub try_eval-Sound : (d : Context) → Frame c d → Sound (try_eval u x d)
  unfolding try_eval
  try_eval-Sound d f = elim (Bool-cases (holds_in u d x)) [
    | inl holds ↦ rw holds (holds, f)
    | inr fails ↦ rw fails f
  ]

  try_each-Sound :
      (test : Bytes → Bool) (write : Bytes → Context) (l : List Bytes) (d : Context)
      → ((s : Bytes) → Frame c (write s))
      → Frame c d
      → Sound (try_each u test write x l d)
  unfolding try_each
  try_each-Sound test write [] d w f = f
  try_each-Sound test write (s ∷ l) d w f =
      let later = try_each-Sound test write l d w f in
      elim (Bool-cases (test s)) [
        | inl passes ↦ elim (Bool-cases (holds_in u (write s) x)) [
          | inl holds ↦ rw (passes, holds) (holds, w s)
          | inr fails ↦ rw (passes, fails) later
        ]
        | inr other ↦ rw other later
      ]

  or_try-Sound :
      (r : Try) (next : Context → Try)
      → Sound r
      → ((d : Context) → Frame c d → Sound (next d))
      → Sound (or_try r next)
  or_try-Sound (hit d) next h n = h
  or_try-Sound (miss d) next h n = n d h

  keep_on-Sound : (r later : Try) → Sound r → Sound later → Sound (keep_on r later)
  keep_on-Sound (hit d) later h l = h
  keep_on-Sound (miss d) later h l = l

  if-Sound : (b : Bool) (r s : Try) → Sound r → Sound s → Sound (if b then r else s)
  if-Sound true r s h k = h
  if-Sound false r s h k = k

  row-Sound :
      (o : Option Keys) (r : Try) (f : Keys → Try)
      → Sound r
      → ((m : Keys) → Sound (f m))
      → Sound (elim o [ none ↦ r | some m ↦ f m ])
  row-Sound none r f h k = h
  row-Sound (some m) r f h k = k m

  -- Writing the system and the architecture keeps the frame.
  frame_set :
      (d : Context) (os arch : Bytes) (cgo : Bool) (tags tools : List Bytes)
      → Frame c d
      → Frame c (record d {
        goos = os;
        goarch = arch;
        cgo_enabled = cgo;
        build_tags = tags;
        tool_tags = tools;
      })
  frame_set d os arch cgo tags tools f = record {
    release_tags = f.release_tags;
    compiler = f.compiler;
    goroot = f.goroot;
    gopath = f.gopath;
  }

  -- The shape of `matchGOARCH` and `matchGOOS`.
  match-Sound :
      (o : Option Keys) (here : Bytes) (write : Bytes → Context) (preferred : List Bytes)
      (d : Context)
      → ((s : Bytes) → Frame c (write s))
      → Frame c d
      → Sound (elim o [
        | none ↦ try_eval u x d
        | some names ↦
            if has names here
            then try_eval u x d
            else or_try
                (try_each u (has names) write x preferred d)
                (try_each u (λ s. true) write x names)
      ])
  match-Sound o here write preferred d w f = row-Sound o _ _ (try_eval-Sound d f) (λ names.
      if-Sound (has names here) _ _ (try_eval-Sound d f) (
        or_try-Sound _ _ (try_each-Sound (has names) write preferred d w f)
          (λ e g. try_each-Sound (λ s. true) write names e w g)))

  match_goarch-Sound : (t : Toolchain) (d : Context) → Frame c d → Sound (match_goarch u t d x)
  unfolding match_goarch
  match_goarch-Sound t d f =
      match-Sound (row supported_os_arch d.goos) d.goarch (λ s. record d { goarch = s })
        (preferred_arch_list t) d
        (λ s. frame_set d d.goos s d.cgo_enabled d.build_tags d.tool_tags f) f

  match_goos-Sound : (t : Toolchain) (d : Context) → Frame c d → Sound (match_goos u t d x)
  unfolding match_goos
  match_goos-Sound t d f =
      match-Sound (row supported_arch_os d.goarch) d.goos (λ s. record d { goos = s })
        (preferred_os_list t) d
        (λ s. frame_set d s d.goarch d.cgo_enabled d.build_tags d.tool_tags f) f

  module _ (t : Toolchain) (q : Required) where
    try_platform-Sound :
        (d : Context) (p : GoPlatform) → Frame c d → Sound (try_platform u t x q d p)
    unfolding try_platform
    try_platform-Sound d p f =
        let first = record d { goos = p.goos; goarch = p.goarch; cgo_enabled = p.cgo_supported } in
        let second = record first { cgo_enabled = false } in
        let write = λ (b : Bool). frame_set d p.goos p.goarch b d.build_tags d.tool_tags f in
        elim (Bool-cases (holds_in u first x)) [
          | inl holds ↦ rw holds (holds, write p.cgo_supported)
          | inr fails ↦ elim (Bool-cases (p.cgo_supported && holds_in u second x)) [
            | inl again ↦ rw (fails, again) (ground arith, write false)
            | inr never ↦ rw (fails, never) f
          ]
        ]

    try_platforms-Sound :
        (ps : List GoPlatform) (d : Context) → Frame c d → Sound (try_platforms u t x q ps d)
    unfolding try_platforms
    try_platforms-Sound [] d f = f
    try_platforms-Sound (p ∷ ps) d f =
        let later = try_platforms-Sound ps d f in
        let rest = try_platforms u t x q ps d in
        let now = keep_on (try_platform u t x q d p) rest in
        let other = not (os_allowed q.os p.goos) in
        if-Sound (same p.goos d.goos && same p.goarch d.goarch) rest _ later (
          if-Sound (not (arch_allowed q.arch p.goarch)) rest (if other then rest else now) later (
            if-Sound other rest now later
              (keep_on-Sound (try_platform u t x q d p) rest (try_platform-Sound d p f) later)))

    try_oses-Sound : (l : List Bytes) (d : Context) → Frame c d → Sound (try_oses u t x q l d)
    unfolding try_oses
    try_oses-Sound [] d f = f
    try_oses-Sound (os ∷ l) d f =
        let later = try_oses-Sound l d f in
        let rest = try_oses u t x q l d in
        let found = match_goarch u t (record d { goos = os }) x in
        let set = frame_set d os d.goarch d.cgo_enabled d.build_tags d.tool_tags f in
        let other = not (os_allowed q.os os) in
        if-Sound (same os d.goos) rest (if other then rest else keep_on found rest) later (
          if-Sound other rest (keep_on found rest) later
            (keep_on-Sound found rest (match_goarch-Sound t (record d { goos = os }) set) later))

    try_arches-Sound : (l : List Bytes) (d : Context) → Frame c d → Sound (try_arches u t x q l d)
    unfolding try_arches
    try_arches-Sound [] d f = f
    try_arches-Sound (arch ∷ l) d f =
        let later = try_arches-Sound l d f in
        let rest = try_arches u t x q l d in
        let found = match_goos u t (record d { goarch = arch }) x in
        let set = frame_set d d.goos arch d.cgo_enabled d.build_tags d.tool_tags f in
        let other = not (arch_allowed q.arch arch) in
        if-Sound (same arch d.goarch) rest (if other then rest else keep_on found rest) later (
          if-Sound other rest (keep_on found rest) later
            (keep_on-Sound found rest (match_goos-Sound t (record d { goarch = arch }) set) later))

    pub try_systems-Sound :
        (tags : Keys) (d : Context) → Frame c d → Sound (try_systems u t x q tags d)
    unfolding try_systems
    try_systems-Sound tags d f =
        let both = try_platforms u t x q default_go_platforms d in
        let oses = try_oses u t x q (preferred_os_list t) d in
        let arches = try_arches u t x q (preferred_arch_list t) d in
        let has_os = tags_intersect tags known_os in
        let has_arch = tags_intersect tags known_arch in
        if-Sound (has_os && has_arch) both
          (if has_os then oses else if has_arch then arches else miss d)
          (try_platforms-Sound default_go_platforms d f)
          (if-Sound has_os oses (if has_arch then arches else miss d)
            (try_oses-Sound (preferred_os_list t) d f)
            (if-Sound has_arch arches (miss d) (try_arches-Sound (preferred_arch_list t) d f) f))
