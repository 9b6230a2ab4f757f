-- ===== src/Platforms/Preferred.antt =====
-- `createPreferredList` of match.go.
use buildutil.Base.{
  false, not, ◌||◌, List, [], ◌∷◌, ◌++◌, if◌then◌else◌, arith, ◌≡◌, refl, Bytes, codes, same,
  same_iff, has, put, Keys, has-append, map, ◌∙◌, Bool-cases, inl, inr,
}
use buildutil.Context.{Toolchain}
use buildutil.Platforms.{GoPlatform, default_go_platforms}

-- The state of both loops: the map `seen` and the slice `a`.
pub record Seen : Type 0 where
  pub seen : Keys
  pub a : List Bytes

-- The body of both loops.
visit : Seen → Bytes → Seen
unfolding has put
visit st s =
    if not (has st.seen s) then record { seen = put s st.seen; a = st.a ++ (s ∷ []) } else st

visit_strings : List Bytes → Seen → Seen
visit_strings [] st = st
visit_strings (s ∷ orig) st = visit_strings orig (visit st s)

visit_platforms : (GoPlatform → Bytes) → List GoPlatform → Seen → Seen
visit_platforms fn [] st = st
visit_platforms fn (p ∷ ps) st = visit_platforms fn ps (visit st (fn p))

-- `createPreferredList`
unfoldable pub create_preferred_list : List Bytes → (GoPlatform → Bytes) → List Bytes
unfolding visit visit_strings visit_platforms
create_preferred_list orig fn =
    (visit_platforms fn default_go_platforms (visit_strings orig (record { seen = []; a = [] }))).a

-- `PreferredOSList`
unfoldable pub preferred_os_list : Toolchain → List Bytes
preferred_os_list t =
    create_preferred_list
      (t.goos
        ∷ (codes "darwin"
            ∷ (codes "linux"
                ∷ (codes "windows"
                    ∷ (codes "openbsd" ∷ (codes "freebsd" ∷ (codes "netbsd" ∷ [])))))))
      (λ p. p.goos)

-- `PreferredArchList`
unfoldable pub preferred_arch_list : Toolchain → List Bytes
preferred_arch_list t =
    create_preferred_list
      (t.goarch
        ∷ (codes "amd64" ∷ (codes "arm64" ∷ (codes "arm" ∷ (codes "386" ∷ (codes "ppc64" ∷ []))))))
      (λ p. p.goarch)

-- No string stands twice.
abbrev pub NoRepeat : List Bytes → Type 0
NoRepeat [] = Unit
NoRepeat (s ∷ l) = (has l s ≡ false) × NoRepeat l

NoRepeat-concat :
    (l : List Bytes) (s : Bytes) → NoRepeat l → has l s ≡ false → NoRepeat (l ++ (s ∷ []))
unfolding has
NoRepeat-concat [] s n h = (refl, tt)
NoRepeat-concat (x ∷ l) s n h = (
  ground (arith, has-append l (s ∷ []) x, same_iff s x, same_iff x s),
  NoRepeat-concat l s n.1 (ground arith),
)

-- The map holds what the slice holds, and the slice has no string twice.
record Inv (st : Seen) : Type 0 where
  seen_is_a : st.seen ≡ st.a
  no_repeat : NoRepeat st.a

visit-Inv : (st : Seen) (s : Bytes) → Inv st → Inv (visit st s)
unfolding visit
visit-Inv st s i = elim (Bool-cases (has st.seen s)) [
  | inl old ↦ rw (old, visit) i
  | inr new ↦
      rw (new, visit)
        (record {
          seen_is_a = ground (arith, i.seen_is_a);
          no_repeat = NoRepeat-concat st.a s i.no_repeat (ground (arith, i.seen_is_a));
        })
]

has-visit : (st : Seen) (s k : Bytes) → Inv st → has (visit st s).a k ≡ (has st.a k || same s k)
unfolding visit has
has-visit st s k i = ground (arith, has-append st.a (s ∷ []) k, same_iff s k, i.seen_is_a)

module _ (k : Bytes) where
  visit_strings_lem :
      (l : List Bytes) (st : Seen)
      → Inv st
      → Inv (visit_strings l st) × (has (visit_strings l st).a k ≡ (has st.a k || has l k))
  unfolding visit_strings has
  visit_strings_lem [] st i = (i, ground arith)
  visit_strings_lem (s ∷ l) st i =
      let (j, e) = visit_strings_lem l (visit st s) (visit-Inv st s i) in
      (j, ground (arith, e, has-visit st s k i))

  visit_platforms_lem :
      (fn : GoPlatform → Bytes) (ps : List GoPlatform) (st : Seen)
      → Inv st
      → Inv (visit_platforms fn ps st)
        × (has (visit_platforms fn ps st).a k ≡ (has st.a k || has (map fn ps) k))
  unfolding visit_platforms has
  visit_platforms_lem fn [] st i = (i, ground arith)
  visit_platforms_lem fn (p ∷ ps) st i =
      let (j, e) = visit_platforms_lem fn ps (visit st (fn p)) (visit-Inv st (fn p) i) in
      (j, ground (arith, e, has-visit st (fn p) k i))

-- A preferred list holds each of the given strings and each string that `fn` reads off a platform of
-- `DefaultGoPlatforms`, nothing else, and none of them twice.
pub create_preferred_list_lem :
    (orig : List Bytes) (fn : GoPlatform → Bytes) (k : Bytes)
    → (has (create_preferred_list orig fn) k ≡ (has orig k || has (map fn default_go_platforms) k))
      × NoRepeat (create_preferred_list orig fn)
unfolding create_preferred_list
create_preferred_list_lem orig fn k =
    let start : Inv (record { seen = []; a = [] }) = record { seen_is_a = refl; no_repeat = tt } in
    let (i, e) = visit_strings_lem k orig (record { seen = []; a = [] }) start in
    let (j, d) = visit_platforms_lem k fn default_go_platforms _ i in
    (d ∙ rw e (unfold has in refl), j.no_repeat)
