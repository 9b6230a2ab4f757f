-- ===== src/FileName/Laws.antt =====
-- The recognized forms of a file's name, and what each of them asks of the context.
use buildutil.Base.{
  split, ℕ, Bool, true, false, ◌&&◌, ◌||◌, List, [], ◌∷◌, ◌++◌, none, some, if◌then◌else◌, codes,
  Bytes, arith, ◌≡◌, ◌≢◌, refl, ap, ◌∙◌, same, same_iff, same_refl, has, cut, split-join, join,
  Lacks, AllLack, Bool-cases, Option-cases, reverse, append_assoc, append-nil, strip, inl, inr,
}
use mathlib.Core.List.{reverse-append, reverse_aux}
use buildutil.Context.{Context}
use buildutil.Syslist.{known_os, known_arch}
use buildutil.Tags.{Tags, note, match_name, match_tag}
use buildutil.FileName.{before_dot, drop_test, match_parts, good_os_arch_file}

-- What stands behind the parts of a name: nothing, or a dot and anything.
pub data IsExtension : Bytes → Type 0 where
  no_extension : IsExtension []
  extension : (rest : Bytes) → IsExtension (b'.' ∷ rest)

cut_found :
    (sep : ℕ) (p rest : Bytes) → Lacks sep p → cut (sep ∷ []) (p ++ (sep ∷ rest)) ≡ some (p, rest)
unfolding cut strip
cut_found sep [] rest h = ground arith
cut_found sep (c ∷ p) rest h = ground (arith, cut_found sep p rest)

cut_absent : (sep : ℕ) (p : Bytes) → Lacks sep p → cut (sep ∷ []) p ≡ none
unfolding cut strip
cut_absent sep [] h = refl
cut_absent sep (c ∷ p) h = ground (arith, cut_absent sep p)

before_dot_lem :
    {ext : Bytes} (p : Bytes) → IsExtension ext → Lacks b'.' p → before_dot (p ++ ext) ≡ p
unfolding before_dot
before_dot_lem p no_extension h = rw append-nil (ground (arith, cut_absent b'.' p h))
before_dot_lem p (extension rest) h = ground (arith, cut_found b'.' p rest h)

Lacks-append : (sep : ℕ) (p q : Bytes) → Lacks sep p → Lacks sep q → Lacks sep (p ++ q)
Lacks-append sep [] q hp hq = hq
Lacks-append sep (c ∷ p) q hp hq = (hp.0, Lacks-append sep p q hp.1 hq)

Lacks-join : (sep d : ℕ) (ps : List Bytes) → sep ≢ d → AllLack d ps → Lacks d (join sep ps)
unfolding join
Lacks-join sep d [] ne h = tt
Lacks-join sep d (p ∷ []) ne h = h.0
Lacks-join sep d (p ∷ (q ∷ ps)) ne h = Lacks-append d p _ h.0 (ne, Lacks-join sep d (q ∷ ps) ne h.1)

-- The name `p_q1_..._qn` with its extension is judged by its parts behind the first `_`.
good_os_arch_file-join :
    (u : Bool) (c : Context) (p : Bytes) (qs : List Bytes) {ext : Bytes} (m : Tags)
    → qs ≢ []
    → IsExtension ext
    → AllLack b'_' (p ∷ qs)
    → AllLack b'.' (p ∷ qs)
    → good_os_arch_file u c (join b'_' (p ∷ qs) ++ ext) m
      ≡ match_parts u c (drop_test (reverse ([] ∷ qs))) m
unfolding good_os_arch_file join
good_os_arch_file-join u c p [] m ne e h d = absurd (ne refl)
good_os_arch_file-join u c p (q ∷ qs) m ne e h d = ground (
  arith,
  before_dot_lem (join b'_' (p ∷ (q ∷ qs))) e (Lacks-join b'_' b'.' (p ∷ (q ∷ qs)) (omega arith) d),
  cut_found b'_' p (join b'_' (q ∷ qs)) h.0,
  split-join b'_' ([] ∷ (q ∷ qs)) (λ n. ground arith) (tt, h.1),
)

abbrev optional_test : Bool → List Bytes
optional_test true = codes "test" ∷ []
optional_test false = []

AllLack-append :
    (sep : ℕ) (ps qs : List Bytes) → AllLack sep ps → AllLack sep qs → AllLack sep (ps ++ qs)
AllLack-append sep [] qs hp hq = hq
AllLack-append sep (p ∷ ps) qs hp hq = (hp.0, AllLack-append sep ps qs hp.1 hq)

-- `known_arch` and `known_os` do not hold the text `test`.
known-ne-test :
    (a : Bytes) → (has known_os a || has known_arch a) ≡ true → same a (codes "test") ≡ false
known-ne-test a h = elim (Bool-cases (same a (codes "test"))) [
  | inl e ↦ absurd (unknown ((same_iff a (codes "test")).0 e))
  | inr e ↦ e
]
  where
    test_unknown : (has known_os (codes "test") || has known_arch (codes "test")) ≡ false
    test_unknown = unfold has same known_os known_arch in refl

    unknown : a ≡ codes "test" → ⊥
    unknown e = cc (rw e at h, test_unknown)

-- The last of the parts, and `d` where there is none.
abbrev pub last_or : Bytes → List Bytes → Bytes
last_or d [] = d
last_or d (p ∷ ps) = last_or p ps

reverse_aux-last_or :
    (ps : List Bytes) (d : Bytes) (acc : List Bytes)
    → (l : List Bytes) × (reverse_aux ps (d ∷ acc) ≡ last_or d ps ∷ l)
reverse_aux-last_or [] d acc = (acc, refl)
reverse_aux-last_or (p ∷ ps) d acc = reverse_aux-last_or ps p (d ∷ acc)

append-ne-nil : (ps : List Bytes) (s : Bytes) (l : List Bytes) → ps ++ (s ∷ l) ≢ []
append-ne-nil [] s l e = cc
append-ne-nil (p ∷ ps) s l e = cc

drop_test_last :
    (ps : List Bytes) (s : Bytes) (test : Bool)
    → same s (codes "test") ≡ false
    → drop_test (reverse ([] ∷ (ps ++ (s ∷ optional_test test)))) ≡ s ∷ reverse ([] ∷ ps)
unfolding drop_test
drop_test_last ps s true h =
    rw (reverse-append ([] ∷ ps) (s ∷ optional_test true))
      (ground (arith, same_refl (codes "test")))
drop_test_last ps s false h =
    rw (reverse-append ([] ∷ ps) (s ∷ optional_test false)) (ground (arith, h))

module _ (u : Bool) (c : Context) (p : Bytes) (ps : List Bytes) {ext : Bytes} (m : Tags)
    (test : Bool) where
  -- A file named `p_..._os_arch` or `p_..._os_arch_test` with an extension, where `os` is a known operating
  -- system, `arch` a known architecture and no part of the name before the extension holds a `.` or a
  -- further `_`, is good exactly if the context matches both, and both are recorded. The extension is
  -- empty or begins with a `.`.
  pub good_os_arch_file_platform :
      (os arch : Bytes)
      → has known_os os ≡ true
      → has known_arch arch ≡ true
      → IsExtension ext
      → AllLack b'_' (p ∷ (ps ++ (os ∷ (arch ∷ optional_test test))))
      → AllLack b'.' (p ∷ (ps ++ (os ∷ (arch ∷ optional_test test))))
      → good_os_arch_file u c (join b'_' (p ∷ (ps ++ (os ∷ (arch ∷ optional_test test)))) ++ ext) m
        ≡ (match_name u c arch && match_name u c os, note os (note arch m))
  unfolding match_parts match_tag
  good_os_arch_file_platform os arch known_o known_a e h d =
      good_os_arch_file-join u c p _ m (append-ne-nil ps os _) e h d
      ∙ rw (both test) (ground (arith, known_o, known_a))
    where
      both :
          (t : Bool)
          → drop_test (reverse ([] ∷ (ps ++ (os ∷ (arch ∷ optional_test t)))))
            ≡ arch ∷ (os ∷ reverse ([] ∷ ps))
      both t = rw (← append_assoc ps (os ∷ []) (arch ∷ optional_test t)) (
          drop_test_last (ps ++ (os ∷ [])) arch t (known-ne-test arch (ground arith))
          ∙ ap (◌∷◌ arch) (reverse-append ([] ∷ ps) (os ∷ [])))

  -- A file whose name ends in another way is judged by its last part behind the first `_`, a `_test`
  -- taken off: a known system or architecture has to match the context, and any other part is good.
  pub good_os_arch_file_single :
      (s : Bytes)
      → (has known_os (last_or [] ps) && has known_arch s) ≡ false
      → same s (codes "test") ≡ false
      → IsExtension ext
      → AllLack b'_' (p ∷ (ps ++ (s ∷ optional_test test)))
      → AllLack b'.' (p ∷ (ps ++ (s ∷ optional_test test)))
      → good_os_arch_file u c (join b'_' (p ∷ (ps ++ (s ∷ optional_test test))) ++ ext) m
        ≡ (if has known_os s || has known_arch s then (match_name u c s, note s m) else (true, m))
  unfolding match_parts match_tag
  good_os_arch_file_single s not_both ne e h d =
      let (l, r) = reverse_aux-last_or ps [] [] in
      good_os_arch_file-join u c p _ m (append-ne-nil ps s _) e h d
      ∙ rw (drop_test_last ps s test ne) (ground (arith, r, not_both))

match_parts-answer :
    (u : Bool) (c : Context) (l : List Bytes) (m n : Tags)
    → (match_parts u c l m).0 ≡ (match_parts u c l n).0
unfolding match_parts match_tag
match_parts-answer u c [] m n = refl
match_parts-answer u c (a ∷ []) m n = ground arith
match_parts-answer u c (a ∷ (o ∷ l)) m n = ground arith

-- The answer of `goodOSArchFile` does not depend on the map.
pub good_os_arch_file-answer :
    (u : Bool) (c : Context) (name : Bytes) (m n : Tags)
    → (good_os_arch_file u c name m).0 ≡ (good_os_arch_file u c name n).0
unfolding good_os_arch_file
good_os_arch_file-answer u c name m n = elim (Option-cases (cut (b'_' ∷ []) (before_dot name))) [
  | inl missing ↦ ground (arith, missing)
  | inr ((ignored, rest), found) ↦
      ground
        (arith, found, match_parts-answer u c (drop_test (reverse (split b'_' (b'_' ∷ rest)))) m n)
]
