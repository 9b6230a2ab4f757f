-- ===== src/GoCommand/Settings.antt =====
-- GOFLAGS, GOEXPERIMENT and GOROOT in the environment that `GoCommandContext` of gocommand.go makes.
use buildutil.Base.{
  [], none, strip, strip-append, strip-eq-some, ◌≢◌, ◌⊎◌, false, List, ◌∷◌, ◌++◌, some, Bytes,
  codes, arith, ◌≡◌, refl, ◌∙◌, join, is_empty, Option-cases, inl, inr,
}
use buildutil.Context.{Context}
use buildutil.Util.Environ.{Environ, lookup}
use buildutil.GoCommand.{experiments, extract_tag_args, go_command_context}
use buildutil.GoCommand.Lookups.{go_command_context-lookup}

-- The experiments among the tags: the texts behind `goexperiment.`, in their order.
pub data Experiments : List Bytes → List Bytes → Type 0 where
  no_tag : Experiments [] []
  taken :
      {tags names : List Bytes} (name : Bytes)
      → Experiments tags names
      → Experiments ((codes "goexperiment." ++ name) ∷ tags) (name ∷ names)
  passed :
      {tags names : List Bytes} (tag : Bytes)
      → ((name : Bytes) → tag ≢ codes "goexperiment." ++ name)
      → Experiments tags names
      → Experiments (tag ∷ tags) names

experiments-Experiments : (tags : List Bytes) → Experiments tags (experiments tags)
unfolding experiments strip
experiments-Experiments [] = no_tag
experiments-Experiments (s ∷ tags) =
    let rest = experiments-Experiments tags in
    elim (Option-cases (strip (codes "goexperiment.") s)) [
      | inl absent ↦ rw absent (passed s (λ name q. no_experiment s name absent q) rest)
      | inr (name, found) ↦
          let split : s ≡ codes "goexperiment." ++ name =
            strip-eq-some (codes "goexperiment.") s name found in
          rw found (rw split (taken name rest))
    ]
  where
    no_experiment :
        (s name : Bytes)
        → strip (codes "goexperiment.") s ≡ none
        → s ≢ codes "goexperiment." ++ name
    no_experiment s name absent q =
        let found = strip-append (codes "goexperiment.") name in
        let other = rw q at absent in ground (arith, found, other)

-- What an environment has, beside the one that it is made from, for a context and arguments.
pub record Settings (env0 : Environ) (c : Context) (args : List Bytes) (env : Environ)
    : Type 0 where
  pub goroot_set :
      (s : Bytes)
      → lookup env0 (codes "GOROOT") ≡ some s
      → s ≢ []
      → lookup env (codes "GOROOT") ≡ some c.goroot
  pub goroot_empty :
      (lookup env0 (codes "GOROOT") ≡ none) ⊎ (lookup env0 (codes "GOROOT") ≡ some [])
      → lookup env (codes "GOROOT") ≡ lookup env0 (codes "GOROOT")
  pub no_tool_tags :
      c.tool_tags ≡ [] → lookup env (codes "GOEXPERIMENT") ≡ lookup env0 (codes "GOEXPERIMENT")
  pub tool_tags :
      c.tool_tags ≢ []
      → (names : List Bytes) × Experiments c.tool_tags names
        × (lookup env (codes "GOEXPERIMENT") ≡ some (join b',' names))
  pub no_build_tags :
      c.build_tags ≡ [] → lookup env (codes "GOFLAGS") ≡ lookup env0 (codes "GOFLAGS")
  pub tags_given :
      extract_tag_args args ≢ [] → lookup env (codes "GOFLAGS") ≡ lookup env0 (codes "GOFLAGS")
  pub more_flags :
      c.build_tags ≢ []
      → extract_tag_args args ≡ []
      → (s : Bytes) → lookup env0 (codes "GOFLAGS") ≡ some s
      → s ≢ []
      → lookup env (codes "GOFLAGS") ≡ some (s ++ (codes " -tags=" ++ join b',' c.build_tags))
  pub first_flags :
      c.build_tags ≢ []
      → extract_tag_args args ≡ []
      → (lookup env0 (codes "GOFLAGS") ≡ none) ⊎ (lookup env0 (codes "GOFLAGS") ≡ some [])
      → lookup env (codes "GOFLAGS") ≡ some (codes "-tags=" ++ join b',' c.build_tags)

is_empty-false : {A : Type 0} (xs : List A) → xs ≢ [] → is_empty xs ≡ false
is_empty-false [] h = absurd (h refl)
is_empty-false (x ∷ xs) h = refl

module _ (env0 : Environ) (c : Context) where
  -- In the command's environment GOROOT is that of the context if it was set to a text that is not empty,
  -- and is left alone if not; GOEXPERIMENT has the experiments among the tool tags of the context (the
  -- texts behind `goexperiment.`, with commas between them) if the context has tool tags, and is left
  -- alone if not; and GOFLAGS gets `-tags=` with the build tags, behind the flags that it had and a space
  -- if there were any, if the context has build tags and `extractTagArgs` finds none in the arguments, and
  -- is left alone if not.
  pub go_command_context-Settings :
      (name : Bytes) (args : List Bytes)
      → Settings env0 c args (go_command_context env0 c name args).env
  go_command_context-Settings name args =
      let (root, experiment, flags) = go_command_context-lookup env0 c name args in
      record {
        goroot_set = λ s q ne. root ∙ rw (q, is_empty-false s ne) refl;
        goroot_empty = λ o. elim o [ inl q ↦ root ∙ rw q refl | inr q ↦ root ∙ rw q refl ];
        no_tool_tags = λ q. experiment ∙ rw q refl;
        tool_tags = λ ne. (
          experiments c.tool_tags,
          experiments-Experiments c.tool_tags,
          experiment ∙ rw (is_empty-false c.tool_tags ne) refl,
        );
        no_build_tags = λ q. flags ∙ rw q refl;
        tags_given = λ ne. flags ∙ ground (arith, is_empty-false (extract_tag_args args) ne);
        more_flags = λ ne q s had some_s.
            flags ∙ rw (is_empty-false c.build_tags ne, q, had, is_empty-false s some_s) refl;
        first_flags = λ ne q o. elim o [
          | inl had ↦ flags ∙ rw (is_empty-false c.build_tags ne, q, had) refl
          | inr had ↦ flags ∙ rw (is_empty-false c.build_tags ne, q, had) refl
        ];
      }
