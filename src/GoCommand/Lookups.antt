-- ===== src/GoCommand/Lookups.antt =====
-- What the variables of the environment are that `GoCommandContext` of gocommand.go makes.
use buildutil.Base.{
  ◌||◌, false, not, List, ◌∷◌, ◌++◌, Option, some, if◌then◌else◌, Bytes, codes, arith, ◌≡◌, refl,
  ◌∙◌, ap, same, same_refl, same_iff, join, is_empty, Bool-cases, Option-cases, inl, inr,
}
use buildutil.Context.{Context}
use buildutil.Util.Environ.{Environ, lookup, set}
use buildutil.Util.Environ.Laws.{IsKey, lookup-set}
use buildutil.GoCommand.Environment.{
  goroot-IsKey, gopath-IsKey, goos-IsKey, goarch-IsKey, cgo_enabled-IsKey, goexperiment-IsKey,
  goflags-IsKey, set_unless_empty_lem, set_goroot_other, set_experiment_other, set_goflags_other,
  platform_env_lem,
}
use buildutil.GoCommand.{
  value_or_empty, experiments, extract_tag_args, set_goroot, set_unless_empty, set_experiment,
  platform_env, set_goflags, go_command_context,
}

-- GOFLAGS with the build tags behind the flags that it has.
abbrev pub flags_with : Option Bytes → List Bytes → Bytes
flags_with flags tags =
    let s = value_or_empty flags in
    let t = codes "-tags=" ++ join b',' tags in if not (is_empty s) then s ++ (b' ' ∷ t) else t

module _ (env0 : Environ) (c : Context) where
  platform_env-goflags :
      lookup (platform_env c env0) (codes "GOFLAGS") ≡ lookup env0 (codes "GOFLAGS")
  platform_env-goflags =
      platform_env_lem env0 c (codes "GOFLAGS") goflags-IsKey (unfold same in refl)
        (unfold same in refl)
      ∙ (unfold same in refl)

  set_goflags-goflags :
      (e : Environ)
      → lookup (set_goflags c e) (codes "GOFLAGS")
        ≡ some (flags_with (lookup e (codes "GOFLAGS")) c.build_tags)
  unfolding set_goflags
  set_goflags-goflags e =
      rw
        (
          lookup-set e (codes "GOFLAGS") _ (codes "GOFLAGS") goflags-IsKey goflags-IsKey,
          same_refl (codes "GOFLAGS"),
        )
        refl

  set_experiment-goexperiment :
      (e : Environ)
      → lookup (set_experiment c e) (codes "GOEXPERIMENT") ≡ (
          if is_empty c.tool_tags
          then lookup e (codes "GOEXPERIMENT")
          else some (join b',' (experiments c.tool_tags)))
  unfolding set_experiment
  set_experiment-goexperiment e = ground (
    arith,
    same_refl (codes "GOEXPERIMENT"),
    lookup-set e (codes "GOEXPERIMENT") (join b',' (experiments c.tool_tags)) (codes "GOEXPERIMENT")
        goexperiment-IsKey goexperiment-IsKey,
  )

  set_goroot-goroot :
      (e : Environ)
      → lookup (set_goroot c e) (codes "GOROOT") ≡ (
          if is_empty (value_or_empty (lookup e (codes "GOROOT")))
          then lookup e (codes "GOROOT")
          else some c.goroot)
  unfolding set_goroot
  set_goroot-goroot e = elim (Option-cases (lookup e (codes "GOROOT"))) [
    | inl unset ↦ ground (arith, unset)
    | inr (v, found) ↦ ground (
      arith,
      found,
      same_iff v c.goroot,
      same_refl (codes "GOROOT"),
      lookup-set e (codes "GOROOT") c.goroot (codes "GOROOT") goroot-IsKey goroot-IsKey,
    )
  ]

  -- The environment before GOEXPERIMENT is set.
  abbrev before_experiment : Environ
  before_experiment =
      let e1 = set_goroot c (set env0 (codes "GOPATH") c.gopath) in
      let e2 =
        set_unless_empty (codes "GOARCH") c.goarch (set_unless_empty (codes "GOOS") c.goos e1) in
      set e2 (codes "CGO_ENABLED") (if c.cgo_enabled then codes "1" else codes "0")

  before_experiment_other :
      (j : Bytes)
      → IsKey j
      → same (codes "CGO_ENABLED") j ≡ false
      → same (codes "GOARCH") j ≡ false
      → same (codes "GOOS") j ≡ false
      → lookup before_experiment j ≡ lookup (set_goroot c (set env0 (codes "GOPATH") c.gopath)) j
  before_experiment_other j k no_cgo no_arch no_os =
      let e1 = set_goroot c (set env0 (codes "GOPATH") c.gopath) in
      let e2 =
        set_unless_empty (codes "GOARCH") c.goarch (set_unless_empty (codes "GOOS") c.goos e1) in
      let cgo = if c.cgo_enabled then codes "1" else codes "0" in
      rw
        (
          lookup-set e2 (codes "CGO_ENABLED") cgo j cgo_enabled-IsKey k,
          set_unless_empty_lem (codes "GOARCH") c.goarch _ j goarch-IsKey k,
          set_unless_empty_lem (codes "GOOS") c.goos e1 j goos-IsKey k,
          no_cgo,
          no_arch,
          no_os,
        )
        refl

  platform_env-goexperiment : lookup (platform_env c env0) (codes "GOEXPERIMENT") ≡ (
      if is_empty c.tool_tags
      then lookup env0 (codes "GOEXPERIMENT")
      else some (join b',' (experiments c.tool_tags)))
  unfolding platform_env same
  platform_env-goexperiment =
      let j = codes "GOEXPERIMENT" in
      let k = goexperiment-IsKey in
      let kept : lookup before_experiment j ≡ lookup env0 j =
        before_experiment_other j k refl refl refl
        ∙ set_goroot_other c (set env0 (codes "GOPATH") c.gopath) j k refl
        ∙ lookup-set env0 (codes "GOPATH") c.gopath j gopath-IsKey k in
      let experiment = set_experiment-goexperiment before_experiment in rw kept at experiment

  platform_env-goroot : lookup (platform_env c env0) (codes "GOROOT") ≡ (
      if is_empty (value_or_empty (lookup env0 (codes "GOROOT")))
      then lookup env0 (codes "GOROOT")
      else some c.goroot)
  unfolding platform_env same
  platform_env-goroot =
      let j = codes "GOROOT" in
      let k = goroot-IsKey in
      let path_kept : lookup (set env0 (codes "GOPATH") c.gopath) j ≡ lookup env0 j =
        lookup-set env0 (codes "GOPATH") c.gopath j gopath-IsKey k in
      let root = set_goroot-goroot (set env0 (codes "GOPATH") c.gopath) in
      set_experiment_other c before_experiment j k refl
      ∙ before_experiment_other j k refl refl refl
      ∙ (rw path_kept at root)

  -- What the command's environment has for GOFLAGS: what it had, if the context has no build tags or the
  -- arguments have tags of their own, and otherwise that with the build tags behind it.
  abbrev pub expected_goflags : List Bytes → Option Bytes
  expected_goflags args =
      if is_empty c.build_tags || not (is_empty (extract_tag_args args))
      then lookup env0 (codes "GOFLAGS")
      else some (flags_with (lookup env0 (codes "GOFLAGS")) c.build_tags)

  pub go_command_context-lookup :
      (name : Bytes) (args : List Bytes)
      → (lookup (go_command_context env0 c name args).env (codes "GOROOT") ≡ (
          if is_empty (value_or_empty (lookup env0 (codes "GOROOT")))
          then lookup env0 (codes "GOROOT")
          else some c.goroot))
        × (lookup (go_command_context env0 c name args).env (codes "GOEXPERIMENT") ≡ (
            if is_empty c.tool_tags
            then lookup env0 (codes "GOEXPERIMENT")
            else some (join b',' (experiments c.tool_tags))))
        × (lookup (go_command_context env0 c name args).env (codes "GOFLAGS")
            ≡ expected_goflags args)
  unfolding go_command_context same
  go_command_context-lookup name args =
      let root = platform_env-goroot in
      let experiment = platform_env-goexperiment in
      let flags = platform_env-goflags in
      let e = platform_env c env0 in
      elim (Bool-cases (is_empty c.build_tags)) [
        | inl no_tags ↦ rw no_tags (root, experiment, flags)
        | inr tags ↦ elim (Bool-cases (is_empty (extract_tag_args args))) [
          | inr some_args ↦ rw (tags, some_args) (root, experiment, flags)
          | inl no_args ↦
              rw (tags, no_args)
                (
                  set_goflags_other c e (codes "GOROOT") goroot-IsKey refl ∙ root,
                  set_goflags_other c e (codes "GOEXPERIMENT") goexperiment-IsKey refl ∙ experiment,
                  set_goflags-goflags e ∙ ap (λ o. some (flags_with o c.build_tags)) flags,
                )
        ]
      ]
