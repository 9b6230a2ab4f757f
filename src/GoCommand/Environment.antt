-- ===== src/GoCommand/Environment.antt =====
-- The environment of a command.
use buildutil.Base.{
  ℕ, false, not, ◌&&◌, List, ◌∷◌, Option, some, if◌then◌else◌, Bytes, codes, arith, ◌≡◌, refl, ◌∙◌,
  same, join, is_empty, Bool-cases, inl, inr, Lacks,
}
use buildutil.Context.{Context}
use buildutil.Util.Environ.{Environ, lookup, set}
use buildutil.Util.Environ.Laws.{IsKey, lookup-set}
use buildutil.GoCommand.{
  experiments, extract_tag_args, set_goroot, set_unless_empty, set_experiment, platform_env,
  set_goflags, go_command_context,
}

pub set_unless_empty_lem :
    (key value : Bytes) (e : Environ) (j : Bytes)
    → IsKey key
    → IsKey j
    → lookup (set_unless_empty key value e) j
      ≡ (if same key j && not (is_empty value) then some value else lookup e j)
unfolding set_unless_empty
set_unless_empty_lem key value e j k kj = ground (arith, lookup-set e key value j k kj)

key_lem : (c : ℕ) (s : Bytes) → Lacks b'=' (c ∷ s) → IsKey (c ∷ s)
key_lem c s h = record { key_ne_nil = λ e. ground arith; no_equals = h }

pub goroot-IsKey : IsKey (codes "GOROOT")
goroot-IsKey = key_lem _ _ (omega arith)

pub gopath-IsKey : IsKey (codes "GOPATH")
gopath-IsKey = key_lem _ _ (omega arith)

pub goos-IsKey : IsKey (codes "GOOS")
goos-IsKey = key_lem _ _ (omega arith)

pub goarch-IsKey : IsKey (codes "GOARCH")
goarch-IsKey = key_lem _ _ (omega arith)

pub cgo_enabled-IsKey : IsKey (codes "CGO_ENABLED")
cgo_enabled-IsKey = key_lem _ _ (omega arith)

pub goexperiment-IsKey : IsKey (codes "GOEXPERIMENT")
goexperiment-IsKey = key_lem _ _ (omega arith)

pub goflags-IsKey : IsKey (codes "GOFLAGS")
goflags-IsKey = key_lem _ _ (omega arith)

pub set_goroot_other :
    (c : Context) (e : Environ) (j : Bytes)
    → IsKey j
    → same (codes "GOROOT") j ≡ false
    → lookup (set_goroot c e) j ≡ lookup e j
unfolding set_goroot
set_goroot_other c e j k ne =
    ground (arith, ne, lookup-set e (codes "GOROOT") c.goroot j goroot-IsKey k)

pub set_experiment_other :
    (c : Context) (e : Environ) (j : Bytes)
    → IsKey j
    → same (codes "GOEXPERIMENT") j ≡ false
    → lookup (set_experiment c e) j ≡ lookup e j
unfolding set_experiment
set_experiment_other c e j k ne = ground (
  arith,
  ne,
  lookup-set e (codes "GOEXPERIMENT") (join b',' (experiments c.tool_tags)) j goexperiment-IsKey k,
)

pub set_goflags_other :
    (c : Context) (e : Environ) (j : Bytes)
    → IsKey j
    → same (codes "GOFLAGS") j ≡ false
    → lookup (set_goflags c e) j ≡ lookup e j
unfolding set_goflags
set_goflags_other c e j k ne = rw (lookup-set e (codes "GOFLAGS") _ j goflags-IsKey k, ne)

-- What the environment of the command has for a key other than GOROOT, GOEXPERIMENT and GOFLAGS.
abbrev pub expected : Environ → Context → Bytes → Option Bytes
expected env0 c j =
    if same (codes "CGO_ENABLED") j
    then some (if c.cgo_enabled then codes "1" else codes "0")
    else if same (codes "GOARCH") j && not (is_empty c.goarch)
    then some c.goarch
    else if same (codes "GOOS") j && not (is_empty c.goos)
    then some c.goos
    else if same (codes "GOPATH") j
    then some c.gopath
    else lookup env0 j

module _ (env0 : Environ) (c : Context) (j : Bytes) (k : IsKey j) where
  pub platform_env_lem :
      same (codes "GOROOT") j ≡ false
      → same (codes "GOEXPERIMENT") j ≡ false
      → lookup (platform_env c env0) j ≡ expected env0 c j
  unfolding platform_env
  platform_env_lem no_root no_experiment =
      let e1 = set_goroot c (set env0 (codes "GOPATH") c.gopath) in
      let e2 =
        set_unless_empty (codes "GOARCH") c.goarch (set_unless_empty (codes "GOOS") c.goos e1) in
      let cgo = if c.cgo_enabled then codes "1" else codes "0" in
      rw
        (
          set_experiment_other c (set e2 (codes "CGO_ENABLED") cgo) j k no_experiment,
          lookup-set e2 (codes "CGO_ENABLED") cgo j cgo_enabled-IsKey k,
          set_unless_empty_lem (codes "GOARCH") c.goarch _ j goarch-IsKey k,
          set_unless_empty_lem (codes "GOOS") c.goos e1 j goos-IsKey k,
          set_goroot_other c (set env0 (codes "GOPATH") c.gopath) j k no_root,
          lookup-set env0 (codes "GOPATH") c.gopath j gopath-IsKey k,
        )
        refl

  -- The command's environment has CGO_ENABLED, GOARCH, GOOS and GOPATH from the context, GOARCH and GOOS
  -- only if the context names them, and the value that it had for every other key; GOROOT, GOEXPERIMENT
  -- and GOFLAGS are left aside.
  pub go_command_context-env :
      (name : Bytes) (args : List Bytes)
      → same (codes "GOROOT") j ≡ false
      → same (codes "GOEXPERIMENT") j ≡ false
      → same (codes "GOFLAGS") j ≡ false
      → lookup (go_command_context env0 c name args).env j ≡ expected env0 c j
  unfolding go_command_context
  go_command_context-env name args no_root no_experiment no_flags =
      let lem = platform_env_lem no_root no_experiment in
      elim (Bool-cases (is_empty c.build_tags)) [
        | inl no_tags ↦ rw no_tags lem
        | inr tags ↦ elim (Bool-cases (is_empty (extract_tag_args args))) [
          | inl no_args ↦
              rw (tags, no_args) (set_goflags_other c (platform_env c env0) j k no_flags ∙ lem)
          | inr some_args ↦ rw (tags, some_args) lem
        ]
      ]
