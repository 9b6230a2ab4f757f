-- ===== src/Platforms/Load.antt =====
-- `LoadGoPlatforms` of platform.go.
use buildutil.Base.{
  List, [], ◌∷◌, ◌++◌, Bytes, codes, Lacks, ◌==◌, arith, ◌≡◌, ◌⊎◌, if◌then◌else◌, refl, ap, inl,
  inr, Bool-cases,
}
use buildutil.Header.Space.{trim_space}
use buildutil.Platforms.{GoPlatform}

-- An error of `Cmd.Output`: an `exec.ExitError` with its text and what the command wrote to its standard
-- error, or another error with its text.
pub data CommandError : Type 0 where
  exit_error : Bytes → Bytes → CommandError
  other_error : Bytes → CommandError

-- `stderr[:i]` for the index `i` of a line feed, or the whole text.
unfoldable pub first_line : Bytes → Bytes
first_line [] = []
first_line (c ∷ s) = let rest = first_line s in if c == 10 then [] else c ∷ rest

abbrev failed_text : Bytes
failed_text = codes "buildutil: command `go tool dist list` failed: "

unfoldable pub command_text : CommandError → Bytes
unfolding first_line
command_text (exit_error text stderr) =
    failed_text ++ (text ++ (codes ": " ++ first_line (trim_space stderr)))
command_text (other_error text) = failed_text ++ text

-- `unmarshal` is `json.Unmarshal`, `output` what `Cmd.Output` returns; an error is its text.
unfoldable pub load_go_platforms :
    (unmarshal : Bytes → Bytes ⊎ List GoPlatform) (output : CommandError ⊎ Bytes)
    → Bytes ⊎ List GoPlatform
unfolding command_text
load_go_platforms unmarshal (inl e) = inl (command_text e)
load_go_platforms unmarshal (inr text) = elim (unmarshal text) [
  | inl e ↦ inl (codes "buildutil: error unmarshalling GoPlatforms: " ++ e)
  | inr ps ↦ inr ps
]

-- What stands behind the first line: nothing, or a line feed and the rest.
abbrev pub AfterLine : Bytes → Type 0
AfterLine [] = Unit
AfterLine (c ∷ s) = c ≡ 10

first_line-split :
    (s : Bytes)
    → Lacks 10 (first_line s) × ((rest : Bytes) × (s ≡ first_line s ++ rest) × AfterLine rest)
unfolding first_line
first_line-split [] = (tt, ([], refl, tt))
first_line-split (c ∷ s) =
    let (lacks, (rest, split, after)) = first_line-split s in
    elim (Bool-cases (c == 10)) [
      | inl ends ↦ rw ends (tt, (c ∷ s, refl, ground (arith, ends)))
      | inr other ↦
          rw other ((λ e. ground (arith, other, e), lacks), (rest, ap (λ t. c ∷ t) split, after))
    ]

-- Where the command fails with an `exec.ExitError`, the error of `LoadGoPlatforms` ends with the first line
-- of what the command wrote to its standard error, without the white space around it.
pub load_go_platforms-exit_error :
    (unmarshal : Bytes → Bytes ⊎ List GoPlatform) (text stderr : Bytes)
    → (l : Bytes) × (rest : Bytes) × (load_go_platforms unmarshal (inl (exit_error text stderr))
        ≡ inl (
            codes "buildutil: command `go tool dist list` failed: " ++ (text ++ (codes ": " ++ l))))
      × (trim_space stderr ≡ l ++ rest)
      × Lacks 10 l
      × AfterLine rest
unfolding load_go_platforms command_text
load_go_platforms-exit_error unmarshal text stderr =
    let (lacks, (rest, split, after)) = first_line-split (trim_space stderr) in
    (first_line (trim_space stderr), rest, refl, split, lacks, after)
