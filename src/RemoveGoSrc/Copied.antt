-- ===== src/RemoveGoSrc/Copied.antt =====
-- What cmd/remove-go-src leaves behind where it fails.
use buildutil.Base.{
  ◌⊎◌, none, Bool, true, false, List, some, Bytes, arith, ◌≡◌, ◌≢◌, sym, refl, ◌∙◌, inl, inr,
  Option-cases, Sum-cases,
}
use buildutil.FilePath.{dir_of}
use buildutil.RemoveGoSrc.{
  SourceFile, Host, Visit, done, directive_groups, exit_copy, write_copy, copy_file, main,
}

module _ {W F R E : Type 0} (host : Host W F R E) (exists : Bytes → W → Bool) (to : Bytes)
    (mkdir_keeps : (w : W) → exists to (host.mkdir_all (dir_of to) w).1 ≡ exists to w)
    (create_excl : (w : W) (fo : F) → (host.create to w).0 ≡ inr fo → exists to w ≡ false)
    (create_keeps : (w : W) (e : E)
      → (host.create to w).0 ≡ inl e
      → exists to (host.create to w).1 ≡ exists to w)
    (removed : (w : W) → (host.remove to w).0 ≡ none → exists to (host.remove to w).1 ≡ false) where
  -- The file is not there, or it is there because `os.Remove` has failed to remove it.
  abbrev pub Gone : W → Type 0
  Gone w = (exists to w ≡ false) ⊎ ((v : W) × (x : E) × (host.remove to v ≡ (some x, w)))

  Gone-same : {v w : W} → v ≡ w → Gone w → Gone v
  Gone-same same gone = rw same gone

  exit_copy-remove :
      (fo : F) (e : E) (w : W)
      → (exit_copy host fo to e w).1 ≡ (host.remove to (host.close fo w).1).1
  unfolding exit_copy
  exit_copy-remove fo e w = refl

  remove-Gone : (w : W) → Gone (host.remove to w).1
  remove-Gone w = elim (Option-cases (host.remove to w).0) [
    | inl gone_now ↦ inl (removed w gone_now)
    | inr (x, failed) ↦ inr (w, x, ground (arith, failed))
  ]

  exit_copy-exists : (fo : F) (e : E) (w : W) → Gone (exit_copy host fo to e w).1
  exit_copy-exists fo e w = Gone-same (exit_copy-remove fo e w) (remove-Gone (host.close fo w).1)

  write_copy-exists :
      (fo : F) (file : SourceFile R) (e : E) (w : W)
      → (write_copy host fo to file w).0 ≡ some e
      → Gone (write_copy host fo to file w).1
  unfolding write_copy
  write_copy-exists fo file e w h =
      let stripped : SourceFile R = record file {
        comments = directive_groups host file.comments;
      } in
      let written = (host.format_node fo stripped w).1 in
      elim (Option-cases (host.format_node fo stripped w).0) [
        | inr (d, failed) ↦ Gone-same (ground (arith, failed)) (exit_copy-exists fo d written)
        | inl formatted ↦ elim (Option-cases (host.close fo written).0) [
          | inr (d, unclosed) ↦
              Gone-same (ground (arith, formatted, unclosed))
                (exit_copy-exists fo d (host.close fo written).1)
          | inl closed ↦ ground (arith, formatted, closed, h)
        ]
      ]

  -- What is left of the destination where `copyFile` fails: it exists if it existed before, or
  -- `os.Remove` has failed.
  abbrev pub Left : W → W → Type 0
  Left w after =
      (exists to after ≡ exists to w) ⊎ ((v : W) × (x : E) × (host.remove to v ≡ (some x, after)))

  Gone-Left : {w v after : W} → exists to w ≡ false → after ≡ v → Gone v → Left w after
  Gone-Left new same (inl gone_now) = inl (rw same (gone_now ∙ sym new))
  Gone-Left new same (inr failed) = inr (rw same failed)

  -- Where `copyFile` returns an error, its destination exists afterwards exactly if it existed before (a
  -- file that it has made is removed), unless the `os.Remove` that ends the call has failed. This takes of
  -- the system that `os.MkdirAll` of the directory does not make the file itself, that an `os.OpenFile`
  -- with `O_EXCL` opens no file that exists and makes none where it fails, and that the file is not there
  -- after an `os.Remove` that returns no error.
  pub copy_file-exists :
      (from : Bytes) (e : E) (w : W)
      → (copy_file host from to w).0 ≡ some e
      → (exists to (copy_file host from to w).1 ≡ exists to w)
        ⊎ ((v : W) × (x : E) × (host.remove to v ≡ (some x, (copy_file host from to w).1)))
  unfolding copy_file
  copy_file-exists from e w h =
      let made = (host.mkdir_all (dir_of to) w).1 in
      let at_file = (host.create to made).1 in
      elim (Option-cases (host.mkdir_all (dir_of to) w).0) [
        | inr (d, no_dir) ↦ inl (ground (arith, no_dir, mkdir_keeps w))
        | inl dir ↦ elim (Sum-cases (host.create to made).0) [
          | inl (d, unopened) ↦
              inl (ground (arith, dir, unopened, create_keeps made d unopened, mkdir_keeps w))
          | inr (fo, opened) ↦
              let new : exists to w ≡ false = sym (mkdir_keeps w) ∙ create_excl made fo opened in
              elim (Sum-cases (host.parse_file from at_file)) [
                | inl (d, unparsed) ↦
                    Gone-Left new (ground (arith, dir, opened, unparsed))
                      (exit_copy-exists fo d at_file)
                | inr (file, parsed) ↦
                    Gone-Left new (ground (arith, dir, opened, parsed))
                      (write_copy-exists fo file e at_file (ground (arith, dir, opened, parsed, h)))
              ]
        ]
      ]

-- The program never writes to a destination that exists: it ends with an error, and the file system is as
-- it was.
pub main-stat :
    {W F R E : Type 0} (host : Host W F R E) (visits : Bytes → W → List (Visit E)) (verbose : Bool)
    (from_flag to_flag to : Bytes) (w : W)
    → host.abs to_flag ≡ inr to
    → host.stat to w ≡ true
    → ((main host visits verbose from_flag to_flag w).1 ≡ w)
      × ((main host visits verbose from_flag to_flag w).0 ≢ done)
unfolding main
main-stat host visits verbose from_flag to_flag to w a there =
    elim (Sum-cases (host.abs from_flag)) [
      | inl (e, no_path) ↦ (ground (arith, no_path), λ d. ground (arith, no_path, d))
      | inr (from, path) ↦ (ground (arith, path, a, there), λ d. ground (arith, path, a, there, d))
    ]
