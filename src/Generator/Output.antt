-- ===== src/Generator/Output.antt =====
-- The end of `main` in genplatforms.go: how the printed text gets into the file.
pub mod Whole
use buildutil.Base.{
  Bool, true, false, List, [], ◌∷◌, ◌++◌, Option, none, some, if◌then◌else◌, Bytes, codes, same,
  arith, ◌≡◌, ◌≢◌, ◌⊎◌, refl, sym, ap, ◌∙◌, inl, inr, Option-cases,
}
use buildutil.Paths.{split_path}

-- What it calls: `W` is the state of the file system and of the output, `F` an open file, `E` an error.
pub record Disk (W F E : Type 0) : Type 0 where
  -- `format.Source`
  pub format_source : Bytes → E ⊎ Bytes
  pub print : Bytes → W → Option E × W
  pub create_temp : Bytes → Bytes → W → (E ⊎ F) × W
  pub file_name : F → Bytes
  pub chmod : F → W → Option E × W
  pub write : F → Bytes → W → Option E × W
  pub close : F → W → Option E × W
  pub remove : Bytes → W → Option E × W
  pub rename : Bytes → Bytes → W → Option E × W

pub data Ending (E : Type 0) : Type 0 where
  finished : Ending E
  fatal : E → Ending E

module _ {W F E : Type 0} (disk : Disk W F E) where
  -- `log.Fatal(exit(err))`: it ignores the errors of `Close` and of `os.Remove`.
  unfoldable pub give_up : F → E → W → Ending E × W
  give_up f e w =
      let (ignored, closed) = disk.close f w in
      let (kept, removed) = disk.remove (disk.file_name f) closed in (fatal e, removed)

  -- An operation on the temporary file, and what follows it.
  abbrev pub or_give_up : F → Option E × W → (W → Ending E × W) → Ending E × W
  or_give_up f (some e, w) next = give_up f e w
  or_give_up f (none, w) next = next w

  -- What follows `os.CreateTemp`.
  unfoldable pub fill_temp : F → Bytes → Bytes → W → Ending E × W
  fill_temp f source out w = or_give_up f (disk.chmod f w) (λ w.
      or_give_up f (disk.write f source w) (λ w.
        or_give_up f (disk.close f w)
          (λ w. or_give_up f (disk.rename (disk.file_name f) out w) (λ w. (finished, w)))))

  abbrev pub on_created : Bytes → Bytes → (E ⊎ F) × W → Ending E × W
  on_created source out (inl e, w) = (fatal e, w)
  on_created source out (inr f, w) = fill_temp f source out w

  abbrev pub on_printed : Option E × W → Ending E × W
  on_printed (some e, w) = (fatal e, w)
  on_printed (none, w) = (finished, w)

  abbrev pub on_formatted : Bytes → W → E ⊎ Bytes → Ending E × W
  on_formatted out w (inl e) = (fatal e, w)
  on_formatted out w (inr source) =
      if same out (codes "-")
      then on_printed (disk.print source w)
      else let (dir, name) = split_path out in
        on_created source out (disk.create_temp dir (name ++ codes ".*") w)

  -- From `format.Source` to the end; `out` is the flag `out`.
  unfoldable pub write_output : Bytes → Bytes → W → Ending E × W
  write_output out text w = on_formatted out w (disk.format_source text)
