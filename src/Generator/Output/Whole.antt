-- ===== src/Generator/Output/Whole.antt =====
-- The content of the output file of genplatforms.go.
use buildutil.Base.{
  ℕ, length, [], false, ◌++◌, Option, none, some, Bytes, codes, same, ◌≡◌, ◌≢◌, ◌⊎◌, refl, ◌∙◌, inl,
  inr,
}
use buildutil.Paths.{split_path}
use buildutil.Generator.Output.{
  Disk, Ending, finished, fatal, give_up, or_give_up, fill_temp, on_created, on_formatted,
  write_output,
}

module _ {W F E : Type 0} (disk : Disk W F E) (content : Bytes → W → Option Bytes)
    (position : F → W → ℕ) (out : Bytes)
    (create_apart : (dir pattern : Bytes) (w : W)
      → content out (disk.create_temp dir pattern w).1 ≡ content out w)
    (temp_apart : (dir pattern : Bytes) (w : W) (f : F)
      → (disk.create_temp dir pattern w).0 ≡ inr f
      → disk.file_name f ≢ out)
    (chmod_apart : (f : F) (w : W)
      → disk.file_name f ≢ out
      → content out (disk.chmod f w).1 ≡ content out w)
    (write_apart : (f : F) (s : Bytes) (w : W)
      → disk.file_name f ≢ out
      → content out (disk.write f s w).1 ≡ content out w)
    (close_apart : (f : F) (w : W)
      → disk.file_name f ≢ out
      → content out (disk.close f w).1 ≡ content out w)
    (remove_apart : (p : Bytes) (w : W) → p ≢ out → content out (disk.remove p w).1 ≡ content out w)
    (created : (dir pattern : Bytes) (w : W) (f : F)
      → (disk.create_temp dir pattern w).0 ≡ inr f
      → (content (disk.file_name f) (disk.create_temp dir pattern w).1 ≡ some [])
        × (position f (disk.create_temp dir pattern w).1 ≡ 0))
    (chmod_keeps : (f : F) (w : W)
      → (content (disk.file_name f) (disk.chmod f w).1 ≡ content (disk.file_name f) w)
        × (position f (disk.chmod f w).1 ≡ position f w))
    (written : (f : F) (s t : Bytes) (w : W)
      → content (disk.file_name f) w ≡ some s
      → position f w ≡ length s
      → (disk.write f t w).0 ≡ none
      → content (disk.file_name f) (disk.write f t w).1 ≡ some (s ++ t))
    (close_keeps : (f : F) (w : W)
      → content (disk.file_name f) (disk.close f w).1 ≡ content (disk.file_name f) w)
    (rename_fails : (p : Bytes) (w : W) (e : E)
      → (disk.rename p out w).0 ≡ some e
      → content out (disk.rename p out w).1 ≡ content out w)
    (rename_moves : (p : Bytes) (w : W)
      → (disk.rename p out w).0 ≡ none
      → content out (disk.rename p out w).1 ≡ content p w) where
  -- The file has the source at the end, or it has what it had.
  abbrev Replaced : Bytes → Option Bytes → Ending E × W → Type 0
  Replaced source before (fatal e, w) = content out w ≡ before
  Replaced source before (finished, w) = content out w ≡ some source

  give_up-Replaced :
      (f : F) (e : E) (w : W) (source : Bytes)
      → disk.file_name f ≢ out
      → Replaced source (content out w) (give_up disk f e w)
  unfolding give_up
  give_up-Replaced f e w source apart =
      remove_apart (disk.file_name f) (disk.close f w).1 apart ∙ close_apart f w apart

  or_give_up-Replaced :
      (f : F) (source : Bytes) (before : Option Bytes) (r : Option E × W) (next : W → Ending E × W)
      → disk.file_name f ≢ out
      → ((e : E) → r.0 ≡ some e → content out r.1 ≡ before)
      → (r.0 ≡ none → Replaced source before (next r.1))
      → Replaced source before (or_give_up disk f r next)
  or_give_up-Replaced f source before (some e, w) next apart kept n =
      rw (kept e refl) at (give_up-Replaced f e w source apart)
  or_give_up-Replaced f source before (none, w) next apart kept n = n refl

  fill_temp-Replaced :
      (f : F) (source : Bytes) (w : W)
      → disk.file_name f ≢ out
      → content (disk.file_name f) w ≡ some []
      → position f w ≡ 0
      → Replaced source (content out w) (fill_temp disk f source out w)
  unfolding fill_temp
  fill_temp-Replaced f source w apart empty start =
      let before = content out w in
      let a = (disk.chmod f w).1 in
      let b = (disk.write f source a).1 in
      let c = (disk.close f b).1 in
      let kept_a : content out a ≡ before = chmod_apart f w apart in
      let kept_b : content out b ≡ before = write_apart f source a apart ∙ kept_a in
      let kept_c : content out c ≡ before = close_apart f b apart ∙ kept_b in
      or_give_up-Replaced f source before (disk.chmod f w) _ apart (λ e h. kept_a)
        (λ h.
          or_give_up-Replaced f source before (disk.write f source a) _ apart (λ e h. kept_b)
            (λ put.
              or_give_up-Replaced f source before (disk.close f b) _ apart (λ e h. kept_c)
                (λ h.
                  or_give_up-Replaced f source before (disk.rename (disk.file_name f) out c) _ apart
                    (λ e h. rename_fails (disk.file_name f) c e h ∙ kept_c)
                    (λ moved.
                      rename_moves (disk.file_name f) c moved
                      ∙ close_keeps f b
                      ∙ written f [] source a ((chmod_keeps f w).0 ∙ empty)
                          ((chmod_keeps f w).1 ∙ start) put))))

  on_created-Replaced :
      (source : Bytes) (before : Option Bytes) (r : (E ⊎ F) × W)
      → content out r.1 ≡ before
      → ((f : F)
          → r.0 ≡ inr f
          → (disk.file_name f ≢ out)
            × (content (disk.file_name f) r.1 ≡ some [])
            × (position f r.1 ≡ 0))
      → Replaced source before (on_created disk source out r)
  on_created-Replaced source before (inl e, w) kept new = kept
  on_created-Replaced source before (inr f, w) kept new =
      let (apart, empty, start) = new f refl in
      rw kept at (fill_temp-Replaced f source w apart empty start)

  abbrev Whole : E ⊎ Bytes → Option Bytes → Ending E × W → Type 0
  Whole r before (fatal e, w) = content out w ≡ before
  Whole r before (finished, w) = (source : Bytes) × (r ≡ inr source) × (content out w ≡ some source)

  Replaced-Whole :
      (source : Bytes) (before : Option Bytes) (x : Ending E × W)
      → Replaced source before x
      → Whole (inr source) before x
  Replaced-Whole source before (fatal e, w) h = h
  Replaced-Whole source before (finished, w) h = (source, refl, h)

  on_formatted-Whole :
      (r : E ⊎ Bytes) (w : W)
      → same out (codes "-") ≡ false
      → Whole r (content out w) (on_formatted disk out w r)
  on_formatted-Whole (inl e) w file = refl
  on_formatted-Whole (inr source) w file =
      let (dir, name) = split_path out in
      let made = disk.create_temp dir (name ++ codes ".*") w in
      rw file (
        Replaced-Whole source (content out w) (on_created disk source out made) (
          on_created-Replaced source (content out w) made (create_apart dir (name ++ codes ".*") w)
            (λ f q.
              let (empty, start) = created dir (name ++ codes ".*") w f q in
              (temp_apart dir (name ++ codes ".*") w f q, empty, start))))

  Whole-cases :
      (r : E ⊎ Bytes) (before : Option Bytes) (x : Ending E × W)
      → Whole r before x
      → (x.0 ≡ finished → (source : Bytes) × (r ≡ inr source) × (content out x.1 ≡ some source))
        × (x.0 ≢ finished → content out x.1 ≡ before)
  Whole-cases r before (fatal e, w) h = (λ q. cc, λ q. h)
  Whole-cases r before (finished, w) h = (λ q. h, λ q. absurd (q refl))

  -- The output file is replaced as a whole or left as it was: if the program ends well, `format.Source` has
  -- returned a text and the file has that text; if it ends with an error, the file has the content it had.
  -- This is for a file, not for `-`, and takes of the system that the temporary file is another one than
  -- the output file and starts empty, with the position of the open file at 0, that operations on one file
  -- leave the others alone, that `Chmod` and `Close` leave the content alone, that a write without an error
  -- at the end of a file puts the text behind what the file has, and that a renaming moves a file or, where
  -- it fails, does nothing to the output file.
  pub write_output-whole :
      (text : Bytes) (w : W)
      → same out (codes "-") ≡ false
      → ((write_output disk out text w).0 ≡ finished
          → (source : Bytes) × (disk.format_source text ≡ inr source)
            × (content out (write_output disk out text w).1 ≡ some source))
        × ((write_output disk out text w).0 ≢ finished
            → content out (write_output disk out text w).1 ≡ content out w)
  write_output-whole text w file =
      let r = disk.format_source text in
      unfold write_output in
      Whole-cases r (content out w) (on_formatted disk out w r) (on_formatted-Whole r w file)
