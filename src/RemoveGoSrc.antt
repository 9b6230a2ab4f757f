-- ===== src/RemoveGoSrc.antt =====
-- cmd/remove-go-src/main.go: a copy of a tree of Go files that keeps, of each file for which build
-- constraints matter, the package clause and the comments with build constraints.
pub mod Pattern
pub mod Directives
pub mod Included
pub mod Copied
use buildutil.Base.{
  Bool, true, false, not, ◌&&◌, ◌||◌, List, [], ◌∷◌, ◌++◌, Option, none, some, if◌then◌else◌, Bytes,
  codes, same, is_empty, ◌⊎◌, inl, inr,
}
use buildutil.FilePath.{dir_of, base_of, join_path, ext_of}
use buildutil.RemoveGoSrc.Pattern.{os_arch_match, go_build_match}

-- A file that has been parsed up to its package clause: the texts of the comments in each of its groups,
-- and what else `format.Node` prints.
pub record SourceFile (R : Type 0) : Type 0 where
  pub comments : List (List Bytes)
  pub rest : R

-- What the program calls: `W` is the state of the file system and of the standard streams, `F` an open
-- file, `R` the rest of a parsed file and `E` an error.
pub record Host (W F R E : Type 0) : Type 1 where
  pub mkdir_all : Bytes → W → Option E × W
  -- `os.OpenFile` with the flags `O_CREATE|O_EXCL|O_TRUNC|O_WRONLY`.
  pub create : Bytes → W → (E ⊎ F) × W
  pub parse_file : Bytes → W → E ⊎ SourceFile R
  pub format_node : F → SourceFile R → W → Option E × W
  pub close : F → W → Option E × W
  pub remove : Bytes → W → Option E × W
  -- The content of a file, none where it cannot be opened.
  pub read : Bytes → W → Option Bytes
  pub print : Bytes → W → W
  pub abs : Bytes → E ⊎ Bytes
  pub rel : Bytes → Bytes → E ⊎ Bytes
  -- `os.Stat` returns no error.
  pub stat : Bytes → W → Bool
  -- `constraint.IsGoBuild` and `constraint.IsPlusBuild`
  pub is_go_build : Bytes → Bool
  pub is_plus_build : Bytes → Bool

-- What `filepath.WalkDir` hands to its function.
pub record Visit (E : Type 0) : Type 0 where
  pub path : Bytes
  pub is_regular : Bool
  pub error : Option E

-- How the program ends.
pub data Exit (E : Type 0) : Type 0 where
  done : Exit E
  fatal_text : Bytes → Exit E
  fatal : E → Exit E

module _ {W F R E : Type 0} (host : Host W F R E) where
  -- `hasBuildDirective`
  unfoldable pub has_build_directive : List Bytes → Bool
  has_build_directive [] = false
  has_build_directive (c ∷ g) =
      let rest = has_build_directive g in
      if host.is_go_build c || host.is_plus_build c then true else rest

  -- The loop of `copyFile` over the groups of comments.
  unfoldable pub directive_groups : List (List Bytes) → List (List Bytes)
  directive_groups [] = []
  directive_groups (g ∷ gs) =
      let rest = directive_groups gs in if has_build_directive g then g ∷ rest else rest

  -- The function `exit` of `copyFile`: it ignores the errors of `Close` and of `os.Remove`.
  unfoldable pub exit_copy : F → Bytes → E → W → Option E × W
  exit_copy fo to e w =
      let (ignored, closed) = host.close fo w in
      let (kept, removed) = host.remove to closed in (some e, removed)

  -- The end of `copyFile`, from the parsed file on.
  unfoldable pub write_copy : F → Bytes → SourceFile R → W → Option E × W
  unfolding exit_copy
  write_copy fo to file w =
      let stripped : SourceFile R = record file { comments = directive_groups file.comments } in
      let (failed, written) = host.format_node fo stripped w in
      elim failed [
        | some e ↦ exit_copy fo to e written
        | none ↦
            let (unclosed, closed) = host.close fo written in
            elim unclosed [ some e ↦ exit_copy fo to e closed | none ↦ (none, closed) ]
      ]

  -- `copyFile`
  unfoldable pub copy_file : Bytes → Bytes → W → Option E × W
  unfolding exit_copy write_copy
  copy_file from to w =
      let (no_dir, made) = host.mkdir_all (dir_of to) w in
      let (opened, at_file) = host.create to made in
      elim no_dir [
        | some e ↦ (some e, made)
        | none ↦ elim opened [
          | inl e ↦ (some e, at_file)
          | inr fo ↦ elim (host.parse_file from at_file) [
            | inl e ↦ exit_copy fo to e at_file
            | inr file ↦ write_copy fo to file at_file
          ]
        ]
      ]

  -- `includeFile`
  unfoldable pub include_file : Bytes → W → Bool
  include_file name w =
      if not (same (ext_of name) (codes ".go"))
      then false
      else if os_arch_match (base_of name)
      then true
      else elim (host.read name w) [ none ↦ false | some content ↦ go_build_match content ]

  -- The messages for the flag `v`.
  unfoldable pub tell : Bool → Bytes → Bytes → W → W
  tell verbose word s w = if verbose then host.print (word ++ (s ++ codes "\n")) w else w

  -- The function that `WalkDir` calls.
  unfoldable pub walk_file : Bool → Bytes → Bytes → Visit E → W → Option E × W
  unfolding copy_file include_file tell
  walk_file verbose from to v w = elim v.error [
    | some e ↦ (some e, w)
    | none ↦
        if v.is_regular && same (ext_of v.path) (codes ".go")
        then elim (host.rel from v.path) [
          | inl e ↦ (some e, w)
          | inr s ↦
              if include_file v.path w
              then copy_file v.path (join_path (to ∷ s ∷ []))
                  (tell verbose (codes "copying:  ") s w)
              else (none, tell verbose (codes "ignoring: ") s w)
        ]
        else (none, w)
  ]

  -- `WalkDir` over what it visits; an error of the function ends it.
  unfoldable pub walk : Bool → Bytes → Bytes → List (Visit E) → W → Option E × W
  unfolding walk_file
  walk verbose from to [] w = (none, w)
  walk verbose from to (v ∷ vs) w =
      let (failed, later) = walk_file verbose from to v w in
      let rest = walk verbose from to vs later in
      elim failed [ some e ↦ (some e, later) | none ↦ rest ]

  -- `main`, on its flags; `visits` is what `WalkDir` hands to its function, one after the other, where it
  -- starts at the directory with the file system as it is then.
  unfoldable pub main : (Bytes → W → List (Visit E)) → Bool → Bytes → Bytes → W → Exit E × W
  unfolding walk
  main visits verbose from_flag to_flag w =
      if is_empty from_flag
      then (fatal_text (codes "missing required argument: from"), w)
      else if is_empty to_flag
      then (fatal_text (codes "missing required argument: to"), w)
      else elim (host.abs from_flag) [
        | inl e ↦ (fatal e, w)
        | inr from ↦ elim (host.abs to_flag) [
          | inl e ↦ (fatal e, w)
          | inr to ↦
              let (failed, later) = walk verbose from to (visits from w) w in
              if host.stat to w
              then (fatal_text (codes "refusing to overwrite destination directory: " ++ to), w)
              else elim failed [ some e ↦ (fatal e, later) | none ↦ (done, later) ]
        ]
      ]
