-- ===== src/Files/Named/Answers.antt =====
-- The functions that read a file agree with each other.
use buildutil.Base.{
  Bool, true, false, ◌&&◌, none, some, if◌then◌else◌, Bytes, Error, Result, ok, err, Result-cases,
  inl, inr, ◌≡◌, sym, ◌∙◌, arith,
}
use buildutil.Context.{Context}
use buildutil.Tags.{Tags}
use buildutil.FileName.{good_os_arch_file}
use buildutil.FileName.Laws.{good_os_arch_file-answer}
use buildutil.Build.{Syntax, Built, should_build, should_build_only}
use buildutil.Build.Observe.{should_build_only-answer, should_build_only-error}
use buildutil.PackageName.{read_package_name}
use buildutil.Files.{File, read_data, include}
use buildutil.Files.Named.{
  read_package_name_file, include_tags, short_import, match_built, match_file,
}

abbrev pub is_ok : Result Bytes → Bool
is_ok (ok s) = true
is_ok (err x) = false

abbrev pub answers : Result Bool → Bool
answers (ok b) = b
answers (err x) = false

module _ (syntax : Syntax) where
  only_ok :
      (u : Bool) (c : Context) (front : Bytes) (r : Built)
      → should_build syntax u c front none ≡ ok r
      → should_build_only syntax u c front none ≡ r.should_build
  unfolding should_build_only
  only_ok u c front r q = ground (arith, q)

  only_err :
      (u : Bool) (c : Context) (front : Bytes) (x : Error)
      → should_build syntax u c front none ≡ err x
      → should_build_only syntax u c front none ≡ false
  unfolding should_build_only
  only_err u c front x q = ground (arith, q)

  -- `shouldBuildOnly` gives the same answer with every map.
  only-answer :
      (u : Bool) (c : Context) (front : Bytes) (m : Tags)
      → should_build_only syntax u c front m ≡ should_build_only syntax u c front none
  only-answer u c front m = elim (Result-cases (should_build syntax u c front none)) [
    | inl (r, q) ↦
        should_build_only-answer syntax u c front none m r q ∙ sym (only_ok u c front r q)
    | inr (x, q) ↦
        should_build_only-error syntax u c front none m x q ∙ sym (only_err u c front x q)
  ]

  -- `MatchFile` matches a file exactly if `Include` takes it and its package clause can be read, and
  -- `ShortImport` gives the package name of the files that `MatchFile` matches, and of no other.
  pub match_file-include :
      (u : Bool) (c : Context) (base : Bytes) (opened : Result File)
      → ((match_file syntax u c base opened).is_match
          ≡ (include syntax u c base opened && is_ok (read_package_name_file opened)))
        × (short_import syntax u c base opened ≡ (
            if (match_file syntax u c base opened).is_match
            then some (match_file syntax u c base opened).pkg_name
            else none))
  unfolding include read_package_name_file short_import match_file match_built
  match_file-include u c base opened = elim (Result-cases (read_data opened)) [
    | inr (x, q) ↦ (ground (arith, q), ground (arith, q))
    | inl (front, q) ↦ elim (Result-cases (read_package_name front)) [
      | inr (x, n) ↦ (ground (arith, q, n), ground (arith, q, n))
      | inl (name, n) ↦ elim (Result-cases (should_build syntax u c front none)) [
        | inl (r, b) ↦ (
          ground (arith, q, n, b, only_ok u c front r b),
          ground (arith, q, n, b, only_ok u c front r b),
        )
        | inr (x, b) ↦ (
          ground (arith, q, n, b, only_err u c front x b),
          ground (arith, q, n, b, only_err u c front x b),
        )
      ]
    ]
  ]

  -- Whatever map it is given, `IncludeTags` answers what `Include` answers where it returns no error,
  -- and it returns an error only for a file that `Include` does not take.
  pub include_tags-include :
      (u : Bool) (c : Context) (base : Bytes) (opened : Result File) (m : Tags)
      → answers (include_tags syntax u c base opened m).0 ≡ include syntax u c base opened
  unfolding include include_tags
  include_tags-include u c base opened m =
      let good = good_os_arch_file-answer u c base m none in
      elim (Result-cases (read_data opened)) [
        | inr (x, q) ↦ ground (arith, q, good)
        | inl (front, q) ↦
            let n = (good_os_arch_file u c base m).1 in
            ground (arith, q, good, only-answer u c front n)
      ]
