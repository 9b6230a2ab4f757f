-- ===== src/ImportPath/Resolves.antt =====
-- What the import path that `ImportPath` returns means.
use buildutil.Base.{
  true, false, List, [], ◌∷◌, ◌++◌, append_assoc, none, some, codes, Bytes, has_prefix, is_empty,
  Option-cases, Bool-cases, inl, inr, ◌≡◌, ◌⊎◌, refl, sym, ◌∙◌, arith, has, has-append, same,
  same_iff,
}
use buildutil.ContextUtil.{FileContext, System}
use buildutil.ImportPath.{
  in_testdata, join_path, gopath, has_subdir_ctxt, conflicts, search_gopath, search_goroot, path_of,
  import_path,
}
use buildutil.ImportPath.Testdata.{
  OutsideTestdata, Unshadowed, in_testdata-false, in_testdata-true, conflicts-false, conflicts-true,
}

-- The directory is not below the source directory of the root, or its path there has an element `testdata`.
pub data Skipped (e : System) (c : FileContext) (dir root : Bytes) : Type 0 where
  not_below :
      has_subdir_ctxt e c (join_path c (root ∷ codes "src" ∷ [])) dir ≡ none → Skipped e c dir root
  in_tests :
      (sub : Bytes)
      → has_subdir_ctxt e c (join_path c (root ∷ codes "src" ∷ [])) dir ≡ some sub
      → (OutsideTestdata sub → ⊥)
      → Skipped e c dir root

abbrev pub AllSkipped : System → FileContext → Bytes → List Bytes → Type 0
AllSkipped e c dir roots = (r : Bytes) → has roots r ≡ true → Skipped e c dir r

-- No root of the GOPATH gives a path: the directory's text begins with GOROOT, or all roots are skipped.
abbrev pub NoGopath : System → FileContext → Bytes → Type 0
NoGopath e c dir = (has_prefix dir c.goroot ≡ true) ⊎ AllSkipped e c dir (gopath c)

-- What an import path says of a directory.
pub data Resolves (e : System) (c : FileContext) (dir : Bytes) : Bytes → Type 0 where
  in_gopath :
      (early : List Bytes) (root : Bytes) (roots : List Bytes) (sub : Bytes)
      → has_prefix dir c.goroot ≡ false
      → gopath c ≡ early ++ (root ∷ roots)
      → AllSkipped e c dir early
      → has_subdir_ctxt e c (join_path c (root ∷ codes "src" ∷ [])) dir ≡ some sub
      → OutsideTestdata sub
      → Unshadowed e c early sub
      → Resolves e c dir sub
  shadowed :
      (early : List Bytes) (root : Bytes) (roots : List Bytes) (sub : Bytes)
      → has_prefix dir c.goroot ≡ false
      → gopath c ≡ early ++ (root ∷ roots)
      → AllSkipped e c dir early
      → has_subdir_ctxt e c (join_path c (root ∷ codes "src" ∷ [])) dir ≡ some sub
      → OutsideTestdata sub
      → (Unshadowed e c early sub → ⊥)
      → Resolves e c dir (codes ".")
  in_goroot :
      (sub : Bytes)
      → NoGopath e c dir
      → is_empty c.goroot ≡ false
      → has_subdir_ctxt e c (join_path c (c.goroot ∷ codes "src" ∷ [])) dir ≡ some sub
      → OutsideTestdata sub
      → Resolves e c dir sub
  unknown :
      NoGopath e c dir
      → (is_empty c.goroot ≡ true) ⊎ Skipped e c dir c.goroot
      → Resolves e c dir (codes ".")

module _ (e : System) (c : FileContext) (dir : Bytes) where
  Resolves-eq : {p q : Bytes} → p ≡ q → Resolves e c dir p → Resolves e c dir q
  Resolves-eq h r = rw (← h) r

  AllSkipped-append :
      (early : List Bytes) (root : Bytes)
      → AllSkipped e c dir early
      → Skipped e c dir root
      → AllSkipped e c dir (early ++ (root ∷ []))
  unfolding has
  AllSkipped-append early root all skip r h = elim (Bool-cases (has early r)) [
    | inl before ↦ all r before
    | inr new ↦
        let this : root ≡ r =
          (same_iff root r).0 (ground (arith, new, h, has-append early (root ∷ []) r)) in
        rw (← this) skip
  ]

  search_gopath-Resolves :
      (early roots : List Bytes) (path : Bytes)
      → has_prefix dir c.goroot ≡ false
      → gopath c ≡ early ++ roots
      → AllSkipped e c dir early
      → search_gopath e c early roots dir ≡ some path
      → Resolves e c dir path
  unfolding search_gopath
  search_gopath-Resolves early [] path other g all q = cc
  search_gopath-Resolves early (root ∷ roots) path other g all q =
      let next = g ∙ sym (append_assoc early (root ∷ []) roots) in
      let later = search_gopath-Resolves (early ++ (root ∷ [])) roots path other next in
      elim (Option-cases (has_subdir_ctxt e c (join_path c (root ∷ codes "src" ∷ [])) dir)) [
        | inl absent ↦
            later (AllSkipped-append early root all (not_below absent)) (ground (arith, absent, q))
        | inr (sub, found) ↦ elim (Bool-cases (in_testdata sub)) [
          | inl test ↦
              later
                (AllSkipped-append early root all (in_tests sub found (in_testdata-true sub test)))
                (ground (arith, found, test, q))
          | inr plain ↦
              let outside = in_testdata-false sub plain in
              elim (Bool-cases (conflicts e c early sub)) [
                | inl taken ↦ Resolves-eq (ground (arith, found, plain, taken, q)) (
                    shadowed early root roots sub other g all found outside
                      (conflicts-true e c early sub taken))
                | inr free ↦ Resolves-eq (ground (arith, found, plain, free, q)) (
                    in_gopath early root roots sub other g all found outside
                      (conflicts-false e c early sub free))
              ]
        ]
      ]

  search_gopath-none :
      (early roots : List Bytes)
      → search_gopath e c early roots dir ≡ none
      → AllSkipped e c dir roots
  unfolding search_gopath has
  search_gopath-none early [] q r h = cc h
  search_gopath-none early (root ∷ roots) q r h =
      let later = search_gopath-none (early ++ (root ∷ [])) roots in
      elim (Bool-cases (same root r)) [
        | inl this ↦
            rw (← (same_iff root r).0 this)
              (elim (Option-cases
                (has_subdir_ctxt e c (join_path c (root ∷ codes "src" ∷ [])) dir)) [
                  | inl absent ↦ not_below absent
                  | inr (sub, found) ↦ elim (Bool-cases (in_testdata sub)) [
                    | inl test ↦ in_tests sub found (in_testdata-true sub test)
                    | inr plain ↦ absurd (ground (arith, found, plain, q))
                  ]
                ])
        | inr other ↦ later (ground (arith, q)) r (ground (arith, other, h))
      ]

  search_goroot-Resolves : NoGopath e c dir → Resolves e c dir (search_goroot e c dir)
  unfolding search_goroot
  search_goroot-Resolves no_path = elim (Bool-cases (is_empty c.goroot)) [
    | inl no_root ↦ rw no_root (unknown no_path (inl no_root))
    | inr root ↦
        elim (Option-cases (has_subdir_ctxt e c (join_path c (c.goroot ∷ codes "src" ∷ [])) dir)) [
          | inl absent ↦ rw (root, absent) (unknown no_path (inr (not_below absent)))
          | inr (sub, found) ↦ elim (Bool-cases (in_testdata sub)) [
            | inl test ↦
                rw (root, found, test)
                  (unknown no_path (inr (in_tests sub found (in_testdata-true sub test))))
            | inr plain ↦
                rw (root, found, plain)
                  (in_goroot sub no_path root found (in_testdata-false sub plain))
          ]
        ]
  ]

  path_of-Resolves : Resolves e c dir (path_of e c dir)
  unfolding path_of
  path_of-Resolves = elim (Bool-cases (has_prefix dir c.goroot)) [
    | inl standard ↦ Resolves-eq (ground (arith, standard)) (search_goroot-Resolves (inl standard))
    | inr other ↦ elim (Option-cases (search_gopath e c [] (gopath c) dir)) [
      | inl absent ↦
          Resolves-eq (ground (arith, other, absent))
            (search_goroot-Resolves (inr (search_gopath-none [] (gopath c) absent)))
      | inr (path, found) ↦
          Resolves-eq (ground (arith, other, found))
            (search_gopath-Resolves [] (gopath c) path other refl none_before found)
    ]
  ]
    where
      none_before : AllSkipped e c dir []
      none_before r h = unfold has in cc h

  -- Where `ImportPath` returns no error: if the text of the directory does not begin with GOROOT, and the
  -- directory has below the source directory of a root of the GOPATH a path with no element `testdata`,
  -- the result is that path for the first such root, or `.` if GOROOT, where it is set, or a root before
  -- has a directory of the same path in its source directory. Otherwise the result is the path below the
  -- source directory of GOROOT, where that is set and the path has no element `testdata`, and `.` if
  -- there is none.
  pub import_path-Resolves :
      (path : Bytes) → import_path e c dir ≡ (path, none) → Resolves e c dir path
  unfolding import_path
  import_path-Resolves path q = Resolves-eq (ground (arith, q)) path_of-Resolves
