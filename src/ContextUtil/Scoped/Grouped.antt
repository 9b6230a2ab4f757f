-- ===== src/ContextUtil/Scoped/Grouped.antt =====
-- The map of directories that `ScopedContext` builds.
use buildutil.Base.{
  ℕ, zero, suc, ◌+◌, true, false, not, ◌&&◌, List, [], ◌∷◌, ◌++◌, Option, none, some, codes, Bytes,
  has, ltb, same, same_iff, length, Error, ok, ◌>>=◌, >>=-eq-ok, Option-cases, ◌≡◌, refl, sym, ◌∙◌,
  inl, inr, arith, Bool-cases,
}
use buildutil.FilePath.{dir_of}
use buildutil.ContextUtil.{FileContext, System, join2, containing_directory}
use buildutil.ContextUtil.Subdir.{clean_go_paths, has_subdir_in}
use buildutil.ContextUtil.Scoped.{
  Dirs, add_subdir, add_parents, sort_dirs, MinPackage, Scope, in_paths, module_of, min_import_dir,
  add_package, add_packages, scope_of, scoped_context, package_dirs, other_names,
}
use buildutil.ContextUtil.Scoped.Unique.{sort_unique_strings-Ascending}

-- Each of the directories stands directly in `k`.
unfoldable pub AllIn : Bytes → List Bytes → Type 0
AllIn k subs = (s : Bytes) → has subs s ≡ true → dir_of s ≡ k

-- Each list of the map holds directories that stand directly in its key.
abbrev pub Grouped : Dirs → Type 0
Grouped [] = Unit
Grouped ((k, subs) ∷ m) = AllIn k subs × Grouped m

AllIn-append :
    (k s : Bytes) (subs : List Bytes) → AllIn k subs → dir_of s ≡ k → AllIn k (subs ++ (s ∷ []))
unfolding AllIn has
AllIn-append k s [] a h x q = ground (arith, h, q, same_iff s x)
AllIn-append k s (t ∷ subs) a h x q = elim (Bool-cases (same t x)) [
  | inl here ↦ a x (ground (arith, here))
  | inr there ↦
      AllIn-append k s subs (λ y r. a y (ground (arith, r))) h x (ground (arith, q, there))
]

AllIn-one : (k s : Bytes) → dir_of s ≡ k → AllIn k (s ∷ [])
unfolding AllIn has
AllIn-one k s h x q = ground (arith, h, q, same_iff s x)

add_subdir-Grouped :
    (k s : Bytes) (m : Dirs) → dir_of s ≡ k → Grouped m → Grouped (add_subdir k s m)
unfolding add_subdir
add_subdir-Grouped k s [] h g = (AllIn-one k s h, tt)
add_subdir-Grouped k s ((j, subs) ∷ m) h g = elim (Bool-cases (same j k)) [
  | inl here ↦
      let equal : j ≡ k = (same_iff j k).0 here in
      rw here (AllIn-append j s subs g.0 (h ∙ sym equal), g.1)
  | inr there ↦ rw there (g.0, add_subdir-Grouped k s m h g.1)
]

add_parents-Grouped :
    (f : ℕ) (src dir : Bytes) (m n : Dirs) → Grouped m → add_parents f src dir m ≡ ok n → Grouped n
unfolding add_parents
add_parents-Grouped zero src dir m n g q = cc
add_parents-Grouped (suc f) src dir m n g q =
    elim (Bool-cases (not (same dir src) && not (same dir (dir_of dir)))) [
      | inl on ↦
          add_parents-Grouped f src (dir_of dir) (add_subdir (dir_of dir) dir m) n
            (add_subdir-Grouped (dir_of dir) dir m refl g) (rw on at q)
      | inr off ↦ let same_map : m ≡ n = cc (rw off at q) in rw (← same_map) g
    ]

sort_dirs-Grouped : (m : Dirs) → Grouped m → Grouped (sort_dirs m)
unfolding sort_dirs AllIn
sort_dirs-Grouped [] g = tt
sort_dirs-Grouped ((k, subs) ∷ m) g = elim (Bool-cases (ltb 1 (length subs))) [
  | inl long ↦
      rw long
        (λ s q. g.0 s (sym ((sort_unique_strings-Ascending subs).1 s) ∙ q), sort_dirs-Grouped m g.1)
  | inr short ↦ rw short (g.0, sort_dirs-Grouped m g.1)
]

-- What `minImportDir` says of a package: it is a module, or its root is the directory of its source root.
pub data Rooted (pkg : MinPackage) : Type 0 where
  by_module : pkg.is_module ≡ true → Rooted pkg
  by_source : pkg.root ≡ dir_of pkg.src_root → Rooted pkg

Rooted-source :
    (pkg : MinPackage) → Rooted pkg → pkg.is_module ≡ false → dir_of pkg.src_root ≡ pkg.root
Rooted-source pkg (by_module h) n = absurd (ground (arith, h, n))
Rooted-source pkg (by_source h) n = sym h

module _ (e : System) where
  in_paths-Rooted :
      (c : FileContext) (ps : List Bytes) (dir : Bytes) (pkg : MinPackage)
      → in_paths e c ps dir ≡ some pkg
      → Rooted pkg
  unfolding in_paths
  in_paths-Rooted c [] dir pkg q = cc
  in_paths-Rooted c (p ∷ ps) dir pkg q =
      elim (Option-cases (has_subdir_in e c (join2 c p (codes "src")) dir)) [
        | inl absent ↦ in_paths-Rooted c ps dir pkg (ground (arith, absent, q))
        | inr (rel, found) ↦ by_source (ground (arith, found, q))
      ]

  module_of-Rooted :
      (found : Bytes × Option Error) (pkg : MinPackage) → module_of e found ≡ ok pkg → Rooted pkg
  unfolding module_of
  module_of-Rooted (root, none) pkg q = by_module (ground (arith, q))
  module_of-Rooted (root, some x) pkg q = cc

  min_import_dir-Rooted :
      (c : FileContext) (dir : Bytes) (pkg : MinPackage)
      → min_import_dir e c dir ≡ ok pkg
      → Rooted pkg
  unfolding min_import_dir
  min_import_dir-Rooted c dir pkg q =
      elim (Option-cases (has_subdir_in e c (join2 c c.goroot (codes "src")) dir)) [
        | inr (rel, found) ↦ by_source (ground (arith, found, q))
        | inl absent ↦ elim (Option-cases (in_paths e c (e.split_path_list c c.gopath) dir)) [
          | inr (p, listed) ↦
              in_paths-Rooted c (e.split_path_list c c.gopath) dir pkg
                (ground (arith, absent, listed, q))
          | inl unlisted ↦
              module_of-Rooted
                (containing_directory e c dir [] (codes "go.mod" ∷ codes "go.work" ∷ [])) pkg
                (ground (arith, absent, unlisted, q))
        ]
      ]

  add_package-Grouped :
      (c : FileContext) (pkg : MinPackage) (goroots roots : List Bytes) (m n : Dirs)
      → Rooted pkg
      → Grouped m
      → add_package e c pkg (goroots, m) ≡ ok (roots, n)
      → Grouped n
  unfolding add_package
  add_package-Grouped c pkg goroots roots m n r g q = elim (Bool-cases pkg.is_module) [
    | inl whole ↦ let same_map : m ≡ n = ground (arith, whole, q) in rw (← same_map) g
    | inr plain ↦
        let dir = e.join_path c (pkg.src_root ∷ pkg.import_path ∷ []) in
        let (k, parents, rest) =
          >>=-eq-ok {T = List Bytes × Dirs} {t = (roots, n)}
            (add_parents (3 + length dir) pkg.src_root dir m)
            (λ l. ok (goroots, add_subdir pkg.root pkg.src_root l)) (ground (arith, plain, q)) in
        let same_map : add_subdir pkg.root pkg.src_root k ≡ n = ground (arith, rest) in
        rw (← same_map) (
          add_subdir-Grouped pkg.root pkg.src_root k (Rooted-source pkg r plain)
            (add_parents-Grouped (3 + length dir) pkg.src_root dir m k g parents))
  ]

  add_packages-Grouped :
      (c : FileContext) (dirs goroots roots : List Bytes) (m n : Dirs)
      → Grouped m
      → add_packages e c dirs (goroots, m) ≡ ok (roots, n)
      → Grouped n
  unfolding add_packages
  add_packages-Grouped c [] goroots roots m n g q = let same_map : m ≡ n = cc in rw (← same_map) g
  add_packages-Grouped c (dir ∷ dirs) goroots roots m n g q =
      let (pkg, found, rest) =
        >>=-eq-ok (min_import_dir e c dir)
          (λ p. add_package e c p (goroots, m) >>= add_packages e c dirs) q in
      let ((next, k), added, last) =
        >>=-eq-ok (add_package e c pkg (goroots, m)) (add_packages e c dirs) rest in
      add_packages-Grouped c dirs next roots k n
        (add_package-Grouped c pkg goroots next m k (min_import_dir-Rooted c dir pkg found) g added)
        last

  scope_of-Grouped :
      (c : FileContext) (dirs : List Bytes) (s : Scope) → scope_of e c dirs ≡ ok s → Grouped s.dirs
  unfolding scope_of
  scope_of-Grouped c dirs s q =
      let ctxt = clean_go_paths c in
      let ((goroots, m), added, made) =
        >>=-eq-ok
          (add_packages e ctxt (package_dirs e dirs) (ctxt.goroot ∷ other_names e ctxt.goroot, []))
          _ q in
      let g =
        add_packages-Grouped ctxt (package_dirs e dirs) (ctxt.goroot ∷ other_names e ctxt.goroot)
          goroots [] m tt added in
      let same_map : sort_dirs m ≡ s.dirs = ground (arith, made) in
      rw (← same_map) (sort_dirs-Grouped m g)

  -- In the map of every scoped context each directory of a list stands directly in the key of the list.
  pub scoped_context-Grouped :
      (c : FileContext) (dirs : List Bytes) (s : Scope)
      → scoped_context e c dirs ≡ ok s
      → Grouped s.dirs
  unfolding scoped_context
  scoped_context-Grouped c dirs s q = scope_of-Grouped c dirs s (ground (arith, q))
