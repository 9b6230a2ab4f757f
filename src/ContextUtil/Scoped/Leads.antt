-- ===== src/ContextUtil/Scoped/Leads.antt =====
-- The map of a scoped context leads to every package.
use buildutil.Base.{
  ◌+◌, true, false, List, [], ◌∷◌, Bytes, has, same, same_iff, same_refl, length, ok, ◌>>=◌,
  >>=-eq-ok, Bool-cases, inl, inr, ◌≡◌, sym, ap, ◌∙◌, arith,
}
use buildutil.FilePath.{dir_of}
use buildutil.ContextUtil.{FileContext, System}
use buildutil.ContextUtil.Subdir.{clean_go_paths}
use buildutil.ContextUtil.Scoped.{
  Dirs, add_subdir, add_parents, sort_dirs, MinPackage, Scope, min_import_dir, add_package,
  add_packages, scope_of, scoped_context, package_dirs, other_names,
}
use buildutil.ContextUtil.Scoped.Parents.{
  holds, holds-add_subdir, holds-sort_dirs, Leads, add_parents-holds, add_parents-Leads,
}

-- A package that is no module.
pub record Plain (e : System) (c : FileContext) (root : Bytes) (pkg : MinPackage) : Type 0 where
  pub found : min_import_dir e c root ≡ ok pkg
  pub no_module : pkg.is_module ≡ false

module _ (e : System) (c : FileContext) where
  -- What the round of a package that is no module does.
  pub add_package-parents :
      (pkg : MinPackage) (goroots roots : List Bytes) (m n : Dirs)
      → pkg.is_module ≡ false
      → add_package e c pkg (goroots, m) ≡ ok (roots, n)
      → (k : Dirs) × (add_parents
            (3 + length (e.join_path c (pkg.src_root ∷ pkg.import_path ∷ [])))
            pkg.src_root
            (e.join_path c (pkg.src_root ∷ pkg.import_path ∷ []))
            m
          ≡ ok k)
        × (n ≡ add_subdir pkg.root pkg.src_root k)
  unfolding add_package
  add_package-parents pkg goroots roots m n plain q =
      let dir = e.join_path c (pkg.src_root ∷ pkg.import_path ∷ []) in
      let (k, parents, rest) =
        >>=-eq-ok {T = List Bytes × Dirs} {t = (roots, n)}
          (add_parents (3 + length dir) pkg.src_root dir m)
          (λ l. ok (goroots, add_subdir pkg.root pkg.src_root l)) (ground (arith, plain, q)) in
      (k, parents, ground (arith, rest))

  pub add_package-module :
      (pkg : MinPackage) (goroots roots : List Bytes) (m n : Dirs)
      → pkg.is_module ≡ true
      → add_package e c pkg (goroots, m) ≡ ok (roots, n)
      → n ≡ m
  unfolding add_package
  add_package-module pkg goroots roots m n whole q = ground (arith, whole, q)

  add_package-holds :
      (pkg : MinPackage) (goroots roots : List Bytes) (m n : Dirs) (k s : Bytes)
      → add_package e c pkg (goroots, m) ≡ ok (roots, n)
      → holds m k s ≡ true
      → holds n k s ≡ true
  add_package-holds pkg goroots roots m n k s q h = elim (Bool-cases pkg.is_module) [
    | inl whole ↦ rw (add_package-module pkg goroots roots m n whole q) h
    | inr plain ↦
        let dir = e.join_path c (pkg.src_root ∷ pkg.import_path ∷ []) in
        let (l, parents, made) = add_package-parents pkg goroots roots m n plain q in
        let kept = add_parents-holds (3 + length dir) pkg.src_root dir m l k s parents h in
        rw made (ground (arith, kept, holds-add_subdir pkg.root pkg.src_root l k s))
  ]

  -- The parts of a round of the loop over the packages.
  pub add_packages-cons :
      (root : Bytes) (dirs goroots roots : List Bytes) (m n : Dirs)
      → add_packages e c (root ∷ dirs) (goroots, m) ≡ ok (roots, n)
      → (pkg : MinPackage) × (next : List Bytes) × (k : Dirs) × (min_import_dir e c root ≡ ok pkg)
        × (add_package e c pkg (goroots, m) ≡ ok (next, k))
        × (add_packages e c dirs (next, k) ≡ ok (roots, n))
  unfolding add_packages
  add_packages-cons root dirs goroots roots m n q =
      let (pkg, found, rest) =
        >>=-eq-ok (min_import_dir e c root)
          (λ p. add_package e c p (goroots, m) >>= add_packages e c dirs) q in
      let ((next, k), added, last) =
        >>=-eq-ok (add_package e c pkg (goroots, m)) (add_packages e c dirs) rest in
      (pkg, next, k, found, added, last)

  add_packages-holds :
      (dirs goroots roots : List Bytes) (m n : Dirs) (k s : Bytes)
      → add_packages e c dirs (goroots, m) ≡ ok (roots, n)
      → holds m k s ≡ true
      → holds n k s ≡ true
  add_packages-holds [] goroots roots m n k s q h =
      let same_map : m ≡ n = unfold add_packages in ground (arith, q) in rw (← same_map) h
  add_packages-holds (root ∷ dirs) goroots roots m n k s q h =
      let (pkg, next, l, found, added, last) = add_packages-cons root dirs goroots roots m n q in
      add_packages-holds dirs next roots l n k s last
        (add_package-holds pkg goroots next m l k s added h)

  -- The map has the way from a package to its source root, and its source root.
  pub record Reached (pkg : MinPackage) (m : Dirs) : Type 0 where
    pub way :
        (d : Bytes)
        → Leads pkg.src_root d (e.join_path c (pkg.src_root ∷ pkg.import_path ∷ []))
        → holds m (dir_of d) d ≡ true
    pub source : holds m pkg.root pkg.src_root ≡ true

  add_package-Reached :
      (pkg : MinPackage) (goroots roots : List Bytes) (m n : Dirs)
      → pkg.is_module ≡ false
      → add_package e c pkg (goroots, m) ≡ ok (roots, n)
      → Reached pkg n
  add_package-Reached pkg goroots roots m n plain q =
      let dir = e.join_path c (pkg.src_root ∷ pkg.import_path ∷ []) in
      let (k, parents, made) = add_package-parents pkg goroots roots m n plain q in
      let adds = holds-add_subdir pkg.root pkg.src_root k in
      record {
        way = λ d l. rw made (
            ground (
              arith,
              adds (dir_of d) d,
              add_parents-Leads (3 + length dir) pkg.src_root dir d m k parents l,
            ));
        source = rw made (
            ground (arith, adds pkg.root pkg.src_root, same_refl pkg.root, same_refl pkg.src_root));
      }

  add_packages-Reached :
      (dirs goroots roots : List Bytes) (m n : Dirs) (root : Bytes) (pkg : MinPackage)
      → add_packages e c dirs (goroots, m) ≡ ok (roots, n)
      → has dirs root ≡ true
      → Plain e c root pkg
      → Reached pkg n
  add_packages-Reached [] goroots roots m n root pkg q h p = unfold has in cc
  add_packages-Reached (r ∷ dirs) goroots roots m n root pkg q h p =
      let (pk, next, k, found, added, last) = add_packages-cons r dirs goroots roots m n q in
      elim (Bool-cases (same r root)) [
        | inr other ↦
            add_packages-Reached dirs next roots k n root pkg last
              (unfold has in ground (arith, h, other)) p
        | inl this ↦
            let equal : r ≡ root = (same_iff r root).0 this in
            let one : pk ≡ pkg =
              ok-injective (sym found ∙ ap (min_import_dir e c) equal ∙ p.found) in
            let first = add_package-Reached pkg goroots next m k p.no_module (rw one at added) in
            record {
              way = λ d l. add_packages-holds dirs next roots k n (dir_of d) d last (first.way d l);
              source =
                  add_packages-holds dirs next roots k n pkg.root pkg.src_root last first.source;
            }
      ]
    where
      ok-injective : {x y : MinPackage} → ok x ≡ ok y → x ≡ y
      ok-injective q = cc

module _ (e : System) where
  pub scope_parts :
      (c : FileContext) (dirs : List Bytes) (s : Scope)
      → scoped_context e c dirs ≡ ok s
      → (goroots : List Bytes) × (roots : List Bytes) × (m : Dirs) × (add_packages e
            (clean_go_paths c)
            (package_dirs e dirs)
            (goroots, [])
          ≡ ok (roots, m))
        × (s.dirs ≡ sort_dirs m)
  unfolding scoped_context
  scope_parts c dirs s q =
      let inner : scope_of e c dirs ≡ ok s = ground (arith, q) in
      let ctxt = clean_go_paths c in
      let start = ctxt.goroot ∷ other_names e ctxt.goroot in
      unfold scope_of in
      let ((roots, m), added, made) =
        >>=-eq-ok (add_packages e ctxt (package_dirs e dirs) (start, [])) _ inner in
      (start, roots, m, added, ground (arith, made))

  scoped_context-Reached :
      (c : FileContext) (dirs : List Bytes) (s : Scope) (root : Bytes) (pkg : MinPackage)
      → scoped_context e c dirs ≡ ok s
      → has (package_dirs e dirs) root ≡ true
      → Plain e (clean_go_paths c) root pkg
      → Reached e (clean_go_paths c) pkg s.dirs
  scoped_context-Reached c dirs s root pkg q h p =
      let (goroots, roots, m, added, made) = scope_parts c dirs s q in
      let r =
        add_packages-Reached e (clean_go_paths c) (package_dirs e dirs) goroots roots [] m root pkg
          added h p in
      record {
        way = λ d l. rw made (holds-sort_dirs m (dir_of d) d ∙ r.way d l);
        source = rw made (holds-sort_dirs m pkg.root pkg.src_root ∙ r.source);
      }

  -- For every package that is no module, the map of the scoped context has each directory on the way
  -- from the package up to its source root in the list of the directory above, and the source root in
  -- the list of the root of its Go tree.
  pub scoped_context-Leads :
      (c : FileContext) (dirs : List Bytes) (s : Scope) (root : Bytes) (pkg : MinPackage)
      (d : Bytes)
      → scoped_context e c dirs ≡ ok s
      → has (package_dirs e dirs) root ≡ true
      → Plain e (clean_go_paths c) root pkg
      → Leads pkg.src_root d (e.join_path (clean_go_paths c) (pkg.src_root ∷ pkg.import_path ∷ []))
      → (holds s.dirs (dir_of d) d ≡ true) × (holds s.dirs pkg.root pkg.src_root ≡ true)
  scoped_context-Leads c dirs s root pkg d q h p l =
      let r = scoped_context-Reached c dirs s root pkg q h p in (r.way d l, r.source)
