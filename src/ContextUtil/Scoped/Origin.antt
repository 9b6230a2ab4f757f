-- ===== src/ContextUtil/Scoped/Origin.antt =====
-- What the map of a scoped context holds comes from a package.
use buildutil.Base.{
  zero, suc, ◌+◌, true, false, List, [], ◌∷◌, Bytes, has, same_iff, same_refl, length, ok, ℕ,
  Bool-cases, some, inl, inr, ◌≡◌, ◌⊎◌, refl, arith,
}
use buildutil.FilePath.{dir_of}
use buildutil.ContextUtil.{FileContext, System}
use buildutil.ContextUtil.Subdir.{clean_go_paths}
use buildutil.ContextUtil.Scoped.{
  Dirs, subdirs_of, add_subdir, add_parents, MinPackage, Scope, add_package, add_packages,
  scoped_context, package_dirs,
}
use buildutil.ContextUtil.Scoped.Parents.{
  holds, holds-add_subdir, holds-sort_dirs, goes_on, Leads, here, later, add_parents-next,
}
use buildutil.ContextUtil.Scoped.Leads.{
  Plain, add_package-parents, add_package-module, add_packages-cons, scope_parts,
}

-- The directory is on the way from the source root of a package that is no module to the package: it is
-- the package, the source root, or a directory between them.
pub data OnWay (e : System) (c : FileContext) (dirs : List Bytes) (t : Bytes) : Type 0 where
  below :
      (root : Bytes) (pkg : MinPackage)
      → has dirs root ≡ true
      → Plain e c root pkg
      → Leads pkg.src_root t (e.join_path c (pkg.src_root ∷ pkg.import_path ∷ []))
      → OnWay e c dirs t
  source :
      (root : Bytes) (pkg : MinPackage)
      → has dirs root ≡ true
      → Plain e c root pkg
      → t ≡ pkg.src_root
      → OnWay e c dirs t

add_parents-from :
    (f : ℕ) (src dir : Bytes) (m n : Dirs) (k s : Bytes)
    → add_parents f src dir m ≡ ok n
    → holds n k s ≡ true
    → (holds m k s ≡ true) ⊎ Leads src s dir
add_parents-from zero src dir m n k s q h = unfold add_parents in cc
add_parents-from (suc f) src dir m n k s q h = elim (Bool-cases (goes_on src dir)) [
  | inl on ↦
      elim (add_parents-from f src (dir_of dir) (add_subdir (dir_of dir) dir m) n k s
        (add_parents-next f src dir m n on q) h) [
          | inl held ↦ elim (Bool-cases (holds m k s)) [
            | inl before ↦ inl before
            | inr new ↦
                let this : dir ≡ s =
                  (same_iff dir s).0
                    (ground (arith, new, held, holds-add_subdir (dir_of dir) dir m k s)) in
                inr (rw (← this) (here on))
          ]
          | inr l ↦ inr (later on l)
        ]
  | inr off ↦ inl (unfold add_parents in ground (arith, off, q, h))
]

module _ (e : System) (c : FileContext) where
  add_package-from :
      (pkg : MinPackage) (goroots roots : List Bytes) (m n : Dirs) (k s : Bytes)
      → add_package e c pkg (goroots, m) ≡ ok (roots, n)
      → holds n k s ≡ true
      → (holds m k s ≡ true)
        ⊎ ((pkg.is_module ≡ false)
            × (Leads pkg.src_root s (e.join_path c (pkg.src_root ∷ pkg.import_path ∷ []))
                ⊎ (s ≡ pkg.src_root)))
  add_package-from pkg goroots roots m n k s q h = elim (Bool-cases pkg.is_module) [
    | inl whole ↦ inl (rw (add_package-module e c pkg goroots roots m n whole q) at h)
    | inr plain ↦
        let dir = e.join_path c (pkg.src_root ∷ pkg.import_path ∷ []) in
        let (l, parents, made) = add_package-parents e c pkg goroots roots m n plain q in
        let added = rw made at h in
        elim (Bool-cases (holds l k s)) [
          | inl held ↦
              elim (add_parents-from (3 + length dir) pkg.src_root dir m l k s parents held) [
                | inl before ↦ inl before
                | inr way ↦ inr (plain, inl way)
              ]
          | inr new ↦
              let this : pkg.src_root ≡ s =
                (same_iff pkg.src_root s).0
                  (ground (arith, new, added, holds-add_subdir pkg.root pkg.src_root l k s)) in
              inr (plain, inr (rw this refl))
        ]
  ]

  add_packages-from :
      (dirs goroots roots : List Bytes) (m n : Dirs) (k s : Bytes)
      → add_packages e c dirs (goroots, m) ≡ ok (roots, n)
      → holds n k s ≡ true
      → (holds m k s ≡ true) ⊎ OnWay e c dirs s
  add_packages-from [] goroots roots m n k s q h = inl (unfold add_packages in ground (arith, q, h))
  add_packages-from (r ∷ dirs) goroots roots m n k s q h =
      let (pkg, next, l, found, added, last) = add_packages-cons e c r dirs goroots roots m n q in
      let first : has (r ∷ dirs) r ≡ true = unfold has in ground (arith, same_refl r) in
      elim (add_packages-from dirs next roots l n k s last h) [
        | inl held ↦ elim (add_package-from pkg goroots next m l k s added held) [
          | inl before ↦ inl before
          | inr (plain, inl way) ↦
              inr (below r pkg first (record { found = found; no_module = plain }) way)
          | inr (plain, inr this) ↦
              inr (source r pkg first (record { found = found; no_module = plain }) this)
        ]
        | inr (below root p there plain way) ↦
            inr (below root p (unfold has in ground (arith, there)) plain way)
        | inr (source root p there plain this) ↦
            inr (source root p (unfold has in ground (arith, there)) plain this)
      ]

-- Each directory in the map of a scoped context is on the way to one of its packages.
pub scoped_context-OnWay :
    (e : System) (c : FileContext) (pkgs : List Bytes) (s : Scope) (k : Bytes) (subs : List Bytes)
    (t : Bytes)
    → scoped_context e c pkgs ≡ ok s
    → subdirs_of s.dirs k ≡ some subs
    → has subs t ≡ true
    → OnWay e (clean_go_paths c) (package_dirs e pkgs) t
unfolding holds subdirs_of
scoped_context-OnWay e c pkgs s k subs t q key h =
    let (goroots, roots, m, added, made) = scope_parts e c pkgs s q in
    let held : holds s.dirs k t ≡ true = ground (arith, key, h) in
    let held_m : holds m k t ≡ true = ground (arith, rw made at held, holds-sort_dirs m k t) in
    elim (add_packages-from e (clean_go_paths c) (package_dirs e pkgs) goroots roots [] m k t added
      held_m) [ inl none_there ↦ cc none_there | inr way ↦ way ]
