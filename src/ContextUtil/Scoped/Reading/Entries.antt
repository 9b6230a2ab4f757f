-- ===== src/ContextUtil/Scoped/Reading/Entries.antt =====
-- Which entries `ReadDir` of a scoped context lists of a directory above the packages.
use buildutil.Base.{
  ap, true, false, List, [], ◌∷◌, none, some, Bytes, Keys, has, same, same_iff, same_refl, is_empty,
  Result, ok, err, >>=-eq-ok, Option-cases, Bool-cases, ◌≡◌, refl, sym, ◌∙◌, ◌⊎◌, inl, inr, arith,
}
use buildutil.FilePath.{clean, dir_of, base_of}
use buildutil.ContextUtil.{FileInfo, FileContext, System}
use buildutil.ContextUtil.Subdir.{clean_go_paths}
use buildutil.ContextUtil.Scoped.{Dirs, subdirs_of, Scope, scoped_context, package_dirs}
use buildutil.ContextUtil.Scoped.Origin.{OnWay, scoped_context-OnWay}
use buildutil.ContextUtil.Scoped.Grouped.{AllIn, Grouped, scoped_context-Grouped}
use buildutil.ContextUtil.Scoped.Reading.{
  in_scope, bases, names_of, some_covers, is_not_exist, read_from, add_info, stat_subdirs,
  read_subdirs, read_clean, scoped_read_dir,
}

-- The entry stands in the list.
pub data Among (x : FileInfo) : List FileInfo → Type 0 where
  front : {xs : List FileInfo} → Among x (x ∷ xs)
  behind : {y : FileInfo} {xs : List FileInfo} → Among x xs → Among x (y ∷ xs)

Among-eq : (x : FileInfo) {xs ys : List FileInfo} → xs ≡ ys → Among x ys → Among x xs
Among-eq x q a = rw q a

not-Among : (x : FileInfo) {xs : List FileInfo} → [] ≡ xs → Among x xs → ⊥
not-Among x q a = elim (Among-eq x q a) [ ]

Among-cons : (x y : FileInfo) {xs : List FileInfo} → Among x (y ∷ xs) → (y ≡ x) ⊎ Among x xs
Among-cons x y front = inl refl
Among-cons x y (behind a) = inr a

in_scope-Among :
    (names : Keys) (infos : List FileInfo) (x : FileInfo)
    → Among x (in_scope names infos)
    → Among x infos × (has names x.name ≡ true)
unfolding in_scope
in_scope-Among names [] x a = elim a [ ]
in_scope-Among names (info ∷ infos) x a = elim (Bool-cases (has names info.name)) [
  | inl held ↦ elim (Among-cons x info (rw held at a)) [
    | inl here ↦ rw (← here) (front, held)
    | inr there ↦ let (b, h) = in_scope-Among names infos x there in (behind b, h)
  ]
  | inr dropped ↦ let (b, h) = in_scope-Among names infos x (rw dropped at a) in (behind b, h)
]

has-bases :
    (subs : List Bytes) (n : Bytes)
    → has (bases subs) n ≡ true
    → (t : Bytes) × (has subs t ≡ true) × (base_of t ≡ n)
unfolding has bases
has-bases [] n h = cc
has-bases (s ∷ subs) n h = elim (Bool-cases (same (base_of s) n)) [
  | inl here ↦ (s, ground (arith, same_refl s), (same_iff (base_of s) n).0 here)
  | inr there ↦
      let (t, held, q) = has-bases subs n (ground (arith, h, there)) in (t, ground (arith, held), q)
]

pub Grouped-subdirs_of :
    (m : Dirs) (k : Bytes) (subs : List Bytes)
    → Grouped m
    → subdirs_of m k ≡ some subs
    → AllIn k subs
unfolding subdirs_of
Grouped-subdirs_of [] k subs g q = cc
Grouped-subdirs_of ((j, ss) ∷ m) k subs g q = elim (Bool-cases (same j k)) [
  | inl here ↦
      let key : j ≡ k = (same_iff j k).0 here in
      let list : ss ≡ subs = ground (arith, here, q) in rw (← key, ← list) g.0
  | inr there ↦ Grouped-subdirs_of m k subs g.1 (ground (arith, there, q))
]

pub is_empty-key :
    (m : Dirs) (k : Bytes) (subs : List Bytes) → subdirs_of m k ≡ some subs → is_empty m ≡ false
unfolding subdirs_of
is_empty-key [] k subs q = cc
is_empty-key (p ∷ m) k subs q = refl

pub AllIn-read_from :
    (k : Bytes) (subs : List Bytes) → AllIn k subs → is_empty subs ≡ false → read_from subs ≡ k
unfolding AllIn has read_from
AllIn-read_from k [] a h = cc
AllIn-read_from k (s ∷ subs) a h = a s (ground (arith, same_refl s))

module _ (e : System) where
  add_info-Among :
      (r : Result FileInfo) (rest : Result (List FileInfo)) (infos : List FileInfo) (x : FileInfo)
      → add_info e r rest ≡ ok infos
      → Among x infos
      → (r ≡ ok x) ⊎ ((is : List FileInfo) × (rest ≡ ok is) × Among x is)
  unfolding add_info
  add_info-Among (ok info) (ok is) infos x q a =
      elim (Among-cons x info (Among-eq x (ground (arith, q)) a)) [
        | inl here ↦ inl (ap ok here)
        | inr there ↦ inr (is, refl, there)
      ]
  add_info-Among (ok info) (err y) infos x q a = cc
  add_info-Among (err y) rest infos x q a = elim (Bool-cases (is_not_exist y)) [
    | inl gone ↦ inr (infos, ground (arith, gone, q), a)
    | inr other ↦ absurd (ground (arith, other, q))
  ]

  stat_subdirs-Among :
      (subs : List Bytes) (infos : List FileInfo) (x : FileInfo)
      → stat_subdirs e subs ≡ ok infos
      → Among x infos
      → (t : Bytes) × (has subs t ≡ true) × (e.lstat t ≡ ok x)
  unfolding stat_subdirs has
  stat_subdirs-Among [] infos x q a = absurd (not-Among x (ground (arith, q)) a)
  stat_subdirs-Among (s ∷ subs) infos x q a =
      elim (add_info-Among (e.lstat s) (stat_subdirs e subs) infos x q a) [
        | inl here ↦ (s, ground (arith, same_refl s), here)
        | inr (is, read, there) ↦
            let (t, held, info) = stat_subdirs-Among subs is x read there in
            (t, ground (arith, held), info)
      ]

  -- An entry that is listed of `dir` stands for a directory directly in it that is on the way to a package:
  -- it comes from the function `ReadDir` of the original context, applied to `dir`, and has the name of
  -- that directory, or from `os.Lstat` of it where the original context has no such function.
  pub data Shown (orig : FileContext) (dir : Bytes) (c : FileContext) (roots : List Bytes)
      (x : FileInfo) : Type 0 where
    by_context :
        (f : Bytes → Result (List FileInfo)) (infos : List FileInfo) (t : Bytes)
        → orig.read_dir ≡ some f
        → f dir ≡ ok infos
        → Among x infos
        → OnWay e c roots t
        → dir_of t ≡ dir
        → base_of t ≡ x.name
        → Shown orig dir c roots x
    by_system :
        (t : Bytes)
        → orig.read_dir ≡ none
        → OnWay e c roots t
        → dir_of t ≡ dir
        → e.lstat t ≡ ok x
        → Shown orig dir c roots x

  read_subdirs-Shown :
      (c ctxt : FileContext) (roots : List Bytes) (dir : Bytes) (subs : List Bytes)
      (infos : List FileInfo) (x : FileInfo)
      → AllIn dir subs
      → ((t : Bytes) → has subs t ≡ true → OnWay e ctxt roots t)
      → read_subdirs e c subs (bases subs) ≡ ok infos
      → Among x infos
      → Shown c dir ctxt roots x
  unfolding read_subdirs
  read_subdirs-Shown c ctxt roots dir [] infos x i on q a =
      absurd (not-Among x (ground (arith, q)) a)
  read_subdirs-Shown c ctxt roots dir (s ∷ subs) infos x i on q a = elim (Option-cases c.read_dir) [
    | inl files ↦
        let (t, held, q1) = stat_subdirs-Among (s ∷ subs) infos x (ground (arith, files, q)) a in
        by_system t files (on t held) (unfold AllIn in i t held) q1
    | inr (f, given) ↦
        let (fis, read, cut) =
          >>=-eq-ok {T = List FileInfo} {t = infos} (f (read_from (s ∷ subs)))
            (λ l. ok (in_scope (bases (s ∷ subs)) l)) (ground (arith, given, q)) in
        let scope : in_scope (bases (s ∷ subs)) fis ≡ infos = ground (arith, cut) in
        let (among, named) = in_scope-Among (bases (s ∷ subs)) fis x (Among-eq x scope a) in
        let (t, held, name) = has-bases (s ∷ subs) x.name named in
        let here = AllIn-read_from dir (s ∷ subs) i refl in
        by_context f fis t given (ap f (sym here) ∙ read) among (on t held)
          (unfold AllIn in i t held) name
  ]

  -- Of a directory that the map of a scoped context has, and that its scope covers neither by its
  -- directories of Go nor by those of its packages, `ReadDir` lists only entries that stand for a directory
  -- directly in it that is the package, the source root, or between them, for one of the packages of the
  -- scope that is no module. The entry is one that the original context's `ReadDir` lists there under the
  -- name of that directory, or where there is no such function, what `os.Lstat` returns of it.
  pub scoped_read_dir-Shown :
      (range : Dirs → Dirs) (c : FileContext) (pkgs : List Bytes) (s : Scope)
      → scoped_context e c pkgs ≡ ok s
      → (dir : Bytes) (subs : List Bytes) → some_covers s.goroots (clean dir) ≡ false
      → some_covers s.pkgdirs (clean dir) ≡ false
      → subdirs_of s.dirs (clean dir) ≡ some subs
      → (infos : List FileInfo) (x : FileInfo) → scoped_read_dir e range s dir ≡ ok infos
      → Among x infos
      → Shown s.orig (clean dir) (clean_go_paths c) (package_dirs e pkgs) x
  unfolding scoped_read_dir read_clean names_of
  scoped_read_dir-Shown range c pkgs s made dir subs out_root out_pkg key infos x q a =
      read_subdirs-Shown s.orig (clean_go_paths c) (package_dirs e pkgs) (clean dir) subs infos x
        (Grouped-subdirs_of s.dirs (clean dir) subs (scoped_context-Grouped e c pkgs s made) key)
        (λ t. scoped_context-OnWay e c pkgs s (clean dir) subs t made key)
        (ground (arith, q, out_root, out_pkg, key, is_empty-key s.dirs (clean dir) subs key)) a
