-- ===== src/ImportPath/Fast.antt =====
-- `hasSubdirImpl` of contextutil against the routine that it stands in for, `hasSubdirCtxt`.
use buildutil.Base.{
  Option, none, some, Bytes, Error, ok, err, length, ◌+◌, Result-cases, Option-cases, Bool-cases,
  inl, inr, ◌≡◌, arith,
}
use buildutil.Paths.{has_subdir}
use buildutil.FilePath.{clean}
use buildutil.ContextUtil.{FileInfo, FileContext, System}
use buildutil.ContextUtil.Subdir.{expanded_subdir, real_path, linked_subdir, apart, has_subdir_impl}
use buildutil.ContextUtil.Subdir.Laws.{link_loop-ends}
use buildutil.ImportPath.{has_subdir_ctxt, resolved_subdir, evaluated}
use buildutil.ImportPath.Links.{
  Apart, Linked, Unlinked, link_loop-Linked, link_loop-Unlinked, apart-Apart, near-Apart,
}

-- An answer of the fast routine for two clean paths. It is that of the slow one where the text of the
-- paths decides, and where the paths are not apart, the root can be read, and the walk up from the
-- directory meets a link or the root; and it is none where the paths are apart, where the root cannot be
-- read, and where the walk ends without meeting a link or the root.
pub data Fast (e : System) (c : FileContext) (root dir : Bytes) : Option Bytes → Type 0 where
  lexical :
      (rel : Bytes)
      → has_subdir root dir ≡ some rel
      → has_subdir_ctxt e c root dir ≡ some rel
      → Fast e c root dir (some rel)
  slow :
      (info : FileInfo)
      → (Apart c root dir → ⊥)
      → e.stat root ≡ ok info
      → Linked e info dir
      → Fast e c root dir (has_subdir_ctxt e c root dir)
  taken_apart : has_subdir root dir ≡ none → Apart c root dir → Fast e c root dir none
  no_root : (x : Error) → has_subdir root dir ≡ none → e.stat root ≡ err x → Fast e c root dir none
  no_link :
      (info : FileInfo)
      → has_subdir root dir ≡ none
      → e.stat root ≡ ok info
      → Unlinked e info dir
      → Fast e c root dir none

module _ (e : System) (c : FileContext) where
  Fast-eq :
      (root dir : Bytes) {o p : Option Bytes} → p ≡ o → Fast e c root dir o → Fast e c root dir p
  Fast-eq root dir q f = rw q f

  slow-lexical :
      (root dir rel : Bytes)
      → c.has_subdir ≡ none
      → has_subdir root dir ≡ some rel
      → has_subdir_ctxt e c root dir ≡ some rel
  unfolding has_subdir_ctxt
  slow-lexical root dir rel h q = ground (arith, h, q)

  slow-expanded :
      (root dir : Bytes)
      → c.has_subdir ≡ none
      → has_subdir root dir ≡ none
      → has_subdir_ctxt e c root dir ≡ expanded_subdir e root dir
  unfolding has_subdir_ctxt resolved_subdir evaluated expanded_subdir real_path
  slow-expanded root dir h q = ground (arith, h, q)

  linked_subdir-Fast :
      (root dir : Bytes)
      → c.has_subdir ≡ none
      → has_subdir root dir ≡ none
      → (Apart c root dir → ⊥)
      → Fast e c root dir (linked_subdir e root dir)
  unfolding linked_subdir
  linked_subdir-Fast root dir h apart_by near = elim (Result-cases (e.stat root)) [
    | inr (x, missing) ↦ Fast-eq root dir (ground (arith, missing)) (no_root x apart_by missing)
    | inl (info, found) ↦
        let (b, ended) = link_loop-ends e info dir in
        elim (Bool-cases b) [
          | inl expands ↦
              Fast-eq root dir
                (ground (arith, found, ended, expands, slow-expanded root dir h apart_by))
                (slow info near found
                  (link_loop-Linked e info (3 + length dir) dir (ground (arith, ended, expands))))
          | inr stays ↦ Fast-eq root dir (ground (arith, found, ended, stays)) (
              no_link info apart_by found
                (link_loop-Unlinked e info (3 + length dir) dir (ground (arith, ended, stays))))
        ]
  ]

  -- For a context with no function `HasSubdir`, `hasSubdirImpl` answers for two paths what
  -- `hasSubdirCtxt` answers for the cleaned paths, where one is below the other as a text, and where the
  -- paths are not apart, the root can be read, and walking up from the directory, with each directory
  -- read, meets a symbolic link or the root. It answers none in the other cases: where one path is GOROOT
  -- or below it and the other one in the GOPATH (they are apart), where the root cannot be read, and where
  -- the walk ends, at the top or at a directory that cannot be read, with no symbolic link and not the root
  -- on its way.
  pub has_subdir_impl-Fast :
      (root dir : Bytes)
      → c.has_subdir ≡ none
      → Fast e c (clean root) (clean dir) (has_subdir_impl e c root dir)
  unfolding has_subdir_impl
  has_subdir_impl-Fast root dir h = elim (Option-cases (has_subdir (clean root) (clean dir))) [
    | inr (rel, found) ↦
        Fast-eq (clean root) (clean dir) (ground (arith, found))
          (lexical rel found (slow-lexical (clean root) (clean dir) rel h found))
    | inl absent ↦ elim (Bool-cases (apart e c (clean root) (clean dir))) [
      | inl far ↦
          Fast-eq (clean root) (clean dir) (ground (arith, absent, far))
            (taken_apart absent (apart-Apart e c (clean root) (clean dir) far))
      | inr near ↦ Fast-eq (clean root) (clean dir) (ground (arith, absent, near)) (
          linked_subdir-Fast (clean root) (clean dir) h absent
            (near-Apart e c (clean root) (clean dir) near))
    ]
  ]
