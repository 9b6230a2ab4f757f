-- ===== src/ContextUtil/Subdir/Laws.antt =====
-- The search for symbolic links in `hasSubdirImpl` ends, and what `hasSubdirImpl` finds.
use buildutil.Base.{
  ℕ, zero, suc, ◌+◌, ◌<◌, Bool, true, false, ◌∷◌, ◌++◌, some, Bytes, same, length, ◌==◌,
  Result-cases, Option-cases, Bool-cases, ◌≡◌, inl, inr, arith,
}
use buildutil.Paths.{has_subdir}
use buildutil.Paths.Laws.{has_subdir_lem}
use buildutil.FilePath.{clean, dir_of}
use buildutil.FilePath.Shorter.{rank, rank-length, rank-dir_of}
use buildutil.ContextUtil.{FileInfo, FileContext, System}
use buildutil.ContextUtil.Subdir.{
  link_loop, real_path, expanded_subdir, linked_subdir, apart, has_subdir_impl,
}

pub data Expansion (e : System) (path : Bytes) : Bytes → Type 0 where
  itself : Expansion e path path
  real : Expansion e path (real_path e path)

-- The path behind `root`, a separator and `rel` is `dir`, where each is taken as it is or with its
-- symbolic links expanded.
pub record Subpath (e : System) (root dir rel : Bytes) : Type 0 where
  pub top : Bytes
  pub below : Bytes
  pub top_by : Expansion e root top
  pub below_by : Expansion e dir below
  pub parts : below ≡ top ++ (b'/' ∷ rel)

module _ (e : System) where
  link_loop-some :
      (f : ℕ) (root_info : FileInfo) (path : Bytes)
      → rank path < f
      → (b : Bool) × (link_loop e f root_info path ≡ some b)
  unfolding link_loop
  link_loop-some zero root_info path h = absurd (omega (arith, h))
  link_loop-some (suc f) root_info path h = elim (Result-cases (e.lstat path)) [
    | inr (x, missing) ↦ (false, ground (arith, missing))
    | inl (info, found) ↦ elim (Bool-cases info.is_symlink) [
      | inl link ↦ (true, ground (arith, found, link))
      | inr plain ↦ elim (Bool-cases (root_info.identity == info.identity)) [
        | inl root ↦ (true, ground (arith, found, plain, root))
        | inr other ↦ elim (Bool-cases (same (dir_of path) path)) [
          | inl top ↦ (false, ground (arith, found, plain, other, top))
          | inr on ↦
              let (b, q) =
                link_loop-some f root_info (dir_of path) (omega (arith, h, rank-dir_of path on)) in
              (b, ground (arith, found, plain, other, on, q))
        ]
      ]
    ]
  ]

  -- The loop of `hasSubdirImpl` up from a directory ends: its fuel is enough, for every file system.
  pub link_loop-ends :
      (root_info : FileInfo) (dir : Bytes)
      → (b : Bool) × (link_loop e (3 + length dir) root_info dir ≡ some b)
  link_loop-ends root_info dir =
      link_loop-some (3 + length dir) root_info dir (omega (arith, rank-length dir))

  Subpath-plain :
      (root dir rel top below : Bytes)
      → Expansion e root top
      → Expansion e dir below
      → has_subdir top below ≡ some rel
      → Subpath e root dir rel
  Subpath-plain root dir rel top below t b h = record {
    top = top;
    below = below;
    top_by = t;
    below_by = b;
    parts = has_subdir_lem top below rel h;
  }

  expanded_subdir-Subpath :
      (root dir rel : Bytes) → expanded_subdir e root dir ≡ some rel → Subpath e root dir rel
  unfolding expanded_subdir
  expanded_subdir-Subpath root dir rel q = elim (Option-cases (has_subdir (real_path e root) dir)) [
    | inr (a, found) ↦
        Subpath-plain root dir rel (real_path e root) dir real itself (ground (arith, found, q))
    | inl absent ↦ elim (Option-cases (has_subdir root (real_path e dir))) [
      | inr (a, found) ↦
          Subpath-plain root dir rel root (real_path e dir) itself real
            (ground (arith, absent, found, q))
      | inl nowhere ↦
          Subpath-plain root dir rel (real_path e root) (real_path e dir) real real
            (ground (arith, absent, nowhere, q))
    ]
  ]

  linked_subdir-Subpath :
      (root dir rel : Bytes) → linked_subdir e root dir ≡ some rel → Subpath e root dir rel
  unfolding linked_subdir
  linked_subdir-Subpath root dir rel q = elim (Result-cases (e.stat root)) [
    | inr (x, missing) ↦ absurd (ground (arith, missing, q))
    | inl (info, found) ↦
        let (b, ended) = link_loop-ends info dir in
        elim (Bool-cases b) [
          | inl expands ↦
              expanded_subdir-Subpath root dir rel (ground (arith, found, ended, expands, q))
          | inr stays ↦ absurd (ground (arith, found, ended, stays, q))
        ]
  ]

  -- If `hasSubdirImpl` finds a relative path, the directory is the root, a separator and that path,
  -- where each of the cleaned paths is taken as it is or with its symbolic links expanded.
  pub has_subdir_impl-Subpath :
      (c : FileContext) (root dir rel : Bytes)
      → has_subdir_impl e c root dir ≡ some rel
      → Subpath e (clean root) (clean dir) rel
  unfolding has_subdir_impl
  has_subdir_impl-Subpath c root dir rel q =
      elim (Option-cases (has_subdir (clean root) (clean dir))) [
        | inr (a, found) ↦
            Subpath-plain (clean root) (clean dir) rel (clean root) (clean dir) itself itself
              (ground (arith, found, q))
        | inl absent ↦ elim (Bool-cases (apart e c (clean root) (clean dir))) [
          | inl far ↦ absurd (ground (arith, absent, far, q))
          | inr near ↦
              linked_subdir-Subpath (clean root) (clean dir) rel (ground (arith, absent, near, q))
        ]
      ]
