-- ===== src/ImportPath/Links.antt =====
-- The walk of `hasSubdirImpl` of contextutil up from a directory, and the paths that it takes to be apart.
use buildutil.Base.{
  ℕ, zero, suc, true, false, ◌||◌, ◌&&◌, Bytes, Error, ok, err, some, same, same_iff, ◌==◌, ◌≡◌,
  ◌≢◌, ◌⊎◌, inl, inr, arith, Bool-cases, Result-cases,
}
use buildutil.Paths.{is_subdir}
use buildutil.FilePath.{clean, dir_of}
use buildutil.ContextUtil.{FileInfo, FileContext, System}
use buildutil.ContextUtil.Subdir.{apart, in_gopath, link_loop}

abbrev pub InGoroot : FileContext → Bytes → Type 0
InGoroot c p = (p ≡ clean c.goroot) ⊎ (is_subdir (clean c.goroot) p ≡ true)

-- One of the paths is GOROOT or below it, and the other one in GOPATH.
abbrev pub Apart : FileContext → Bytes → Bytes → Type 0
Apart c root dir =
    (InGoroot c root × (in_gopath c dir ≡ true)) ⊎ (InGoroot c dir × (in_gopath c root ≡ true))

-- The directory or one above it is a symbolic link or the file `root_info`, and each one below that can be
-- read.
pub data Linked (e : System) (root_info : FileInfo) : Bytes → Type 0 where
  symlink :
      {p : Bytes} (i : FileInfo) → e.lstat p ≡ ok i → i.is_symlink ≡ true → Linked e root_info p
  same_file :
      {p : Bytes} (i : FileInfo)
      → e.lstat p ≡ ok i
      → root_info.identity ≡ i.identity
      → Linked e root_info p
  above :
      {p : Bytes} (i : FileInfo)
      → e.lstat p ≡ ok i
      → dir_of p ≢ p
      → Linked e root_info (dir_of p)
      → Linked e root_info p

-- Neither the directory nor one above it is a symbolic link or the file `root_info`, up to the top or to one
-- that cannot be read.
pub data Unlinked (e : System) (root_info : FileInfo) : Bytes → Type 0 where
  unread : {p : Bytes} (x : Error) → e.lstat p ≡ err x → Unlinked e root_info p
  top :
      {p : Bytes} (i : FileInfo)
      → e.lstat p ≡ ok i
      → i.is_symlink ≡ false
      → root_info.identity ≢ i.identity
      → dir_of p ≡ p
      → Unlinked e root_info p
  up :
      {p : Bytes} (i : FileInfo)
      → e.lstat p ≡ ok i
      → i.is_symlink ≡ false
      → root_info.identity ≢ i.identity
      → Unlinked e root_info (dir_of p)
      → Unlinked e root_info p

equal : (a b : ℕ) → (a == b) ≡ true → a ≡ b
equal a b h = ground (arith, h)

not_equal : (a b : ℕ) → (a == b) ≡ false → a ≢ b
not_equal a b h q = ground (arith, h, q)

not_same : (a b : Bytes) → same a b ≡ false → a ≢ b
not_same a b h q = ground (arith, h, (same_iff a b).1 q)

module _ (e : System) (root_info : FileInfo) where
  pub link_loop-Linked :
      (f : ℕ) (p : Bytes) → link_loop e f root_info p ≡ some true → Linked e root_info p
  unfolding link_loop
  link_loop-Linked zero p h = cc
  link_loop-Linked (suc f) p h = elim (Result-cases (e.lstat p)) [
    | inr (x, missing) ↦ absurd (ground (arith, missing, h))
    | inl (i, found) ↦ elim (Bool-cases i.is_symlink) [
      | inl link ↦ symlink i found link
      | inr plain ↦ elim (Bool-cases (root_info.identity == i.identity)) [
        | inl root ↦ same_file i found (equal _ _ root)
        | inr other ↦ elim (Bool-cases (same (dir_of p) p)) [
          | inl last ↦ absurd (ground (arith, found, plain, other, last, h))
          | inr more ↦
              above i found (not_same (dir_of p) p more)
                (link_loop-Linked f (dir_of p) (ground (arith, found, plain, other, more, h)))
        ]
      ]
    ]
  ]

  pub link_loop-Unlinked :
      (f : ℕ) (p : Bytes) → link_loop e f root_info p ≡ some false → Unlinked e root_info p
  unfolding link_loop
  link_loop-Unlinked zero p h = cc
  link_loop-Unlinked (suc f) p h = elim (Result-cases (e.lstat p)) [
    | inr (x, missing) ↦ unread x missing
    | inl (i, found) ↦ elim (Bool-cases i.is_symlink) [
      | inl link ↦ absurd (ground (arith, found, link, h))
      | inr plain ↦ elim (Bool-cases (root_info.identity == i.identity)) [
        | inl root ↦ absurd (ground (arith, found, plain, root, h))
        | inr other ↦ elim (Bool-cases (same (dir_of p) p)) [
          | inl last ↦ top i found plain (not_equal _ _ other) ((same_iff (dir_of p) p).0 last)
          | inr more ↦
              up i found plain (not_equal _ _ other)
                (link_loop-Unlinked f (dir_of p) (ground (arith, found, plain, other, more, h)))
        ]
      ]
    ]
  ]

in_goroot :
    (goroot p : Bytes)
    → (same p goroot || is_subdir goroot p) ≡ true
    → (p ≡ goroot) ⊎ (is_subdir goroot p ≡ true)
in_goroot goroot p h = elim (Bool-cases (same p goroot)) [
  | inl this ↦ inl ((same_iff p goroot).0 this)
  | inr other ↦ inr (ground (arith, other, h))
]

of_goroot :
    (goroot p : Bytes)
    → (p ≡ goroot) ⊎ (is_subdir goroot p ≡ true)
    → (same p goroot || is_subdir goroot p) ≡ true
of_goroot goroot p (inl this) = ground (arith, (same_iff p goroot).1 this)
of_goroot goroot p (inr below) = ground (arith, below)

module _ (e : System) (c : FileContext) (root dir : Bytes) where
  pub apart-Apart : apart e c root dir ≡ true → Apart c root dir
  unfolding apart
  apart-Apart h =
      let goroot = clean c.goroot in
      let first = (same root goroot || is_subdir goroot root) && in_gopath c dir in
      elim (Bool-cases first) [
        | inl one ↦ inl (in_goroot goroot root (ground (arith, one)), ground (arith, one))
        | inr other ↦
            inr (in_goroot goroot dir (ground (arith, other, h)), ground (arith, other, h))
      ]

  Apart-apart : Apart c root dir → apart e c root dir ≡ true
  unfolding apart
  Apart-apart (inl (h, g)) = ground (arith, of_goroot (clean c.goroot) root h, g)
  Apart-apart (inr (h, g)) = ground (arith, of_goroot (clean c.goroot) dir h, g)

  pub near-Apart : apart e c root dir ≡ false → Apart c root dir → ⊥
  near-Apart near far = let h = Apart-apart far in ground (arith, near, h)
