-- ===== src/ContextUtil/Search.antt =====
-- What the search of `ContainingDirectory` finds, and `FindProjectRoot` by it.
use buildutil.Base.{
  ap, ◌∙◌, some, ◌∷◌, ◌⊎◌, Error, [], if◌then◌else◌, ℕ, zero, suc, ◌<◌, ◌≤◌, true, false, not, ◌&&◌,
  List, none, leb, Bytes, same, same_iff, length, is_empty, path_error, Result, ok, err, not_exist,
  ◌≡◌, ◌≢◌, refl, inl, inr, arith, Bool-cases, Result-cases,
}
use buildutil.FilePath.{clean, dir_of}
use buildutil.ContextUtil.{
  FileContext, System, holds_tombstone, containing_loop, found_or_child, stop_dir, all_tombstones,
  containing_directory, abs_path, is_file, source_root, root_of, find_project_root,
}

leb-true : (a b : ℕ) → leb a b ≡ true → a ≤ b
leb-true a b h = ground (arith, h)

leb-false : (a b : ℕ) → leb a b ≡ false → b < a
leb-false a b h = ground (arith, h)

not_same : (a b : Bytes) → same a b ≡ false → a ≢ b
not_same a b h q = ground (arith, h, (same_iff a b).1 q)

-- `d` is `dir`, or a directory above it by `filepath.Dir`.
pub data Above (d : Bytes) : Bytes → Type 0 where
  level : Above d d
  over : {dir : Bytes} → Above d (dir_of dir) → Above d dir

module _ (e : System) (c : FileContext) (names : List Bytes) (stop : Bytes) where
  -- The search goes on above the directory: it has no tombstone, and is not the last one.
  pub record Passed (dir : Bytes) : Type 0 where
    pub bare : holds_tombstone e c names dir ≡ false
    pub below : dir ≢ stop
    pub shrinks : length (dir_of dir) < length dir

  -- A search that starts at the directory: it ends at the first one that has a tombstone, and with an
  -- error at `stop` and where `filepath.Dir` goes no further up.
  pub data Search : Bytes → Result Bytes → Type 0 where
    holding : {dir : Bytes} → holds_tombstone e c names dir ≡ true → Search dir (ok dir)
    stopped :
        {dir : Bytes}
        → holds_tombstone e c names dir ≡ false
        → dir ≡ stop
        → Search dir (err (path_error not_exist))
    topped :
        {dir : Bytes}
        → holds_tombstone e c names dir ≡ false
        → length dir ≤ length (dir_of dir)
        → Search dir (err (path_error not_exist))
    passing : {dir : Bytes} {r : Result Bytes} → Passed dir → Search (dir_of dir) r → Search dir r

  pub containing_loop-Search :
      (f : ℕ) (dir : Bytes) → length dir < f → Search dir (containing_loop e f c names stop dir)
  unfolding containing_loop
  containing_loop-Search zero dir h = absurd (omega (arith, h))
  containing_loop-Search (suc f) dir h = elim (Bool-cases (holds_tombstone e c names dir)) [
    | inl held ↦ rw held (holding held)
    | inr bare ↦ rw bare (elim (Bool-cases (same dir stop)) [
      | inl last ↦ rw last (stopped bare ((same_iff dir stop).0 last))
      | inr off ↦ rw off (elim (Bool-cases (leb (length dir) (length (dir_of dir)))) [
        | inl top ↦ rw top (topped bare (leb-true _ _ top))
        | inr more ↦
            let short = leb-false (length dir) (length (dir_of dir)) more in
            let passed : Passed dir = record {
              bare = bare;
              below = λ q. not_same dir stop off q;
              shrinks = short;
            } in
            rw more
              (passing passed (containing_loop-Search f (dir_of dir) (omega (arith, h, short))))
      ])
    ])
  ]

  Search-ok :
      {dir d : Bytes} {r : Result Bytes}
      → Search dir r
      → r ≡ ok d
      → Above d dir × (holds_tombstone e c names d ≡ true)
  Search-ok {dir} {d} (holding held) q =
      let same_dir : dir ≡ d = cc in rw (← same_dir) (level, held)
  Search-ok (stopped bare h) q = cc
  Search-ok (topped bare h) q = cc
  Search-ok (passing p s) q = let (a, held) = Search-ok s q in (over a, held)

  Search-err :
      {dir : Bytes} {x : Error} {r : Result Bytes}
      → Search dir r
      → r ≡ err x
      → x ≡ path_error not_exist
  Search-err (holding held) q = cc
  Search-err (stopped bare h) q = cc
  Search-err (topped bare h) q = cc
  Search-err (passing p s) q = Search-err s q

module _ (e : System) where
  stop_dir_lem :
      (stop_at : Bytes) → stop_dir e stop_at ≡ (if is_empty stop_at then [] else clean stop_at)
  unfolding stop_dir
  stop_dir_lem [] = refl
  stop_dir_lem (b ∷ s) = refl

  containing_directory-found :
      (c : FileContext) (child stop_at : Bytes) (names : List Bytes)
      → is_empty names ≡ false
      → (not (is_empty stop_at) && not (e.is_abs_path c stop_at)) ≡ false
      → e.is_abs_path c child ≡ true
      → (r : Result Bytes)
      → containing_loop e (suc (length (clean child))) c names (stop_dir e stop_at) (clean child)
        ≡ r
      → containing_directory e c child stop_at names ≡ found_or_child e child r
  unfolding containing_directory
  containing_directory-found c child stop_at names some_names stops absolute r q =
      rw (some_names, stops, absolute, q) refl

  -- For absolute paths and at least one tombstone, the search of `ContainingDirectory` starts at the
  -- cleaned child and always ends: at the nearest directory that has a tombstone, which is then the
  -- result, with no error; or at the cleaned `stopAt`, if that is not empty, or where `filepath.Dir` goes
  -- no further up, and then the result is the child as it was given, with `ErrNotExist`.
  pub containing_directory-Search :
      (c : FileContext) (child stop_at : Bytes) (names : List Bytes)
      → is_empty names ≡ false
      → (not (is_empty stop_at) && not (e.is_abs_path c stop_at)) ≡ false
      → e.is_abs_path c child ≡ true
      → let stop = if is_empty stop_at then [] else clean stop_at in
        ((d : Bytes) × Search e c names stop (clean child) (ok d)
          × (containing_directory e c child stop_at names ≡ (d, none)))
        ⊎ (Search e c names stop (clean child) (err (path_error not_exist))
            × (containing_directory e c child stop_at names ≡ (child, some (path_error not_exist))))
  unfolding found_or_child
  containing_directory-Search c child stop_at names some_names stops absolute =
      let n = suc (length (clean child)) in
      let searched =
        containing_loop-Search e c names (stop_dir e stop_at) n (clean child) (omega arith) in
      let answer = containing_directory-found c child stop_at names some_names stops absolute in
      elim (Result-cases (containing_loop e n c names (stop_dir e stop_at) (clean child))) [
        | inl (d, q) ↦ inl (d, rw (q, stop_dir_lem stop_at) at searched, answer (ok d) q)
        | inr (x, q) ↦
            let none_left = Search-err e c names (stop_dir e stop_at) searched q in
            let ended = q ∙ ap err none_left in
            inr (
              rw (ended, stop_dir_lem stop_at) at searched,
              answer (err (path_error not_exist)) ended,
            )
      ]

  containing_directory-none :
      (c : FileContext) (child stop_at : Bytes) (names : List Bytes) (d : Bytes)
      → containing_directory e c child stop_at names ≡ (d, none)
      → Above d (clean child) × (holds_tombstone e c names d ≡ true)
  unfolding containing_directory found_or_child
  containing_directory-none c child stop_at names d h =
      let r =
        containing_loop e (suc (length (clean child))) c names (stop_dir e stop_at) (clean child) in
      let s =
        containing_loop-Search e c names (stop_dir e stop_at) (suc (length (clean child)))
          (clean child) (omega arith) in
      elim (Result-cases r) [
        | inl (x, q) ↦ Search-ok e c names (stop_dir e stop_at) s (ground (arith, q, h))
        | inr (x, q) ↦ absurd (ground (arith, q, h))
      ]

  root_of-eq :
      (c : FileContext) (path : Bytes) (extra : List Bytes) (p : Bytes)
      → abs_path e c path ≡ ok p
      → (d : Bytes) → find_project_root e c path extra ≡ (d, none)
      → root_of e c p extra ≡ (d, none)
  unfolding find_project_root
  root_of-eq c path extra p q d h = ground (arith, q, h)

  -- A project root that `FindProjectRoot` finds has one of the tombstones, the given ones or those of
  -- `DefaultProjectTombstones`, and is the cleaned start of the search or above it. The start is the
  -- absolute path, or its directory if it is a file.
  pub find_project_root-none :
      (c : FileContext) (path : Bytes) (extra : List Bytes) (d : Bytes)
      → find_project_root e c path extra ≡ (d, none)
      → (p : Bytes) × (abs_path e c path ≡ ok p)
        × Above d (clean (if is_file e c p then dir_of p else p))
        × (holds_tombstone e c (all_tombstones e extra) d ≡ true)
  unfolding find_project_root root_of
  find_project_root-none c path extra d h = elim (Result-cases (abs_path e c path)) [
    | inl (p, q) ↦
        let start = if is_file e c p then dir_of p else p in
        let (a, held) =
          containing_directory-none c start (source_root e (e.src_dirs c) start)
            (all_tombstones e extra) d (root_of-eq c path extra p q d h) in
        (p, q, a, held)
    | inr (x, q) ↦ absurd (ground (arith, q, h))
  ]
