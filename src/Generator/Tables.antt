-- ===== src/Generator/Tables.antt =====
-- The generated tables have exactly the platforms of the list.
use buildutil.Base.{
  Bool, true, false, ◌&&◌, ◌||◌, List, [], ◌∷◌, ◌++◌, Bytes, has, has-append, has-put, same,
  same_iff, same_refl, sort_strings, has-sort_strings, ◌≡◌, refl, sym, ap, ◌∙◌, arith,
}
use buildutil.Platforms.{GoPlatform, Table, row}
use buildutil.Platforms.Laws.{supports, listed, is_platform}
use buildutil.Generator.{
  is_row, set_cell, Gathered, add_os, add_arch, add_platform, gather, nothing_gathered, selected,
  printed, generated_os_arch, generated_arch_os,
}

supports-append : (t : Table) (k a b : Bytes) → supports (t ++ ((k, []) ∷ [])) a b ≡ supports t a b
unfolding supports row has
supports-append [] k a b = ground arith
supports-append ((j, r) ∷ t) k a b = ground (arith, supports-append t k a b)

is_row-append :
    (t : Table) (k a : Bytes) → is_row (t ++ ((k, []) ∷ [])) a ≡ (is_row t a || same k a)
unfolding is_row row
is_row-append [] k a = ground arith
is_row-append ((j, r) ∷ t) k a = ground (arith, is_row-append t k a)

is_row-set_cell : (k v : Bytes) (t : Table) (a : Bytes) → is_row (set_cell k v t) a ≡ is_row t a
unfolding is_row row set_cell
is_row-set_cell k v [] a = refl
is_row-set_cell k v ((j, r) ∷ t) a = ground (arith, is_row-set_cell k v t a)

supports-set_cell :
    (k v : Bytes) (t : Table) (a b : Bytes)
    → is_row t k ≡ true
    → supports (set_cell k v t) a b ≡ (supports t a b || (same k a && same v b))
unfolding is_row row set_cell supports
supports-set_cell k v [] a b h = cc
supports-set_cell k v ((j, r) ∷ t) a b h =
    ground (
      arith,
      h,
      supports-set_cell k v t a b,
      has-put v r b,
      same_iff j k,
      same_iff j a,
      same_iff k a,
    )

-- The lists of the generator have the keys of its maps.
record Level (g : Gathered) : Type 0 where
  rows : (k : Bytes) → has g.oses k ≡ is_row g.table k
  columns : (k : Bytes) → has g.arches k ≡ has g.seen k

supports-add_os :
    (os : Bytes) (g : Gathered) (a b : Bytes)
    → supports (add_os os g).table a b ≡ supports g.table a b
unfolding add_os
supports-add_os os g a b = ground (arith, supports-append g.table os a b)

oses-add_os :
    (os : Bytes) (g : Gathered) (a : Bytes)
    → has g.oses os ≡ is_row g.table os
    → has (add_os os g).oses a ≡ (has g.oses a || same os a)
unfolding add_os has
oses-add_os os g a h = ground (arith, h, has-append g.oses (os ∷ []) a, same_iff os a)

is_row-add_os :
    (os : Bytes) (g : Gathered) (a : Bytes)
    → is_row (add_os os g).table a ≡ (is_row g.table a || same os a)
unfolding add_os
is_row-add_os os g a = ground (arith, is_row-append g.table os a, same_iff os a)

arches-add_arch :
    (arch : Bytes) (g : Gathered) (b : Bytes)
    → has g.arches arch ≡ has g.seen arch
    → has (add_arch arch g).arches b ≡ (has g.arches b || same arch b)
unfolding add_arch has
arches-add_arch arch g b h = ground (arith, h, has-append g.arches (arch ∷ []) b, same_iff arch b)

seen-add_arch :
    (arch : Bytes) (g : Gathered) (b : Bytes)
    → has (add_arch arch g).seen b ≡ (has g.seen b || same arch b)
unfolding add_arch
seen-add_arch arch g b = ground (arith, has-put arch g.seen b, same_iff arch b)

-- `add_os` keeps the architectures, and `add_arch` the systems and the table.
arches-add_os : (os : Bytes) (g : Gathered) → (add_os os g).arches ≡ g.arches
unfolding add_os
arches-add_os os g = ground arith

seen-add_os : (os : Bytes) (g : Gathered) → (add_os os g).seen ≡ g.seen
unfolding add_os
seen-add_os os g = ground arith

oses-add_arch : (arch : Bytes) (g : Gathered) → (add_arch arch g).oses ≡ g.oses
unfolding add_arch
oses-add_arch arch g = ground arith

table-add_arch : (arch : Bytes) (g : Gathered) → (add_arch arch g).table ≡ g.table
unfolding add_arch
table-add_arch arch g = ground arith

-- What a round has added.
record Adds (p : GoPlatform) (g h : Gathered) : Type 0 where
  level : Level h
  cells : (a b : Bytes) → supports h.table a b ≡ (supports g.table a b || is_platform a b p)
  oses_of : (a : Bytes) → has h.oses a ≡ (has g.oses a || same p.goos a)
  arches_of : (b : Bytes) → has h.arches b ≡ (has g.arches b || same p.goarch b)

add_platform-Adds : (p : GoPlatform) (g : Gathered) → Level g → Adds p g (add_platform p g)
unfolding add_platform is_platform
add_platform-Adds p g l =
    let o = add_os p.goos g in
    let s : Gathered = record o { table = set_cell p.goos p.goarch o.table } in
    let row_there : is_row o.table p.goos ≡ true =
      ground (arith, is_row-add_os p.goos g p.goos, same_refl p.goos) in
    let oses : (a : Bytes) → has (add_arch p.goarch s).oses a ≡ (has g.oses a || same p.goos a) =
      λ a. ap (λ x. has x a) (oses-add_arch p.goarch s) ∙ oses-add_os p.goos g a (l.rows p.goos) in
    let known : has s.arches p.goarch ≡ has s.seen p.goarch =
      ap (λ x. has x p.goarch) (arches-add_os p.goos g)
      ∙ l.columns p.goarch
      ∙ sym (ap (λ x. has x p.goarch) (seen-add_os p.goos g)) in
    let arches : (b : Bytes)
        → has (add_arch p.goarch s).arches b ≡ (has g.arches b || same p.goarch b) =
      λ b.
        arches-add_arch p.goarch s b known
        ∙ ap (λ x. has x b || same p.goarch b) (arches-add_os p.goos g) in
    record {
      level = record {
        rows = λ k. ground (
          arith,
          oses k,
          l.rows k,
          ap (λ x. is_row x k) (table-add_arch p.goarch s),
          is_row-set_cell p.goos p.goarch o.table k,
          is_row-add_os p.goos g k,
        );
        columns = λ k. ground (
          arith,
          arches k,
          l.columns k,
          seen-add_arch p.goarch s k,
          ap (λ x. has x k) (seen-add_os p.goos g),
        );
      };
      cells = λ a b.
          ap (λ x. supports x a b) (table-add_arch p.goarch s)
          ∙ supports-set_cell p.goos p.goarch o.table a b row_there
          ∙ ap (λ x. x || (same p.goos a && same p.goarch b)) (supports-add_os p.goos g a b);
      oses_of = oses;
      arches_of = arches;
    }

-- What all rounds have gathered, beside what was there.
record Gathers (ps : List GoPlatform) (g h : Gathered) : Type 0 where
  cells : (a b : Bytes) → supports h.table a b ≡ (supports g.table a b || listed ps a b)
  oses_of : (a b : Bytes) → (has g.oses a || listed ps a b) ≡ true → has h.oses a ≡ true
  arches_of : (a b : Bytes) → (has g.arches b || listed ps a b) ≡ true → has h.arches b ≡ true

gather-Gathers : (ps : List GoPlatform) (g : Gathered) → Level g → Gathers ps g (gather ps g)
unfolding gather listed is_platform
gather-Gathers [] g l = record {
  cells = λ a b. ground arith;
  oses_of = λ a b h. ground (arith, h);
  arches_of = λ a b h. ground (arith, h);
}
gather-Gathers (p ∷ ps) g l =
    let first = add_platform-Adds p g l in
    let rest = gather-Gathers ps (add_platform p g) first.level in
    record {
      cells = λ a b. ground (arith, rest.cells a b, first.cells a b);
      oses_of = λ a b h. rest.oses_of a b (ground (arith, h, first.oses_of a));
      arches_of = λ a b h. rest.arches_of a b (ground (arith, h, first.arches_of b));
    }

has-selected :
    (q : Bytes → Bool) (ks : List Bytes) (k : Bytes) → has (selected q ks) k ≡ (has ks k && q k)
unfolding has selected
has-selected q [] k = refl
has-selected q (j ∷ ks) k = ground (arith, has-selected q ks k, same_iff j k)

supports-printed :
    (q : Bytes → Bytes → Bool) (ks columns : List Bytes) (a b : Bytes)
    → supports (printed q ks columns) a b ≡ (has ks a && (has columns b && q a b))
unfolding supports row printed has
supports-printed q [] columns a b = refl
supports-printed q (k ∷ ks) columns a b =
    ground (arith, supports-printed q ks columns a b, has-selected (q k) columns b, same_iff k a)

nothing-Level : Level nothing_gathered
unfolding has is_row row
nothing-Level = record { rows = λ k. refl; columns = λ k. refl }

nothing-supports : (a b : Bytes) → supports [] a b ≡ false
unfolding supports row
nothing-supports a b = refl

-- For every list of platforms, both generated tables have exactly the pairs of system and architecture
-- of the list.
pub generated-listed :
    (ps : List GoPlatform) (os arch : Bytes)
    → (supports (generated_os_arch ps) os arch ≡ listed ps os arch)
      × (supports (generated_arch_os ps) arch os ≡ listed ps os arch)
unfolding generated_os_arch generated_arch_os
generated-listed ps os arch =
    let g = gather ps nothing_gathered in
    let all = gather-Gathers ps nothing_gathered nothing-Level in
    let cells : supports g.table os arch ≡ listed ps os arch =
      all.cells os arch ∙ ap (λ x. x || listed ps os arch) (nothing-supports os arch) in
    let table =
      supports-printed (supports g.table) (sort_strings g.oses) (sort_strings g.arches) os arch in
    let turned =
      supports-printed (λ b a. supports g.table a b) (sort_strings g.arches) (sort_strings g.oses)
        arch os in
    let o = has-sort_strings g.oses os in
    let a = has-sort_strings g.arches arch in
    let is_os : listed ps os arch ≡ true → has g.oses os ≡ true =
      λ h. all.oses_of os arch (ground (arith, h)) in
    let is_arch : listed ps os arch ≡ true → has g.arches arch ≡ true =
      λ h. all.arches_of os arch (ground (arith, h)) in
    (
      ground (arith, cells, table, o, a, is_os, is_arch),
      ground (arith, cells, turned, o, a, is_os, is_arch),
    )
