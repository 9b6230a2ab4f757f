-- ===== src/Generator.antt =====
-- genplatforms.go: the tables that the generator of platform_list.go prints.
pub mod Tables
pub mod Text
pub mod Output
use buildutil.Base.{
  Bool, true, false, not, List, [], ◌∷◌, ◌++◌, Option, none, some, if◌then◌else◌, Bytes, Keys, has,
  put, same, sort_strings,
}
use buildutil.Platforms.{GoPlatform, Table, row}
use buildutil.Platforms.Laws.{supports}

-- `m[k] == nil`, turned round.
unfoldable pub is_row : Table → Bytes → Bool
is_row t k = elim (row t k) [ none ↦ false | some r ↦ true ]

-- `m[k][v] = true`, for a key with a row.
unfoldable pub set_cell : Bytes → Bytes → Table → Table
set_cell k v [] = []
set_cell k v ((j, r) ∷ t) =
    let rest = set_cell k v t in if same j k then (j, put v r) ∷ t else (j, r) ∷ rest

-- The variables `oses`, `arches`, `supportedOSArch` and `seenArches`.
pub record Gathered : Type 0 where
  pub oses : List Bytes
  pub arches : List Bytes
  pub table : Table
  pub seen : Keys

-- The first statement of the loop that fills them.
unfoldable pub add_os : Bytes → Gathered → Gathered
add_os os g =
    if not (is_row g.table os)
    then record g { table = g.table ++ ((os, []) ∷ []); oses = g.oses ++ (os ∷ []) }
    else g

-- The last statement of that loop.
unfoldable pub add_arch : Bytes → Gathered → Gathered
add_arch arch g =
    if not (has g.seen arch)
    then record g { seen = put arch g.seen; arches = g.arches ++ (arch ∷ []) }
    else g

-- One round of that loop.
unfoldable pub add_platform : GoPlatform → Gathered → Gathered
add_platform p g =
    let opened = add_os p.goos g in
    add_arch p.goarch (record opened { table = set_cell p.goos p.goarch opened.table })

unfoldable pub gather : List GoPlatform → Gathered → Gathered
gather [] g = g
gather (p ∷ ps) g = gather ps (add_platform p g)

abbrev pub nothing_gathered : Gathered
nothing_gathered = record { oses = []; arches = []; table = []; seen = [] }

-- The keys of one printed row: those that the test lets through.
unfoldable pub selected : (Bytes → Bool) → List Bytes → Keys
selected q [] = []
selected q (k ∷ ks) = let rest = selected q ks in if q k then k ∷ rest else rest

-- The loops that print a table.
unfoldable pub printed : (Bytes → Bytes → Bool) → List Bytes → List Bytes → Table
printed q [] columns = []
printed q (k ∷ ks) columns = (k, selected (q k) columns) ∷ printed q ks columns

-- The printed `supportedPlatformsOsArch`.
unfoldable pub generated_os_arch : List GoPlatform → Table
generated_os_arch ps =
    let g = gather ps nothing_gathered in
    printed (supports g.table) (sort_strings g.oses) (sort_strings g.arches)

-- The printed `supportedPlatformsArchOs`.
unfoldable pub generated_arch_os : List GoPlatform → Table
generated_arch_os ps =
    let g = gather ps nothing_gathered in
    printed (λ arch os. supports g.table os arch) (sort_strings g.arches) (sort_strings g.oses)

-- The printed `cgoEnabled`.
unfoldable pub generated_cgo : List GoPlatform → Keys
generated_cgo [] = []
generated_cgo (p ∷ ps) =
    let rest = generated_cgo ps in
    if p.cgo_supported then (p.goos ++ (b'/' ∷ p.goarch)) ∷ rest else rest
