-- ===== src/Generator/Text.antt =====
-- The text that genplatforms.go prints.
use buildutil.Base.{
  Bool, true, false, not, ◌&&◌, ◌||◌, List, [], ◌∷◌, ◌++◌, if◌then◌else◌, Bytes, codes, same,
  sort_strings,
}
use buildutil.Platforms.{GoPlatform}
use buildutil.Platforms.Laws.{supports}
use buildutil.Generator.{gather, nothing_gathered}

-- The function that `sortPlatforms` sorts by.
unfoldable pub platform_before : GoPlatform → GoPlatform → Bool
platform_before p q =
    if p.first_class
    then (if not q.first_class
        then true
        else same q.goarch (codes "386") || same q.goarch (codes "arm"))
    else false

-- A text, and a line feed: `fmt.Fprintln`.
abbrev pub line : Bytes → Bytes
line s = s ++ codes "\n"

-- `%t`
abbrev pub bool_text : Bool → Bytes
bool_text b = if b then codes "true" else codes "false"

-- `sortPlatforms`; `slice_stable` is `sort.SliceStable`.
unfoldable pub sort_platforms :
    ((GoPlatform → GoPlatform → Bool) → List GoPlatform → List GoPlatform)
    → List GoPlatform
    → List GoPlatform
sort_platforms slice_stable ps = slice_stable platform_before ps

-- `quote` is `%q`.
module _ (quote : Bytes → Bytes) where
  -- One row of `DefaultGoPlatforms`.
  unfoldable pub platform_row : GoPlatform → Bytes
  platform_row p = line (
      codes "\t{"
      ++ (quote p.goos
          ++ (codes ", "
              ++ (quote p.goarch
                  ++ (codes ", "
                      ++ (bool_text p.cgo_supported
                          ++ (codes ", " ++ (bool_text p.first_class ++ codes "},"))))))))

  -- The loop that prints them; the flag is the variable `firstClass`.
  unfoldable pub print_platforms : Bool → List GoPlatform → Bytes
  print_platforms first [] = []
  print_platforms first (p ∷ ps) =
      let turns = first && not p.first_class in
      let rest = print_platforms (if turns then false else first) ps in
      let heading = if turns then line [] ++ line (codes "\t// second class platforms") else [] in
      heading ++ (platform_row p ++ rest)

  -- The loop that prints `cgoEnabled`.
  unfoldable pub print_cgo : List GoPlatform → Bytes
  print_cgo [] = []
  print_cgo (p ∷ ps) =
      let rest = print_cgo ps in
      if p.cgo_supported
      then line (
          codes "\t"
          ++ (quote (p.goos ++ (codes "/" ++ p.goarch))
              ++ (codes ": " ++ (bool_text p.cgo_supported ++ codes ","))))
        ++ rest
      else rest

  -- The inner loop that prints a row of a table.
  unfoldable pub print_cells : (Bytes → Bool) → List Bytes → Bytes
  print_cells q [] = []
  print_cells q (k ∷ ks) =
      let rest = print_cells q ks in
      if q k
      then line (codes "\t\t" ++ (quote k ++ (codes ": " ++ (bool_text true ++ codes ",")))) ++ rest
      else rest

  -- The outer loop.
  unfoldable pub print_table : (Bytes → Bytes → Bool) → List Bytes → List Bytes → Bytes
  print_table q [] columns = []
  print_table q (k ∷ ks) columns =
      let rest = print_table q ks columns in
      line (codes "\t" ++ (quote k ++ codes ": {"))
      ++ (print_cells (q k) columns ++ (line (codes "\t},") ++ rest))

  -- What `main` prints before `format.Source`: `command` is the base of the program's name, `version` is
  -- `runtime.Version()`,
  -- and `sorted` what `sortPlatforms` returns.
  unfoldable pub printed_text : Bytes → Bytes → Bytes → List GoPlatform → List GoPlatform → Bytes
  unfolding print_platforms print_cgo print_cells print_table
  printed_text command version package_name sorted platforms =
      let g = gather platforms nothing_gathered in
      let oses = sort_strings g.oses in
      let arches = sort_strings g.arches in
      line (codes "// Code generated by " ++ (command ++ codes "; DO NOT EDIT."))
      ++ (line (codes "// go version: " ++ version)
          ++ (line []
              ++ (line (codes "package  " ++ package_name)
                  ++ (line []
                      ++ (line
                            (codes "// DefaultGoPlatforms are the default supported Go platforms")
                          ++ (line (
                                codes
                                  "// and are ordered by preference and \"first class\" support.")
                              ++ (line (codes "var DefaultGoPlatforms = []GoPlatform{")
                                  ++ (line (codes "\t// first class platforms")
                                      ++ (print_platforms true sorted
                                          ++ (line (codes "}")
                                              ++ (line []
                                                  ++ (line
                                                        (codes "var cgoEnabled = map[string]bool{")
                                                      ++ (print_cgo platforms
                                                          ++ (line (codes "}")
                                                            ++ (line []
                                                            ++ (line (
                                                            codes
                                                            "var supportedPlatformsOsArch = map[string]map[string]bool{")
                                                            ++ (print_table (supports g.table) oses
                                                            arches
                                                            ++ (line (codes "}")
                                                            ++ (line []
                                                            ++ (line []
                                                            ++ (line (
                                                            codes
                                                            "var supportedPlatformsArchOs = map[string]map[string]bool{")
                                                            ++ (print_table
                                                            (λ arch os. supports g.table os arch)
                                                            arches oses
                                                            ++ (line (codes "}")
                                                            ++ line [])))))))))))))))))))))))
