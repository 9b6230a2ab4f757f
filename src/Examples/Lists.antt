-- ===== src/Examples/Lists.antt =====
-- String sets, the lists of systems, and the table of platforms.
use buildutil.Base.{
  refl, put, same, sort_strings, insert, precedes, ℕ, zero, suc, true, List, [], ◌∷◌, Bytes, codes,
  has, ◌≡◌,
}
use buildutil.Platforms.{
  row, GoPlatform, default_go_platforms, supported_os_arch, supported_arch_os,
}
use buildutil.Platforms.Laws.{listed, supports}
use buildutil.Generator.{
  generated_os_arch, generated_arch_os, gather, add_platform, add_os, add_arch, is_row, set_cell,
  selected, printed,
}
use buildutil.Generator.Tables.{generated-listed}

abbrev two_tags : List Bytes
two_tags = codes "race" ∷ (codes "netgo" ∷ [])

-- `n` copies of one string.
abbrev copies : ℕ → List Bytes
copies zero = []
copies (suc n) = codes "x" ∷ copies n

-- darwin/amd64, the first of the list.
abbrev darwin_amd64 : GoPlatform
darwin_amd64 = record {
  goos = codes "darwin";
  goarch = codes "amd64";
  cgo_supported = true;
  first_class = true;
}

-- The tables of platform_list.go are those that the generator prints.
tables_generated :
    (generated_os_arch default_go_platforms ≡ supported_os_arch)
    × (generated_arch_os default_go_platforms ≡ supported_arch_os)
unfolding generated_os_arch generated_arch_os gather add_platform add_os add_arch is_row set_cell
    selected printed supports row put has same sort_strings insert precedes default_go_platforms
    supported_os_arch supported_arch_os
tables_generated = (refl, refl)

generated-listed_example :
    (supports (generated_os_arch default_go_platforms) (codes "js") (codes "wasm")
      ≡ listed default_go_platforms (codes "js") (codes "wasm"))
    × (supports (generated_arch_os default_go_platforms) (codes "wasm") (codes "js")
        ≡ listed default_go_platforms (codes "js") (codes "wasm"))
generated-listed_example = generated-listed default_go_platforms (codes "js") (codes "wasm")
