-- ===== src/RemoveGoSrc/Included.antt =====
-- The files that cmd/remove-go-src copies.
use buildutil.Base.{
  true, some, Bytes, codes, same_iff, arith, ◌≡◌, ◌↔◌, ◌⊎◌, ap, ◌∙◌, inl, inr, Bool-cases,
  Option-cases,
}
use buildutil.FilePath.{base_of, ext_of}
use buildutil.RemoveGoSrc.{Host, include_file}
use buildutil.RemoveGoSrc.Pattern.{os_arch_re, go_build_re, os_arch_match, go_build_match}
use buildutil.RemoveGoSrc.Directives.{OsArchName, BuildLine}
use buildutil.RemoveGoSrc.Directives.Found.{
  EndsIn-OsArchName, OsArchName-EndsIn, LineHas-BuildLine, BuildLine-LineHas,
}
use buildutil.RemoveGoSrc.Pattern.Found.{
  matches_end-EndsIn, EndsIn-matches_end, matches_line-LineHas, LineHas-matches_line,
}

module _ {W F R E : Type 0} (host : Host W F R E) (name : Bytes) (w : W) where
  -- The name is that of a Go file, and its base ends in the name of a platform, or the file can be read and
  -- has a build constraint.
  abbrev pub Included : Type 0
  Included =
      (ext_of name ≡ codes ".go")
      × (OsArchName (base_of name)
          ⊎ ((content : Bytes) × (host.read name w ≡ some content) × BuildLine content))

  named :
      ext_of name ≡ codes ".go"
      → os_arch_match (base_of name) ≡ true
      → include_file host name w ≡ true
  unfolding include_file
  named g m = ground (arith, m, (same_iff (ext_of name) (codes ".go")).1 g)

  read_in :
      (content : Bytes)
      → ext_of name ≡ codes ".go"
      → host.read name w ≡ some content
      → go_build_match content ≡ true
      → include_file host name w ≡ true
  unfolding include_file
  read_in content g f m = ground (arith, f, m, (same_iff (ext_of name) (codes ".go")).1 g)

  Included-include_file : Included → include_file host name w ≡ true
  unfolding os_arch_match go_build_match
  Included-include_file (g, inl platform) =
      let (p, a, split, h) = OsArchName-EndsIn (base_of name) platform in
      named g (ap os_arch_match split ∙ EndsIn-matches_end os_arch_re p a h)
  Included-include_file (g, inr (content, found, line)) =
      let (p, a, b, split, starts, h) = BuildLine-LineHas content line in
      read_in content g found
        (ap go_build_match split ∙ LineHas-matches_line go_build_re true p a b starts h)

  include_file-Included_go : include_file host name w ≡ true → Included
  unfolding include_file os_arch_match go_build_match
  include_file-Included_go h =
      let is_go : ext_of name ≡ codes ".go" =
        (same_iff (ext_of name) (codes ".go")).0 (ground (arith, h)) in
      elim (Bool-cases (os_arch_match (base_of name))) [
        | inl m ↦ (
          is_go,
          inl (EndsIn-OsArchName (base_of name) (matches_end-EndsIn os_arch_re (base_of name) m)),
        )
        | inr other ↦ elim (Option-cases (host.read name w)) [
          | inl unread ↦ ground (arith, unread, other, h)
          | inr (content, found) ↦ (
            is_go,
            inr (
              content,
              found,
              LineHas-BuildLine content
                  (matches_line-LineHas go_build_re true content (ground (arith, found, other, h))),
            ),
          )
        ]
      ]

  -- `includeFile` takes exactly the Go files whose base ends in `_`, a known operating system, perhaps `_`
  -- and a known architecture, and `.go`, and those that can be read and have, at the start of a line, `//`
  -- with `go:build` or white space and `+build` behind it, and then white space and a printable byte; the
  -- white space is of one byte or more, and newlines count as white space.
  pub include_file-Included : (include_file host name w ≡ true) ↔ Included
  include_file-Included = (include_file-Included_go, Included-include_file)
