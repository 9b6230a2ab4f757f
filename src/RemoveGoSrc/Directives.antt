-- ===== src/RemoveGoSrc/Directives.antt =====
-- What the two patterns of cmd/remove-go-src find, without regular expressions.
pub mod Found
use buildutil.Base.{
  sym, append_assoc, ◌∙◌, ℕ, Bool, true, [], ◌∷◌, ◌++◌, codes, Bytes, has, ap, refl, ◌≡◌, ◌≢◌, ◌⊎◌,
  ◌≤◌, ◌==◌, arith, inl, inr, Bool-cases,
}
use buildutil.Syslist.{known_os_list, known_arch_list}
use buildutil.RemoveGoSrc.Pattern.{repeated, is_class_space, os_arch_re, go_build_re}
use buildutil.RemoveGoSrc.Pattern.Language.{Language, all_in}
use buildutil.RemoveGoSrc.Pattern.Found.{EndsIn, LineHas, at_line}

-- The name ends in `_`, a known operating system and `.go`, or has `_` and a known architecture before the
-- `.go`.
abbrev pub OsArchName : Bytes → Type 0
OsArchName base =
    (p : Bytes) × (os : Bytes) × (has known_os_list os ≡ true)
    × ((base ≡ p ++ (codes "_" ++ (os ++ codes ".go")))
        ⊎ ((arch : Bytes) × (has known_arch_list arch ≡ true)
            × (base ≡ p ++ (codes "_" ++ (os ++ (codes "_" ++ (arch ++ codes ".go")))))))

-- A tab, a newline, a form feed, a carriage return or a space.
pub data Blank : ℕ → Type 0 where
  tab : Blank 9
  newline : Blank 10
  form_feed : Blank 12
  carriage_return : Blank 13
  space : Blank 32

abbrev pub AllBlank : Bytes → Type 0
AllBlank [] = Unit
AllBlank (c ∷ s) = Blank c × AllBlank s

-- White space, at least one byte of it; it may go on over the end of a line.
abbrev pub White : Bytes → Type 0
White s = (s ≢ []) × AllBlank s

-- The text before a place where a line starts.
abbrev pub BeforeLine : Bytes → Type 0
BeforeLine p = (p ≡ []) ⊎ ((q : Bytes) × (p ≡ q ++ (10 ∷ [])))

-- At the start of a line stand `//`, and then `go:build` or white space and `+build`, and behind this white
-- space and a printable byte.
abbrev pub BuildLine : Bytes → Type 0
BuildLine content =
    (p : Bytes) × (word : Bytes) × (gap : Bytes) × (c : ℕ) × (b : Bytes) × (content
      ≡ p ++ (codes "//" ++ (word ++ (gap ++ (c ∷ b)))))
    × BeforeLine p
    × ((word ≡ codes "go:build")
        ⊎ ((white : Bytes) × White white × (word ≡ white ++ codes "+build")))
    × White gap
    × (32 ≤ c)
    × (c ≤ 126)
