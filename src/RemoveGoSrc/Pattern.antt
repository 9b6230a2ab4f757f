-- ===== src/RemoveGoSrc/Pattern.antt =====
-- The regular expressions of cmd/remove-go-src/main.go, and what the program uses of Go's package regexp.
pub mod Language
pub mod Found
use buildutil.Base.{
  ℕ, Bool, true, false, ◌&&◌, ◌||◌, List, [], ◌∷◌, Option, none, some, Bytes, codes, strip,
  is_empty, ◌==◌, leb,
}
use buildutil.Syslist.{known_os_list, known_arch_list}

-- A text, one of some texts, `ab`, `a|b`, `a?`, and `c+` for a class `c` of bytes.
pub data Regexp : Type 0 where
  text : Bytes → Regexp
  one_of : List Bytes → Regexp
  then_ : Regexp → Regexp → Regexp
  either : Regexp → Regexp → Regexp
  maybe : Regexp → Regexp
  repeated : (ℕ → Bool) → Regexp

unfoldable pub after_text : Bytes → (Bytes → Bool) → Bytes → Bool
after_text t next s = elim (strip t s) [ none ↦ false | some rest ↦ next rest ]

unfoldable pub after_one_of : List Bytes → (Bytes → Bool) → Bytes → Bool
unfolding after_text
after_one_of [] next s = false
after_one_of (t ∷ ts) next s = after_text t next s || after_one_of ts next s

unfoldable pub after_repeated : (ℕ → Bool) → (Bytes → Bool) → Bytes → Bool
after_repeated class next [] = false
after_repeated class next (c ∷ s) =
    let rest = after_repeated class next s in class c && (next s || rest)

-- A front of the bytes matches, and what is behind it passes `next`.
unfoldable pub matches : Regexp → (Bytes → Bool) → Bytes → Bool
unfolding after_text after_one_of after_repeated
matches (text t) next s = after_text t next s
matches (one_of ts) next s = after_one_of ts next s
matches (then_ r q) next s = matches r (matches q next) s
matches (either r q) next s = matches r next s || matches q next s
matches (maybe r) next s = matches r next s || next s
matches (repeated class) next s = after_repeated class next s

-- A match anywhere up to the end of the text: `r$`.
unfoldable pub matches_end : Regexp → Bytes → Bool
unfolding matches
matches_end r [] = matches r is_empty []
matches_end r (c ∷ s) = matches r is_empty (c ∷ s) || matches_end r s

-- A match at the start of a line: `(?m)^r`; the flag says whether the bytes stand at one.
unfoldable pub matches_line : Regexp → Bool → Bytes → Bool
unfolding matches
matches_line r start [] = start && matches r (λ rest. true) []
matches_line r start (c ∷ s) =
    let later = matches_line r (c == 10) s in start && matches r (λ rest. true) (c ∷ s) || later

-- `\s`
abbrev pub is_class_space : ℕ → Bool
is_class_space c = c == 9 || (c == 10 || (c == 12 || (c == 13 || c == b' ')))

-- `[[:print:]]`
abbrev pub is_class_print : ℕ → Bool
is_class_print c = leb 32 c && leb c 126

-- `osArchRe`, without its `$`
abbrev pub os_arch_re : Regexp
os_arch_re = then_ (text (codes "_")) (
    then_ (one_of known_os_list)
      (then_ (maybe (then_ (text (codes "_")) (one_of known_arch_list))) (text (codes ".go"))))

-- `goBuildRe`, without its `(?m)^`
abbrev pub go_build_re : Regexp
go_build_re = then_ (text (codes "//")) (
    then_
      (either (text (codes "go:build")) (then_ (repeated is_class_space) (text (codes "+build"))))
      (then_ (repeated is_class_space) (repeated is_class_print)))

-- `osArchRe.MatchString`
unfoldable pub os_arch_match : Bytes → Bool
unfolding matches_end
os_arch_match base = matches_end os_arch_re base

-- `goBuildRe.MatchReader`
unfoldable pub go_build_match : Bytes → Bool
unfolding matches_line
go_build_match content = matches_line go_build_re true content
