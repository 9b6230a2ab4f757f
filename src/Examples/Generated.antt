-- ===== src/Examples/Generated.antt =====
-- The generator of the platform list, and the loading of platforms.
use buildutil.Base.{
  ◌++◌, ℕ, zero, suc, ◌+◌, length, drop, ap, ◌∙◌, append-nil, Option-cases, same_iff, true, false,
  List, [], ◌∷◌, Option, none, some, if◌then◌else◌, Bytes, codes, same, ◌≡◌, ◌≢◌, refl, arith, inl,
  inr, Bool-cases,
}
use buildutil.Platforms.{GoPlatform}
use buildutil.Generator.Output.{Disk, finished, write_output}
use buildutil.Generator.Output.Whole.{write_output-whole}

abbrev linux_one : GoPlatform
linux_one = record {
  goos = codes "linux";
  goarch = codes "amd64";
  cgo_supported = true;
  first_class = true;
}

abbrev plan9_one : GoPlatform
plan9_one = record {
  goos = codes "plan9";
  goarch = codes "arm";
  cgo_supported = false;
  first_class = false;
}

abbrev two_platforms : List GoPlatform
two_platforms = plan9_one ∷ (linux_one ∷ [])

abbrev as_it_is : Bytes → Bytes
as_it_is s = s

-- A directory with the output file and one temporary file, which is written at an offset.
record Directory : Type 0 where
  list : Option Bytes
  temp : Option Bytes
  offset : ℕ

abbrev in_directory : Bytes → Directory → Option Bytes
in_directory p w = if same p (codes "list.go") then w.list else w.temp

-- The bytes of a file after `t` has been written at an offset.
abbrev put_at : ℕ → Bytes → Bytes → Bytes
put_at zero t s = t ++ drop (length t) s
put_at (suc n) t [] = 0 ∷ put_at n t []
put_at (suc n) t (c ∷ s) = c ∷ put_at n t s

abbrev write_temp : Bytes → Directory → Option {0} Unit × Directory
write_temp t w = elim w.temp [
  | none ↦ (some tt, w)
  | some s ↦ (none, record w { temp = some (put_at w.offset t s); offset = w.offset + length t })
]

abbrev directory_disk : Disk Directory Unit Unit
directory_disk = record {
  format_source = λ s. inr s;
  print = λ s w. (none, w);
  create_temp = λ dir pattern w. (inr tt, record w { temp = some []; offset = 0 });
  file_name = λ f. codes "list.go.1";
  chmod = λ f w. (none, w);
  write = λ f s w. write_temp s w;
  close = λ f w. (none, w);
  remove = λ p w. (
    none,
    if same p (codes "list.go") then record w { list = none } else record w { temp = none },
  );
  rename = λ p q w. (none, record w { list = in_directory p w });
}

other_file : codes "list.go.1" ≢ codes "list.go"
other_file e = cc

removes_other :
    (p : Bytes) (w : Directory) → p ≢ codes "list.go" → (directory_disk.remove p w).1.list ≡ w.list
removes_other p w n = elim (Bool-cases (same p (codes "list.go"))) [
  | inl here ↦ absurd (n ((same_iff p (codes "list.go")).0 here))
  | inr other ↦ ground (arith, other)
]

drop_nil : (n : ℕ) → drop {A = ℕ} n [] ≡ []
drop_nil zero = refl
drop_nil (suc n) = refl

put_at_end : (t s : Bytes) → put_at (length s) t s ≡ s ++ t
put_at_end t [] = ap (λ r. t ++ r) (drop_nil (length t)) ∙ append-nil t
put_at_end t (c ∷ s) = ap (λ r. c ∷ r) (put_at_end t s)

write_temp-list : (t : Bytes) (w : Directory) → (write_temp t w).1.list ≡ w.list
write_temp-list t w = elim (Option-cases w.temp) [
  | inl absent ↦ rw absent refl
  | inr (s, there) ↦ rw there refl
]

write_temp-end :
    (s t : Bytes) (w : Directory)
    → w.temp ≡ some s
    → w.offset ≡ length s
    → (write_temp t w).1.temp ≡ some (s ++ t)
write_temp-end s t w there at_end = rw (there, at_end) (ap some (put_at_end t s))

abbrev empty_directory : Directory
empty_directory = record { list = none; temp = none; offset = 0 }

write_output-whole_example :
    ((write_output directory_disk (codes "list.go") (codes "package p") empty_directory).0
        ≡ finished
      → (source : Bytes) × (directory_disk.format_source (codes "package p") ≡ inr source)
        × (in_directory
              (codes "list.go")
              (write_output directory_disk (codes "list.go") (codes "package p") empty_directory).1
            ≡ some source))
    × ((write_output directory_disk (codes "list.go") (codes "package p") empty_directory).0
          ≢ finished
        → in_directory
            (codes "list.go")
            (write_output directory_disk (codes "list.go") (codes "package p") empty_directory).1
          ≡ none)
unfolding same
write_output-whole_example =
    write_output-whole directory_disk in_directory (λ f w. w.offset) (codes "list.go")
      (λ dir pattern w. refl) (λ dir pattern w f e. other_file) (λ f w n. refl)
      (λ f s w n. write_temp-list s w) (λ f w n. refl) removes_other
      (λ dir pattern w f e. (refl, refl)) (λ f w. (refl, refl))
      (λ f s t w there at_end e. write_temp-end s t w there at_end) (λ f w. refl) (λ p w e h. cc)
      (λ p w h. refl) (codes "package p") empty_directory refl
