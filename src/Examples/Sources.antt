-- ===== src/Examples/Sources.antt =====
-- Directory entries, and cmd/remove-go-src.
use buildutil.Base.{
  ◌⊎◌, ℕ, true, false, List, [], ◌∷◌, none, some, if◌then◌else◌, Bytes, codes, Keys, has, put,
  delete, has-delete, same, same_refl, inl, inr, arith, ◌≡◌, ◌↔◌, refl, map,
}
use buildutil.Readdir.{Info, Entry, Event, name_method, size_method, call_all, wrap, read_dir}
use buildutil.Readdir.Snapshot.{call_all-read_dir, answers_at, snapshot, events_at}
use buildutil.RemoveGoSrc.{Host, include_file, copy_file}
use buildutil.RemoveGoSrc.Included.{Included, include_file-Included}
use buildutil.RemoveGoSrc.Copied.{copy_file-exists}

abbrev entry_a : Entry ℕ
entry_a = record { name = codes "a.go"; is_dir = false; type_bits = 0 }

abbrev info_with : ℕ → Info ℕ ℕ ℕ
info_with n = record { size = n; mod_time = 7; sys = 0 }

-- The size is asked for twice, and the file grows between the calls.
abbrev events : List (ℕ × Event ℕ ℕ ℕ ℕ)
events =
    (0, record { method = name_method; now = none })
    ∷ (0, record { method = size_method; now = some (info_with 5) })
    ∷ (0, record { method = size_method; now = some (info_with 9) })
    ∷ []

listed : read_dir {E = Unit} (inr (entry_a ∷ [])) ≡ inr (wrap {S = ℕ} {T = ℕ} {V = ℕ} entry_a ∷ [])
unfolding read_dir
listed = refl

call_all-read_dir_example :
    answers_at 0 (call_all (info_with 0) events (wrap entry_a ∷ []))
    ≡ map (snapshot (info_with 0) entry_a (some (info_with 5))) (events_at 0 events)
call_all-read_dir_example =
    call_all-read_dir (info_with 0) (entry_a ∷ []) (wrap entry_a ∷ []) 0 entry_a events listed refl

-- A file system that is the set of its files, none of which can be parsed.
abbrev disk : Host Keys Bytes Unit ℕ
disk = record {
  mkdir_all = λ p w. (none, w);
  create = λ p w. if has w p then (inl 1, w) else (inr p, put p w);
  parse_file = λ p w. inl 2;
  format_node = λ f x w. (none, w);
  close = λ f w. (none, w);
  remove = λ p w. (none, delete p w);
  read = λ p w. none;
  print = λ s w. w;
  abs = λ p. inr p;
  rel = λ a b. inr b;
  stat = λ p w. has w p;
  is_go_build = λ s. false;
  is_plus_build = λ s. false;
}

opens_none : (to : Bytes) (w : Keys) (fo : Bytes) → (disk.create to w).0 ≡ inr fo → has w to ≡ false
opens_none to w fo h = ground (arith, h)

makes_none :
    (to : Bytes) (w : Keys) (e : ℕ)
    → (disk.create to w).0 ≡ inl e
    → has (disk.create to w).1 to ≡ has w to
makes_none to w e h = ground (arith, h)

unmade : (to : Bytes) (w : Keys) → (disk.remove to w).0 ≡ none → has (disk.remove to w).1 to ≡ false
unmade to w h = ground (arith, has-delete to w to, same_refl to)

unparsed : (copy_file disk (codes "/a/x.go") (codes "/b/x.go") []).0 ≡ some 2
unfolding copy_file has
unparsed = refl

copy_file-exists_example :
    (has (copy_file disk (codes "/a/x.go") (codes "/b/x.go") []).1 (codes "/b/x.go")
      ≡ has [] (codes "/b/x.go"))
    ⊎ ((v : Keys) × (x : ℕ) × (disk.remove (codes "/b/x.go") v
          ≡ (some x, (copy_file disk (codes "/a/x.go") (codes "/b/x.go") []).1)))
copy_file-exists_example =
    copy_file-exists disk (λ p w. has w p) (codes "/b/x.go") (λ w. refl)
      (opens_none (codes "/b/x.go")) (makes_none (codes "/b/x.go")) (unmade (codes "/b/x.go"))
      (codes "/a/x.go") 2 [] unparsed

include_file-Included_example :
    (include_file disk (codes "/a/x_linux.go") [] ≡ true) ↔ Included disk (codes "/a/x_linux.go") []
include_file-Included_example = include_file-Included disk (codes "/a/x_linux.go") []

there : has (codes "/b" ∷ []) (codes "/b") ≡ true
unfolding has same
there = refl
