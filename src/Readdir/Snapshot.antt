-- ===== src/Readdir/Snapshot.antt =====
-- The answers of the files that `ReadDir` of internal/readdir/readdir.go returns.
use buildutil.Base.{
  ℕ, zero, suc, Bool, true, false, List, [], ◌∷◌, map, Option, none, some, if◌then◌else◌, ◌==◌,
  arith, ◌≡◌, refl, ap, ◌∙◌, inl, inr, Bool-cases,
}
use buildutil.Readdir.{
  Info, Entry, Method, name_method, is_dir_method, mode_method, size_method, mod_time_method,
  sys_method, FileInfo, Answer, name_answer, is_dir_answer, mode_answer, size_answer, time_answer,
  sys_answer, Event, lazy_init, info_or_zero, call, call_at, call_all, wrap, read_dir,
}

-- The methods that call `lazyInit`.
abbrev pub asks_info : Method → Bool
asks_info name_method = false
asks_info is_dir_method = false
asks_info mode_method = false
asks_info size_method = true
asks_info mod_time_method = true
asks_info sys_method = true

abbrev pub element : {A : Type 0} → ℕ → List A → Option A
element i [] = none
element zero (x ∷ xs) = some x
element (suc i) (x ∷ xs) = element i xs

module _ {M S T V : Type 0} where
  -- What `DirEntry.Info` returns at the first of the calls that asks for it.
  abbrev pub first_info : List (Event M S T V) → Option (Info S T V)
  first_info [] = none
  first_info (e ∷ es) = let later = first_info es in if asks_info e.method then e.now else later

  -- The calls of the file at one position.
  abbrev pub events_at : ℕ → List (ℕ × Event M S T V) → List (Event M S T V)
  events_at i [] = []
  events_at i ((j, e) ∷ es) = let rest = events_at i es in if j == i then e ∷ rest else rest

  abbrev pub answers_at : ℕ → List (ℕ × Option (Answer M S T V)) → List (Option (Answer M S T V))
  answers_at i [] = []
  answers_at i ((j, a) ∷ as_) = let rest = answers_at i as_ in if j == i then a ∷ rest else rest

module _ {M S T V : Type 0} (zero_info : Info S T V) where
  -- What a method answers of an entry whose information is `i`.
  abbrev pub snapshot : Entry M → Option (Info S T V) → Event M S T V → Option (Answer M S T V)
  snapshot d i e = elim e.method [
    | name_method ↦ some (name_answer d.name)
    | is_dir_method ↦ some (is_dir_answer d.is_dir)
    | mode_method ↦ some (mode_answer d.type_bits)
    | size_method ↦ some (size_answer (info_or_zero zero_info i).size)
    | mod_time_method ↦ some (time_answer (info_or_zero zero_info i).mod_time)
    | sys_method ↦ some (sys_answer (info_or_zero zero_info i).sys)
  ]

  -- What the calls of one file give, one after the other.
  run : List (Event M S T V) → FileInfo M S T V → List (Option (Answer M S T V))
  run [] f = []
  run (e ∷ es) f = let (a, g) = call zero_info e f in some a ∷ run es g

  -- The information that the answers of a file come from.
  abbrev settled : FileInfo M S T V → List (Event M S T V) → Option (Info S T V)
  settled f es = if f.done then f.info else first_info es

  -- The file after a call, and what is settled then.
  call-settled :
      (m : Method) (now : Option (Info S T V)) (es : List (Event M S T V)) (f : FileInfo M S T V)
      → let e : Event M S T V = record { method = m; now = now } in
        (some (call zero_info e f).0 ≡ snapshot f.entry (settled f (e ∷ es)) e)
        × ((call zero_info e f).1.entry ≡ f.entry)
        × (settled (call zero_info e f).1 es ≡ settled f (e ∷ es))
  unfolding call lazy_init
  call-settled name_method now es f = (refl, refl, refl)
  call-settled is_dir_method now es f = (refl, refl, refl)
  call-settled mode_method now es f = (refl, refl, refl)
  call-settled size_method now es f = (ground arith, ground arith, ground arith)
  call-settled mod_time_method now es f = (ground arith, ground arith, ground arith)
  call-settled sys_method now es f = (ground arith, ground arith, ground arith)

  run-settled :
      (es : List (Event M S T V)) (f : FileInfo M S T V)
      → run es f ≡ map (snapshot f.entry (settled f es)) es
  unfolding run
  run-settled [] f = refl
  run-settled (e ∷ es) f =
      let (answer, entry, later) = call-settled e.method e.now es f in
      let after = run-settled es (call zero_info e f).1 in
      let rest : run es (call zero_info e f).1 ≡ map (snapshot f.entry (settled f (e ∷ es))) es =
        rw (entry, later) at after in
      ap (λ a. a ∷ run es (call zero_info e f).1) answer
      ∙ ap (λ r. snapshot f.entry (settled f (e ∷ es)) e ∷ r) rest

  call_at-here :
      (i : ℕ) (e : Event M S T V) (fs : List (FileInfo M S T V)) (f : FileInfo M S T V)
      → element i fs ≡ some f
      → ((call_at zero_info i e fs).0 ≡ some (call zero_info e f).0)
        × (element i (call_at zero_info i e fs).1 ≡ some (call zero_info e f).1)
  unfolding call_at
  call_at-here i e [] f h = cc
  call_at-here zero e (g ∷ fs) f h = let same : g ≡ f = ground (arith, h) in rw same (refl, refl)
  call_at-here (suc i) e (g ∷ fs) f h = call_at-here i e fs f h

  call_at-equal :
      (j i : ℕ) (e : Event M S T V) (fs : List (FileInfo M S T V)) (f : FileInfo M S T V)
      → j ≡ i
      → element i fs ≡ some f
      → ((call_at zero_info j e fs).0 ≡ some (call zero_info e f).0)
        × (element i (call_at zero_info j e fs).1 ≡ some (call zero_info e f).1)
  call_at-equal j i e fs f q h = rw q (call_at-here i e fs f h)

  call_at-elsewhere :
      (j i : ℕ) (e : Event M S T V) (fs : List (FileInfo M S T V))
      → (j == i) ≡ false
      → element i (call_at zero_info j e fs).1 ≡ element i fs
  unfolding call_at
  call_at-elsewhere j i e [] n = refl
  call_at-elsewhere zero zero e (g ∷ fs) n = cc
  call_at-elsewhere zero (suc i) e (g ∷ fs) n = refl
  call_at-elsewhere (suc j) zero e (g ∷ fs) n = refl
  call_at-elsewhere (suc j) (suc i) e (g ∷ fs) n = call_at-elsewhere j i e fs (ground (arith, n))

  call_all-run :
      (i : ℕ) (es : List (ℕ × Event M S T V)) (fs : List (FileInfo M S T V)) (f : FileInfo M S T V)
      → element i fs ≡ some f
      → answers_at i (call_all zero_info es fs) ≡ run (events_at i es) f
  unfolding call_all run
  call_all-run i [] fs f h = refl
  call_all-run i ((j, e) ∷ es) fs f h = elim (Bool-cases (j == i)) [
    | inl here ↦
        let (answer, later) = call_at-equal j i e fs f (ground (arith, here)) h in
        let rest = call_all-run i es (call_at zero_info j e fs).1 (call zero_info e f).1 later in
        rw here (
          ap (λ a. a ∷ answers_at i (call_all zero_info es (call_at zero_info j e fs).1)) answer
          ∙ ap (λ r. some (call zero_info e f).0 ∷ r) rest)
    | inr other ↦
        rw other
          (call_all-run i es (call_at zero_info j e fs).1 f (call_at-elsewhere j i e fs other ∙ h))
  ]

  element-map :
      (i : ℕ) (des : List (Entry M)) (d : Entry M)
      → element i des ≡ some d
      → element i (map {B = FileInfo M S T V} wrap des) ≡ some (wrap d)
  element-map i [] d h = cc
  element-map zero (c ∷ des) d h = let same : c ≡ d = ground (arith, h) in rw same refl
  element-map (suc i) (c ∷ des) d h = element-map i des d h

  -- For any sequence of calls on the files that `ReadDir` returns, the answers of each file are those of
  -- its entry and of one file information: the one that `DirEntry.Info` returns at the first of its calls
  -- that asks for it, or the zero values where that is an error.
  pub call_all-read_dir :
      {E : Type 0} (des : List (Entry M)) (fs : List (FileInfo M S T V)) (i : ℕ) (d : Entry M)
      (es : List (ℕ × Event M S T V))
      → read_dir {E = E} (inr des) ≡ inr fs
      → element i des ≡ some d
      → answers_at i (call_all zero_info es fs)
        ≡ map (snapshot d (first_info (events_at i es))) (events_at i es)
  unfolding read_dir
  call_all-read_dir des fs i d es listed h =
      let wrapped : map wrap des ≡ fs = ground (arith, listed) in
      let found = element-map i des d h in
      call_all-run i es fs (wrap d) (rw wrapped at found) ∙ run-settled (events_at i es) (wrap d)
