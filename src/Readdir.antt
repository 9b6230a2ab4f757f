-- ===== src/Readdir.antt =====
-- internal/readdir/readdir.go: the directory entries that `ReadDir` wraps, whose file information is read on
-- the first call that asks for it.
pub mod Snapshot
use buildutil.Base.{
  ℕ, zero, suc, Bool, true, false, List, [], ◌∷◌, map, Option, none, some, if◌then◌else◌, Bytes,
  ◌==◌, ◌⊎◌, inl, inr,
}

-- What the source takes of fs.FileInfo and fs.DirEntry: `S`, `T` and `V` are the types of sizes, times and
-- of what `Sys` returns, `M` the type of file modes.
pub record Info (S T V : Type 0) : Type 0 where
  pub size : S
  pub mod_time : T
  pub sys : V

pub record Entry (M : Type 0) : Type 0 where
  pub name : Bytes
  pub is_dir : Bool
  pub type_bits : M

-- The methods of `fileInfo`; `Name` and `IsDir` are those of the entry.
pub data Method : Type 0 where
  name_method : Method
  is_dir_method : Method
  mode_method : Method
  size_method : Method
  mod_time_method : Method
  sys_method : Method

module _ (M S T V : Type 0) where
  -- `fileInfo`; `done` is the state of the field `once`, and `info` is none where it is nil.
  pub record FileInfo : Type 0 where
    pub entry : Entry M
    pub info : Option (Info S T V)
    pub done : Bool

  pub data Answer : Type 0 where
    name_answer : Bytes → Answer
    is_dir_answer : Bool → Answer
    mode_answer : M → Answer
    size_answer : S → Answer
    time_answer : T → Answer
    sys_answer : V → Answer

  -- A call of a method, with what `DirEntry.Info` would return at that moment: none for an error.
  pub record Event : Type 0 where
    pub method : Method
    pub now : Option (Info S T V)

-- `f.info`, or the zero values.
abbrev pub info_or_zero : {S T V : Type 0} → Info S T V → Option (Info S T V) → Info S T V
info_or_zero zero_info none = zero_info
info_or_zero zero_info (some i) = i

-- `&fileInfo{DirEntry: d}`
abbrev pub wrap : {M S T V : Type 0} → Entry M → FileInfo M S T V
wrap d = record { entry = d; info = none; done = false }

-- `ReadDir`, on what `os.ReadDir` returns: an error, or the entries.
unfoldable pub read_dir : {M S T V E : Type 0} → E ⊎ List (Entry M) → E ⊎ List (FileInfo M S T V)
read_dir (inl e) = inl e
read_dir (inr des) = inr (map wrap des)

module _ {M S T V : Type 0} (zero_info : Info S T V) where
  -- `lazyInit`
  unfoldable pub lazy_init : Option (Info S T V) → FileInfo M S T V → FileInfo M S T V
  lazy_init now f = if f.done then f else record f { info = now; done = true }

  -- `Mode`, `Size`, `ModTime`, `Sys`, and the methods of the entry.
  unfoldable pub call : Event M S T V → FileInfo M S T V → Answer M S T V × FileInfo M S T V
  call e f =
      let read = lazy_init e.now f in
      elim e.method [
        | name_method ↦ (name_answer f.entry.name, f)
        | is_dir_method ↦ (is_dir_answer f.entry.is_dir, f)
        | mode_method ↦ (mode_answer f.entry.type_bits, f)
        | size_method ↦ (size_answer (info_or_zero zero_info read.info).size, read)
        | mod_time_method ↦ (time_answer (info_or_zero zero_info read.info).mod_time, read)
        | sys_method ↦ (sys_answer (info_or_zero zero_info read.info).sys, read)
      ]

  -- A call of a method of the file at a position.
  unfoldable pub call_at :
      ℕ
      → Event M S T V
      → List (FileInfo M S T V)
      → Option (Answer M S T V) × List (FileInfo M S T V)
  call_at i e [] = (none, [])
  call_at zero e (f ∷ fs) = let (a, g) = call e f in (some a, g ∷ fs)
  call_at (suc i) e (f ∷ fs) = let (a, gs) = call_at i e fs in (a, f ∷ gs)

  -- A sequence of such calls, each with its position: their answers.
  unfoldable pub call_all :
      List (ℕ × Event M S T V) → List (FileInfo M S T V) → List (ℕ × Option (Answer M S T V))
  call_all [] fs = []
  call_all ((i, e) ∷ es) fs = let (a, gs) = call_at i e fs in (i, a) ∷ call_all es gs
