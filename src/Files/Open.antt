-- ===== src/Files/Open.antt =====
-- `openReaderDirName` and `openReader` of buildutil.go, and `MatchFile` with its file opened.
use buildutil.Base.{
  Bool, not, [], ◌∷◌, Option, none, some, if◌then◌else◌, Bytes, is_empty, Result, ok, err,
  path_error, invalid_source,
}
use buildutil.Context.{Context}
use buildutil.Build.{Syntax}
use buildutil.FilePath.{base_of}
use buildutil.ContextUtil.{FileContext}
use buildutil.ImportPath.{join_path}
use buildutil.Files.{File}
use buildutil.Files.Named.{Matched, match_file}

-- The argument `src`: nil, a string, bytes or a reader, or a value of another type.
pub data Source : Type 0 where
  no_source : Source
  given : File → Source
  other_source : Source

-- `ctxt.OpenFile`, which may be nil, and `os.Open`.
pub record Opening : Type 0 where
  pub open_file : Option (Bytes → Result File)
  pub os_open : Bytes → Result File

-- `openReaderDirName`
unfoldable pub open_reader_dir_name : FileContext → Opening → Bytes → Bytes → Source → Result File
open_reader_dir_name c o dir name src =
    let path = if not (is_empty dir) then join_path c (dir ∷ name ∷ []) else name in
    elim src [
      | given f ↦ ok f
      | other_source ↦ err (path_error invalid_source)
      | no_source ↦ elim o.open_file [ some f ↦ f path | none ↦ o.os_open path ]
    ]

-- `openReader`
unfoldable pub open_reader : FileContext → Opening → Bytes → Source → Result File
open_reader c o filename src = open_reader_dir_name c o [] filename src

-- `MatchFile`, from its arguments.
unfoldable pub match_file_at :
    Syntax → Bool → Context → FileContext → Opening → Bytes → Bytes → Source → Matched
match_file_at syntax u c files o dir name src =
    match_file syntax u c (base_of name) (open_reader_dir_name files o dir name src)
