-- ===== src/GoMatchContext.antt =====
-- cmd/go-match-context/main.go: the command that prints the context of a file.
use buildutil.Base.{
  Bool, true, false, List, [], ◌∷◌, ◌++◌, Option, none, some, if◌then◌else◌, Bytes, codes, ◌⊎◌, inl,
  inr, arith, Option-cases, Sum-cases, ◌≡◌, ◌≢◌, refl,
}
use buildutil.Context.{Context}

-- The fields of `build.Context` that it prints, and of its type `Context`.
pub record Printed : Type 0 where
  pub ctxt : Context
  pub dir : Bytes
  pub use_all_files : Bool
  pub install_suffix : Bytes

-- How it ends: `log.Panicln`, `log.Fatal` on an error, or as usual.
pub data Quit (E : Type 0) : Type 0 where
  panicked : Bytes → Quit E
  fatal : E → Quit E
  finished : Quit E

-- What it calls: `%q` on a string and on a list of strings, `json.MarshalIndent` on its type `Context`, and
-- `os.Stdout.Write`, which may fail.
pub record Printer (E : Type 0) : Type 0 where
  pub quote : Bytes → Bytes
  pub quote_list : List Bytes → Bytes
  pub marshal : Printed → E ⊎ Bytes
  pub write_error : Bytes → Option E

abbrev truth_text : Bool → Bytes
truth_text b = if b then codes "true" else codes "false"

-- `name=value` and a line feed
abbrev pub field_line : Bytes → Bytes → Bytes
field_line name value = name ++ (codes "=" ++ (value ++ codes "\n"))

module _ {E : Type 0} (printer : Printer E) where
  unfoldable pub field_lines : Printed → Bytes
  field_lines p =
      field_line (codes "GOARCH") (printer.quote p.ctxt.goarch)
      ++ (field_line (codes "GOOS") (printer.quote p.ctxt.goos)
          ++ (field_line (codes "GOROOT") (printer.quote p.ctxt.goroot)
              ++ (field_line (codes "GOPATH") (printer.quote p.ctxt.gopath)
                  ++ (field_line (codes "Dir") (printer.quote p.dir)
                      ++ (field_line (codes "CgoEnabled") (truth_text p.ctxt.cgo_enabled)
                          ++ (field_line (codes "UseAllFiles") (truth_text p.use_all_files)
                              ++ (field_line (codes "Compiler") (printer.quote p.ctxt.compiler)
                                  ++ (field_line (codes "BuildTags")
                                        (printer.quote_list p.ctxt.build_tags)
                                      ++ (field_line (codes "ToolTags")
                                            (printer.quote_list p.ctxt.tool_tags)
                                          ++ (field_line (codes "ReleaseTags")
                                                (printer.quote_list p.ctxt.release_tags)
                                              ++ field_line (codes "InstallSuffix")
                                                  (printer.quote p.install_suffix)))))))))))

  -- What follows the call of `MatchContext`: how the program ends, and what it has printed.
  unfoldable pub print_context : Bool → Printed → Quit E × Bytes
  unfolding field_lines
  print_context false p = (finished, field_lines p)
  print_context true p = elim (printer.marshal p) [
    | inl e ↦ (fatal e, [])
    | inr text ↦ elim (printer.write_error text) [
      | none ↦ (finished, text)
      | some e ↦ (fatal e, [])
    ]
  ]

  -- `main`, on the arguments behind its flags; `match_file` is `MatchContext` for the context
  -- `build.Default`.
  unfoldable pub match_main : (Bytes → E ⊎ Printed) → Bool → List Bytes → Quit E × Bytes
  unfolding print_context
  match_main match_file json [] = (panicked (codes "error: expect one FILE argument"), [])
  match_main match_file json (filename ∷ []) = elim (match_file filename) [
    | inl e ↦ (fatal e, [])
    | inr p ↦ print_context json p
  ]
  match_main match_file json (filename ∷ (another ∷ more)) =
      (panicked (codes "error: expect one FILE argument"), [])

  printed-finished :
      (json : Bool) (p : Printed)
      → (print_context json p).0 ≡ finished
      → ((print_context json p).1 ≡ field_lines p)
        ⊎ (printer.marshal p ≡ inr (print_context json p).1)
  unfolding print_context
  printed-finished false p h = inl refl
  printed-finished true p h = elim (Sum-cases (printer.marshal p)) [
    | inl (e, failed) ↦ ground (arith, failed, h)
    | inr (text, made) ↦ elim (Option-cases (printer.write_error text)) [
      | inl written ↦ inr (ground (arith, made, written))
      | inr (e, failed) ↦ ground (arith, made, failed, h)
    ]
  ]

  match_main-print_context :
      (match_file : Bytes → E ⊎ Printed) (json : Bool) (filename : Bytes) (p : Printed)
      → match_file filename ≡ inr p
      → match_main match_file json (filename ∷ []) ≡ print_context json p
  unfolding match_main
  match_main-print_context match_file json filename p found = ground (arith, found)

  match_main-error :
      (match_file : Bytes → E ⊎ Printed) (json : Bool) (filename : Bytes) (e : E)
      → match_file filename ≡ inl e
      → (match_main match_file json (filename ∷ [])).0 ≢ finished
  unfolding match_main
  match_main-error match_file json filename e failed h = ground (arith, failed, h)

  -- The program ends well only for one argument for which `MatchContext` returns a context, and then it
  -- prints that context, as text or as the JSON that could be written.
  pub match_main-finished :
      (match_file : Bytes → E ⊎ Printed) (json : Bool) (args : List Bytes)
      → (match_main match_file json args).0 ≡ finished
      → (filename : Bytes) × (p : Printed) × (args ≡ filename ∷ [])
        × (match_file filename ≡ inr p)
        × ((match_main match_file json args).1 ≡ field_lines p
            ⊎ (printer.marshal p ≡ inr (match_main match_file json args).1))
  match_main-finished match_file json [] h = unfold match_main in cc
  match_main-finished match_file json (filename ∷ (another ∷ more)) h = unfold match_main in cc
  match_main-finished match_file json (filename ∷ []) h = elim (Sum-cases (match_file filename)) [
    | inl (e, failed) ↦ absurd (match_main-error match_file json filename e failed h)
    | inr (p, found) ↦
        let runs = match_main-print_context match_file json filename p found in
        let printed = printed-finished json p (rw runs at h) in
        (filename, p, refl, found, rw runs printed)
  ]
