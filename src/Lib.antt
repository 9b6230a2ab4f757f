-- ===== src/Lib.antt =====
-- Verification of the Go package buildutil: which Go files belong to a build, for which build context a
-- file would be built, and the go command of a build context.
--
-- The program's parts, and the files that model them:
--   Base        shared helpers: Boolean tests, byte strings with `strings.Cut`, `Split`, `Join` and prefixes
--               (Base/Text), key sets for Go's `map[string]bool` (Base/KeySet), results (Base/Results)
--   Context     the fields of `build.Context` that the code reads or writes, and the facts of the running
--               toolchain (`runtime.GOOS` and the like)
--   Util        internal/util/util.go: string slices as sets, `StringsRemoveAll` with what it leaves in
--               its argument, `StringsSame`; Util/Environ has `Environ`, Util/Copy `CopyContext`
--   Syslist     syslist.go: known systems and architectures
--   Platforms   platform_list.go with its tables; Platforms/Preferred has `createPreferredList` of match.go,
--               Platforms/Load `LoadGoPlatforms` of platform.go
--   Tags        `matchTag` and `eval` of buildutil.go; `lookupTag`, `checkCompiler` and `isInternalTag` of
--               match.go
--   FileName    `goodOSArchFile` of file.go
--   Reader      `importReader` and `readImportsFast` of read.go; Reader/GoInfo has `readGoInfo`
--   PackageName `readPackageName` of read.go
--   Header      `parseFileHeader` of buildutil.go
--   Build       `shouldBuild`, `shouldBuildOnly`, `parseBuildConstraint` and `Constraint` of buildutil.go
--   Match       `MatchContext` of match.go: Match/Platform finds systems and architectures, Match/Choose sets
--               tags, Match/Search tries other platforms, Match/Run composes the phases; Match/Choice says
--               without loops which contexts the last phase may choose
--   Files       `Include`, `ParseConstraint` and `MatchContext` over a file that has been opened; Files/Named
--               has `IncludeTags`, `ShortImport`, `MatchFile`, `ReadPackageName`, `ReadImports`,
--               `BuildTags`, Files/Open `openReader`
--   Paths       `isSubdir`, `hasSubdir`, `gopath`, `resolveGOPATH` and `fixGOPATH`, for the separator `/`
--   Generator   genplatforms.go, the generator of platform_list.go: its tables here, the text that it prints
--               in Generator/Text, and how the text gets into the file in Generator/Output
--   FilePath    what the code uses of path/filepath: `Clean`, `Dir`, `Base`, `Join` and `Ext`
--   ContextUtil contextutil/contextutil.go: `ContainingDirectory` and `FindProjectRoot` here, `HasSubdir` and
--               `cleanGoPaths` in ContextUtil/Subdir, `ScopedContext` in ContextUtil/Scoped, and the
--               `ReadDir` that it builds in ContextUtil/Scoped/Reading
--   ImportPath  `ImportPath` and `hasSubdirCtxt` of buildutil.go; ImportPath/Links describes the walk of
--               `hasSubdirImpl` without a loop
--   GoCommand   gocommand.go: the arguments and the environment of a go command; GoCommand/EnvMap has `envMap`
--   Readdir     internal/readdir/readdir.go: the directory entries that read their file information when asked
--   RemoveGoSrc cmd/remove-go-src/main.go; RemoveGoSrc/Pattern has its regular expressions and what it uses of
--               the package regexp, RemoveGoSrc/Directives what they find, without regular expressions
--   GoMatchContext cmd/go-match-context/main.go
--   Examples    runs, and the theorems at concrete inputs
--
-- How they interact: a file is read up to its package clause (Reader), and what has been read goes to the
-- functions on constraints (Build) and to `MatchContext` (Files). `MatchContext` copies the context
-- (Util/Copy), asks the file's name (FileName) and then the file's header (Header, Build) whether the
-- context builds it, and otherwise changes the context phase by phase (Match) and evaluates the constraint
-- (Tags) after each change, over the tables (Syslist, Platforms). `GoCommandContext` takes
-- such a context to the environment of a command (Util/Environ).
--
-- `ScopedContext` cleans the paths of a context, finds the source root of each package (`minImportDir`, by
-- `HasSubdir` and `ContainingDirectory`), and builds the map of directories that its `ReadDir` looks into.
--
-- State: a function that writes to the map `allTags` takes the map (`Tags`, which may be nil) and returns
-- it; the variables of `parseFileHeader` are the record `State`; a phase of `MatchContext` takes the context
-- and ends in `hit` (the source returns it) or `miss` (the source goes on with it). A Go map with values
-- `true` is a list of keys, and the order in which a `range` statement meets them is a parameter.
--
-- Parameters: `Syntax` has `constraint.Parse` and `constraint.IsPlusBuild` of go/build/constraint; no
-- theorem assumes anything of them. `range` is the order of map iteration, and nothing is assumed of it.
-- `fix_gopath` is `fixGOPATH` in Match, and Files fills it with the function of Paths. `Surroundings` has
-- `filepath.EvalSymlinks` and what else that function reads.
--
-- `System` has the file system and the functions of golang.org/x/tools/go/buildutil that ContextUtil and
-- ImportPath call, and `FileContext` the fields of the context that they read, which may hold nil functions.
-- What a theorem asks of them stands among its hypotheses. The order of a range over the map
-- of `ScopedContext` is a parameter.
--
-- A file is its bytes and what its reader answers behind them. The functions that read one take the opened
-- file or the error of opening it; Files/Open has the function that opens it, over `ctxt.OpenFile` and
-- `os.Open`.
--
-- Fuel and bounds: the loop `Comments` of `parseFileHeader` runs on the length of its line, and each round
-- shortens the line, so the fuel is never used up. The loops of the reader run on three rounds more than
-- the input has bytes: a round reads a byte, meets the end, or stops at an error. All other loops are
-- structural recursion, but for the loops over directories. `filepath.Dir` shortens a path, or leads to `/`
-- or `.`, which it leaves as they are (FilePath/Shorter): `ContainingDirectory` runs on one round more than
-- its path has bytes, and the loops of `hasSubdirImpl` and `ScopedContext` on three more. The loop of
-- `resolveGOPATH` runs on the length of its path and shortens it in each round. Lengths and positions are
-- natural numbers; the code computes no other numbers.
--
-- A program that changes files takes the state of the file system and returns it: `Host` (RemoveGoSrc) and
-- `Disk` (Generator/Output) have the calls that it makes, as functions on that state. A file of Readdir is a
-- state too, and each call of one of its methods a step; a call of `sync.Once` is one step.
--
-- Not modelled: paths whose separator is not `/`; the entries that `readSubdirs` returns beside an error;
-- the pool of readers; the starting of processes, and the parsing of the flags of the commands; functions
-- that only copy a list or hand on their arguments, such as `GoodOSArchFile`, `ShouldBuild`,
-- `HasSubdirFunc`, `KnownOSList` and `DuplicateStrings`.
pub mod Base
pub mod Context
pub mod Tags
pub mod FileName
pub mod Header
pub mod Build
pub mod Paths
pub mod FilePath
pub mod ContextUtil
pub mod ImportPath
pub mod Files
pub mod PackageName
pub mod Reader
pub mod Match
pub mod GoCommand
pub mod Util
pub mod Examples
pub mod Syslist
pub mod Platforms
pub mod Generator
pub mod Readdir
pub mod GoMatchContext
pub mod RemoveGoSrc
