-- ===== src/Core/FileIo.antt =====
-- include/mpcc/core/file_io.h and src/core/file_io.cpp. What the operating system answers is a
-- parameter; what a successful call does to a file is written out here.
pub mod Lines
pub mod Atomic
mod Tests
use mpcc.Common.{
  ℕ, zero, suc, Bool, true, false, Option, none, some, List, [], ◌∷◌, ◌++◌, Bytes, codes, ◌==◌,
  nat_eq, if◌then◌else◌, take, is_empty,
}

pub data MkdirResult : Type 0 where
  made eexist failed : MkdirResult

-- Writing a whole text through an ofstream that truncates its file. `unopened`: is_open() is false.
-- `bad n`: good() is false after the writes; n bytes are in the file. `good n`: good() is true after
-- the writes, and n bytes are in the file once the destructor has flushed what was buffered.
pub data WriteResult : Type 0 where
  unopened : WriteResult
  bad good : ℕ → WriteResult

-- The answers of the operating system, each to the call made at a given time.
pub record Os : Type 0 where
  pub mkdir : ℕ → Bytes → MkdirResult
  pub can_open : ℕ → Bytes → Bool
  pub write : ℕ → Bytes → Bytes → WriteResult
  pub rename : ℕ → Bytes → Bytes → Bool

pub record Disk : Type 0 where
  pub file : Bytes → Option Bytes
  -- the directories for which mkdir was called, the latest first
  pub mkdirs : List Bytes
  pub now : ℕ

abbrev pub tick : Disk → Disk
tick d = record d { now = suc d.now }

abbrev pub put_file : Bytes → Option Bytes → Disk → Disk
put_file path content d = record d {
  file = λ q. if path == q then content else d.file q;
  now = suc d.now;
}

abbrev pub slash : ℕ
slash = b'/'

abbrev pub newline : ℕ
newline = b'\n'

-- path.rfind(c)
unfoldable pub rfind : Bytes → ℕ → Option ℕ
rfind [] c = none
rfind (x ∷ s) c = elim (rfind s c) [
  | some i ↦ some (suc i)
  | none ↦ if nat_eq x c then some 0 else none
]

unfoldable pub parent_at : Bytes → Option ℕ → Bytes
parent_at path none = []
parent_at path (some zero) = codes "/"
parent_at path (some (suc i)) = take (suc i) path

unfoldable pub parent_dir : Bytes → Bytes
unfolding rfind parent_at
parent_dir path = parent_at path (rfind path slash)

unfoldable pub mkdir_ok : MkdirResult → Bool
mkdir_ok made = true
mkdir_ok eexist = true
mkdir_ok failed = false

unfoldable pub mkdir_one : Os → Bytes → Disk → Bool × Disk
unfolding mkdir_ok
mkdir_one os dir d =
    if is_empty dir
    then (true, d)
    else (mkdir_ok (os.mkdir d.now dir), record d { mkdirs = dir ∷ d.mkdirs; now = suc d.now })

-- The loop of ensure_dir_recursive, and the last mkdir_one behind it.
unfoldable pub make_dirs : Os → Bytes → Bytes → Disk → Bool × Disk
unfolding mkdir_one
make_dirs os cur [] d = mkdir_one os cur d
make_dirs os cur (ch ∷ rest) d =
    let (done, d') = if nat_eq ch slash then mkdir_one os cur d else (true, d) in
    let go_on = make_dirs os (cur ++ ch ∷ []) rest d' in if done then go_on else (false, d')

unfoldable pub make_dirs_at : Os → Bytes → Disk → Bool × Disk
unfolding make_dirs
make_dirs_at os [] d = (true, d)
make_dirs_at os (ch ∷ rest) d =
    if nat_eq ch slash then make_dirs os (codes "/") rest d else make_dirs os [] (ch ∷ rest) d

unfoldable pub ensure_dir_recursive : Os → Bytes → Disk → Bool × Disk
unfolding make_dirs_at
ensure_dir_recursive os dir d = if dir == codes "/" then (true, d) else make_dirs_at os dir d

unfoldable pub ensure_parent_dir : Os → Bytes → Disk → Bool × Disk
unfolding ensure_dir_recursive parent_dir
ensure_parent_dir os path d =
    let parent = parent_dir path in
    if is_empty parent then (true, d) else ensure_dir_recursive os parent d

-- Repeated getline: a line for each newline, and one for what stands behind the last, if anything.
unfoldable pub getlines : Bytes → Bytes → List Bytes
getlines line [] = if is_empty line then [] else line ∷ []
getlines line (c ∷ s) = elim (nat_eq c newline) [
  | true ↦ line ∷ getlines [] s
  | false ↦ getlines (line ++ c ∷ []) s
]

unfoldable pub lines_of : Option Bytes → Bool → List Bytes
unfolding getlines
lines_of none opened = []
lines_of (some content) false = []
lines_of (some content) true = getlines [] content

unfoldable pub read_all_lines : Os → Bytes → Disk → List Bytes
unfolding lines_of
read_all_lines os path d = lines_of (d.file path) (os.can_open d.now path)

-- ofs << l << "\n" for each line.
unfoldable pub unlines : List Bytes → Bytes
unlines [] = []
unlines (l ∷ ls) = l ++ newline ∷ unlines ls

-- The rename at the end of atomic_write_lines; a failed one changes nothing.
unfoldable pub rename_file : Os → Bytes → Bytes → Disk → Bool × Disk
rename_file os from to d =
    if os.rename d.now from to
    then (true, put_file from none (put_file to (d.file from) d))
    else (false, tick d)

unfoldable pub finish_write : Os → Bytes → Bytes → Bytes → WriteResult → Disk → Bool × Disk
unfolding rename_file
finish_write os path tmp content unopened d = (false, tick d)
finish_write os path tmp content (bad n) d = (false, put_file tmp (some (take n content)) d)
finish_write os path tmp content (good n) d =
    rename_file os tmp path (put_file tmp (some (take n content)) d)

unfoldable pub tmp_path : Bytes → Bytes
tmp_path path = path ++ codes ".tmp"

unfoldable pub atomic_write_lines : Os → Bytes → List Bytes → Disk → Bool × Disk
unfolding finish_write ensure_parent_dir tmp_path unlines
atomic_write_lines os path lines d =
    let (ready, d') = ensure_parent_dir os path d in
    let tmp = tmp_path path in
    let content = unlines lines in
    if ready then finish_write os path tmp content (os.write d'.now tmp content) d' else (false, d')
