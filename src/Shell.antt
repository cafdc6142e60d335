-- ===== src/Shell.antt =====
-- examples/fat32-fs-std/src/main.rs: the shell over a file system. Its variables are a record; a line of
-- input is a list of characters, taken from those left; what it prints and writes on the host is a list
-- of events. `walk` is the fuel of what walks a chain, and `fuel` that of a search and of a loop.
pub mod Words
pub mod Show
pub mod Store
pub mod Format
pub mod Run
pub mod Cut
pub mod Prompt
pub mod Keeps
pub mod Reach
use fat32_rs.Base.{
  ℕ, ◌∷◌, [], ◌++◌, if◌then◌else◌, Bool, Option, none, some, List, list_eq, length, drop, replicate,
  Outcome, done, ◌>>=◌, Result, ok, err,
}
use fat32_rs.Fs.{FileSystem}
use fat32_rs.Vfs.{VirtFile, root}
use fat32_rs.Dir.{DirError}
use fat32_rs.Dir.Find.{find}
use fat32_rs.Shell.Words.{split_path, home}

-- The words that `match cmd` knows.
pub data Command : Type 0 where
  cd touch mkdir ls read read_ cat write write_ stat get set_ fmt rm exit help : Command

-- What the shell tells the world: a message (one constructor for each), a name, bytes shown as text, the
-- five lines of `stat`, a file stored on the host, all caches written back.
pub data Event : Type 0 where
  prompt : List ℕ → Event
  no_such_directory not_a_directory : List ℕ → Event
  miss_name not_found : Command → Event
  offset_too_large offset_out_of_range miss_names : Event
  name_line : List ℕ → Event
  text : List ℕ → Event
  ask_content : Event
  stat_lines : List ℕ → ℕ × ℕ × ℕ × Bool × ℕ → Event
  get_line set_line : List ℕ → Event
  host_file : List ℕ → List ℕ → Event
  warning : Event
  synced : Event
  help_lines : Event
  unknown : List ℕ → Event

-- The variables of `fs_pack`, `PATH`, and the lines of input left, each with its line break. The current
-- folder is none where it is the root's own `VirtFile`, which an `Arc::clone` shares.
pub record State : Type 0 where
  pub fs : FileSystem
  pub root_inode : VirtFile
  pub curr_folder_inode : Option VirtFile
  pub folder_inode : List (Option VirtFile)
  pub path : List ℕ
  pub input : List (List ℕ)

-- The variables before the loop.
unfoldable pub start : FileSystem → List (List ℕ) → State
unfolding root
start fs input = record {
  fs = fs;
  root_inode = root fs;
  curr_folder_inode = none;
  folder_inode = [];
  path = home;
  input = input;
}

unfoldable pub folder_of : VirtFile → Option VirtFile → VirtFile
folder_of root_inode none = root_inode
folder_of root_inode (some f) = f

-- `*curr_folder_inode`
unfoldable pub folder : State → VirtFile
unfolding folder_of
folder s = folder_of s.root_inode s.curr_folder_inode

-- The folder after a call that changed the cursor that it shares.
unfoldable pub set_folder : State → Option VirtFile → FileSystem → VirtFile → State
set_folder s none fs f = record s { fs = fs; root_inode = f }
set_folder s (some g) fs f = record s { fs = fs; curr_folder_inode = some f }

-- A buffer of `n` zeros whose front is filled.
unfoldable pub filled : ℕ → List ℕ → List ℕ
filled n bs = bs ++ drop (length bs) (replicate n 0)

-- `curr_folder_inode.find(file_name.split('/').collect())`
unfoldable pub find_file : ℕ → ℕ → State → List ℕ → Outcome (Result VirtFile DirError)
unfolding find split_path folder
find_file walk fuel s name = find walk fuel s.fs (folder s) (split_path name)

-- What a handler leaves: the variables, and what it told.
abbrev pub Handled : Type 0
Handled = Outcome (State × List Event)

-- A command on the file that its first argument names: without one, or without that file, a message.
unfoldable pub on_found :
    Command → State → Result VirtFile DirError → (VirtFile → Handled) → Handled
on_found command s (err e) act = done (s, not_found command ∷ [])
on_found command s (ok f) act = act f

unfoldable pub with_file :
    ℕ
    → ℕ
    → Command
    → State
    → List (List ℕ)
    → (List ℕ → List (List ℕ) → VirtFile → Handled)
    → Handled
unfolding on_found find_file
with_file walk fuel command s [] act = done (s, miss_name command ∷ [])
with_file walk fuel command s (name ∷ args) act = do
  found ← find_file walk fuel s name
  on_found command s found (act name args)

-- `match cmd`
unfoldable pub command_of : List ℕ → Option Command
command_of word =
    if list_eq word (b'c' ∷ b'd' ∷ [])
    then some cd
    else if list_eq word (b't' ∷ b'o' ∷ b'u' ∷ b'c' ∷ b'h' ∷ [])
    then some touch
    else if list_eq word (b'm' ∷ b'k' ∷ b'd' ∷ b'i' ∷ b'r' ∷ [])
    then some mkdir
    else if list_eq word (b'l' ∷ b's' ∷ [])
    then some ls
    else if list_eq word (b'r' ∷ b'e' ∷ b'a' ∷ b'd' ∷ [])
    then some read
    else if list_eq word (b'r' ∷ b'e' ∷ b'a' ∷ b'd' ∷ b'_' ∷ [])
    then some read_
    else if list_eq word (b'c' ∷ b'a' ∷ b't' ∷ [])
    then some cat
    else if list_eq word (b'w' ∷ b'r' ∷ b'i' ∷ b't' ∷ b'e' ∷ [])
    then some write
    else if list_eq word (b'w' ∷ b'r' ∷ b'i' ∷ b't' ∷ b'e' ∷ b'_' ∷ [])
    then some write_
    else if list_eq word (b's' ∷ b't' ∷ b'a' ∷ b't' ∷ [])
    then some stat
    else if list_eq word (b'g' ∷ b'e' ∷ b't' ∷ [])
    then some get
    else if list_eq word (b's' ∷ b'e' ∷ b't' ∷ [])
    then some set_
    else if list_eq word (b'f' ∷ b'm' ∷ b't' ∷ [])
    then some fmt
    else if list_eq word (b'r' ∷ b'm' ∷ [])
    then some rm
    else if list_eq word (b'e' ∷ b'x' ∷ b'i' ∷ b't' ∷ [])
    then some exit
    else if list_eq word (b'h' ∷ b'e' ∷ b'l' ∷ b'p' ∷ [])
    then some help
    else none
