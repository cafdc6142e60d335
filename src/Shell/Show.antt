-- ===== src/Shell/Show.antt =====
-- examples/fat32-fs-std/src/main.rs: the commands that look: cd, ls, read, read_, cat, stat, get.
use fat32_rs.Base.{
  ℕ, ◌-◌, ltb, if◌then◌else◌, not, Option, none, some, List, [], ◌∷◌, ◌++◌, map, list_eq, Outcome,
  done, panic, unwrap, ◌>>=◌, Result, ok, err,
}
use fat32_rs.Fs.{FileSystem}
use fat32_rs.Vfs.{VirtFile, is_dir, file_size}
use fat32_rs.Vfs.Chain as Chain
use fat32_rs.Vfs.Io.{read_at}
use fat32_rs.File as File
use fat32_rs.File.{FileError}
use fat32_rs.Dir.{DirError}
use fat32_rs.Dir.Listing as Listing
use fat32_rs.Shell.{
  Event, State, Handled, read, read_, cat, stat, folder, filled, find_file, with_file,
  no_such_directory, not_a_directory, offset_too_large, name_line, text, stat_lines, get_line,
  host_file,
}
use fat32_rs.Shell.Words.{parse, cut_slash, update_path}

-- The last statement of `cd`.
unfoldable pub moved : State → List ℕ → Handled
unfolding update_path
moved s target = update_path s.path target >>= λ path. done (record s { path = path }, [])

-- To the root's folder.
unfoldable pub to_root : State → State
to_root s = record s { curr_folder_inode = none }

-- `arg` without its last `/`, and what `find` gave.
unfoldable pub enter : State → List ℕ → List ℕ → Result VirtFile DirError → Handled
unfolding moved
enter s word arg (err e) = done (s, no_such_directory arg ∷ [])
enter s word arg (ok f) =
    if not (is_dir f)
    then done (s, not_a_directory arg ∷ [])
    else moved
        (record s {
          curr_folder_inode = some f;
          folder_inode = s.folder_inode ++ s.curr_folder_inode ∷ [];
        })
        word

unfoldable pub or_else : Option (List ℕ) → List ℕ → List ℕ
or_else none w = w
or_else (some v) w = v

unfoldable pub first_of : List (List ℕ) → Option (List ℕ)
first_of [] = none
first_of (w ∷ ws) = some w

unfoldable pub second_of : List (List ℕ) → Option (List ℕ)
unfolding first_of
second_of [] = none
second_of (w ∷ ws) = first_of ws

-- The names that `ls` lists; its error ends the program.
unfoldable pub listed : Result (List (List ℕ)) DirError → Outcome (List (List ℕ))
listed (ok names) = done names
listed (err e) = panic

unfoldable pub found_file : Result VirtFile DirError → Outcome VirtFile
found_file (ok f) = done f
found_file (err e) = panic

-- What `read` put into the buffer.
unfoldable pub read_bytes : Result (ℕ × List ℕ) FileError → List ℕ
read_bytes (ok r) = r.1
read_bytes (err e) = []

module _ (walk fuel : ℕ) where
  unfoldable pub run_cd : State → List (List ℕ) → Handled
  unfolding moved to_root enter cut_slash find_file
  run_cd s [] = moved (to_root s) []
  run_cd s (word ∷ args) =
      if list_eq (cut_slash word) []
      then moved (to_root s) word
      else (find_file walk fuel s (cut_slash word) >>= λ found. enter s word (cut_slash word) found)

  unfoldable pub names : State → Outcome (List (List ℕ))
  unfolding Listing.ls listed folder
  names s = Listing.ls walk s.fs (folder s) fuel >>= listed

  unfoldable pub run_ls : State → Handled
  unfolding names
  run_ls s = names s >>= λ list. done (s, map name_line list)

  -- The bytes of a range of a file, as a buffer of its length.
  unfoldable pub range : FileSystem → VirtFile → ℕ → ℕ → Outcome (List ℕ)
  unfolding read_at filled
  range fs f place n = read_at walk fs f place n >>= λ bs. done (filled n bs)

  -- `next1` and `next2`, and the size of the file.
  unfoldable pub show_range : State → VirtFile → ℕ → ℕ → Option (List ℕ) → Handled
  unfolding range parse
  show_range s f size place none =
      if ltb size place
      then done (s, offset_too_large ∷ [])
      else (range s.fs f place (size - place) >>= λ buf. done (s, text buf ∷ []))
  show_range s f size place (some next2) = do
    len ← unwrap (parse next2)
    buf ← range s.fs f place len
    done (s, text buf ∷ [])

  unfoldable pub run_read : State → List (List ℕ) → Handled
  unfolding with_file show_range parse first_of second_of or_else
  run_read s args = with_file walk fuel read s args (λ name rest f. do
    size ← file_size s.fs f
    place ← unwrap (parse (or_else (first_of rest) (b'0' ∷ [])))
    show_range s f size place (second_of rest))

  unfoldable pub run_read_ : State → List (List ℕ) → Handled
  unfolding with_file File.read filled read_bytes
  run_read_ s args = with_file walk fuel read_ s args (λ name rest f. do
    size ← file_size s.fs f
    result ← File.read walk s.fs f size
    done (s, text (filled size (read_bytes result)) ∷ []))

  unfoldable pub run_cat : State → List (List ℕ) → Handled
  unfolding with_file range
  run_cat s args = with_file walk fuel cat s args (λ name rest f. do
    size ← file_size s.fs f
    buf ← range s.fs f 0 size
    done (s, text buf ∷ []))

  unfoldable pub run_stat : State → List (List ℕ) → Handled
  unfolding with_file Chain.stat
  run_stat s args =
      with_file walk fuel stat s args
        (λ name rest f. do r ← Chain.stat s.fs f walk; done (s, stat_lines name r ∷ []))

  -- `for file in …`, with the names left: each file goes to the host. The name there, which begins with
  -- the time of the host's clock, is given by the file's name.
  unfoldable pub get_loop : State → List (List ℕ) → Outcome (List Event)
  unfolding range find_file found_file
  get_loop s [] = done []
  get_loop s (name ∷ rest) = do
    found ← find_file walk fuel s name
    f ← found_file found
    size ← file_size s.fs f
    all_data ← range s.fs f 0 size
    events ← get_loop s rest
    done (get_line name ∷ host_file name all_data ∷ events)

  unfoldable pub run_get : State → Handled
  unfolding names get_loop
  run_get s = do list ← names s; events ← get_loop s list; done (s, events)
