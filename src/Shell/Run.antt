-- ===== src/Shell/Run.antt =====
-- examples/fat32-fs-std/src/main.rs: a line of input, and the loop.
use fat32_rs.Base.{
  ℕ, zero, suc, Bool, true, false, Option, none, some, List, [], ◌∷◌, ◌++◌, ◌||◌, ◌==◌,
  if◌then◌else◌, list_eq, guard, ◌>>◌, Outcome, done, panic, out_of_fuel, ◌>>=◌,
}
use fat32_rs.Disk.{Disk}
use fat32_rs.Entry.{dir, file}
use fat32_rs.Fs.{FileSystem, create, open_fs}
use fat32_rs.Shell.{
  Command, Event, State, Handled, start, command_of, prompt, synced, help_lines, unknown, cd, touch,
  mkdir, ls, read, read_, cat, write, write_, stat, get, set_, fmt, rm, exit, help,
}
use fat32_rs.Shell.Words.{split_whitespace}
use fat32_rs.Shell.Show.{run_cd, run_ls, run_read, run_read_, run_cat, run_stat, run_get}
use fat32_rs.Shell.Store.{run_create, run_write, run_write_, set_loop, run_rm}
use fat32_rs.Shell.Format.{run_fmt}

-- Whether the loop goes on, the variables, and what was told.
abbrev pub Round : Type 0
Round = Outcome (Bool × State × List Event)

abbrev pub goes_on : Handled → Round
goes_on handled = handled >>= λ r. done (true, r.0, r.1)

-- A line from those left; at the end of the input an empty one.
abbrev pub read_line : List (List ℕ) → List ℕ × List (List ℕ)
read_line [] = ([], [])
read_line (line ∷ input) = (line, input)

-- `ends_with('/')`
unfoldable pub ends_with_slash : List ℕ → Bool
ends_with_slash [] = false
ends_with_slash (c ∷ []) = c == b'/'
ends_with_slash (c ∷ d ∷ s) = ends_with_slash (d ∷ s)

-- The file system on the device: made, or opened.
unfoldable pub mount : List ℕ → Disk → Outcome FileSystem
unfolding create open_fs
mount ways device =
    if list_eq ways (b'c' ∷ b'r' ∷ b'e' ∷ b'a' ∷ b't' ∷ b'e' ∷ [])
    then create device
    else if list_eq ways (b'o' ∷ b'p' ∷ b'e' ∷ b'n' ∷ [])
    then open_fs device
    else panic

-- `host_files` are the names and the contents of the files in `src_path`.
module _ (walk fuel : ℕ) (host_files : List (List ℕ × List ℕ)) where
  unfoldable pub perform : Command → State → List (List ℕ) → Round
  unfolding run_cd run_ls run_read run_read_ run_cat run_stat run_get run_create run_write
      run_write_ set_loop run_rm run_fmt
  perform cd s args = goes_on (run_cd walk fuel s args)
  perform touch s args = goes_on (run_create walk fuel touch file s args)
  perform mkdir s args = goes_on (run_create walk fuel mkdir dir s args)
  perform ls s args = goes_on (run_ls walk fuel s)
  perform read s args = goes_on (run_read walk fuel s args)
  perform read_ s args = goes_on (run_read_ walk fuel s args)
  perform cat s args = goes_on (run_cat walk fuel s args)
  perform write s args = goes_on (run_write walk fuel s args)
  perform write_ s args = goes_on (run_write_ walk fuel s args)
  perform stat s args = goes_on (run_stat walk fuel s args)
  perform get s args = goes_on (run_get walk fuel s)
  perform set_ s args = goes_on (set_loop walk fuel s host_files)
  perform fmt s args = goes_on (run_fmt walk fuel s)
  perform rm s args = goes_on (run_rm walk fuel s args)
  perform exit s args = done (false, s, synced ∷ [])
  perform help s args = done (true, s, help_lines ∷ [])

  unfoldable pub match_cmd : State → List ℕ → List (List ℕ) → Option Command → Round
  unfolding perform
  match_cmd s word args none = done (true, s, unknown word ∷ [])
  match_cmd s word args (some command) = perform command s args

  -- The command of a line's words, which a blank line has not.
  unfoldable pub on_words : State → List (List ℕ) → Round
  unfolding match_cmd command_of
  on_words s [] = panic
  on_words s (word ∷ args) = match_cmd s word args (command_of word)

  -- One round of the loop.
  unfoldable pub round : State → Round
  unfolding on_words split_whitespace
  round s =
      let (line, input) = read_line s.input in
      do
        (more, s', events) ← on_words (record s { input = input }) (split_whitespace line)
        done (more, s', prompt s.path ∷ events)

  -- The loop, up to `exit`.
  unfoldable pub run : ℕ → State → Outcome (State × List Event)
  unfolding round
  run zero s = out_of_fuel
  run (suc n) s = do
    (more, s', events) ← round s
    elim more [
      | true ↦ do (s'', rest) ← run n s'; done (s'', events ++ rest)
      | false ↦ done (s', events)
    ]

  -- The arguments are what the command line of the program gives; the device holds the blocks of the image.
  unfoldable pub fs_pack :
      ℕ → List ℕ → List ℕ → List ℕ → Disk → List (List ℕ) → Outcome (State × List Event)
  unfolding mount run start ends_with_slash
  fs_pack n src_path target_path ways device input = do
    guard (ends_with_slash target_path || ends_with_slash src_path)
    fs ← mount ways device
    run n (start fs input)
