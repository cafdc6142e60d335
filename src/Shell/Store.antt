-- ===== src/Shell/Store.antt =====
-- examples/fat32-fs-std/src/main.rs: the commands that store: touch, mkdir, write, write_, set, rm.
use fat32_rs.Base.{
  ℕ, ◌+◌, ◌-◌, ◌%◌, ◌^◌, ltb, if◌then◌else◌, ◌||◌, Option, none, some, List, [], ◌∷◌, list_eq,
  length, Outcome, done, out_of_fuel, unwrap, ◌>>=◌, Result, ok, err,
}
use fat32_rs.Text.{as_bytes}
use fat32_rs.Entry.{VirtFileType, file}
use fat32_rs.Fs.{FileSystem}
use fat32_rs.Vfs.{VirtFile, file_size}
use fat32_rs.Vfs.Io.{write_at}
use fat32_rs.File as File
use fat32_rs.File.{WriteType, over_written, append}
use fat32_rs.Dir.{DirError}
use fat32_rs.Dir.Create.{create, remove}
use fat32_rs.Shell.{
  Command, State, Handled, write, write_, folder, set_folder, with_file, miss_name, miss_names,
  offset_out_of_range, ask_content, set_line,
}
use fat32_rs.Shell.Show.{first_of, or_else}
use fat32_rs.Shell.Words.{parse, split_path}

-- `-a`
abbrev pub minus_a : List ℕ
minus_a = b'-' ∷ b'a' ∷ []

abbrev pub eof : List ℕ
eof = b'E' ∷ b'O' ∷ b'F' ∷ []

abbrev pub eof_line : List ℕ
eof_line = b'E' ∷ b'O' ∷ b'F' ∷ 10 ∷ []

-- The offset that the argument of `write` gives.
unfoldable pub offset_of : FileSystem → VirtFile → Option (List ℕ) → Outcome ℕ
unfolding parse
offset_of fs f none = done 0
offset_of fs f (some arg) = if list_eq arg minus_a then file_size fs f else unwrap (parse arg)

module _ (walk fuel : ℕ) where
  -- touch and mkdir; the result of `create` is dropped.
  unfoldable pub run_create : Command → VirtFileType → State → List (List ℕ) → Handled
  unfolding create folder set_folder
  run_create command file_type s [] = done (s, miss_name command ∷ [])
  run_create command file_type s (name ∷ args) = do
    (result, fs', f') ← create walk fuel s.fs (folder s) name file_type
    done (set_folder s s.curr_folder_inode fs' f', [])

  -- The loop of `write` over the lines of input, up to EOF; the lines left, and the file system. At the end
  -- of the input `read_line` gives the empty line again and again, and no fuel is enough.
  unfoldable pub write_lines :
      FileSystem → VirtFile → ℕ → List (List ℕ) → Outcome (FileSystem × List (List ℕ))
  unfolding write_at as_bytes
  write_lines fs f place [] = out_of_fuel
  write_lines fs f place (content ∷ input) =
      if list_eq content eof || list_eq content eof_line
      then (write_at walk fs f ((place + 2 ^ 64 - 1) % 2 ^ 64) [] >>= λ r. done (r.1, input))
      else (write_at walk fs f place (as_bytes content) >>= λ r.
          write_lines r.1 r.2 (place + length (as_bytes content)) input)

  unfoldable pub run_write : State → List (List ℕ) → Handled
  unfolding with_file write_lines offset_of first_of
  run_write s args = with_file walk fuel write s args (λ name rest f. do
    place ← offset_of s.fs f (first_of rest)
    (fs', input') ← write_lines s.fs f place s.input
    done (record s { fs = fs'; input = input' }, ask_content ∷ []))

  unfoldable pub write_whole : State → VirtFile → WriteType → List ℕ → Handled
  unfolding File.write as_bytes
  write_whole s f write_type content = do
    (result, fs', f') ← File.write walk s.fs f (as_bytes content) write_type
    done (record s { fs = fs' }, [])

  -- The number that the argument of `write_` is, if it is one.
  unfoldable pub write_part : State → VirtFile → ℕ → List ℕ → List (List ℕ) → Option ℕ → Handled
  unfolding write_whole first_of or_else write_at as_bytes
  write_part s f size next rest none =
      if list_eq next minus_a
      then (unwrap (first_of rest) >>= λ content. write_whole s f append content)
      else write_whole s f over_written next
  write_part s f size next rest (some place) =
      if ltb size place
      then done (s, offset_out_of_range ∷ [])
      else (write_at walk s.fs f place (as_bytes (or_else (first_of rest) [])) >>= λ r.
          done (record s { fs = r.1 }, []))

  unfoldable pub write_next : State → VirtFile → ℕ → List (List ℕ) → Handled
  unfolding write_part parse
  write_next s f size [] = Outcome.panic
  write_next s f size (next ∷ rest) = write_part s f size next rest (parse next)

  unfoldable pub run_write_ : State → List (List ℕ) → Handled
  unfolding with_file write_next
  run_write_ s args =
      with_file walk fuel write_ s args
        (λ name rest f. do size ← file_size s.fs f; write_next s f size rest)

  -- A host file goes into what `create` made.
  unfoldable pub put_host : State → Result VirtFile DirError → List ℕ → Outcome State
  unfolding write_at
  put_host s (err e) all_data = done s
  put_host s (ok f) all_data = write_at walk s.fs f 0 all_data >>= λ r. done (record s { fs = r.1 })

  -- `for file in files`, with the names and the contents of the host's files that are left.
  unfoldable pub set_loop : State → List (List ℕ × List ℕ) → Handled
  unfolding create folder set_folder put_host
  set_loop s [] = done (s, [])
  set_loop s (h ∷ rest) = do
    (result, fs', f') ← create walk fuel s.fs (folder s) h.0 file
    s1 ← put_host (set_folder s s.curr_folder_inode fs' f') result h.1
    (s2, events) ← set_loop s1 rest
    done (s2, set_line h.0 ∷ events)

  -- `rm`, with the arguments left.
  unfoldable pub rm_loop : State → List (List ℕ) → Handled
  unfolding remove folder split_path
  rm_loop s [] = done (s, [])
  rm_loop s (name ∷ rest) = do
    (result, fs') ← remove walk fuel s.fs (folder s) (split_path name)
    rm_loop (record s { fs = fs' }) rest

  unfoldable pub run_rm : State → List (List ℕ) → Handled
  unfolding rm_loop
  run_rm s [] = done (s, miss_names ∷ [])
  run_rm s (name ∷ rest) = rm_loop s (name ∷ rest)
