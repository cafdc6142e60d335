-- ===== src/Shell/Keeps.antt =====
-- examples/fat32-fs-std/src/main.rs: the commands that keep the text before a line.
use fat32_rs.Base.{
  ℕ, ◌≡◌, ◌∙◌, refl, Option, none, some, List, [], ◌∷◌, arith, Outcome, done, ◌>>=◌, Ends, Ends->>=,
  Ends-then, Result, ok, err,
}
use fat32_rs.Entry.{VirtFileType, file}
use fat32_rs.Fs.{FileSystem}
use fat32_rs.Vfs.{VirtFile, file_size}
use fat32_rs.Dir.Create.{create, remove}
use fat32_rs.Dir.{DirError}
use fat32_rs.Shell.{
  Command, State, Handled, read, read_, cat, write, write_, stat, with_file, on_found, set_folder,
  find_file, folder, set_line,
}
use fat32_rs.Shell.Words.{parse, split_path}
use fat32_rs.Shell.Show.{run_cat, run_read, run_read_, run_stat, run_ls, run_get, show_range, range}
use fat32_rs.Shell.Store.{
  set_loop, put_host, rm_loop, run_rm, run_create, run_write, run_write_, write_next, write_part,
  write_whole,
}

-- The handler keeps the text before a line.
abbrev pub Keeps : State → Handled → Type 0
Keeps s run = Ends (λ r. r.0.path ≡ s.path) run

on_found-Keeps :
    (command : Command) (s : State) (found : Result VirtFile DirError) (act : VirtFile → Handled)
    → ((f : VirtFile) → Keeps s (act f))
    → Keeps s (on_found command s found act)
unfolding on_found
on_found-Keeps command s (ok f) act h = h f
on_found-Keeps command s (err e) act h = refl

-- A handler that goes on after a call.
Keeps->>= :
    {A : Type 0} (s : State) (m : Outcome A) (f : A → Handled)
    → ((a : A) → Keeps s (f a))
    → Keeps s (m >>= f)
Keeps->>= s m f h = Ends->>= (λ r. r.0.path ≡ s.path) m f h

with_file-Keeps :
    (walk fuel : ℕ) (command : Command) (s : State) (args : List (List ℕ))
    (act : List ℕ → List (List ℕ) → VirtFile → Handled)
    → ((name : List ℕ) (rest : List (List ℕ)) (f : VirtFile) → Keeps s (act name rest f))
    → Keeps s (with_file walk fuel command s args act)
unfolding with_file
with_file-Keeps walk fuel command s [] act h = refl
with_file-Keeps walk fuel command s (name ∷ args) act h =
    Keeps->>= s (find_file walk fuel s name) (λ found. on_found command s found (act name args))
      (λ found. on_found-Keeps command s found (act name args) (h name args))

set_folder_path :
    (s : State) (option : Option VirtFile) (fs : FileSystem) (f : VirtFile)
    → (set_folder s option fs f).path ≡ s.path
unfolding set_folder
set_folder_path s none fs f = refl
set_folder_path s (some g) fs f = refl

module _ (walk fuel : ℕ) where
  pub run_ls-Keeps : (s : State) → Keeps s (run_ls walk fuel s)
  unfolding run_ls
  run_ls-Keeps s = ground arith

  pub run_get-Keeps : (s : State) → Keeps s (run_get walk fuel s)
  unfolding run_get
  run_get-Keeps s = ground arith

  pub run_read-Keeps : (s : State) (args : List (List ℕ)) → Keeps s (run_read walk fuel s args)
  unfolding run_read show_range range
  run_read-Keeps s args = with_file-Keeps walk fuel read s args _ (λ name rest f. ground arith)

  pub run_read_-Keeps : (s : State) (args : List (List ℕ)) → Keeps s (run_read_ walk fuel s args)
  unfolding run_read_
  run_read_-Keeps s args = with_file-Keeps walk fuel read_ s args _ (λ name rest f. ground arith)

  pub run_cat-Keeps : (s : State) (args : List (List ℕ)) → Keeps s (run_cat walk fuel s args)
  unfolding run_cat range
  run_cat-Keeps s args = with_file-Keeps walk fuel cat s args _ (λ name rest f. ground arith)

  pub run_stat-Keeps : (s : State) (args : List (List ℕ)) → Keeps s (run_stat walk fuel s args)
  unfolding run_stat
  run_stat-Keeps s args = with_file-Keeps walk fuel stat s args _ (λ name rest f. ground arith)

  pub run_write-Keeps : (s : State) (args : List (List ℕ)) → Keeps s (run_write walk fuel s args)
  unfolding run_write
  run_write-Keeps s args = with_file-Keeps walk fuel write s args _ (λ name rest f. ground arith)

  write_part-Keeps :
      (s : State) (f : VirtFile) (size : ℕ) (next : List ℕ) (rest : List (List ℕ))
      (option : Option ℕ)
      → Keeps s (write_part walk fuel s f size next rest option)
  unfolding write_part write_whole
  write_part-Keeps s f size next rest option = ground arith

  write_next-Keeps :
      (s : State) (f : VirtFile) (size : ℕ) (rest : List (List ℕ))
      → Keeps s (write_next walk fuel s f size rest)
  unfolding write_next
  write_next-Keeps s f size [] = tt
  write_next-Keeps s f size (next ∷ rest) = write_part-Keeps s f size next rest (parse next)

  pub run_write_-Keeps : (s : State) (args : List (List ℕ)) → Keeps s (run_write_ walk fuel s args)
  unfolding run_write_
  run_write_-Keeps s args = with_file-Keeps walk fuel write_ s args _ (λ name rest f.
      Keeps->>= s (file_size s.fs f) (λ size. write_next walk fuel s f size rest)
        (λ size. write_next-Keeps s f size rest))

  pub run_create-Keeps :
      (command : Command) (file_type : VirtFileType) (s : State) (args : List (List ℕ))
      → Keeps s (run_create walk fuel command file_type s args)
  unfolding run_create
  run_create-Keeps command file_type s [] = refl
  run_create-Keeps command file_type s (name ∷ args) =
      Keeps->>= s (create walk fuel s.fs (folder s) name file_type)
        (λ r. done (set_folder s s.curr_folder_inode r.1 r.2, []))
        (λ r. set_folder_path s s.curr_folder_inode r.1 r.2)

  rm_loop-Keeps : (s : State) (args : List (List ℕ)) → Keeps s (rm_loop walk fuel s args)
  unfolding rm_loop
  rm_loop-Keeps s [] = refl
  rm_loop-Keeps s (name ∷ args) =
      Keeps->>= s (remove walk fuel s.fs (folder s) (split_path name))
        (λ r. rm_loop walk fuel (record s { fs = r.1 }) args)
        (λ r. rm_loop-Keeps (record s { fs = r.1 }) args)

  pub run_rm-Keeps : (s : State) (args : List (List ℕ)) → Keeps s (run_rm walk fuel s args)
  unfolding run_rm
  run_rm-Keeps s [] = refl
  run_rm-Keeps s (name ∷ args) = rm_loop-Keeps s (name ∷ args)

  put_host_path :
      (s : State) (result : Result VirtFile DirError) (all_data : List ℕ)
      → Ends (λ z. z.path ≡ s.path) (put_host walk fuel s result all_data)
  unfolding put_host
  put_host_path s (err e) all_data = refl
  put_host_path s (ok f) all_data = ground arith

  pub set_loop-Keeps :
      (s : State) (host_files : List (List ℕ × List ℕ)) → Keeps s (set_loop walk fuel s host_files)
  unfolding set_loop
  set_loop-Keeps s [] = refl
  set_loop-Keeps s (h ∷ rest) =
      Keeps->>= s (create walk fuel s.fs (folder s) h.0 file)
        (λ r. put_host walk fuel (set_folder s s.curr_folder_inode r.1 r.2) r.0 h.1 >>= λ s1.
          set_loop walk fuel s1 rest >>= λ q. done (q.0, set_line h.0 ∷ q.1))
        (λ r.
          let s0 = set_folder s s.curr_folder_inode r.1 r.2 in
          Ends-then (λ z. z.path ≡ s0.path) (λ q. q.0.path ≡ s.path) (put_host walk fuel s0 r.0 h.1)
            (λ s1. set_loop walk fuel s1 rest >>= λ q. done (q.0, set_line h.0 ∷ q.1))
            (put_host_path s0 r.0 h.1)
            (λ s1 e.
              Ends-then (λ q. q.0.path ≡ s1.path) (λ q. q.0.path ≡ s.path)
                (set_loop walk fuel s1 rest) (λ q. done (q.0, set_line h.0 ∷ q.1))
                (set_loop-Keeps s1 rest)
                (λ q e'. e' ∙ e ∙ set_folder_path s s.curr_folder_inode r.1 r.2)))
