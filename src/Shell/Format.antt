-- ===== src/Shell/Format.antt =====
-- examples/fat32-fs-std/src/main.rs: fmt, which clears every file below the root and the root.
use fat32_rs.Base.{
  ℕ, zero, suc, if◌then◌else◌, some, List, [], ◌∷◌, Outcome, done, out_of_fuel, ◌>>=◌,
}
use fat32_rs.Fs.{FileSystem}
use fat32_rs.Vfs.{VirtFile, is_dir}
use fat32_rs.Vfs.Chain.{clear}
use fat32_rs.Shell.{State, Handled, find_file, warning}
use fat32_rs.Shell.Words.{home}
use fat32_rs.Shell.Show.{names, found_file, to_root}

module _ (walk fuel : ℕ) where
  -- `for file_name in all_files_name`, with the names left: the stacks `files` and `folder`, the top first.
  unfoldable pub collect :
      State
      → List (List ℕ)
      → List VirtFile
      → List VirtFile
      → Outcome (List VirtFile × List VirtFile)
  unfolding find_file found_file is_dir
  collect s [] files folders = done (files, folders)
  collect s (name ∷ rest) files folders = do
    found ← find_file walk fuel s name
    inode ← found_file found
    collect s rest (inode ∷ files) (if is_dir inode then inode ∷ folders else folders)

  -- The loop over the folders: all files, and the folder that is the current one then.
  unfoldable pub traverse :
      ℕ → State → List VirtFile → List VirtFile → Outcome (List VirtFile × State)
  unfolding names collect
  traverse zero s files folders = out_of_fuel
  traverse (suc n) s files folders = do
    list ← names walk fuel s
    (files', folders') ← collect s list files folders
    elim folders' [
      | [] ↦ done (files', s)
      | f ∷ rest ↦ traverse n (record s { curr_folder_inode = some f }) files' rest
    ]

  -- `while files.len() > 0`
  unfoldable pub clear_all : FileSystem → List VirtFile → Outcome FileSystem
  unfolding clear
  clear_all fs [] = done fs
  clear_all fs (f ∷ files) = do r ← clear walk fs f; clear_all r.1 files

  unfoldable pub run_fmt : State → Handled
  unfolding traverse clear_all to_root clear
  run_fmt s = do
    (files, s1) ← traverse fuel (to_root s) [] []
    fs1 ← clear_all s1.fs files
    r ← clear walk fs1 s1.root_inode
    done (record s1 { fs = r.1; path = home }, warning ∷ [])
