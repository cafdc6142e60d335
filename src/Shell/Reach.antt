-- ===== src/Shell/Reach.antt =====
-- examples/fat32-fs-std/src/main.rs: the states that the loop reaches.
use fat32_rs.Base.{
  ℕ, zero, suc, ◌≡◌, ◌≢◌, sym, Bool-cases, true, Option, none, some, inl, inr, List, [], ◌∷◌, ◌∉◌,
  get_elem?, list_eq, done, panic, out_of_fuel, ◌>>=◌, Ends, Ends->>=, Ends-map, Ends-then, Result,
  ok, err,
}
use mathlib.Core.Path.{subst}
use fat32_rs.Entry.{dir, file}
use fat32_rs.Fs.{FileSystem}
use fat32_rs.Vfs.{VirtFile, is_dir}
use fat32_rs.Dir.{DirError}
use fat32_rs.Shell.{
  Command, Event, State, Handled, start, find_file, command_of, cd, touch, mkdir, ls, read, read_,
  cat, prompt, warning, write, write_, stat, get, set_, fmt, rm, exit, help,
}
use fat32_rs.Shell.Words.{split_whitespace, cut_slash, update_path, home}
use fat32_rs.Shell.Cut.{IsWords, split_whitespace-IsWords}
use fat32_rs.Shell.Show.{moved, to_root, enter, run_cd}
use fat32_rs.Shell.Format.{traverse, clear_all, run_fmt}
use fat32_rs.Vfs.Chain.{clear}
use fat32_rs.Shell.Run as Run
use fat32_rs.Shell.Run.{Round, read_line, perform, match_cmd, on_words, round}
use fat32_rs.Shell.Prompt.{IsPrompt, home-IsPrompt, update_path-IsPrompt}
use fat32_rs.Shell.Keeps.{
  Keeps, run_ls-Keeps, run_get-Keeps, run_read-Keeps, run_read_-Keeps, run_cat-Keeps,
  run_stat-Keeps, run_write-Keeps, run_write_-Keeps, run_create-Keeps, run_rm-Keeps, set_loop-Keeps,
}

none-some : {w : List ℕ} → none ≢ some w
none-some e = cc

some-inj : {v w : List ℕ} → some v ≡ some w → v ≡ w
some-inj e = cc

-- The text before a line is a prompt still.
abbrev Stays : Handled → Type 0
Stays run = Ends (λ r. IsPrompt r.0.path) run

Keeps-Stays : (s : State) (run : Handled) → IsPrompt s.path → Keeps s run → Stays run
Keeps-Stays s run p k =
    Ends-map (λ r. r.0.path ≡ s.path) (λ r. IsPrompt r.0.path) run (λ r e. subst IsPrompt (sym e) p)
      k

moved-Stays : (s : State) (word : List ℕ) → IsPrompt s.path → 10 ∉ word → Stays (moved s word)
unfolding moved
moved-Stays s word p line =
    let (path', ran, p') = update_path-IsPrompt s.path p word line in rw ran p'

enter-Stays :
    (s : State) (word arg : List ℕ) (found : Result VirtFile DirError)
    → IsPrompt s.path
    → 10 ∉ word
    → Stays (enter s word arg found)
unfolding enter
enter-Stays s word arg (err e) p line = p
enter-Stays s word arg (ok f) p line = elim (Bool-cases (is_dir f)) [
  | inl e ↦
      rw e (moved-Stays (record s { curr_folder_inode = some f; folder_inode = _ }) word p line)
  | inr e ↦ rw e p
]

module _ (walk fuel : ℕ) where
  run_cd-Stays :
      (s : State) (args : List (List ℕ))
      → IsPrompt s.path
      → IsWords args
      → Stays (run_cd walk fuel s args)
  unfolding run_cd to_root
  run_cd-Stays s [] p h = moved-Stays (record s { curr_folder_inode = none }) [] p tt
  run_cd-Stays s (word ∷ args) p h = elim (Bool-cases (list_eq (cut_slash word) [])) [
    | inl e ↦ rw e home-IsPrompt
    | inr e ↦ rw e (
        Ends->>= (λ r. IsPrompt r.0.path) (find_file walk fuel s (cut_slash word))
          (λ found. enter s word (cut_slash word) found)
          (λ found. enter-Stays s word (cut_slash word) found p h.0))
  ]

  run_fmt-Stays : (s : State) → Stays (run_fmt walk fuel s)
  unfolding run_fmt
  run_fmt-Stays s =
      Ends->>= (λ r. IsPrompt r.0.path) (traverse walk fuel fuel (to_root s) [] [])
        (λ x. clear_all walk fuel x.1.fs x.0 >>= λ fs1. clear walk fs1 x.1.root_inode >>= λ r.
          done (record x.1 { fs = r.1; path = home }, warning ∷ []))
        (λ x.
          Ends->>= (λ r. IsPrompt r.0.path) (clear_all walk fuel x.1.fs x.0)
            (λ fs1. clear walk fs1 x.1.root_inode >>= λ r.
              done (record x.1 { fs = r.1; path = home }, warning ∷ []))
            (λ fs1.
              Ends->>= (λ r. IsPrompt r.0.path) (clear walk fs1 x.1.root_inode)
                (λ r. done (record x.1 { fs = r.1; path = home }, warning ∷ []))
                (λ r. home-IsPrompt)))

-- The same of a round.
abbrev Shows : Round → Type 0
Shows run = Ends (λ r. IsPrompt r.1.path) run

goes_on-Shows : (run : Handled) → Stays run → Shows (Run.goes_on run)
goes_on-Shows (done r) h = h
goes_on-Shows panic h = tt
goes_on-Shows out_of_fuel h = tt

module _ (walk fuel : ℕ) (host_files : List (List ℕ × List ℕ)) where
  perform-Shows :
      (command : Command) (s : State) (args : List (List ℕ))
      → IsPrompt s.path
      → IsWords args
      → Shows (perform walk fuel host_files command s args)
  unfolding perform
  perform-Shows cd s args p h = goes_on-Shows _ (run_cd-Stays walk fuel s args p h)
  perform-Shows touch s args p h =
      goes_on-Shows _ (Keeps-Stays s _ p (run_create-Keeps walk fuel touch file s args))
  perform-Shows mkdir s args p h =
      goes_on-Shows _ (Keeps-Stays s _ p (run_create-Keeps walk fuel mkdir dir s args))
  perform-Shows ls s args p h = goes_on-Shows _ (Keeps-Stays s _ p (run_ls-Keeps walk fuel s))
  perform-Shows read s args p h =
      goes_on-Shows _ (Keeps-Stays s _ p (run_read-Keeps walk fuel s args))
  perform-Shows read_ s args p h =
      goes_on-Shows _ (Keeps-Stays s _ p (run_read_-Keeps walk fuel s args))
  perform-Shows cat s args p h =
      goes_on-Shows _ (Keeps-Stays s _ p (run_cat-Keeps walk fuel s args))
  perform-Shows write s args p h =
      goes_on-Shows _ (Keeps-Stays s _ p (run_write-Keeps walk fuel s args))
  perform-Shows write_ s args p h =
      goes_on-Shows _ (Keeps-Stays s _ p (run_write_-Keeps walk fuel s args))
  perform-Shows stat s args p h =
      goes_on-Shows _ (Keeps-Stays s _ p (run_stat-Keeps walk fuel s args))
  perform-Shows get s args p h = goes_on-Shows _ (Keeps-Stays s _ p (run_get-Keeps walk fuel s))
  perform-Shows set_ s args p h =
      goes_on-Shows _ (Keeps-Stays s _ p (set_loop-Keeps walk fuel s host_files))
  perform-Shows fmt s args p h = goes_on-Shows _ (run_fmt-Stays walk fuel s)
  perform-Shows rm s args p h = goes_on-Shows _ (Keeps-Stays s _ p (run_rm-Keeps walk fuel s args))
  perform-Shows exit s args p h = p
  perform-Shows help s args p h = p

  match_cmd-Shows :
      (s : State) (word : List ℕ) (args : List (List ℕ)) (option : Option Command)
      → IsPrompt s.path
      → IsWords args
      → Shows (match_cmd walk fuel host_files s word args option)
  unfolding match_cmd
  match_cmd-Shows s word args none p h = p
  match_cmd-Shows s word args (some command) p h = perform-Shows command s args p h

  on_words-Shows :
      (s : State) (words : List (List ℕ))
      → IsPrompt s.path
      → IsWords words
      → Shows (on_words walk fuel host_files s words)
  unfolding on_words
  on_words-Shows s [] p h = tt
  on_words-Shows s (word ∷ args) p h = match_cmd-Shows s word args (command_of word) p h.1

  round-Shows : (s : State) → IsPrompt s.path → Shows (round walk fuel host_files s)
  unfolding round
  round-Shows s p =
      let l = read_line s.input in
      let words = split_whitespace l.0 in
      let s0 = record s { input = l.1 } in
      Ends-then (λ r. IsPrompt r.1.path) (λ r. IsPrompt r.1.path)
        (on_words walk fuel host_files s0 words) (λ r. done (r.0, r.1, prompt s.path ∷ r.2))
        (on_words-Shows s0 words p (split_whitespace-IsWords l.0)) (λ r h. h)

  -- The states before a round.
  pub data Reach (s : State) : State → Type 0 where
    started : Reach s s
    after :
        {s' s'' : State} {events : List Event}
        → Reach s s'
        → round walk fuel host_files s' ≡ done (true, s'', events)
        → Reach s s''

  pub Reach-IsPrompt : {s s' : State} → IsPrompt s.path → Reach s s' → IsPrompt s'.path
  Reach-IsPrompt p started = p
  Reach-IsPrompt p (after {s' = s1} r ran) =
      subst (λ z. Shows z) ran (round-Shows s1 (Reach-IsPrompt p r))

  word-∉ :
      (words : List (List ℕ)) (i : ℕ) (word : List ℕ)
      → IsWords words
      → get_elem? words i ≡ some word
      → 10 ∉ word
  word-∉ [] i word h e = absurd (none-some e)
  word-∉ (w ∷ ws) zero word h e = subst (λ z. 10 ∉ z) (some-inj e) h.0
  word-∉ (w ∷ ws) (suc i) word h e = word-∉ ws i word h.1 e

  -- In every state that the loop reaches from its start, with any lines of input and any fuel, the text
  -- before a line is the home and names below it, each behind a `/`, in one line, and the arrow in the
  -- next; and `update_path` with any word of any next line returns, and leaves such a text.
  pub Reach-update_path :
      (fs : FileSystem) (input : List (List ℕ)) (s : State) (line : List ℕ) (i : ℕ) (word : List ℕ)
      → Reach (start fs input) s
      → get_elem? (split_whitespace line) i ≡ some word
      → IsPrompt s.path × (path' : List ℕ) × (update_path s.path word ≡ done path') × IsPrompt path'
  unfolding start
  Reach-update_path fs input s line i word r e =
      let p = Reach-IsPrompt home-IsPrompt r in
      let (path', ran, p') =
        update_path-IsPrompt s.path p word
          (word-∉ (split_whitespace line) i word (split_whitespace-IsWords line) e) in
      (p, path', ran, p')
