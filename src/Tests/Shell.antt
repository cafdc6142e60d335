-- ===== src/Tests/Shell.antt =====
-- The shell of examples/fat32-fs-std/src/main.rs, at concrete inputs.
use fat32_rs.Base.{ℕ, ◌≡◌, refl, arith, List, [], ◌∷◌, some, done, get_elem?}
use fat32_rs.Shell.{State, start, help_lines, prompt}
use fat32_rs.Shell.Words.{split_whitespace, is_whitespace, parse, update_path, home}
use fat32_rs.Shell.Run.{round, on_words}
use fat32_rs.Shell.Prompt.{IsPrompt, home-IsPrompt, update_path-back}
use fat32_rs.Shell.Reach.{Reach, started, after, Reach-update_path}
use fat32_rs.Tests.Dir.{volume}

-- ` cd  a/b`, with a line break.
abbrev cd_line : List ℕ
cd_line = b' ' ∷ b'c' ∷ b'd' ∷ b' ' ∷ b' ' ∷ b'a' ∷ b'/' ∷ b'b' ∷ 10 ∷ []

cd_words : get_elem? (split_whitespace cd_line) 1 ≡ some (b'a' ∷ b'/' ∷ b'b' ∷ [])
unfolding split_whitespace is_whitespace
cd_words = refl

abbrev help_line : List ℕ
help_line = b'h' ∷ b'e' ∷ b'l' ∷ b'p' ∷ 10 ∷ []

-- After a round with `help`.
abbrev helped : State
helped = record (start volume (help_line ∷ cd_line ∷ [])) { input = cd_line ∷ [] }

one_round : Reach 3 3 [] (start volume (help_line ∷ cd_line ∷ [])) helped
unfolding start round on_words
one_round = after {events = prompt home ∷ help_lines ∷ []} started refl

Reach-update_path_example :
    IsPrompt helped.path
    × (path' : List ℕ) × (update_path helped.path (b'a' ∷ b'/' ∷ b'b' ∷ []) ≡ done path')
    × IsPrompt path'
Reach-update_path_example =
    Reach-update_path 3 3 [] volume (help_line ∷ cd_line ∷ []) helped cd_line 1
      (b'a' ∷ b'/' ∷ b'b' ∷ []) one_round cd_words

abbrev docs : List ℕ
docs = b'd' ∷ b'o' ∷ b'c' ∷ b's' ∷ []

update_path-back_example :
    (path' : List ℕ) × (update_path home docs ≡ done path')
    × (update_path path' (b'.' ∷ b'.' ∷ []) ≡ done home)
update_path-back_example =
    update_path-back home home-IsPrompt docs (ground arith) (ground arith) refl refl refl

parse_test : parse (b'4' ∷ b'0' ∷ b'7' ∷ []) ≡ some 407
unfolding parse
parse_test = refl
