-- ===== src/Shell/Words.antt =====
-- examples/fat32-fs-std/src/main.rs: how a line of input is cut and numbers in it are read, by the
-- functions of Rust's standard library that the shell calls; and the text that it shows before a line.
use fat32_rs.Base.{
  ℕ, ◌+◌, ◌-◌, ◌*◌, ◌^◌, ltb, leb, ◌==◌, if◌then◌else◌, Bool, true, false, not, ◌&&◌, ◌||◌, Option,
  none, some, List, [], ◌∷◌, ◌++◌, list_eq, Outcome, done, unwrap, ◌>>=◌,
}

-- `char::is_whitespace`
unfoldable pub is_whitespace : ℕ → Bool
is_whitespace c =
    (leb 9 c && leb c 13)
    || c == 0x20
    || c == 0x85
    || c == 0xA0
    || c == 0x1680
    || (leb 0x2000 c && leb c 0x200A)
    || c == 0x2028
    || c == 0x2029
    || c == 0x202F
    || c == 0x205F
    || c == 0x3000

-- A character before the first part.
abbrev pub push : ℕ → List (List ℕ) → List (List ℕ)
push c [] = (c ∷ []) ∷ []
push c (w ∷ ws) = (c ∷ w) ∷ ws

abbrev pub goes_on : List ℕ → Bool
unfolding is_whitespace
goes_on [] = false
goes_on (c ∷ s) = not (is_whitespace c)

-- `split_whitespace`; `trim` before it changes nothing.
unfoldable pub split_whitespace : List ℕ → List (List ℕ)
unfolding is_whitespace
split_whitespace [] = []
split_whitespace (c ∷ s) =
    let rest = split_whitespace s in
    if is_whitespace c then rest else if goes_on s then push c rest else (c ∷ []) ∷ rest

-- `split('/')`
unfoldable pub split_path : List ℕ → List (List ℕ)
split_path [] = [] ∷ []
split_path (c ∷ s) = let rest = split_path s in if c == b'/' then [] ∷ rest else push c rest

-- The digits left of a number, and the number before them.
unfoldable pub digits : ℕ → List ℕ → Option ℕ
digits v [] = some v
digits v (c ∷ s) =
    let rest = digits (v * 10 + (c - b'0')) s in
    if leb b'0' c && leb c b'9' && ltb (v * 10 + (c - b'0')) (2 ^ 64) then rest else none

-- `parse::<usize>()`
unfoldable pub parse : List ℕ → Option ℕ
unfolding digits
parse [] = none
parse (c ∷ []) = digits 0 (c ∷ [])
parse (c ∷ d ∷ s) = if c == b'+' then digits 0 (d ∷ s) else digits 0 (c ∷ d ∷ s)

-- A `/` at the end is cut.
unfoldable pub cut_slash : List ℕ → List ℕ
cut_slash [] = []
cut_slash (c ∷ []) = if c == b'/' then [] else c ∷ []
cut_slash (c ∷ d ∷ s) = c ∷ cut_slash (d ∷ s)

abbrev pub longer : ℕ → Option (List ℕ) → Option (List ℕ)
longer c none = none
longer c (some s) = some (c ∷ s)

-- What stands before the first character of a kind, if there is one: `find`, and the front.
unfoldable pub before_first : ℕ → List ℕ → Option (List ℕ)
before_first x [] = none
before_first x (c ∷ s) = let rest = before_first x s in if c == x then some [] else longer c rest

abbrev pub or_nothing : Bool → Option (List ℕ)
or_nothing true = some []
or_nothing false = none

abbrev pub before_or : Option (List ℕ) → ℕ → Bool → Option (List ℕ)
before_or none c here = or_nothing here
before_or (some s) c here = some (c ∷ s)

-- What stands before the last one: `rfind`, and the front.
unfoldable pub before_last : ℕ → List ℕ → Option (List ℕ)
before_last x [] = none
before_last x (c ∷ s) = before_or (before_last x s) c (c == x)

-- `USER`
abbrev pub user : List ℕ
user = b'C' ∷ b'l' ∷ b's' ∷ b't' ∷ b'i' ∷ b'l' ∷ b'm' ∷ b'l' ∷ b'd' ∷ b'y' ∷ []

-- The end of the prompt, with the line break before it.
abbrev pub arrow : List ℕ
arrow = 0xa ∷ 0x2570 ∷ 0x2500 ∷ 0x276F ∷ b' ' ∷ []

abbrev pub home_name : List ℕ
home_name = (0x2742 ∷ b' ' ∷ []) ++ user ++ (b' ' ∷ b' ' ∷ b' ' ∷ b'~' ∷ [])

-- The first value of `PATH`: `format!("❂ {}   ~\n╰─❯ ", USER)`.
abbrev pub home : List ℕ
home = home_name ++ arrow

-- What `update_path` does with a target that does not end in `/`.
unfoldable pub go_to : List ℕ → List ℕ → Outcome (List ℕ)
unfolding before_first before_last
go_to path target =
    if list_eq target []
    then done home
    else if list_eq target (b'.' ∷ [])
    then done path
    else if list_eq target (b'.' ∷ b'.' ∷ [])
    then (if list_eq path home
        then done path
        else (unwrap (before_last b'/' path) >>= λ front. done (front ++ arrow)))
    else (unwrap (before_first 10 path) >>= λ front. done (front ++ (b'/' ∷ (target ++ arrow))))

-- The new value of `PATH`.
unfoldable pub update_path : List ℕ → List ℕ → Outcome (List ℕ)
unfolding go_to cut_slash
update_path path target = go_to path (cut_slash target)
