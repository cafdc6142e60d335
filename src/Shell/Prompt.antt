-- ===== src/Shell/Prompt.antt =====
-- examples/fat32-fs-std/src/main.rs: update_path on the text before a line.
use fat32_rs.Base.{
  ℕ, inl, inr, Bool-cases, ◌≡◌, ◌≢◌, arith, ap, ◌∙◌, refl, sym, true, false, none, some, List, [],
  ◌∷◌, ◌++◌, ◌∉◌, list_eq, list_eq→eq, list_eq_refl, Outcome, done,
}
use mathlib.Core.Path.{subst}
use mathlib.Core.List.{append_assoc}
use fat32_rs.Shell.Cut.{
  before_first_lem, before_last-absent, before_last_lem, ∉-append, ∉-front, last_slash, ∉-cut_slash,
  cut_slash_plain,
}
use fat32_rs.Shell.Words.{
  before_first, before_last, cut_slash, go_to, update_path, home, home_name, arrow,
}

-- A path below the home: nothing, or names that each follow a `/`.
abbrev pub IsBelow : List ℕ → Type 0
IsBelow [] = Unit
IsBelow (c ∷ s) = c ≡ b'/'

-- The text before a line: a path below the home, in one line, and the arrow in the next.
pub record IsPrompt (path : List ℕ) : Type 0 where
  pub names : List ℕ
  pub shape : path ≡ (home_name ++ names) ++ arrow
  pub below : IsBelow names
  pub one_line : 10 ∉ names

no_slash_arrow : b'/' ∉ arrow
no_slash_arrow = ground arith

no_slash_home : b'/' ∉ home_name
no_slash_home = ground arith

no_break_home : 10 ∉ home_name
no_break_home = ground arith

no_break_slash : 10 ∉ (b'/' ∷ [])
no_break_slash = ground arith

true-false : true ≢ false
true-false e = cc

some-none : {s : List ℕ} → some s ≢ none
some-none e = cc

IsBelow-front :
    (c : ℕ) (s front back : List ℕ) → c ≡ b'/' → c ∷ s ≡ front ++ (b'/' ∷ back) → IsBelow front
IsBelow-front c s [] back e p = tt
IsBelow-front c s (d ∷ front) back e p = sym (head-inj p) ∙ e
  where
    head-inj : {x y : ℕ} {xs ys : List ℕ} → x ∷ xs ≡ y ∷ ys → x ≡ y
    head-inj e = cc

-- A path below the home that is not empty, cut before its last `/`.
last_slash-IsBelow :
    (names : List ℕ)
    → IsBelow names
    → names ≢ []
    → (front : List ℕ) × (back : List ℕ) × (names ≡ front ++ (b'/' ∷ back))
      × (b'/' ∉ back)
      × IsBelow front
last_slash-IsBelow [] h ne = absurd (ne refl)
last_slash-IsBelow (c ∷ s) h ne = elim (last_slash (c ∷ s)) [
  | inl none_there ↦ absurd (none_there.0 (sym h))
  | inr r ↦ (r.0, r.1, r.2, r.3, IsBelow-front c s r.0 r.1 h r.2)
]

IsBelow-more : (names t : List ℕ) → IsBelow names → IsBelow (names ++ (b'/' ∷ t))
IsBelow-more [] t h = refl
IsBelow-more (c ∷ s) t h = h

lower-IsPrompt :
    (names : List ℕ)
    → IsBelow names
    → 10 ∉ names
    → (t : List ℕ) → 10 ∉ t
    → IsPrompt ((home_name ++ names) ++ (b'/' ∷ (t ++ arrow)))
lower-IsPrompt names below one_line t line = record {
  names = names ++ (b'/' ∷ t);
  shape =
      sym (append_assoc (home_name ++ names) (b'/' ∷ t) arrow)
      ∙ ap (λ z. z ++ arrow) (append_assoc home_name names (b'/' ∷ t));
  below = IsBelow-more names t below;
  one_line = ∉-append 10 names (b'/' ∷ t) one_line (no_break_slash.0, line);
}

pub home-IsPrompt : IsPrompt home
home-IsPrompt = record { names = []; shape = refl; below = tt; one_line = tt }

module _ (path : List ℕ) (p : IsPrompt path) where
  not_home : list_eq path home ≡ false → p.names ≢ []
  not_home e n =
      let same : path ≡ home = p.shape ∙ ap (λ z. (home_name ++ z) ++ arrow) n in
      true-false (sym (list_eq_refl home) ∙ sym (ap (λ z. list_eq z home) same) ∙ e)

  before_break : before_first 10 path ≡ some (home_name ++ p.names)
  before_break =
      ap (before_first 10) p.shape
      ∙ before_first_lem 10 (home_name ++ p.names) (0x2570 ∷ 0x2500 ∷ 0x276F ∷ b' ' ∷ [])
          (∉-append 10 home_name p.names no_break_home p.one_line)

  before_slash :
      (front back : List ℕ)
      → p.names ≡ front ++ (b'/' ∷ back)
      → b'/' ∉ back
      → before_last b'/' path ≡ some (home_name ++ front)
  before_slash front back e h =
      ap (before_last b'/') (
        p.shape
        ∙ ap (λ z. (home_name ++ z) ++ arrow) e
        ∙ ap (λ z. z ++ arrow) (sym (append_assoc home_name front (b'/' ∷ back)))
        ∙ append_assoc (home_name ++ front) (b'/' ∷ back) arrow)
      ∙ before_last_lem b'/' (home_name ++ front) (back ++ arrow)
          (∉-append b'/' back arrow h no_slash_arrow)

  -- What follows `go_to`.
  record IsMoved (run : Outcome (List ℕ)) : Type 0 where
    pub path' : List ℕ
    pub ran : run ≡ done path'
    pub prompt : IsPrompt path'

  module _ (t : List ℕ) (line : 10 ∉ t) (not_empty : list_eq t [] ≡ false)
      (not_here : list_eq t (b'.' ∷ []) ≡ false) where
    up : list_eq t (b'.' ∷ b'.' ∷ []) ≡ true → IsMoved (go_to path t)
    unfolding go_to
    up e = elim (Bool-cases (list_eq path home)) [
      | inl h ↦ record { path' = path; ran = rw (not_empty, not_here, e, h) refl; prompt = p }
      | inr h ↦
          let (front, back, f, no_more, below) = last_slash-IsBelow p.names p.below (not_home h) in
          record {
            path' = (home_name ++ front) ++ arrow;
            ran = rw (not_empty, not_here, e, h, before_slash front back f no_more) refl;
            prompt = record {
              names = front;
              shape = refl;
              below = below;
              one_line = ∉-front 10 front (b'/' ∷ back) (subst (λ z. 10 ∉ z) f p.one_line);
            };
          }
    ]

    down : list_eq t (b'.' ∷ b'.' ∷ []) ≡ false → IsMoved (go_to path t)
    unfolding go_to
    down e = record {
      path' = (home_name ++ p.names) ++ (b'/' ∷ (t ++ arrow));
      ran = rw (not_empty, not_here, e, before_break) refl;
      prompt = lower-IsPrompt p.names p.below p.one_line t line;
    }

  go_to-IsMoved : (t : List ℕ) → 10 ∉ t → IsMoved (go_to path t)
  unfolding go_to
  go_to-IsMoved t line = elim (Bool-cases (list_eq t [])) [
    | inl e ↦ record { path' = home; ran = rw e refl; prompt = home-IsPrompt }
    | inr e ↦ elim (Bool-cases (list_eq t (b'.' ∷ []))) [
      | inl e' ↦ record { path' = path; ran = rw (e, e') refl; prompt = p }
      | inr e' ↦ elim (Bool-cases (list_eq t (b'.' ∷ b'.' ∷ []))) [
        | inl e'' ↦ up t line e e' e''
        | inr e'' ↦ down t line e e' e''
      ]
    ]
  ]

  -- Where the text before a line is the home and names, each behind a `/`, in one line, and the arrow in
  -- the next, update_path with a target without a line break returns, and leaves such a text.
  pub update_path-IsPrompt :
      (target : List ℕ)
      → 10 ∉ target
      → (path' : List ℕ) × (update_path path target ≡ done path') × IsPrompt path'
  unfolding update_path
  update_path-IsPrompt target line =
      let m = go_to-IsMoved (cut_slash target) (∉-cut_slash 10 target line) in
      (m.path', m.ran, m.prompt)

  module _ (t : List ℕ) (line : 10 ∉ t) (plain : b'/' ∉ t) (not_empty : list_eq t [] ≡ false)
      (not_here : list_eq t (b'.' ∷ []) ≡ false)
      (not_up : list_eq t (b'.' ∷ b'.' ∷ []) ≡ false) where
    abbrev below_path : List ℕ
    below_path = (home_name ++ p.names) ++ (b'/' ∷ (t ++ arrow))

    before_name : before_last b'/' below_path ≡ some (home_name ++ p.names)
    before_name =
        before_last_lem b'/' (home_name ++ p.names) (t ++ arrow)
          (∉-append b'/' t arrow plain no_slash_arrow)

    below_not_home : list_eq below_path home ≡ false
    below_not_home = elim (Bool-cases (list_eq below_path home)) [
      | inl e ↦ absurd (
          some-none (
            sym before_name
            ∙ ap (before_last b'/') (list_eq→eq below_path home e)
            ∙ before_last-absent b'/' home
                (∉-append b'/' home_name arrow no_slash_home no_slash_arrow)))
      | inr e ↦ e
    ]

    -- Where the text before a line is the home and names, each behind a `/`, `update_path` with a name,
    -- which is not empty, `.` or `..` and has no `/` and no line break, and then with `..` returns, and
    -- leaves the text as it was.
    pub update_path-back :
        (path' : List ℕ) × (update_path path t ≡ done path')
        × (update_path path' (b'.' ∷ b'.' ∷ []) ≡ done path)
    unfolding update_path go_to cut_slash
    update_path-back = (
      below_path,
      rw (cut_slash_plain t plain, not_empty, not_here, not_up, before_break) refl,
      rw (below_not_home, before_name) (ap done (sym p.shape)),
    )
