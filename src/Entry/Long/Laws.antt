-- ===== src/Entry/Long/Laws.antt =====
-- src/entry.rs: the 13 units of a long entry, and its order byte.
use fat32_rs.Base.{ℕ, ◌≡◌, refl, List, [], ◌∷◌, ◌++◌, take, drop, take-append-drop}
use fat32_rs.Entry.{attr_long_name}
use fat32_rs.Entry.Long.{new_form_name_slice, name_utf16, empty, set_name}

drop_five_six : (us : List ℕ) → drop 6 (drop 5 us) ≡ drop 11 us
drop_five_six [] = refl
drop_five_six (a ∷ []) = refl
drop_five_six (a ∷ b ∷ []) = refl
drop_five_six (a ∷ b ∷ c ∷ []) = refl
drop_five_six (a ∷ b ∷ c ∷ d ∷ []) = refl
drop_five_six (a ∷ b ∷ c ∷ d ∷ e ∷ us) = refl

-- The three places of an array of units, read together, are the array.
spread : (us : List ℕ) → take 5 us ++ (take 6 (drop 5 us) ++ drop 11 us) ≡ us
spread us =
    let inner = take-append-drop 6 (drop 5 us) in
    let gap = drop_five_six us in let all = take-append-drop 5 us in cc

-- The entry that `new_form_name_slice` makes from an array of units holds those units, the order
-- and the checksum it was given and the attribute of a long name; `set_name` replaces the units
-- and nothing else.
pub name_utf16-new_form_name_slice :
    (o c : ℕ) (us vs : List ℕ)
    → let e = new_form_name_slice o us c in
      (name_utf16 e ≡ us)
      × (e.ord ≡ o)
      × (e.chk_sum ≡ c)
      × (e.attr ≡ attr_long_name)
      × (name_utf16 (set_name e vs) ≡ vs)
      × (set_name (set_name e vs) us ≡ e)
unfolding new_form_name_slice name_utf16 set_name empty
name_utf16-new_form_name_slice o c us vs = (spread us, refl, refl, refl, spread vs, refl)
