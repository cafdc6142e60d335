-- ===== src/Entry/Short/Fields.antt =====
-- src/entry.rs: what the operations on a short entry do to its fields.
use fat32_rs.Base.{
  ℕ, ◌-◌, ◌^◌, ◌≤◌, ◌<◌, ◌≡◌, ◌≢◌, refl, arith, leb, ap, true, false, List, [], ◌∷◌, ◌++◌, length,
  get_or, set, take, replicate, done, All, drop, le→leb,
}
use fat32_rs.Entry.{dir_entry_unused}
use fat32_rs.Entry.Short.{
  ShortDirEntry, first_cluster, set_first_cluster, sum_step, sum_loop, gen_check_sum, is_deleted,
  is_empty, is_free, delete, set_name,
}

-- The fields hold the widths of their types.
pub record IsEntry (e : ShortDirEntry) : Type 0 where
  pub name : length e.name ≡ 8
  pub name_bytes : All (λ c. c < 256) e.name
  pub extension : length e.extension ≡ 3
  pub extension_bytes : All (λ c. c < 256) e.extension
  pub attr : e.attr < 256
  pub nt_res : e.nt_res < 256
  pub crt_time_tenth : e.crt_time_tenth < 256
  pub crt_time : e.crt_time < 2 ^ 16
  pub crt_date : e.crt_date < 2 ^ 16
  pub lst_acc_date : e.lst_acc_date < 2 ^ 16
  pub fst_clus_hi : e.fst_clus_hi < 2 ^ 16
  pub wrt_time : e.wrt_time < 2 ^ 16
  pub wrt_date : e.wrt_date < 2 ^ 16
  pub fst_clus_lo : e.fst_clus_lo < 2 ^ 16
  pub file_size : e.file_size < 2 ^ 32

-- A cluster survives its storage in two halves, no other field changes, and storing the old cluster
-- again restores the entry.
pub first_cluster-set_first_cluster :
    (e : ShortDirEntry) (c : ℕ)
    → IsEntry e
    → c < 2 ^ 32
    → (first_cluster (set_first_cluster e c) ≡ c)
      × (set_first_cluster (set_first_cluster e c) (first_cluster e) ≡ e)
unfolding first_cluster set_first_cluster
first_cluster-set_first_cluster e c v h = (omega arith, ground arith)

pub first_cluster-lt : {e : ShortDirEntry} → IsEntry e → first_cluster e < 2 ^ 32
unfolding first_cluster
first_cluster-lt v = omega arith

get_or-set_first : (xs : List ℕ) (v : ℕ) → 0 < length xs → get_or (set xs 0 v) 0 0 ≡ v
get_or-set_first [] v h = absurd (omega arith)
get_or-set_first (x ∷ xs) v h = refl

drop-set_first : (xs : List ℕ) (v : ℕ) → drop 1 (set xs 0 v) ≡ drop 1 xs
drop-set_first [] v = refl
drop-set_first (x ∷ xs) v = refl

-- A deleted entry is marked so, has neither clusters nor size, is free and is not the end of the
-- directory; its other fields, and the name behind the first byte, stay.
pub delete_lem :
    (e : ShortDirEntry)
    → 0 < length e.name
    → (is_deleted (delete e) ≡ true)
      × (is_empty (delete e) ≡ false)
      × (is_free (delete e) ≡ true)
      × (first_cluster (delete e) ≡ 0)
      × ((delete e).file_size ≡ 0)
      × (drop 1 (delete e).name ≡ drop 1 e.name)
      × ((delete e).extension ≡ e.extension)
      × ((delete e).attr ≡ e.attr)
unfolding delete is_deleted is_empty is_free first_cluster
delete_lem e h =
    let first : get_or (set e.name 0 dir_entry_unused) 0 0 ≡ dir_entry_unused =
      get_or-set_first e.name dir_entry_unused h in
    (rw first, rw first, rw first, refl, refl, drop-set_first e.name dir_entry_unused, refl, refl)

sum_step-lt : (s c : ℕ) → sum_step s c < 256
sum_step-lt s c = omega arith

sum_loop-lt : (s : ℕ) (cs : List ℕ) → s < 256 → sum_loop s cs < 256
unfolding sum_loop
sum_loop-lt s [] h = h
sum_loop-lt s (c ∷ cs) h = sum_loop-lt (sum_step s c) cs (sum_step-lt s c)

sum_step-injective : (s t c : ℕ) → s < 256 → t < 256 → sum_step s c ≡ sum_step t c → s ≡ t
sum_step-injective s t c h k e = omega arith

sum_step-injective_byte : (s a b : ℕ) → a < 256 → b < 256 → sum_step s a ≡ sum_step s b → a ≡ b
sum_step-injective_byte s a b h k e = omega arith

sum_loop-injective :
    (cs : List ℕ) (s t : ℕ) → s < 256 → t < 256 → sum_loop s cs ≡ sum_loop t cs → s ≡ t
unfolding sum_loop
sum_loop-injective [] s t h k e = e
sum_loop-injective (c ∷ cs) s t h k e =
    sum_step-injective s t c h k
      (sum_loop-injective cs (sum_step s c) (sum_step t c) (sum_step-lt s c) (sum_step-lt t c) e)

sum_loop-one_byte :
    (xs ys : List ℕ) (s a b : ℕ)
    → a < 256
    → b < 256
    → sum_loop s (xs ++ a ∷ ys) ≡ sum_loop s (xs ++ b ∷ ys)
    → a ≡ b
unfolding sum_loop
sum_loop-one_byte [] ys s a b h k e =
    sum_step-injective_byte s a b h k
      (sum_loop-injective ys (sum_step s a) (sum_step s b) (sum_step-lt s a) (sum_step-lt s b) e)
sum_loop-one_byte (x ∷ xs) ys s a b h k e = sum_loop-one_byte xs ys (sum_step s x) a b h k e

-- The checksum is a byte, and tells apart any two names that differ in exactly one byte.
pub gen_check_sum_lem :
    (e f : ShortDirEntry) (xs ys : List ℕ) (a b : ℕ)
    → e.name ++ e.extension ≡ xs ++ a ∷ ys
    → f.name ++ f.extension ≡ xs ++ b ∷ ys
    → a < 256
    → b < 256
    → a ≢ b
    → (gen_check_sum e < 256) × (gen_check_sum e ≢ gen_check_sum f)
unfolding gen_check_sum
gen_check_sum_lem e f xs ys a b p q h k ne = (
  sum_loop-lt 0 (e.name ++ e.extension) (omega arith),
  rw (p, q) (λ same. ne (sum_loop-one_byte xs ys 0 a b h k same)),
)

pad-length : (n : ℕ) (bs : List ℕ) → length bs ≤ n → leb (length bs) n ≡ true
pad-length n bs h = le→leb _ _ h

-- `set_name` never stores the extension that it is given: whatever it is, the old one stays.
pub set_name-extension :
    (e : ShortDirEntry) (name extension : List ℕ)
    → length name ≤ 8
    → length extension ≤ 3
    → (e' : ShortDirEntry) × (set_name e name extension ≡ done e')
      × (e'.extension ≡ e.extension)
      × (take (length name) e'.name ≡ name)
unfolding set_name
set_name-extension e name extension h k = (
  record e { name = name ++ replicate (8 - length name) 0x20 },
  rw (le→leb _ _ h, le→leb _ _ k),
  refl,
  take-append name _,
)
  where
    take-append : (xs ys : List ℕ) → take (length xs) (xs ++ ys) ≡ xs
    take-append [] ys = refl
    take-append (x ∷ xs) ys = ap (λ zs. x ∷ zs) (take-append xs ys)
