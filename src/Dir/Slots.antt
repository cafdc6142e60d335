-- ===== src/Dir/Slots.antt =====
-- src/dir.rs: the searches of a directory go over its 32-byte slots in order.
use fat32_rs.Base.{
  ℕ, zero, suc, ◌≢◌, ◌⊎◌, inl, inr, ◌+◌, ◌*◌, ◌^◌, ◌≤◌, ◌<◌, ◌≡◌, arith, ap, ◌∙◌, refl, sym, ◌==◌,
  eq→==, ne→==, ◌&&◌, if◌then◌else◌, Bool, true, false, not, List, [], ◌∷◌, length, map, list_eq,
  Option, none, some, Outcome, done, ◌>>=◌, ok,
}
use fat32_rs.Bytes.{Bytes, of_list, slice, length-slice, read_le_u16, read_le_u32}
use fat32_rs.Entry.Short as Short
use fat32_rs.Entry.Short.{ShortDirEntry}
use fat32_rs.Fat.{end_of_cluster}
use fat32_rs.Fs.{FileSystem, cluster_size}
use fat32_rs.Text.{upper}
use fat32_rs.Vfs.{VirtFile, is_dir}
use fat32_rs.Vfs.Io.{read_at}
use fat32_rs.Vfs.Io.Walk.{IsOpen}
use fat32_rs.Vfs.Io.ReadAt.{bytes_of, read_at-content, read_at-end}
use fat32_rs.Vfs.Io.Stored.{capacity_of}
use fat32_rs.Dir.{fill_sde, empty_loop, empty_entry_index}
use fat32_rs.Dir.Find.{found, sfn_loop, find_by_sfn}

-- The entry in a slot of a file's bytes.
abbrev pub slot : Bytes → ℕ → ShortDirEntry
slot b k = Short.new_from_bytes (of_list (slice b (k * 32) 32))

-- A read of 32 bytes replaces the whole entry.
fill_sde-slice :
    (b : Bytes) (p : ℕ) (sde : ShortDirEntry)
    → fill_sde sde (slice b p 32) ≡ Short.new_from_bytes (of_list (slice b p 32))
unfolding fill_sde slice Short.new_from_bytes read_le_u16 read_le_u32
fill_sde-slice b p sde = refl

is_empty-slot : (b : Bytes) (k : ℕ) → Short.is_empty (slot b k) ≡ (b (k * 32) == 0)
unfolding slice Short.new_from_bytes Short.is_empty
is_empty-slot b k = refl

-- A directory whose clusters are a chain, with the fuel to walk it.
pub record IsWalked (walk : ℕ) (fs : FileSystem) (self : VirtFile) (c : ℕ) (cs : List ℕ)
    : Type 0 where
  pub opened : IsOpen fs self c cs
  pub directory : is_dir self ≡ true
  pub fuel : length (c ∷ cs) < walk
  pub small : length (c ∷ cs) < 2 ^ 32
  pub number : c < end_of_cluster

module _ (walk : ℕ) (fs : FileSystem) (self : VirtFile) (c : ℕ) (cs : List ℕ)
    (w : IsWalked walk fs self c cs) where
  abbrev bytes : Bytes
  bytes = bytes_of fs (c ∷ cs)

  abbrev total : ℕ
  total = capacity_of fs (c ∷ cs)

  read_slot :
      (k : ℕ)
      → k * 32 + 32 ≤ total
      → read_at walk fs self (k * 32) 32 ≡ done (slice bytes (k * 32) 32)
  read_slot k h = read_at-content fs self c cs walk (k * 32) 32 w.opened (omega (arith, w.fuel)) h

  read_end : (k : ℕ) → k * 32 ≡ total → read_at walk fs self (k * 32) 32 ≡ done []
  unfolding cluster_size
  read_end k h =
      let same : fs.bpb.basic_bpb.byts_per_sec * fs.bpb.basic_bpb.sec_per_clus
          ≡ fs.bpb.basic_bpb.sec_per_clus * 512 =
        rw w.opened.mounted.block (omega arith) in
      let all : length (c ∷ cs) * (fs.bpb.basic_bpb.byts_per_sec * fs.bpb.basic_bpb.sec_per_clus)
          ≡ k * 32 =
        ap (λ z. length (c ∷ cs) * z) same ∙ sym h in
      read_at-end fs self c cs walk (k * 32) 32 w.opened w.fuel w.small w.number (omega arith)
        (omega (arith, all))
      ∙ rw
          (eq→== (k * 32)
            (length (c ∷ cs) * (fs.bpb.basic_bpb.byts_per_sec * fs.bpb.basic_bpb.sec_per_clus))
            (sym all))
          refl

  empty_step :
      (fuel k : ℕ) (sde : ShortDirEntry)
      → k * 32 + 32 ≤ total
      → empty_loop walk fs self (suc fuel) sde (k * 32) ≡ (
          if bytes (k * 32) == 0
          then done (k * 32)
          else empty_loop walk fs self fuel (slot bytes k) (suc k * 32))
  unfolding empty_loop slice
  empty_step fuel k sde h =
      let next : k * 32 + 32 ≡ suc k * 32 = omega arith in
      rw (read_slot k h, fill_sde-slice bytes (k * 32) sde, is_empty-slot bytes k, next) refl

  empty_end :
      (fuel k : ℕ) (sde : ShortDirEntry)
      → k * 32 ≡ total
      → empty_loop walk fs self (suc fuel) sde (k * 32) ≡ done (k * 32)
  unfolding empty_loop
  empty_end fuel k sde h = rw (read_end k h) refl

  at_last :
      (fuel k : ℕ) (sde : ShortDirEntry)
      → (k * 32 ≡ total) ⊎ ((k * 32 + 32 ≤ total) × (bytes (k * 32) ≡ 0))
      → empty_loop walk fs self (suc fuel) sde (k * 32) ≡ done (k * 32)
  at_last fuel k sde (inl h) = empty_end fuel k sde h
  at_last fuel k sde (inr h) = empty_step fuel k sde h.0 ∙ rw (eq→== (bytes (k * 32)) 0 h.1)

  empty_from :
      (rounds fuel i k : ℕ) (sde : ShortDirEntry)
      → i + rounds ≡ k
      → rounds < fuel
      → k * 32 ≤ total
      → ((j : ℕ) → j < k → bytes (j * 32) ≢ 0)
      → (k * 32 ≡ total) ⊎ ((k * 32 + 32 ≤ total) × (bytes (k * 32) ≡ 0))
      → empty_loop walk fs self fuel sde (i * 32) ≡ done (k * 32)
  empty_from rounds zero i k sde e f b used last = absurd (omega arith)
  empty_from zero (suc fuel) i k sde e f b used last =
      let here : i ≡ k = omega arith in
      ap (λ z. empty_loop walk fs self (suc fuel) sde (z * 32)) here ∙ at_last fuel k sde last
  empty_from (suc rounds) (suc fuel) i k sde e f b used last =
      empty_step fuel i sde (omega arith)
      ∙ rw (ne→== (bytes (i * 32)) 0 (used i (omega arith)))
          (empty_from rounds fuel (suc i) k (slot bytes i) (omega arith) (omega arith) b used last)

  -- A slot has a name that is not deleted.
  abbrev pub is_match : List ℕ → ℕ → Bool
  is_match name k =
      not (Short.is_deleted (slot bytes k))
      && list_eq name (Short.get_name_uppercase (slot bytes k))

  sfn_step :
      (name : List ℕ) (fuel k : ℕ) (sde : ShortDirEntry)
      → k * 32 + 32 ≤ total
      → sfn_loop walk fs self name (suc fuel) sde (k * 32) ≡ (
          if is_match name k
          then (found walk fs self name [] (slot bytes k) (k * 32) >>= λ f. done (some f))
          else sfn_loop walk fs self name fuel (slot bytes k) (suc k * 32))
  unfolding sfn_loop
  sfn_step name fuel k sde h =
      let next : k * 32 + 32 ≡ suc k * 32 = omega arith in
      rw (read_slot k h, fill_sde-slice bytes (k * 32) sde, length-slice bytes (k * 32) 32, next)
        refl

  -- What the search gives at the slot where it ends: nothing behind the last cluster, else the file.
  abbrev pub answer : List ℕ → ℕ → Outcome (Option VirtFile)
  answer name k =
      if k * 32 == total
      then done none
      else (found walk fs self name [] (slot bytes k) (k * 32) >>= λ f. done (some f))

  sfn_last :
      (name : List ℕ) (fuel k : ℕ) (sde : ShortDirEntry)
      → (k * 32 ≡ total) ⊎ ((k * 32 + 32 ≤ total) × (is_match name k ≡ true))
      → sfn_loop walk fs self name (suc fuel) sde (k * 32) ≡ answer name k
  unfolding sfn_loop
  sfn_last name fuel k sde (inl h) = rw (read_end k h, eq→== (k * 32) total h) refl
  sfn_last name fuel k sde (inr h) =
      sfn_step name fuel k sde h.0 ∙ rw (h.1, ne→== (k * 32) total (omega (arith, h.0))) refl

  sfn_from :
      (name : List ℕ) (rounds fuel i k : ℕ) (sde : ShortDirEntry)
      → i + rounds ≡ k
      → rounds < fuel
      → k * 32 ≤ total
      → ((j : ℕ) → j < k → is_match name j ≡ false)
      → (k * 32 ≡ total) ⊎ ((k * 32 + 32 ≤ total) × (is_match name k ≡ true))
      → sfn_loop walk fs self name fuel sde (i * 32) ≡ answer name k
  sfn_from name rounds zero i k sde e f b other last = absurd (omega arith)
  sfn_from name zero (suc fuel) i k sde e f b other last =
      let here : i ≡ k = omega arith in
      ap (λ z. sfn_loop walk fs self name (suc fuel) sde (z * 32)) here
      ∙ sfn_last name fuel k sde last
  sfn_from name (suc rounds) (suc fuel) i k sde e f b other last =
      sfn_step name fuel i sde (omega arith)
      ∙ rw (other i (omega arith)) (
          sfn_from name rounds fuel (suc i) k (slot bytes i) (omega arith) (omega arith) b other
            last)

  -- With fuel for the slots, `empty_entry_index` gives the place of the first slot whose first byte is
  -- 0, or that of the end of the last cluster if all slots before it are used.
  pub empty_entry_index-first :
      (fuel k : ℕ)
      → k < fuel
      → k * 32 ≤ total
      → ((j : ℕ) → j < k → bytes (j * 32) ≢ 0)
      → (k * 32 ≡ total) ⊎ ((k * 32 + 32 ≤ total) × (bytes (k * 32) ≡ 0))
      → empty_entry_index walk fs self fuel ≡ done (ok (k * 32))
  unfolding empty_entry_index
  empty_entry_index-first fuel k f b used last =
      rw (w.directory, empty_from k fuel 0 k Short.empty (omega arith) f b used last)

  -- With fuel for the slots, `find_by_sfn` of a name gives the file at the first slot that is not deleted
  -- and whose name, in upper case, is that name, also in upper case, or nothing if the clusters end
  -- before.
  pub find_by_sfn-first :
      (name : List ℕ) (fuel k : ℕ)
      → k < fuel
      → k * 32 ≤ total
      → ((j : ℕ) → j < k → is_match (map upper name) j ≡ false)
      → (k * 32 ≡ total) ⊎ ((k * 32 + 32 ≤ total) × (is_match (map upper name) k ≡ true))
      → find_by_sfn walk fs self fuel name ≡ answer (map upper name) k
  unfolding find_by_sfn
  find_by_sfn-first name fuel k f b other last =
      sfn_from (map upper name) k fuel 0 k Short.empty (omega arith) f b other last
