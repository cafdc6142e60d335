-- ===== src/Fat/Entries.antt =====
-- src/fat.rs: reading and writing one entry.
use fat32_rs.Base.{
  ℕ, ◌+◌, ◌*◌, ◌/◌, ◌%◌, ◌^◌, ◌≤◌, ◌<◌, ◌≡◌, ◌≢◌, arith, leb, done, panic, guard, ◌>>◌,
  if◌then◌else◌,
}
use native.Mathlib.Decide.{ℕ_discrete}
use native.Mathlib.Nat.{add-zero}
use fat32_rs.Bytes.{
  IsBytes, patch, read_le_u32, le_u32, read_le_u32-patch, read_le_u32-patch_ne, read_le_u32-shift,
  read_le_u32-lt,
}
use fat32_rs.Disk.{Disk, store, read-done, modify-done, store_self, store_ne}
use fat32_rs.Fat.{FatManager, link, set_next_cluster, get_next_cluster}

-- The table begins at a block.
abbrev pub IsAligned : ℕ → Type 0
IsAligned off = off % 512 ≡ 0

-- The block of an entry, and its place there, in a table that begins at `off`.
abbrev pub entry_block : ℕ → ℕ → ℕ
entry_block off n = (n * 4 + off) / 512

abbrev pub entry_offset : ℕ → ℕ → ℕ
entry_offset off n = (n * 4 + off) % 512

-- The table as an array.
unfoldable pub entry : ℕ → Disk → ℕ → ℕ
entry off d n = read_le_u32 (d (entry_block off n)) (entry_offset off n)

-- The disk with one entry set.
unfoldable pub set_entry : ℕ → Disk → ℕ → ℕ → Disk
set_entry off d n v =
    store d (entry_block off n) (patch (d (entry_block off n)) (entry_offset off n) (le_u32 v))

pub entry-lt : (off : ℕ) (d : Disk) (n : ℕ) → ((b : ℕ) → IsBytes (d b)) → entry off d n < 2 ^ 32
unfolding entry
entry-lt off d n h = read_le_u32-lt _ _ (h _)

module _ (off : ℕ) (al : IsAligned off) where
  in_block : (n : ℕ) → entry_offset off n + 4 ≤ 512
  in_block n = omega arith

  pub entry-set_self : (d : Disk) (n v : ℕ) → v < 2 ^ 32 → entry off (set_entry off d n v) n ≡ v
  unfolding entry set_entry
  entry-set_self d n v h =
      rw (store_self d (entry_block off n)) (read_le_u32-patch (d (entry_block off n)) _ v h)

  pub entry-set_ne :
      (d : Disk) (n m v : ℕ) → m ≢ n → entry off (set_entry off d n v) m ≡ entry off d m
  unfolding entry set_entry
  entry-set_ne d n m v h = elim (ℕ_discrete (entry_block off m) (entry_block off n)) [
    | yes e ↦
        rw (e, store_self d (entry_block off n))
          (read_le_u32-patch_ne (d (entry_block off n)) (entry_offset off n) (entry_offset off m) v
            (omega arith))
    | no ne ↦ rw (store_ne d (entry_block off n) _ (entry_block off m) ne)
  ]

  pub set_entry_ne : (d : Disk) (n v b : ℕ) → b ≢ entry_block off n → set_entry off d n v b ≡ d b
  unfolding set_entry
  set_entry_ne d n v b h = store_ne d _ _ b h

  -- An entry depends on its block alone.
  pub entry_same :
      (d d' : Disk) (n : ℕ)
      → d' (entry_block off n) ≡ d (entry_block off n)
      → entry off d' n ≡ entry off d n
  unfolding entry
  entry_same d d' n h = rw h

module _ (fat : FatManager) (al : IsAligned fat.fat1_offset) where
  -- The entry of a cluster lies inside its block, so its read does not panic.
  pub get_next_cluster_lem :
      (d : Disk) (n : ℕ)
      → get_next_cluster fat d n
        ≡ (guard (leb 2 (entry fat.fat1_offset d n)) >> done (link (entry fat.fat1_offset d n)))
  unfolding get_next_cluster entry
  get_next_cluster_lem d n = rw (
    read-done d (entry_block fat.fat1_offset n) 4 _ (in_block fat.fat1_offset al n),
    read_le_u32-shift (d (entry_block fat.fat1_offset n)) (entry_offset fat.fat1_offset n) 0,
    add-zero,
  )

  pub set_next_cluster_lem :
      (d : Disk) (n v : ℕ) → set_next_cluster fat d n v ≡ done (set_entry fat.fat1_offset d n v)
  unfolding set_next_cluster set_entry
  set_next_cluster_lem d n v =
      modify-done d (entry_block fat.fat1_offset n) _ (le_u32 v) (in_block fat.fat1_offset al n)

  -- `set_next_cluster` of 32 bits returns; `get_next_cluster` of the entry then gives the value as a link if
  -- it is at least 2, and panics otherwise, as for an entry that was set free. No other entry changes, nor
  -- any block but that of the entry.
  pub get_next_cluster-set_next_cluster :
      (d : Disk) (n v : ℕ)
      → v < 2 ^ 32
      → (d' : Disk) × (set_next_cluster fat d n v ≡ done d')
        × (get_next_cluster fat d' n ≡ (if leb 2 v then done (link v) else panic))
        × ((m : ℕ) → m ≢ n → get_next_cluster fat d' m ≡ get_next_cluster fat d m)
        × ((b : ℕ) → b ≢ entry_block fat.fat1_offset n → d' b ≡ d b)
  get_next_cluster-set_next_cluster d n v k = (
    set_entry fat.fat1_offset d n v,
    set_next_cluster_lem d n v,
    rw
        (
          get_next_cluster_lem (set_entry fat.fat1_offset d n v) n,
          entry-set_self fat.fat1_offset al d n v k,
        )
        (ground arith),
    λ m ne. rw (
      get_next_cluster_lem (set_entry fat.fat1_offset d n v) m,
      get_next_cluster_lem d m,
      entry-set_ne fat.fat1_offset al d n m v ne,
    ),
    set_entry_ne fat.fat1_offset al d n v,
  )
