-- ===== src/Cache/Laws.antt =====
-- src/cache.rs: what the manager relies on of the crate lru and of a block device.
use fat32_rs.Base.{ℕ, ◌<◌, ◌≤◌, ◌*◌, ◌≡◌, ◌==◌, if◌then◌else◌, Option, none, some, get_elem?}
use fat32_rs.Bytes.{Bytes}
use fat32_rs.Disk.{Disk, store, block_size}
use fat32_rs.Cache.{BlockDevice, LruCache}

-- An unbounded LRU cache is a map: `get` looks up, `put` sets, and `pop_lru` takes out the entry that
-- `peek_lru` shows, which an empty cache alone has not. `iter` shows every entry, and only these.
pub record IsMap {C : Type 0} (api : LruCache C) : Type 0 where
  pub value : C → ℕ → Option ℕ
  pub empty : (k : ℕ) → value api.unbounded k ≡ none
  pub get : (c : C) (k : ℕ) → (api.get c k).0 ≡ value c k
  pub get_same : (c : C) (k j : ℕ) → value (api.get c k).1 j ≡ value c j
  pub put : (c : C) (k v : ℕ) → (api.put c k v).0 ≡ value c k
  pub put_value :
      (c : C) (k v j : ℕ) → value (api.put c k v).1 j ≡ (if j == k then some v else value c j)
  pub peek : (c : C) (p : ℕ × ℕ) → api.peek_lru c ≡ some p → value c p.0 ≡ some p.1
  pub peek_none : (c : C) → api.peek_lru c ≡ none → api.len c ≡ 0
  pub pop : (c : C) → (api.pop_lru c).0 ≡ api.peek_lru c
  pub pop_value :
      (c : C) (p : ℕ × ℕ) (j : ℕ)
      → api.peek_lru c ≡ some p
      → value (api.pop_lru c).1 j ≡ (if j == p.0 then none else value c j)
  pub iter :
      (c : C) (i : ℕ) (p : ℕ × ℕ) → get_elem? (api.iter c) i ≡ some p → value c p.0 ≡ some p.1
  pub iter_all :
      (c : C) (k v : ℕ) → value c k ≡ some v → (i : ℕ) × (get_elem? (api.iter c) i ≡ some (k, v))

-- The bytes of one block and nothing else.
abbrev pub IsWhole : Bytes → Type 0
IsWhole bytes = (i : ℕ) → block_size ≤ i → bytes i ≡ 0

-- A device of some number of blocks gives back what was written to one of them, and keeps the others.
pub record IsDisk {S : Type 0} (dev : BlockDevice S) : Type 0 where
  pub contents : S → Disk
  pub blocks : S → ℕ
  pub whole : (s : S) (b : ℕ) → IsWhole (contents s b)
  pub read :
      (s : S) (b : ℕ) → b < blocks s → dev.read_blocks s (b * block_size) 1 ≡ some (contents s b)
  pub write :
      (s : S) (b : ℕ) (bytes : ℕ → ℕ)
      → b < blocks s
      → IsWhole bytes
      → (s' : S) × (dev.write_blocks s bytes (b * block_size) 1 ≡ some s')
        × (contents s' ≡ store (contents s) b bytes)
        × (blocks s' ≡ blocks s)
