-- ===== src/Cache/View.antt =====
-- src/cache.rs: through the manager, blocks are read and modified as on one disk.
use fat32_rs.Base.{ℕ, ◌≢◌, ◌<◌, ◌≡◌, ap, ◌∙◌, refl, sym, eq→==, ne→==, false, Option, none, some}
use mathlib.Core.Path.{subst}
use native.Mathlib.Decide.{ℕ_discrete}
use fat32_rs.Bytes.{Bytes}
use fat32_rs.Disk.{Disk}
use fat32_rs.Cache.{BlockDevice, LruCache, BlockCache, Shared, Manager, set_cell}
use fat32_rs.Cache.Laws.{IsMap, IsWhole, IsDisk}

pub set_self : (heap : ℕ → Shared) (r : ℕ) (cell : Shared) → set_cell heap r cell r ≡ cell
unfolding set_cell
set_self heap r cell = rw (eq→== r r refl)

pub set_ne : (heap : ℕ → Shared) (r q : ℕ) (cell : Shared) → q ≢ r → set_cell heap r cell q ≡ heap q
unfolding set_cell
set_ne heap r q cell ne = rw (ne→== q r ne)

module _ {C S : Type 0} {api : LruCache C} {dev : BlockDevice S} (map : IsMap api)
    (disk : IsDisk dev) where
  -- The block of a cell is that of its number on the device, which has its bytes if it is not modified.
  pub record IsBlock (device : S) (b : ℕ) (block : BlockCache) : Type 0 where
    pub number : block.block_id ≡ b
    pub inside : b < disk.blocks device
    pub whole : IsWhole block.cache
    pub clean : block.modified ≡ false → block.cache ≡ disk.contents device b

  -- A listed block, with its handles.
  pub record IsListed (m : Manager api dev) (b r handles : ℕ) : Type 0 where
    pub block : IsBlock m.device b (m.heap r).block
    pub counted : (m.heap r).strong_count ≡ handles
    pub below : r < m.free

  -- Between two operations only the list holds a handle.
  abbrev pub IsCoherent : Manager api dev → Type 0
  IsCoherent m = (b r : ℕ) → map.value m.lru b ≡ some r → IsListed m b r 1

  abbrev pub content_of : Manager api dev → ℕ → Option ℕ → Bytes
  content_of m b none = disk.contents m.device b
  content_of m b (some r) = (m.heap r).block.cache

  -- The bytes of a block as the file system sees them: cached, or else those of the device.
  abbrev pub view : Manager api dev → Disk
  view m b = content_of m b (map.value m.lru b)

  -- One block has a second handle.
  pub record IsHeld (m : Manager api dev) (b r : ℕ) : Type 0 where
    pub listed : map.value m.lru b ≡ some r
    pub held : IsListed m b r 2
    pub others : (b' r' : ℕ) → b' ≢ b → map.value m.lru b' ≡ some r' → IsListed m b' r' 1

  -- Different blocks have different cells.
  pub apart :
      (m : Manager api dev) (b b' r r' h h' : ℕ)
      → IsListed m b r h
      → IsListed m b' r' h'
      → b ≢ b'
      → r ≢ r'
  apart m b b' r r' h h' l l' ne e =
      ne (sym l.block.number ∙ ap (λ z. (m.heap z).block.block_id) e ∙ l'.block.number)

  -- A listed block, in a state that has its cell.
  pub relisted :
      (m m' : Manager api dev) (b r h : ℕ) (cell : Shared)
      → m'.heap r ≡ cell
      → IsBlock m'.device b cell.block
      → cell.strong_count ≡ h
      → r < m'.free
      → IsListed m' b r h
  relisted m m' b r h cell e i n l = record {
    block = subst (λ x. IsBlock m'.device b x.block) (sym e) i;
    counted = ap (λ x. x.strong_count) e ∙ n;
    below = l;
  }

  pub some-inj : {x y : ℕ} → some x ≡ some y → x ≡ y
  some-inj e = cc

  -- The second handle of a held block is gone, and its bytes may have changed.
  pub settled-IsCoherent :
      (m : Manager api dev) (b r : ℕ) (heap : ℕ → Shared) (block : BlockCache)
      → IsHeld m b r
      → heap r ≡ record { block = block; strong_count = 1 }
      → ((q : ℕ) → q ≢ r → heap q ≡ m.heap q)
      → IsBlock m.device b block
      → IsCoherent (record m { heap = heap })
  settled-IsCoherent m b r heap block h e same i b' r' l = elim (ℕ_discrete b' b) [
    | yes p ↦
        let q : r' ≡ r = some-inj (sym l ∙ ap (map.value m.lru) p ∙ h.listed) in
        relisted m (record m { heap = heap }) b' r' 1 (record { block = block; strong_count = 1 })
          (ap heap q ∙ e) (subst (λ z. IsBlock m.device z block) (sym p) i) refl
          (subst (λ z. z < m.free) (sym q) h.held.below)
    | no ne ↦
        let o = h.others b' r' ne l in
        relisted m (record m { heap = heap }) b' r' 1 (m.heap r')
          (same r' (apart m b' b r' r 1 2 o h.held ne)) o.block o.counted o.below
  ]

  pub view-settled :
      (m : Manager api dev) (b r : ℕ) (heap : ℕ → Shared) (block : BlockCache)
      → IsHeld m b r
      → heap r ≡ record { block = block; strong_count = 1 }
      → view (record m { heap = heap }) b ≡ block.cache
  view-settled m b r heap block h e = rw h.listed (ap (λ x. x.block.cache) e)

  -- What a block shows when its cell is the same, or it is not listed.
  pub same_content :
      (m m' : Manager api dev) (k : ℕ) (option : Option ℕ)
      → disk.contents m'.device k ≡ disk.contents m.device k
      → ((q : ℕ) → option ≡ some q → m'.heap q ≡ m.heap q)
      → content_of m' k option ≡ content_of m k option
  same_content m m' k none d h = d
  same_content m m' k (some q) d h = ap (λ x. x.block.cache) (h q refl)

  pub settled_others :
      (m : Manager api dev) (b r : ℕ) (heap : ℕ → Shared) (k : ℕ)
      → IsHeld m b r
      → ((q : ℕ) → q ≢ r → heap q ≡ m.heap q)
      → k ≢ b
      → view (record m { heap = heap }) k ≡ view m k
  settled_others m b r heap k h same ne =
      same_content m (record m { heap = heap }) k (map.value m.lru k) refl
        (λ q l. same q (apart m k b q r 1 2 (h.others k q ne l) h.held ne))
