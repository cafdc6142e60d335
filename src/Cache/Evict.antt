-- ===== src/Cache/Evict.antt =====
-- src/cache.rs: a block is written back when it is dropped, and listed in its place.
use fat32_rs.Base.{
  ℕ, ◌≢◌, ◌<◌, ◌≡◌, ap, ◌∙◌, refl, sym, eq→==, ne→==, Bool, true, false, none, some, done,
}
use mathlib.Core.Path.{subst}
use native.Mathlib.Decide.{ℕ_discrete}
use fat32_rs.Bytes.{Bytes}
use fat32_rs.Disk.{store_self, store_ne}
use fat32_rs.Cache.{
  BlockDevice, LruCache, BlockCache, Manager, set_cell, sync, clone, one_more, drop_old, insert,
}
use fat32_rs.Cache.Laws.{IsMap, IsWhole, IsDisk}
use fat32_rs.Cache.View.{
  set_self, set_ne, IsBlock, IsCoherent, IsHeld, view, relisted, same_content,
}

module _ {C S : Type 0} {api : LruCache C} {dev : BlockDevice S} (map : IsMap api)
    (disk : IsDisk dev) where
  -- What `sync` of a block leaves: the device has its bytes, and other blocks as before.
  pub record IsSynced (b : ℕ) (block block' : BlockCache) (device device' : S) : Type 0 where
    pub ran : sync dev block device ≡ done (block', device')
    pub number : block'.block_id ≡ b
    pub cache : block'.cache ≡ block.cache
    pub clean : block'.modified ≡ false
    pub written : disk.contents device' b ≡ block.cache
    pub kept : (k : ℕ) → k ≢ b → disk.contents device' k ≡ disk.contents device k
    pub blocks : disk.blocks device' ≡ disk.blocks device

  sync_modified :
      (b : ℕ) (cache : Bytes) (device : S)
      → b < disk.blocks device
      → IsWhole cache
      → (device' : S) × IsSynced b
          (record { cache = cache; block_id = b; modified = true })
          (record { cache = cache; block_id = b; modified = false })
          device
          device'
  unfolding sync
  sync_modified b cache device l w =
      let (device', ran, e, n) = disk.write device b cache l w in
      (
        device',
        record {
          ran = rw ran;
          number = refl;
          cache = refl;
          clean = refl;
          written = ap (λ d. d b) e ∙ store_self (disk.contents device) b cache;
          kept = λ k ne. ap (λ d. d k) e ∙ store_ne (disk.contents device) b cache k ne;
          blocks = n;
        },
      )

  sync_any :
      (b id : ℕ) (cache : Bytes) (modified : Bool) (device : S)
      → id ≡ b
      → b < disk.blocks device
      → IsWhole cache
      → (modified ≡ false → cache ≡ disk.contents device b)
      → (block' : BlockCache) × (device' : S) × IsSynced b
          (record { cache = cache; block_id = id; modified = modified })
          block'
          device
          device'
  unfolding sync
  sync_any b id cache true device e l w h =
      let (device', s) =
        sync_modified id cache device (subst (λ z. z < disk.blocks device) (sym e) l) w in
      (
        record { cache = cache; block_id = id; modified = false },
        device',
        subst
            (λ z.
              IsSynced z (record { cache = cache; block_id = id; modified = true })
                (record { cache = cache; block_id = id; modified = false }) device device')
            e s,
      )
  sync_any b id cache false device e l w h = (
    record { cache = cache; block_id = id; modified = false },
    device,
    record {
      ran = refl;
      number = e;
      cache = refl;
      clean = refl;
      written = sym (h refl);
      kept = λ k ne. refl;
      blocks = refl;
    },
  )

  pub sync-IsSynced :
      (b : ℕ) (block : BlockCache) (device : S)
      → IsBlock map disk device b block
      → (block' : BlockCache) × (device' : S) × IsSynced b block block' device device'
  sync-IsSynced b block device i =
      sync_any b block.block_id block.cache block.modified device i.number i.inside i.whole i.clean

  -- A block that is not listed, with one handle.
  pub record IsFresh (m : Manager api dev) (b r : ℕ) (block : BlockCache) : Type 0 where
    pub absent : map.value m.lru b ≡ none
    pub cell : m.heap r ≡ record { block = block; strong_count = 1 }
    pub valid : IsBlock map disk m.device b block
    pub below : r < m.free
    pub unlisted : (k q : ℕ) → map.value m.lru k ≡ some q → q ≢ r
    pub same : block.cache ≡ disk.contents m.device b

  abbrev pub inserted : Manager api dev → ℕ → ℕ → Manager api dev
  inserted m b r = record m {
    lru = (api.put m.lru b r).1;
    heap = set_cell m.heap r (one_more (m.heap r));
  }

  pub insert_run :
      (m : Manager api dev) (b r : ℕ)
      → map.value m.lru b ≡ none
      → insert api dev m b r ≡ done (inserted m b r)
  unfolding insert clone drop_old
  insert_run m b r absent = rw (map.put m.lru b r, absent)

  pub put_self : (m : Manager api dev) (b r : ℕ) → map.value (inserted m b r).lru b ≡ some r
  put_self m b r = map.put_value m.lru b r b ∙ rw (eq→== b b refl) refl

  put_ne :
      (m : Manager api dev) (b r k : ℕ)
      → k ≢ b
      → map.value (inserted m b r).lru k ≡ map.value m.lru k
  put_ne m b r k ne = map.put_value m.lru b r k ∙ rw (ne→== k b ne) refl

  pub inserted-IsHeld :
      (m : Manager api dev) (b r : ℕ) (block : BlockCache)
      → IsCoherent map disk m
      → IsFresh m b r block
      → IsHeld map disk (inserted m b r) b r
  inserted-IsHeld m b r block co f = record {
    listed = put_self m b r;
    held =
        relisted map disk m (inserted m b r) b r 2 (record { block = block; strong_count = 2 })
          (set_self m.heap r (one_more (m.heap r)) ∙ ap one_more f.cell) f.valid refl f.below;
    others = λ k q ne l.
        let l' = sym (put_ne m b r k ne) ∙ l in
        let o = co k q l' in
        relisted map disk m (inserted m b r) k q 1 (m.heap q)
          (set_ne m.heap r q _ (f.unlisted k q l')) o.block o.counted o.below;
  }

  pub view-inserted :
      (m : Manager api dev) (b r : ℕ) (block : BlockCache) (k : ℕ)
      → IsFresh m b r block
      → view map disk (inserted m b r) k ≡ view map disk m k
  view-inserted m b r block k f = elim (ℕ_discrete k b) [
    | yes p ↦
        ap (view map disk (inserted m b r)) p
        ∙ rw (put_self m b r)
            (ap (λ x. x.block.cache) (set_self m.heap r (one_more (m.heap r)) ∙ ap one_more f.cell))
        ∙ f.same
        ∙ sym (rw f.absent refl)
        ∙ ap (view map disk m) (sym p)
    | no ne ↦ rw (put_ne m b r k ne) (
        same_content map disk m (inserted m b r) k (map.value m.lru k) refl
          (λ q l. set_ne m.heap r q (one_more (m.heap r)) (f.unlisted k q l)))
  ]
