-- ===== src/Cache/Load.antt =====
-- src/cache.rs: the handle that `get_block_cache` gives is one of the block as it is seen.
use fat32_rs.Base.{
  ℕ, ◌≢◌, ◌<◌, ◌+◌, ◌≡◌, arith, ap, ◌∙◌, refl, sym, eq→==, ne→==, false, Option, none, some,
  Outcome, done,
}
use native.Mathlib.Decide.{ℕ_discrete}
use fat32_rs.Cache.{
  BlockDevice, LruCache, BlockCache, Manager, block_cache_limit, set_cell, new_block, release,
  drop_popped, insert, evict, load,
}
use fat32_rs.Cache.Laws.{IsMap, IsDisk}
use fat32_rs.Cache.View.{
  set_self, set_ne, IsListed, IsCoherent, IsHeld, view, apart, relisted, same_content,
}
use fat32_rs.Cache.Evict.{
  IsSynced, sync-IsSynced, IsFresh, inserted, insert_run, inserted-IsHeld, view-inserted,
}

some-none : {x : ℕ} → some x ≢ none
some-none e = cc

module _ {C S : Type 0} {api : LruCache C} {dev : BlockDevice S} (map : IsMap api)
    (disk : IsDisk dev) where
  module _ (m : Manager api dev) (co : IsCoherent map disk m) (p : ℕ × ℕ)
      (shown : api.peek_lru m.lru ≡ some p) (block' : BlockCache) (device' : S)
      (s : IsSynced map disk p.0 (m.heap p.1).block block' m.device device') where
    abbrev evicted : Manager api dev
    evicted = record m {
      lru = (api.pop_lru m.lru).1;
      heap = set_cell m.heap p.1 (record { block = block'; strong_count = 0 });
      device = device';
    }

    victim : IsListed map disk m p.0 p.1 1
    victim = co p.0 p.1 (map.peek m.lru p shown)

    evict_run : evict api dev m ≡ done evicted
    unfolding evict drop_popped release
    evict_run = rw (map.pop m.lru, shown, victim.counted, s.ran) refl

    gone : map.value evicted.lru p.0 ≡ none
    gone = map.pop_value m.lru p p.0 shown ∙ rw (eq→== p.0 p.0 refl) refl

    left : (k : ℕ) → k ≢ p.0 → map.value evicted.lru k ≡ map.value m.lru k
    left k ne = map.pop_value m.lru p k shown ∙ rw (ne→== k p.0 ne) refl

    left_listed :
        (k q : ℕ) → map.value evicted.lru k ≡ some q → (k ≢ p.0) × (map.value m.lru k ≡ some q)
    left_listed k q l = elim (ℕ_discrete k p.0) [
      | yes e ↦ absurd (some-none (sym l ∙ ap (map.value evicted.lru) e ∙ gone))
      | no ne ↦ (ne, sym (left k ne) ∙ l)
    ]

    evicted-IsCoherent : IsCoherent map disk evicted
    evicted-IsCoherent k q l =
        let (ne, l') = left_listed k q l in
        let o = co k q l' in
        relisted map disk m evicted k q 1 (m.heap q)
          (set_ne m.heap p.1 q (record { block = block'; strong_count = 0 })
            (apart map disk m k p.0 q p.1 1 1 o victim ne))
          (record {
            number = o.block.number;
            inside = rw s.blocks o.block.inside;
            whole = o.block.whole;
            clean = λ z. o.block.clean z ∙ sym (s.kept k ne);
          })
          o.counted o.below

    evicted_victim : view map disk evicted p.0 ≡ view map disk m p.0
    evicted_victim = rw (gone, map.peek m.lru p shown) s.written

    view-evicted : (k : ℕ) → view map disk evicted k ≡ view map disk m k
    view-evicted k = elim (ℕ_discrete k p.0) [
      | yes e ↦ ap (view map disk evicted) e ∙ evicted_victim ∙ ap (view map disk m) (sym e)
      | no ne ↦ rw (left k ne) (
          same_content map disk m evicted k (map.value m.lru k) (s.kept k ne) (λ q l.
            set_ne m.heap p.1 q (record { block = block'; strong_count = 0 })
              (apart map disk m k p.0 q p.1 1 1 (co k q l) victim ne)))
    ]

    -- What is fresh stays fresh.
    evicted-IsFresh :
        (b r : ℕ) (block : BlockCache)
        → IsFresh map disk m b r block
        → IsFresh map disk evicted b r block
    evicted-IsFresh b r block f =
        let ne : b ≢ p.0 =
          λ e. some-none (sym (map.peek m.lru p shown) ∙ ap (map.value m.lru) (sym e) ∙ f.absent) in
        record {
          absent = left b ne ∙ f.absent;
          cell =
              set_ne m.heap p.1 r (record { block = block'; strong_count = 0 })
                (λ e. f.unlisted p.0 p.1 (map.peek m.lru p shown) (sym e))
              ∙ f.cell;
          valid = record {
            number = f.valid.number;
            inside = rw s.blocks f.valid.inside;
            whole = f.valid.whole;
            clean = λ z. f.valid.clean z ∙ sym (s.kept b ne);
          };
          below = f.below;
          unlisted = λ k q l. f.unlisted k q (left_listed k q l).1;
          same = f.same ∙ sym (s.kept b ne);
        }

  -- The handle of a block, with the state in which it is held.
  pub record IsGiven (m : Manager api dev) (b : ℕ) (run : Outcome (ℕ × Manager api dev))
      : Type 0 where
    pub r : ℕ
    pub m' : Manager api dev
    pub ran : run ≡ done (r, m')
    pub held : IsHeld map disk m' b r
    pub same : (k : ℕ) → view map disk m' k ≡ view map disk m k
    pub blocks : disk.blocks m'.device ≡ disk.blocks m.device

  module _ (m : Manager api dev) (co : IsCoherent map disk m) (b : ℕ)
      (inside : b < disk.blocks m.device) (absent : map.value m.lru b ≡ none) where
    abbrev block : BlockCache
    block = record { cache = disk.contents m.device b; block_id = b; modified = false }

    abbrev loaded : Manager api dev
    loaded = record m {
      heap = set_cell m.heap m.free (record { block = block; strong_count = 1 });
      free = m.free + 1;
    }

    old_cell : (k q : ℕ) → map.value m.lru k ≡ some q → loaded.heap q ≡ m.heap q
    old_cell k q l =
        set_ne m.heap m.free q (record { block = block; strong_count = 1 })
          (λ e. absurd (omega (arith, (co k q l).below, e)))

    loaded-IsCoherent : IsCoherent map disk loaded
    loaded-IsCoherent k q l =
        let o = co k q l in
        relisted map disk m loaded k q 1 (m.heap q) (old_cell k q l) o.block o.counted
          (omega (arith, o.below))

    loaded-IsFresh : IsFresh map disk loaded b m.free block
    loaded-IsFresh = record {
      absent = absent;
      cell = set_self m.heap m.free (record { block = block; strong_count = 1 });
      valid = record {
        number = refl;
        inside = inside;
        whole = disk.whole m.device b;
        clean = λ z. refl;
      };
      below = omega arith;
      unlisted = λ k q l e. absurd (omega (arith, (co k q l).below, e));
      same = refl;
    }

    view-loaded : (k : ℕ) → view map disk loaded k ≡ view map disk m k
    view-loaded k =
        same_content map disk m loaded k (map.value m.lru k) refl (λ q l. old_cell k q l)

    load_room :
        (m2 : Manager api dev)
        → api.len m.lru ≢ block_cache_limit
        → insert api dev loaded b m.free ≡ done m2
        → load api dev m b ≡ done (m.free, m2)
    unfolding load new_block
    load_room m2 h ran =
        rw (disk.read m.device b inside, ne→== (api.len m.lru) block_cache_limit h, ran)

    load_full :
        (p : ℕ × ℕ) (m2 m3 : Manager api dev)
        → api.len m.lru ≡ block_cache_limit
        → api.peek_lru m.lru ≡ some p
        → (loaded.heap p.1).strong_count ≡ 1
        → evict api dev loaded ≡ done m2
        → insert api dev m2 b m.free ≡ done m3
        → load api dev m b ≡ done (m.free, m3)
    unfolding load new_block
    load_full p m2 m3 h shown n ran ran' = rw (
      disk.read m.device b inside,
      eq→== (api.len m.lru) block_cache_limit h,
      shown,
      n,
      ran,
      ran',
    )

    IsGiven-full :
        (p : ℕ × ℕ)
        → api.len m.lru ≡ block_cache_limit
        → api.peek_lru m.lru ≡ some p
        → IsGiven m b (load api dev m b)
    IsGiven-full p h shown =
        let victim = loaded-IsCoherent p.0 p.1 (map.peek m.lru p shown) in
        let (block', device', s) =
          sync-IsSynced map disk p.0 (loaded.heap p.1).block m.device victim.block in
        let m2 = evicted loaded loaded-IsCoherent p shown block' device' s in
        let fresh =
          evicted-IsFresh loaded loaded-IsCoherent p shown block' device' s b m.free block
            loaded-IsFresh in
        record {
          r = m.free;
          m' = inserted map disk m2 b m.free;
          ran =
              load_full p m2 (inserted map disk m2 b m.free) h shown victim.counted
                (evict_run loaded loaded-IsCoherent p shown block' device' s)
                (insert_run map disk m2 b m.free fresh.absent);
          held =
              inserted-IsHeld map disk m2 b m.free block
                (evicted-IsCoherent loaded loaded-IsCoherent p shown block' device' s) fresh;
          same = λ k.
              view-inserted map disk m2 b m.free block k fresh
              ∙ view-evicted loaded loaded-IsCoherent p shown block' device' s k
              ∙ view-loaded k;
          blocks = s.blocks;
        }

    at_limit :
        (h : api.len m.lru ≡ block_cache_limit) (option : Option (ℕ × ℕ))
        → api.peek_lru m.lru ≡ option
        → IsGiven m b (load api dev m b)
    at_limit h none e = absurd (omega (arith, h, map.peek_none m.lru e))
    at_limit h (some p) e = IsGiven-full p h e

    pub load-IsGiven : IsGiven m b (load api dev m b)
    load-IsGiven = elim (ℕ_discrete (api.len m.lru) block_cache_limit) [
      | yes h ↦ at_limit h (api.peek_lru m.lru) refl
      | no ne ↦ record {
        r = m.free;
        m' = inserted map disk loaded b m.free;
        ran =
            load_room (inserted map disk loaded b m.free) ne
              (insert_run map disk loaded b m.free absent);
        held = inserted-IsHeld map disk loaded b m.free block loaded-IsCoherent loaded-IsFresh;
        same = λ k. view-inserted map disk loaded b m.free block k loaded-IsFresh ∙ view-loaded k;
        blocks = refl;
      }
    ]
