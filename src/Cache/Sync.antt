-- ===== src/Cache/Sync.antt =====
-- src/cache.rs: `sync_all` leaves the device as the disk that is seen.
use fat32_rs.Base.{
  ℕ, zero, suc, ◌≢◌, ◌≡◌, ap, ◌∙◌, refl, sym, Option, none, some, List, [], ◌∷◌, get_elem?, Outcome,
  done,
}
use mathlib.Core.Path.{subst}
use native.Mathlib.Decide.{ℕ_discrete}
use fat32_rs.Cache.{BlockDevice, LruCache, BlockCache, Manager, set_cell, sync, sync_list, sync_all}
use fat32_rs.Cache.Laws.{IsMap, IsWhole, IsDisk}
use fat32_rs.Cache.View.{
  set_self, set_ne, IsListed, IsCoherent, view, apart, relisted, same_content, some-inj,
}
use fat32_rs.Cache.Evict.{IsSynced, sync-IsSynced}

pair-inj : {p q : ℕ × ℕ} → some p ≡ some q → p ≡ q
pair-inj e = cc

none-some : {p : ℕ × ℕ} → none ≢ some p
none-some e = cc

module _ {C S : Type 0} {api : LruCache C} {dev : BlockDevice S} (map : IsMap api)
    (disk : IsDisk dev) where
  -- The device has the bytes of the block that are seen.
  abbrev pub IsFlushed : Manager api dev → ℕ → Type 0
  IsFlushed m k = disk.contents m.device k ≡ view map disk m k

  -- What the loop over the blocks `ps` leaves.
  record IsDrained (m : Manager api dev) (ps : List (ℕ × ℕ)) (run : Outcome (Manager api dev))
      : Type 0 where
    pub m' : Manager api dev
    pub ran : run ≡ done m'
    pub coherent : IsCoherent map disk m'
    pub same : (k : ℕ) → view map disk m' k ≡ view map disk m k
    pub blocks : disk.blocks m'.device ≡ disk.blocks m.device
    pub kept : (k : ℕ) → IsFlushed m k → IsFlushed m' k
    pub flushed : (i : ℕ) (p : ℕ × ℕ) → get_elem? ps i ≡ some p → IsFlushed m' p.0

  module _ (m : Manager api dev) (co : IsCoherent map disk m) (p : ℕ × ℕ)
      (listed : map.value m.lru p.0 ≡ some p.1) (block' : BlockCache) (device' : S)
      (s : IsSynced map disk p.0 (m.heap p.1).block block' m.device device') where
    abbrev drained : Manager api dev
    drained = record m {
      heap = set_cell m.heap p.1 (record (m.heap p.1) { block = block' });
      device = device';
    }

    drained_cell : drained.heap p.1 ≡ record (m.heap p.1) { block = block' }
    drained_cell = set_self m.heap p.1 (record (m.heap p.1) { block = block' })

    same_cell : (k q : ℕ) → k ≢ p.0 → map.value m.lru k ≡ some q → drained.heap q ≡ m.heap q
    same_cell k q ne l =
        set_ne m.heap p.1 q (record (m.heap p.1) { block = block' })
          (apart map disk m k p.0 q p.1 1 1 (co k q l) (co p.0 p.1 listed) ne)

    drained_first : IsListed map disk drained p.0 p.1 1
    drained_first =
        let o = co p.0 p.1 listed in
        relisted map disk m drained p.0 p.1 1 (record (m.heap p.1) { block = block' }) drained_cell
          (record {
            number = s.number;
            inside = rw s.blocks o.block.inside;
            whole = subst IsWhole (sym s.cache) o.block.whole;
            clean = λ z. s.cache ∙ sym s.written;
          })
          o.counted o.below

    drained-IsCoherent : IsCoherent map disk drained
    drained-IsCoherent k q l = elim (ℕ_discrete k p.0) [
      | yes e ↦
          let f : p.1 ≡ q = some-inj map disk (sym listed ∙ ap (map.value m.lru) (sym e) ∙ l) in
          subst (λ z. IsListed map disk drained k z 1) f
            (subst (λ z. IsListed map disk drained z p.1 1) (sym e) drained_first)
      | no ne ↦
          let o = co k q l in
          relisted map disk m drained k q 1 (m.heap q) (same_cell k q ne l)
            (record {
              number = o.block.number;
              inside = rw s.blocks o.block.inside;
              whole = o.block.whole;
              clean = λ z. o.block.clean z ∙ sym (s.kept k ne);
            })
            o.counted o.below
    ]

    seen_first : view map disk drained p.0 ≡ (m.heap p.1).block.cache
    seen_first = rw listed (ap (λ x. x.block.cache) drained_cell ∙ s.cache)

    seen_before : view map disk m p.0 ≡ (m.heap p.1).block.cache
    seen_before = rw listed refl

    drained_others : (k : ℕ) → k ≢ p.0 → view map disk drained k ≡ view map disk m k
    drained_others k ne =
        same_content map disk m drained k (map.value m.lru k) (s.kept k ne)
          (λ q l. same_cell k q ne l)

    view-drained : (k : ℕ) → view map disk drained k ≡ view map disk m k
    view-drained k = elim (ℕ_discrete k p.0) [
      | yes e ↦
          ap (view map disk drained) e ∙ seen_first ∙ sym seen_before ∙ ap (view map disk m) (sym e)
      | no ne ↦ drained_others k ne
    ]

    IsFlushed-first : IsFlushed drained p.0
    IsFlushed-first = s.written ∙ sym seen_first

    IsFlushed-drained : (k : ℕ) → IsFlushed m k → IsFlushed drained k
    IsFlushed-drained k h = elim (ℕ_discrete k p.0) [
      | yes e ↦ subst (IsFlushed drained) (sym e) IsFlushed-first
      | no ne ↦ s.kept k ne ∙ h ∙ sym (drained_others k ne)
    ]

  sync_step :
      (m m' : Manager api dev) (p : ℕ × ℕ) (ps : List (ℕ × ℕ)) (block' : BlockCache) (device' : S)
      → sync dev (m.heap p.1).block m.device ≡ done (block', device')
      → sync_list api dev
          (record m {
            heap = set_cell m.heap p.1 (record (m.heap p.1) { block = block' });
            device = device';
          })
          ps
        ≡ done m'
      → sync_list api dev m (p ∷ ps) ≡ done m'
  unfolding sync_list
  sync_step m m' p ps block' device' ran ran' = rw (ran, ran')

  IsFlushed-at :
      (m : Manager api dev) (p : ℕ × ℕ) (ps : List (ℕ × ℕ)) (m' : Manager api dev)
      → ((i : ℕ) (q : ℕ × ℕ) → get_elem? ps i ≡ some q → IsFlushed m' q.0)
      → IsFlushed m' p.0
      → (i : ℕ) (q : ℕ × ℕ) → get_elem? (p ∷ ps) i ≡ some q
      → IsFlushed m' q.0
  IsFlushed-at m p ps m' h first zero q e = subst (λ z. IsFlushed m' z.0) (pair-inj e) first
  IsFlushed-at m p ps m' h first (suc i) q e = h i q e

  IsFlushed-all :
      (m : Manager api dev) (k : ℕ)
      (d : IsDrained m (api.iter m.lru) (sync_list api dev m (api.iter m.lru))) (option : Option ℕ)
      → map.value m.lru k ≡ option
      → IsFlushed d.m' k
  IsFlushed-all m k d none e = d.kept k (rw e refl)
  IsFlushed-all m k d (some v) e = let (i, at) = map.iter_all m.lru k v e in d.flushed i (k, v) at

  sync_list-IsDrained :
      (ps : List (ℕ × ℕ)) (m : Manager api dev)
      → IsCoherent map disk m
      → ((i : ℕ) (p : ℕ × ℕ) → get_elem? ps i ≡ some p → map.value m.lru p.0 ≡ some p.1)
      → IsDrained m ps (sync_list api dev m ps)
  unfolding sync_list
  sync_list-IsDrained [] m co all = record {
    m' = m;
    ran = refl;
    coherent = co;
    same = λ k. refl;
    blocks = refl;
    kept = λ k h. h;
    flushed = λ i p e. absurd (none-some e);
  }
  sync_list-IsDrained (p ∷ ps) m co all =
      let listed = all 0 p refl in
      let (block', device', s) =
        sync-IsSynced map disk p.0 (m.heap p.1).block m.device (co p.0 p.1 listed).block in
      let rest =
        sync_list-IsDrained ps (drained m co p listed block' device' s)
          (drained-IsCoherent m co p listed block' device' s) (λ i q e. all (suc i) q e) in
      record {
        m' = rest.m';
        ran = sync_step m rest.m' p ps block' device' s.ran rest.ran;
        coherent = rest.coherent;
        same = λ k. rest.same k ∙ view-drained m co p listed block' device' s k;
        blocks = rest.blocks ∙ s.blocks;
        kept = λ k h. rest.kept k (IsFlushed-drained m co p listed block' device' s k h);
        flushed = λ i q e.
            IsFlushed-at m p ps rest.m' rest.flushed
              (rest.kept p.0 (IsFlushed-first m co p listed block' device' s)) i q e;
      }

  -- From a coherent state `sync_all` returns, in a coherent state that shows the same disk, with a device
  -- of the same size that has the bytes of every block as they are seen: no change is lost.
  pub sync_all_safe :
      (m : Manager api dev)
      → IsCoherent map disk m
      → (m' : Manager api dev) × (sync_all api dev m ≡ done m')
        × IsCoherent map disk m'
        × (disk.blocks m'.device ≡ disk.blocks m.device)
        × ((k : ℕ) → view map disk m' k ≡ view map disk m k)
        × ((k : ℕ) → disk.contents m'.device k ≡ view map disk m k)
  unfolding sync_all
  sync_all_safe m co =
      let d = sync_list-IsDrained (api.iter m.lru) m co (map.iter m.lru) in
      (
        d.m',
        d.ran,
        d.coherent,
        d.blocks,
        d.same,
        λ k. IsFlushed-all m k d (map.value m.lru k) refl ∙ d.same k,
      )
