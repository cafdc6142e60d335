-- ===== src/Cache/Access.antt =====
-- src/cache.rs: the manager with its caches is the disk of Disk.antt.
use fat32_rs.Base.{
  ℕ, ◌≢◌, ◌+◌, ◌≤◌, ◌<◌, ◌≡◌, ap, ◌∙◌, refl, sym, le→leb, true, false, inr, arith, List, length,
  done,
}
use mathlib.Core.Path.{subst}
use native.Mathlib.Decide.{ℕ_discrete}
use fat32_rs.Bytes.{Bytes, patch, patch_outside}
use fat32_rs.Disk.{
  Disk, block_size, read, modify, get_ref, put_mut, read-done, modify-done, store, store_self,
  store_ne,
}
use fat32_rs.Cache.{
  BlockDevice, LruCache, Shared, Manager, set_cell, release, get_block_cache, read_cached,
  modify_cached,
}
use fat32_rs.Cache.Laws.{IsMap, IsDisk}
use fat32_rs.Cache.View.{
  set_self, set_ne, IsBlock, IsCoherent, IsHeld, view, settled-IsCoherent, view-settled,
  settled_others,
}
use fat32_rs.Cache.Handle.{get_block_cache-IsGiven}

true-false : true ≢ false
true-false e = cc

module _ {C S : Type 0} {api : LruCache C} {dev : BlockDevice S} (map : IsMap api)
    (disk : IsDisk dev) where
  module _ (m : Manager api dev) (co : IsCoherent map disk m) (b : ℕ)
      (inside : b < disk.blocks m.device) where
    -- The handle is dropped, in a heap that differs in the cell of the block at most.
    module _ (m1 : Manager api dev) (r : ℕ) (h : IsHeld map disk m1 b r) (heap : ℕ → Shared)
        (kept : (q : ℕ) → q ≢ r → heap q ≡ m1.heap q) (counted : (heap r).strong_count ≡ 2) where
      abbrev back : Manager api dev
      back = record m1 {
        heap = set_cell heap r (record { block = (heap r).block; strong_count = 1 });
      }

      here : back.heap r ≡ record { block = (heap r).block; strong_count = 1 }
      here = set_self heap r (record { block = (heap r).block; strong_count = 1 })

      elsewhere : (q : ℕ) → q ≢ r → back.heap q ≡ m1.heap q
      elsewhere q ne =
          set_ne heap r q (record { block = (heap r).block; strong_count = 1 }) ne ∙ kept q ne

      back-IsCoherent : IsBlock map disk m1.device b (heap r).block → IsCoherent map disk back
      back-IsCoherent i =
          settled-IsCoherent map disk m1 b r back.heap (heap r).block h here elsewhere i

      view-back : view map disk back b ≡ (heap r).block.cache
      view-back = view-settled map disk m1 b r back.heap (heap r).block h here

      back_others : (k : ℕ) → k ≢ b → view map disk back k ≡ view map disk m1 k
      back_others k ne = settled_others map disk m1 b r back.heap k h elsewhere ne

      release_run : release api dev (record m1 { heap = heap }) r ≡ done back
      unfolding release
      release_run = rw counted refl

    view-held :
        (m1 : Manager api dev) (r : ℕ)
        → IsHeld map disk m1 b r
        → (m1.heap r).block.cache ≡ view map disk m1 b
    view-held m1 r h = rw h.listed refl

    read_run :
        (m1 m2 : Manager api dev) (r size place : ℕ)
        → place + size ≤ block_size
        → get_block_cache api dev m b ≡ done (r, m1)
        → release api dev m1 r ≡ done m2
        → read_cached api dev m b size place ≡ done (λ i. (m1.heap r).block.cache (place + i), m2)
    unfolding read_cached get_ref
    read_run m1 m2 r size place l ran ran' = rw (ran, le→leb (place + size) block_size l, ran')

    -- In a coherent state `read_cached` of a part of a block of the device gives what `read` of the disk gives that is
    -- seen; the state stays coherent, and the disk the same.
    pub read_cached-read :
        (size place : ℕ)
        → place + size ≤ block_size
        → (bytes : Bytes) × (m' : Manager api dev) × (read (view map disk m) b size place
            ≡ done bytes)
          × (read_cached api dev m b size place ≡ done (bytes, m'))
          × IsCoherent map disk m'
          × (disk.blocks m'.device ≡ disk.blocks m.device)
          × ((k : ℕ) → view map disk m' k ≡ view map disk m k)
    read_cached-read size place l =
        let g = get_block_cache-IsGiven map disk m co b inside in
        let h = g.held in
        let kept : (q : ℕ) → q ≢ g.r → g.m'.heap q ≡ g.m'.heap q = λ q ne. refl in
        let bytes = (g.m'.heap g.r).block.cache in
        let seen : bytes ≡ view map disk m b = view-held g.m' g.r h ∙ g.same b in
        let m2 = back g.m' g.r h g.m'.heap kept h.held.counted in
        (
          λ i. bytes (place + i),
          m2,
          read-done (view map disk m) b size place l
              ∙ ap (λ z. done (λ i. z (place + i))) (sym seen),
          read_run g.m' m2 g.r size place l g.ran
              (release_run g.m' g.r h g.m'.heap kept h.held.counted),
          back-IsCoherent g.m' g.r h g.m'.heap kept h.held.counted h.held.block,
          g.blocks,
          λ k. elim (ℕ_discrete k b) [
            | yes e ↦
                ap (view map disk m2) e
                ∙ view-back g.m' g.r h g.m'.heap kept h.held.counted
                ∙ seen
                ∙ ap (view map disk m) (sym e)
            | no ne ↦ back_others g.m' g.r h g.m'.heap kept h.held.counted k ne ∙ g.same k
          ],
        )

    abbrev stored : Manager api dev → ℕ → ℕ → List ℕ → Shared
    stored m1 r place bs = record (m1.heap r) {
      block = record (m1.heap r).block {
        cache = patch (m1.heap r).block.cache place bs;
        modified = true;
      };
    }

    modify_run :
        (m1 m2 : Manager api dev) (r place : ℕ) (bs : List ℕ)
        → place + length bs ≤ block_size
        → get_block_cache api dev m b ≡ done (r, m1)
        → release api dev (record m1 { heap = set_cell m1.heap r (stored m1 r place bs) }) r
          ≡ done m2
        → modify_cached api dev m b place bs ≡ done m2
    unfolding modify_cached put_mut
    modify_run m1 m2 r place bs l ran ran' = rw (ran, le→leb (place + length bs) block_size l) ran'

    -- In a coherent state `modify_cached` of a part of a block of the device returns; the state stays coherent, and the
    -- disk that is seen becomes that which `modify` gives of it.
    pub modify_cached-modify :
        (place : ℕ) (bs : List ℕ)
        → place + length bs ≤ block_size
        → (d' : Disk) × (m' : Manager api dev) × (modify (view map disk m) b place bs ≡ done d')
          × (modify_cached api dev m b place bs ≡ done m')
          × IsCoherent map disk m'
          × (disk.blocks m'.device ≡ disk.blocks m.device)
          × ((k : ℕ) → view map disk m' k ≡ d' k)
    modify_cached-modify place bs l =
        let g = get_block_cache-IsGiven map disk m co b inside in
        let h = g.held in
        let cell = stored g.m' g.r place bs in
        let heap = set_cell g.m'.heap g.r cell in
        let now : heap g.r ≡ cell = set_self g.m'.heap g.r cell in
        let kept : (q : ℕ) → q ≢ g.r → heap q ≡ g.m'.heap q =
          λ q ne. set_ne g.m'.heap g.r q cell ne in
        let counted : (heap g.r).strong_count ≡ 2 = ap (λ x. x.strong_count) now ∙ h.held.counted in
        let seen : (g.m'.heap g.r).block.cache ≡ view map disk m b =
          view-held g.m' g.r h ∙ g.same b in
        let d = view map disk m in
        let new = patch (d b) place bs in
        let m2 = back g.m' g.r h heap kept counted in
        (
          store d b new,
          m2,
          modify-done d b place bs l,
          modify_run g.m' m2 g.r place bs l g.ran (release_run g.m' g.r h heap kept counted),
          back-IsCoherent g.m' g.r h heap kept counted (
              subst (λ x. IsBlock map disk g.m'.device b x.block) (sym now)
                (record {
                  number = h.held.block.number;
                  inside = h.held.block.inside;
                  whole = λ i far.
                      patch_outside (g.m'.heap g.r).block.cache place bs i
                        (inr (omega (arith, far, l)))
                      ∙ h.held.block.whole i far;
                  clean = λ z. absurd (true-false z);
                })),
          g.blocks,
          λ k. elim (ℕ_discrete k b) [
            | yes e ↦
                ap (view map disk m2) e
                ∙ view-back g.m' g.r h heap kept counted
                ∙ ap (λ x. x.block.cache) now
                ∙ ap (λ z. patch z place bs) seen
                ∙ sym (store_self d b new)
                ∙ ap (store d b new) (sym e)
            | no ne ↦
                back_others g.m' g.r h heap kept counted k ne
                ∙ g.same k
                ∙ sym (store_ne d b new k ne)
          ],
        )
