-- ===== src/Cache/Handle.antt =====
-- src/cache.rs: `get_block_cache` gives a handle of the block, listed before or not.
use fat32_rs.Base.{ℕ, ◌<◌, ◌≡◌, arith, ap, ◌∙◌, refl, sym, Option, none, some, done}
use native.Mathlib.Decide.{ℕ_discrete}
use fat32_rs.Cache.{
  BlockDevice, LruCache, Manager, set_cell, one_more, clone, take_handle, get_block_cache,
}
use fat32_rs.Cache.Laws.{IsMap, IsDisk}
use fat32_rs.Cache.View.{
  set_self, set_ne, IsCoherent, content_of, view, apart, relisted, same_content,
}
use fat32_rs.Cache.Load.{IsGiven, load-IsGiven}

module _ {C S : Type 0} {api : LruCache C} {dev : BlockDevice S} (map : IsMap api)
    (disk : IsDisk dev) where
  module _ (m : Manager api dev) (co : IsCoherent map disk m) (b : ℕ)
      (inside : b < disk.blocks m.device) where
    -- After the lookup, which moves the block to the front.
    abbrev looked : Manager api dev
    looked = record m { lru = (api.get m.lru b).1 }

    looked-IsCoherent : IsCoherent map disk looked
    looked-IsCoherent k q l =
        let o = co k q (sym (map.get_same m.lru b k) ∙ l) in
        relisted map disk m looked k q 1 (m.heap q) refl o.block o.counted o.below

    view-looked : (k : ℕ) → view map disk looked k ≡ view map disk m k
    view-looked k =
        rw (map.get_same m.lru b k)
          (same_content map disk m looked k (map.value m.lru k) refl (λ q l. refl))

    abbrev cloned : ℕ → Manager api dev
    cloned r = record looked { heap = set_cell m.heap r (one_more (m.heap r)) }

    -- A second handle does not change what a cell holds.
    cloned_cell : (r q : ℕ) → ((cloned r).heap q).block ≡ (m.heap q).block
    cloned_cell r q = elim (ℕ_discrete q r) [
      | yes e ↦
          ap (λ z. ((cloned r).heap z).block) e
          ∙ ap (λ x. x.block) (set_self m.heap r (one_more (m.heap r)))
          ∙ ap (λ z. (m.heap z).block) (sym e)
      | no ne ↦ ap (λ x. x.block) (set_ne m.heap r q (one_more (m.heap r)) ne)
    ]

    hit_content :
        (r k : ℕ) (option : Option ℕ)
        → content_of map disk (cloned r) k option ≡ content_of map disk looked k option
    hit_content r k none = refl
    hit_content r k (some q) = ap (λ x. x.cache) (cloned_cell r q)

    view-hit : (r k : ℕ) → view map disk (cloned r) k ≡ view map disk looked k
    view-hit r k = hit_content r k (map.value looked.lru k)

    IsGiven-hit :
        (r : ℕ) → map.value looked.lru b ≡ some r → IsGiven map disk m b (done (r, cloned r))
    IsGiven-hit r l =
        let o = looked-IsCoherent b r l in
        record {
          r = r;
          m' = cloned r;
          ran = refl;
          held = record {
            listed = l;
            held =
                relisted map disk looked (cloned r) b r 2 (one_more (m.heap r))
                  (set_self m.heap r (one_more (m.heap r))) o.block (omega (arith, o.counted))
                  o.below;
            others = λ k q ne l'.
                let o' = looked-IsCoherent k q l' in
                relisted map disk looked (cloned r) k q 1 (m.heap q)
                  (set_ne m.heap r q (one_more (m.heap r))
                    (apart map disk looked k b q r 1 1 o' o ne))
                  o'.block o'.counted o'.below;
          };
          same = λ k. view-hit r k ∙ view-looked k;
          blocks = refl;
        }

    IsGiven-from :
        (option : Option ℕ)
        → map.value looked.lru b ≡ option
        → IsGiven map disk m b (take_handle api dev looked b option)
    unfolding take_handle clone
    IsGiven-from (some r) l = IsGiven-hit r l
    IsGiven-from none l =
        let g = load-IsGiven map disk looked looked-IsCoherent b inside l in
        record {
          r = g.r;
          m' = g.m';
          ran = g.ran;
          held = g.held;
          same = λ k. g.same k ∙ view-looked k;
          blocks = g.blocks;
        }

    -- `get_block_cache` gives a handle of the block, and no block is seen otherwise than before.
    pub get_block_cache-IsGiven : IsGiven map disk m b (get_block_cache api dev m b)
    unfolding get_block_cache
    get_block_cache-IsGiven =
        IsGiven-from (api.get m.lru b).0 (map.get_same m.lru b b ∙ sym (map.get m.lru b))
