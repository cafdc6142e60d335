-- ===== src/Vfs/Io/WriteBlocks.antt =====
-- src/vfs.rs: `write_at` on the blocks of a cluster.
use fat32_rs.Base.{
  ℕ, zero, suc, ◌+◌, ◌-◌, ◌*◌, ◌/◌, ◌%◌, ◌≤◌, ◌<◌, ◌≡◌, ◌≢◌, ◌⊎◌, inl, inr, arith, refl, ap, ◌∙◌,
  sym, leb, min, if◌then◌else◌, le→ltb, le→leb, lt→leb, Bool, true, false, List, length, done,
}
use mathlib.Core.Path.{ap₂}
use native.Mathlib.Decide.{dec_lt}
use fat32_rs.Bytes.{Bytes, patch, patch_outside}
use fat32_rs.Disk.{Disk, store_ne}
use fat32_rs.Vfs.Io.{write_block, write_blocks}
use fat32_rs.Vfs.Io.Write.{part, written, write_block_inside, written_block}

module _ (f : Bytes) (buf : List ℕ) (place : ℕ) where
  abbrev end : ℕ
  end = place + length buf

  abbrev g : Bytes
  g = patch f place buf

  -- The next byte to write, when the blocks before `left` are done.
  abbrev pub at : ℕ → ℕ
  at left = place + (left - place)

  -- The blocks from `left` on are written up to their end, or to `end` if it comes first.
  pub record Wrote (n block left : ℕ) (d : Disk) : Type 0 where
    pub left' : ℕ
    pub d' : Disk
    pub ran :
        write_blocks end buf d n block left (at left) (left - place)
        ≡ done (left', min (at (left + n * 512)) end, min (at (left + n * 512)) end - place, d')
    pub at_end : at (left + n * 512) < end → left' ≡ left + n * 512
    pub held : (j : ℕ) → j < n * 512 → g (left + j) ≡ d' (block + j / 512) (j % 512)
    pub same : (b : ℕ) → (b < block) ⊎ (block + n ≤ b) → d' b ≡ d b

  write_blocks_step :
      (d d1 : Disk) (n block left index already index' already' : ℕ) (stop : Bool)
      → write_block end buf d block left index already ≡ done (stop, index', already', d1)
      → write_blocks end buf d (suc n) block left index already ≡ (
          if stop
          then done (left, index', already', d1)
          else write_blocks end buf d1 n (block + 1) (left + 512) index' already')
  unfolding write_blocks
  write_blocks_step d d1 n block left index already index' already' stop ran = rw ran

  -- Block by block what is held of one block and of those behind it.
  held_suc :
      (h : Bytes) (d : Disk) (n block left : ℕ)
      → ((j : ℕ) → j < 512 → h (left + j) ≡ d block j)
      → ((j : ℕ) → j < n * 512 → h (left + 512 + j) ≡ d (block + 1 + j / 512) (j % 512))
      → (j : ℕ) → j < suc n * 512
      → h (left + j) ≡ d (block + j / 512) (j % 512)
  held_suc h d n block left first rest j l = elim (dec_lt j 512) [
    | yes near ↦ first j near ∙ ap₂ d (omega arith) (omega arith)
    | no far ↦ ap h (omega arith) ∙ rest (j - 512) (omega arith) ∙ ap₂ d (omega arith) (omega arith)
  ]

  Wrote-suc :
      (d d1 : Disk) (n block left : ℕ)
      → write_block end buf d block left (at left) (left - place)
        ≡ done (false, at (left + 512), left + 512 - place, d1)
      → ((j : ℕ) → j < 512 → g (left + j) ≡ d1 block j)
      → ((b : ℕ) → b ≢ block → d1 b ≡ d b)
      → Wrote n (block + 1) (left + 512) d1
      → Wrote (suc n) block left d
  Wrote-suc d d1 n block left ran first same r =
      let e : left + 512 + n * 512 ≡ left + suc n * 512 = omega arith in
      record {
        left' = r.left';
        d' = r.d';
        ran =
            write_blocks_step d d1 n block left (at left) (left - place) (at (left + 512))
              (left + 512 - place) false ran
            ∙ r.ran
            ∙ ap (λ z. done (r.left', min (at z) end, min (at z) end - place, r.d')) e;
        at_end = λ q. r.at_end (omega arith) ∙ e;
        held =
            held_suc g r.d' n block left
              (λ j l. first j l ∙ ap (λ b. b j) (sym (r.same block (inl (omega arith))))) r.held;
        same = λ b out. r.same b (omega arith) ∙ same b (omega arith);
      }

  write_block_outside :
      (d : Disk) (block left index already : ℕ)
      → left + 512 ≤ index
      → write_block end buf d block left index already ≡ done (false, index, already, d)
  unfolding write_block
  write_block_outside d block left index already h =
      rw (le→leb left index (omega arith), le→ltb index (left + 512) h) refl

  written_ne :
      (d : Disk) (block left index b : ℕ)
      → b ≢ block
      → written f buf place d block left index b ≡ d b
  written_ne d block left index b ne =
      store_ne d block (patch (d block) (index - left) (part f buf place left index)) b ne

  -- The whole rest of a block is written, and more follows.
  more :
      (d : Disk) (block left : ℕ)
      → at left < left + 512
      → left + 512 < end
      → write_block end buf d block left (at left) (left - place)
        ≡ done
            (false, at (left + 512), left + 512 - place, written f buf place d block left (at left))
  more d block left near b =
      let e : min (left + 512) end ≡ left + 512 = omega arith in
      let e' : left + 512 ≡ at (left + 512) = omega arith in
      ap (write_block end buf d block left (at left)) (omega arith)
      ∙ write_block_inside f buf place d block left (at left) (omega arith) (omega arith) near
          (omega arith)
      ∙ ap (λ z. done (leb end z, z, z - place, written f buf place d block left (at left))) e
      ∙ rw (lt→leb end (left + 512) b) refl
      ∙ ap (λ z. done (false, z, left + 512 - place, written f buf place d block left (at left))) e'

  -- The end of the write is in the block.
  last :
      (d : Disk) (block left : ℕ)
      → at left < left + 512
      → at left < end
      → end ≤ left + 512
      → write_block end buf d block left (at left) (left - place)
        ≡ done (true, end, end - place, written f buf place d block left (at left))
  last d block left near k b =
      let e : min (left + 512) end ≡ end = omega arith in
      ap (write_block end buf d block left (at left)) (omega arith)
      ∙ write_block_inside f buf place d block left (at left) (omega arith) (omega arith) near k
      ∙ ap (λ z. done (leb end z, z, z - place, written f buf place d block left (at left))) e
      ∙ rw (le→leb end end (omega arith)) refl

  block_of :
      (n block left : ℕ) (d : Disk)
      → ((j : ℕ) → j < suc n * 512 → f (left + j) ≡ d (block + j / 512) (j % 512))
      → (j : ℕ) → j < 512
      → f (left + j) ≡ d block j
  block_of n block left d same j l = same j (omega arith) ∙ ap₂ d (omega arith) (omega arith)

  blocks_after :
      (n block left : ℕ) (d : Disk)
      → ((j : ℕ) → j < suc n * 512 → f (left + j) ≡ d (block + j / 512) (j % 512))
      → (j : ℕ) → j < n * 512
      → f (left + 512 + j) ≡ d (block + 1 + j / 512) (j % 512)
  blocks_after n block left d same j l =
      ap f (omega arith) ∙ same (512 + j) (omega arith) ∙ ap₂ d (omega arith) (omega arith)

  Wrote-last :
      (n block left : ℕ) (d : Disk)
      → ((j : ℕ) → j < suc n * 512 → f (left + j) ≡ d (block + j / 512) (j % 512))
      → at left < left + 512
      → at left < end
      → end ≤ left + 512
      → Wrote (suc n) block left d
  Wrote-last n block left d same near k b =
      let e : end ≡ min (at (left + suc n * 512)) end = omega arith in
      record {
        left' = left;
        d' = written f buf place d block left (at left);
        ran =
            write_blocks_step d (written f buf place d block left (at left)) n block left (at left)
              (left - place) end (end - place) true (last d block left near k b)
            ∙ ap (λ z. done (left, z, z - place, written f buf place d block left (at left))) e;
        at_end = λ q. absurd (omega arith);
        held =
            held_suc g (written f buf place d block left (at left)) n block left
              (λ j l. sym (
                written_block f buf place d block left (at left) j (omega arith) refl near k l
                  (sym (block_of n block left d same j l))))
              (λ j l.
                patch_outside f place buf (left + 512 + j) (inr (omega arith))
                ∙ blocks_after n block left d same j l
                ∙ ap (λ b. b (j % 512))
                    (sym (written_ne d block left (at left) (block + 1 + j / 512) (omega arith))));
        same = λ x out. written_ne d block left (at left) x (omega arith);
      }

  pub write_blocks_lem :
      (n block left : ℕ) (d : Disk)
      → ((j : ℕ) → j < n * 512 → f (left + j) ≡ d (block + j / 512) (j % 512))
      → at left ≤ left + n * 512
      → at left < end
      → Wrote n block left d
  unfolding write_blocks
  write_blocks_lem zero block left d same p k = record {
    left' = left;
    d' = d;
    ran =
        let e : min (at (left + zero * 512)) end ≡ at left = omega arith in
        let e' : at left - place ≡ left - place = omega arith in rw (e, e') refl;
    at_end = λ q. omega arith;
    held = λ j l. absurd (omega arith);
    same = λ b out. refl;
  }
  write_blocks_lem (suc n) block left d same p k =
      let head = block_of n block left d same in
      let d1 = written f buf place d block left (at left) in
      elim (dec_lt (at left) (left + 512)) [
        | yes near ↦ elim (dec_lt (left + 512) end) [
          | yes b ↦
              Wrote-suc d d1 n block left (more d block left near b)
                (λ j l. sym (
                  written_block f buf place d block left (at left) j (omega arith) refl near k l
                    (sym (head j l))))
                (written_ne d block left (at left))
                (write_blocks_lem n (block + 1) (left + 512) d1
                  (λ j l.
                    blocks_after n block left d same j l
                    ∙ ap (λ b. b (j % 512))
                        (sym
                          (written_ne d block left (at left) (block + 1 + j / 512) (omega arith))))
                  (omega arith) (omega arith))
          | no b ↦ Wrote-last n block left d same near k (omega arith)
        ]
        | no far ↦
            Wrote-suc d d n block left
              (write_block_outside d block left (at left) (left - place) (omega arith)
                ∙ ap₂ (λ x y. done (false, x, y, d)) (omega arith) (omega arith))
              (λ j l. patch_outside f place buf (left + j) (inl (omega arith)) ∙ head j l)
              (λ b ne. refl)
              (write_blocks_lem n (block + 1) (left + 512) d (blocks_after n block left d same)
                (omega arith) (omega arith))
      ]
