-- ===== src/Vfs/Io/Read.antt =====
-- src/vfs.rs: `read_at` gives the bytes that the clusters of a file hold.
use fat32_rs.Base.{
  ℕ, zero, suc, ◌+◌, ◌-◌, ◌*◌, ◌/◌, ◌%◌, ◌≤◌, ◌<◌, ◌≡◌, arith, refl, ap, ◌∙◌, sym, leb, min,
  if◌then◌else◌, lt→ltb, le→ltb, le→leb, lt→leb, Bool, true, false, List, done,
}
use native.Mathlib.Decide.{dec_lt}
use fat32_rs.Bytes.{Bytes, slice}
use fat32_rs.Disk.{Disk, read-block}
use fat32_rs.Vfs.Io.{read_block, read_blocks}
use fat32_rs.Vfs.Io.Copy.{slice-append}

module _ (f : Bytes) (disk : Disk) (place end : ℕ) where
  -- The bytes from `place` up to an index.
  abbrev pub upto : ℕ → List ℕ
  upto index = slice f place (index - place)

  -- A block of the file.
  abbrev IsBlock : ℕ → ℕ → Type 0
  IsBlock left block = (j : ℕ) → j < 512 → f (left + j) ≡ disk block j

  read_block_inside :
      (block left index : ℕ)
      → IsBlock left block
      → place ≤ index
      → left ≤ index
      → index < left + 512
      → index < end
      → read_block end disk block left index (upto index)
        ≡ done (leb end (min (left + 512) end), min (left + 512) end, upto (min (left + 512) end))
  unfolding read_block
  read_block_inside block left index same p l h k =
      let stop : index + min (512 - (index - left)) (end - index) ≡ min (left + 512) end =
        omega arith in
      let len : index - place + min (512 - (index - left)) (end - index)
          ≡ min (left + 512) end - place =
        omega arith in
      rw
        (
          le→leb left index l,
          lt→ltb index (left + 512) h,
          lt→ltb index end k,
          read-block disk block,
          stop,
          slice-append f (disk block) place (index - place) (index - left)
              (min (512 - (index - left)) (end - index))
              (λ i lt. sym (same (index - left + i) (omega arith)) ∙ ap f (omega arith)),
          len,
        )
        refl

  read_block_outside :
      (block left index : ℕ) (out : List ℕ)
      → left + 512 ≤ index
      → read_block end disk block left index out ≡ done (false, index, out)
  unfolding read_block
  read_block_outside block left index out h =
      rw (le→leb left index (omega arith), le→ltb index (left + 512) h) refl

  -- `n` blocks of the file, one behind another.
  abbrev pub IsBlocks : ℕ → ℕ → ℕ → Type 0
  IsBlocks left block n = (j : ℕ) → j < n * 512 → f (left + j) ≡ disk (block + j / 512) (j % 512)

  head-IsBlock : (left block n : ℕ) → IsBlocks left block (suc n) → IsBlock left block
  head-IsBlock left block n h j l =
      h j (omega arith) ∙ ap (λ b. disk b (j % 512)) (omega arith) ∙ ap (disk block) (omega arith)

  tail-IsBlocks :
      (left block n : ℕ) → IsBlocks left block (suc n) → IsBlocks (left + 512) (block + 1) n
  tail-IsBlocks left block n h j l =
      ap f (omega arith)
      ∙ h (512 + j) (omega arith)
      ∙ ap (λ b. disk b ((512 + j) % 512)) (omega arith)
      ∙ ap (disk (block + 1 + j / 512)) (omega arith)

  -- The blocks from `left` on are read up to their end, or to `end` if it comes first.
  pub record ReadUpto (n block left index : ℕ) : Type 0 where
    pub left' : ℕ
    pub ran :
        read_blocks end disk n block left index (upto index)
        ≡ done (left', min (left + n * 512) end, upto (min (left + n * 512) end))
    pub at_end : left + n * 512 < end → left' ≡ left + n * 512

  read_blocks_step :
      (n block left index : ℕ) (out : List ℕ) (stop : Bool) (index' : ℕ) (out' : List ℕ)
      → read_block end disk block left index out ≡ done (stop, index', out')
      → read_blocks end disk (suc n) block left index out ≡ (
          if stop
          then done (left, index', out')
          else read_blocks end disk n (block + 1) (left + 512) index' out')
  unfolding read_blocks
  read_blocks_step n block left index out stop index' out' ran = rw ran

  inside_more :
      (block left index : ℕ)
      → IsBlock left block
      → place ≤ index
      → left ≤ index
      → index < left + 512
      → left + 512 < end
      → read_block end disk block left index (upto index)
        ≡ done (false, left + 512, upto (left + 512))
  inside_more block left index same p l h k =
      let e : min (left + 512) end ≡ left + 512 = omega arith in
      read_block_inside block left index same p l h (omega arith)
      ∙ rw (e, lt→leb end (left + 512) k) refl

  inside_last :
      (block left index : ℕ)
      → IsBlock left block
      → place ≤ index
      → left ≤ index
      → index < left + 512
      → index < end
      → end ≤ left + 512
      → read_block end disk block left index (upto index) ≡ done (true, end, upto end)
  inside_last block left index same p l h k q =
      let e : min (left + 512) end ≡ end = omega arith in
      read_block_inside block left index same p l h k ∙ rw (e, le→leb end end (omega arith)) refl

  -- One block more, of which the source has gone on to the next.
  ReadUpto-suc :
      (n block left index index' : ℕ)
      → read_block end disk block left index (upto index) ≡ done (false, index', upto index')
      → ReadUpto n (block + 1) (left + 512) index'
      → ReadUpto (suc n) block left index
  ReadUpto-suc n block left index index' ran r =
      let e : left + 512 + n * 512 ≡ left + suc n * 512 = omega arith in
      record {
        left' = r.left';
        ran =
            read_blocks_step n block left index (upto index) false index' (upto index') ran
            ∙ r.ran
            ∙ ap (λ z. done (r.left', min z end, upto (min z end))) e;
        at_end = λ q. r.at_end (omega arith) ∙ e;
      }

  pub read_blocks_lem :
      (n block left index : ℕ)
      → IsBlocks left block n
      → place ≤ index
      → left ≤ index
      → index ≤ left + n * 512
      → index < end
      → ReadUpto n block left index
  unfolding read_blocks
  read_blocks_lem zero block left index same p l h k = record {
    left' = left;
    ran = let e : min (left + zero * 512) end ≡ index = omega arith in rw e refl;
    at_end = λ _. omega arith;
  }
  read_blocks_lem (suc n) block left index same p l h k = elim (dec_lt index (left + 512)) [
    | yes near ↦ elim (dec_lt (left + 512) end) [
      | yes more ↦
          ReadUpto-suc n block left index (left + 512)
            (inside_more block left index (head-IsBlock left block n same) p l near more)
            (read_blocks_lem n (block + 1) (left + 512) (left + 512)
              (tail-IsBlocks left block n same) (omega arith) (omega arith) (omega arith) more)
      | no last ↦
          let e : end ≡ min (left + suc n * 512) end = omega arith in
          record {
            left' = left;
            ran =
                read_blocks_step n block left index (upto index) true end (upto end) (
                  inside_last block left index (head-IsBlock left block n same) p l near k
                    (omega arith))
                ∙ ap (λ z. done (left, z, upto z)) e;
            at_end = λ q. absurd (omega arith);
          }
    ]
    | no far ↦
        ReadUpto-suc n block left index index
          (read_block_outside block left index (upto index) (omega arith))
          (read_blocks_lem n (block + 1) (left + 512) index (tail-IsBlocks left block n same) p
            (omega arith) (omega arith) k)
  ]
