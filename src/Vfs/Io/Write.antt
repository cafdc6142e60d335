-- ===== src/Vfs/Io/Write.antt =====
-- src/vfs.rs: `write_at` puts the bytes of the buffer into a block.
use fat32_rs.Base.{
  ℕ, ◌+◌, ◌-◌, ◌≤◌, ◌<◌, ◌≡◌, inl, inr, arith, refl, ap, ◌∙◌, sym, leb, min, lt→ltb, le→leb, List,
  length, drop, take, length-drop, length-take_of_le, get_or-drop, get_or-take, done,
}
use native.Mathlib.Decide.{dec_lt}
use fat32_rs.Bytes.{Bytes, patch, patch_inside, patch_outside}
use fat32_rs.Disk.{Disk, store, modify-done, store_self}
use fat32_rs.Vfs.Io.{write_block}

module _ (f : Bytes) (buf : List ℕ) (place : ℕ) where
  abbrev end : ℕ
  end = place + length buf

  -- The file afterwards.
  abbrev g : Bytes
  g = patch f place buf

  -- The part of the buffer that goes into the block at `left`.
  abbrev pub part : ℕ → ℕ → List ℕ
  part left index = take (min (512 - (index - left)) (end - index)) (drop (index - place) buf)

  length-part :
      (left index : ℕ)
      → place ≤ index
      → length (part left index) ≡ min (512 - (index - left)) (end - index)
  length-part left index p =
      length-take_of_le (min (512 - (index - left)) (end - index)) (drop (index - place) buf)
        (omega (arith, length-drop (index - place) buf))

  -- The block with the part written.
  abbrev pub written : Disk → ℕ → ℕ → ℕ → Disk
  written d block left index = store d block (patch (d block) (index - left) (part left index))

  pub write_block_inside :
      (d : Disk) (block left index : ℕ)
      → place ≤ index
      → left ≤ index
      → index < left + 512
      → index < end
      → write_block end buf d block left index (index - place)
        ≡ done (
          leb end (min (left + 512) end),
          min (left + 512) end,
          min (left + 512) end - place,
          written d block left index,
        )
  unfolding write_block
  write_block_inside d block left index p l h k =
      let stop : index + min (512 - (index - left)) (end - index) ≡ min (left + 512) end =
        omega arith in
      let len : index - place + min (512 - (index - left)) (end - index)
          ≡ min (left + 512) end - place =
        omega arith in
      rw
        (
          le→leb left index l,
          lt→ltb index (left + 512) h,
          lt→ltb index end k,
          modify-done d block (index - left) (part left index)
              (omega (arith, length-part left index p)),
          stop,
          len,
        )
        refl

  patched :
      (b : Bytes) (left index j : ℕ)
      → index ≡ place + (left - place)
      → index - left ≤ j
      → j < index - left + length (part left index)
      → patch b (index - left) (part left index) j ≡ g (left + j)
  patched b left index j e from inside =
      let i = j - (index - left) in
      let len = length-part left index (omega arith) in
      let here : index - left + i ≡ j = omega arith in
      let there : place + (index - place + i) ≡ left + j = omega (arith, len) in
      ap (patch b (index - left) (part left index)) (sym here)
      ∙ patch_inside b (index - left) (part left index) i (omega arith)
      ∙ get_or-take (min (512 - (index - left)) (end - index)) (drop (index - place) buf) i 0
          (omega (arith, len))
      ∙ get_or-drop (index - place) buf i 0
      ∙ sym (patch_inside f place buf (index - place + i) (omega (arith, len)))
      ∙ ap g there

  -- The block holds what the file has there afterwards.
  pub written_block :
      (d : Disk) (block left index j : ℕ)
      → left ≤ index
      → index ≡ place + (left - place)
      → index < left + 512
      → index < end
      → j < 512
      → d block j ≡ f (left + j)
      → written d block left index block j ≡ g (left + j)
  written_block d block left index j l e h k lt same =
      let now =
        ap (λ b. b j) (store_self d block (patch (d block) (index - left) (part left index))) in
      let len = length-part left index (omega arith) in
      elim (dec_lt j (index - left)) [
        | yes before ↦
            now
            ∙ patch_outside (d block) (index - left) (part left index) j (inl before)
            ∙ same
            ∙ sym (patch_outside f place buf (left + j) (inl (omega arith)))
        | no from ↦ elim (dec_lt j (index - left + length (part left index))) [
          | yes inside ↦ now ∙ patched (d block) left index j (omega arith) (omega arith) inside
          | no behind ↦
              now
              ∙ patch_outside (d block) (index - left) (part left index) j (inr (omega arith))
              ∙ same
              ∙ sym (patch_outside f place buf (left + j) (inr (omega (arith, len))))
        ]
      ]
