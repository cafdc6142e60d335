-- ===== src/Fs/Shape.antt =====
-- What a mounted file system looks like: its layout is a volume's with blocks of 512 bytes, its table
-- lies where the layout says, and FSInfo lies before the table.
use fat32_rs.Base.{ℕ, ◌*◌, ◌≤◌, ◌<◌, ◌≡◌, arith}
use fat32_rs.Bpb.{BiosParameterBlock}
use fat32_rs.Bpb.Geometry.{IsVolume, data_start, mul_le}
use fat32_rs.Fat.Entries.{IsAligned, entry_block}

pub record IsMounted (bpb : BiosParameterBlock) (off : ℕ) : Type 0 where
  pub volume : IsVolume bpb
  pub block : bpb.basic_bpb.byts_per_sec ≡ 512
  pub table : off ≡ bpb.basic_bpb.rsvd_sec_cnt * 512
  pub has_fat : 1 ≤ bpb.basic_bpb.num_fats
  pub info : bpb.bpb32.fs_info < bpb.basic_bpb.rsvd_sec_cnt
  pub info_not_boot : 1 ≤ bpb.bpb32.fs_info

-- The number of entries of one table.
abbrev pub capacity : BiosParameterBlock → ℕ
capacity bpb = bpb.bpb32.fat_sz32 * 128

module _ {bpb : BiosParameterBlock} {off : ℕ} (m : IsMounted bpb off) where
  pub mounted-IsAligned : IsAligned off
  mounted-IsAligned = omega (arith, m.table)

  -- The table begins behind FSInfo, and the entries of one table end before the data.
  pub entry_block_bounds :
      (n : ℕ)
      → n < capacity bpb
      → (bpb.basic_bpb.rsvd_sec_cnt ≤ entry_block off n) × (entry_block off n < data_start bpb)
  entry_block_bounds n h =
      let one : 1 * bpb.bpb32.fat_sz32 ≤ bpb.basic_bpb.num_fats * bpb.bpb32.fat_sz32 =
        mul_le 1 bpb.bpb32.fat_sz32 bpb.basic_bpb.num_fats bpb.bpb32.fat_sz32 m.has_fat
          (omega arith) in
      (omega (arith, m.table), omega (arith, one, m.table))
