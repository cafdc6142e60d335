-- ===== src/Bpb/Geometry.antt =====
-- Where the parts of a volume lie: the layout functions of src/bpb.rs.
use fat32_rs.Base.{ℕ, ◌+◌, ◌-◌, ◌*◌, ◌/◌, ◌%◌, ◌^◌, ◌≤◌, ◌<◌, ◌≡◌, arith, done, le→leb, ne→==, ap}
use native.Mathlib.Nat.{le_trans}
use fat32_rs.Bpb.{
  BiosParameterBlock, offset, root_dir_sector_cnt, first_data_sector, first_sector_of_cluster,
  data_sector_cnt, data_cluster_cnt, sub_usize,
}

-- The fields hold the widths of their types, the volume has the FAT32 shape that `is_valid` asks
-- for, and the regions before the data fit into the volume.
pub record IsVolume (b : BiosParameterBlock) : Type 0 where
  pub sector : b.basic_bpb.byts_per_sec < 2 ^ 16
  pub sector_pos : 0 < b.basic_bpb.byts_per_sec
  pub cluster : b.basic_bpb.sec_per_clus < 2 ^ 8
  pub cluster_pos : 0 < b.basic_bpb.sec_per_clus
  pub reserved : b.basic_bpb.rsvd_sec_cnt < 2 ^ 16
  pub fats : b.basic_bpb.num_fats < 2 ^ 8
  pub no_root : b.basic_bpb.root_ent_cnt ≡ 0
  pub total : b.basic_bpb.tot_sec32 < 2 ^ 32
  pub fat_size : b.bpb32.fat_sz32 < 2 ^ 32
  pub fits :
      b.basic_bpb.rsvd_sec_cnt + b.basic_bpb.num_fats * b.bpb32.fat_sz32 ≤ b.basic_bpb.tot_sec32

-- The sectors before the data region.
abbrev pub data_start : BiosParameterBlock → ℕ
data_start b = b.basic_bpb.rsvd_sec_cnt + b.basic_bpb.num_fats * b.bpb32.fat_sz32

-- The first sector of a data cluster.
abbrev pub cluster_start : BiosParameterBlock → ℕ → ℕ
cluster_start b c = data_start b + (c - 2) * b.basic_bpb.sec_per_clus

pred-div : (n : ℕ) → 0 < n → (n - 1) / n ≡ 0
pred-div n h = grind arith

pub mul_le : (x y m n : ℕ) → x ≤ m → y ≤ n → x * y ≤ m * n
mul_le x y m n p q = le_trans {m = m * y} (grind arith) (grind arith)

module _ {b : BiosParameterBlock} (v : IsVolume b) where
  open b.basic_bpb use {byts_per_sec, sec_per_clus, rsvd_sec_cnt, num_fats, tot_sec32}
  open b.bpb32 use {fat_sz32}

  data_start-lt : data_start b < 2 ^ 41
  data_start-lt = omega (
    arith,
    mul_le num_fats fat_sz32 (2 ^ 8) (2 ^ 32) (omega (arith, v.fats)) (omega (arith, v.fat_size)),
    v.reserved,
  )

  sectors-le : (c : ℕ) → c < 2 ^ 33 → (c - 2) * sec_per_clus ≤ 2 ^ 41
  sectors-le c k =
      mul_le (c - 2) sec_per_clus (2 ^ 33) (2 ^ 8) (omega arith) (omega (arith, v.cluster))

  root_dir_sector_cnt-zero : root_dir_sector_cnt b ≡ done 0
  unfolding root_dir_sector_cnt
  root_dir_sector_cnt-zero =
      let e : b.basic_bpb.root_ent_cnt * 32 % 2 ^ 16 + (byts_per_sec + 2 ^ 16 - 1) % 2 ^ 16
          ≡ byts_per_sec - 1 =
        omega (arith, v.no_root, v.sector, v.sector_pos) in
      rw (ne→== byts_per_sec 0 (omega (arith, v.sector_pos)), e, pred-div byts_per_sec v.sector_pos)

  pub first_data_sector-done : first_data_sector b ≡ done (data_start b)
  unfolding first_data_sector
  first_data_sector-done = rw root_dir_sector_cnt-zero (ap done (omega arith))

  pub first_sector_of_cluster-done :
      (c : ℕ) → 2 ≤ c → c < 2 ^ 33 → first_sector_of_cluster b c ≡ done (cluster_start b c)
  unfolding first_sector_of_cluster
  first_sector_of_cluster-done c h k =
      let e : sub_usize c 2 ≡ c - 2 = omega arith in
      rw (first_data_sector-done, e) (ap done (omega (arith, data_start-lt, sectors-le c k)))

  pub cluster_start-lt : (c : ℕ) → c < 2 ^ 33 → cluster_start b c < 2 ^ 43
  cluster_start-lt c k = omega (arith, data_start-lt, sectors-le c k)

  pub offset-done : (c : ℕ) → 2 ≤ c → offset b c ≡ done (cluster_start b c * byts_per_sec)
  unfolding offset
  offset-done c h = rw (le→leb 2 c h)

  -- `offset` and `first_sector_of_cluster`, two formulas of the code, name the same place for every
  -- cluster from 2 on, and the place is below 2 ^ 64.
  pub offset-first_sector_of_cluster :
      (c : ℕ)
      → 2 ≤ c
      → c < 2 ^ 33
      → (s : ℕ) × (first_sector_of_cluster b c ≡ done s)
        × (offset b c ≡ done (s * byts_per_sec))
        × (s * byts_per_sec < 2 ^ 64)
  offset-first_sector_of_cluster c h k = (
    cluster_start b c,
    first_sector_of_cluster-done c h k,
    offset-done c h,
    omega (
      arith,
      mul_le (cluster_start b c) byts_per_sec (2 ^ 42) (2 ^ 16)
          (omega (arith, data_start-lt, sectors-le c k)) (omega (arith, v.sector)),
    ),
  )

  data_sector_cnt-done : data_sector_cnt b ≡ done (tot_sec32 - data_start b)
  unfolding data_sector_cnt
  data_sector_cnt-done =
      rw root_dir_sector_cnt-zero
        (ap done (omega (arith, v.fits, v.total, data_start-lt, v.reserved)))

  pub data_cluster_cnt-done : data_cluster_cnt b ≡ done ((tot_sec32 - data_start b) / sec_per_clus)
  unfolding data_cluster_cnt
  data_cluster_cnt-done =
      rw (data_sector_cnt-done, ne→== sec_per_clus 0 (omega (arith, v.cluster_pos)))

  in_total :
      (c n : ℕ)
      → n ≡ (tot_sec32 - data_start b) / sec_per_clus
      → 2 ≤ c
      → c < n + 2
      → cluster_start b c + sec_per_clus ≤ tot_sec32
  in_total c n e h k =
      let m : (c - 2 + 1) * sec_per_clus ≤ n * sec_per_clus =
        mul_le (c - 2 + 1) sec_per_clus n sec_per_clus (omega arith) (omega arith) in
      grind (arith, m, v.fits, v.cluster_pos, e)

  -- The clusters that `data_cluster_cnt` counts lie behind the reserved sectors and the FATs, inside
  -- the volume, and in the order of their numbers without overlap.
  pub data_cluster_cnt-layout :
      (n c d : ℕ)
      → data_cluster_cnt b ≡ done n
      → 2 ≤ c
      → c < d
      → d < n + 2
      → (s t : ℕ) × (first_sector_of_cluster b c ≡ done s)
        × (first_sector_of_cluster b d ≡ done t)
        × (data_start b ≤ s)
        × (s + sec_per_clus ≤ t)
        × (t + sec_per_clus ≤ tot_sec32)
  data_cluster_cnt-layout n c d e h l k =
      let count : n ≡ (tot_sec32 - data_start b) / sec_per_clus = cc (e, data_cluster_cnt-done) in
      let small : n < 2 ^ 32 = grind (arith, count, v.total, v.cluster_pos) in
      (
        cluster_start b c,
        cluster_start b d,
        first_sector_of_cluster-done c h (omega arith),
        first_sector_of_cluster-done d (omega arith) (omega (arith, v.cluster_pos)),
        omega arith,
        omega (
          arith,
          mul_le (c - 2 + 1) sec_per_clus (d - 2) sec_per_clus (omega arith) (omega arith),
        ),
        in_total d n count (omega arith) k,
      )
