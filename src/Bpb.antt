-- ===== src/Bpb.antt =====
-- src/bpb.rs: the BIOS parameter block, the FSInfo sector and the layout of a volume.
pub mod Codec
pub mod Geometry
use fat32_rs.Base.{
  ℕ, ◌+◌, ◌-◌, ◌*◌, ◌/◌, ◌%◌, ◌^◌, arith, ltb, leb, ◌==◌, if◌then◌else◌, Bool, true, false, not,
  ◌&&◌, List, Outcome, done, panic, div, guard, ◌>>=◌, ◌>>◌,
}

-- The first 36 bytes of the boot sector.
pub record BasicBpb : Type 0 where
  pub bs_jmp_boot : List ℕ
  pub bs_oem_name : List ℕ
  pub byts_per_sec : ℕ
  pub sec_per_clus : ℕ
  pub rsvd_sec_cnt : ℕ
  pub num_fats : ℕ
  pub root_ent_cnt : ℕ
  pub tot_sec16 : ℕ
  pub media : ℕ
  pub fat_sz16 : ℕ
  pub sec_per_trk : ℕ
  pub num_heads : ℕ
  pub hidd_sec : ℕ
  pub tot_sec32 : ℕ

-- The 54 bytes behind them, on a FAT32 volume.
pub record Bpb32 : Type 0 where
  pub fat_sz32 : ℕ
  pub ext_flags : ℕ
  pub fs_ver : ℕ
  pub root_clus : ℕ
  pub fs_info : ℕ
  pub bk_boot_sec : ℕ
  pub reserved : List ℕ
  pub bs_drv_num : ℕ
  pub bs_reserved1 : ℕ
  pub bs_boot_sig : ℕ
  pub bs_vol_id : ℕ
  pub bs_vol_lab : List ℕ
  pub bs_fil_sys_type : List ℕ

pub record BiosParameterBlock : Type 0 where
  pub basic_bpb : BasicBpb
  pub bpb32 : Bpb32

pub data FatType : Type 0 where
  fat32 fat16 fat12 : FatType

pub record FsInfo : Type 0 where
  pub lead_sig : ℕ
  pub reserved1 : List ℕ
  pub struc_sig : ℕ
  pub free_count : ℕ
  pub nxt_free : ℕ
  pub reserved2 : List ℕ
  pub trail_sig : ℕ

abbrev pub max_cluster_fat12 : ℕ
max_cluster_fat12 = 4085

abbrev pub max_cluster_fat16 : ℕ
max_cluster_fat16 = 65525

-- Subtraction of `usize` values, which wraps.
abbrev pub sub_usize : ℕ → ℕ → ℕ
sub_usize a b = (a + 2 ^ 64 - b) % 2 ^ 64

module _ (b : BiosParameterBlock) where
  open b.basic_bpb use {byts_per_sec, sec_per_clus, rsvd_sec_cnt, num_fats, root_ent_cnt}
  open b.basic_bpb use {tot_sec16, tot_sec32, fat_sz16}
  open b.bpb32 use {fat_sz32, root_clus, fs_info}

  -- The byte at which a cluster begins.
  unfoldable pub offset : ℕ → Outcome ℕ
  offset cluster = do
    guard (leb 2 cluster)
    done ((rsvd_sec_cnt + num_fats * fat_sz32 + (cluster - 2) * sec_per_clus) * byts_per_sec)

  -- `root_ent_cnt * 32` and `byts_per_sec - 1` are `u16`.
  unfoldable pub root_dir_sector_cnt : Outcome ℕ
  root_dir_sector_cnt =
      div (root_ent_cnt * 32 % 2 ^ 16 + (byts_per_sec + 2 ^ 16 - 1) % 2 ^ 16) byts_per_sec

  unfoldable pub first_data_sector : Outcome ℕ
  first_data_sector = do
    root ← root_dir_sector_cnt
    done (rsvd_sec_cnt + num_fats * fat_sz32 + root)

  unfoldable pub first_sector_of_cluster : ℕ → Outcome ℕ
  first_sector_of_cluster cluster = do
    first ← first_data_sector
    done ((first + sub_usize cluster 2 * sec_per_clus) % 2 ^ 64)

  unfoldable pub fat1_offset : ℕ
  fat1_offset = rsvd_sec_cnt * byts_per_sec

  unfoldable pub fat1_sector_id : ℕ
  fat1_sector_id = rsvd_sec_cnt

  unfoldable pub fat2_offset : ℕ
  unfolding fat1_offset
  fat2_offset = fat1_offset + fat_sz32 * byts_per_sec

  unfoldable pub sector_per_cluster : ℕ
  sector_per_cluster = sec_per_clus

  unfoldable pub data_sector_cnt : Outcome ℕ
  data_sector_cnt = do
    root ← root_dir_sector_cnt
    done (sub_usize (sub_usize (sub_usize tot_sec32 rsvd_sec_cnt) (num_fats * fat_sz32)) root)

  unfoldable pub data_cluster_cnt : Outcome ℕ
  data_cluster_cnt = do sectors ← data_sector_cnt; div sectors sec_per_clus

  unfoldable pub total_data_volume : Outcome ℕ
  total_data_volume = do sectors ← data_sector_cnt; done (sectors * byts_per_sec % 2 ^ 64)

  unfoldable pub is_valid : Bool
  is_valid =
      root_ent_cnt == 0
      && tot_sec16 == 0
      && not (tot_sec32 == 0)
      && fat_sz16 == 0
      && not (fat_sz32 == 0)

  unfoldable pub cluster_size : ℕ
  cluster_size = sec_per_clus * byts_per_sec

  unfoldable pub fat_type : Outcome FatType
  fat_type = do
    n ← data_cluster_cnt
    done (
        if ltb n max_cluster_fat12 then fat12 else if ltb n max_cluster_fat16 then fat16 else fat32)

  unfoldable pub bytes_per_sector : ℕ
  bytes_per_sector = byts_per_sec

  unfoldable pub sectors_per_cluster : ℕ
  sectors_per_cluster = sec_per_clus

  unfoldable pub fat_cnt : ℕ
  fat_cnt = num_fats

  unfoldable pub reserved_sector_cnt : ℕ
  reserved_sector_cnt = rsvd_sec_cnt

  unfoldable pub total_sector_cnt : ℕ
  total_sector_cnt = tot_sec32

  unfoldable pub sector_pre_fat : ℕ
  sector_pre_fat = fat_sz32

  unfoldable pub root_cluster : ℕ
  root_cluster = root_clus

  unfoldable pub fat_info_sector : ℕ
  fat_info_sector = fs_info

-- `FSInfo::check_signature`
unfoldable pub check_signature : FsInfo → Bool
check_signature f =
    f.lead_sig == 0x41615252 && f.struc_sig == 0x61417272 && f.trail_sig == 0xAA550000

unfoldable pub free_cluster_cnt : FsInfo → ℕ
free_cluster_cnt f = f.free_count

unfoldable pub set_free_clusters : FsInfo → ℕ → FsInfo
set_free_clusters f free_clusters = record f { free_count = free_clusters }

unfoldable pub next_free_cluster : FsInfo → ℕ
next_free_cluster f = f.nxt_free

unfoldable pub set_next_free_cluster : FsInfo → ℕ → FsInfo
set_next_free_cluster f start_cluster = record f { nxt_free = start_cluster }
