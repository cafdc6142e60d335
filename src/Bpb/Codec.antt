-- ===== src/Bpb/Codec.antt =====
-- src/bpb.rs: the packed structures and their bytes.
use fat32_rs.Base.{ℕ, ◌∷◌, [], List}
use mathlib.Core.List.{flatten}
use fat32_rs.Bytes.{Bytes, slice, read_le_u16, read_le_u32, le_u16, le_u32}
use fat32_rs.Bpb.{BiosParameterBlock, FsInfo}

-- 36 bytes of `BasicBPB`, then 54 of `BPB32`.
unfoldable pub bpb_bytes : BiosParameterBlock → List ℕ
unfolding flatten
bpb_bytes b = flatten (
    bs_jmp_boot
    ∷ bs_oem_name
    ∷ le_u16 byts_per_sec
    ∷ (sec_per_clus ∷ [])
    ∷ le_u16 rsvd_sec_cnt
    ∷ (num_fats ∷ [])
    ∷ le_u16 root_ent_cnt
    ∷ le_u16 tot_sec16
    ∷ (media ∷ [])
    ∷ le_u16 fat_sz16
    ∷ le_u16 sec_per_trk
    ∷ le_u16 num_heads
    ∷ le_u32 hidd_sec
    ∷ le_u32 tot_sec32
    ∷ le_u32 fat_sz32
    ∷ le_u16 ext_flags
    ∷ le_u16 fs_ver
    ∷ le_u32 root_clus
    ∷ le_u16 fs_info
    ∷ le_u16 bk_boot_sec
    ∷ reserved
    ∷ (bs_drv_num ∷ bs_reserved1 ∷ bs_boot_sig ∷ [])
    ∷ le_u32 bs_vol_id
    ∷ bs_vol_lab
    ∷ bs_fil_sys_type
    ∷ [])
  where
    open b.basic_bpb use {bs_jmp_boot, bs_oem_name, byts_per_sec, sec_per_clus, rsvd_sec_cnt}
    open b.basic_bpb use {num_fats, root_ent_cnt, tot_sec16, media, fat_sz16, sec_per_trk}
    open b.basic_bpb use {num_heads, hidd_sec, tot_sec32}
    open b.bpb32 use {fat_sz32, ext_flags, fs_ver, root_clus, fs_info, bk_boot_sec, reserved}
    open b.bpb32 use {bs_drv_num, bs_reserved1, bs_boot_sig, bs_vol_id, bs_vol_lab}
    open b.bpb32 use {bs_fil_sys_type}

unfoldable pub bpb_of_bytes : Bytes → BiosParameterBlock
bpb_of_bytes p = record {
  basic_bpb = record {
    bs_jmp_boot = slice p 0 3;
    bs_oem_name = slice p 3 8;
    byts_per_sec = read_le_u16 p 11;
    sec_per_clus = p 13;
    rsvd_sec_cnt = read_le_u16 p 14;
    num_fats = p 16;
    root_ent_cnt = read_le_u16 p 17;
    tot_sec16 = read_le_u16 p 19;
    media = p 21;
    fat_sz16 = read_le_u16 p 22;
    sec_per_trk = read_le_u16 p 24;
    num_heads = read_le_u16 p 26;
    hidd_sec = read_le_u32 p 28;
    tot_sec32 = read_le_u32 p 32;
  };
  bpb32 = record {
    fat_sz32 = read_le_u32 p 36;
    ext_flags = read_le_u16 p 40;
    fs_ver = read_le_u16 p 42;
    root_clus = read_le_u32 p 44;
    fs_info = read_le_u16 p 48;
    bk_boot_sec = read_le_u16 p 50;
    reserved = slice p 52 12;
    bs_drv_num = p 64;
    bs_reserved1 = p 65;
    bs_boot_sig = p 66;
    bs_vol_id = read_le_u32 p 67;
    bs_vol_lab = slice p 71 11;
    bs_fil_sys_type = slice p 82 8;
  };
}

-- 512 bytes.
unfoldable pub fs_info_bytes : FsInfo → List ℕ
unfolding flatten
fs_info_bytes f = flatten (
    le_u32 f.lead_sig
    ∷ f.reserved1
    ∷ le_u32 f.struc_sig
    ∷ le_u32 f.free_count
    ∷ le_u32 f.nxt_free
    ∷ f.reserved2
    ∷ le_u32 f.trail_sig
    ∷ [])

unfoldable pub fs_info_of_bytes : Bytes → FsInfo
fs_info_of_bytes p = record {
  lead_sig = read_le_u32 p 0;
  reserved1 = slice p 4 480;
  struc_sig = read_le_u32 p 484;
  free_count = read_le_u32 p 488;
  nxt_free = read_le_u32 p 492;
  reserved2 = slice p 496 12;
  trail_sig = read_le_u32 p 508;
}
