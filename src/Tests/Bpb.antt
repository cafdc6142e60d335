-- ===== src/Tests/Bpb.antt =====
-- The layout of src/bpb.rs on the volume that `create` makes.
use fat32_rs.Base.{ℕ, ◌+◌, ◌*◌, ◌^◌, ◌≤◌, ◌<◌, ◌≡◌, refl, arith, done}
use fat32_rs.Bpb.{
  first_sector_of_cluster, offset, data_cluster_cnt, data_sector_cnt, root_dir_sector_cnt,
}
use fat32_rs.Bpb.Geometry.{
  IsVolume, data_start, offset-first_sector_of_cluster, data_cluster_cnt-layout,
}
use fat32_rs.Fs.{new_bpb}

new_bpb-IsVolume : IsVolume new_bpb
new_bpb-IsVolume = omega arith

clusters : data_cluster_cnt new_bpb ≡ done 2028
unfolding data_cluster_cnt data_sector_cnt root_dir_sector_cnt
clusters = refl

offset-first_sector_of_cluster_example :
    (s : ℕ) × (first_sector_of_cluster new_bpb 9 ≡ done s)
    × (offset new_bpb 9 ≡ done (s * 512))
    × (s * 512 < 2 ^ 64)
offset-first_sector_of_cluster_example =
    offset-first_sector_of_cluster new_bpb-IsVolume 9 (omega arith) (omega arith)

data_cluster_cnt-layout_example :
    (s t : ℕ) × (first_sector_of_cluster new_bpb 2 ≡ done s)
    × (first_sector_of_cluster new_bpb 2029 ≡ done t)
    × (data_start new_bpb ≤ s)
    × (s + 8 ≤ t)
    × (t + 8 ≤ 16384)
data_cluster_cnt-layout_example =
    data_cluster_cnt-layout new_bpb-IsVolume 2028 2 2029 clusters (omega arith) (omega arith)
      (omega arith)
