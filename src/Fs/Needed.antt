-- ===== src/Fs/Needed.antt =====
-- src/fs.rs: how many clusters a file of a new size still needs.
use fat32_rs.Base.{
  ℕ, ◌+◌, ◌-◌, ◌*◌, ◌/◌, ◌%◌, ◌^◌, ◌≤◌, ◌<◌, ◌≡◌, refl, arith, ltb, if◌then◌else◌, ne→==, lt→ltb,
  le→ltb, done, List, ◌∷◌, length,
}
use native.Mathlib.Decide.{dec_lt}
use fat32_rs.Fat.{end_of_cluster, new_vir_file_cluster}
use fat32_rs.Fat.Entries.{IsAligned, entry}
use fat32_rs.Fat.Walk.{IsChain, walks-chain}
use fat32_rs.Bpb.{sub_usize}
use fat32_rs.Bpb.Geometry.{mul_le}
use fat32_rs.Fs.{FileSystem, cluster_size, count_needed_clusters}

-- `k` more clusters of `size` bytes hold `new_size` bytes, and fewer do not.
pub record IsNeeded (size old k new_size : ℕ) : Type 0 where
  pub enough : new_size ≤ (old + k) * size
  pub least : (j : ℕ) → j < k → (old + j) * size < new_size

ceil : (size n : ℕ) → 0 < size → n ≤ (n + size - 1) / size * size
ceil size n h = grind arith

ceil_least : (size n k : ℕ) → 0 < size → k < (n + size - 1) / size → k * size < n
ceil_least size n k h l = grind arith

needed :
    (size old n cnt : ℕ)
    → n ≤ cnt * size
    → ((k : ℕ) → k < cnt → k * size < n)
    → IsNeeded size old (if ltb old cnt then cnt - old else 0) n
needed size old n cnt h l = elim (dec_lt old cnt) [
  | yes p ↦ rw (lt→ltb old cnt p) (record {
    enough = let e : old + (cnt - old) ≡ cnt = omega arith in rw e h;
    least = λ j q. l (old + j) (omega arith);
  })
  | no g ↦ rw (le→ltb old cnt (omega arith)) (record {
    enough = omega (arith, mul_le cnt size old size (omega arith) (omega arith), h);
    least = λ j q. absurd (omega arith);
  })
]

no_wrap :
    (n size : ℕ) → 0 < size → n + size < 2 ^ 64 → sub_usize ((n + size) % 2 ^ 64) 1 ≡ n + size - 1
no_wrap n size h l = omega arith

-- For a file without clusters and a new size that does not wrap, `count_needed_clusters` returns the least
-- number that hold the new size.
pub count_needed_clusters-none :
    (fs : FileSystem) (fuel new_size : ℕ)
    → 0 < cluster_size fs
    → new_size + cluster_size fs < 2 ^ 64
    → (k : ℕ) × (count_needed_clusters fuel fs new_size new_vir_file_cluster ≡ done k)
      × IsNeeded (cluster_size fs) 0 k new_size
unfolding count_needed_clusters
count_needed_clusters-none fs fuel new_size pos wide = (
  (new_size + cluster_size fs - 1) / cluster_size fs,
  rw (no_wrap new_size (cluster_size fs) pos wide, ne→== (cluster_size fs) 0 (omega arith)) refl,
  record {
    enough =
        let e : 0 + (new_size + cluster_size fs - 1) / cluster_size fs
            ≡ (new_size + cluster_size fs - 1) / cluster_size fs =
          omega arith in
        rw e (ceil (cluster_size fs) new_size pos);
    least = λ j q.
        let e : 0 + j ≡ j = omega arith in rw e (ceil_least (cluster_size fs) new_size j pos q);
  },
)

-- For a file without clusters and for one with a chain, a new size whose sum with the cluster size does
-- not wrap, and more fuel than the chain has clusters,
-- `count_needed_clusters` returns the least number of clusters that, added to those of the file, hold
-- the new size.
pub count_needed_clusters-IsNeeded :
    (fs : FileSystem) (fuel new_size c : ℕ) (cs : List ℕ)
    → IsAligned fs.fat.fat1_offset
    → 0 < cluster_size fs
    → new_size + cluster_size fs < 2 ^ 64
    → length cs < fuel
    → length cs + 1 < 2 ^ 32
    → 2 ≤ c
    → c < end_of_cluster
    → IsChain (entry fs.fat.fat1_offset fs.disk) (c ∷ cs)
    → (k m : ℕ) × (count_needed_clusters fuel fs new_size new_vir_file_cluster ≡ done k)
      × IsNeeded (cluster_size fs) 0 k new_size
      × (count_needed_clusters fuel fs new_size c ≡ done m)
      × IsNeeded (cluster_size fs) (length (c ∷ cs)) m new_size
unfolding count_needed_clusters
count_needed_clusters-IsNeeded fs fuel new_size c cs al pos wide f small h k ch =
    let up = ceil (cluster_size fs) new_size pos in
    let low : (j : ℕ)
        → j < (new_size + cluster_size fs - 1) / cluster_size fs
        → j * cluster_size fs < new_size =
      λ j. ceil_least (cluster_size fs) new_size j pos in
    let (k0, ran, none_yet) = count_needed_clusters-none fs fuel new_size pos wide in
    (
      k0,
      _,
      ran,
      none_yet,
      rw
          (
            ne→== c 0 (omega arith),
            (walks-chain fs.fat al fs.disk fuel c cs f small h k ch).1,
            no_wrap new_size (cluster_size fs) pos wide,
            ne→== (cluster_size fs) 0 (omega arith),
          )
          refl,
      needed (cluster_size fs) (length (c ∷ cs)) new_size _ up low,
    )
