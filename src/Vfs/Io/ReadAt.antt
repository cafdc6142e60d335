-- ===== src/Vfs/Io/ReadAt.antt =====
-- src/vfs.rs: `read_at` on a file whose clusters are a chain of the table.
use fat32_rs.Base.{
  ℕ, zero, suc, ◌≢◌, ◌+◌, ◌-◌, ◌*◌, ◌/◌, ◌≤◌, ◌<◌, ◌≡◌, arith, ap, ◌∙◌, refl, sym, ◌==◌, ne→==,
  if◌then◌else◌, List, [], ◌∷◌, length, length-drop, Bool, true, false, panic, ◌^◌, none, some,
  Outcome, done, guard, div, ◌>>=◌,
}
use mathlib.Core.Path.{ap₂, subst, subst₂}
use fat32_rs.Bytes.{Bytes, slice}
use fat32_rs.Bpb.Geometry.{cluster_start}
use fat32_rs.Fat.{end_of_cluster}
use fat32_rs.Fat.Cursor.{ClusterChain}
use fat32_rs.Fat.Cursor.Iterate.{at_cluster}
use fat32_rs.Fs.{FileSystem, cluster_size}
use fat32_rs.Fs.Shape.{mounted-IsAligned}
use fat32_rs.Vfs.{VirtFile}
use fat32_rs.Vfs.Io.{read_clusters, read_at, skip}
use fat32_rs.Vfs.Io.Copy.{
  content, Holds, content-Holds, Holds-drop, span, span-eq, span-drop, quot_bounds, quot_bound,
  quot_least,
}
use fat32_rs.Vfs.Io.Clusters.{read_clusters_lem}
use fat32_rs.Fat.{cluster_chain_len}
use fat32_rs.Fat.Walk.{walks-chain}
use fat32_rs.Vfs.Io.Walk.{IsOpen, Reached, skip-Reached, skip-none, first_item-IsOpen}

-- The bytes of the file whose clusters are given.
abbrev pub bytes_of : FileSystem → List ℕ → Bytes
bytes_of fs = content (cluster_start fs.bpb) fs.bpb.basic_bpb.sec_per_clus fs.disk

assert {ℓ} :
    {A : Type ℓ} (b : Bool) (k : Outcome A) → (guard b >>= λ _. k) ≡ (if b then k else panic)
assert true k = refl
assert false k = refl

module _ (fs : FileSystem) (self : VirtFile) (c : ℕ) (cs : List ℕ) (o : IsOpen fs self c cs) where
  abbrev off : ℕ
  off = fs.fat.fat1_offset

  abbrev size : ℕ
  size = fs.bpb.basic_bpb.sec_per_clus * 512

  abbrev bytes : Bytes
  bytes = bytes_of fs (c ∷ cs)

  size_pos : 0 < size
  size_pos = omega (arith, o.mounted.volume.cluster_pos)

  div-cluster_size : (place : ℕ) → div place (cluster_size fs) ≡ done (place / size)
  unfolding cluster_size
  div-cluster_size place =
      let e : fs.bpb.basic_bpb.byts_per_sec * fs.bpb.basic_bpb.sec_per_clus ≡ size =
        rw o.mounted.block (omega arith) in
      rw (e, ne→== size 0 (omega (arith, size_pos)))

  read_at_ran :
      (fuel place n : ℕ) (chain : ClusterChain) (curr : ℕ)
      → n ≢ 0
      → skip fs.disk (place / size) (at_cluster off fs.disk c none c) c ≡ done (some (chain, curr))
      → read_at fuel fs self place n
        ≡ read_clusters (place + n) fs fuel chain curr (place / size * cluster_size fs) place []
  unfolding read_at
  read_at_ran fuel place n chain curr h ran = rw (
    ne→== n 0 h,
    div-cluster_size place,
    o.first,
    first_item-IsOpen fs self c cs o,
    ne→== c 0 (omega (arith, o.low)),
    ran,
  )

  abbrev At : ℕ → Type 0
  At q = Reached off (mounted-IsAligned o.mounted) fs.disk q c none c cs

  -- From the cluster of a place on, the clusters hold the rest of the file.
  rest_held :
      (q : ℕ) (r : At q)
      → Holds
          (cluster_start fs.bpb)
          fs.bpb.basic_bpb.sec_per_clus
          fs.disk
          bytes
          (q * size)
          (r.cluster ∷ r.rest)
  rest_held q r =
      let e : 0 + q * size ≡ q * size = omega arith in
      subst₂
        (λ left xs.
          Holds (cluster_start fs.bpb) fs.bpb.basic_bpb.sec_per_clus fs.disk bytes left xs)
        e r.dropped
        (Holds-drop (cluster_start fs.bpb) fs.bpb.basic_bpb.sec_per_clus fs.disk bytes 0 q (c ∷ cs)
          (content-Holds (cluster_start fs.bpb) fs.bpb.basic_bpb.sec_per_clus fs.disk (c ∷ cs)))

  rest_span :
      (q : ℕ) (r : At q)
      → q ≤ length (c ∷ cs)
      → q * size + span size (r.cluster ∷ r.rest) ≡ length (c ∷ cs) * size
  rest_span q r h =
      ap (λ xs. q * size + span size xs) (sym r.dropped)
      ∙ span-drop size q (c ∷ cs) h
      ∙ span-eq size (c ∷ cs)

  rest_length : (q : ℕ) (r : At q) → length r.rest < length (c ∷ cs)
  rest_length q r = omega (arith, sym (ap length r.dropped) ∙ length-drop q (c ∷ cs))

  read_from :
      (fuel place n left : ℕ) (r : At (place / size))
      → place / size < length (c ∷ cs)
      → left ≡ place / size * size
      → 0 < n
      → length (c ∷ cs) ≤ fuel
      → place + n ≤ length (c ∷ cs) * size
      → read_clusters
          (place + n)
          fs
          fuel
          (at_cluster off fs.disk c r.before r.cluster)
          r.cluster
          left
          place
          []
        ≡ done (slice bytes place n)
  unfolding slice
  read_from fuel place n left r within e h f b =
      let near = quot_bounds place size size_pos in
      let all = rest_span (place / size) r (omega arith) in
      let none_yet : place - place ≡ 0 = omega arith in
      let len : place + n - place ≡ n = omega arith in
      ap₂
        (λ z k.
          read_clusters (place + n) fs fuel (at_cluster off fs.disk c r.before r.cluster) r.cluster
            z place (slice bytes place k))
        e (sym none_yet)
      ∙ read_clusters_lem fs o.mounted bytes place (place + n) fuel c r.before r.cluster r.rest
          (place / size * size) place (omega (arith, rest_length (place / size) r)) r.low r.chain
          (rest_held (place / size) r) (omega arith) near.0 (omega (arith, near.1)) (omega arith)
          (omega (arith, all))
      ∙ ap (λ k. done (slice bytes place k)) len

  read_at_inside :
      (fuel place n : ℕ)
      → 0 < n
      → length (c ∷ cs) ≤ fuel
      → place + n ≤ length (c ∷ cs) * size
      → read_at fuel fs self place n ≡ done (slice bytes place n)
  unfolding cluster_size
  read_at_inside fuel place n h e b =
      let within : place / size < length (c ∷ cs) =
        quot_bound place size (length (c ∷ cs)) size_pos (omega arith) in
      let r =
        skip-Reached off (mounted-IsAligned o.mounted) fs.disk (place / size) c none c cs within
          o.low o.chain in
      read_at_ran fuel place n (at_cluster off fs.disk c r.before r.cluster) r.cluster (omega arith)
        r.ran
      ∙ read_from fuel place n (place / size * cluster_size fs) r within
          (rw o.mounted.block (omega arith)) h e b

  read_at_past :
      (fuel place n l : ℕ)
      → n ≢ 0
      → skip fs.disk (place / size) (at_cluster off fs.disk c none c) c ≡ done none
      → cluster_chain_len fs.fat fs.disk fuel c ≡ done l
      → read_at fuel fs self place n ≡ (if place == l * cluster_size fs then done [] else panic)
  unfolding read_at
  read_at_past fuel place n l h ran count =
      rw
        (
          ne→== n 0 h,
          div-cluster_size place,
          o.first,
          first_item-IsOpen fs self c cs o,
          ne→== c 0 (omega (arith, o.low)),
          ran,
          count,
        )
        (assert (place == l * cluster_size fs) (done []))

-- For an open file, with fuel for its clusters, `read_at` of `n` bytes at a place such that they end
-- in the file's clusters gives the bytes that the clusters of the chain hold there, in the order of
-- the chain.
pub read_at-content :
    (fs : FileSystem) (self : VirtFile) (c : ℕ) (cs : List ℕ) (fuel place n : ℕ)
    → IsOpen fs self c cs
    → length (c ∷ cs) ≤ fuel
    → place + n ≤ length (c ∷ cs) * (fs.bpb.basic_bpb.sec_per_clus * 512)
    → read_at fuel fs self place n ≡ done (slice (bytes_of fs (c ∷ cs)) place n)
unfolding read_at slice
read_at-content fs self c cs fuel place zero o e b = refl
read_at-content fs self c cs fuel place (suc n) o e b =
    read_at_inside fs self c cs o fuel place (suc n) (omega arith) e b

-- For an open file, with more fuel than it has clusters, `read_at` of at least one byte at or behind
-- the end of the last cluster gives nothing at exactly that end, and panics behind it.
pub read_at-end :
    (fs : FileSystem) (self : VirtFile) (c : ℕ) (cs : List ℕ) (fuel place n : ℕ)
    → IsOpen fs self c cs
    → length (c ∷ cs) < fuel
    → length (c ∷ cs) < 2 ^ 32
    → c < end_of_cluster
    → 0 < n
    → length (c ∷ cs) * cluster_size fs ≤ place
    → read_at fuel fs self place n
      ≡ (if place == length (c ∷ cs) * cluster_size fs then done [] else panic)
unfolding cluster_size
read_at-end fs self c cs fuel place n o e small low h past =
    let k = fs.bpb.basic_bpb.sec_per_clus * 512 in
    let same : fs.bpb.basic_bpb.byts_per_sec * fs.bpb.basic_bpb.sec_per_clus ≡ k =
      rw o.mounted.block (omega arith) in
    let far : length (c ∷ cs) * k ≤ place = subst (λ z. length (c ∷ cs) * z ≤ place) same past in
    let walked =
      walks-chain fs.fat (mounted-IsAligned o.mounted) fs.disk fuel c cs (omega arith) (omega arith)
        o.low low o.chain in
    read_at_past fs self c cs o fuel place n (length (c ∷ cs)) (omega arith)
      (skip-none fs.fat.fat1_offset (mounted-IsAligned o.mounted) fs.disk (place / k) c none c cs
        (quot_least place k (length (c ∷ cs)) (size_pos fs self c cs o) far) o.low o.chain)
      walked.1
