-- ===== src/Vfs/Fields.antt =====
-- src/vfs.rs: the fields of a file's entry on disk, written and read back.
use fat32_rs.Base.{
  ℕ, zero, suc, ◌+◌, ◌%◌, ◌^◌, ◌≤◌, ◌<◌, ◌≡◌, ◌≢◌, ◌⊎◌, refl, arith, ne→==, ap, ◌∙◌, All, done,
}
use fat32_rs.Bytes.{
  Bytes, IsBytes, slice, patch, patch_outside, length-slice, read_le_u16-lt, read_le_u32-lt,
}
use fat32_rs.Disk.{Disk, store, read-done, modify-done, store_self, store_ne}
use fat32_rs.Entry.Short as Short
use fat32_rs.Entry.Short.{ShortDirEntry, new_from_bytes, as_bytes}
use fat32_rs.Entry.Short.Fields.{IsEntry, first_cluster-set_first_cluster}
use fat32_rs.Entry.Short.Codec.{length-as_bytes, new_from_bytes-as_bytes}
use fat32_rs.Fs.{FileSystem}
use fat32_rs.Vfs.{
  VirtFile, sde_pos, read_sde, modify_sde, file_size, first_cluster, set_first_cluster,
  set_file_size,
}

slice-IsBytes : (b : Bytes) (o n : ℕ) → IsBytes b → All (λ c. c < 256) (slice b o n)
unfolding slice
slice-IsBytes b o zero h = tt
slice-IsBytes b o (suc n) h = (h o, slice-IsBytes b (o + 1) n h)

new_from_bytes-IsEntry : (b : Bytes) → IsBytes b → IsEntry (new_from_bytes b)
unfolding new_from_bytes
new_from_bytes-IsEntry b h = record {
  name = length-slice b 0 8;
  name_bytes = slice-IsBytes b 0 8 h;
  extension = length-slice b 8 3;
  extension_bytes = slice-IsBytes b 8 3 h;
  attr = h _;
  nt_res = h _;
  crt_time_tenth = h _;
  crt_time = read_le_u16-lt b _ h;
  crt_date = read_le_u16-lt b _ h;
  lst_acc_date = read_le_u16-lt b _ h;
  fst_clus_hi = read_le_u16-lt b _ h;
  wrt_time = read_le_u16-lt b _ h;
  wrt_date = read_le_u16-lt b _ h;
  fst_clus_lo = read_le_u16-lt b _ h;
  file_size = read_le_u32-lt b _ h;
}

-- The entry of a file stands on disk, inside a block of bytes.
pub record IsPlaced (fs : FileSystem) (self : VirtFile) (block place : ℕ) : Type 0 where
  pub not_root : self.sde_pos.cluster ≢ 0
  pub position : sde_pos fs self ≡ done (block, place)
  pub inside : place + 32 ≤ 512
  pub bytes : IsBytes (fs.disk block)

-- Only the 32 bytes of the entry differ.
pub record IsElsewhereSame (d d' : Disk) (block place : ℕ) : Type 0 where
  pub blocks : (k : ℕ) → k ≢ block → d' k ≡ d k
  pub bytes : (i : ℕ) → (i < place) ⊎ (place + 32 ≤ i) → d' block i ≡ d block i

module _ (fs : FileSystem) (self : VirtFile) (block place : ℕ)
    (at : IsPlaced fs self block place) where
  -- The entry, and the disk with another one in its place.
  abbrev pub entry_of : ShortDirEntry
  entry_of = new_from_bytes (λ i. fs.disk block (place + i))

  abbrev pub with_entry : ShortDirEntry → FileSystem
  with_entry e = record fs { disk = store fs.disk block (patch (fs.disk block) place (as_bytes e)) }

  pub entry_of-IsEntry : IsEntry entry_of
  entry_of-IsEntry = new_from_bytes-IsEntry _ (λ i. at.bytes (place + i))

  pub read_sde_lem : read_sde fs self ≡ done entry_of
  unfolding read_sde
  read_sde_lem = rw (
    ne→== self.sde_pos.cluster 0 at.not_root,
    at.position,
    read-done fs.disk block 32 place at.inside,
  )

  pub modify_sde_lem :
      (f : ShortDirEntry → ShortDirEntry)
      → IsEntry (f entry_of)
      → modify_sde fs self f ≡ done (with_entry (f entry_of))
  unfolding modify_sde
  modify_sde_lem f v = rw (
    ne→== self.sde_pos.cluster 0 at.not_root,
    at.position,
    read-done fs.disk block 32 place at.inside,
    modify-done fs.disk block place (as_bytes (f entry_of))
        (omega (arith, length-as_bytes v, at.inside)),
  )

  pub read_sde-with_entry : (e : ShortDirEntry) → IsEntry e → read_sde (with_entry e) self ≡ done e
  unfolding read_sde sde_pos
  read_sde-with_entry e v = rw (
    ne→== self.sde_pos.cluster 0 at.not_root,
    at.position,
    read-done (with_entry e).disk block 32 place at.inside,
    store_self fs.disk block (patch (fs.disk block) place (as_bytes e)),
    (new_from_bytes-as_bytes v (fs.disk block) place).1,
  )

  pub with_entry-IsElsewhereSame :
      (e : ShortDirEntry) → IsEntry e → IsElsewhereSame fs.disk (with_entry e).disk block place
  with_entry-IsElsewhereSame e v = record {
    blocks = λ k ne. store_ne fs.disk block _ k ne;
    bytes = λ i h.
        ap (λ b. b i) (store_self fs.disk block (patch (fs.disk block) place (as_bytes e)))
        ∙ patch_outside (fs.disk block) place (as_bytes e) i (omega (arith, length-as_bytes v));
  }

pub set_first_cluster-IsEntry :
    (e : ShortDirEntry) (c : ℕ) → IsEntry e → c < 2 ^ 32 → IsEntry (Short.set_first_cluster e c)
unfolding Short.set_first_cluster
set_first_cluster-IsEntry e c v h = record {
  name = v.name;
  name_bytes = v.name_bytes;
  extension = v.extension;
  extension_bytes = v.extension_bytes;
  attr = v.attr;
  nt_res = v.nt_res;
  crt_time_tenth = v.crt_time_tenth;
  crt_time = v.crt_time;
  crt_date = v.crt_date;
  lst_acc_date = v.lst_acc_date;
  fst_clus_hi = omega (arith, h);
  wrt_time = v.wrt_time;
  wrt_date = v.wrt_date;
  fst_clus_lo = omega (arith, h);
  file_size = v.file_size;
}

pub set_file_size-IsEntry :
    (e : ShortDirEntry) (n : ℕ) → IsEntry e → n < 2 ^ 32 → IsEntry (Short.set_file_size e n)
unfolding Short.set_file_size
set_file_size-IsEntry e n v h = record {
  name = v.name;
  name_bytes = v.name_bytes;
  extension = v.extension;
  extension_bytes = v.extension_bytes;
  attr = v.attr;
  nt_res = v.nt_res;
  crt_time_tenth = v.crt_time_tenth;
  crt_time = v.crt_time;
  crt_date = v.crt_date;
  lst_acc_date = v.lst_acc_date;
  fst_clus_hi = v.fst_clus_hi;
  wrt_time = v.wrt_time;
  wrt_date = v.wrt_date;
  fst_clus_lo = v.fst_clus_lo;
  file_size = h;
}

-- For a file whose entry stands on disk, `set_first_cluster` returns, `first_cluster` then gives the
-- cluster as 32 bits, `file_size` what it gave before, and no byte outside the entry changes.
pub set_first_cluster_lem :
    (fs : FileSystem) (self : VirtFile) (block place c : ℕ)
    → IsPlaced fs self block place
    → (fs' : FileSystem) × (set_first_cluster fs self c ≡ done fs')
      × (first_cluster fs' self ≡ done (c % 2 ^ 32))
      × (file_size fs' self ≡ file_size fs self)
      × IsElsewhereSame fs.disk fs'.disk block place
unfolding set_first_cluster first_cluster file_size Short.set_first_cluster Short.file_size
set_first_cluster_lem fs self block place c at =
    let e = entry_of fs self block place at in
    let v = entry_of-IsEntry fs self block place at in
    let small : c % 2 ^ 32 < 2 ^ 32 = omega arith in
    let w = set_first_cluster-IsEntry e (c % 2 ^ 32) v small in
    (
      with_entry fs self block place at (Short.set_first_cluster e (c % 2 ^ 32)),
      modify_sde_lem fs self block place at (λ sde. Short.set_first_cluster sde (c % 2 ^ 32)) w,
      rw (read_sde-with_entry fs self block place at (Short.set_first_cluster e (c % 2 ^ 32)) w)
          (ap done (first_cluster-set_first_cluster e (c % 2 ^ 32) v small).0),
      rw
          (
            read_sde-with_entry fs self block place at (Short.set_first_cluster e (c % 2 ^ 32)) w,
            read_sde_lem fs self block place at,
          )
          refl,
      with_entry-IsElsewhereSame fs self block place at (Short.set_first_cluster e (c % 2 ^ 32)) w,
    )

-- For a file whose entry stands on disk, `set_file_size` returns, `file_size` then gives the size as
-- 32 bits, `first_cluster` what it gave before, and no byte outside the entry changes.
pub set_file_size_lem :
    (fs : FileSystem) (self : VirtFile) (block place n : ℕ)
    → IsPlaced fs self block place
    → (fs' : FileSystem) × (set_file_size fs self n ≡ done fs')
      × (file_size fs' self ≡ done (n % 2 ^ 32))
      × (first_cluster fs' self ≡ first_cluster fs self)
      × IsElsewhereSame fs.disk fs'.disk block place
unfolding set_file_size first_cluster file_size Short.set_file_size Short.file_size
    Short.first_cluster
set_file_size_lem fs self block place n at =
    let e = entry_of fs self block place at in
    let v = entry_of-IsEntry fs self block place at in
    let w = set_file_size-IsEntry e (n % 2 ^ 32) v (omega arith) in
    (
      with_entry fs self block place at (Short.set_file_size e (n % 2 ^ 32)),
      modify_sde_lem fs self block place at (λ sde. Short.set_file_size sde (n % 2 ^ 32)) w,
      rw (read_sde-with_entry fs self block place at (Short.set_file_size e (n % 2 ^ 32)) w) refl,
      rw
          (
            read_sde-with_entry fs self block place at (Short.set_file_size e (n % 2 ^ 32)) w,
            read_sde_lem fs self block place at,
          )
          refl,
      with_entry-IsElsewhereSame fs self block place at (Short.set_file_size e (n % 2 ^ 32)) w,
    )
