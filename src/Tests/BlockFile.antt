-- ===== src/Tests/BlockFile.antt =====
-- The device of examples/fat32-fs-std/src/device.rs over a file in memory.
use fat32_rs.Base.{
  ℕ, ◌+◌, ◌-◌, ◌*◌, ◌≤◌, ◌<◌, ◌≡◌, ◌⊎◌, arith, ap, refl, leb, le→leb, sym, ◌∙◌, take, panic,
  if◌then◌else◌, some, length, replicate, length-replicate, done,
}
use fat32_rs.Bytes.{Bytes, slice, patch, length-slice}
use fat32_rs.Disk.{block_size}
use fat32_rs.BlockFile.{StdFile, read_blocks, write_blocks}
use fat32_rs.BlockFile.Device.{IsFile, IsComplete, take-length, read_blocks-write_blocks}

pub record HostFile : Type 0 where
  pub content : Bytes
  pub size : ℕ
  pub position : ℕ

abbrev pub read_some : HostFile → ℕ → ℕ
read_some h n = if leb (h.position + n) h.size then n else h.size - h.position

abbrev pub host : StdFile HostFile
host = record {
  seek = λ h p. some (record h { position = p });
  read = λ h n. some (
    slice h.content h.position (read_some h n),
    record h { position = h.position + read_some h n },
  );
  write = λ h bs. some (
    length bs,
    record h { content = patch h.content h.position bs; position = h.position + length bs },
  );
}

pub read_some-le : (h : HostFile) (n : ℕ) → read_some h n ≤ n
read_some-le h n = ground arith

pub some-inj : {A : Type 0} {x y : A} → some x ≡ some y → x ≡ y
some-inj e = cc

pub read_all : (h : HostFile) (n : ℕ) → h.position + n ≤ h.size → read_some h n ≡ n
read_all h n l = rw (le→leb (h.position + n) h.size l)

abbrev pub host-IsFile : IsFile host
host-IsFile = record {
  content = λ h. h.content;
  size = λ h. h.size;
  position = λ h. h.position;
  seek = λ h p h' e.
      let f = some-inj e in
      (ap (λ x. x.content) (sym f), ap (λ x. x.size) (sym f), ap (λ x. x.position) (sym f));
  read = λ h n bs h' e.
      let f : slice h.content h.position (read_some h n) ≡ bs = ap (λ x. x.0) (some-inj e) in
      let l : length bs ≡ read_some h n =
        ap length (sym f) ∙ length-slice h.content h.position (read_some h n) in
      (omega (arith, l, read_some-le h n), sym f ∙ ap (slice h.content h.position) (sym l));
  write = λ h bs m h' e.
      let f = some-inj e in
      let all : length bs ≡ m = ap (λ x. x.0) f in
      (
        omega (arith, all),
        ap (λ x. x.1.content) (sym f)
            ∙ ap (patch h.content h.position) (sym (take-length bs) ∙ ap (λ z. take z bs) all),
        λ l. ap (λ x. x.1.size) (sym f),
      );
}

abbrev pub host-IsComplete : IsComplete host-IsFile
host-IsComplete = record {
  seek = λ h p. (record h { position = p }, refl);
  read = λ h n l. (
    slice h.content h.position (read_some h n),
    record h { position = h.position + read_some h n },
    refl,
    length-slice h.content h.position (read_some h n) ∙ read_all h n l,
  );
  write = λ h bs l. (
    record h { content = patch h.content h.position bs; position = h.position + length bs },
    refl,
  );
}

-- A file of 100 blocks, from its last block on, where a read of two blocks is short.
abbrev pub image : HostFile
image = record { content = λ i. i; size = 51200; position = 7 }

abbrev at_end : HostFile
at_end = record image { position = 50688 }

abbrev written : HostFile
written = record image { content = patch image.content 50688 (replicate 1024 5); position = 51712 }

read_blocks-write_blocks_example :
    ((1024 < 1024) × (write_blocks host image (replicate 1024 5) (99 * block_size) 2 ≡ panic))
    ⊎ ((write_blocks host image (replicate 1024 5) (99 * block_size) 2 ≡ done written)
        × ((i : ℕ)
            → (i < 99 * block_size) ⊎ (99 * block_size + 2 * block_size ≤ i)
            → written.content i ≡ image.content i)
        × (((512 < 2 * block_size)
              × (read_blocks host written (2 * block_size) (99 * block_size) 2 ≡ panic))
            ⊎ (read_blocks host written (2 * block_size) (99 * block_size) 2
                ≡ done (replicate 1024 5, record written { position = 51200 }))))
unfolding slice read_blocks write_blocks
read_blocks-write_blocks_example =
    read_blocks-write_blocks host-IsFile image at_end written (record written { position = 50688 })
      (record written { position = 51200 }) (replicate 1024 5) (slice written.content 50688 512)
      1024 2 99 2 (length-replicate {A = ℕ} 1024 5) refl refl refl refl
