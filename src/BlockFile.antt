-- ===== src/BlockFile.antt =====
-- examples/fat32-fs-std/src/device.rs: `BlockFile`, a block device over a file of the host. The file,
-- std::fs::File, is a parameter: a record of what is called of it, where nothing stands for an error.
pub mod Device
pub mod Whole
use fat32_rs.Base.{
  ℕ, ◌*◌, ◌%◌, ◌==◌, Option, none, some, List, length, Outcome, done, panic, out_of_fuel, guard,
  unwrap, ◌>>=◌, ◌>>◌,
}
use fat32_rs.Bytes.{Bytes, of_list, slice}
use fat32_rs.Disk.{block_size}
use fat32_rs.Cache.{BlockDevice}

-- `seek` from the start of the file; `read` into a buffer of that many bytes, with the bytes read;
-- `write`, with the number of bytes written.
pub record StdFile (H : Type 0) : Type 0 where
  pub seek : H → ℕ → Option H
  pub read : H → ℕ → Option (List ℕ × H)
  pub write : H → List ℕ → Option (ℕ × H)

module _ {H : Type 0} (std : StdFile H) where
  -- The bytes of a buffer of `len` bytes, and the file, whose position has moved.
  unfoldable pub read_blocks : H → ℕ → ℕ → ℕ → Outcome (List ℕ × H)
  read_blocks file len offset block_cnt = do
    guard (offset % block_size == 0)
    guard (len % block_size == 0)
    file1 ← unwrap (std.seek file offset)
    (buf, file2) ← unwrap (std.read file1 len)
    guard (length buf == len)
    done (buf, file2)

  unfoldable pub write_blocks : H → List ℕ → ℕ → ℕ → Outcome H
  write_blocks file buf offset block_cnt = do
    guard (offset % block_size == 0)
    guard (length buf % block_size == 0)
    file1 ← unwrap (std.seek file offset)
    (written, file2) ← unwrap (std.write file1 buf)
    guard (written == length buf)
    done file2

  -- What the cache sees of a call: it unwraps each result, and a panic ends the program too.
  unfoldable pub bytes_read : Outcome (List ℕ × H) → Option Bytes
  bytes_read (done r) = some (of_list r.0)
  bytes_read panic = none
  bytes_read out_of_fuel = none

  unfoldable pub file_written : Outcome H → Option H
  file_written (done file) = some file
  file_written panic = none
  file_written out_of_fuel = none

  -- `impl BlockDevice for BlockFile`, with buffers of `block_cnt` blocks. The position that a read leaves
  -- is dropped: each call seeks first.
  abbrev pub block_file : BlockDevice H
  block_file = record {
    read_blocks = λ file offset block_cnt.
        bytes_read (read_blocks file (block_cnt * block_size) offset block_cnt);
    write_blocks = λ file bytes offset block_cnt.
        file_written (write_blocks file (slice bytes 0 (block_cnt * block_size)) offset block_cnt);
  }
