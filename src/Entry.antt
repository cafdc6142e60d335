-- ===== src/Entry.antt =====
-- src/entry.rs: what the two kinds of directory entry share. `Short` and `Long` are the kinds.
pub mod Short
pub mod Long
use fat32_rs.Base.{ℕ, List}

abbrev pub attr_read_only : ℕ
attr_read_only = 0x01

abbrev pub attr_hidden : ℕ
attr_hidden = 0x02

abbrev pub attr_system : ℕ
attr_system = 0x04

abbrev pub attr_volume_id : ℕ
attr_volume_id = 0x08

abbrev pub attr_directory : ℕ
attr_directory = 0x10

abbrev pub attr_archive : ℕ
attr_archive = 0x20

-- The four low attributes together.
abbrev pub attr_long_name : ℕ
attr_long_name = 0x0F

abbrev pub dirent_size : ℕ
dirent_size = 32

abbrev pub dir_entry_unused : ℕ
dir_entry_unused = 0xE5

abbrev pub dir_entry_last_and_unused : ℕ
dir_entry_last_and_unused = 0x00

abbrev pub last_long_entry : ℕ
last_long_entry = 0x40

abbrev pub space : ℕ
space = 0x20

-- `VirtFileType` of src/vfs.rs
pub data VirtFileType : Type 0 where
  dir file : VirtFileType
