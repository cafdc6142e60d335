-- ===== src/Tests.antt =====
-- Concrete inputs at which the theorems are applied, one module for each part.
pub mod Bpb
pub mod Entry
pub mod Names
pub mod Fat
pub mod Fs
pub mod Vfs
pub mod Io
pub mod File
pub mod Dir
pub mod BlockFile
pub mod Cache
pub mod Shell
pub mod Grow
