-- ===== src/Lib.antt =====
-- fat32-rs: a FAT32 file system over a block device.
--
-- The program. A block device (src/device.rs) is read and written through cached blocks of 512 bytes
-- (src/cache.rs). The boot sector and the FSInfo sector say how the volume is laid out and how many
-- clusters are free (src/bpb.rs). The file allocation table links the clusters of a file to a chain
-- (src/fat.rs). A file system (src/fs.rs) holds the layout, the table and the count, creates or opens
-- a volume, and allocates and frees clusters. A directory is a file of 32-byte entries, short ones and
-- long ones (src/entry.rs), whose names src/lib.rs cuts, shortens and formats. Virtual files, the
-- traits File and Dir (src/vfs.rs, src/file.rs, src/dir.rs) stand on all of these. An example program
-- (examples/fat32-fs-std) is a shell over a device that is a file of the host.
--
-- The files.
--   Base: arithmetic tests, lists, and `Outcome`: what a run of the code ends in, a value, a panic
--     or the end of the fuel.
--   Bytes: blocks as functions from addresses to bytes; read_le_u16, read_le_u32 of src/lib.rs and
--     the stores through a pointer.
--   Disk: `read` and `modify` of a cached block (src/cache.rs: get_ref, get_mut), with its bounds
--     assertion. A disk gives the bytes of every block.
--   Cache: the cached blocks and their manager (src/cache.rs) over a device (src/device.rs) and an LRU
--     cache, both parameters; Cache/Laws: what is relied on of these; Cache/View, Cache/Evict,
--     Cache/Load, Cache/Handle, Cache/Access: the manager shows one disk, so that Disk stands for it;
--     Cache/Sync: sync_all; Cache/Reach: the states that calls reach from a new manager.
--   Text: characters, UTF-8 and UTF-16 of Rust's standard library, as the source uses them.
--   Entry: the constants of src/lib.rs on entries, and VirtFileType of src/vfs.rs. Entry/Short and
--     Entry/Long: ShortDirEntry and LongDirEntry of src/entry.rs; Entry/Short/Fields and
--     Entry/Short/Codec, Entry/Long/Laws: their theorems; Entry/Short/Strings, Entry/Long/Utf8: names
--     as arrays of bytes.
--   Names: the functions of src/lib.rs on names; Names/Split, Names/Short and
--     Names/Pieces: their theorems.
--   Bpb: BIOSParameterBlock and FSInfo of src/bpb.rs; Bpb/Codec: their bytes; Bpb/Geometry: the
--     places of the clusters.
--   Fat: FATManager of src/fat.rs; Fat/Entries: the table as an array; Fat/Walk: walks of a chain;
--     Fat/Search: the search for a free cluster; Fat/Cursor: ClusterChain, with
--     Iterate on what it visits.
--   Fs: FileSystem of src/fs.rs; Fs/Shape: a mounted volume; Fs/Clear, Fs/Pool, Fs/Alloc (with
--     Step and Loop), Fs/Dealloc, Fs/Needed, Fs/Create: theorems on its operations.
--   Vfs: VirtFile of src/vfs.rs and its entry on disk; Vfs/Chain: the places of its bytes, growth,
--     shrinking, removal and stat; Vfs/Io: read_at and write_at; Vfs/Fields: theorems on the entry;
--     Vfs/Extend, Vfs/Grow: on growth (Grow/First and Grow/Start: of a file without clusters;
--     Grow/Room: of one with clusters, whether it needs more or not);
--     Vfs/Clear: on removal. Under Vfs/Io, Copy: the bytes of a file in its clusters; Walk: the way to
--     a cluster; Read, Clusters, ReadAt: what is read; Apart: clusters do not overlap; Write,
--     WriteBlocks, WriteClusters, WriteAt: what is written; Stored: both.
--   File: read and write of src/file.rs; File/Blocks, File/Read, File/Unused: what is read;
--     File/Write, File/Start, File/Room: what is written.
--   Dir: directories of src/dir.rs, with the search for an empty slot; Dir/Find: find_by_sfn,
--     find_by_lfn, find_by_name, find; Dir/Listing: ls, and dir_info of src/vfs.rs; Dir/Create: create
--     and remove; Dir/Slots, Dir/Place, Dir/Own: theorems on the searches.
--   BlockFile: the device of examples/fat32-fs-std/src/device.rs over a file of the host, which is a
--     parameter; BlockFile/Device: blocks of it, and short calls of the host;
--     BlockFile/Whole: where no call is short, a device as Cache/Laws says.
--   Shell: the example shell of examples/fat32-fs-std/src/main.rs: its variables, and what it tells;
--     Shell/Words: words, numbers and PATH; Shell/Show, Shell/Store, Shell/Format: the commands;
--     Shell/Run: a round, the loop and fs_pack; Shell/Cut, Shell/Prompt: theorems on PATH; Shell/Keeps,
--     Shell/Reach: PATH in the states that the loop reaches.
--   Tests: the theorems at concrete inputs.
--
-- State and operations. A method is a function with the source's name, that takes the state and
-- returns it changed; `open` is `open_fs` and FATManager's `new` and `open` are `new_fat` and
-- `open_fat`. The device and its caches are one disk, passed along. An assert, an index out of range,
-- an `unwrap` of None and a division by zero are `panic`. u8, u16, u32 and usize (64 bits) wrap as a
-- release build does, where a value can leave its range; a field's range is a hypothesis (`IsVolume`,
-- `IsEntry`). The place and the length given to read_at, write_at and the searches of a directory are
-- taken to end below 2 ^ 64. A buffer that is filled is the list of the bytes put into its front.
--
-- Fuel. `find_blank_cluster` and the walks of a chain loop as long as the table tells them to. Each
-- takes fuel, one unit for each block or cluster visited. The theorems say how much is enough: more
-- than the clusters of the chain for a walk, the distance to a free cluster for the search, and the
-- entries of one table for `alloc_cluster`. A search of a directory takes two fuels, one for its
-- slots and one for the chain that each `read_at` walks. A round of `clear_cluster`, `dealloc_cluster` and
-- `get_cluster_at` is counted by an argument and needs none.
--
-- Not modelled. The locks: an operation runs alone. The global manager of cached blocks: the modules
-- above Cache stand on Disk, in which a block that is modified is read back as modified. The second
-- table, which the source never writes. Of the
-- example shell the parser of the program's arguments, the clock and the texts of its messages; a file
-- that it has found is an object of its own.
-- The Debug output of src/entry.rs and src/fat.rs.
pub mod Base
pub mod Bytes
pub mod Disk
pub mod Text
pub mod Entry
pub mod Names
pub mod Cache
pub mod BlockFile
pub mod Bpb
pub mod Fat
pub mod Fs
pub mod Vfs
pub mod File
pub mod Dir
pub mod Shell
pub mod Tests
