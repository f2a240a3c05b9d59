-- ===== src/Ext2.antt =====
-- src/ext2_fs.c: the disk cache (Cache), inodes with their block map on top of it (Inodes), the contents of
-- files (Files), and directories (Directories, Nodes).
pub mod Cache
pub mod Inodes
pub mod Files
pub mod Directories
pub mod Nodes
pub mod Walks
pub mod Names
pub mod Finding
pub mod NewEntry
pub mod Insertion
pub mod Flags
mod Tests
