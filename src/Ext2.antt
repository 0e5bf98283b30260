-- ===== src/Ext2.antt =====
-- The ext2 file system of fs/ext2/.
pub mod Layout
pub mod Super
pub mod Inode
pub mod UnpackPath
pub mod Directory
pub mod AddEntry
pub mod Lookup
pub mod File
