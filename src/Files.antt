-- ===== src/Files.antt =====
-- kernel/fs/vfs.c: paths and the table of open files.
pub mod Path
pub mod Open
pub mod Ext2
mod Tests
