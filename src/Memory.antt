-- ===== src/Memory.antt =====
-- Physical and virtual memory: include/memory.h and kernel/mm.
pub mod Bitmap
pub mod Frames
mod Tests
