-- ===== src/Editors.antt =====
-- The text editors of kernel/shell/editors.c.
pub mod Rows
pub mod Document
pub mod Nano
pub mod Vi
mod Tests
