-- ===== src/Task.antt =====
-- Tasks: kernel/task.
pub mod Sched
pub mod Syscall
mod Tests
