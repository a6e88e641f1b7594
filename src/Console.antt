-- ===== src/Console.antt =====
-- The console: kernel/lib/term.c, kernel/dev/keyboard.c and kernel/shell/readline.c.
pub mod Term
pub mod Keyboard
pub mod History
pub mod Readline
mod Tests
