-- ===== src/Lib.antt =====
-- A verification library for the rtjn kernel, a 32-bit x86 kernel: its memory, its scheduler, its
-- string library, its network stack, its file layer and its console, as functions on explicit
-- state with the theorems that make them correct.
--
-- The parts and how they meet. kernel/mm/pmm.c hands out 4 KiB frames from a bitmap, sized from the
-- multiboot memory map. kernel/task/sched.c switches between eight tasks at the timer interrupt and
-- at the yield and exit calls; the interrupt stubs pass it the saved stack pointer and return on
-- the one that it leaves. kernel/dev/keyboard.c turns scancodes into globals, from which
-- kernel/shell/readline.c edits a line that it draws through kernel/lib/term.c and takes old lines
-- for from the history in kernel/shell/commands.c. kernel/net/network.c receives frames from the
-- card's driver and sends them through it. All of them use kernel/lib/string.c.
--
-- The files:
--   Prelude: tests, lists, single bits and signed integers that the other files share.
--   Memory/Bitmap: mmap_set, mmap_unset, mmap_test (include/memory.h).
--   Memory/Frames: kernel/mm/pmm.c and kernel/mm/get_mem_max_addr.c. The record Frames is the
--     `_pm_*` globals. Search, Count, Alloc, Blocks, Runs and Init hold the proofs.
--   Text: kernel/lib/string.c. A buffer is the list of its bytes. Copy, Compare and Move hold the
--     proofs; Text/Number is its decimal numbers.
--   Task/Sched: kernel/task/sched.c with the structures of include/sched.h and include/io.h. The
--     record Sched is its statics and the globals that the stubs read; a halt is `none`.
--   Task/Syscall: kernel/task/syscall.c, over the records of the scheduler and the screen; the
--     memory of the task is a parameter.
--   Net/Address, Net/Checksum, Net/Arp, Net/Ipv4: kernel/net/network.c from the addresses to the
--     dispatch of IPv4 packets, with the state in Net/State.
--   Console/Term: kernel/lib/term.c. Console/Keyboard: kernel/dev/keyboard.c. Console/History: the
--     history part of kernel/shell/commands.c. Console/Readline: kernel/shell/readline.c, with one
--     round of its loop in Console/Readline/Loop.
--   Files/Path and Files/Open: kernel/fs/vfs.c. What the function pointers of a node do, and the
--     creation of a file, are parameters; a node is of any type.
--   Files/Ext2: kernel/fs/ext2.c with include/ext2.h. The record Ext2 is the mounted file system;
--     Read is the data of a file, Lookup the search of a directory, Alloc the bitmaps, Write the data
--     that a file gets, Release the blocks that it gives back.
--   Editors/Document: the line buffer of kernel/shell/editors.c and nano's edits in it, over the loops
--     in Editors/Rows; Line, Valid, Keep, Flat, Break, Join and Refine hold the proofs.
--   Editors/Nano: cmd_nano, with its events, its files and its keys; the calls of kernel/fs/vfs.c that
--     it makes are the record Vfs, of which nothing is assumed but, in Editors/Nano/Reload, what the
--     reads of one load give.
--   Editors/Vi: the edits of vi over the same buffer: Delete and Range its deletions, Motion and Find
--     its motions and searches, Change the other edits with the undo, Operator the operators.
--
-- How the code is read. A C array is a list, indexed by native numbers: a read out of range gives
-- the default that the model names, a write out of range is lost. A `uint32_t` keeps its
-- wrap-around as a remainder by 2 ^ 32. A pointer that may be null and a result of -1 are options.
-- Static variables are the fields of the component's record, and a function that changes them
-- returns the new record. Null strings and formats with a variable number of arguments are outside
-- the model. Where the code goes on behind or in front of an array, the model does not follow it: the
-- type Ext2 has only file systems whose blocks fit the buffers of 4096 bytes, what an overrun of the
-- buffer gd_buf makes of the drive is a parameter, and a vi motion to a negative row gives none.
--
-- Loops are structural recursion on the rounds left: the words and bits of the bitmap, the eight
-- slots of the scheduler, the cells of the screen. Some have fuel. The carry loop of the checksum
-- takes three rounds, which Net/Checksum shows to be enough for every 32-bit sum. A tab writes at
-- most three blanks behind its first, which Console/Term/Screen shows to be enough. The wait of
-- arp_resolve counts the polls of the card, and Net/Arp/Resolve bounds them by the clock. A poll,
-- with the interrupts that come during it, is a parameter of that code: it reads the card. The loop
-- over the components of a path has one round more than the path has bytes, and Files/Path/Walk
-- shows that the names of a path need no more. The loops of itoa_buf have ten and eleven rounds, one
-- for each digit that an int can have and the test that ends them, which the round trip with atoi
-- in Text/Number/Parse needs. The loop of reads in nano_load_file has fuel, one for each read that the
-- file layer answers. So has the loop of vi_substitute_line, for which Editors/Vi/Change/Substitute
-- shows when it ends. The loops of ext2_read_data and ext2_write_data have a round for each byte,
-- which Files/Ext2/Read and Files/Ext2/Write/Fuel show to be enough. The entries of a directory have a
-- round for each byte of a chunk, and its chunks one for each byte of the directory: every round but
-- the last moves on by a byte or more.
--
-- Not modelled: the code that only drives hardware or draws (the framebuffer, the disk, USB, PCI and
-- network card drivers, the descriptor tables), the boot assembly and the user programs; and
-- virtual memory and the heap, the user tasks, the transports of the network stack, the directories
-- that ext2 writes and the files it removes, the shell's commands and the rest of vi, which the parts
-- above do not call or meet only at a parameter.
mod Prelude
pub mod Memory
pub mod Text
pub mod Task
pub mod Net
pub mod Console
pub mod Files
pub mod Editors
