-- ===== src/Task/Syscall.antt =====
-- The system calls of kernel/task/syscall.c over the scheduler and the screen.
pub mod Serve
use rtjn_kernel.Prelude.{ℕ, List, Option, none, some, ◌==◌, false, if◌then◌else◌}
use rtjn_kernel.Console.Term.{Term, term_write}
use rtjn_kernel.Task.Sched.{Sched, Regs, sched_exit, sched_pid, sched_yield}

-- What a system call reaches.
pub record Kernel : Type 0 where
  pub sched : Sched
  pub term : Term
  pub timer_ticks : ℕ

abbrev pub sys_write_no : ℕ
sys_write_no = 1

abbrev pub sys_exit_no : ℕ
sys_exit_no = 2

abbrev pub sys_getpid_no : ℕ
sys_getpid_no = 3

abbrev pub sys_yield_no : ℕ
sys_yield_no = 4

abbrev pub sys_ticks_no : ℕ
sys_ticks_no = 5

-- The registers with a result in `eax`.
abbrev pub answer : ℕ → Regs → Regs
answer n re = record re { eax = n }

abbrev pub exited : Regs → Kernel → Option Sched → Option (Regs × Kernel)
exited re k none = none
exited re k (some s) = some (answer 0 re, record k { sched = s })

-- `bytes` is the memory of the task: the bytes at an address. `none` is the halt of `sched_exit`.
module _ (bytes : ℕ → ℕ → List ℕ) where
  unfoldable pub sys_write : ℕ → ℕ → Kernel → ℕ × Kernel
  unfolding term_write
  sys_write buf len k = (len, record k { term = term_write (bytes buf len) k.term })

  unfoldable pub syscall_handler : Regs → Kernel → Option (Regs × Kernel)
  unfolding sys_write sched_exit sched_pid sched_yield
  syscall_handler re k =
      let n = re.eax in
      let s = record k.sched { force_switch = false } in
      let q = record k { sched = s } in
      let (written, after) = sys_write re.ecx re.edx q in
      if n == sys_write_no
      then some (answer written re, after)
      else if n == sys_exit_no
      then exited re q (sched_exit s)
      else if n == sys_getpid_no
      then some (answer (sched_pid s) re, q)
      else if n == sys_yield_no
      then some (answer 0 re, record q { sched = sched_yield s })
      else if n == sys_ticks_no
      then some (answer k.timer_ticks re, q)
      else some (answer 0xffff_ffff re, q)
