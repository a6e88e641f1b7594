-- ===== src/Task/Syscall/Serve.antt =====
-- What a system call of kernel/task/syscall.c may do to the scheduler.
use rtjn_kernel.Prelude.{
  ℕ, ◌<◌, ◌≡◌, ◌≢◌, refl, List, Option, none, some, true, false, if_intro, ◌==◌, ==→≡,
}
use rtjn_kernel.Task.Sched.{Sched, Regs, sched_exit, is_live, state_of, max_tasks}
use rtjn_kernel.Task.Sched.Invariant.{IsValid, sched_yield-IsValid}
use rtjn_kernel.Task.Sched.Lifecycle.{Exited, switched, halted, sched_exit-Exited}
use rtjn_kernel.Task.Syscall.{
  Kernel, syscall_handler, exited, sys_write_no, sys_exit_no, sys_getpid_no, sys_yield_no,
  sys_ticks_no,
}

-- The ends of a system call: it comes back to a valid scheduler, and the call moved to another task
-- only if it was a yield or an exit; or it stops the machine.
pub data Served (re : Regs) (k : Kernel) : Option (Regs × Kernel) → Type 0 where
  stayed :
      (re' : Regs) (k' : Kernel)
      → IsValid k'.sched
      → k'.sched.cur ≡ k.sched.cur
      → k'.sched.force_switch ≡ false
      → Served re k (some (re', k'))
  yielded :
      (re' : Regs) (k' : Kernel)
      → re.eax ≡ sys_yield_no
      → IsValid k'.sched
      → Served re k (some (re', k'))
  left :
      (re' : Regs) (k' : Kernel)
      → re.eax ≡ sys_exit_no
      → IsValid k'.sched
      → k'.sched.cur ≢ k.sched.cur
      → Served re k (some (re', k'))
  stopped :
      re.eax ≡ sys_exit_no
      → ((i : ℕ) → i < max_tasks → i ≢ k.sched.cur → is_live (state_of k.sched i) ≡ false)
      → Served re k none

exited-Served :
    (re : Regs) (k : Kernel) (r : Option Sched)
    → re.eax ≡ sys_exit_no
    → Exited (record k.sched { force_switch = false }) r
    → Served re k (exited re (record k { sched = record k.sched { force_switch = false } }) r)
exited-Served re k _ e (switched s' ne dead valid) = left _ _ e valid ne
exited-Served re k _ e (halted alone) = stopped e alone

-- A system call on a valid and enabled scheduler comes back to a valid one and stays with the
-- calling task, with no switch forced, unless it is a yield, or an exit that goes on with
-- another task; and an exit stops the machine only when no other task is live.
pub syscall_handler-Served :
    (bytes : ℕ → ℕ → List ℕ) (re : Regs) (k : Kernel)
    → IsValid k.sched
    → k.sched.enabled ≡ true
    → Served re k (syscall_handler bytes re k)
unfolding syscall_handler
syscall_handler-Served bytes re k v on =
    let s = record k.sched { force_switch = false } in
    let valid : IsValid s = record {
      size = v.size;
      cur_in = v.cur_in;
      rr_in = v.rr_in;
      current = v.current;
      alone = v.alone;
    } in
    let n = re.eax in
    if_intro (Served re k) (n == sys_write_no) (λ _. stayed _ _ valid refl refl)
      (λ _.
        if_intro (Served re k) (n == sys_exit_no)
          (λ e.
            exited-Served re k (sched_exit s) (==→≡ n sys_exit_no e) (sched_exit-Exited s valid on))
          (λ _.
            if_intro (Served re k) (n == sys_getpid_no) (λ _. stayed _ _ valid refl refl)
              (λ _.
                if_intro (Served re k) (n == sys_yield_no)
                  (λ e. yielded _ _ (==→≡ n sys_yield_no e) (sched_yield-IsValid s valid))
                  (λ _.
                    if_intro (Served re k) (n == sys_ticks_no) (λ _. stayed _ _ valid refl refl)
                      (λ _. stayed _ _ valid refl refl)))))
