-- ===== src/Task/Tests.antt =====
-- A scheduler with three tasks, and the theorems at that input.
use rtjn_kernel.Prelude.{
  ℕ, ◌+◌, ◌≤◌, ◌≡◌, refl, arith, [], ◌∷◌, some, none, zero, suc, true, false, replicate,
  get_or-replicate, ap,
}
use rtjn_kernel.Task.Sched.{
  Sched, Task, Regs, sched_build_initial_frame, blank, runnable, running, sched_add, sched_tick,
  sched_exit, sched_pick, state_of, free_slot, max_tasks,
}
use rtjn_kernel.Task.Sched.Pick.{Choice, sched_pick-Choice}
use rtjn_kernel.Task.Sched.Invariant.{IsValid, sched_tick-IsValid}
use rtjn_kernel.Task.Sched.Lifecycle.{Added, sched_add-Added, Exited, sched_exit-Exited}
use rtjn_kernel.Task.Sched.Fair.{Saves, sched_tick-Saves, ticks, ticks-reach}
use rtjn_kernel.Task.Syscall.{Kernel, syscall_handler}
use rtjn_kernel.Task.Syscall.Serve.{Served, syscall_handler-Served}

abbrev cold : Sched
cold = record {
  tasks = [];
  top_frame = replicate max_tasks none;
  kstacks = 0x20_0000;
  cur = 0;
  rr = 0;
  enabled = false;
  next_pid = 1;
  cur_esp = 0x9_0000;
  next_esp = 0;
  force_switch = false;
  active = false;
  esp0 = 0;
}

abbrev worker : ℕ → Task
worker pid = record blank {
  pid = pid;
  state = runnable;
  saved_esp = 1000 + pid;
  kstack_top = 0x20_1000;
}

-- The kernel's task runs, and slots 1 and 3 hold runnable tasks.
abbrev busy : Sched
busy = record cold {
  tasks = record blank { state = running } ∷ worker 1 ∷ blank ∷ worker 2 ∷ replicate 4 blank;
  rr = 2;
  enabled = true;
  next_pid = 3;
}

busy-IsValid : IsValid busy
busy-IsValid = record {
  size = refl;
  cur_in = omega arith;
  rr_in = omega arith;
  current = refl;
  alone = only;
}
  where
    only : (i : ℕ) → state_of busy i ≡ running → i ≡ 0
    only zero e = refl
    only (suc zero) e = cc
    only (suc (suc zero)) e = cc
    only (suc (suc (suc zero))) e = cc
    only (suc (suc (suc (suc i)))) e = cc (ap (λ (t : Task). t.state) (get_or-replicate 4 i blank))

picks_third : sched_pick busy ≡ (3, 4)
unfolding sched_pick
picks_third = refl

sched_pick-Choice_example : Choice busy (sched_pick busy)
sched_pick-Choice_example = sched_pick-Choice busy (omega arith)

sched_tick-IsValid_example : IsValid (sched_tick busy)
sched_tick-IsValid_example = sched_tick-IsValid busy busy-IsValid

sched_add-Added_example :
    Added busy
      (115 ∷ 104 ∷ 0 ∷ [])
      0x4000_0000
      0x4001_8000
      (sched_add (115 ∷ 104 ∷ 0 ∷ []) 0x4000_0000 0x4001_8000 busy)
sched_add-Added_example =
    sched_add-Added busy (115 ∷ 104 ∷ 0 ∷ []) 0x4000_0000 0x4001_8000 busy-IsValid

adds_second : free_slot busy.tasks 0 ≡ some 2
unfolding free_slot
adds_second = refl

sched_exit-Exited_example : Exited busy (sched_exit busy)
sched_exit-Exited_example = sched_exit-Exited busy busy-IsValid refl

sched_tick-Saves_example : Saves busy (sched_tick busy)
sched_tick-Saves_example = sched_tick-Saves busy busy-IsValid refl

ticks-reach_example : (n : ℕ) × (n ≤ max_tasks) × ((ticks n busy).cur ≡ 1)
ticks-reach_example = ticks-reach busy 1 busy-IsValid refl (omega arith) refl

two_ticks : (ticks 2 busy).cur ≡ 0
unfolding ticks sched_tick
two_ticks = refl

-- A yield of the current task.
abbrev yield_call : Regs
yield_call = record (sched_build_initial_frame blank).0 { eax = 4 }

abbrev machine : Kernel
machine = record {
  sched = busy;
  term = record { row = 0; col = 0; color = 7; width = 2; height = 2; buf = replicate 4 0 };
  timer_ticks = 9;
}

syscall_handler-Served_example :
    Served yield_call machine (syscall_handler (λ _ n. replicate n 0) yield_call machine)
syscall_handler-Served_example =
    syscall_handler-Served (λ _ n. replicate n 0) yield_call machine busy-IsValid refl
