-- ===== src/Task/Sched.antt =====
-- The round-robin scheduler of kernel/task/sched.c. Its static tables and the `volatile` globals
-- that the interrupt stubs read are the fields of one record.
pub mod Pick
pub mod Invariant
pub mod Lifecycle
pub mod Fair
pub mod Pids
use rtjn_kernel.Prelude.{
  ℕ, zero, suc, ◌+◌, ◌-◌, ◌*◌, ◌%◌, ◌^◌, List, [], ◌∷◌, Option, none, some, Bool, true, false, ◌&&◌,
  ◌||◌, ◌==◌, ◌!=◌, not, if◌then◌else◌, get_or, set, replicate, length,
}
use rtjn_kernel.Prelude.Bits.{u32}
use rtjn_kernel.Text.{strcpy, strncpy}

abbrev pub max_tasks : ℕ
max_tasks = 8

abbrev pub kstack_size : ℕ
kstack_size = 4096

abbrev pub name_size : ℕ
name_size = 16

pub data TaskState : Type 0 where
  empty runnable running zombie : TaskState

abbrev pub is_runnable : TaskState → Bool
is_runnable runnable = true
is_runnable _ = false

abbrev pub is_running : TaskState → Bool
is_running running = true
is_running _ = false

abbrev pub is_empty : TaskState → Bool
is_empty empty = true
is_empty _ = false

abbrev pub is_zombie : TaskState → Bool
is_zombie zombie = true
is_zombie _ = false

-- `state != S_EMPTY && state != S_ZOMBIE`
abbrev pub is_live : TaskState → Bool
is_live st = not (is_empty st) && not (is_zombie st)

-- `task_t`
pub record Task : Type 0 where
  pub pid : ℕ
  pub name : List ℕ
  pub state : TaskState
  pub saved_esp : ℕ
  pub kstack_top : ℕ
  pub kstack_bot : ℕ
  pub entry : ℕ
  pub user_esp : ℕ

-- What `bzero` leaves of a task.
abbrev pub blank : Task
blank = record {
  pid = 0;
  name = replicate name_size 0;
  state = empty;
  saved_esp = 0;
  kstack_top = 0;
  kstack_bot = 0;
  entry = 0;
  user_esp = 0;
}

-- `regs_t`, the frame that the interrupt stubs push and pop.
pub record Regs : Type 0 where
  pub gs : ℕ
  pub fs : ℕ
  pub es : ℕ
  pub ds : ℕ
  pub edi : ℕ
  pub esi : ℕ
  pub ebp : ℕ
  pub esp : ℕ
  pub ebx : ℕ
  pub edx : ℕ
  pub ecx : ℕ
  pub eax : ℕ
  pub int_no : ℕ
  pub err_code : ℕ
  pub eip : ℕ
  pub cs : ℕ
  pub eflags : ℕ
  pub useresp : ℕ
  pub ss : ℕ

abbrev pub sizeof_regs : ℕ
sizeof_regs = 76

abbrev pub user_code : ℕ
user_code = 0x23

abbrev pub user_data : ℕ
user_data = 0x2b

-- `top_frame` holds, for each kernel stack, the frame that stands at its top; `esp0` is the TSS
-- field; `kstacks` is the address of `g_kstacks`.
pub record Sched : Type 0 where
  pub tasks : List Task
  pub top_frame : List (Option Regs)
  pub kstacks : ℕ
  pub cur : ℕ
  pub rr : ℕ
  pub enabled : Bool
  pub next_pid : ℕ
  pub cur_esp : ℕ
  pub next_esp : ℕ
  pub force_switch : Bool
  pub active : Bool
  pub esp0 : ℕ

abbrev pub task : Sched → ℕ → Task
task s i = get_or s.tasks i blank

abbrev pub state_of : Sched → ℕ → TaskState
state_of s i = (task s i).state

-- The first loop of `sched_pick`, at `step` with `left` rounds to go.
unfoldable pub pick_runnable : Sched → ℕ → ℕ → Option ℕ
pick_runnable s step zero = none
pick_runnable s step (suc left) =
    let rest = pick_runnable s (step + 1) left in
    let i = (s.rr + step) % max_tasks in if is_runnable (state_of s i) then some i else rest

-- The second loop.
unfoldable pub pick_live : Sched → ℕ → ℕ → Option ℕ
pick_live s step zero = none
pick_live s step (suc left) =
    let rest = pick_live s (step + 1) left in
    let i = (s.rr + step) % max_tasks in if is_live (state_of s i) then some i else rest

abbrev pub fall_back : Option ℕ → ℕ → ℕ
fall_back (some i) cur = i
fall_back none cur = cur

-- The slot, and the new `g_rr`.
unfoldable pub sched_pick : Sched → ℕ × ℕ
unfolding pick_runnable pick_live
sched_pick s = elim (pick_runnable s 0 max_tasks) [
  | some i ↦ (i, (i + 1) % max_tasks)
  | none ↦ (fall_back (pick_live s 0 max_tasks) s.cur, s.rr)
]

-- The initial frame of a task, and the task with its `saved_esp`.
unfoldable pub sched_build_initial_frame : Task → Regs × Task
sched_build_initial_frame t = (
  record {
    gs = user_data;
    fs = user_data;
    es = user_data;
    ds = user_data;
    edi = 0;
    esi = 0;
    ebp = 0;
    esp = t.user_esp;
    ebx = 0;
    edx = 0;
    ecx = 0;
    eax = 0;
    int_no = 0;
    err_code = 0;
    eip = t.entry;
    cs = user_code;
    eflags = 0x202;
    useresp = t.user_esp;
    ss = user_data;
  },
  record t { saved_esp = u32 (t.kstack_top + 2 ^ 32 - sizeof_regs) },
)

-- "kernel"
abbrev kernel_name : List ℕ
kernel_name = 107 ∷ 101 ∷ 114 ∷ 110 ∷ 101 ∷ 108 ∷ 0 ∷ []

unfoldable pub sched_init : Sched → Sched
unfolding strcpy
sched_init s = record s {
  tasks =
      record blank { name = strcpy (replicate name_size 0) kernel_name; state = running }
      ∷ replicate (max_tasks - 1) blank;
  cur = 0;
  rr = 1;
  enabled = true;
  active = true;
  esp0 = u32 (s.kstacks + kstack_size);
}

-- The first slot that is empty or a zombie.
unfoldable pub free_slot : List Task → ℕ → Option ℕ
free_slot [] i = none
free_slot (t ∷ ts) i =
    if is_empty t.state || is_zombie t.state then some i else free_slot ts (i + 1)

abbrev pub new_task : Sched → ℕ → List ℕ → ℕ → ℕ → Task
new_task s slot name entry user_esp =
    let bot = u32 (s.kstacks + slot * kstack_size) in
    record {
      pid = s.next_pid;
      name = set (strncpy (replicate name_size 0) name (name_size - 1)) (name_size - 1) 0;
      state = runnable;
      saved_esp = 0;
      kstack_top = u32 (bot + kstack_size);
      kstack_bot = bot;
      entry = entry;
      user_esp = user_esp;
    }

-- The new state, and the pid; `none` is the -1.
unfoldable pub sched_add : List ℕ → ℕ → ℕ → Sched → Option ℕ × Sched
unfolding free_slot sched_build_initial_frame
sched_add name entry user_esp s = elim (free_slot s.tasks 0) [
  | none ↦ (none, s)
  | some slot ↦
      let (frame, t) = sched_build_initial_frame (new_task s slot name entry user_esp) in
      (
        some s.next_pid,
        record s {
          tasks = set s.tasks slot t;
          top_frame = set s.top_frame slot (some frame);
          next_pid = u32 (s.next_pid + 1);
        },
      )
]

abbrev pub set_state : TaskState → Task → Task
set_state st t = record t { state = st }

-- The end of a switch: `next` becomes the running task. `ts` has the old task's changes.
abbrev pub switch_to : Sched → List Task → ℕ → ℕ → Sched
switch_to s ts next rr =
    let t = get_or ts next blank in
    record s {
      tasks = set ts next (set_state running t);
      rr = rr;
      esp0 = if t.kstack_top != 0 then t.kstack_top else s.esp0;
      next_esp = t.saved_esp;
      cur = next;
    }

-- The current task with its frame pointer saved, as `sched_tick` leaves it before the pick.
abbrev pub save_current : Sched → Sched
save_current s = record s {
  tasks = set s.tasks s.cur (record (task s s.cur) { saved_esp = s.cur_esp });
}

-- `sched_tick` after the pick of `next`; `s` has the current task saved.
abbrev pub tick_to : Sched → ℕ × ℕ → Sched
tick_to s (next, rr) =
    let was_running = is_running (state_of s s.cur) in
    let old = if was_running then set_state runnable (task s s.cur) else task s s.cur in
    if next == s.cur && was_running
    then record s { rr = rr; next_esp = (task s s.cur).saved_esp }
    else switch_to s (set s.tasks s.cur old) next rr

unfoldable pub sched_tick : Sched → Sched
unfolding sched_pick
sched_tick s =
    let saved = save_current s in
    if not s.enabled then record s { next_esp = s.cur_esp } else tick_to saved (sched_pick saved)

-- `sched_yield` after the pick.
abbrev pub yield_to : Sched → ℕ × ℕ → Sched
yield_to s (next, rr) =
    let old = record (task s s.cur) { saved_esp = s.cur_esp; state = runnable } in
    if next == s.cur
    then record s { rr = rr }
    else record (switch_to s (set s.tasks s.cur old) next rr) { force_switch = true }

unfoldable pub sched_yield : Sched → Sched
unfolding sched_pick
sched_yield s = if not s.enabled then s else yield_to s (sched_pick s)

-- `sched_exit` after the pick; `none` is the loop on `hlt` that never returns.
abbrev pub exit_to : Sched → ℕ × ℕ → Option Sched
exit_to s (next, rr) =
    if next == s.cur
    then none
    else some (record (switch_to s s.tasks next rr) { force_switch = true })

unfoldable pub sched_exit : Sched → Option Sched
unfolding sched_pick
sched_exit s =
    let dead = record s { tasks = set s.tasks s.cur (set_state zombie (task s s.cur)) } in
    if not s.enabled then some s else exit_to dead (sched_pick dead)

unfoldable pub sched_pid : Sched → ℕ
sched_pid s = (task s s.cur).pid

unfoldable pub sched_count : List Task → ℕ
sched_count [] = 0
sched_count (t ∷ ts) = (if is_empty t.state then 0 else 1) + sched_count ts

unfoldable pub sched_alive : ℕ → List Task → Bool
sched_alive pid [] = false
sched_alive pid (t ∷ ts) = if t.pid == pid && is_live t.state then true else sched_alive pid ts
