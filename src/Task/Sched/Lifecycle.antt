-- ===== src/Task/Sched/Lifecycle.antt =====
-- `sched_init`, `sched_add` and `sched_exit`: how tasks begin and end.
use rtjn_kernel.Prelude.{
  ℕ, zero, suc, ◌+◌, ◌-◌, ◌%◌, ◌≤◌, ◌<◌, ◌≡◌, ◌≢◌, refl, arith, Option, none, some, true, false,
  inl, inr, get_or, set, ◌∙◌, ap, length, length-set, get_or-set, ◌==◌, not, if_intro,
  if◌then◌else◌, ≢→==, ==_self, List, [], ◌∷◌, ◌||◌, Option-cases, take, get_or-replicate,
  replicate,
}
use rtjn_kernel.Prelude.Bits.{u32}
use rtjn_kernel.Text.{text}
use rtjn_kernel.Text.Copy.{text-strncpy-terminated}
use rtjn_kernel.Task.Sched.{
  Sched, Task, TaskState, runnable, running, empty, zombie, is_live, is_empty, is_zombie, state_of,
  task, max_tasks, blank, set_state, switch_to, exit_to, sched_exit, sched_pick, sched_add,
  sched_init, free_slot, new_task, sched_build_initial_frame, name_size,
}
use rtjn_kernel.Task.Sched.Pick.{Choice, next_runnable, any_live, nobody, sched_pick-Choice}
use rtjn_kernel.Task.Sched.Invariant.{IsValid, switch-IsValid}
use mathlib.Core.Path.{subst, sym}

-- The boot state is valid, with the kernel's task running in slot 0.
pub sched_init-IsValid : (s : Sched) → IsValid (sched_init s) × ((sched_init s).cur ≡ 0)
unfolding sched_init
sched_init-IsValid s = (
  record { size = refl; cur_in = omega arith; rr_in = omega arith; current = refl; alone = only },
  refl,
)
  where
    only : (i : ℕ) → state_of (sched_init s) i ≡ running → i ≡ 0
    only zero e = refl
    only (suc i) e = cc (ap (λ (t : Task). t.state) (get_or-replicate 7 i blank))

-- What `free_slot` finds from slot `lo` on.
abbrev Slot : List Task → ℕ → Option ℕ → Type 0
Slot ts lo none = (i : ℕ) → i < length ts → is_live (get_or ts i blank).state ≡ true
Slot ts lo (some k) =
    (lo ≤ k) × (k < lo + length ts) × (is_live (get_or ts (k - lo) blank).state ≡ false)

live_of : (st : TaskState) → (is_empty st || is_zombie st) ≡ false → is_live st ≡ true
live_of empty e = cc
live_of runnable e = refl
live_of running e = refl
live_of zombie e = cc

dead_of : (st : TaskState) → (is_empty st || is_zombie st) ≡ true → is_live st ≡ false
dead_of empty e = refl
dead_of runnable e = cc
dead_of running e = cc
dead_of zombie e = refl

free_slot-Slot : (ts : List Task) (lo : ℕ) → Slot ts lo (free_slot ts lo)
unfolding free_slot
free_slot-Slot [] lo = λ i h. absurd (omega arith)
free_slot-Slot (t ∷ ts) lo =
    if_intro (Slot (t ∷ ts) lo) (is_empty t.state || is_zombie t.state)
      (λ d.
        (omega arith, omega arith, let z : lo - lo ≡ 0 = omega arith in rw z (dead_of t.state d)))
      (λ l. step (free_slot ts (lo + 1)) (free_slot-Slot ts (lo + 1)) (live_of t.state l))
  where
    all_live :
        ((i : ℕ) → i < length ts → is_live (get_or ts i blank).state ≡ true)
        → is_live t.state ≡ true
        → (i : ℕ) → i < length (t ∷ ts)
        → is_live (get_or (t ∷ ts) i blank).state ≡ true
    all_live h l zero p = l
    all_live h l (suc i) p = h i (omega arith)

    step : (r : Option ℕ) → Slot ts (lo + 1) r → is_live t.state ≡ true → Slot (t ∷ ts) lo r
    step none h l = all_live h l
    step (some k) (a, b, d) l =
        (omega arith, omega arith, let e : k - lo ≡ suc (k - (lo + 1)) = omega arith in rw e d)

-- Where the slot is, without the offset.
Slot-free_slot :
    (ts : List Task) (k : ℕ)
    → free_slot ts 0 ≡ some k
    → (k < length ts) × (is_live (get_or ts k blank).state ≡ false)
Slot-free_slot ts k e =
    let h : Slot ts 0 (some k) = subst (Slot ts 0) e (free_slot-Slot ts 0) in
    let z : k - 0 ≡ k = omega arith in
    (omega (arith, h.1), subst (λ i. is_live (get_or ts i blank).state ≡ false) z h.2)

-- The two ends of `sched_add`.
pub data Added (s : Sched) (name : List ℕ) (entry user_esp : ℕ) : Option ℕ × Sched → Type 0 where
  added :
      (k : ℕ) (s' : Sched)
      → k < max_tasks
      → is_live (state_of s k) ≡ false
      → state_of s' k ≡ runnable
      → ((task s' k).pid ≡ s.next_pid) × (s'.next_pid ≡ u32 (s.next_pid + 1))
      → text (task s' k).name ≡ take 15 (text name)
      → ((task s' k).entry ≡ entry) × ((task s' k).user_esp ≡ user_esp)
      → ((i : ℕ) → i ≢ k → task s' i ≡ task s i)
      → IsValid s'
      → Added s name entry user_esp (some s.next_pid, s')
  refused :
      ((i : ℕ) → i < max_tasks → is_live (state_of s i) ≡ true)
      → Added s name entry user_esp (none, s)

-- On a valid scheduler sched_add turns a dead slot into a runnable task with the next pid, the
-- given entry and stack and the first 15 bytes of the name, moves the next pid on by one,
-- changes no other slot and keeps the invariant; or it refuses, with the state unchanged, when
-- all eight slots are live.
pub sched_add-Added :
    (s : Sched) (name : List ℕ) (entry user_esp : ℕ)
    → IsValid s
    → Added s name entry user_esp (sched_add name entry user_esp s)
unfolding sched_add
sched_add-Added s name entry user_esp v = elim (Option-cases (free_slot s.tasks 0)) [
  | inl e ↦
      rw (e, sched_add)
        (refused
          (λ i p. (subst (Slot s.tasks 0) e (free_slot-Slot s.tasks 0)) i (omega (arith, v.size))))
  | inr (k, e) ↦
      let (inside, dead) = Slot-free_slot s.tasks k e in
      let t = (sched_build_initial_frame (new_task s k name entry user_esp)).1 in
      let here : get_or (set s.tasks k t) k blank ≡ t =
        ground (arith, get_or-set s.tasks k k t blank inside) in
      let other : (i : ℕ) → i ≢ k → get_or (set s.tasks k t) i blank ≡ get_or s.tasks i blank =
        λ i ne. ground (arith, get_or-set s.tasks k i t blank inside) in
      rw (e, sched_add)
        (added k _ (omega (arith, v.size)) dead (ap (λ (u : Task). u.state) here)
          (ap (λ (u : Task). u.pid) here, refl)
          (ap (λ (u : Task). text u.name) here
            ∙ text-strncpy-terminated (replicate name_size 0) name 15 (omega arith))
          (ap (λ (u : Task). u.entry) here, ap (λ (u : Task). u.user_esp) here) other
          (record {
            size = length-set s.tasks k t ∙ v.size;
            cur_in = v.cur_in;
            rr_in = v.rr_in;
            current = ground (arith, other s.cur, v.current, dead);
            alone = λ i q. ground (arith, other i, here, v.alone i);
          }))
]

-- What `sched_exit` may do on a running scheduler: make the current task a zombie and switch to
-- another slot, keeping the invariant; or stop the machine, when no other task is live.
pub data Exited (s : Sched) : Option Sched → Type 0 where
  switched :
      (s' : Sched) → s'.cur ≢ s.cur → state_of s' s.cur ≡ zombie → IsValid s' → Exited s (some s')
  halted : ((i : ℕ) → i < max_tasks → i ≢ s.cur → is_live (state_of s i) ≡ false) → Exited s none

module _ (s : Sched) (v : IsValid s) where
  corpse : Task
  corpse = set_state zombie (task s s.cur)

  -- The state that `sched_exit` hands to the pick.
  abbrev ended : Sched
  ended = record s { tasks = set s.tasks s.cur corpse }

  task-ended : (i : ℕ) → task ended i ≡ (if s.cur == i then corpse else task s i)
  task-ended i = get_or-set s.tasks s.cur i corpse blank (omega (arith, v.size, v.cur_in))

  state_of-ended_cur : state_of ended s.cur ≡ zombie
  unfolding corpse
  state_of-ended_cur = ground (arith, task-ended s.cur)

  leave :
      (next rr : ℕ)
      → next ≢ s.cur
      → next < max_tasks
      → rr < max_tasks
      → Exited s (exit_to ended (next, rr))
  unfolding corpse
  leave next rr ne hn hr = rw (≢→== next s.cur ne) (
      switched _ ne
        (ground (
          arith,
          get_or-set ended.tasks next s.cur (set_state running (task ended next)) blank inside,
          state_of-ended_cur,
        ))
        (record {
          size = w.size;
          cur_in = w.cur_in;
          rr_in = w.rr_in;
          current = w.current;
          alone = w.alone;
        }))
    where
      inside : next < length ended.tasks
      inside = omega (arith, length-set s.tasks s.cur corpse, v.size)

      w : IsValid (switch_to s (set s.tasks s.cur corpse) next rr)
      w = switch-IsValid s corpse next rr v.size v.cur_in v.alone hn hr refl

  exit_to-Exited : (p : ℕ × ℕ) → Choice ended p → Exited s (exit_to ended p)
  exit_to-Exited _ (next_runnable i k e q t b) =
      leave i ((i + 1) % max_tasks)
        (λ same. ground (arith, state_of-ended_cur, ap (state_of ended) same)) (omega arith)
        (omega arith)
  exit_to-Exited _ (any_live i p t b) =
      leave i s.rr (λ same. ground (arith, state_of-ended_cur, ap (state_of ended) same)) p v.rr_in
  exit_to-Exited _ (nobody b) =
      rw (==_self s.cur) (halted (λ i p ne. ground (arith, b i p, task-ended i)))

-- sched_exit on a valid and enabled scheduler makes the current task a zombie and switches to
-- another slot, keeping the invariant; or it halts the machine, when no other task is live.
pub sched_exit-Exited : (s : Sched) → IsValid s → s.enabled ≡ true → Exited s (sched_exit s)
unfolding sched_exit corpse
sched_exit-Exited s v on =
    subst (λ b. Exited s (if not b then some s else exit_to (ended s v) (sched_pick (ended s v))))
      (sym on) (exit_to-Exited s v (sched_pick (ended s v)) (sched_pick-Choice (ended s v) v.rr_in))
