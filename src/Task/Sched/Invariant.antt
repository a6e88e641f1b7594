-- ===== src/Task/Sched/Invariant.antt =====
-- The scheduler's invariant: one task is running, the current one.
use rtjn_kernel.Prelude.{
  ℕ, ◌<◌, ◌≡◌, refl, arith, true, false, Bool-cases, inl, inr, get_or, set, ◌∙◌, ap, length,
  length-set, get_or-set, ◌==◌, not, if_intro, if◌then◌else◌, List,
}
use rtjn_kernel.Task.Sched.{
  Sched, Task, TaskState, runnable, running, empty, zombie, is_runnable, is_running, is_live,
  state_of, task, max_tasks, blank, set_state, switch_to, save_current, tick_to, yield_to,
  sched_tick, sched_yield, sched_pick,
}
use rtjn_kernel.Task.Sched.Pick.{Choice, next_runnable, any_live, nobody, sched_pick-Choice}
use mathlib.Core.Path.{sym}

pub record IsValid (s : Sched) : Type 0 where
  pub size : length s.tasks ≡ max_tasks
  pub cur_in : s.cur < max_tasks
  pub rr_in : s.rr < max_tasks
  pub current : state_of s s.cur ≡ running
  pub alone : (i : ℕ) → state_of s i ≡ running → i ≡ s.cur

-- Live and not runnable is running.
pub running_of : (st : TaskState) → is_live st ≡ true → is_runnable st ≡ false → st ≡ running
running_of empty l r = cc
running_of runnable l r = cc
running_of running l r = refl
running_of zombie l r = cc

-- The states after a switch from slot `a` to slot `b`.
pub switched :
    (ts : List Task) (a b j : ℕ) (old new : Task)
    → a < length ts
    → b < length ts
    → (get_or (set (set ts a old) b new) j blank)
      ≡ (if b == j then new else if a == j then old else get_or ts j blank)
switched ts a b j old new ha hb = ground (
  arith,
  get_or-set (set ts a old) b j new blank (omega (arith, length-set ts a old)),
  get_or-set ts a j old blank ha,
)

-- A switch from the current task, left in a state other than running, to `next` keeps the
-- invariant.
pub switch-IsValid :
    (s : Sched) (old : Task) (next rr : ℕ)
    → length s.tasks ≡ max_tasks
    → s.cur < max_tasks
    → ((i : ℕ) → state_of s i ≡ running → i ≡ s.cur)
    → next < max_tasks
    → rr < max_tasks
    → is_running old.state ≡ false
    → IsValid (switch_to s (set s.tasks s.cur old) next rr)
switch-IsValid s old next rr size cur_in alone hn hr stops = record {
  size = length-set (set s.tasks s.cur old) next _ ∙ length-set s.tasks s.cur old ∙ size;
  cur_in = hn;
  rr_in = hr;
  current = ap (λ (t : Task). t.state) (at next) ∙ ground arith;
  alone = λ i e. ground (arith, at i, alone i);
}
  where
    new : Task
    new = set_state running (get_or (set s.tasks s.cur old) next blank)

    at :
        (i : ℕ)
        → get_or (set (set s.tasks s.cur old) next new) i blank
          ≡ (if next == i then new else if s.cur == i then old else get_or s.tasks i blank)
    at i = switched s.tasks s.cur next i old new (omega (arith, size)) (omega (arith, size))

pub Choice-in_range :
    (s : Sched) (p : ℕ × ℕ)
    → s.cur < max_tasks
    → s.rr < max_tasks
    → Choice s p
    → (p.0 < max_tasks) × (p.1 < max_tasks)
Choice-in_range s _ hc hr (next_runnable i k e q t b) = omega arith
Choice-in_range s _ hc hr (any_live i p t b) = (p, hr)
Choice-in_range s _ hc hr (nobody b) = (hc, hr)

-- sched_yield keeps the scheduler's invariant.
pub sched_yield-IsValid : (s : Sched) → IsValid s → IsValid (sched_yield s)
unfolding sched_yield
sched_yield-IsValid s v =
    if_intro IsValid (not s.enabled) (λ _. v)
      (λ _. go (sched_pick s) (Choice-in_range s _ v.cur_in v.rr_in (sched_pick-Choice s v.rr_in)))
  where
    go : (p : ℕ × ℕ) → (p.0 < max_tasks) × (p.1 < max_tasks) → IsValid (yield_to s p)
    go (next, rr) (hn, hr) = elim (Bool-cases (next == s.cur)) [
      | inl same ↦ rw same (record {
        size = v.size;
        cur_in = v.cur_in;
        rr_in = hr;
        current = v.current;
        alone = v.alone;
      })
      | inr other ↦
          let w =
            switch-IsValid s (record (task s s.cur) { saved_esp = s.cur_esp; state = runnable })
              next rr v.size v.cur_in v.alone hn hr refl in
          rw other (record {
            size = w.size;
            cur_in = w.cur_in;
            rr_in = w.rr_in;
            current = w.current;
            alone = w.alone;
          })
    ]

-- Saving the frame pointer changes no state.
pub state_of-save_current :
    (s : Sched) (i : ℕ) → s.cur < length s.tasks → state_of (save_current s) i ≡ state_of s i
state_of-save_current s i h =
    ground
      (arith, get_or-set s.tasks s.cur i (record (task s s.cur) { saved_esp = s.cur_esp }) blank h)

pub save_current-IsValid : (s : Sched) → IsValid s → IsValid (save_current s)
save_current-IsValid s v = record {
  size = length-set s.tasks s.cur _ ∙ v.size;
  cur_in = v.cur_in;
  rr_in = v.rr_in;
  current = state_of-save_current s s.cur inside ∙ v.current;
  alone = λ i e. v.alone i (sym (state_of-save_current s i inside) ∙ e);
}
  where
    inside : s.cur < length s.tasks
    inside = omega (arith, v.size, v.cur_in)

tick_to-IsValid :
    (s : Sched) (p : ℕ × ℕ)
    → IsValid s
    → (p.0 < max_tasks) × (p.1 < max_tasks)
    → IsValid (tick_to s p)
tick_to-IsValid s (next, rr) v (hn, hr) = elim (Bool-cases (next == s.cur)) [
  | inl same ↦
      rw (same, v.current)
        (record {
          size = v.size;
          cur_in = v.cur_in;
          rr_in = hr;
          current = v.current;
          alone = v.alone;
        })
  | inr other ↦
      rw (other, v.current)
        (switch-IsValid s (set_state runnable (task s s.cur)) next rr v.size v.cur_in v.alone hn hr
          refl)
]

-- The timer tick keeps the scheduler's invariant: eight slots, indices in range, and the current
-- task is the only running one.
pub sched_tick-IsValid : (s : Sched) → IsValid s → IsValid (sched_tick s)
unfolding sched_tick
sched_tick-IsValid s v =
    if_intro IsValid (not s.enabled)
      (λ _. record {
        size = v.size;
        cur_in = v.cur_in;
        rr_in = v.rr_in;
        current = v.current;
        alone = v.alone;
      })
      (λ _.
        let w = save_current-IsValid s v in
        tick_to-IsValid (save_current s) (sched_pick (save_current s)) w (
          Choice-in_range (save_current s) _ w.cur_in w.rr_in
            (sched_pick-Choice (save_current s) w.rr_in)))
