-- ===== src/Task/Sched/Fair.antt =====
-- The timer tick: what it does to saved frames, and that no runnable task waits longer than one
-- round.
use rtjn_kernel.Prelude.{
  ℕ, zero, suc, ◌+◌, ◌-◌, ◌%◌, ◌≤◌, ◌<◌, ◌≡◌, ◌≢◌, refl, arith, true, false, Bool-cases, inl, inr,
  get_or, set, ◌⊎◌, ◌∙◌, ap, length, length-set, get_or-set, get_or-set_self, ◌==◌, not, if_intro,
  if◌then◌else◌, ==→≡, ==→≢, ≢→==, ◌&&◌,
}
use rtjn_kernel.Task.Sched.{
  Sched, Task, runnable, running, is_runnable, is_running, state_of, task, max_tasks, blank,
  set_state, save_current, tick_to, sched_tick, sched_pick,
}
use rtjn_kernel.Task.Sched.Pick.{Choice, next_runnable, any_live, nobody, sched_pick-Choice}
use rtjn_kernel.Task.Sched.Invariant.{
  IsValid, Choice-in_range, save_current-IsValid, switched, sched_tick-IsValid,
  state_of-save_current,
}
use mathlib.Core.Path.{subst, sym}
use native.Mathlib.Decide.{dec_lt}

-- The tasks after a tick that picked `next` at a saved state `s`.
tick_to-task :
    (s : Sched) (next rr i : ℕ)
    → IsValid s
    → next < max_tasks
    → task (tick_to s (next, rr)) i ≡ (
        if next == s.cur
        then task s i
        else if next == i
        then set_state running (task s i)
        else if s.cur == i
        then set_state runnable (task s i)
        else task s i)
tick_to-task s next rr i v hn = elim (Bool-cases (next == s.cur)) [
  | inl same ↦ rw (same, v.current) refl
  | inr other ↦
      rw (other, v.current)
        (ground (
          arith,
          switched s.tasks s.cur next i (set_state runnable (task s s.cur))
              (set_state running
                (get_or (set s.tasks s.cur (set_state runnable (task s s.cur))) next blank))
              (omega (arith, v.size, v.cur_in)) (omega (arith, v.size)),
          get_or-set s.tasks s.cur next (set_state runnable (task s s.cur)) blank
              (omega (arith, v.size, v.cur_in)),
        ))
]

-- What a tick does to the saved frame pointers: the interrupted task's is the one that the
-- interrupt saved, no other moves, and the interrupt returns on the frame of the task that is
-- current afterwards.
pub record Saves (s s' : Sched) : Type 0 where
  pub parked :
      (i : ℕ) → (task s' i).saved_esp ≡ (if s.cur == i then s.cur_esp else (task s i).saved_esp)
  pub resumed : s'.next_esp ≡ (task s' s'.cur).saved_esp

module _ (s : Sched) (v : IsValid s) where
  saved_task :
      (i : ℕ)
      → task (save_current s) i
        ≡ (if s.cur == i then record (task s s.cur) { saved_esp = s.cur_esp } else task s i)
  saved_task i =
      get_or-set s.tasks s.cur i (record (task s s.cur) { saved_esp = s.cur_esp }) blank
        (omega (arith, v.size, v.cur_in))

  tick_to-Saves : (next rr : ℕ) → next < max_tasks → Saves s (tick_to (save_current s) (next, rr))
  tick_to-Saves next rr hn = record {
    parked = λ i. ground (arith, tick_to-task (save_current s) next rr i w hn, saved_task i);
    resumed = elim (Bool-cases (next == s.cur)) [
      | inl same ↦ rw (same, w.current) refl
      | inr other ↦
          rw (other, w.current)
            (sym (
              ap (λ (t : Task). t.saved_esp)
                (get_or-set_self (set (save_current s).tasks s.cur old) next _ blank inside)))
    ];
  }
    where
      w : IsValid (save_current s)
      w = save_current-IsValid s v

      old : Task
      old = set_state runnable (task (save_current s) s.cur)

      inside : next < length (set (save_current s).tasks s.cur old)
      inside = omega (arith, length-set (save_current s).tasks s.cur old, w.size)

  tick-eq : s.enabled ≡ true → sched_tick s ≡ tick_to (save_current s) (sched_pick (save_current s))
  unfolding sched_tick
  tick-eq on =
      ap
        (λ b.
          if not b
          then record s { next_esp = s.cur_esp }
          else tick_to (save_current s) (sched_pick (save_current s)))
        on

  picked : Choice (save_current s) (sched_pick (save_current s))
  picked = sched_pick-Choice (save_current s) v.rr_in

  -- A tick of a valid and enabled scheduler parks the interrupted task at the frame that the
  -- interrupt saved, moves no other saved frame, and returns on the saved frame of the task that
  -- is then current.
  pub sched_tick-Saves : s.enabled ≡ true → Saves s (sched_tick s)
  sched_tick-Saves on =
      rw (tick-eq on)
        (tick_to-Saves _ _ (Choice-in_range (save_current s) _ v.cur_in v.rr_in picked).0)

-- How far slot `j` is from the start of the next pick.
abbrev wait : Sched → ℕ → ℕ
wait s j = (j + max_tasks - s.rr) % max_tasks

-- One tick either runs the runnable slot `j` or brings it nearer.
abbrev Nearer : Sched → ℕ → Sched → Type 0
Nearer s j s' = (s'.cur ≡ j) ⊎ ((state_of s' j ≡ runnable) × (wait s' j < wait s j))

module _ (s : Sched) (j : ℕ) (w : IsValid s) (hj : j < max_tasks)
    (ready : state_of s j ≡ runnable) where
  still_ready :
      (next rr : ℕ) → next < max_tasks → next ≢ j → state_of (tick_to s (next, rr)) j ≡ runnable
  still_ready next rr hn ne =
      ap (λ (t : Task). t.state) (tick_to-task s next rr j w hn)
      ∙ ground (arith, w.current, ready, ≢→== next j ne)

  rr-tick_to : (next rr : ℕ) → (tick_to s (next, rr)).rr ≡ rr
  rr-tick_to next rr =
      if_intro (λ (t : Sched). t.rr ≡ rr) (next == s.cur && is_running (state_of s s.cur))
        (λ _. refl) (λ _. refl)

  cur-tick_to : (next rr : ℕ) → next ≢ s.cur → (tick_to s (next, rr)).cur ≡ next
  cur-tick_to next rr ne = rw (≢→== next s.cur ne)

  not_current : (i : ℕ) → state_of s i ≡ runnable → i ≢ s.cur
  not_current i t same = ground (arith, w.current, ap (state_of s) same)

  -- The pick that passes over `j` stops before it.
  closer :
      (i k : ℕ)
      → i ≡ (s.rr + k) % max_tasks
      → k < max_tasks
      → ((j' : ℕ) → j' < k → is_runnable (state_of s ((s.rr + j') % max_tasks)) ≡ false)
      → i ≢ j
      → (j + max_tasks - (i + 1) % max_tasks) % max_tasks < wait s j
  closer i k e q b ne = elim (dec_lt (wait s j) k) [
    | yes lt ↦
        let there : (s.rr + wait s j) % max_tasks ≡ j = omega (arith, w.rr_in) in
        absurd (ground (arith, b (wait s j) lt, ap (state_of s) there, ready))
    | no ge ↦ omega (arith, w.rr_in)
  ]

  tick_to-Nearer : (p : ℕ × ℕ) → Choice s p → Nearer s j (tick_to s p)
  tick_to-Nearer _ (next_runnable i k e q t b) = elim (Bool-cases (i == j)) [
    | inl same ↦ inl (cur-tick_to i _ (not_current i t) ∙ ==→≡ i j same)
    | inr other ↦ inr (
      still_ready i _ (omega arith) (==→≢ i j other),
      subst (λ r. (j + max_tasks - r) % max_tasks < wait s j) (sym (rr-tick_to i _))
          (closer i k e q b (==→≢ i j other)),
    )
  ]
  tick_to-Nearer _ (any_live i p t b) = absurd (ground (arith, b j hj, ready))
  tick_to-Nearer _ (nobody b) = absurd (ground (arith, b j hj, ready))

-- A number of timer ticks with nothing between them.
unfoldable pub ticks : ℕ → Sched → Sched
ticks zero s = s
ticks (suc n) s = ticks n (sched_tick s)

enabled-sched_tick : (s : Sched) → s.enabled ≡ true → (sched_tick s).enabled ≡ true
unfolding sched_tick
enabled-sched_tick s on =
    if_intro (λ (t : Sched). t.enabled ≡ true) (not s.enabled) (λ _. on)
      (λ _. if_intro (λ (t : Sched). t.enabled ≡ true) _ (λ _. on) (λ _. on))

reaches :
    (bound : ℕ) (s : Sched) (j : ℕ)
    → IsValid s
    → s.enabled ≡ true
    → j < max_tasks
    → state_of s j ≡ runnable
    → wait s j < bound
    → (n : ℕ) × (n ≤ bound) × ((ticks n s).cur ≡ j)
unfolding ticks
reaches zero s j v on hj ready h = absurd (omega arith)
reaches (suc bound) s j v on hj ready h =
    go
      (subst (Nearer (save_current s) j) (sym (tick-eq s v on)) (
        tick_to-Nearer (save_current s) j w hj
          (state_of-save_current s j (omega (arith, v.size, v.cur_in)) ∙ ready) _ (picked s v)))
      (reaches bound (sched_tick s) j (sched_tick-IsValid s v) (enabled-sched_tick s on) hj)
  where
    w : IsValid (save_current s)
    w = save_current-IsValid s v

    go :
        Nearer (save_current s) j (sched_tick s)
        → (state_of (sched_tick s) j ≡ runnable
            → wait (sched_tick s) j < bound
            → (n : ℕ) × (n ≤ bound) × ((ticks n (sched_tick s)).cur ≡ j))
        → (n : ℕ) × (n ≤ suc bound) × ((ticks n s).cur ≡ j)
    go (inl here) rest = (1, omega arith, here)
    go (inr (ready', near)) rest =
        let (n, le, e) = rest ready' (omega arith) in (suc n, omega arith, e)

-- With nothing but timer ticks, a runnable task of a valid and enabled scheduler becomes the
-- current task within eight ticks.
pub ticks-reach :
    (s : Sched) (j : ℕ)
    → IsValid s
    → s.enabled ≡ true
    → j < max_tasks
    → state_of s j ≡ runnable
    → (n : ℕ) × (n ≤ max_tasks) × ((ticks n s).cur ≡ j)
ticks-reach s j v on hj ready = reaches max_tasks s j v on hj ready (omega arith)
