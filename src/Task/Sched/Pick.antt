-- ===== src/Task/Sched/Pick.antt =====
-- `sched_pick`: which slot it returns.
use rtjn_kernel.Prelude.{
  ℕ, zero, suc, ◌+◌, ◌-◌, ◌%◌, ◌≤◌, ◌<◌, ◌≡◌, refl, arith, Option, none, some, true, false, Bool,
  Bool-cases, inl, inr,
}
use rtjn_kernel.Task.Sched.{
  Sched, TaskState, runnable, running, empty, zombie, is_runnable, is_live, state_of, max_tasks,
  pick_runnable, pick_live, sched_pick, fall_back,
}
use native.Mathlib.Decide.{dec_lt}

-- What a search by `test` over the rounds `step` to `step + left` reports: the slot of the first
-- round that passes.
abbrev pub Picked : (TaskState → Bool) → Sched → ℕ → ℕ → Option ℕ → Type 0
Picked test s lo hi none =
    (k : ℕ) → lo ≤ k → k < hi → test (state_of s ((s.rr + k) % max_tasks)) ≡ false
Picked test s lo hi (some i) =
    (k : ℕ) × (i ≡ (s.rr + k) % max_tasks)
    × (lo ≤ k)
    × (k < hi)
    × (test (state_of s i) ≡ true)
    × ((j : ℕ) → lo ≤ j → j < k → test (state_of s ((s.rr + j) % max_tasks)) ≡ false)

-- One more round in front, which fails.
Picked-cons :
    (test : TaskState → Bool) (s : Sched) (step hi : ℕ) (r : Option ℕ)
    → test (state_of s ((s.rr + step) % max_tasks)) ≡ false
    → Picked test s (step + 1) hi r
    → Picked test s step hi r
Picked-cons test s step hi none f h = λ k p q. elim (dec_lt step k) [
  | yes lt ↦ h k (omega arith) q
  | no ge ↦ let here : k ≡ step = omega arith in rw here f
]
Picked-cons test s step hi (some i) f (k, e, p, q, t, b) = (
  k,
  e,
  omega arith,
  q,
  t,
  λ j p' q'. elim (dec_lt step j) [
    | yes lt ↦ b j (omega arith) q'
    | no ge ↦ let here : j ≡ step = omega arith in rw here f
  ],
)

pick_runnable-Picked :
    (s : Sched) (step left hi : ℕ)
    → step + left ≡ hi
    → Picked is_runnable s step hi (pick_runnable s step left)
unfolding pick_runnable
pick_runnable-Picked s step zero hi e = λ k p q. absurd (omega arith)
pick_runnable-Picked s step (suc left) hi e =
    elim (Bool-cases (is_runnable (state_of s ((s.rr + step) % max_tasks)))) [
      | inl t ↦ rw t (step, refl, omega arith, omega arith, t, λ j p q. absurd (omega arith))
      | inr f ↦ rw f (
          Picked-cons is_runnable s step hi _ f
            (pick_runnable-Picked s (step + 1) left hi (omega arith)))
    ]

pick_live-Picked :
    (s : Sched) (step left hi : ℕ)
    → step + left ≡ hi
    → Picked is_live s step hi (pick_live s step left)
unfolding pick_live
pick_live-Picked s step zero hi e = λ k p q. absurd (omega arith)
pick_live-Picked s step (suc left) hi e =
    elim (Bool-cases (is_live (state_of s ((s.rr + step) % max_tasks)))) [
      | inl t ↦ rw t (step, refl, omega arith, omega arith, t, λ j p q. absurd (omega arith))
      | inr f ↦
          rw f (
            Picked-cons is_live s step hi _ f (pick_live-Picked s (step + 1) left hi (omega arith)))
    ]

-- Eight rounds from any start reach every slot.
round_of :
    (rr i : ℕ)
    → rr < max_tasks
    → i < max_tasks
    → (k : ℕ) × (k < max_tasks) × (i ≡ (rr + k) % max_tasks)
round_of rr i hr hi = ((i + max_tasks - rr) % max_tasks, omega arith, omega arith)

none_found :
    (test : TaskState → Bool) (s : Sched)
    → s.rr < max_tasks
    → Picked test s 0 max_tasks none
    → (i : ℕ) → i < max_tasks
    → test (state_of s i) ≡ false
none_found test s hr h i hi = let (k, q, e) = round_of s.rr i hr hi in rw e (h k (omega arith) q)

runnable_of : (st : TaskState) → is_runnable st ≡ true → st ≡ runnable
runnable_of empty e = cc
runnable_of runnable e = refl
runnable_of running e = cc
runnable_of zombie e = cc

-- The three ends of `sched_pick`: the first runnable slot from `g_rr` on, and `g_rr` moves past
-- it; any live slot when none is runnable; the current slot when none is live.
pub data Choice (s : Sched) : ℕ × ℕ → Type 0 where
  next_runnable :
      (i k : ℕ)
      → i ≡ (s.rr + k) % max_tasks
      → k < max_tasks
      → state_of s i ≡ runnable
      → ((j : ℕ) → j < k → is_runnable (state_of s ((s.rr + j) % max_tasks)) ≡ false)
      → Choice s (i, (i + 1) % max_tasks)
  any_live :
      (i : ℕ)
      → i < max_tasks
      → is_live (state_of s i) ≡ true
      → ((j : ℕ) → j < max_tasks → is_runnable (state_of s j) ≡ false)
      → Choice s (i, s.rr)
  nobody : ((j : ℕ) → j < max_tasks → is_live (state_of s j) ≡ false) → Choice s (s.cur, s.rr)

-- sched_pick, with g_rr in range, returns the first runnable slot counted from g_rr and moves
-- g_rr past it; with none runnable it returns a live slot, and with none live the current one.
pub sched_pick-Choice : (s : Sched) → s.rr < max_tasks → Choice s (sched_pick s)
unfolding sched_pick
sched_pick-Choice s hr =
    go (pick_runnable s 0 max_tasks) (pick_runnable-Picked s 0 max_tasks max_tasks refl)
      (pick_live s 0 max_tasks) (pick_live-Picked s 0 max_tasks max_tasks refl)
  where
    go :
        (r : Option ℕ)
        → Picked is_runnable s 0 max_tasks r
        → (l : Option ℕ) → Picked is_live s 0 max_tasks l
        → Choice s (elim r [ some i ↦ (i, (i + 1) % max_tasks) | none ↦ (fall_back l s.cur, s.rr) ])
    go (some i) (k, e, _, q, t, b) l hl =
        next_runnable i k e q (runnable_of _ t) (λ j p. b j (omega arith) p)
    go none h (some i) (k, e, _, q, t, b) =
        any_live i (omega arith) t (none_found is_runnable s hr h)
    go none h none hl = nobody (none_found is_live s hr hl)
