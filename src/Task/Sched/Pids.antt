-- ===== src/Task/Sched/Pids.antt =====
-- Process ids: the live tasks have distinct ids, all below the next one, so that an id names at
-- most one live task.
use rtjn_kernel.Prelude.{
  ℕ, zero, suc, ◌<◌, ◌≡◌, arith, true, Bool-cases, inl, inr, List, [], ◌∷◌, get_or, length, ◌==◌,
  ◌&&◌, ◌↔◌,
}
use rtjn_kernel.Task.Sched.{Task, is_live, blank, sched_alive}

-- A live task with this id.
abbrev pub Alive : ℕ → List Task → Type 0
Alive pid ts =
    (i : ℕ) × (i < length ts)
    × ((get_or ts i blank).pid ≡ pid)
    × (is_live (get_or ts i blank).state ≡ true)

sched_alive-Alive : (pid : ℕ) (ts : List Task) → sched_alive pid ts ≡ true → Alive pid ts
unfolding sched_alive
sched_alive-Alive pid [] e = cc
sched_alive-Alive pid (t ∷ ts) e = elim (Bool-cases (t.pid == pid && is_live t.state)) [
  | inl here ↦ (0, omega arith, ground arith, ground arith)
  | inr there ↦
      let (i, h, p, l) = sched_alive-Alive pid ts (ground arith) in (suc i, omega arith, p, l)
]

sched_alive_of :
    (pid : ℕ) (ts : List Task) (i : ℕ)
    → i < length ts
    → (get_or ts i blank).pid ≡ pid
    → is_live (get_or ts i blank).state ≡ true
    → sched_alive pid ts ≡ true
unfolding sched_alive
sched_alive_of pid [] i h p l = absurd (omega arith)
sched_alive_of pid (t ∷ ts) zero h p l = ground arith
sched_alive_of pid (t ∷ ts) (suc i) h p l =
    ground (arith, sched_alive_of pid ts i (omega arith) p l)

-- sched_alive answers 1 exactly when some live task of the table has the given id.
pub sched_alive_iff : (pid : ℕ) (ts : List Task) → (sched_alive pid ts ≡ true) ↔ Alive pid ts
sched_alive_iff pid ts = (sched_alive-Alive pid ts, λ (i, h, p, l). sched_alive_of pid ts i h p l)
