-- ===== src/Editors/Vi/Motion/Bracket.antt =====
-- The bracket that vi of kernel/shell/editors.c jumps to closes the one under the cursor.
use rtjn_kernel.Prelude.{
  ℕ, zero, suc, ◌+◌, ◌-◌, ◌≤◌, ◌<◌, ◌≡◌, arith, List, Option, none, some, if_intro, ◌==◌,
  if◌then◌else◌,
}
use rtjn_kernel.Editors.Vi.Motion.{byte_at, closing}

module _ (opener closer : ℕ) (line : List ℕ) where
  -- The pairs that are open behind one byte, and behind the `n` bytes from `c` on.
  abbrev pub behind_byte : ℕ → ℕ → ℕ
  behind_byte b depth = if b == opener then depth + 1 else if b == closer then depth - 1 else depth

  abbrev pub open_pairs : ℕ → ℕ → ℕ → ℕ
  open_pairs zero c depth = depth
  open_pairs (suc n) c depth = open_pairs n (c + 1) (behind_byte (byte_at line c) depth)

  -- The first place behind which nothing is open, or there is none.
  pub data Closes (left c depth : ℕ) : Option ℕ → Type 0 where
    at :
        (m n : ℕ)
        → m ≡ c + n
        → n < left
        → open_pairs (suc n) c depth ≡ 0
        → ((k : ℕ) → k ≤ n → 0 < open_pairs k c depth)
        → Closes left c depth (some m)
    never : ((k : ℕ) → k ≤ left → 0 < open_pairs k c depth) → Closes left c depth none

  further :
      (left c depth : ℕ) (o : Option ℕ)
      → 0 < depth
      → Closes left (c + 1) (behind_byte (byte_at line c) depth) o
      → Closes (suc left) c depth o
  further left c depth o deep (at m n place lt done before) =
      at m (suc n) (omega arith) (omega arith) done later
    where
      later : (k : ℕ) → k ≤ suc n → 0 < open_pairs k c depth
      later zero le = deep
      later (suc k) le = before k (omega arith)
  further left c depth o deep (never all) = never later
    where
      later : (k : ℕ) → k ≤ suc left → 0 < open_pairs k c depth
      later zero le = deep
      later (suc k) le = all k (omega arith)

  pub closing-Closes :
      (left c depth : ℕ) → 0 < depth → Closes left c depth (closing opener closer line left c depth)
  unfolding closing
  closing-Closes zero c depth deep = never still
    where
      still : (k : ℕ) → k ≤ 0 → 0 < open_pairs k c depth
      still zero le = deep
      still (suc k) le = absurd (omega arith)
  closing-Closes (suc left) c depth deep =
      let b = byte_at line c in
      let next = c + 1 in
      let deeper = closing-Closes left next (depth + 1) (omega arith) in
      let level = closing-Closes left next depth deep in
      let shallower = λ (more : 0 < depth - 1). closing-Closes left next (depth - 1) more in
      let on = λ (o : Option ℕ) (h : Closes left next (behind_byte b depth) o).
        further left c depth o deep h in
      let P = λ (o : Option ℕ). Closes (suc left) c depth o in
      if_intro P (b == opener)
        (λ t. on (closing opener closer line left next (depth + 1)) (rw t deeper))
        (λ f.
          if_intro P (b == closer)
            (λ t.
              if_intro P (depth == 1) (λ one. last (rw f (rw t (ground arith))))
                (λ many.
                  on (closing opener closer line left next (depth - 1))
                    (rw f (rw t (shallower (ground arith))))))
            (λ g. on (closing opener closer line left next depth) (rw f (rw g level))))
    where
      first : (k : ℕ) → k ≤ 0 → 0 < open_pairs k c depth
      first zero le = deep
      first (suc k) le = absurd (omega arith)

      last : behind_byte (byte_at line c) depth ≡ 0 → Closes (suc left) c depth (some c)
      last done = at c 0 (omega arith) (omega arith) done first
