-- ===== src/Files/Ext2/Alloc/Search.antt =====
-- The search for a clear bit in a bitmap of kernel/fs/ext2.c.
use rtjn_kernel.Prelude.{
  ℕ, zero, suc, ◌+◌, ◌≤◌, ◌<◌, ◌≡◌, arith, List, Option, none, some, true, false, if_intro,
}
use native.Mathlib.Decide.{dec_lt}
use rtjn_kernel.Files.Ext2.Alloc.{bit_is_set, find_clear}

-- All bits from `b` on and below `end` are set.
abbrev pub AllSet : List ℕ → ℕ → ℕ → Type 0
AllSet bitmap b end = (i : ℕ) → b ≤ i → i < end → bit_is_set bitmap i ≡ true

-- `b + left` is the end of the search.
pub data IsFirstClear (bitmap : List ℕ) (left b : ℕ) : Option ℕ → Type 0 where
  all_set : AllSet bitmap b (b + left) → IsFirstClear bitmap left b none
  clear_at :
      (i : ℕ)
      → b ≤ i
      → i < b + left
      → bit_is_set bitmap i ≡ false
      → AllSet bitmap b i
      → IsFirstClear bitmap left b (some i)

-- What holds at `b` and from the next place on holds from `b` on.
pub from_next :
    {P : ℕ → Type 0} (b i end : ℕ)
    → P b
    → ((j : ℕ) → b + 1 ≤ j → j < end → P j)
    → b ≤ i
    → i < end
    → P i
from_next {P} b i end here later le lt = elim (dec_lt b i) [
  | yes after ↦ later i (omega arith) lt
  | no at ↦ let e : i ≡ b = omega arith in rw (e) here
]

module _ (bitmap : List ℕ) where
  further :
      (left b : ℕ) (r : Option ℕ)
      → bit_is_set bitmap b ≡ true
      → IsFirstClear bitmap left (b + 1) r
      → IsFirstClear bitmap (suc left) b r
  further left b _ here (all_set set) = all_set (λ i le lt.
      from_next {P = λ j. bit_is_set bitmap j ≡ true} b i (b + suc left) here
        (λ j le' lt'. set j le' (omega arith)) le lt)
  further left b _ here (clear_at i le lt clear set) =
      clear_at i (omega arith) (omega arith) clear
        (λ j le' lt'. from_next {P = λ j. bit_is_set bitmap j ≡ true} b j i here set le' lt')

  -- The loops over a bitmap in ext2_alloc_block and ext2_alloc_inode find the first clear bit from
  -- `b` on, or every bit up to the end of the group is set.
  pub find_clear-IsFirstClear : (left b : ℕ) → IsFirstClear bitmap left b (find_clear bitmap left b)
  unfolding find_clear
  find_clear-IsFirstClear zero b = all_set (λ i le lt. absurd (omega arith))
  find_clear-IsFirstClear (suc left) b =
      let rest = find_clear-IsFirstClear left (b + 1) in
      if_intro (IsFirstClear bitmap (suc left) b) (bit_is_set bitmap b)
        (λ t. further left b (find_clear bitmap left (b + 1)) t rest)
        (λ f. clear_at b (omega arith) (omega arith) f (λ i le lt. absurd (omega arith)))
