-- ===== src/Memory/Frames/Count.antt =====
-- The number of taken blocks, which `_pm_used` is meant to hold.
use rtjn_kernel.Prelude.{
  ℕ, zero, suc, ◌+◌, ◌/◌, ◌≤◌, ◌<◌, ◌≡◌, refl, ◌≢◌, arith, ◌==◌, length, Bool-cases, inl, inr, ==→≡,
  ==→≢,
}
use rtjn_kernel.Memory.Bitmap.{
  Bitmap, mmap_set, mmap_unset, taken, taken-le-one, taken-mmap_set, taken-mmap_unset,
}

abbrev pub count_taken : Bitmap → ℕ → ℕ
count_taken m zero = 0
count_taken m (suc k) = taken m k + count_taken m k

pub count_taken-le : (m : Bitmap) (k : ℕ) → count_taken m k ≤ k
count_taken-le m zero = omega arith
count_taken-le m (suc k) = omega (arith, taken-le-one m k, count_taken-le m k)

-- A full count leaves no free block.
pub taken_of_full : (m : Bitmap) (k c : ℕ) → count_taken m k ≡ k → c < k → taken m c ≡ 1
taken_of_full m zero c e h = absurd (omega arith)
taken_of_full m (suc k) c e h = elim (Bool-cases (c == k)) [
  | inl same ↦ rw (==→≡ c k same) (omega (arith, taken-le-one m k, count_taken-le m k))
  | inr other ↦
      taken_of_full m k c (omega (arith, taken-le-one m k, count_taken-le m k))
        (omega (arith, ==→≢ c k other))
]

-- Maps that differ only from block `k` on have the same count below it.
pub count_taken-congr :
    (m m' : Bitmap) (k : ℕ)
    → ((c : ℕ) → c < k → taken m' c ≡ taken m c)
    → count_taken m' k ≡ count_taken m k
count_taken-congr m m' zero h = refl
count_taken-congr m m' (suc k) h =
    omega (arith, h k (omega arith), count_taken-congr m m' k (λ c p. h c (omega arith)))

-- One block that changes moves the count by that block.
pub count_taken_one :
    (m m' : Bitmap) (b k : ℕ)
    → b < k
    → ((c : ℕ) → c ≢ b → taken m' c ≡ taken m c)
    → count_taken m' k + taken m b ≡ count_taken m k + taken m' b
count_taken_one m m' b zero p h = absurd (omega arith)
count_taken_one m m' b (suc k) p h = elim (Bool-cases (b == k)) [
  | inl same ↦
      rw (==→≡ b k same)
        (omega (arith, count_taken-congr m m' k (λ c q. h c (omega (arith, ==→≡ b k same)))))
  | inr other ↦ omega (
    arith,
    h k (omega (arith, ==→≢ b k other)),
    count_taken_one m m' b k (omega (arith, ==→≢ b k other)) h,
  )
]

pub count_taken-mmap_set :
    (m : Bitmap) (b k : ℕ)
    → b < k
    → b / 32 < length m
    → taken m b ≡ 0
    → count_taken (mmap_set m b) k ≡ count_taken m k + 1
count_taken-mmap_set m b k p h free = omega (
  arith,
  count_taken_one m (mmap_set m b) b k p (λ c ne. ground (arith, taken-mmap_set m b c h)),
  now,
)
  where
    now : taken (mmap_set m b) b ≡ 1
    now = ground (arith, taken-mmap_set m b b h)

pub count_taken-mmap_unset :
    (m : Bitmap) (b k : ℕ)
    → b < k
    → b / 32 < length m
    → taken m b ≡ 1
    → count_taken (mmap_unset m b) k + 1 ≡ count_taken m k
count_taken-mmap_unset m b k p h held = omega (
  arith,
  count_taken_one m (mmap_unset m b) b k p (λ c ne. ground (arith, taken-mmap_unset m b c h)),
  now,
)
  where
    now : taken (mmap_unset m b) b ≡ 0
    now = ground (arith, taken-mmap_unset m b b h)
