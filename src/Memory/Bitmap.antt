-- ===== src/Memory/Bitmap.antt =====
-- The frame bitmap of include/memory.h: one bit for each physical block, 32 to a word.
use rtjn_kernel.Prelude.{
  ℕ, ◌+◌, ◌*◌, ◌/◌, ◌%◌, ◌^◌, ◌<◌, ◌≤◌, bit_and, bit_or, ◌≡◌, ap, ◌∙◌, List, arith, length, get_or,
  set, get_or-set, length-set, ◌==◌, if◌then◌else◌, Bool-cases, ==→≡, ==→≢, inl, inr, ◌↔◌,
}
use rtjn_kernel.Prelude.Bits.{
  bit, complement, bit-bit_or, bit-bit_and, bit-pow_self, bit-pow_ne, bit-complement, bit_and-pow,
  bit_and-31, bit-le-one,
}
use native.Mathlib.Nat.{one-le-pow, pow-le-pow_right}

-- `_pm_map`
abbrev pub Bitmap : Type 0
Bitmap = List ℕ

unfoldable pub mmap_set : Bitmap → ℕ → Bitmap
mmap_set m b = set m (b / 32) (bit_or (get_or m (b / 32) 0) (2 ^ bit_and b 31))

unfoldable pub mmap_unset : Bitmap → ℕ → Bitmap
mmap_unset m b = set m (b / 32) (bit_and (get_or m (b / 32) 0) (complement 32 (2 ^ (b % 32))))

unfoldable pub mmap_test : Bitmap → ℕ → ℕ
mmap_test m b = bit_and (get_or m (b / 32) 0) (2 ^ bit_and b 31)

-- The abstract view: 1 if block `b` is taken.
abbrev pub taken : Bitmap → ℕ → ℕ
taken m b = bit (get_or m (b / 32) 0) (b % 32)

pub taken-le-one : (m : Bitmap) (b : ℕ) → taken m b ≤ 1
taken-le-one m b = bit-le-one (get_or m (b / 32) 0) (b % 32)

pub mmap_test_lem : (m : Bitmap) (b : ℕ) → mmap_test m b ≡ taken m b * 2 ^ (b % 32)
unfolding mmap_test
mmap_test_lem m b =
    ap (λ k. bit_and (get_or m (b / 32) 0) (2 ^ k)) (bit_and-31 b)
    ∙ bit_and-pow (get_or m (b / 32) 0) (b % 32)

pub length-mmap_set : (m : Bitmap) (b : ℕ) → length (mmap_set m b) ≡ length m
unfolding mmap_set
length-mmap_set m b = length-set m (b / 32) _

pub length-mmap_unset : (m : Bitmap) (b : ℕ) → length (mmap_unset m b) ≡ length m
unfolding mmap_unset
length-mmap_unset m b = length-set m (b / 32) _

set_word :
    (m : Bitmap) (b c w : ℕ)
    → b / 32 < length m
    → taken (set m (b / 32) w) c ≡ (if b / 32 == c / 32 then bit w (c % 32) else taken m c)
set_word m b c w h = ground (arith, get_or-set m (b / 32) (c / 32) w 0 h)

bit-raise : (w k j : ℕ) → bit (bit_or w (2 ^ k)) j ≡ (if k == j then 1 else bit w j)
bit-raise w k j = elim (Bool-cases (k == j)) [
  | inl e ↦
      let same : bit (2 ^ k) j ≡ 1 = rw (← ==→≡ k j e) (bit-pow_self k) in
      rw e (omega (arith, bit-bit_or w (2 ^ k) j, bit-le-one w j))
  | inr e ↦ rw e (omega (arith, bit-bit_or w (2 ^ k) j, bit-pow_ne k j (==→≢ k j e)))
]

bit-clear :
    (w k j : ℕ)
    → k < 32
    → j < 32
    → bit (bit_and w (complement 32 (2 ^ k))) j ≡ (if k == j then 0 else bit w j)
bit-clear w k j hk hj = elim (Bool-cases (k == j)) [
  | inl e ↦
      let same : bit (2 ^ k) j ≡ 1 = rw (← ==→≡ k j e) (bit-pow_self k) in
      rw e (omega (arith, bit-bit_and w (complement 32 (2 ^ k)) j, flip))
  | inr e ↦ rw e (
      omega (
        arith,
        bit-bit_and w (complement 32 (2 ^ k)) j,
        bit-pow_ne k j (==→≢ k j e),
        bit-le-one w j,
        flip,
      ))
]
  where
    flip : bit (complement 32 (2 ^ k)) j + bit (2 ^ k) j ≡ 1
    flip =
        bit-complement 32 (2 ^ k) j
          (omega (arith, pow-le-pow_right {n = 2} (omega arith) {i = k} {j = 31} (omega arith))) hj

-- Marking a block takes that block and no other.
pub taken-mmap_set :
    (m : Bitmap) (b c : ℕ)
    → b / 32 < length m
    → taken (mmap_set m b) c ≡ (if b == c then 1 else taken m c)
unfolding mmap_set
taken-mmap_set m b c h = ground (
  arith,
  set_word m b c (bit_or (get_or m (b / 32) 0) (2 ^ bit_and b 31)) h,
  bit_and-31 b,
  bit-raise (get_or m (b / 32) 0) (b % 32) (c % 32),
)

-- Unmarking a block frees that block and no other.
pub taken-mmap_unset :
    (m : Bitmap) (b c : ℕ)
    → b / 32 < length m
    → taken (mmap_unset m b) c ≡ (if b == c then 0 else taken m c)
unfolding mmap_unset
taken-mmap_unset m b c h = ground (
  arith,
  set_word m b c (bit_and (get_or m (b / 32) 0) (complement 32 (2 ^ (b % 32)))) h,
  bit-clear (get_or m (b / 32) 0) (b % 32) (c % 32),
)

-- `mmap_test` is zero exactly on the free blocks.
pub mmap_test-eq-zero_iff : (m : Bitmap) (b : ℕ) → (mmap_test m b ≡ 0) ↔ (taken m b ≡ 0)
mmap_test-eq-zero_iff m b = (forth, λ e. rw (mmap_test_lem m b, e) (omega arith))
  where
    forth : mmap_test m b ≡ 0 → taken m b ≡ 0
    forth e =
        grind (arith, mmap_test_lem m b, one-le-pow (b % 32) 2 (omega arith), taken-le-one m b)
