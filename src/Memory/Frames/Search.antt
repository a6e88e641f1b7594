-- ===== src/Memory/Frames/Search.antt =====
-- What `mmap_get_first_free` finds.
use rtjn_kernel.Prelude.{
  ℕ, zero, suc, ◌+◌, ◌*◌, ◌/◌, ◌%◌, ◌≤◌, ◌<◌, ◌≡◌, Option, none, some, arith, ◌==◌, ◌!=◌, get_or,
  true, false, Bool-cases, inl, inr, ◌⊎◌,
}
use rtjn_kernel.Prelude.Bits.{bit_ones}
use rtjn_kernel.Memory.Bitmap.{Bitmap, mmap_test, taken, taken-le-one, mmap_test-eq-zero_iff}
use rtjn_kernel.Memory.Frames.{
  Frames, first_free_in_word, first_free_from, mmap_get_first_free, all_taken, or_else,
}
use native.Mathlib.Decide.{dec_lt}

-- Block `b` is the first free one of `[lo, hi)`.
pub record IsFirstFree (m : Bitmap) (lo hi b : ℕ) : Type 0 where
  pub above : lo ≤ b
  pub below : b < hi
  pub free : taken m b ≡ 0
  pub before : (c : ℕ) → lo ≤ c → c < b → taken m c ≡ 1

abbrev pub AllTaken : Bitmap → ℕ → ℕ → Type 0
AllTaken m lo hi = (c : ℕ) → lo ≤ c → c < hi → taken m c ≡ 1

-- What a search of `[lo, hi)` reports.
abbrev pub Found : Bitmap → ℕ → ℕ → Option ℕ → Type 0
Found m lo hi none = AllTaken m lo hi
Found m lo hi (some b) = IsFirstFree m lo hi b

pub test-cases :
    (m : Bitmap) (b : ℕ)
    → (((mmap_test m b == 0) ≡ true) × (taken m b ≡ 0))
      ⊎ (((mmap_test m b == 0) ≡ false) × (taken m b ≡ 1))
test-cases m b =
    ground (arith, (mmap_test-eq-zero_iff m b).0, (mmap_test-eq-zero_iff m b).1, taken-le-one m b)

-- A block known to be taken in front of a searched range extends the range.
Found-cons :
    (m : Bitmap) (lo mid hi : ℕ) (r : Option ℕ)
    → lo ≤ mid
    → AllTaken m lo mid
    → Found m mid hi r
    → Found m lo hi r
Found-cons m lo mid hi none le h rest =
    λ c p q. elim (dec_lt c mid) [ yes lt ↦ h c p lt | no ge ↦ rest c (omega arith) q ]
Found-cons m lo mid hi (some b) le h rest = record {
  above = omega arith;
  below = rest.below;
  free = rest.free;
  before =
      λ c p q. elim (dec_lt c mid) [ yes lt ↦ h c p lt | no ge ↦ rest.before c (omega arith) q ];
}

-- A hit in the first part is a hit in the whole.
Found-widen :
    (m : Bitmap) (lo mid hi b : ℕ) → mid ≤ hi → IsFirstFree m lo mid b → IsFirstFree m lo hi b
Found-widen m lo mid hi b le f = record {
  above = f.above;
  below = omega (arith, f.below);
  free = f.free;
  before = f.before;
}

first_free_in_word-Found :
    (m : Bitmap) (block left : ℕ) → Found m block (block + left) (first_free_in_word m block left)
unfolding first_free_in_word
first_free_in_word-Found m block zero = λ c p q. absurd (omega arith)
first_free_in_word-Found m block (suc left) = elim (test-cases m block) [
  | inl (e, free) ↦ rw e (record {
    above = omega arith;
    below = omega arith;
    free = free;
    before = λ c p q. absurd (omega arith);
  })
  | inr (e, full) ↦ rw e (
      let end : block + suc left ≡ block + 1 + left = omega arith in
      rw end (
        Found-cons m block (block + 1) (block + 1 + left) _ (omega arith)
          (λ c p q. let here : c ≡ block = omega arith in rw here full)
          (first_free_in_word-Found m (block + 1) left)))
]

pub full_word : (m : Bitmap) (i : ℕ) → get_or m i 0 ≡ all_taken → AllTaken m (i * 32) (i * 32 + 32)
full_word m i e c p q =
    let word : c / 32 ≡ i = omega arith in rw (word, e) (bit_ones 32 (c % 32) (omega arith))

-- A word searched to the end, then the rest.
Found-or_else :
    (m : Bitmap) (lo mid hi : ℕ) (r rest : Option ℕ)
    → lo ≤ mid
    → mid ≤ hi
    → Found m lo mid r
    → Found m mid hi rest
    → Found m lo hi (or_else r rest)
Found-or_else m lo mid hi none rest le le' h k = Found-cons m lo mid hi rest le h k
Found-or_else m lo mid hi (some b) rest le le' h k = Found-widen m lo mid hi b le' h

first_free_from-Found :
    (m : Bitmap) (i left hi : ℕ)
    → i * 32 + left * 32 ≡ hi
    → Found m (i * 32) hi (first_free_from m i left)
unfolding first_free_from
first_free_from-Found m i zero hi e = λ c p q. absurd (omega arith)
first_free_from-Found m i (suc left) hi e =
    let mid : (i + 1) * 32 ≡ i * 32 + 32 = omega arith in
    let rest = rw mid at (first_free_from-Found m (i + 1) left hi (omega arith)) in
    elim (Bool-cases (get_or m i 0 != all_taken)) [
      | inl t ↦ rw t (
          Found-or_else m (i * 32) (i * 32 + 32) hi _ _ (omega arith) (omega arith)
            (first_free_in_word-Found m (i * 32) 32) rest)
      | inr t ↦ rw t (
          Found-cons m (i * 32) (i * 32 + 32) hi _ (omega arith) (full_word m i (ground arith))
            rest)
    ]

-- The search of `mmap_get_first_free` covers the blocks of the whole words, and is exact: it
-- reports the lowest free block, and -1 only when every block is taken.
pub mmap_get_first_free-Found :
    (f : Frames) → Found f.map 0 (f.blocks / 32 * 32) (mmap_get_first_free f)
unfolding mmap_get_first_free
mmap_get_first_free-Found f =
    first_free_from-Found f.map 0 (f.blocks / 32) (f.blocks / 32 * 32) (omega arith)
