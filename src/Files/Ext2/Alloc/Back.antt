-- ===== src/Files/Ext2/Alloc/Back.antt =====
-- A bit that kernel/fs/ext2.c sets in a bitmap and clears again, and where a block's number leads.
use rtjn_kernel.Prelude.{
  ℕ, zero, suc, ◌+◌, ◌-◌, ◌*◌, ◌/◌, ◌%◌, ◌^◌, ◌<◌, ◌≡◌, refl, ap, sym, arith, List, [], ◌∷◌, false,
  get_or, set, length, bit_and, bit_or, get_or-set_self, inl, inr, ◌==◌, Bool-cases, ==→≡, ==→≢,
}
use rtjn_kernel.Prelude.Bits.{
  u32, bit, complement, bit-bit_or, bit-bit_and, bit-pow_self, bit-pow_ne, bit-complement,
  bit_and-pow, bit-le-one, eq_of_bit, bit_or-lt-pow, bit_and-le,
}
use native.Mathlib.Nat.{
  one-le-pow, pow-le-pow_right, mod-eq_of_lt, div-eq_of_lt-le, add-mul, one-mul,
}
use rtjn_kernel.Files.Ext2.Alloc.{bit_is_set, set_bit, clear_bit, byte_of_bit, mask_of_bit}

pow-below : (k : ℕ) → k < 8 → 2 ^ k < 2 ^ 8
pow-below k lt = omega (arith, pow-le-pow_right {n = 2} (omega arith) {i = k} {j = 7} (omega arith))

module _ (w k : ℕ) (byte : w < 2 ^ 8) (lt : k < 8) (clear : bit_and w (2 ^ k) ≡ 0) where
  low : bit w k ≡ 0
  low =
      let p = one-le-pow k 2 (omega arith) in
      let e = bit_and-pow w k in grind (arith, e, p, clear, bit-le-one w k)

  same_bit : (j : ℕ) → j < 8 → bit (bit_and (bit_or w (2 ^ k)) (complement 8 (2 ^ k))) j ≡ bit w j
  same_bit j lt' =
      let flip = bit-complement 8 (2 ^ k) j (pow-below k lt) lt' in
      let both = bit-bit_and (bit_or w (2 ^ k)) (complement 8 (2 ^ k)) j in
      let either = bit-bit_or w (2 ^ k) j in
      elim (Bool-cases (k == j)) [
        | inl e ↦
            let at = ==→≡ k j e in
            let one : bit (2 ^ k) j ≡ 1 = rw (sym at) (bit-pow_self k) in
            let none_here : bit w j ≡ 0 = rw (sym at) low in
            omega (arith, flip, both, either, one, none_here)
        | inr e ↦ omega (arith, flip, both, either, bit-pow_ne k j (==→≢ k j e), bit-le-one w j)
      ]

  byte_back : bit_and (bit_or w (2 ^ k)) (complement 8 (2 ^ k)) ≡ w
  byte_back =
      let less = bit_or-lt-pow 8 w (2 ^ k) byte (pow-below k lt) in
      eq_of_bit 8 (bit_and (bit_or w (2 ^ k)) (complement 8 (2 ^ k))) w
        (omega (arith, less, bit_and-le (bit_or w (2 ^ k)) (complement 8 (2 ^ k)))) byte same_bit

set-set_self : (xs : List ℕ) (i v : ℕ) → set (set xs i v) i (get_or xs i 0) ≡ xs
set-set_self [] i v = refl
set-set_self (x ∷ xs) zero v = refl
set-set_self (x ∷ xs) (suc i) v = ap (λ ys. x ∷ ys) (set-set_self xs i v)

-- Clearing the bit that was set gives a bitmap of bytes back as it was, when the bit was clear
-- and lies in the bitmap.
pub clear_bit-set_bit :
    (bitmap : List ℕ) (b : ℕ)
    → byte_of_bit b < length bitmap
    → get_or bitmap (byte_of_bit b) 0 < 2 ^ 8
    → bit_is_set bitmap b ≡ false
    → clear_bit (set_bit bitmap b) b ≡ bitmap
unfolding clear_bit set_bit bit_is_set
clear_bit-set_bit bitmap b inside byte clear =
    let w = get_or bitmap (byte_of_bit b) 0 in
    let zero_bit : bit_and w (mask_of_bit b) ≡ 0 = ground (arith, clear) in
    let back = byte_back w (b % 32 % 8) byte (omega arith) zero_bit in
    let at = get_or-set_self bitmap (byte_of_bit b) (bit_or w (mask_of_bit b)) 0 inside in
    rw (at, back) (set-set_self bitmap (byte_of_bit b) (bit_or w (mask_of_bit b)))

-- The group and the index that ext2_free_block works out are those that ext2_alloc_block numbered,
-- while the numbers do not wrap around.
pub numbered-group :
    (per first g b : ℕ)
    → b < per
    → g * per + b + first < 2 ^ 32
    → u32 (u32 (g * per + b + first) + 2 ^ 32 - first) / per ≡ g
numbered-group per first g b lt small =
    let wrap : u32 (g * per + b + first) ≡ g * per + b + first = mod-eq_of_lt small in
    let at : u32 (u32 (g * per + b + first) + 2 ^ 32 - first) ≡ g * per + b = omega (arith, wrap) in
    rw (at) (div-eq_of_lt-le per (omega arith) (rw (add-mul g 1 per, one-mul per) (omega arith)))
