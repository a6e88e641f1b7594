-- ===== src/Files/Ext2/Alloc/Bytes.antt =====
-- The numbers and the bits that the allocation of kernel/fs/ext2.c puts into its bytes.
use rtjn_kernel.Prelude.{
  ℕ, ◌+◌, ◌/◌, ◌%◌, ◌^◌, ◌<◌, ◌≡◌, ◌≢◌, refl, ◌∙◌, sym, arith, List, true, get_or, set, length,
  length-set, bit_and, bit_or, get_or-set_self, get_or-set_ne, ◌!=◌, ◌==◌, Bool-cases, ==→≡, ==→≢,
  inl, inr,
}
use native.Mathlib.Nat.{one-le-pow}
use rtjn_kernel.Prelude.Bits.{bit, bit-bit_or, bit-pow_self, bit-pow_ne, bit_and-pow, bit-le-one}
use rtjn_kernel.Files.Ext2.{le16, le32}
use rtjn_kernel.Files.Ext2.Alloc.{put_le16, put_le32, bit_is_set, set_bit, byte_of_bit, mask_of_bit}

module _ (at v : ℕ) (xs : List ℕ) where
  pub put_le16-other : (i : ℕ) → i ≢ at → i ≢ at + 1 → get_or (put_le16 at v xs) i 0 ≡ get_or xs i 0
  put_le16-other i ne ne' =
      get_or-set_ne (set xs at (v % 2 ^ 8)) (at + 1) i (v / 2 ^ 8 % 2 ^ 8) 0 (λ e. ne' (sym e))
      ∙ get_or-set_ne xs at i (v % 2 ^ 8) 0 (λ e. ne (sym e))

  pub length-put_le16 : length (put_le16 at v xs) ≡ length xs
  length-put_le16 =
      length-set (set xs at (v % 2 ^ 8)) (at + 1) (v / 2 ^ 8 % 2 ^ 8) ∙ length-set xs at (v % 2 ^ 8)

  pub le16-put_le16 : at + 1 < length xs → le16 (put_le16 at v xs) at ≡ v % 2 ^ 16
  le16-put_le16 room =
      let inner = set xs at (v % 2 ^ 8) in
      let size = length-set xs at (v % 2 ^ 8) in
      let low =
        get_or-set_ne inner (at + 1) at (v / 2 ^ 8 % 2 ^ 8) 0 (λ e. absurd (omega (arith, e)))
        ∙ get_or-set_self xs at (v % 2 ^ 8) 0 (omega arith) in
      let high = get_or-set_self inner (at + 1) (v / 2 ^ 8 % 2 ^ 8) 0 (omega (arith, size)) in
      omega (arith, low, high)

module _ (at v : ℕ) (xs : List ℕ) where
  pub le32-put_le32 : at + 3 < length xs → le32 (put_le32 at v xs) at ≡ v % 2 ^ 32
  le32-put_le32 room =
      let inner = put_le16 at v xs in
      let size = length-put_le16 at v xs in
      let low = le16-put_le16 at v xs (omega arith) in
      let high = le16-put_le16 (at + 2) (v / 2 ^ 16) inner (omega (arith, size)) in
      let at0 =
        put_le16-other (at + 2) (v / 2 ^ 16) inner at (λ e. absurd (omega (arith, e)))
          (λ e. absurd (omega (arith, e))) in
      let at1 =
        put_le16-other (at + 2) (v / 2 ^ 16) inner (at + 1) (λ e. absurd (omega (arith, e)))
          (λ e. absurd (omega (arith, e))) in
      omega (arith, low, high, at0, at1)

  pub put_le32-other :
      (i : ℕ) → ((j : ℕ) → j < 4 → i ≢ at + j) → get_or (put_le32 at v xs) i 0 ≡ get_or xs i 0
  put_le32-other i ne =
      put_le16-other (at + 2) (v / 2 ^ 16) (put_le16 at v xs) i (λ e. ne 2 (omega arith) e)
        (λ e. ne 3 (omega arith) (omega (arith, e)))
      ∙ put_le16-other at v xs i (λ e. ne 0 (omega arith) (omega (arith, e)))
          (λ e. ne 1 (omega arith) e)

-- The test of a bit reads that bit only.
bit_and-same : (v w k : ℕ) → bit v k ≡ bit w k → (bit_and v (2 ^ k) != 0) ≡ (bit_and w (2 ^ k) != 0)
bit_and-same v w k e = rw (bit_and-pow v k, bit_and-pow w k, e) refl

module _ (bitmap : List ℕ) (b : ℕ) (inside : byte_of_bit b < length bitmap) where
  set_byte :
      get_or (set_bit bitmap b) (byte_of_bit b) 0
      ≡ bit_or (get_or bitmap (byte_of_bit b) 0) (mask_of_bit b)
  unfolding set_bit
  set_byte =
      get_or-set_self bitmap (byte_of_bit b)
        (bit_or (get_or bitmap (byte_of_bit b) 0) (mask_of_bit b)) 0 inside

  set_byte_ne : (i : ℕ) → i ≢ byte_of_bit b → get_or (set_bit bitmap b) i 0 ≡ get_or bitmap i 0
  unfolding set_bit
  set_byte_ne i ne =
      get_or-set_ne bitmap (byte_of_bit b) i
        (bit_or (get_or bitmap (byte_of_bit b) 0) (mask_of_bit b)) 0 (λ e. ne (sym e))

  pub bit_is_set-set_bit : bit_is_set (set_bit bitmap b) b ≡ true
  unfolding bit_is_set
  bit_is_set-set_bit =
      let w = get_or bitmap (byte_of_bit b) 0 in
      let k = b % 32 % 8 in
      let one : bit (bit_or w (2 ^ k)) k ≡ 1 =
        omega (arith, bit-bit_or w (2 ^ k) k, bit-pow_self k, bit-le-one w k) in
      rw (set_byte, bit_and-pow (bit_or w (2 ^ k)) k, one)
        (ground (arith, one-le-pow k 2 (omega arith)))

  pub bit_is_set-other : (c : ℕ) → c ≢ b → bit_is_set (set_bit bitmap b) c ≡ bit_is_set bitmap c
  unfolding bit_is_set
  bit_is_set-other c ne =
      let w = get_or bitmap (byte_of_bit b) 0 in
      let k = b % 32 % 8 in
      let j = c % 32 % 8 in
      elim (Bool-cases (byte_of_bit c == byte_of_bit b)) [
        | inl e ↦
            let same = ==→≡ (byte_of_bit c) (byte_of_bit b) e in
            let apart : k ≢ j = λ e'. ne (omega (arith, e', same)) in
            let bits : bit (bit_or w (2 ^ k)) j ≡ bit w j =
              omega (arith, bit-bit_or w (2 ^ k) j, bit-pow_ne k j apart, bit-le-one w j) in
            rw (same, set_byte) (bit_and-same (bit_or w (2 ^ k)) w j bits)
        | inr e ↦
            let far = ==→≢ (byte_of_bit c) (byte_of_bit b) e in
            rw (set_byte_ne (byte_of_bit c) far) refl
      ]
