-- ===== src/Prelude/Bits.antt =====
-- Single bits of a word, as the C operators reach them: `w & (1 << k)`, `w |= 1 << k` and
-- `w &= ~(1 << k)`, as arithmetic at every width.
use Prim.Native.Nat.{
  ℕ, zero, suc, ◌+◌, ◌-◌, ◌*◌, ◌/◌, ◌%◌, ◌^◌, ◌≤◌, ◌<◌, min, max, bit_and, bit_or, digits, bitwise,
  bit_and-bitwise, bit_or-bitwise,
}
use mathlib.Core.Path.{◌≡◌, refl, ap, sym, ◌∙◌}
use native.Mathlib.Decide.{dec_lt}
use mathlib.Core.Logic.{◌≢◌}
use native.Mathlib.Nat.{
  pow-suc, one-le-pow, mod-lt, div-add-mod', mul-add-mod_self_right, mod-eq_of_lt,
}
use native.Mathlib.Omega.{arith}

-- A digit recursion with at least as much fuel as its first number is the whole recursion.
module _ (stop : ℕ → ℕ) (join : ℕ → ℕ → ℕ) where
  spent : (k n a b : ℕ) → n ≤ k → a ≤ n → digits stop join n a b ≡ bitwise stop join a b
  spent k zero zero b hk ha = refl
  spent k (suc n) zero b hk ha = refl
  spent k zero (suc a) b hk ha = elim ha [ ]
  spent zero (suc n) (suc a) b hk ha = elim hk [ ]
  spent (suc k) (suc n) (suc a) b hk ha =
      let long = spent k n (suc a / 2) (b / 2) (omega arith) (omega arith) in
      let short = spent k a (suc a / 2) (b / 2) (omega arith) (omega arith) in
      ap (λ t. t * 2 + join (suc a % 2) (b % 2)) (long ∙ sym short)

  -- The lowest digit is joined by itself.
  lowest :
      (a b : ℕ)
      → 0 < a
      → bitwise stop join a b ≡ bitwise stop join (a / 2) (b / 2) * 2 + join (a % 2) (b % 2)
  lowest zero b h = elim h [ ]
  lowest (suc a) b h =
      ap (λ t. t * 2 + join (suc a % 2) (b % 2))
        (spent a a (suc a / 2) (b / 2) (omega arith) (omega arith))

pub zero-bit_and : (b : ℕ) → bit_and 0 b ≡ 0
zero-bit_and = bit_and-bitwise 0

zero-bit_or : (b : ℕ) → bit_or 0 b ≡ b
zero-bit_or = bit_or-bitwise 0

pub bit_and_low : (a b : ℕ) → bit_and a b ≡ bit_and (a / 2) (b / 2) * 2 + min (a % 2) (b % 2)
bit_and_low a b = elim (dec_lt 0 a) [
  | yes some_bits ↦
      bit_and-bitwise a b
      ∙ lowest (λ _. 0) min a b some_bits
      ∙ ap (λ t. t * 2 + min (a % 2) (b % 2)) (sym (bit_and-bitwise (a / 2) (b / 2)))
  | no none_left ↦
      let e : a ≡ 0 = omega arith in rw e (omega (arith, zero-bit_and b, zero-bit_and (b / 2)))
]

pub bit_or_low : (a b : ℕ) → bit_or a b ≡ bit_or (a / 2) (b / 2) * 2 + max (a % 2) (b % 2)
bit_or_low a b = elim (dec_lt 0 a) [
  | yes some_bits ↦
      bit_or-bitwise a b
      ∙ lowest (λ b. b) max a b some_bits
      ∙ ap (λ t. t * 2 + max (a % 2) (b % 2)) (sym (bit_or-bitwise (a / 2) (b / 2)))
  | no none_left ↦
      let e : a ≡ 0 = omega arith in rw e (omega (arith, zero-bit_or b, zero-bit_or (b / 2)))
]

-- Both operations against zero, for every first word up to a bound.
against_zero : (bound w : ℕ) → w ≤ bound → (bit_and w 0 ≡ 0) × (bit_or w 0 ≡ w)
against_zero bound zero h = (zero-bit_and 0, zero-bit_or 0)
against_zero zero (suc w) h = elim h [ ]
against_zero (suc bound) (suc w) h =
    let half = against_zero bound (suc w / 2) (omega arith) in
    (omega (arith, bit_and_low (suc w) 0, half.0), omega (arith, bit_or_low (suc w) 0, half.1))

pub bit_and-zero : (w : ℕ) → bit_and w 0 ≡ 0
bit_and-zero w = (against_zero w w (omega arith)).0

pub bit_or-zero : (w : ℕ) → bit_or w 0 ≡ w
bit_or-zero w = (against_zero w w (omega arith)).1

-- `uint32_t` arithmetic wraps.
abbrev pub u32 : ℕ → ℕ
u32 n = n % 2 ^ 32

abbrev pub u16 : ℕ → ℕ
u16 n = n % 2 ^ 16

abbrev pub u8 : ℕ → ℕ
u8 n = n % 2 ^ 8

-- Bit `k` of a word, 0 or 1.
abbrev pub bit : ℕ → ℕ → ℕ
bit w zero = w % 2
bit w (suc k) = bit (w / 2) k

pub bit-le-one : (w k : ℕ) → bit w k ≤ 1
bit-le-one w zero = omega arith
bit-le-one w (suc k) = bit-le-one (w / 2) k

pub zero-bit : (k : ℕ) → bit 0 k ≡ 0
zero-bit zero = refl
zero-bit (suc k) = zero-bit k

pub bit-bit_and : (a b k : ℕ) → bit (bit_and a b) k ≡ min (bit a k) (bit b k)
bit-bit_and a b zero = omega (arith, bit_and_low a b)
bit-bit_and a b (suc k) =
    let half : bit_and a b / 2 ≡ bit_and (a / 2) (b / 2) = omega (arith, bit_and_low a b) in
    ap (λ w. bit w k) half ∙ bit-bit_and (a / 2) (b / 2) k

pub bit-bit_or : (a b k : ℕ) → bit (bit_or a b) k ≡ max (bit a k) (bit b k)
bit-bit_or a b zero = omega (arith, bit_or_low a b)
bit-bit_or a b (suc k) =
    let half : bit_or a b / 2 ≡ bit_or (a / 2) (b / 2) = omega (arith, bit_or_low a b) in
    ap (λ w. bit w k) half ∙ bit-bit_or (a / 2) (b / 2) k

-- `1 << k` has the one bit `k`.
pub bit-pow_self : (k : ℕ) → bit (2 ^ k) k ≡ 1
bit-pow_self zero = refl
bit-pow_self (suc k) =
    let half : 2 ^ suc k / 2 ≡ 2 ^ k = omega (arith, pow-suc 2 k) in
    ap (λ w. bit w k) half ∙ bit-pow_self k

pub bit-pow_ne : (k j : ℕ) → k ≢ j → bit (2 ^ k) j ≡ 0
bit-pow_ne zero zero h = absurd (h refl)
bit-pow_ne zero (suc j) h = zero-bit j
bit-pow_ne (suc k) zero h = omega (arith, pow-suc 2 k)
bit-pow_ne (suc k) (suc j) h =
    let half : 2 ^ suc k / 2 ≡ 2 ^ k = omega (arith, pow-suc 2 k) in
    ap (λ w. bit w j) half ∙ bit-pow_ne k j (λ e. h (ap suc e))

-- `~m` in a word of `n` bits.
abbrev pub complement : ℕ → ℕ → ℕ
complement n m = 2 ^ n - 1 - m

pub bit-complement : (n m j : ℕ) → m < 2 ^ n → j < n → bit (complement n m) j + bit m j ≡ 1
bit-complement zero m j h lt = absurd (omega arith)
bit-complement (suc n) m zero h lt = omega (arith, pow-suc 2 n, one-le-pow n 2)
bit-complement (suc n) m (suc j) h lt =
    let half : complement (suc n) m / 2 ≡ complement n (m / 2) =
      omega (arith, pow-suc 2 n, one-le-pow n 2) in
    ap (λ w. bit w j + bit (m / 2) j) half
    ∙ bit-complement n (m / 2) j (omega (arith, pow-suc 2 n)) (omega arith)

pub bit_and-pow : (w k : ℕ) → bit_and w (2 ^ k) ≡ bit w k * 2 ^ k
bit_and-pow w zero = omega (arith, bit_and_low w 1, bit_and-zero (w / 2))
bit_and-pow w (suc k) =
    let half : 2 ^ suc k / 2 ≡ 2 ^ k = omega (arith, pow-suc 2 k) in
    let low : 2 ^ suc k % 2 ≡ 0 = omega (arith, pow-suc 2 k) in
    let tail : bit_and (w / 2) (2 ^ suc k / 2) ≡ bit (w / 2) k * 2 ^ k =
      ap (bit_and (w / 2)) half ∙ bit_and-pow (w / 2) k in
    let scale : bit (w / 2) k * 2 ^ suc k ≡ bit (w / 2) k * 2 ^ k * 2 =
      omega (arith, ap (λ (t : ℕ). bit (w / 2) k * t) (pow-suc 2 k)) in
    omega (arith, bit_and_low w (2 ^ suc k))

-- The word with all of its `n` bits set is the one with no clear bit.
pub bit_ones : (n j : ℕ) → j < n → bit (2 ^ n - 1) j ≡ 1
bit_ones n j h =
    let ones : complement n 0 ≡ 2 ^ n - 1 = omega arith in
    omega (
      arith,
      ap (λ w. bit w j) ones,
      bit-complement n 0 j (one-le-pow n 2 (omega arith)) h,
      zero-bit j,
    )

-- Two words of `n` bits with the same bits are equal.
pub eq_of_bit : (n v w : ℕ) → v < 2 ^ n → w < 2 ^ n → ((j : ℕ) → j < n → bit v j ≡ bit w j) → v ≡ w
eq_of_bit zero v w hv hw h = omega arith
eq_of_bit (suc n) v w hv hw h =
    let low : v % 2 ≡ w % 2 = h 0 (omega arith) in
    let high : v / 2 ≡ w / 2 =
      eq_of_bit n (v / 2) (w / 2) (omega (arith, pow-suc 2 n)) (omega (arith, pow-suc 2 n))
        (λ j hj. h (suc j) (omega arith)) in
    omega arith

-- The words of `n` bits are closed under `|`, and `&` never grows a word.
pub bit_or-lt-pow : (n v w : ℕ) → v < 2 ^ n → w < 2 ^ n → bit_or v w < 2 ^ n
bit_or-lt-pow zero v w hv hw =
    let v0 : v ≡ 0 = omega arith in
    let w0 : w ≡ 0 = omega arith in omega (arith, ap (λ x. bit_or x w) v0, zero-bit_or w)
bit_or-lt-pow (suc n) v w hv hw = omega (
  arith,
  bit_or_low v w,
  pow-suc 2 n,
  bit_or-lt-pow n (v / 2) (w / 2) (omega (arith, pow-suc 2 n)) (omega (arith, pow-suc 2 n)),
)

bit_and-le_fuel : (n v w : ℕ) → v ≤ n → bit_and v w ≤ v
bit_and-le_fuel n zero w h = omega (arith, zero-bit_and w)
bit_and-le_fuel zero (suc v) w h = absurd (omega arith)
bit_and-le_fuel (suc n) (suc v) w h =
    omega (arith, bit_and_low (suc v) w, bit_and-le_fuel n (suc v / 2) (w / 2) (omega arith))

pub bit_and-le : (v w : ℕ) → bit_and v w ≤ v
bit_and-le v w = bit_and-le_fuel v v w (omega arith)

mod-double : (p w : ℕ) → 0 < p → w % (p * 2) ≡ w / 2 % p * 2 + w % 2
mod-double p w h =
    let low : w / 2 % p * 2 + w % 2 < p * 2 = omega (arith, mod-lt (w / 2) h) in
    let whole : w ≡ w / 2 / p * (p * 2) + (w / 2 % p * 2 + w % 2) =
      omega (arith, div-add-mod' (w / 2) p) in
    ap (λ x. x % (p * 2)) whole
    ∙ mul-add-mod_self_right (w / 2 / p) (p * 2) (w / 2 % p * 2 + w % 2)
    ∙ mod-eq_of_lt low

-- `x & (2^k - 1)` is the remainder by `2^k`.
pub bit_and_mask : (k w : ℕ) → bit_and w (2 ^ k - 1) ≡ w % 2 ^ k
bit_and_mask zero w = omega (arith, bit_and-zero w)
bit_and_mask (suc k) w =
    let pos : 0 < 2 ^ k = one-le-pow k 2 (omega arith) in
    let half : (2 ^ suc k - 1) / 2 ≡ 2 ^ k - 1 = omega (arith, pow-suc 2 k) in
    let odd : (2 ^ suc k - 1) % 2 ≡ 1 = omega (arith, pow-suc 2 k) in
    let tail : bit_and (w / 2) ((2 ^ suc k - 1) / 2) ≡ w / 2 % 2 ^ k =
      ap (bit_and (w / 2)) half ∙ bit_and_mask k (w / 2) in
    let whole : w % 2 ^ suc k ≡ w % (2 ^ k * 2) = ap (λ x. w % x) (pow-suc 2 k) in
    omega (arith, bit_and_low w (2 ^ suc k - 1), mod-double (2 ^ k) w pos)

-- The C compiler's reading of `x & 31`.
pub bit_and-31 : (w : ℕ) → bit_and w 31 ≡ w % 32
bit_and-31 w = bit_and_mask 5 w

-- `a << k | b` with `b` below the shift is a sum.
pub bit_or-shift : (k a b : ℕ) → b < 2 ^ k → bit_or (a * 2 ^ k) b ≡ a * 2 ^ k + b
bit_or-shift zero a b h =
    let b0 : b ≡ 0 = omega arith in rw b0 (omega (arith, bit_or-zero (a * 2 ^ 0)))
bit_or-shift (suc k) a b h =
    let scale : a * 2 ^ suc k ≡ a * 2 ^ k * 2 = omega (arith, ap (λ t. a * t) (pow-suc 2 k)) in
    let half : a * 2 ^ suc k / 2 ≡ a * 2 ^ k = omega arith in
    let low : a * 2 ^ suc k % 2 ≡ 0 = omega arith in
    let high : bit_or (a * 2 ^ suc k / 2) (b / 2) ≡ a * 2 ^ k + b / 2 =
      ap (λ t. bit_or t (b / 2)) half ∙ bit_or-shift k a (b / 2) (omega (arith, pow-suc 2 k)) in
    omega (arith, bit_or_low (a * 2 ^ suc k) b)

bit_or-comm_fuel : (n v w : ℕ) → v ≤ n → bit_or v w ≡ bit_or w v
bit_or-comm_fuel n zero w h = zero-bit_or w ∙ sym (bit_or-zero w)
bit_or-comm_fuel zero (suc v) w h = absurd (omega arith)
bit_or-comm_fuel (suc n) (suc v) w h = omega (
  arith,
  bit_or_low (suc v) w,
  bit_or_low w (suc v),
  bit_or-comm_fuel n (suc v / 2) (w / 2) (omega arith),
)

pub bit_or_comm : (v w : ℕ) → bit_or v w ≡ bit_or w v
bit_or_comm v w = bit_or-comm_fuel v v w (omega arith)

-- `(v >> 8) | (v << 8)` in 16 bits swaps the two bytes of `v`.
pub bit_or-swapped :
    (v : ℕ) → v < 2 ^ 16 → bit_or (v / 2 ^ 8) (v * 2 ^ 8) % 2 ^ 16 ≡ v % 256 * 256 + v / 256
bit_or-swapped v h =
    omega (arith, bit_or_comm (v / 2 ^ 8) (v * 2 ^ 8), bit_or-shift 8 v (v / 2 ^ 8) (omega arith))
