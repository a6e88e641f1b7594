-- ===== src/Net/Checksum.antt =====
-- The internet checksum of kernel/net/network.c, `ip_checksum` and its copies `icmp_checksum` and
-- the one in the TCP part.
use rtjn_kernel.Prelude.{
  ℕ, zero, suc, ◌+◌, ◌-◌, ◌*◌, ◌/◌, ◌%◌, ◌^◌, ◌≤◌, ◌<◌, ◌≡◌, refl, ap, arith, List, [], ◌∷◌, ◌++◌,
  ◌==◌, if◌then◌else◌, bit_and, bit_or, length, length-append,
}
use rtjn_kernel.Prelude.Bits.{u16, u32, bit_or-shift, bit_and_mask, complement}
use rtjn_kernel.Prelude.{if_intro, ==→≡, ==→≢}
use native.Mathlib.Decide.{dec_lt}

-- `(data[0] << 8) | data[1]`
abbrev word16 : ℕ → ℕ → ℕ
word16 a b = u16 (bit_or (a * 2 ^ 8) b)

-- The first loop and the odd byte behind it; the list is the data that is left.
unfoldable pub sum_words : ℕ → List ℕ → ℕ
sum_words sum [] = sum
sum_words sum (a ∷ []) = u32 (sum + u16 (a * 2 ^ 8))
sum_words sum (a ∷ b ∷ rest) = sum_words (u32 (sum + word16 a b)) rest

-- `while (sum >> 16)`; the fuel counts the rounds.
unfoldable pub fold_carry : ℕ → ℕ → ℕ
fold_carry zero sum = sum
fold_carry (suc fuel) sum =
    let rest = fold_carry fuel (u32 (bit_and sum 0xffff + sum / 2 ^ 16)) in
    if sum / 2 ^ 16 == 0 then sum else rest

-- Three rounds are enough for every 32-bit sum.
unfoldable pub ip_checksum : List ℕ → ℕ
unfolding sum_words fold_carry
ip_checksum block = complement 16 (u16 (fold_carry 3 (sum_words 0 block)))

-- What the folding leaves: the remainder of the sum by 65535 in 16 bits, and 0 only for 0.
abbrev Folded : ℕ → ℕ → Type 0
Folded sum r = (r < 65536) × (q : ℕ) × (sum ≡ q * 65535 + r) × (r ≡ 0 → sum ≡ 0)

fold_one : (sum : ℕ) → bit_and sum 0xffff + sum / 2 ^ 16 ≡ sum % 65536 + sum / 65536
fold_one sum = omega (arith, bit_and_mask 16 sum)

Folded-done : (sum : ℕ) → sum < 65536 → Folded sum sum
Folded-done sum h = (h, 0, omega arith, λ e. e)

Folded-step : (sum r : ℕ) → 65536 ≤ sum → Folded (sum % 65536 + sum / 65536) r → Folded sum r
Folded-step sum r big (h, q, e, z) =
    (h, q + sum / 65536, omega arith, λ r0. let s0 = z r0 in absurd (omega arith))

fold_carry-round :
    (fuel sum : ℕ)
    → sum < 2 ^ 32
    → Folded (sum % 65536 + sum / 65536) (fold_carry fuel (sum % 65536 + sum / 65536))
    → Folded sum (fold_carry (suc fuel) sum)
unfolding fold_carry
fold_carry-round fuel sum h ih =
    let step : u32 (bit_and sum 0xffff + sum / 2 ^ 16) ≡ sum % 65536 + sum / 65536 =
      omega (arith, bit_and_mask 16 sum) in
    elim (dec_lt sum 65536) [
      | yes small ↦
          if_intro (λ r. Folded sum r) (sum / 2 ^ 16 == 0) (λ _. Folded-done sum small)
            (λ f. absurd (==→≢ (sum / 2 ^ 16) 0 f (omega arith)))
      | no big ↦
          if_intro (λ r. Folded sum r) (sum / 2 ^ 16 == 0)
            (λ t. let z = ==→≡ (sum / 2 ^ 16) 0 t in absurd (omega arith))
            (λ _. rw step (Folded-step sum _ (omega arith) ih))
    ]

-- Two rounds end the carries; the third only tests.
fold_carry-Folded : (sum : ℕ) → sum < 2 ^ 32 → Folded sum (fold_carry 3 sum)
unfolding fold_carry
fold_carry-Folded sum h =
    let s1 = sum % 65536 + sum / 65536 in
    let s2 = s1 % 65536 + s1 / 65536 in
    fold_carry-round 2 sum h (
      fold_carry-round 1 s1 (omega arith)
        (fold_carry-round 0 s2 (omega arith) (Folded-done _ (omega arith))))

-- The running sum is a start for the rest.
sum_words-from :
    (sum : ℕ) (xs : List ℕ)
    → sum + length xs * 65536 < 2 ^ 32
    → (sum_words sum xs ≡ sum + sum_words 0 xs) × (sum_words 0 xs ≤ length xs * 65536)
unfolding sum_words
sum_words-from sum [] h = (omega arith, omega arith)
sum_words-from sum (a ∷ []) h = (omega arith, omega arith)
sum_words-from sum (a ∷ b ∷ rest) h =
    let w = word16 a b in
    let here : u32 (sum + w) ≡ sum + w = omega arith in
    let zero_start : u32 (0 + w) ≡ w = omega arith in
    let from_here = sum_words-from (sum + w) rest (omega arith) in
    let from_zero = sum_words-from w rest (omega arith) in
    let e1 = ap (λ s. sum_words s rest) here in
    let e2 = ap (λ s. sum_words s rest) zero_start in
    (omega (arith, from_here.0, from_zero.0, e1, e2), omega (arith, from_zero.0, from_zero.1, e2))

sum_words-bounded : (xs : List ℕ) → length xs < 65535 → sum_words 0 xs ≤ length xs * 65536
sum_words-bounded xs h = (sum_words-from 0 xs (omega arith)).1

-- The sum of a block that is split behind an even number of bytes.
sum_words-append :
    (k : ℕ) (xs ys : List ℕ)
    → length xs ≡ 2 * k
    → length xs + length ys < 65535
    → sum_words 0 (xs ++ ys) ≡ sum_words 0 xs + sum_words 0 ys
unfolding sum_words
sum_words-append k [] ys e h = omega arith
sum_words-append k (a ∷ []) ys e h = absurd (omega arith)
sum_words-append k (a ∷ b ∷ xs) ys e h =
    let w = word16 a b in
    let start : u32 (0 + w) ≡ w = omega arith in
    let all = sum_words-from w (xs ++ ys) (omega (arith, length-append xs ys)) in
    let front = sum_words-from w xs (omega arith) in
    let rest = sum_words-append (k - 1) xs ys (omega arith) (omega arith) in
    let e1 = ap (λ s. sum_words s (xs ++ ys)) start in
    let e2 = ap (λ s. sum_words s xs) start in omega (arith, all.0, front.0, rest, e1, e2)

-- The two bytes of a word in network order.
word16-bytes : (c : ℕ) → c < 65536 → word16 (c / 256) (c % 256) ≡ c
word16-bytes c h = omega (arith, bit_or-shift 8 (c / 256) (c % 256) (omega arith))

sum_words-word :
    (a b : ℕ) (xs : List ℕ)
    → length xs < 65530
    → sum_words 0 (a ∷ b ∷ xs) ≡ word16 a b + sum_words 0 xs
unfolding sum_words
sum_words-word a b xs h =
    let w = word16 a b in
    let start : u32 (0 + w) ≡ w = omega arith in
    let e1 = ap (λ s. sum_words s xs) start in
    omega (arith, (sum_words-from w xs (omega arith)).0, e1)

-- The sum with the word `c` at the place of the checksum.
sum_words-field :
    (k c : ℕ) (xs ys : List ℕ)
    → length xs ≡ 2 * k
    → c < 65536
    → length xs + length ys < 65500
    → sum_words 0 (xs ++ c / 256 ∷ c % 256 ∷ ys) ≡ c + (sum_words 0 xs + sum_words 0 ys)
sum_words-field k c xs ys e hc h = omega (
  arith,
  sum_words-append k xs (c / 256 ∷ c % 256 ∷ ys) e (omega arith),
  sum_words-word (c / 256) (c % 256) ys (omega arith),
  word16-bytes c hc,
)

-- A sum that lacks its folded value to 65535 folds to 65535.
balance :
    (s t r1 r2 c q1 q2 : ℕ)
    → r1 < 65536
    → s ≡ q1 * 65535 + r1
    → (r1 ≡ 0 → s ≡ 0)
    → c ≡ 65535 - r1
    → t ≡ c + s
    → r2 < 65536
    → t ≡ q2 * 65535 + r2
    → (r2 ≡ 0 → t ≡ 0)
    → r2 ≡ 65535
balance s t r1 r2 c q1 q2 l1 e1 z1 hc ht l2 e2 z2 = elim (dec_lt 0 r2) [
  | yes some_left ↦ omega arith
  | no none_left ↦ let t0 = z2 (omega arith) in absurd (omega arith)
]

verifies_with :
    (k c : ℕ) (xs ys : List ℕ)
    → length xs ≡ 2 * k
    → length xs + length ys < 65500
    → c ≡ ip_checksum (xs ++ 0 ∷ 0 ∷ ys)
    → ip_checksum (xs ++ c / 256 ∷ c % 256 ∷ ys) ≡ 0
unfolding ip_checksum
verifies_with k c xs ys e h hc =
    let s = sum_words 0 xs + sum_words 0 ys in
    let bound_xs = sum_words-bounded xs (omega arith) in
    let bound_ys = sum_words-bounded ys (omega arith) in
    let before : sum_words 0 (xs ++ 0 ∷ 0 ∷ ys) ≡ s =
      omega (arith, sum_words-field k 0 xs ys e (omega arith) h) in
    let (l1, q1, e1, z1) = fold_carry-Folded s (omega arith) in
    let hc' : c ≡ 65535 - fold_carry 3 s =
      omega (arith, ap (λ x. complement 16 (u16 (fold_carry 3 x))) before) in
    let (l2, q2, e2, z2) = fold_carry-Folded (c + s) (omega arith) in
    let full = balance s (c + s) _ _ c q1 q2 l1 e1 z1 hc' refl l2 e2 z2 in
    rw (sum_words-field k c xs ys e (omega arith) h) (omega arith)

-- In a block of fewer than 65500 bytes beside the checksum field, which stands at an even place,
-- the checksum taken with the field 0 and then stored there in network order makes the checksum
-- of the whole block 0.
pub ip_checksum-verifies :
    (k : ℕ) (xs ys : List ℕ)
    → length xs ≡ 2 * k
    → length xs + length ys < 65500
    → ip_checksum
        (xs ++ ip_checksum (xs ++ 0 ∷ 0 ∷ ys) / 256 ∷ ip_checksum (xs ++ 0 ∷ 0 ∷ ys) % 256 ∷ ys)
      ≡ 0
ip_checksum-verifies k xs ys e h = verifies_with k _ xs ys e h refl

pub ip_checksum-lt : (block : List ℕ) → ip_checksum block < 65536
unfolding ip_checksum
ip_checksum-lt block = omega arith
