-- ===== src/Text/Number/Parse.antt =====
-- `atoi` of kernel/lib/string.c reads what `itoa_buf` writes.
use rtjn_kernel.Prelude.{
  ℕ, zero, suc, ◌+◌, ◌-◌, ◌*◌, ◌/◌, ◌%◌, ◌^◌, ◌≤◌, ◌<◌, ◌≡◌, refl, sym, ap, ◌∙◌, arith, List, [],
  ◌∷◌, ◌++◌, true, false, ◌&&◌, leb, ltb, ltb→lt, ◌==◌, if_intro,
}
use native.Mathlib.Nat.{
  pow-suc, div-add-mod', mod-lt, add-mul, mul_assoc, mul-suc, div-lt_iff_lt-mul, one-le-pow,
}
use rtjn_kernel.Prelude.Bits.{u32}
use rtjn_kernel.Prelude.Int.{ℤ, pos, negsuc, of_word}
use rtjn_kernel.Text.Number.{
  scale, digits_of, unsigned, minus, itoa_buf, read_digits, skip_blanks, read_signed, atoi,
}

-- A power of ten that is the scale of `rem`.
abbrev pub Scale : ℕ → ℕ → ℕ → Type 0
Scale bound rem len = (k : ℕ) × (k ≤ bound) × (len ≡ 10 ^ k) × (rem < 10 ^ suc k)

pub scale-Scale :
    (fuel j rem : ℕ) → rem < 10 ^ suc (j + fuel) → Scale (j + fuel) rem (scale fuel (10 ^ j) rem)
unfolding scale
scale-Scale zero j rem h = (j, omega arith, refl, (let e : j + 0 ≡ j = omega arith in rw e at h))
scale-Scale (suc fuel) j rem h =
    let e : j + suc fuel ≡ suc j + fuel = omega arith in
    if_intro (Scale (j + suc fuel) rem) (leb (10 ^ j * 10) rem)
      (λ t.
        let (k, le, l, lt) = scale-Scale fuel (suc j) rem (rw e at h) in
        (k, omega arith, ap (λ p. scale fuel p rem) (sym (pow-suc 10 j)) ∙ l, lt))
      (λ f. (j, omega arith, refl, ground (arith, pow-suc 10 j)))

stops : (n : ℕ) → read_digits n (0 ∷ []) ≡ n
unfolding read_digits
stops n = refl

pub le_mul : (x p : ℕ) → 0 < p → x ≤ x * p
le_mul x zero h = elim h [ ]
le_mul x (suc q) h = omega (arith, mul-suc x q)

read_digits-cons :
    (n d : ℕ) (cs : List ℕ)
    → d < 10
    → n * 10 + d < 2 ^ 32
    → read_digits n ((d + 48) ∷ cs) ≡ read_digits (n * 10 + d) cs
unfolding read_digits
read_digits-cons n d cs h fits =
    let digit : (leb 48 (d + 48) && leb (d + 48) 57) ≡ true = ground arith in
    let sum : u32 (n * 10 + (d + 48 - 48)) ≡ n * 10 + d = omega arith in
    rw digit (ap (λ m. read_digits m cs) sum)

pub digits_of-done : (fuel rem : ℕ) → digits_of fuel 0 rem ≡ []
unfolding digits_of
digits_of-done zero rem = refl
digits_of-done (suc fuel) rem = refl

pub digits_of-cons :
    (fuel p rem : ℕ)
    → 0 < p
    → digits_of (suc fuel) p rem ≡ (rem / p + 48) ∷ digits_of fuel (p / 10) (rem % p)
unfolding digits_of
digits_of-cons fuel p rem h = let some_left : (p == 0) ≡ false = ground arith in rw some_left refl

-- Reading the digits that are written adds them behind the number read so far.
read_digits-digits_of :
    (fuel k n rem : ℕ)
    → k < fuel
    → rem < 10 ^ suc k
    → n * 10 ^ suc k + rem < 2 ^ 32
    → read_digits n (digits_of fuel (10 ^ k) rem ++ 0 ∷ []) ≡ n * 10 ^ suc k + rem
read_digits-digits_of zero k n rem h lt fits = absurd (omega arith)
read_digits-digits_of (suc fuel) zero n rem h lt fits =
    let whole : rem / 1 ≡ rem = omega arith in
    ap (λ ds. read_digits n (ds ++ 0 ∷ [])) (digits_of-cons fuel 1 rem (omega arith))
    ∙ read_digits-cons n (rem / 1) (digits_of fuel (1 / 10) (rem % 1) ++ 0 ∷ []) (omega arith)
        (omega arith)
    ∙ ap (λ ds. read_digits (n * 10 + rem / 1) (ds ++ 0 ∷ [])) (digits_of-done fuel (rem % 1))
    ∙ stops (n * 10 + rem / 1)
    ∙ omega arith
read_digits-digits_of (suc fuel) (suc k) n rem h lt fits =
    let p = 10 ^ suc k in
    let d = rem / p in
    let pos_p : 0 < p = one-le-pow (suc k) 10 (omega arith) in
    let top : 10 ^ suc (suc k) ≡ 10 * p = omega (arith, pow-suc 10 (suc k)) in
    let small : d < 10 = (div-lt_iff_lt-mul {k = p} {x = rem} {y = 10} pos_p).1 (omega arith) in
    let lower : p / 10 ≡ 10 ^ k = omega (arith, pow-suc 10 k) in
    let value : (n * 10 + d) * p + rem % p ≡ n * 10 ^ suc (suc k) + rem =
      omega
        (arith, add-mul (n * 10) d p, mul_assoc n 10 p, ap (λ q. n * q) top, div-add-mod' rem p) in
    let room : n * 10 + d < 2 ^ 32 = omega (arith, le_mul (n * 10 + d) p pos_p) in
    ap (λ ds. read_digits n (ds ++ 0 ∷ [])) (digits_of-cons fuel p rem pos_p)
    ∙ read_digits-cons n d (digits_of fuel (p / 10) (rem % p) ++ 0 ∷ []) small room
    ∙ ap (λ q. read_digits (n * 10 + d) (digits_of fuel q (rem % p) ++ 0 ∷ [])) lower
    ∙ read_digits-digits_of fuel k (n * 10 + d) (rem % p) (omega arith) (mod-lt rem pos_p)
        (omega arith)
    ∙ value

-- The digits of a number read back are the number, and the first byte is a digit.
unsigned-read :
    (rem : ℕ)
    → rem < 2 ^ 32
    → (read_digits 0 (unsigned rem) ≡ rem)
      × (d : ℕ) × (cs : List ℕ) × (d < 10)
      × (unsigned rem ≡ (d + 48) ∷ cs)
unfolding unsigned
unsigned-read rem h =
    let (k, le, l, lt) = scale-Scale 10 0 rem (omega arith) in
    let pos_p : 0 < 10 ^ k = one-le-pow k 10 (omega arith) in
    let shown = ap (λ q. digits_of 11 q rem ++ 0 ∷ []) l in
    (
      ap (read_digits 0) shown
          ∙ read_digits-digits_of 11 k 0 rem (omega arith) lt (omega arith)
          ∙ omega arith,
      rem / 10 ^ k,
      digits_of 10 (10 ^ k / 10) (rem % 10 ^ k) ++ 0 ∷ [],
      (div-lt_iff_lt-mul {k = 10 ^ k} {x = rem} {y = 10} pos_p).1 (omega (arith, pow-suc 10 k)),
      shown ∙ ap (λ ds. ds ++ 0 ∷ []) (digits_of-cons 10 (10 ^ k) rem pos_p),
    )

-- Behind the blanks a digit begins a number without a sign.
read_signed-digit :
    (d : ℕ) (cs : List ℕ)
    → d < 10
    → (skip_blanks ((d + 48) ∷ cs) ≡ (d + 48) ∷ cs)
      × (read_signed ((d + 48) ∷ cs) ≡ of_word (read_digits 0 ((d + 48) ∷ cs)))
unfolding skip_blanks
read_signed-digit d cs h =
    let blank : (d + 48 == 32) ≡ false = ground arith in
    let tabbed : (d + 48 == 9) ≡ false = ground arith in
    let neg : (d + 48 == minus) ≡ false = ground arith in
    let plus : (d + 48 == 43) ≡ false = ground arith in
    (rw blank (rw tabbed refl), rw neg (rw plus refl))

-- The values of an `int`.
abbrev pub IsInt : ℤ → Type 0
IsInt (pos n) = n < 2 ^ 31
IsInt (negsuc n) = n < 2 ^ 31

of_word-pos : (n : ℕ) → n < 2 ^ 31 → of_word n ≡ pos n
of_word-pos n h = ground arith

of_word-negsuc : (n : ℕ) → n < 2 ^ 31 → of_word (u32 (2 ^ 32 - suc n)) ≡ negsuc n
of_word-negsuc n h =
    let small : u32 (2 ^ 32 - suc n) ≡ 2 ^ 32 - suc n = omega arith in
    let back : 2 ^ 32 - (2 ^ 32 - suc n) - 1 ≡ n = omega arith in
    rw small (
      if_intro (λ z. z ≡ negsuc n) (ltb (2 ^ 32 - suc n) (2 ^ 31))
        (λ t. let lt = ltb→lt (2 ^ 32 - suc n) (2 ^ 31) t in absurd (omega arith))
        (λ _. ap negsuc back))

-- atoi reads every int that itoa_buf writes, the least one included.
pub atoi-itoa_buf : (z : ℤ) → IsInt z → atoi (itoa_buf z) ≡ z
unfolding atoi itoa_buf
atoi-itoa_buf (pos n) h =
    let (value, d, cs, lt, shape) = unsigned-read n (omega arith) in
    let (start, plain) = read_signed-digit d cs lt in
    ap (λ ds. read_signed (skip_blanks ds)) shape
    ∙ ap read_signed start
    ∙ plain
    ∙ ap (λ ds. of_word (read_digits 0 ds)) (sym shape)
    ∙ ap of_word value
    ∙ of_word-pos n h
atoi-itoa_buf (negsuc n) h =
    let (value, d, cs, lt, shape) = unsigned-read (suc n) (omega arith) in
    ap (λ m. of_word (u32 (2 ^ 32 - m))) value ∙ of_word-negsuc n h
