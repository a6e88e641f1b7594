-- ===== src/Text/Number.antt =====
-- Numbers in kernel/lib/string.c: `itoa_buf` and `atoi`.
pub mod Parse
use rtjn_kernel.Prelude.{
  ℕ, zero, suc, ◌+◌, ◌-◌, ◌*◌, ◌/◌, ◌%◌, ◌^◌, List, [], ◌∷◌, ◌++◌, Bool, true, false, ◌&&◌, leb,
  ◌==◌, if◌then◌else◌,
}
use rtjn_kernel.Prelude.Bits.{u32}
use rtjn_kernel.Prelude.Int.{ℤ, pos, negsuc, of_word}

-- `while (length * 10 <= rem) length *= 10;`, ten rounds at most for an `int`.
unfoldable pub scale : ℕ → ℕ → ℕ → ℕ
scale zero len rem = len
scale (suc fuel) len rem =
    let rest = scale fuel (len * 10) rem in if leb (len * 10) rem then rest else len

-- `while (length > 0)`: the bytes that are written; one round for each digit.
unfoldable pub digits_of : ℕ → ℕ → ℕ → List ℕ
digits_of zero len rem = []
digits_of (suc fuel) len rem =
    let rest = digits_of fuel (len / 10) (rem % len) in
    if len == 0 then [] else (rem / len + 48) ∷ rest

-- The digits of a number below 10 ^ 11 and the terminator.
unfoldable pub unsigned : ℕ → List ℕ
unfolding scale digits_of
unsigned rem = digits_of 11 (scale 10 1 rem) rem ++ 0 ∷ []

abbrev pub minus : ℕ
minus = 45

-- The bytes that are written from `buf` on.
unfoldable pub itoa_buf : ℤ → List ℕ
unfolding unsigned
itoa_buf (pos n) = unsigned n
itoa_buf (negsuc n) = minus ∷ unsigned (suc n)

-- The last loop of `atoi`; a wrap-around stands for the overflow of the `int`.
unfoldable pub read_digits : ℕ → List ℕ → ℕ
read_digits n [] = n
read_digits n (c ∷ cs) =
    let rest = read_digits (u32 (n * 10 + (c - 48))) cs in if leb 48 c && leb c 57 then rest else n

unfoldable pub skip_blanks : List ℕ → List ℕ
skip_blanks [] = []
skip_blanks (c ∷ cs) = if c == 32 then skip_blanks cs else if c == 9 then skip_blanks cs else c ∷ cs

-- `atoi` behind the blanks.
abbrev pub read_signed : List ℕ → ℤ
read_signed [] = pos 0
read_signed (c ∷ cs) =
    if c == minus
    then of_word (u32 (2 ^ 32 - read_digits 0 cs))
    else if c == 43
    then of_word (read_digits 0 cs)
    else of_word (read_digits 0 (c ∷ cs))

unfoldable pub atoi : List ℕ → ℤ
unfolding skip_blanks read_digits
atoi str = read_signed (skip_blanks str)
