-- ===== src/Text/Tests.antt =====
-- The string functions on short texts, and the theorems at those inputs.
use rtjn_kernel.Prelude.{ℕ, ◌≡◌, refl, arith, List, [], ◌∷◌, replicate}
use rtjn_kernel.Prelude.Int.{negsuc}
use rtjn_kernel.Text.Number.{atoi, itoa_buf}
use rtjn_kernel.Text.Number.Parse.{atoi-itoa_buf}
use rtjn_kernel.Text.{memmove}

-- "abc" and "abd"
abbrev abc : List ℕ
abc = 97 ∷ 98 ∷ 99 ∷ 0 ∷ []

abbrev abd : List ℕ
abd = 97 ∷ 98 ∷ 100 ∷ 0 ∷ []

abbrev junk : List ℕ
junk = replicate 8 35

shifts_up : memmove abc 1 0 3 ≡ 97 ∷ 97 ∷ 98 ∷ 99 ∷ []
unfolding memmove
shifts_up = refl

-- The least `int`.
atoi-itoa_buf_example : atoi (itoa_buf (negsuc 2147483647)) ≡ negsuc 2147483647
atoi-itoa_buf_example = atoi-itoa_buf (negsuc 2147483647) (omega arith)
