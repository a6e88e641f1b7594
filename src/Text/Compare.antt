-- ===== src/Text/Compare.antt =====
-- The comparisons of kernel/lib/string.c decide the equality of texts.
use rtjn_kernel.Prelude.{ℕ, zero, suc, ◌<◌, ◌≡◌, arith, List, [], ◌∷◌, take, ◌↔◌}
use rtjn_kernel.Prelude.Int.{pos, ◌-ℤ◌}
use rtjn_kernel.Text.{text, strcmp, strncmp}

abbrev pub AllBytes : List ℕ → Type 0
AllBytes [] = Unit {0}
AllBytes (c ∷ cs) = (c < 256) × AllBytes cs

-- strcmp of two byte strings is zero exactly when their texts are equal.
pub strcmp-eq-zero_iff :
    (a b : List ℕ) → AllBytes a → AllBytes b → (strcmp a b ≡ pos 0) ↔ (text a ≡ text b)
unfolding strcmp ◌-ℤ◌
strcmp-eq-zero_iff [] [] ha hb = ground arith
strcmp-eq-zero_iff [] (d ∷ ds) ha hb = ground arith
strcmp-eq-zero_iff (c ∷ cs) [] ha hb = ground arith
strcmp-eq-zero_iff (c ∷ cs) (d ∷ ds) ha hb =
    let ih = strcmp-eq-zero_iff cs ds ha.1 hb.1 in ground (arith, ih.0, ih.1)

-- `strncmp` is zero exactly when the texts agree on their first `n` bytes.
pub strncmp-eq-zero_iff :
    (a b : List ℕ) (n : ℕ) → (strncmp a b n ≡ pos 0) ↔ (take n (text a) ≡ take n (text b))
unfolding strncmp
strncmp-eq-zero_iff a b zero = ground arith
strncmp-eq-zero_iff [] [] (suc n) = ground arith
strncmp-eq-zero_iff [] (d ∷ ds) (suc n) = ground arith
strncmp-eq-zero_iff (c ∷ cs) [] (suc n) = ground arith
strncmp-eq-zero_iff (c ∷ cs) (d ∷ ds) (suc n) =
    let ih = strncmp-eq-zero_iff cs ds n in ground (arith, ih.0, ih.1)
