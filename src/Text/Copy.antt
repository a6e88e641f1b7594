-- ===== src/Text/Copy.antt =====
-- The copies of kernel/lib/string.c: what text the destination holds afterwards.
use rtjn_kernel.Prelude.{
  ℕ, zero, suc, ◌+◌, ◌≤◌, ◌<◌, ◌≡◌, refl, arith, List, [], ◌∷◌, ◌++◌, set, take, length, Bool-cases,
  inl, inr, ◌==◌, ap,
}
use rtjn_kernel.Text.{strlen, text, strcpy, strncpy, strcat, bzero, memcpy}

pub strlen-eq-length : (s : List ℕ) → strlen s ≡ length (text s)
unfolding strlen
strlen-eq-length [] = refl
strlen-eq-length (c ∷ cs) = ground (arith, strlen-eq-length cs)

pub strlen-le : (s : List ℕ) → strlen s ≤ length s
unfolding strlen
strlen-le [] = omega arith
strlen-le (c ∷ cs) = ground (arith, strlen-le cs)

-- A copy into a large enough buffer holds the text of the source.
pub text-strcpy : (dst src : List ℕ) → strlen src < length dst → text (strcpy dst src) ≡ text src
unfolding strcpy strlen
text-strcpy [] src h = absurd (omega arith)
text-strcpy (d ∷ ds) [] h = refl
text-strcpy (d ∷ ds) (c ∷ cs) h = elim (Bool-cases (c == 0)) [
  | inl e ↦ rw e refl
  | inr e ↦ rw (e, e) (ap (◌∷◌ c) (text-strcpy ds cs (ground arith)))
]

pub length-strcpy : (dst src : List ℕ) → length (strcpy dst src) ≡ length dst
unfolding strcpy
length-strcpy [] src = refl
length-strcpy (d ∷ ds) [] = refl
length-strcpy (d ∷ ds) (c ∷ cs) = ground (arith, length-strcpy ds cs)

-- Appending to a text with room for both holds the one text behind the other.
pub text-strcat :
    (s1 s2 : List ℕ) → strlen s1 + strlen s2 < length s1 → text (strcat s1 s2) ≡ text s1 ++ text s2
unfolding strcat strlen
text-strcat [] s2 h = absurd (omega arith)
text-strcat (c ∷ cs) s2 h = elim (Bool-cases (c == 0)) [
  | inl e ↦ rw e (text-strcpy (c ∷ cs) s2 (ground arith))
  | inr e ↦ rw (e, e) (ap (◌∷◌ c) (text-strcat cs s2 (ground arith)))
]

pub length-bzero : (s : List ℕ) (n : ℕ) → length (bzero s n) ≡ length s
unfolding bzero
length-bzero s zero = refl
length-bzero [] (suc n) = refl
length-bzero (c ∷ cs) (suc n) = ap suc (length-bzero cs n)

pub length-strncpy : (dst src : List ℕ) (n : ℕ) → length (strncpy dst src n) ≡ length dst
unfolding strncpy bzero
length-strncpy dst src zero = refl
length-strncpy [] src (suc n) = refl
length-strncpy (d ∷ ds) [] (suc n) = ap suc (length-bzero ds n)
length-strncpy (d ∷ ds) (c ∷ cs) (suc n) = ground (arith, length-bzero ds n, length-strncpy ds cs n)

-- `strncpy(dst, src, n); dst[n] = 0;`, as the kernel fills its fixed-size names: `dst` then holds
-- the first `n` bytes of the source's text.
pub text-strncpy-terminated :
    (dst src : List ℕ) (n : ℕ)
    → n < length dst
    → text (set (strncpy dst src n) n 0) ≡ take n (text src)
unfolding strncpy bzero
text-strncpy-terminated [] src n h = absurd (omega arith)
text-strncpy-terminated (d ∷ ds) src zero h = refl
text-strncpy-terminated (d ∷ ds) [] (suc n) h = refl
text-strncpy-terminated (d ∷ ds) (c ∷ cs) (suc n) h = elim (Bool-cases (c == 0)) [
  | inl e ↦ rw e refl
  | inr e ↦ rw (e, e) (ap (◌∷◌ c) (text-strncpy-terminated ds cs n (omega arith)))
]

pub length-memcpy : (dest src : List ℕ) (n : ℕ) → length (memcpy dest src n) ≡ length dest
unfolding memcpy
length-memcpy dest src zero = refl
length-memcpy [] src (suc n) = refl
length-memcpy (d ∷ ds) [] (suc n) = ap suc (length-memcpy ds [] n)
length-memcpy (d ∷ ds) (c ∷ cs) (suc n) = ap suc (length-memcpy ds cs n)
