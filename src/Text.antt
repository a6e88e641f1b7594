-- ===== src/Text.antt =====
-- kernel/lib/string.c. A buffer is the list of its bytes, and a pointer into it the list from
-- there on; the end of the list is read as a terminator. A function that writes through a pointer
-- returns the new bytes at that pointer.
pub mod Copy
pub mod Compare
pub mod Move
pub mod Number
mod Tests
use rtjn_kernel.Prelude.{
  ℕ, zero, suc, ◌+◌, ◌-◌, ◌<◌, List, [], ◌∷◌, ◌==◌, ◌!=◌, ltb, if◌then◌else◌, get_or, set, ◌&&◌,
  drop,
}
use rtjn_kernel.Prelude.Int.{ℤ, pos, negsuc, sub_ℕ, ◌-ℤ◌}

unfoldable pub strlen : List ℕ → ℕ
strlen [] = 0
strlen (c ∷ cs) = if c == 0 then 0 else suc (strlen cs)

-- The bytes in front of the terminator.
abbrev pub text : List ℕ → List ℕ
text [] = []
text (c ∷ cs) = if c == 0 then [] else c ∷ text cs

-- `n` bytes of `src` over the first `n` of `dest`.
unfoldable pub memcpy : List ℕ → List ℕ → ℕ → List ℕ
memcpy dest src zero = dest
memcpy [] src (suc n) = []
memcpy (d ∷ ds) [] (suc n) = 0 ∷ memcpy ds [] n
memcpy (d ∷ ds) (c ∷ cs) (suc n) = c ∷ memcpy ds cs n

unfoldable pub bzero : List ℕ → ℕ → List ℕ
bzero s zero = s
bzero [] (suc n) = []
bzero (c ∷ cs) (suc n) = 0 ∷ bzero cs n

unfoldable pub strcpy : List ℕ → List ℕ → List ℕ
strcpy [] src = []
strcpy (d ∷ ds) [] = 0 ∷ ds
strcpy (d ∷ ds) (c ∷ cs) = if c == 0 then 0 ∷ ds else c ∷ strcpy ds cs

-- Both loops: the bytes in front of the terminator, then zeros.
unfoldable pub strncpy : List ℕ → List ℕ → ℕ → List ℕ
unfolding bzero
strncpy dst src zero = dst
strncpy [] src (suc n) = []
strncpy (d ∷ ds) [] (suc n) = bzero (d ∷ ds) (suc n)
strncpy (d ∷ ds) (c ∷ cs) (suc n) = if c == 0 then bzero (d ∷ ds) (suc n) else c ∷ strncpy ds cs n

unfoldable pub strcat : List ℕ → List ℕ → List ℕ
unfolding strcpy
strcat [] s2 = []
strcat (c ∷ cs) s2 = if c == 0 then strcpy (c ∷ cs) s2 else c ∷ strcat cs s2

unfoldable pub memcmp : List ℕ → List ℕ → ℕ → ℤ
memcmp s1 s2 zero = pos 0
memcmp s1 s2 (suc n) =
    let a = get_or s1 0 0 in
    let b = get_or s2 0 0 in if a != b then sub_ℕ a b else memcmp (drop 1 s1) (drop 1 s2) n

-- A byte as a `char` of the target, which is signed.
abbrev pub char_value : ℕ → ℤ
char_value c = if ltb c 128 then pos c else negsuc (255 - c)

unfoldable pub strcmp : List ℕ → List ℕ → ℤ
strcmp [] s2 = pos 0 -ℤ char_value (get_or s2 0 0)
strcmp (c ∷ cs) s2 =
    let b = get_or s2 0 0 in
    if c != 0 && c == b then strcmp cs (drop 1 s2) else char_value c -ℤ char_value b

unfoldable pub strncmp : List ℕ → List ℕ → ℕ → ℤ
strncmp s1 s2 zero = pos 0
strncmp s1 s2 (suc n) =
    let a = get_or s1 0 0 in
    let b = get_or s2 0 0 in
    if a != 0 && a == b then strncmp (drop 1 s1) (drop 1 s2) n else sub_ℕ a b

-- `memmove(p + d, p + s, n)` inside one array, `d` and `s` offsets: the loop that runs up, at
-- index `i` with `left` rounds to go, and the loop that runs down from `i`.
unfoldable pub move_up : List ℕ → ℕ → ℕ → ℕ → ℕ → List ℕ
move_up p d s i zero = p
move_up p d s i (suc left) = move_up (set p (d + i) (get_or p (s + i) 0)) d s (i + 1) left

unfoldable pub move_down : List ℕ → ℕ → ℕ → ℕ → List ℕ
move_down p d s zero = p
move_down p d s (suc i) = move_down (set p (d + i) (get_or p (s + i) 0)) d s i

unfoldable pub memmove : List ℕ → ℕ → ℕ → ℕ → List ℕ
unfolding move_up move_down
memmove p d s n = if ltb d s then move_up p d s 0 n else move_down p d s n
