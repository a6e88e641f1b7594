-- ===== src/Text/Move.antt =====
-- `memmove` inside one array.
use rtjn_kernel.Prelude.{
  ℕ, zero, suc, ◌+◌, ◌-◌, ◌≤◌, ◌<◌, ◌≡◌, refl, arith, List, ltb, leb, ◌&&◌, if◌then◌else◌, get_or,
  set, get_or-set, length, length-set,
}
use rtjn_kernel.Text.{memmove, move_up, move_down}

length-move_up : (p : List ℕ) (d s i left : ℕ) → length (move_up p d s i left) ≡ length p
unfolding move_up
length-move_up p d s i zero = refl
length-move_up p d s i (suc left) = omega (
  arith,
  length-move_up (set p (d + i) (get_or p (s + i) 0)) d s (i + 1) left,
  length-set p (d + i) (get_or p (s + i) 0),
)

length-move_down : (p : List ℕ) (d s i : ℕ) → length (move_down p d s i) ≡ length p
unfolding move_down
length-move_down p d s zero = refl
length-move_down p d s (suc i) = omega (
  arith,
  length-move_down (set p (d + i) (get_or p (s + i) 0)) d s i,
  length-set p (d + i) (get_or p (s + i) 0),
)

pub length-memmove : (p : List ℕ) (d s n : ℕ) → length (memmove p d s n) ≡ length p
unfolding memmove
length-memmove p d s n = ground (arith, length-move_up p d s 0 n, length-move_down p d s n)

-- The loop that runs up reads each source byte before it is written.
move_up_lem :
    (p : List ℕ) (d s i left j : ℕ)
    → d < s
    → d + i + left ≤ length p
    → get_or (move_up p d s i left) j 0
      ≡ (if leb (d + i) j && ltb j (d + i + left) then get_or p (s + (j - d)) 0 else get_or p j 0)
unfolding move_up
move_up_lem p d s i zero j lt fits = ground arith
move_up_lem p d s i (suc left) j lt fits =
    let v = get_or p (s + i) 0 in
    ground (
      arith,
      move_up_lem (set p (d + i) v) d s (i + 1) left j lt (omega (arith, length-set p (d + i) v)),
      get_or-set p (d + i) (s + (j - d)) v 0 (omega arith),
      get_or-set p (d + i) j v 0 (omega arith),
    )

move_down_lem :
    (p : List ℕ) (d s i j : ℕ)
    → s ≤ d
    → d + i ≤ length p
    → get_or (move_down p d s i) j 0
      ≡ (if leb d j && ltb j (d + i) then get_or p (s + (j - d)) 0 else get_or p j 0)
unfolding move_down
move_down_lem p d s zero j le fits = ground arith
move_down_lem p d s (suc i) j le fits =
    let v = get_or p (s + i) 0 in
    ground (
      arith,
      move_down_lem (set p (d + i) v) d s i j le (omega (arith, length-set p (d + i) v)),
      get_or-set p (d + i) (s + (j - d)) v 0 (omega arith),
      get_or-set p (d + i) j v 0 (omega arith),
    )

-- Inside one array that holds the destination, memmove copies the n bytes that stood at the
-- source before the call, overlapping or not, and leaves every other byte.
pub get_or-memmove :
    (p : List ℕ) (d s n j : ℕ)
    → d + n ≤ length p
    → get_or (memmove p d s n) j 0
      ≡ (if leb d j && ltb j (d + n) then get_or p (s + (j - d)) 0 else get_or p j 0)
unfolding memmove
get_or-memmove p d s n j fits = ground (arith, move_up_lem p d s 0 n j, move_down_lem p d s n j)
