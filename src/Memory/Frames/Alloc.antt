-- ===== src/Memory/Frames/Alloc.antt =====
-- `pm_alloc` and `pm_free`: the invariant of the frame allocator, and what a call does to it.
use rtjn_kernel.Prelude.{
  ℕ, ◌+◌, ◌-◌, ◌*◌, ◌/◌, ◌^◌, ◌≤◌, ◌<◌, ◌≡◌, refl, ◌≢◌, arith, ◌==◌, length, none, some, inl, inr,
  if◌then◌else◌, false, ap, Option-cases,
}
use rtjn_kernel.Memory.Bitmap.{
  mmap_set, taken, taken-mmap_set, taken-mmap_unset, length-mmap_set, length-mmap_unset,
}
use rtjn_kernel.Prelude.Bits.{u32}
use rtjn_kernel.Memory.Frames.{
  Frames, pm_alloc, pm_free, pm_free_count, mmap_get_first_free, block_size,
}
use rtjn_kernel.Memory.Frames.Search.{IsFirstFree, AllTaken, Found, mmap_get_first_free-Found}
use rtjn_kernel.Memory.Frames.Count.{
  count_taken, count_taken-le, taken_of_full, count_taken-mmap_set, count_taken-mmap_unset,
}
use mathlib.Core.Path.{subst, sym}
use native.Mathlib.Decide.{dec_lt}

-- The blocks that the searches look at: those of the whole words.
abbrev pub whole : Frames → ℕ
whole f = f.blocks / 32 * 32

abbrev pub kernel_blocks : ℕ
kernel_blocks = 1024

pub record IsSound (f : Frames) : Type 0 where
  pub room : f.blocks / 32 ≤ length f.map
  pub sized : f.blocks ≤ 2 ^ 20
  pub counted : f.used ≡ count_taken f.map (whole f)
  pub kernel : (b : ℕ) → b < kernel_blocks → taken f.map b ≡ 1

-- `f'` is `f` with the free block `b` taken and counted.
pub record Takes (f : Frames) (b : ℕ) (f' : Frames) : Type 0 where
  pub was_free : taken f.map b ≡ 0
  pub takes : (c : ℕ) → taken f'.map c ≡ (if b == c then 1 else taken f.map c)
  pub counts : f'.used ≡ f.used + 1
  pub same_blocks : f'.blocks ≡ f.blocks
  pub same_length : length f'.map ≡ length f.map

pub used-le-whole : (f : Frames) → IsSound f → f.used ≤ whole f
used-le-whole f s = omega (arith, s.counted, count_taken-le f.map (whole f))

pub free_count_lem : (f : Frames) → IsSound f → pm_free_count f ≡ f.blocks - f.used
unfolding pm_free_count
free_count_lem f s = omega (arith, s.sized, used-le-whole f s)

abbrev taking : Frames → ℕ → Frames
taking f b = record f { map = mmap_set f.map b; used = f.used + 1 }

-- With a free block among the whole words `pm_alloc` hands out the lowest.
pub pm_alloc-first :
    (f : Frames) (b : ℕ)
    → IsSound f
    → mmap_get_first_free f ≡ some b
    → pm_alloc f ≡ (b * block_size, taking f b)
unfolding pm_alloc
pm_alloc-first f b s e =
    let hit : IsFirstFree f.map 0 (whole f) b =
      subst (Found f.map 0 (whole f)) e (mmap_get_first_free-Found f) in
    let below : f.used ≢ whole f = λ full.
      let h = taken_of_full f.map (whole f) b (omega (arith, s.counted)) hit.below in
      omega (arith, hit.free) in
    let some_free : (pm_free_count f == 0) ≡ false =
      ground (arith, free_count_lem f s, used-le-whole f s) in
    let fits : u32 (b * block_size) ≡ b * block_size = omega (arith, s.sized, hit.below) in
    let next : u32 (f.used + 1) ≡ f.used + 1 = omega (arith, s.sized, used-le-whole f s) in
    rw (some_free, e, fits, next) refl

-- The null address comes exactly when every block of the whole words is taken.
pub pm_alloc-none : (f : Frames) → IsSound f → mmap_get_first_free f ≡ none → pm_alloc f ≡ (0, f)
unfolding pm_alloc
pm_alloc-none f s e = rw e (ground arith)

taking-Takes :
    (f : Frames) (b : ℕ) → IsSound f → b < whole f → taken f.map b ≡ 0 → Takes f b (taking f b)
taking-Takes f b s lt free = record {
  was_free = free;
  takes = λ c. taken-mmap_set f.map b c (omega (arith, s.room));
  counts = refl;
  same_blocks = refl;
  same_length = length-mmap_set f.map b;
}

taking-IsSound :
    (f : Frames) (b : ℕ) → IsSound f → b < whole f → taken f.map b ≡ 0 → IsSound (taking f b)
taking-IsSound f b s lt free = record {
  room = omega (arith, s.room, length-mmap_set f.map b);
  sized = s.sized;
  counted =
      omega
        (arith, s.counted, count_taken-mmap_set f.map b (whole f) lt (omega (arith, s.room)) free);
  kernel = λ c p. ground (arith, s.kernel c p, taken-mmap_set f.map b c (omega (arith, s.room)));
}

-- What a call of `pm_alloc` may do: hand out the lowest free block, which lies above the
-- kernel's, or report that there is none and change nothing.
pub data Outcome (f : Frames) : ℕ × Frames → Type 0 where
  handed :
      (b : ℕ) (f' : Frames)
      → IsFirstFree f.map 0 (whole f) b
      → kernel_blocks ≤ b
      → Takes f b f'
      → Outcome f (b * block_size, f')
  exhausted : AllTaken f.map 0 (whole f) → Outcome f (0, f)

-- Every call of pm_alloc on a sound allocator hands out the lowest free block of the whole
-- words, which lies above the kernel's 1024, takes that block and no other and adds one to the
-- counter; or every block is taken and it returns the null address with the state unchanged.
pub pm_alloc-Outcome : (f : Frames) → IsSound f → Outcome f (pm_alloc f)
pm_alloc-Outcome f s = elim (Option-cases (mmap_get_first_free f)) [
  | inl e ↦
      subst (Outcome f) (sym (pm_alloc-none f s e))
        (exhausted (subst (Found f.map 0 (whole f)) e (mmap_get_first_free-Found f)))
  | inr (b, e) ↦
      let hit : IsFirstFree f.map 0 (whole f) b =
        subst (Found f.map 0 (whole f)) e (mmap_get_first_free-Found f) in
      subst (Outcome f) (sym (pm_alloc-first f b s e))
        (handed b (taking f b) hit (above_kernel b hit) (taking-Takes f b s hit.below hit.free))
]
  where
    above_kernel : (b : ℕ) → IsFirstFree f.map 0 (whole f) b → kernel_blocks ≤ b
    above_kernel b hit = elim (dec_lt b kernel_blocks) [
      | yes lt ↦ absurd (omega (arith, hit.free, s.kernel b lt))
      | no ge ↦ omega arith
    ]

-- `pm_alloc` keeps the invariant.
pub pm_alloc-IsSound : (f : Frames) → IsSound f → IsSound (pm_alloc f).1
pm_alloc-IsSound f s = elim (Option-cases (mmap_get_first_free f)) [
  | inl e ↦ rw (pm_alloc-none f s e) s
  | inr (b, e) ↦
      let hit : IsFirstFree f.map 0 (whole f) b =
        subst (Found f.map 0 (whole f)) e (mmap_get_first_free-Found f) in
      rw (pm_alloc-first f b s e) (taking-IsSound f b s hit.below hit.free)
]

-- pm_free keeps the allocator sound when it is given the address of a taken block above the
-- kernel's and within the whole words.
pub pm_free-IsSound :
    (f : Frames) (p : ℕ)
    → IsSound f
    → kernel_blocks ≤ p / block_size
    → p / block_size < whole f
    → taken f.map (p / block_size) ≡ 1
    → IsSound (pm_free p f)
unfolding pm_free
pm_free-IsSound f p s ge lt held =
    let b = p / block_size in
    let inside : b / 32 < length f.map = omega (arith, s.room) in
    record {
      room = omega (arith, s.room, length-mmap_unset f.map b);
      sized = s.sized;
      counted = omega (
        arith,
        s.counted,
        s.sized,
        used-le-whole f s,
        count_taken-mmap_unset f.map b (whole f) lt inside held,
      );
      kernel = λ c q. ground (arith, s.kernel c q, taken-mmap_unset f.map b c inside);
    }

-- On a sound allocator, freeing what pm_alloc handed out leaves every block and the counter as
-- before the allocation.
pub pm_free-pm_alloc :
    (f : Frames)
    → IsSound f
    → (pm_alloc f).0 ≢ 0
    → let (p, f') = pm_alloc f in
      ((c : ℕ) → taken (pm_free p f').map c ≡ taken f.map c) × ((pm_free p f').used ≡ f.used)
unfolding pm_free
pm_free-pm_alloc f s ne = elim (Option-cases (mmap_get_first_free f)) [
  | inl e ↦ absurd (ne (ap (λ (x : ℕ × Frames). x.0) (pm_alloc-none f s e)))
  | inr (b, e) ↦
      let hit : IsFirstFree f.map 0 (whole f) b =
        subst (Found f.map 0 (whole f)) e (mmap_get_first_free-Found f) in
      let inside : b / 32 < length f.map = omega (arith, s.room, hit.below) in
      let inside' : b / 32 < length (mmap_set f.map b) = omega (arith, length-mmap_set f.map b) in
      let back : b * block_size / block_size ≡ b = omega arith in
      rw (pm_alloc-first f b s e, back)
        (
          λ c. ground (
            arith,
            taken-mmap_unset (mmap_set f.map b) b c inside',
            taken-mmap_set f.map b c inside,
            hit.free,
          ),
          omega (arith, s.sized, used-le-whole f s),
        )
]
