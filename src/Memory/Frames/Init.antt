-- ===== src/Memory/Frames/Init.antt =====
-- `pm_init` and `ram_max`: the allocator that the boot sets up.
use rtjn_kernel.Prelude.{
  ℕ, zero, suc, ◌+◌, ◌-◌, ◌*◌, ◌/◌, ◌%◌, ◌^◌, ◌≤◌, ◌<◌, ◌≡◌, refl, arith, length, get_or, set,
  if◌then◌else◌, ◌&&◌, ◌∙◌, ltb, leb, min, List, get_or-set, length-set,
}
use rtjn_kernel.Prelude.Bits.{bit_ones, complement, bit_and-le, zero-bit}
use rtjn_kernel.Memory.Bitmap.{Bitmap, taken}
use rtjn_kernel.Prelude.Bits.{u32}
use rtjn_kernel.Memory.Frames.{
  MapEntry, block_size, bitmap_size, all_taken, fill_words, pm_init, ram_max,
}
use rtjn_kernel.Memory.Frames.Count.{count_taken}
use rtjn_kernel.Memory.Frames.Blocks.{IsSeparated}
use rtjn_kernel.Memory.Frames.Alloc.{IsSound, kernel_blocks}

length-fill_words : (n i v : ℕ) (m : Bitmap) → length (fill_words n i v m) ≡ length m
unfolding fill_words
length-fill_words zero i v m = refl
length-fill_words (suc n) i v m = length-fill_words n (i + 1) v (set m i v) ∙ length-set m i v

get_or-fill_words :
    (n i v : ℕ) (m : Bitmap) (j : ℕ)
    → i + n ≤ length m
    → get_or (fill_words n i v m) j 0 ≡ (if leb i j && ltb j (i + n) then v else get_or m j 0)
unfolding fill_words
get_or-fill_words zero i v m j h = ground arith
get_or-fill_words (suc n) i v m j h = ground (
  arith,
  get_or-fill_words n (i + 1) v (set m i v) j (omega (arith, length-set m i v)),
  get_or-set m i j v 0 (omega arith),
)

-- The count of a map whose blocks below 1024 are taken and the others free.
count_taken_init :
    (m : Bitmap) (k : ℕ)
    → ((c : ℕ) → c < k → taken m c ≡ (if ltb c kernel_blocks then 1 else 0))
    → count_taken m k ≡ min k kernel_blocks
count_taken_init m zero h = refl
count_taken_init m (suc k) h =
    ground (arith, h k (omega arith), count_taken_init m k (λ c p. h c (omega arith)))

module _ (old : Bitmap) (es : List MapEntry) (fits : length old ≡ bitmap_size) where
  blocks_bound : (pm_init old es).blocks ≤ 2 ^ 20
  unfolding pm_init
  blocks_bound =
      let raw = u32 (u32 (ram_max es + block_size) + (2 ^ 32 - 1)) in
      omega (arith, bit_and-le raw (complement 32 4095))

  init_words :
      (j : ℕ)
      → 1024 ≤ (pm_init old es).blocks
      → j < (pm_init old es).blocks / 32
      → get_or (pm_init old es).map j 0 ≡ (if ltb j 32 then all_taken else 0)
  unfolding pm_init
  init_words j big h =
      let first = fill_words 32 0 all_taken old in
      let words = (pm_init old es).blocks / 32 in
      ground (
        arith,
        blocks_bound,
        get_or-fill_words (words - 32) 32 0 first j
            (omega (arith, blocks_bound, length-fill_words 32 0 all_taken old)),
        get_or-fill_words 32 0 all_taken old j (omega arith),
      )

  init_taken :
      (c : ℕ)
      → 1024 ≤ (pm_init old es).blocks
      → c < (pm_init old es).blocks / 32 * 32
      → taken (pm_init old es).map c ≡ (if ltb c kernel_blocks then 1 else 0)
  init_taken c big h = ground (
    arith,
    init_words (c / 32) big (omega arith),
    bit_ones 32 (c % 32) (omega arith),
    zero-bit (c % 32),
  )

  init_room : (pm_init old es).blocks / 32 ≤ length (pm_init old es).map
  unfolding pm_init
  init_room =
      let words = (pm_init old es).blocks / 32 in
      omega (
        arith,
        blocks_bound,
        length-fill_words (words - 32) 32 0 (fill_words 32 0 all_taken old),
        length-fill_words 32 0 all_taken old,
      )

  init_used : (pm_init old es).used ≡ kernel_blocks
  unfolding pm_init
  init_used = refl

  -- With a bitmap of its declared size and at least 1024 blocks of memory, pm_init sets up a
  -- sound allocator: the kernel's 1024 blocks are taken and the counter is the number of taken
  -- blocks.
  pub pm_init-IsSound : 1024 ≤ (pm_init old es).blocks → IsSound (pm_init old es)
  pm_init-IsSound big = record {
    room = init_room;
    sized = blocks_bound;
    counted =
        let k = (pm_init old es).blocks / 32 * 32 in
        omega
          (arith, init_used, count_taken_init (pm_init old es).map k (λ c p. init_taken c big p));
    kernel = λ b p. ground (arith, init_taken b big (omega arith));
  }

  -- The bitmap that `pm_init` sets up is separated: its full words are the kernel's.
  pub pm_init-IsSeparated :
      1024 ≤ (pm_init old es).blocks
      → IsSeparated (pm_init old es).map ((pm_init old es).blocks / 32)
  pm_init-IsSeparated big = record {
    kernel_word = ground (arith, init_words 0 big (omega arith));
    behind_taken = λ i lt e.
        ground (arith, init_words (suc i) big lt, init_taken (i * 32 + 31) big (omega arith));
  }
