-- ===== src/Memory/Frames.antt =====
-- The physical allocator of kernel/mm/pmm.c, and the memory map scan of
-- kernel/mm/get_mem_max_addr.c that sizes it.
pub mod Search
pub mod Count
pub mod Alloc
pub mod Blocks
pub mod Runs
pub mod Init
use rtjn_kernel.Prelude.{
  ℕ, zero, suc, ◌+◌, ◌-◌, ◌*◌, ◌/◌, ◌%◌, ◌^◌, bit_and, List, [], ◌∷◌, Option, none, some, get_or,
  set, ltb, ◌==◌, ◌!=◌, if◌then◌else◌, replicate, Bool, true, false,
}
use rtjn_kernel.Prelude.Bits.{complement, u32}
use rtjn_kernel.Memory.Bitmap.{Bitmap, mmap_set, mmap_unset, mmap_test}

abbrev pub all_taken : ℕ
all_taken = 0xffff_ffff

abbrev pub block_size : ℕ
block_size = 4096

abbrev pub bitmap_size : ℕ
bitmap_size = 32768

-- The `_pm_*` globals.
pub record Frames : Type 0 where
  pub map : Bitmap
  pub size : ℕ
  pub blocks : ℕ
  pub used : ℕ

-- `multiboot_memory_map_t`, the fields that the scan reads; `mtype` is its `type`.
pub record MapEntry : Type 0 where
  pub addr_low : ℕ
  pub len_low : ℕ
  pub mtype : ℕ

abbrev pub memory_available : ℕ
memory_available = 1

-- The loop of `ram_max` with its `addr_max`; the list is the entries still to read. `addr_min`
-- is only printed.
unfoldable pub ram_max_from : ℕ → List MapEntry → ℕ
ram_max_from addr_max [] = addr_max
ram_max_from addr_max (e ∷ es) =
    let tmp = u32 (e.addr_low + e.len_low) in
    ram_max_from
      (if e.mtype == memory_available then if ltb addr_max tmp then tmp else addr_max else addr_max)
      es

unfoldable pub ram_max : List MapEntry → ℕ
unfolding ram_max_from
ram_max es = ram_max_from 0 es

-- `for (; i < i + n; i++) _pm_map[i] = v;`
unfoldable pub fill_words : ℕ → ℕ → ℕ → Bitmap → Bitmap
fill_words zero i v m = m
fill_words (suc n) i v m = fill_words n (i + 1) v (set m i v)

-- `old` is the bitmap before the call. `-` stops at 0 as the second loop's test does.
unfoldable pub pm_init : Bitmap → List MapEntry → Frames
unfolding ram_max fill_words
pm_init old es =
    let size = bit_and (u32 (u32 (ram_max es + block_size) + (2 ^ 32 - 1))) (complement 32 4095) in
    let blocks = size / block_size in
    record {
      map = fill_words (blocks / 32 - 32) 32 0 (fill_words 32 0 all_taken old);
      size = size;
      blocks = blocks;
      used = 1024;
    }

unfoldable pub pm_free_count : Frames → ℕ
pm_free_count f = u32 (f.blocks + 2 ^ 32 - f.used)

-- The inner loop of `mmap_get_first_free`, at `block` with `left` rounds to go.
unfoldable pub first_free_in_word : Bitmap → ℕ → ℕ → Option ℕ
first_free_in_word m block zero = none
first_free_in_word m block (suc left) =
    let rest = first_free_in_word m (block + 1) left in
    if mmap_test m block == 0 then some block else rest

abbrev pub or_else : Option ℕ → Option ℕ → Option ℕ
or_else (some b) rest = some b
or_else none rest = rest

-- The outer loop, at word `i` with `left` words to go.
unfoldable pub first_free_from : Bitmap → ℕ → ℕ → Option ℕ
unfolding first_free_in_word
first_free_from m i zero = none
first_free_from m i (suc left) =
    let rest = first_free_from m (i + 1) left in
    if get_or m i 0 != all_taken then or_else (first_free_in_word m (i * 32) 32) rest else rest

-- `none` is the -1.
unfoldable pub mmap_get_first_free : Frames → Option ℕ
unfolding first_free_from
mmap_get_first_free f = first_free_from f.map 0 (f.blocks / 32)

-- The locals `c` and `first_block` of `mmap_get_free_consecutives`, or its result.
pub data Scan : Type 0 where
  found : ℕ → Scan
  running : (c first_block : ℕ) → Scan

abbrev pub and_then : Scan → (ℕ → ℕ → Scan) → Scan
and_then (found b) k = found b
and_then (running c first_block) k = k c first_block

-- One round of the inner loop.
unfoldable pub scan_block : Bitmap → ℕ → ℕ → ℕ → ℕ → Scan
scan_block m n block c first_block =
    let first' = if first_block == 0 then block else first_block in
    let counted = if (c + 1) == n then found first' else running (c + 1) first' in
    if mmap_test m block == 0 then counted else running 0 0

unfoldable pub scan_word : Bitmap → ℕ → ℕ → ℕ → ℕ → ℕ → Scan
unfolding scan_block
scan_word m n block zero c first_block = running c first_block
scan_word m n block (suc left) c first_block =
    and_then (scan_block m n block c first_block) (scan_word m n (block + 1) left)

-- The outer loop: a full word is stepped over with `c` and `first_block` as they are.
unfoldable pub scan_words : Bitmap → ℕ → ℕ → ℕ → ℕ → ℕ → Scan
unfolding scan_word
scan_words m n i zero c first_block = running c first_block
scan_words m n i (suc left) c first_block =
    and_then
      (if get_or m i 0 != all_taken
        then scan_word m n (i * 32) 32 c first_block
        else running c first_block)
      (scan_words m n (i + 1) left)

abbrev pub result : Scan → Option ℕ
result (found b) = some b
result (running c first_block) = none

unfoldable pub mmap_get_free_consecutives : Frames → ℕ → Option ℕ
unfolding scan_words
mmap_get_free_consecutives f n = result (scan_words f.map n 0 (f.blocks / 32) 0 0)

-- `for (i = frame; i < frame + n; i++) mmap_set(i);`
unfoldable pub mmap_set_range : ℕ → ℕ → Bitmap → Bitmap
mmap_set_range zero i m = m
mmap_set_range (suc n) i m = mmap_set_range n (i + 1) (mmap_set m i)

-- The address is first, 0 for the null pointer.
unfoldable pub pm_alloc_blocks : ℕ → Frames → ℕ × Frames
unfolding pm_free_count mmap_get_free_consecutives mmap_set_range
pm_alloc_blocks n f =
    if ltb (pm_free_count f) n then (0, f) else elim (mmap_get_free_consecutives f n) [
      | none ↦ (0, f)
      | some frame ↦ (
        u32 (frame * block_size),
        record f { map = mmap_set_range n frame f.map; used = u32 (f.used + n) },
      )
    ]

unfoldable pub pm_alloc : Frames → ℕ × Frames
unfolding pm_free_count mmap_get_first_free
pm_alloc f = if pm_free_count f == 0 then (0, f) else elim (mmap_get_first_free f) [
  | none ↦ (0, f)
  | some frame ↦
      (u32 (frame * block_size), record f { map = mmap_set f.map frame; used = u32 (f.used + 1) })
]

unfoldable pub pm_free : ℕ → Frames → Frames
pm_free block_paddr f = record f {
  map = mmap_unset f.map (block_paddr / block_size);
  used = u32 (f.used + 2 ^ 32 - 1);
}
