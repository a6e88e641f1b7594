-- ===== src/Memory/Tests.antt =====
-- Runs of the allocator on small machines, and the theorems at those inputs.
use rtjn_kernel.Prelude.{
  ℕ, ◌*◌, ◌/◌, ◌<◌, ◌≡◌, refl, arith, List, [], ◌∷◌, replicate, length-replicate, zero, suc, get_or,
}
use rtjn_kernel.Memory.Bitmap.{taken, mmap_set, mmap_test}
use rtjn_kernel.Memory.Frames.{
  Frames, MapEntry, pm_init, pm_alloc, pm_free, pm_alloc_blocks, bitmap_size, block_size,
}
use rtjn_kernel.Memory.Frames.Init.{pm_init-IsSound, pm_init-IsSeparated}
use rtjn_kernel.Memory.Frames.Alloc.{
  IsSound, whole, kernel_blocks, pm_alloc-Outcome, pm_alloc-IsSound, pm_free-IsSound,
  pm_free-pm_alloc,
}
use rtjn_kernel.Memory.Frames.Alloc
use rtjn_kernel.Memory.Frames.Runs
use rtjn_kernel.Memory.Frames.Blocks.{IsSeparated}
use rtjn_kernel.Memory.Frames.Runs.{pm_alloc_blocks-Outcome, IsSplit, split_at, split_run_found}

-- 640 KiB of low memory and 3.25 MiB from 1 MiB on.
abbrev entries : List MapEntry
entries =
    record { addr_low = 0; len_low = 0x9_fc00; mtype = 1 }
    ∷ record { addr_low = 0x10_0000; len_low = 0x34_0000; mtype = 1 }
    ∷ record { addr_low = 0xffff_0000; len_low = 0x1_0000; mtype = 2 }
    ∷ []

abbrev bss : List ℕ
bss = replicate bitmap_size 0

-- The machine after `pm_init`: 1088 blocks, the last 64 free.
booted : Frames
booted = pm_init bss entries

booted_blocks : booted.blocks ≡ 1088
unfolding booted pm_init
booted_blocks = refl

pm_init-IsSound_example : IsSound (pm_init bss entries)
unfolding booted
pm_init-IsSound_example =
    pm_init-IsSound bss entries (length-replicate {A = ℕ} bitmap_size 0)
      (omega (arith, booted_blocks))

booted-IsSound : IsSound booted
unfolding booted
booted-IsSound =
    pm_init-IsSound bss entries (length-replicate {A = ℕ} bitmap_size 0)
      (omega (arith, booted_blocks))

pm_alloc-Outcome_example : Alloc.Outcome booted (pm_alloc booted)
pm_alloc-Outcome_example = pm_alloc-Outcome booted booted-IsSound

first_address : (pm_alloc booted).0 ≡ 1024 * block_size
unfolding booted pm_init pm_alloc mmap_test mmap_set
first_address = refl

pm_free-pm_alloc_example :
    let (p, f') = pm_alloc booted in
    ((c : ℕ) → taken (pm_free p f').map c ≡ taken booted.map c)
    × ((pm_free p f').used ≡ booted.used)
pm_free-pm_alloc_example = pm_free-pm_alloc booted booted-IsSound (omega (arith, first_address))

after_one : Frames
after_one = (pm_alloc booted).1

after_one-IsSound : IsSound after_one
unfolding after_one
after_one-IsSound = pm_alloc-IsSound booted booted-IsSound

after_one_blocks : after_one.blocks ≡ 1088
unfolding after_one booted pm_init pm_alloc mmap_test mmap_set
after_one_blocks = refl

after_one_taken : taken after_one.map (1024 * block_size / block_size) ≡ 1
unfolding after_one booted pm_init pm_alloc mmap_test mmap_set
after_one_taken = refl

booted-IsSeparated : IsSeparated booted.map (booted.blocks / 32)
unfolding booted
booted-IsSeparated =
    pm_init-IsSeparated bss entries (length-replicate {A = ℕ} bitmap_size 0)
      (omega (arith, booted_blocks))

pm_alloc_blocks-Outcome_example : Runs.Outcome booted 3 (pm_alloc_blocks 3 booted)
pm_alloc_blocks-Outcome_example =
    pm_alloc_blocks-Outcome booted 3 booted-IsSound (omega arith) booted-IsSeparated

three_blocks : (pm_alloc_blocks 3 booted).0 ≡ 1024 * block_size
unfolding booted pm_init pm_alloc_blocks mmap_test mmap_set
three_blocks = refl

-- Word 1 is free only at its end, word 2 is full, and word 3 is free.
abbrev split : Frames
split = record {
  map = 0xffff_ffff ∷ 0x7fff_ffff ∷ 0xffff_ffff ∷ 0 ∷ [];
  size = 128 * block_size;
  blocks = 128;
  used = 95;
}

split-IsSplit : IsSplit split 1
split-IsSplit = record {
  front = front;
  edge = refl;
  full = refl;
  next = refl;
  inside = omega arith;
}
  where
    front : (j : ℕ) → j < 1 → get_or split.map j 0 ≡ 0xffff_ffff
    front zero h = refl
    front (suc j) h = absurd (omega arith)
