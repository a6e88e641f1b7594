-- ===== src/Files/Ext2/Tests.antt =====
-- A file of 1500 bytes in two blocks, and a drive whose sectors hold one byte all over, for
-- kernel/fs/ext2.c.
use rtjn_kernel.Prelude.{
  ℕ, zero, suc, ◌+◌, ◌-◌, ◌*◌, ◌≤◌, ◌<◌, ◌≡◌, ◌≢◌, refl, arith, List, [], ◌∷◌, some, true, false,
  min, replicate, length-replicate, ≢→==,
}
use rtjn_kernel.Files.Ext2.{Inode, Ext2, Drive, ext2_read_block, ext2_block_lookup, ext2_read_data}
use rtjn_kernel.Files.Ext2.Read.{IsStored, IsSlice, ext2_read_data-IsSlice}
use rtjn_kernel.Files.Ext2.Alloc.{Disk, bit_is_set, set_bit, clear_bit}
use rtjn_kernel.Files.Ext2.Write.{File, ext2_write_data}
use rtjn_kernel.Files.Ext2.Write.Grow.{ext2_write_data-InBlock}
use rtjn_kernel.Files.Ext2.Alloc.Back.{clear_bit-set_bit}

abbrev small_fs : Ext2
small_fs = record {
  block_size = 1024;
  fits = omega arith;
  blocks_per_group = 8192;
  group_count = 1;
  super = replicate 84 1;
  group_desc = replicate 32 1;
}

abbrev two_blocks : Inode
two_blocks = record { mode = 33188; size = 1500; blocks = 4; block = 10 ∷ 11 ∷ [] }

abbrev same_bytes : Drive
same_bytes at n = some (replicate (n * 512) 65)

abbrev contents : ℕ → List ℕ
contents k = replicate 1024 65

read_a_block :
    (block : ℕ) → block ≢ 0 → ext2_read_block same_bytes small_fs block 1024 ≡ (1024, contents 0)
unfolding ext2_read_block
read_a_block block nz = rw (≢→== block 0 nz) refl

mapped_blocks : (k : ℕ) → k * 1024 < 1500 → ext2_block_lookup same_bytes small_fs two_blocks k ≢ 0
unfolding ext2_block_lookup
mapped_blocks zero lt = λ e. absurd (omega (arith, e))
mapped_blocks (suc zero) lt = λ e. absurd (omega (arith, e))
mapped_blocks (suc (suc k)) lt = absurd (omega arith)

two_blocks-IsStored : IsStored same_bytes small_fs two_blocks contents
two_blocks-IsStored = record {
  mapped = mapped_blocks;
  readable = λ k lt.
      read_a_block (ext2_block_lookup same_bytes small_fs two_blocks k) (mapped_blocks k lt);
  full = λ k. length-replicate {A = ℕ} 1024 65;
}

ext2_read_data-IsSlice_example :
    IsSlice small_fs contents 1000
      (min 600 (1500 - 1000))
      (ext2_read_data same_bytes small_fs two_blocks 1000 600)
ext2_read_data-IsSlice_example =
    ext2_read_data-IsSlice two_blocks-IsStored (omega arith) 1000 600 (omega arith)

-- The state of the drive is the number of sectors written.
abbrev counting_disk : Disk ℕ
counting_disk = record {
  read = λ at n d. some (replicate (n * 512) 65);
  write = λ at n bytes d. (true, d + n);
  overrun = λ d. d;
}

abbrev one_block : File ℕ
one_block = record {
  fs = small_fs;
  inode = record { mode = 33188; size = 1000; blocks = 2; block = 10 ∷ 0 ∷ [] };
  state = 0;
}

ext2_write_data-InBlock_example :
    (ext2_write_data counting_disk (contents 0) 1000 100 (replicate 100 66) one_block).0 ≤ 24
ext2_write_data-InBlock_example =
    ext2_write_data-InBlock counting_disk (contents 0) 1000 100 (replicate 100 66) one_block
      (omega arith) (omega arith) (omega arith) (omega arith) refl

abbrev bitmap : List ℕ
bitmap = 255 ∷ 1 ∷ 0 ∷ 0 ∷ []

bit_11 : bit_is_set bitmap 11 ≡ false
unfolding bit_is_set
bit_11 = refl

clear_bit-set_bit_example : clear_bit (set_bit bitmap 11) 11 ≡ bitmap
clear_bit-set_bit_example = clear_bit-set_bit bitmap 11 (omega arith) (omega arith) bit_11
