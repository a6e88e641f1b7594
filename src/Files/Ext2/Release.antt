-- ===== src/Files/Ext2/Release.antt =====
-- How kernel/fs/ext2.c gives back the blocks of a file that goes.
pub mod Clear
use rtjn_kernel.Prelude.{
  ℕ, zero, suc, ◌+◌, ◌*◌, ◌/◌, ◌<◌, ◌≤◌, ◌≡◌, refl, arith, List, [], ◌∷◌, Bool, true, false, ◌==◌,
  ==→≡, if◌then◌else◌, if_intro, get_or, set, min, get_or-set_ne, sym,
}
use native.Mathlib.Decide.{dec_lt}
use rtjn_kernel.Files.Ext2.{Inode, Ext2, le32, ext2_read_block}
use rtjn_kernel.Files.Ext2.Alloc.{Disk, ext2_free_block}
use rtjn_kernel.Files.Ext2.Write.{File, drive}

-- Pointer `k`, where it is not zero, goes with what `release` does to what it points at.
unfoldable pub cleared : {D : Type 0} → (ℕ → Ext2 × D → Ext2 × D) → ℕ → File D → File D
cleared release k f =
    let block = get_or f.inode.block k 0 in
    let (fs, d) = release block (f.fs, f.state) in
    if block == 0
    then f
    else record { fs = fs; inode = record f.inode { block = set f.inode.block k 0 }; state = d }

-- The bytes `buf` are the buffer of `ext2_free_block`.
module _ {D : Type 0} (disk : Disk D) (buf : List ℕ) where
  abbrev pub free_one : ℕ → Ext2 × D → Ext2 × D
  free_one block (fs, d) = ext2_free_block disk buf block fs d

  -- `n` pointers of a table from pointer `i` on, but for those that are zero.
  unfoldable pub free_pointers : (ℕ → Ext2 × D → Ext2 × D) → ℕ → ℕ → List ℕ → Ext2 × D → Ext2 × D
  free_pointers release zero i ptrs s = s
  free_pointers release (suc n) i ptrs s =
      let block = le32 ptrs (4 * i) in
      free_pointers release n (i + 1) ptrs (if block == 0 then s else release block s)

  -- A table, with what `release` does to each of its pointers; none, where it cannot be read.
  unfoldable pub free_table : (ℕ → Ext2 × D → Ext2 × D) → ℕ → Ext2 × D → Ext2 × D
  unfolding free_pointers
  free_table release at (fs, d) =
      let (r, ptrs) = ext2_read_block (drive disk d) fs at fs.block_size in
      let n = if r == 0 then 0 else min (fs.block_size / 4) 1024 in
      free_one at (free_pointers release n 0 ptrs (fs, d))

  unfoldable pub ext2_free_indirect_chains : File D → File D
  unfolding cleared free_table
  ext2_free_indirect_chains f =
      let single = cleared (free_table free_one) 12 f in
      let double = cleared (free_table (free_table free_one)) 13 single in
      cleared free_one 14 double

  -- `left` direct blocks from `i` on.
  unfoldable pub free_direct : ℕ → ℕ → File D → File D
  free_direct zero i f = f
  free_direct (suc left) i f = free_direct left (i + 1) (cleared free_one i f)

  unfoldable pub ext2_free_inode_blocks : File D → File D
  unfolding free_direct ext2_free_indirect_chains
  ext2_free_inode_blocks f =
      let freed = ext2_free_indirect_chains (free_direct 12 0 f) in
      record freed { inode = record freed.inode { blocks = 0 } }
