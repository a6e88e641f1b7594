-- ===== src/Files/Ext2/Alloc.antt =====
-- The blocks and inodes that kernel/fs/ext2.c takes from the bitmaps of the groups and gives back.
pub mod Search
pub mod Bytes
pub mod Taken
pub mod Outcome
pub mod Size
pub mod Back
use rtjn_kernel.Prelude.{
  ℕ, zero, suc, ◌+◌, ◌-◌, ◌*◌, ◌/◌, ◌%◌, ◌^◌, List, Option, none, some, Bool, true, false, ◌||◌,
  ltb, ◌==◌, ◌!=◌, if◌then◌else◌, get_or, set, bit_and, bit_or, length, replicate, take, drop, ◌++◌,
}
use rtjn_kernel.Prelude.Bits.{u16, u32, complement}
use rtjn_kernel.Files.Ext2.{
  Ext2, sector_size, le16, le32, in_group, first_data_block, inodes_per_group, or_empty, succeeded,
}

-- The drive, with the state of the disk. `overrun` is what comes of it where more goes
-- through the buffer `gd_buf` than its 2048 bytes: nothing is known of it.
pub record Disk (D : Type 0) : Type 0 where
  pub read : ℕ → ℕ → D → Option (List ℕ)
  pub write : ℕ → ℕ → List ℕ → D → Bool × D
  pub overrun : D → D

-- What differs between blocks and inodes: the fields of a group with the count of free ones and with
-- the bitmap, the field of the superblock with their count, and how many a group has.
pub record Kind : Type 0 where
  pub free_at : ℕ
  pub bitmap_at : ℕ
  pub total_at : ℕ
  pub per_group : ℕ

abbrev pub block_kind : Ext2 → Kind
block_kind fs = record {
  free_at = 12;
  bitmap_at = 0;
  total_at = 12;
  per_group = fs.blocks_per_group;
}

abbrev pub inode_kind : Ext2 → Kind
inode_kind fs = record {
  free_at = 14;
  bitmap_at = 4;
  total_at = 16;
  per_group = inodes_per_group fs;
}

-- Bit `b` of a bitmap of bytes: the byte `b / 32 * 4 + b % 32 / 8`, and its bit.
abbrev pub byte_of_bit : ℕ → ℕ
byte_of_bit b = b / 32 * 4 + b % 32 / 8

abbrev pub mask_of_bit : ℕ → ℕ
mask_of_bit b = 2 ^ (b % 32 % 8)

unfoldable pub bit_is_set : List ℕ → ℕ → Bool
bit_is_set bitmap b = bit_and (get_or bitmap (byte_of_bit b) 0) (mask_of_bit b) != 0

unfoldable pub set_bit : List ℕ → ℕ → List ℕ
set_bit bitmap b =
    set bitmap (byte_of_bit b) (bit_or (get_or bitmap (byte_of_bit b) 0) (mask_of_bit b))

unfoldable pub clear_bit : List ℕ → ℕ → List ℕ
clear_bit bitmap b =
    set bitmap (byte_of_bit b)
      (bit_and (get_or bitmap (byte_of_bit b) 0) (complement 8 (mask_of_bit b)))

-- The first clear bit of the `left` from `b` on.
unfoldable pub find_clear : List ℕ → ℕ → ℕ → Option ℕ
unfolding bit_is_set
find_clear bitmap zero b = none
find_clear bitmap (suc left) b =
    let rest = find_clear bitmap left (b + 1) in if bit_is_set bitmap b then rest else some b

abbrev pub put_le16 : ℕ → ℕ → List ℕ → List ℕ
put_le16 at v bytes = set (set bytes at (v % 2 ^ 8)) (at + 1) (v / 2 ^ 8 % 2 ^ 8)

abbrev pub put_le32 : ℕ → ℕ → List ℕ → List ℕ
put_le32 at v bytes = put_le16 (at + 2) (v / 2 ^ 16) (put_le16 at v bytes)

-- The count of a group and the total, one less and one more; both are unsigned.
unfoldable pub counted_down : Kind → ℕ → Ext2 → Ext2
counted_down k g fs =
    let at = in_group g k.free_at in
    record fs {
      super = put_le32 k.total_at (u32 (le32 fs.super k.total_at + 2 ^ 32 - 1)) fs.super;
      group_desc = put_le16 at (u16 (le16 fs.group_desc at + 2 ^ 16 - 1)) fs.group_desc;
    }

unfoldable pub counted_up : Kind → ℕ → Ext2 → Ext2
counted_up k g fs =
    let at = in_group g k.free_at in
    record fs {
      super = put_le32 k.total_at (u32 (le32 fs.super k.total_at + 1)) fs.super;
      group_desc = put_le16 at (u16 (le16 fs.group_desc at + 1)) fs.group_desc;
    }

abbrev pub bitmap_sector : Kind → ℕ → Ext2 → ℕ
bitmap_sector k g fs =
    u32 (le32 fs.group_desc (in_group g k.bitmap_at) * (fs.block_size / sector_size))

-- `ext2_gd_sector`
unfoldable pub ext2_gd_sector : Ext2 → ℕ
ext2_gd_sector fs = (1024 / fs.block_size + 1) * (fs.block_size / sector_size)

-- A buffer after a read: a read that fails leaves it as it was.
abbrev pub filled : Option (List ℕ) → List ℕ → List ℕ
filled bytes buf = if succeeded bytes then or_empty bytes else buf

-- `bytes` over the first of `buf`.
abbrev pub over : List ℕ → List ℕ → List ℕ
over bytes buf = bytes ++ drop (length bytes) buf

abbrev pub numbered :
    {D : Type 0} → (ℕ → ℕ → ℕ) → Option (ℕ × ℕ) × (Ext2 × D) → Option ℕ × (Ext2 × D)
numbered number (none, s) = (none, s)
numbered number (some (g, b), s) = (some (number g b), s)

module _ {D : Type 0} (disk : Disk D) where
  -- The superblock and the group descriptors go to the disk; what the drive reports is not looked at.
  unfoldable pub persist : Ext2 → D → D
  unfolding ext2_gd_sector
  persist fs d =
      let sb = filled (disk.read 2 1 d) (replicate sector_size 0) in
      let d' = (disk.write 2 1 (over fs.super sb) d).1 in
      let n = fs.block_size / sector_size in
      let gd = filled (disk.read (ext2_gd_sector fs) n d') (replicate (sector_size * 4) 0) in
      let d'' = (disk.write (ext2_gd_sector fs) n (over fs.group_desc gd) d').1 in
      if ltb 2048 (n * sector_size) || ltb 2048 (length fs.group_desc) then disk.overrun d' else d''

  -- The bit and the group are found.
  abbrev pub take_bit : Kind → ℕ → ℕ → List ℕ → Ext2 → D → Ext2 × D
  take_bit k g b bitmap fs d =
      let n = fs.block_size / sector_size in
      let d' = (disk.write (bitmap_sector k g fs) n (set_bit bitmap b) d).1 in
      let fs' = counted_down k g fs in (fs', persist fs' d')

  -- The groups from `g` on, `left` of them, with the bitmap buffer.
  unfoldable pub search_groups : Kind → ℕ → ℕ → List ℕ → Ext2 → D → Option (ℕ × ℕ) × (Ext2 × D)
  search_groups k zero g buf fs d = (none, (fs, d))
  search_groups k (suc left) g buf fs d =
      let bitmap = filled (disk.read (bitmap_sector k g fs) (fs.block_size / sector_size) d) buf in
      let skip = search_groups k left (g + 1) buf fs d in
      let next = search_groups k left (g + 1) bitmap fs d in
      if le16 fs.group_desc (in_group g k.free_at) == 0
      then skip
      else elim (find_clear bitmap k.per_group 0) [
        | none ↦ next
        | some b ↦ (some (g, b), take_bit k g b bitmap fs d)
      ]

  unfoldable pub ext2_alloc_block : List ℕ → Ext2 → D → Option ℕ × (Ext2 × D)
  ext2_alloc_block buf fs d =
      numbered (λ g b. u32 (g * fs.blocks_per_group + b + first_data_block fs))
        (search_groups (block_kind fs) fs.group_count 0 buf fs d)

  unfoldable pub ext2_alloc_inode : List ℕ → Ext2 → D → Option ℕ × (Ext2 × D)
  ext2_alloc_inode buf fs d =
      numbered (λ g i. u32 (g * inodes_per_group fs + i + 1))
        (search_groups (inode_kind fs) fs.group_count 0 buf fs d)

  -- The bit `index` of the group `g`; neither count goes to the disk.
  abbrev pub give_bit : Kind → ℕ → ℕ → List ℕ → Ext2 → D → Ext2 × D
  give_bit k g index buf fs d =
      let n = fs.block_size / sector_size in
      let bitmap = filled (disk.read (bitmap_sector k g fs) n d) buf in
      (counted_up k g fs, (disk.write (bitmap_sector k g fs) n (clear_bit bitmap index) d).1)

  unfoldable pub ext2_free_block : List ℕ → ℕ → Ext2 → D → Ext2 × D
  ext2_free_block buf block fs d =
      let at = u32 (block + 2 ^ 32 - first_data_block fs) in
      if block == 0
      then (fs, d)
      else give_bit (block_kind fs) (at / fs.blocks_per_group) (at % fs.blocks_per_group) buf fs d

  unfoldable pub ext2_free_inode : List ℕ → ℕ → Ext2 → D → Ext2 × D
  ext2_free_inode buf ino fs d =
      let at = ino - 1 in
      if ino == 0
      then (fs, d)
      else give_bit (inode_kind fs) (at / inodes_per_group fs) (at % inodes_per_group fs) buf fs d
