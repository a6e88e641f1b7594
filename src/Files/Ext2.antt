-- ===== src/Files/Ext2.antt =====
-- The reading half of kernel/fs/ext2.c: inodes, the block map, the data of a file and the entries of
-- a directory. The disk is a parameter.
pub mod Read
pub mod Lookup
pub mod Alloc
pub mod Write
pub mod Release
mod Tests
use rtjn_kernel.Prelude.{
  ℕ, zero, suc, ◌+◌, ◌-◌, ◌*◌, ◌/◌, ◌%◌, ◌^◌, ◌≤◌, List, [], ◌∷◌, ◌++◌, Option, none, some, Bool,
  true, false, not, ◌&&◌, ◌||◌, ltb, leb, ◌==◌, if◌then◌else◌, get_or, take, drop, length, min,
  bit_and,
}
use rtjn_kernel.Prelude.Bits.{u32}

abbrev pub sector_size : ℕ
sector_size = 512

-- `ext2_inode_t`, the fields that are used here.
pub record Inode : Type 0 where
  pub mode : ℕ
  pub size : ℕ
  pub blocks : ℕ
  pub block : List ℕ

-- Numbers in memory: the low byte comes first.
abbrev pub le16 : List ℕ → ℕ → ℕ
le16 bytes at = get_or bytes at 0 + 2 ^ 8 * get_or bytes (at + 1) 0

abbrev pub le32 : List ℕ → ℕ → ℕ
le32 bytes at = le16 bytes at + 2 ^ 16 * le16 bytes (at + 2)

-- `ext2_fs_data_t`. The superblock and the group descriptors, of 32 bytes each, are the bytes that
-- they have in memory and on the disk. The buffers `block_buf` and `contents` hold 4096 bytes, and larger
-- blocks, which nothing refuses, overrun them: only smaller ones are a state of the model.
pub record Ext2 : Type 0 where
  pub block_size : ℕ
  pub fits : block_size ≤ 4096
  pub blocks_per_group : ℕ
  pub group_count : ℕ
  pub super : List ℕ
  pub group_desc : List ℕ

-- Fields of `ext2_superblock_t`, and a field of the descriptor of group `g`.
abbrev pub inodes_count : Ext2 → ℕ
inodes_count fs = le32 fs.super 0

abbrev pub first_data_block : Ext2 → ℕ
first_data_block fs = le32 fs.super 20

abbrev pub inodes_per_group : Ext2 → ℕ
inodes_per_group fs = le32 fs.super 40

abbrev pub inode_size : Ext2 → ℕ
inode_size fs = if le16 fs.super 88 == 0 then 128 else le16 fs.super 88

abbrev pub in_group : ℕ → ℕ → ℕ
in_group g field = g * 32 + field

abbrev pub pointers_from : ℕ → ℕ → List ℕ → List ℕ
pointers_from zero at bytes = []
pointers_from (suc n) at bytes = le32 bytes at ∷ pointers_from n (at + 4) bytes

-- The 128 bytes of `ext2_inode_t`.
unfoldable pub inode_of : List ℕ → Inode
inode_of bytes = record {
  mode = le16 bytes 0;
  size = le32 bytes 4;
  blocks = le32 bytes 28;
  block = pointers_from 15 40 bytes;
}

unfoldable pub is_dir : Inode → Bool
is_dir i = bit_and i.mode 61440 == 16384

-- `ata_read_sectors` of the drive: the bytes of `n` sectors, or `none` where it fails.
abbrev pub Drive : Type 0
Drive = ℕ → ℕ → Option (List ℕ)

abbrev pub or_empty : Option (List ℕ) → List ℕ
or_empty none = []
or_empty (some bytes) = bytes

abbrev pub succeeded : Option (List ℕ) → Bool
succeeded none = false
succeeded (some bytes) = true

module _ (read_sectors : Drive) (fs : Ext2) where
  unfoldable pub ext2_read_inode : ℕ → Option Inode
  unfolding inode_of
  ext2_read_inode n =
      let group = (n - 1) / inodes_per_group fs in
      let index = (n - 1) % inodes_per_group fs in
      let table = le32 fs.group_desc (in_group group 8) in
      let byte_off = u32 (table * fs.block_size + index * inode_size fs) in
      let buf = read_sectors (byte_off / sector_size) 1 in
      if (n == 0) || ltb (inodes_count fs) n
      then none
      else if leb fs.group_count group
      then none
      else if succeeded buf
      then some (inode_of (drop (byte_off % sector_size) (or_empty buf)))
      else none

  -- The number of bytes that are reported, and the bytes of the sectors.
  unfoldable pub ext2_read_block : ℕ → ℕ → ℕ × List ℕ
  ext2_read_block block len =
      let sectors = fs.block_size / sector_size in
      let len' =
        if ltb fs.block_size len || ltb (sector_size * 4) fs.block_size
        then fs.block_size
        else len in
      let bytes =
        read_sectors (u32 (block * sectors))
          (min ((len' + sector_size - 1) / sector_size) sectors) in
      if block == 0 then (0, []) else if succeeded bytes then (len', or_empty bytes) else (0, [])

  -- Level 1: the pointer at `target` of the block; 0 where there is none.
  unfoldable pub pointer_in : ℕ → ℕ → ℕ
  unfolding ext2_read_block
  pointer_in block target =
      let (n, contents) = ext2_read_block block fs.block_size in
      if n == 0 then 0 else if leb (fs.block_size / 4) target then 0 else le32 contents (4 * target)

  unfoldable pub ext2_get_block_from_ptr : ℕ → ℕ → ℕ → ℕ
  unfolding pointer_in
  ext2_get_block_from_ptr block target zero = block
  ext2_get_block_from_ptr block target (suc zero) = pointer_in block target
  ext2_get_block_from_ptr block target (suc (suc zero)) =
      let ptrs = fs.block_size / 4 in
      let (n, contents) = ext2_read_block block fs.block_size in
      let next = le32 contents (4 * (target / ptrs)) in
      if n == 0 then 0 else if leb ptrs (target / ptrs) then 0 else pointer_in next (target % ptrs)
  ext2_get_block_from_ptr block target (suc (suc (suc level))) = 0

  unfoldable pub ext2_block_lookup : Inode → ℕ → ℕ
  unfolding ext2_get_block_from_ptr
  ext2_block_lookup inode logical =
      let ptrs = fs.block_size / 4 in
      if ltb logical 12
      then get_or inode.block logical 0
      else if ltb (logical - 12) ptrs
      then ext2_get_block_from_ptr (get_or inode.block 12 0) (logical - 12) 1
      else if ltb (logical - 12 - ptrs) (u32 (ptrs * ptrs))
      then ext2_get_block_from_ptr (get_or inode.block 13 0) (logical - 12 - ptrs) 2
      else 0

  -- The loop of `ext2_read_data` from byte `done` on: the bytes that it puts into the buffer. Every
  -- round moves on by at least a byte.
  unfoldable pub read_from : ℕ → Inode → ℕ → ℕ → ℕ → List ℕ
  read_from zero inode offset size done = []
  read_from (suc fuel) inode offset size done =
      let byte_off = u32 (offset + done) in
      let in_block = byte_off % fs.block_size in
      let chunk = min (size - done) (fs.block_size - in_block) in
      let phys = ext2_block_lookup inode (byte_off / fs.block_size) in
      let whole = (in_block == 0) && (chunk == fs.block_size) in
      let (n, bytes) = ext2_read_block phys (if whole then chunk else fs.block_size) in
      let piece = take chunk (drop in_block bytes) in
      let rest = read_from fuel inode offset size (done + chunk) in
      if leb size done
      then []
      else if phys == 0
      then []
      else if n == fs.block_size
      then piece ++ rest
      else []

  -- The length of the bytes is the number that is returned.
  unfoldable pub ext2_read_data : Inode → ℕ → ℕ → List ℕ
  unfolding read_from
  ext2_read_data inode offset size =
      let size' = if ltb inode.size (u32 (offset + size)) then inode.size - offset else size in
      if leb inode.size offset then [] else read_from size' inode offset size' 0
