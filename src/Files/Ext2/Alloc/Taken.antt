-- ===== src/Files/Ext2/Alloc/Taken.antt =====
-- What kernel/fs/ext2.c changes in memory and on the disk when a bit is taken.
use rtjn_kernel.Prelude.{
  ℕ, ◌+◌, ◌-◌, ◌*◌, ◌/◌, ◌%◌, ◌^◌, ◌≤◌, ◌<◌, ◌≡◌, ◌≢◌, refl, arith, List, true, false, get_or,
  length, replicate, ltb, ◌||◌,
}
use rtjn_kernel.Prelude.Bits.{u16, u32}
use rtjn_kernel.Files.Ext2.{Ext2, sector_size, le16, le32, in_group}
use rtjn_kernel.Files.Ext2.Alloc.{
  Disk, Kind, bit_is_set, bitmap_sector, filled, over, take_bit, set_bit, byte_of_bit, put_le16,
  put_le32, counted_down, persist, ext2_gd_sector,
}
use rtjn_kernel.Files.Ext2.Alloc.Bytes.{
  put_le16-other, length-put_le16, le16-put_le16, le32-put_le32, put_le32-other, bit_is_set-set_bit,
  bit_is_set-other,
}

-- A file system with blocks of 512, 1024, 1536 or 2048 bytes, whose tables are whole and which the
-- buffers of the allocation are large enough for.
pub record IsMounted (per_group : ℕ) (fs : Ext2) : Type 0 where
  pub whole : fs.block_size / sector_size * sector_size ≡ fs.block_size
  pub small : fs.block_size ≤ 2048
  pub one_block : per_group ≤ 8 * fs.block_size
  pub super_size : 20 ≤ length fs.super
  pub desc_size : fs.group_count * 32 ≤ length fs.group_desc
  pub desc_small : length fs.group_desc ≤ 2048
  pub desc_bytes : (i : ℕ) → get_or fs.group_desc i 0 < 2 ^ 8

-- The fields of a kind lie in a descriptor and in the part of the superblock that is known.
pub record IsKind (k : Kind) : Type 0 where
  pub free_in : k.free_at + 2 ≤ 32
  pub total_in : k.total_at + 4 ≤ 20

module _ {D : Type 0} (disk : Disk D) where
  -- The bit `b` of the group `h` is taken: both counts go down by one and no other byte in memory
  -- changes, and the drive is written three times, with the bitmap that has the bit, the superblock
  -- and the descriptors.
  pub record IsTaken (k : Kind) (h b : ℕ) (bitmap : List ℕ) (fs : Ext2) (d : D) (fs' : Ext2)
      (d' : D) : Type 0 where
    pub free_count :
        le16 fs'.group_desc (in_group h k.free_at) + 1 ≡ le16 fs.group_desc (in_group h k.free_at)
    pub total_count : le32 fs'.super k.total_at ≡ (le32 fs.super k.total_at + 2 ^ 32 - 1) % 2 ^ 32
    pub other_desc :
        (i : ℕ)
        → i ≢ in_group h k.free_at
        → i ≢ in_group h k.free_at + 1
        → get_or fs'.group_desc i 0 ≡ get_or fs.group_desc i 0
    pub other_super :
        (i : ℕ)
        → ((j : ℕ) → j < 4 → i ≢ k.total_at + j)
        → get_or fs'.super i 0 ≡ get_or fs.super i 0
    pub same_block_size : fs'.block_size ≡ fs.block_size
    pub same_per_group : fs'.blocks_per_group ≡ fs.blocks_per_group
    pub same_group_count : fs'.group_count ≡ fs.group_count
    pub marked : List ℕ
    pub bit_taken : bit_is_set marked b ≡ true
    pub other_bits : (c : ℕ) → c ≢ b → bit_is_set marked c ≡ bit_is_set bitmap c
    pub first : D
    pub second : D
    pub wrote_bitmap :
        first ≡ (disk.write (bitmap_sector k h fs) (fs.block_size / sector_size) marked d).1
    pub wrote_super :
        second
        ≡ (disk.write 2 1 (over fs'.super (filled (disk.read 2 1 first) (replicate 512 0))) first).1
    pub wrote_desc :
        let n = fs.block_size / sector_size in
        let at = (1024 / fs.block_size + 1) * n in
        d'
        ≡ (disk.write at n
            (over fs'.group_desc (filled (disk.read at n second) (replicate 2048 0)))
            second).1

  module _ (k : Kind) (fs : Ext2) (d : D) (kind : IsKind k)
      (mounted : IsMounted k.per_group fs) where
    pub IsTaken-take_bit :
        (h b : ℕ) (bitmap : List ℕ)
        → h < fs.group_count
        → le16 fs.group_desc (in_group h k.free_at) ≢ 0
        → byte_of_bit b < length bitmap
        → IsTaken k h b bitmap fs d
            (take_bit disk k h b bitmap fs d).0
            (take_bit disk k h b bitmap fs d).1
    unfolding counted_down persist ext2_gd_sector
    IsTaken-take_bit h b bitmap lt free inside =
        let at = in_group h k.free_at in
        let old = le16 fs.group_desc at in
        let all = le32 fs.super k.total_at in
        let n = fs.block_size / sector_size in
        let free_in = kind.free_in in
        let total_in = kind.total_in in
        let super_size = mounted.super_size in
        let desc_size = mounted.desc_size in
        let low = mounted.desc_bytes at in
        let high = mounted.desc_bytes (at + 1) in
        let less = u16 (old + 2 ^ 16 - 1) in
        let total = u32 (all + 2 ^ 32 - 1) in
        let now = le16-put_le16 at less fs.group_desc (omega arith) in
        let desc_length = length-put_le16 at less fs.group_desc in
        let desc_small = mounted.desc_small in
        let fits : (ltb 2048 (n * sector_size)
              || ltb 2048 (length (put_le16 at less fs.group_desc)))
            ≡ false =
          let whole = mounted.whole in let small = mounted.small in ground arith in
        let first = (disk.write (bitmap_sector k h fs) n (set_bit bitmap b) d).1 in
        let super = put_le32 k.total_at total fs.super in
        record {
          free_count = omega (arith, now);
          total_count = omega (arith, le32-put_le32 k.total_at total fs.super (omega arith));
          other_desc = put_le16-other at less fs.group_desc;
          other_super = put_le32-other k.total_at total fs.super;
          same_block_size = refl;
          same_per_group = refl;
          same_group_count = refl;
          marked = set_bit bitmap b;
          bit_taken = bit_is_set-set_bit bitmap b inside;
          other_bits = bit_is_set-other bitmap b inside;
          first = first;
          second =
              (disk.write 2 1 (over super (filled (disk.read 2 1 first) (replicate 512 0)))
                first).1;
          wrote_bitmap = refl;
          wrote_super = refl;
          wrote_desc = rw (fits) refl;
        }
