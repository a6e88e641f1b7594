-- ===== src/Files/Ext2/Alloc/Outcome.antt =====
-- What ext2_alloc_block and ext2_alloc_inode of kernel/fs/ext2.c do on every branch.
use rtjn_kernel.Prelude.{
  ℕ, zero, suc, ◌+◌, ◌*◌, ◌/◌, ◌≤◌, ◌<◌, ◌≡◌, ◌≢◌, refl, sym, arith, List, Option, none, some,
  false, if_intro, ◌==◌, ==→≡, ==→≢, ◌⊎◌, inl, inr, length, replicate,
}
use rtjn_kernel.Prelude.Bits.{u32}
use rtjn_kernel.Files.Ext2.{Ext2, sector_size, le16, in_group, inodes_per_group}
use rtjn_kernel.Files.Ext2.Alloc.{
  Disk, Kind, inode_kind, bit_is_set, find_clear, bitmap_sector, filled, take_bit, search_groups,
  numbered, ext2_alloc_inode,
}
use rtjn_kernel.Files.Ext2.Alloc.Search.{
  AllSet, IsFirstClear, all_set, clear_at, find_clear-IsFirstClear, from_next,
}
use rtjn_kernel.Files.Ext2.Alloc.Taken.{IsMounted, IsKind, IsTaken, IsTaken-take_bit}

module _ {D : Type 0} (disk : Disk D) where
  -- Reads that succeed give whole sectors.
  abbrev pub IsDrive : Type 0
  IsDrive =
      (at n : ℕ) (d : D)
      → length (filled (disk.read at n d) (replicate (n * sector_size) 0)) ≡ n * sector_size

  -- The group `h` has nothing to give: its count is zero, or every bit of its bitmap is set, as the
  -- drive reads it or as the buffer holds it where the drive fails.
  abbrev pub IsFull : Kind → Ext2 → D → ℕ → Type 0
  IsFull k fs d h =
      (le16 fs.group_desc (in_group h k.free_at) ≡ 0)
      ⊎ ((buf : List ℕ) × AllSet
            (filled (disk.read (bitmap_sector k h fs) (fs.block_size / sector_size) d) buf) 0
            k.per_group)

  -- The groups in front are full, and the first clear bit of the next one is taken; or all are full.
  pub data Allocated (k : Kind) (number : ℕ → ℕ → ℕ) (fs : Ext2) (d : D) (g end : ℕ)
      : Option ℕ × (Ext2 × D) → Type 0 where
    exhausted :
        ((h : ℕ) → g ≤ h → h < end → IsFull k fs d h)
        → Allocated k number fs d g end (none, (fs, d))
    found :
        (h b : ℕ) (buf bitmap : List ℕ) (fs' : Ext2) (d' : D)
        → g ≤ h
        → h < end
        → ((i : ℕ) → g ≤ i → i < h → IsFull k fs d i)
        → le16 fs.group_desc (in_group h k.free_at) ≢ 0
        → bitmap ≡ filled (disk.read (bitmap_sector k h fs) (fs.block_size / sector_size) d) buf
        → b < k.per_group
        → bit_is_set bitmap b ≡ false
        → AllSet bitmap 0 b
        → IsTaken disk k h b bitmap fs d fs' d'
        → Allocated k number fs d g end (some (number h b), (fs', d'))

filled-length :
    (r : Option (List ℕ)) (buf zeros : List ℕ) (m : ℕ)
    → length (filled r zeros) ≡ m
    → m ≤ length buf
    → m ≤ length (filled r buf)
filled-length none buf zeros m e le = le
filled-length (some bytes) buf zeros m e le = omega (arith, e)

module _ {D : Type 0} (disk : Disk D) (k : Kind) (number : ℕ → ℕ → ℕ) (fs : Ext2) (d : D) where
  later :
      (g end : ℕ) (r : Option ℕ × (Ext2 × D))
      → IsFull disk k fs d g
      → Allocated disk k number fs d (g + 1) end r
      → Allocated disk k number fs d g end r
  later g end _ here (exhausted full) = exhausted (λ h le lt. from_next g h end here full le lt)
  later g end _ here (found h b buf bitmap fs' d' le lt full free read below clear set taken) =
      found h b buf bitmap fs' d' (omega arith) lt (λ i le' lt'. from_next g i h here full le' lt')
        free read below clear set taken

  module _ (kind : IsKind k) (mounted : IsMounted k.per_group fs) (drive : IsDrive disk) where
    at_bit :
        (g end : ℕ) (buf bitmap : List ℕ) (r : Option ℕ) (next : Option (ℕ × ℕ) × (Ext2 × D))
        → g < end
        → end ≤ fs.group_count
        → fs.block_size ≤ length bitmap
        → le16 fs.group_desc (in_group g k.free_at) ≢ 0
        → bitmap ≡ filled (disk.read (bitmap_sector k g fs) (fs.block_size / sector_size) d) buf
        → IsFirstClear bitmap k.per_group 0 r
        → (IsFull disk k fs d g → Allocated disk k number fs d g end (numbered number next))
        → Allocated disk k number fs d g end (
            numbered number
              (elim r [ none ↦ next | some b ↦ (some (g, b), take_bit disk k g b bitmap fs d) ]))
    at_bit g end buf bitmap _ next lt le size free read (all_set set) other =
        other (inr (buf, rw (sym read) (λ i le lt. set i le (omega arith))))
    at_bit g end buf bitmap _ next lt le size free read (clear_at b le' below clear set) other =
        let one_block = mounted.one_block in
        let (fs', d') = take_bit disk k g b bitmap fs d in
        found g b buf bitmap fs' d' (omega arith) lt (λ i le lt. absurd (omega arith)) free read
          (omega arith) clear set
          (IsTaken-take_bit disk k fs d kind mounted g b bitmap (omega arith) free (omega arith))

    search_groups-Allocated :
        (left g end : ℕ) (buf : List ℕ)
        → g + left ≡ end
        → end ≤ fs.group_count
        → fs.block_size ≤ length buf
        → Allocated disk k number fs d g end
            (numbered number (search_groups disk k left g buf fs d))
    unfolding search_groups
    search_groups-Allocated zero g end buf e le size = exhausted (λ h le lt. absurd (omega arith))
    search_groups-Allocated (suc left) g end buf e le size =
        let n = fs.block_size / sector_size in
        let read = disk.read (bitmap_sector k g fs) n d in
        let bitmap = filled read buf in
        let whole = mounted.whole in
        let size' =
          filled-length read buf (replicate (n * sector_size) 0) (n * sector_size)
            (drive (bitmap_sector k g fs) n d) (omega arith) in
        let skip = search_groups-Allocated left (g + 1) end buf (omega arith) le size in
        let next = search_groups-Allocated left (g + 1) end bitmap (omega arith) le (omega arith) in
        let skipped = search_groups disk k left (g + 1) buf fs d in
        let others = search_groups disk k left (g + 1) bitmap fs d in
        let count = le16 fs.group_desc (in_group g k.free_at) in
        if_intro
          (λ (r : Option (ℕ × ℕ) × (Ext2 × D)).
            Allocated disk k number fs d g end (numbered number r))
          (count == 0) (λ t. later g end (numbered number skipped) (inl (==→≡ count 0 t)) skip)
          (λ f.
            at_bit g end buf bitmap (find_clear bitmap k.per_group 0) others (omega arith) le
              (omega arith) (==→≢ count 0 f) refl (find_clear-IsFirstClear bitmap k.per_group 0)
              (λ full. later g end (numbered number others) full next))

inode_kind-IsKind : (fs : Ext2) → IsKind (inode_kind fs)
inode_kind-IsKind fs = record { free_in = omega arith; total_in = omega arith }

module _ {D : Type 0} (disk : Disk D) (drive : IsDrive disk) where
  -- The same of ext2_alloc_inode, whose numbers begin at 1.
  pub ext2_alloc_inode-Allocated :
      (buf : List ℕ) (fs : Ext2) (d : D)
      → IsMounted (inodes_per_group fs) fs
      → fs.block_size ≤ length buf
      → Allocated disk
          (inode_kind fs)
          (λ g i. u32 (g * inodes_per_group fs + i + 1))
          fs
          d
          0
          fs.group_count
          (ext2_alloc_inode disk buf fs d)
  unfolding ext2_alloc_inode
  ext2_alloc_inode-Allocated buf fs d mounted size =
      search_groups-Allocated disk (inode_kind fs) (λ g i. u32 (g * inodes_per_group fs + i + 1)) fs
        d (inode_kind-IsKind fs) mounted drive fs.group_count 0 fs.group_count buf (omega arith)
        (omega arith) size
