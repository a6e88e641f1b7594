-- ===== src/Files/Ext2/Alloc/Size.antt =====
-- The allocation of kernel/fs/ext2.c leaves the size of the blocks as it is.
use rtjn_kernel.Prelude.{
  ℕ, zero, suc, ◌+◌, ◌/◌, ◌≡◌, refl, List, Option, none, some, if_intro, ◌==◌,
}
use rtjn_kernel.Files.Ext2.{Ext2, sector_size, le16, in_group}
use rtjn_kernel.Files.Ext2.Alloc.{
  Disk, Kind, block_kind, find_clear, bitmap_sector, filled, counted_down, take_bit, search_groups,
  numbered, ext2_alloc_block,
}

abbrev SameSize : {A D : Type 0} → Ext2 → A × (Ext2 × D) → Type 0
SameSize fs (r, (fs', d)) = fs'.block_size ≡ fs.block_size

module _ {D : Type 0} (disk : Disk D) where
  at_bit :
      (k : Kind) (fs : Ext2) (d : D) (g : ℕ) (bitmap : List ℕ) (r : Option ℕ)
      (next : Option (ℕ × ℕ) × (Ext2 × D))
      → SameSize fs next
      → SameSize {A = Option (ℕ × ℕ)} {D = D} fs
          (elim r [ none ↦ next | some b ↦ (some (g, b), take_bit disk k g b bitmap fs d) ])
  unfolding counted_down
  at_bit k fs d g bitmap none next e = e
  at_bit k fs d g bitmap (some b) next e = refl

  search_groups-size :
      (k : Kind) (fs : Ext2) (d : D) (left g : ℕ) (buf : List ℕ)
      → SameSize fs (search_groups disk k left g buf fs d)
  unfolding search_groups
  search_groups-size k fs d zero g buf = refl
  search_groups-size k fs d (suc left) g buf =
      let bitmap = filled (disk.read (bitmap_sector k g fs) (fs.block_size / sector_size) d) buf in
      if_intro (λ (r : Option (ℕ × ℕ) × (Ext2 × D)). SameSize fs r)
        (le16 fs.group_desc (in_group g k.free_at) == 0)
        (λ t. search_groups-size k fs d left (g + 1) buf)
        (λ f.
          at_bit k fs d g bitmap (find_clear bitmap k.per_group 0)
            (search_groups disk k left (g + 1) bitmap fs d)
            (search_groups-size k fs d left (g + 1) bitmap))

numbered-size :
    {D : Type 0} (number : ℕ → ℕ → ℕ) (r : Option (ℕ × ℕ) × (Ext2 × D)) {n : ℕ}
    → r.1.0.block_size ≡ n
    → (numbered number r).1.0.block_size ≡ n
numbered-size number (none, s) e = e
numbered-size number (some p, s) e = e

pub ext2_alloc_block-size :
    {D : Type 0} (disk : Disk D) (buf : List ℕ) (fs : Ext2) (d : D)
    → (ext2_alloc_block disk buf fs d).1.0.block_size ≡ fs.block_size
unfolding ext2_alloc_block
ext2_alloc_block-size disk buf fs d =
    numbered-size _ (search_groups disk (block_kind fs) fs.group_count 0 buf fs d)
      (search_groups-size disk (block_kind fs) fs d fs.group_count 0 buf)
