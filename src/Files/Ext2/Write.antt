-- ===== src/Files/Ext2/Write.antt =====
-- How kernel/fs/ext2.c writes the data of a file, with the blocks that it allocates.
pub mod Grow
pub mod Fuel
use rtjn_kernel.Prelude.{
  ℕ, zero, suc, ◌+◌, ◌-◌, ◌*◌, ◌/◌, ◌%◌, ◌^◌, List, Option, none, some, Bool, true, false, ◌&&◌,
  ◌||◌, ltb, leb, ◌==◌, ◌!=◌, if◌then◌else◌, get_or, set, min, replicate, take, drop, ◌++◌,
}
use rtjn_kernel.Prelude.Bits.{u32}
use rtjn_kernel.Files.Ext2.{
  Inode, Ext2, Drive, sector_size, le32, ext2_read_block, ext2_block_lookup,
}
use rtjn_kernel.Files.Ext2.Alloc.{Disk, put_le32, over, ext2_alloc_block}

-- A file of a file system on a drive.
pub record File (D : Type 0) : Type 0 where
  pub fs : Ext2
  pub inode : Inode
  pub state : D

abbrev pub drive : {D : Type 0} → Disk D → D → Drive
drive disk d = λ at n. disk.read at n d

-- One more block, in sectors.
abbrev pub counted : Ext2 → Inode → Inode
counted fs inode = record inode { blocks = u32 (inode.blocks + fs.block_size / sector_size) }

abbrev pub with_size : {D : Type 0} → ℕ → File D → File D
with_size n f = record f { inode = record f.inode { size = n } }

module _ {D : Type 0} (disk : Disk D) where
  -- The number of bytes that are reported.
  unfoldable pub ext2_write_block : Ext2 → ℕ → List ℕ → ℕ → D → ℕ × D
  ext2_write_block fs block bytes len d =
      let sectors = fs.block_size / sector_size in
      let len' =
        if ltb fs.block_size len || ltb (sector_size * 4) fs.block_size
        then fs.block_size
        else len in
      let n = min ((len' + sector_size - 1) / sector_size) sectors in
      let (ok, d') = disk.write (u32 (block * sectors)) n bytes d in
      if block == 0 then (0, d) else if ok then (len', d') else (0, d')

  -- What an allocation gives becomes the direct block `logical`.
  unfoldable pub direct : ℕ → Inode → Option ℕ × (Ext2 × D) → ℕ × File D
  direct logical inode (none, (fs, d)) = (0, record { fs = fs; inode = inode; state = d })
  direct logical inode (some phys, (fs, d)) = (
    phys,
    record {
      fs = fs;
      inode = counted fs (record inode { block = set inode.block logical phys });
      state = d;
    },
  )

  -- It becomes the table of pointers, all zero.
  unfoldable pub table : Inode → Option ℕ × (Ext2 × D) → Bool × File D
  table inode (none, (fs, d)) = (false, record { fs = fs; inode = inode; state = d })
  table inode (some phys, (fs, d)) = (
    true,
    record {
      fs = fs;
      inode = record inode { block = set inode.block 12 phys };
      state = (ext2_write_block fs phys (replicate fs.block_size 0) fs.block_size d).1;
    },
  )

  -- It becomes pointer `idx` of the table `ind`.
  unfoldable pub entry : ℕ → List ℕ → Inode → Option ℕ × (Ext2 × D) → ℕ × File D
  entry idx ind inode (none, (fs, d)) = (0, record { fs = fs; inode = inode; state = d })
  entry idx ind inode (some phys, (fs, d)) =
      let at = get_or inode.block 12 0 in
      (
        phys,
        record {
          fs = fs;
          inode = counted fs inode;
          state = (ext2_write_block fs at (put_le32 (4 * idx) phys ind) fs.block_size d).1;
        },
      )

  -- `buf` is the buffer of `ext2_alloc_block`.
  unfoldable pub in_table : List ℕ → ℕ → File D → ℕ × File D
  in_table buf idx f =
      let at = get_or f.inode.block 12 0 in
      let (n, ind) = ext2_read_block (drive disk f.state) f.fs at f.fs.block_size in
      let old = le32 ind (4 * idx) in
      let same : File D = record f {
        state = (ext2_write_block f.fs at ind f.fs.block_size f.state).1;
      } in
      if n != f.fs.block_size
      then (0, f)
      else if old != 0
      then (old, same)
      else entry idx ind f.inode (ext2_alloc_block disk buf f.fs f.state)

  unfoldable pub ext2_file_alloc_block : List ℕ → ℕ → File D → ℕ × File D
  ext2_file_alloc_block buf logical f =
      let ppb = min (f.fs.block_size / 4) 1024 in
      let old = get_or f.inode.block logical 0 in
      let grant = ext2_alloc_block disk buf f.fs f.state in
      let (ok, f') = if get_or f.inode.block 12 0 == 0 then table f.inode grant else (true, f) in
      if ltb logical 12
      then (if old != 0 then (old, f) else direct logical f.inode grant)
      else if ltb logical (12 + ppb)
      then (if ok then in_table buf (logical - 12) f' else (0, f'))
      else (0, f)

  -- The block for byte `byte_off`; 0 where there is none.
  unfoldable pub placed : List ℕ → ℕ → File D → ℕ × File D
  placed buf byte_off f =
      let k = byte_off / f.fs.block_size in
      let phys = ext2_block_lookup (drive disk f.state) f.fs f.inode k in
      if (phys == 0) && leb f.inode.size byte_off then ext2_file_alloc_block buf k f else (phys, f)

  -- `piece` at `in_block` of the block.
  unfoldable pub write_piece : ℕ → ℕ → List ℕ → ℕ → File D → Bool × File D
  write_piece phys in_block piece chunk f =
      let bs = f.fs.block_size in
      let (w, d) = ext2_write_block f.fs phys piece chunk f.state in
      let (r, bytes) = ext2_read_block (drive disk f.state) f.fs phys bs in
      let filled = take in_block bytes ++ over piece (drop in_block bytes) in
      let (w', d') = ext2_write_block f.fs phys filled bs f.state in
      if (in_block == 0) && (chunk == bs)
      then (w == chunk, record f { state = d })
      else if r != bs
      then (false, f)
      else (w' == bs, record f { state = d' })

  -- The loop of `ext2_write_data` from byte `done` on, with what follows it, and the bytes written.
  unfoldable pub write_from : ℕ → List ℕ → ℕ → ℕ → List ℕ → ℕ → File D → ℕ × File D
  write_from zero buf offset size bytes done f = (done, f)
  write_from (suc fuel) buf offset size bytes done f =
      let byte_off = u32 (offset + done) in
      let in_block = byte_off % f.fs.block_size in
      let chunk = min (size - done) (f.fs.block_size - in_block) in
      let (phys, found) = placed buf byte_off f in
      let sized =
        if leb found.inode.size byte_off
        then with_size (u32 (byte_off + (size - done))) found
        else found in
      let (ok, written) = write_piece phys in_block (take chunk (drop done bytes)) chunk sized in
      let rest = write_from fuel buf offset size bytes (done + chunk) written in
      let end = u32 (offset + size) in
      if leb size done
      then (done, if ltb f.inode.size end then with_size end f else f)
      else if phys == 0
      then (done, found)
      else if ok
      then rest
      else (done, written)

  unfoldable pub ext2_write_data : List ℕ → ℕ → ℕ → List ℕ → File D → ℕ × File D
  ext2_write_data buf offset size bytes f = write_from (suc size) buf offset size bytes 0 f
