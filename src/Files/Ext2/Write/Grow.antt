-- ===== src/Files/Ext2/Write/Grow.antt =====
-- How far ext2_write_data of kernel/fs/ext2.c gets behind the end of a file.
use rtjn_kernel.Prelude.{
  ℕ, zero, suc, ◌+◌, ◌-◌, ◌/◌, ◌%◌, ◌^◌, ◌≤◌, ◌<◌, ◌≡◌, ◌≢◌, refl, sym, arith, List, Option, none,
  some, Bool, true, false, ◌&&◌, leb, ◌==◌, ◌!=◌, if_intro, get_or, min, take, drop, get_or-set_ne,
  lt→ltb,
}
use rtjn_kernel.Prelude.Bits.{u32}
use native.Mathlib.Nat.{mod-eq_of_lt, div-add-mod', mod-lt, div-eq_of_lt-le, add-mul, one-mul}
use rtjn_kernel.Files.Ext2.{Inode, Ext2, ext2_read_block, ext2_block_lookup}
use rtjn_kernel.Files.Ext2.Alloc.{Disk, ext2_alloc_block}
use rtjn_kernel.Files.Ext2.Alloc.Size.{ext2_alloc_block-size}
use rtjn_kernel.Files.Ext2.Write.{
  File, drive, direct, placed, ext2_file_alloc_block, write_piece, write_from, ext2_write_data,
}

-- Block `k` may be new; the size and the other direct blocks stay.
pub record Keeps {D : Type 0} (k : ℕ) (fs : Ext2) (old : Inode) (new : File D) : Type 0 where
  pub block_size : new.fs.block_size ≡ fs.block_size
  pub size : new.inode.size ≡ old.size
  pub block : (j : ℕ) → j ≢ k → get_or new.inode.block j 0 ≡ get_or old.block j 0

module _ {D : Type 0} (disk : Disk D) where
  Keeps-same : (k : ℕ) (f : File D) → Keeps k f.fs f.inode f
  Keeps-same k f = record { block_size = refl; size = refl; block = λ j ne. refl }

  Keeps-direct :
      (k : ℕ) (fs : Ext2) (inode : Inode) (r : Option ℕ × (Ext2 × D))
      → r.1.0.block_size ≡ fs.block_size
      → Keeps k fs inode (direct disk k inode r).1
  unfolding direct
  Keeps-direct k fs inode (none, (fs', d)) e = record {
    block_size = e;
    size = refl;
    block = λ j ne. refl;
  }
  Keeps-direct k fs inode (some phys, (fs', d)) e = record {
    block_size = e;
    size = refl;
    block = λ j ne. get_or-set_ne inode.block k j phys 0 (λ e. ne (sym e));
  }

  Keeps-alloc :
      (buf : List ℕ) (k : ℕ) (f : File D)
      → k < 12
      → Keeps k f.fs f.inode (ext2_file_alloc_block disk buf k f).1
  unfolding ext2_file_alloc_block
  Keeps-alloc buf k f lt =
      let grant = ext2_alloc_block disk buf f.fs f.state in
      let same = ext2_alloc_block-size disk buf f.fs f.state in
      rw (lt→ltb k 12 lt) (
        if_intro (λ (r : ℕ × File D). Keeps k f.fs f.inode r.1) (get_or f.inode.block k 0 != 0)
          (λ t. Keeps-same k f) (λ e. Keeps-direct k f.fs f.inode grant same))

  Keeps-placed :
      (buf : List ℕ) (at : ℕ) (f : File D)
      → at / f.fs.block_size < 12
      → Keeps (at / f.fs.block_size) f.fs f.inode (placed disk buf at f).1
  unfolding placed
  Keeps-placed buf at f lt =
      let k = at / f.fs.block_size in
      if_intro (λ (r : ℕ × File D). Keeps k f.fs f.inode r.1)
        ((ext2_block_lookup (drive disk f.state) f.fs f.inode k == 0) && leb f.inode.size at)
        (λ t. Keeps-alloc buf k f lt) (λ e. Keeps-same k f)

  Keeps-write_piece :
      (phys in_block : ℕ) (piece : List ℕ) (chunk k : ℕ) (fs : Ext2) (old : Inode) (f : File D)
      → Keeps k fs old f
      → Keeps k fs old (write_piece disk phys in_block piece chunk f).1
  unfolding write_piece
  Keeps-write_piece phys in_block piece chunk k fs old f kept =
      let bs = f.fs.block_size in
      let P = λ (r : Bool × File D). Keeps k fs old r.1 in
      let moved = λ (d : D).
        let f' : File D = record f { state = d } in
        let k' : Keeps k fs old f' = record {
          block_size = kept.block_size;
          size = kept.size;
          block = kept.block;
        } in
        k' in
      let read = ext2_read_block (drive disk f.state) f.fs phys bs in
      if_intro P ((in_block == 0) && (chunk == bs)) (λ t. moved _)
        (λ e. if_intro P (read.0 != bs) (λ t. kept) (λ e'. moved _))

  module _ (buf : List ℕ) (offset size : ℕ) (bytes : List ℕ) (small : offset + size < 2 ^ 32) where
    -- The next byte lies in the file, in a direct block that is not there.
    write_from-stopped :
        (fuel done : ℕ) (f : File D)
        → (done < size → offset + done < f.inode.size)
        → (done < size → (offset + done) / f.fs.block_size < 12)
        → (done < size → get_or f.inode.block ((offset + done) / f.fs.block_size) 0 ≡ 0)
        → (write_from disk fuel buf offset size bytes done f).0 ≡ done
    unfolding write_from placed ext2_block_lookup
    write_from-stopped zero done f inside low hole = refl
    write_from-stopped (suc fuel) done f inside low hole =
        if_intro (λ (r : ℕ × File D). r.0 ≡ done) (leb size done) (λ t. refl)
          (λ more.
            let left : done < size = ground arith in
            let wrap : u32 (offset + done) ≡ offset + done = mod-eq_of_lt (omega arith) in
            let over : leb f.inode.size (offset + done) ≡ false =
              let i = inside left in ground arith in
            rw (wrap, lt→ltb ((offset + done) / f.fs.block_size) 12 (low left), hole left, over)
              refl)

  -- Where it starts at or behind the end of a file, among the direct blocks, and the next block
  -- is not there, with a range that does not wrap around, ext2_write_data never gets over the
  -- end of the block that it starts in.
  pub ext2_write_data-InBlock :
      (buf : List ℕ) (offset size : ℕ) (bytes : List ℕ) (f : File D)
      → offset + size < 2 ^ 32
      → 0 < f.fs.block_size
      → f.inode.size ≤ offset
      → offset / f.fs.block_size + 1 < 12
      → get_or f.inode.block (offset / f.fs.block_size + 1) 0 ≡ 0
      → (ext2_write_data disk buf offset size bytes f).0
        ≤ f.fs.block_size - offset % f.fs.block_size
  unfolding ext2_write_data write_from
  ext2_write_data-InBlock buf offset size bytes f small some_bytes behind low hole =
      let bs = f.fs.block_size in
      let k = offset / bs in
      let chunk = min size (bs - offset % bs) in
      let P = λ (r : ℕ × File D). r.0 ≤ bs - offset % bs in
      let e0 : offset + 0 ≡ offset = omega arith in
      let e1 : size - 0 ≡ size = omega arith in
      let e2 : 0 + chunk ≡ chunk = omega arith in
      let wrap : u32 offset ≡ offset = mod-eq_of_lt (omega arith) in
      let wrap' : u32 (offset + size) ≡ offset + size = mod-eq_of_lt small in
      let found = placed disk buf offset f in
      let kept = Keeps-placed buf offset f (omega arith) in
      let over : leb found.1.inode.size offset ≡ true = ground (arith, kept.size) in
      let sized : File D = record found.1 {
        inode = record found.1.inode { size = offset + size };
      } in
      let old : Inode = record f.inode { size = offset + size } in
      let kept' : Keeps k f.fs old sized = record {
        block_size = kept.block_size;
        size = refl;
        block = kept.block;
      } in
      let piece = take chunk (drop 0 bytes) in
      let r = write_piece disk found.0 (offset % bs) piece chunk sized in
      let next = Keeps-write_piece found.0 (offset % bs) piece chunk k f.fs old sized kept' in
      let inside = mod-lt offset some_bytes in
      let whole = div-add-mod' offset bs in
      let after = λ (more : chunk < size).
        let e : (offset + chunk) / r.1.fs.block_size ≡ k + 1 = rw (next.block_size) (
          div-eq_of_lt-le bs (rw (add-mul k 1 bs, one-mul bs) (omega arith))
            (rw (add-mul (k + 1) 1 bs, add-mul k 1 bs, one-mul bs) (omega arith))) in
        e in
      let stop =
        write_from-stopped buf offset size bytes small size chunk r.1
          (λ more. omega (arith, next.size)) (λ more. rw (after more) low)
          (λ more. rw (after more, next.block (k + 1) (λ e. absurd (omega (arith, e)))) hole) in
      if_intro P (leb size 0) (λ t. omega arith)
        (λ more.
          rw (e0, e1, wrap, wrap', e2, over)
            (if_intro P (found.0 == 0) (λ t. omega arith)
              (λ some_block. if_intro P r.0 (λ t. omega (arith, stop)) (λ e. omega arith))))
