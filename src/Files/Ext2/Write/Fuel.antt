-- ===== src/Files/Ext2/Write/Fuel.antt =====
-- The rounds that the loop of ext2_write_data of kernel/fs/ext2.c takes.
use rtjn_kernel.Prelude.{
  ℕ, zero, suc, ◌+◌, ◌-◌, ◌*◌, ◌/◌, ◌%◌, ◌<◌, ◌≡◌, refl, sym, arith, List, Option, none, some, Bool,
  true, false, ◌&&◌, ltb, leb, ◌==◌, ◌!=◌, if◌then◌else◌, if_intro, get_or, min, take, drop,
}
use rtjn_kernel.Prelude.Bits.{u32}
use native.Mathlib.Nat.{mod-lt}
use rtjn_kernel.Files.Ext2.{Inode, Ext2, le32, ext2_read_block, ext2_block_lookup}
use rtjn_kernel.Files.Ext2.Alloc.{Disk, ext2_alloc_block}
use rtjn_kernel.Files.Ext2.Alloc.Size.{ext2_alloc_block-size}
use rtjn_kernel.Files.Ext2.Write.{
  File, drive, direct, table, entry, in_table, placed, ext2_file_alloc_block, write_piece,
  with_size, write_from, ext2_write_data,
}

module _ {D : Type 0} (disk : Disk D) (bs : ℕ) where
  -- The blocks have `bs` bytes.
  abbrev Has : File D → Type 0
  Has f = f.fs.block_size ≡ bs

  Has-direct :
      (k : ℕ) (inode : Inode) (r : Option ℕ × (Ext2 × D))
      → r.1.0.block_size ≡ bs
      → Has (direct disk k inode r).1
  unfolding direct
  Has-direct k inode (none, s) e = e
  Has-direct k inode (some phys, s) e = e

  Has-table :
      (inode : Inode) (r : Option ℕ × (Ext2 × D))
      → r.1.0.block_size ≡ bs
      → Has (table disk inode r).1
  unfolding table
  Has-table inode (none, s) e = e
  Has-table inode (some phys, s) e = e

  Has-entry :
      (idx : ℕ) (ind : List ℕ) (inode : Inode) (r : Option ℕ × (Ext2 × D))
      → r.1.0.block_size ≡ bs
      → Has (entry disk idx ind inode r).1
  unfolding entry
  Has-entry idx ind inode (none, s) e = e
  Has-entry idx ind inode (some phys, s) e = e

  Has-grant :
      (buf : List ℕ) (f : File D)
      → Has f
      → (ext2_alloc_block disk buf f.fs f.state).1.0.block_size ≡ bs
  Has-grant buf f e = rw (sym e) (ext2_alloc_block-size disk buf f.fs f.state)

  Has-in_table : (buf : List ℕ) (idx : ℕ) (f : File D) → Has f → Has (in_table disk buf idx f).1
  unfolding in_table
  Has-in_table buf idx f e =
      let (n, ind) =
        ext2_read_block (drive disk f.state) f.fs (get_or f.inode.block 12 0) f.fs.block_size in
      let P = λ (r : ℕ × File D). Has r.1 in
      if_intro P (n != f.fs.block_size) (λ t. e)
        (λ _.
          if_intro P (le32 ind (4 * idx) != 0) (λ t. e)
            (λ _. Has-entry idx ind f.inode _ (Has-grant buf f e)))

  Has-alloc :
      (buf : List ℕ) (k : ℕ) (f : File D) → Has f → Has (ext2_file_alloc_block disk buf k f).1
  unfolding ext2_file_alloc_block
  Has-alloc buf k f e =
      let P = λ (r : ℕ × File D). Has r.1 in
      let grant = ext2_alloc_block disk buf f.fs f.state in
      let Q =
        λ (r : Bool × File D). Has (if r.0 then in_table disk buf (k - 12) r.1 else (0, r.1)).1 in
      let go = λ (r : Bool × File D) (h : Has r.1).
        let q : Q r = if_intro P r.0 (λ t. Has-in_table buf (k - 12) r.1 h) (λ _. h) in q in
      if_intro P (ltb k 12)
        (λ t.
          if_intro P (get_or f.inode.block k 0 != 0) (λ t. e)
            (λ _. Has-direct k f.inode grant (Has-grant buf f e)))
        (λ _.
          if_intro P (ltb k (12 + min (f.fs.block_size / 4) 1024))
            (λ t.
              if_intro Q (get_or f.inode.block 12 0 == 0)
                (λ t. go (table disk f.inode grant) (Has-table f.inode grant (Has-grant buf f e)))
                (λ _. go (true, f) e))
            (λ _. e))

  Has-placed : (buf : List ℕ) (at : ℕ) (f : File D) → Has f → Has (placed disk buf at f).1
  unfolding placed
  Has-placed buf at f e =
      let k = at / f.fs.block_size in
      if_intro (λ (r : ℕ × File D). Has r.1)
        ((ext2_block_lookup (drive disk f.state) f.fs f.inode k == 0) && leb f.inode.size at)
        (λ t. Has-alloc buf k f e) (λ _. e)

  Has-write_piece :
      (phys in_block : ℕ) (piece : List ℕ) (chunk : ℕ) (f : File D)
      → Has f
      → Has (write_piece disk phys in_block piece chunk f).1
  unfolding write_piece
  Has-write_piece phys in_block piece chunk f e =
      let P = λ (r : Bool × File D). Has r.1 in
      let read = ext2_read_block (drive disk f.state) f.fs phys f.fs.block_size in
      if_intro P ((in_block == 0) && (chunk == f.fs.block_size)) (λ t. e)
        (λ _. if_intro P (read.0 != f.fs.block_size) (λ t. e) (λ _. e))

same_rest :
    {D : Type 0} (stop fails ok : Bool) (a b c x y : ℕ × File D)
    → (stop ≡ false → x ≡ y)
    → (if stop then a else if fails then b else if ok then x else c)
      ≡ (if stop then a else if fails then b else if ok then y else c)
same_rest true fails ok a b c x y h = refl
same_rest false true ok a b c x y h = refl
same_rest false false true a b c x y h = h refl
same_rest false false false a b c x y h = refl

module _ {D : Type 0} (disk : Disk D) (buf : List ℕ) (offset size : ℕ) (bytes : List ℕ) {bs : ℕ}
    (some_bytes : 0 < bs) where
  write_from-enough :
      (fuel extra done : ℕ) (f : File D)
      → Has disk bs f
      → size - done < fuel
      → write_from disk (fuel + extra) buf offset size bytes done f
        ≡ write_from disk fuel buf offset size bytes done f
  unfolding write_from
  write_from-enough zero extra done f has lt = absurd (omega arith)
  write_from-enough (suc fuel) extra done f has lt =
      let e : suc fuel + extra ≡ suc (fuel + extra) = omega arith in
      let at = u32 (offset + done) in
      let in_block = at % f.fs.block_size in
      let chunk = min (size - done) (f.fs.block_size - in_block) in
      let found = placed disk buf at f in
      let found-Has = Has-placed disk bs buf at f has in
      let sized : File D =
        if leb found.1.inode.size at
        then with_size (u32 (at + (size - done))) found.1
        else found.1 in
      let sized-Has : Has disk bs sized =
        if_intro (Has disk bs) (leb found.1.inode.size at) (λ t. found-Has) (λ _. found-Has) in
      let r = write_piece disk found.0 in_block (take chunk (drop done bytes)) chunk sized in
      let r-Has =
        Has-write_piece disk bs found.0 in_block (take chunk (drop done bytes)) chunk sized
          sized-Has in
      let end = u32 (offset + size) in
      let ended : ℕ × File D = (done, if ltb f.inode.size end then with_size end f else f) in
      rw (e) (
        same_rest (leb size done) (found.0 == 0) r.0 ended (done, found.1) (done, r.1)
          (write_from disk (fuel + extra) buf offset size bytes (done + chunk) r.1)
          (write_from disk fuel buf offset size bytes (done + chunk) r.1)
          (λ more.
            let left : done < size = ground arith in
            let inside = mod-lt at some_bytes in
            let some : 0 < chunk = rw (has) (omega arith) in
            write_from-enough fuel extra (done + chunk) r.1 r-Has (omega arith)))

  -- With blocks of at least a byte, the loop of ext2_write_data ends within a round for each byte
  -- and one more: more rounds give the same.
  pub ext2_write_data-Ended :
      (extra : ℕ) (f : File D)
      → f.fs.block_size ≡ bs
      → write_from disk (suc size + extra) buf offset size bytes 0 f
        ≡ ext2_write_data disk buf offset size bytes f
  unfolding ext2_write_data
  ext2_write_data-Ended extra f has = write_from-enough (suc size) extra 0 f has (omega arith)
