-- ===== src/Files/Ext2/Read.antt =====
-- What `ext2_read_data` of kernel/fs/ext2.c reads, byte by byte.
use rtjn_kernel.Prelude.{
  ℕ, zero, suc, ◌+◌, ◌-◌, ◌*◌, ◌/◌, ◌%◌, ◌^◌, ◌≤◌, ◌<◌, ◌≡◌, ◌≢◌, refl, ap, sym, arith, List, ◌++◌,
  true, false, ◌&&◌, and_true, if_intro, ltb, leb, ◌==◌, ==→≡, ==_self, ≢→==, if◌then◌else◌, get_or,
  take, drop, min, length, length-append, length-take, length-drop, get_or-append, get_or-take,
  get_or-drop,
}
use native.Mathlib.Nat.{mod-eq_of_lt, div-add-mod', mod-lt, div-eq_of_lt-le, add-mul, one-mul}
use native.Mathlib.Decide.{dec_lt}
use rtjn_kernel.Prelude.Bits.{u32}
use rtjn_kernel.Files.Ext2.{
  Inode, Ext2, Drive, ext2_read_block, ext2_block_lookup, read_from, ext2_read_data,
}

-- Places in one block have its number.
module _ (bs n i : ℕ) (fits : n % bs + i < bs) where
  same_block : (n + i) / bs ≡ n / bs
  same_block =
      let whole = div-add-mod' n bs in
      div-eq_of_lt-le bs (omega arith) (rw (add-mul (n / bs) 1 bs, one-mul bs) (omega arith))

  further_in : (n + i) % bs ≡ n % bs + i
  further_in =
      let whole = div-add-mod' n bs in
      let moved = div-add-mod' (n + i) bs in
      let e : (n + i) / bs * bs ≡ n / bs * bs = ap (λ q. q * bs) same_block in omega arith

-- The blocks of a file: every one up to its size is mapped and can be read.
pub record IsStored (read_sectors : Drive) (fs : Ext2) (inode : Inode) (store : ℕ → List ℕ)
    : Type 0 where
  pub mapped :
      (k : ℕ) → k * fs.block_size < inode.size → ext2_block_lookup read_sectors fs inode k ≢ 0
  pub readable :
      (k : ℕ)
      → k * fs.block_size < inode.size
      → ext2_read_block read_sectors fs (ext2_block_lookup read_sectors fs inode k) fs.block_size
        ≡ (fs.block_size, store k)
  pub full : (k : ℕ) → length (store k) ≡ fs.block_size

-- Byte `n` of the file.
abbrev pub byte_of : Ext2 → (ℕ → List ℕ) → ℕ → ℕ
byte_of fs store n = get_or (store (n / fs.block_size)) (n % fs.block_size) 0

-- The `count` bytes of the file from `start` on.
pub record IsSlice (fs : Ext2) (store : ℕ → List ℕ) (start count : ℕ) (bytes : List ℕ)
    : Type 0 where
  pub all : length bytes ≡ count
  pub same : (j : ℕ) → j < count → get_or bytes j 0 ≡ byte_of fs store (start + j)

module _ {read_sectors : Drive} {fs : Ext2} {inode : Inode} {store : ℕ → List ℕ}
    (file : IsStored read_sectors fs inode store) (some_bytes : 0 < fs.block_size) where
  -- A piece of one block in front of the rest.
  IsSlice-append :
      (start chunk count : ℕ) (rest : List ℕ)
      → chunk ≤ count
      → start % fs.block_size + chunk ≤ fs.block_size
      → IsSlice fs store (start + chunk) (count - chunk) rest
      → IsSlice fs store start count
          (take chunk (drop (start % fs.block_size) (store (start / fs.block_size))) ++ rest)
  IsSlice-append start chunk count rest le inside r =
      let bs = fs.block_size in
      let block = store (start / bs) in
      let full = file.full (start / bs) in
      let piece = take chunk (drop (start % bs) block) in
      let size : length piece ≡ chunk =
        omega
          (arith, length-take chunk (drop (start % bs) block), length-drop (start % bs) block) in
      record {
        all = omega (arith, length-append piece rest, r.all);
        same = λ j lt. elim (dec_lt j chunk) [
          | yes here ↦
              let fits : start % bs + j < bs = omega arith in
              let at : byte_of fs store (start + j) ≡ get_or block (start % bs + j) 0 =
                rw (same_block bs start j fits, further_in bs start j fits) refl in
              ground (
                arith,
                at,
                get_or-append piece rest j 0,
                get_or-take chunk (drop (start % bs) block) j 0,
                get_or-drop (start % bs) block j 0,
              )
          | no later ↦
              let place : start + chunk + (j - chunk) ≡ start + j = omega arith in
              ground (
                arith,
                get_or-append piece rest j 0,
                r.same (j - chunk) (omega arith),
                ap (λ k. get_or rest k 0) (let e : j - length piece ≡ j - chunk = omega arith in e),
                ap (byte_of fs store) place,
              )
        ];
      }

  read_from-IsSlice :
      (fuel offset size done : ℕ)
      → offset + size ≤ inode.size
      → offset + size < 2 ^ 32
      → size - done ≤ fuel
      → IsSlice fs store
          (offset + done)
          (size - done)
          (read_from read_sectors fs fuel inode offset size done)
  unfolding read_from
  read_from-IsSlice zero offset size done fits small enough = record {
    all = omega arith;
    same = λ j lt. absurd (omega arith);
  }
  read_from-IsSlice (suc fuel) offset size done fits small enough =
      let bs = fs.block_size in
      let start = offset + done in
      let k = start / bs in
      let in_block = start % bs in
      let inside = mod-lt start some_bytes in
      let chunk = min (size - done) (bs - in_block) in
      let P = λ (bytes : List ℕ). IsSlice fs store start (size - done) bytes in
      if_intro P (leb size done)
        (λ over. record { all = ground arith; same = λ j lt. absurd (ground arith) })
        (λ more.
          let left : done < size = ground arith in
          let wrap : u32 start ≡ start = mod-eq_of_lt (omega arith) in
          let below : k * bs < inode.size = let whole = div-add-mod' start bs in omega arith in
          let whole_block : (if (in_block == 0) && (chunk == bs) then chunk else bs) ≡ bs =
            if_intro (λ (l : ℕ). l ≡ bs) ((in_block == 0) && (chunk == bs))
              (λ t. let (_, e) = and_true (in_block == 0) (chunk == bs) t in ==→≡ chunk bs e)
              (λ _. refl) in
          let rest = read_from-IsSlice fuel offset size (done + chunk) fits small (omega arith) in
          let moved : offset + (done + chunk) ≡ start + chunk = omega arith in
          let fewer : size - (done + chunk) ≡ size - done - chunk = omega arith in
          let tail : IsSlice fs store (start + chunk) (size - done - chunk)
              (read_from read_sectors fs fuel inode offset size (done + chunk)) =
            rw (sym moved, sym fewer) rest in
          rw
            (
              wrap,
              ≢→== (ext2_block_lookup read_sectors fs inode k) 0 (file.mapped k below),
              whole_block,
              file.readable k below,
              ==_self bs,
            )
            (IsSlice-append start chunk (size - done)
              (read_from read_sectors fs fuel inode offset size (done + chunk)) (omega arith)
              (omega arith) tail))

  -- On a file whose blocks up to its size are mapped and readable, with blocks of at least a
  -- byte and at most 4096 bytes, the size of the code's buffers, and a range that does not wrap
  -- around, ext2_read_data gives exactly the bytes of the range that lie in the file, across the
  -- blocks, each the byte of its block.
  pub ext2_read_data-IsSlice :
      (offset size : ℕ)
      → offset + size < 2 ^ 32
      → IsSlice fs store offset
          (min size (inode.size - offset))
          (ext2_read_data read_sectors fs inode offset size)
  unfolding ext2_read_data
  ext2_read_data-IsSlice offset size small =
      let wrap : u32 (offset + size) ≡ offset + size = mod-eq_of_lt small in
      let P = λ (bytes : List ℕ). IsSlice fs store offset (min size (inode.size - offset)) bytes in
      let start : offset + 0 ≡ offset = omega arith in
      let part = λ (n : ℕ) (e : n ≡ min size (inode.size - offset)) (le : offset + n ≤ inode.size).
        let r = read_from-IsSlice n offset n 0 le (omega arith) (omega arith) in
        let count : n - 0 ≡ min size (inode.size - offset) = omega arith in
        let slice : P (read_from read_sectors fs n inode offset n 0) =
          rw start at (rw count at r) in
        slice in
      if_intro P (leb inode.size offset)
        (λ over. record { all = ground arith; same = λ j lt. absurd (ground arith) })
        (λ inside. rw wrap (elim (dec_lt inode.size (offset + size)) [
          | yes past ↦
              let test : ltb inode.size (offset + size) ≡ true = ground arith in
              rw test (part (inode.size - offset) (ground arith) (ground arith))
          | no within ↦
              let test : ltb inode.size (offset + size) ≡ false = ground arith in
              rw test (part size (ground arith) (ground arith))
        ]))
