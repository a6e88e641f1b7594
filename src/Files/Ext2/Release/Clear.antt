-- ===== src/Files/Ext2/Release/Clear.antt =====
-- What kernel/fs/ext2.c leaves of the pointers of a file whose blocks go.
use rtjn_kernel.Prelude.{
  ℕ, zero, suc, ◌+◌, ◌<◌, ◌≤◌, ◌≡◌, refl, arith, List, [], ◌∷◌, ◌==◌, ==→≡, if_intro, get_or, set,
}
use native.Mathlib.Decide.{dec_lt}
use rtjn_kernel.Files.Ext2.{Ext2}
use rtjn_kernel.Files.Ext2.Alloc.{Disk}
use rtjn_kernel.Files.Ext2.Write.{File}
use rtjn_kernel.Files.Ext2.Release.{
  cleared, free_one, free_table, free_direct, ext2_free_indirect_chains, ext2_free_inode_blocks,
}

get_or-set_zero : (xs : List ℕ) (k j : ℕ) → get_or xs j 0 ≡ 0 → get_or (set xs k 0) j 0 ≡ 0
get_or-set_zero [] k j z = z
get_or-set_zero (x ∷ xs) zero zero z = refl
get_or-set_zero (x ∷ xs) zero (suc j) z = z
get_or-set_zero (x ∷ xs) (suc k) zero z = z
get_or-set_zero (x ∷ xs) (suc k) (suc j) z = get_or-set_zero xs k j z

get_or-set_here : (xs : List ℕ) (k : ℕ) → get_or (set xs k 0) k 0 ≡ 0
get_or-set_here [] k = refl
get_or-set_here (x ∷ xs) zero = refl
get_or-set_here (x ∷ xs) (suc k) = get_or-set_here xs k

-- Pointer `j` is zero.
abbrev IsClear : {D : Type 0} → ℕ → File D → Type 0
IsClear j f = get_or f.inode.block j 0 ≡ 0

module _ {D : Type 0} (release : ℕ → Ext2 × D → Ext2 × D) (k : ℕ) (f : File D) where
  IsClear-stays : (j : ℕ) → IsClear j f → IsClear j (cleared release k f)
  unfolding cleared
  IsClear-stays j z =
      if_intro (IsClear j) (get_or f.inode.block k 0 == 0) (λ t. z)
        (λ e. get_or-set_zero f.inode.block k j z)

  IsClear-here : IsClear k (cleared release k f)
  unfolding cleared
  IsClear-here =
      if_intro (IsClear k) (get_or f.inode.block k 0 == 0)
        (λ t. ==→≡ (get_or f.inode.block k 0) 0 t) (λ e. get_or-set_here f.inode.block k)

module _ {D : Type 0} (disk : Disk D) (buf : List ℕ) where
  IsClear-direct_stays :
      (left i j : ℕ) (f : File D) → IsClear j f → IsClear j (free_direct disk buf left i f)
  unfolding free_direct
  IsClear-direct_stays zero i j f z = z
  IsClear-direct_stays (suc left) i j f z =
      IsClear-direct_stays left (i + 1) j (cleared (free_one disk buf) i f)
        (IsClear-stays (free_one disk buf) i f j z)

  IsClear-direct :
      (left i j : ℕ) (f : File D) → i ≤ j → j < i + left → IsClear j (free_direct disk buf left i f)
  unfolding free_direct
  IsClear-direct zero i j f le lt = absurd (omega arith)
  IsClear-direct (suc left) i j f le lt = elim (dec_lt i j) [
    | yes after ↦
        IsClear-direct left (i + 1) j (cleared (free_one disk buf) i f) (omega arith) (omega arith)
    | no at ↦
        let e : j ≡ i = omega arith in
        IsClear-direct_stays left (i + 1) j (cleared (free_one disk buf) i f)
          (rw (e) (IsClear-here (free_one disk buf) i f))
  ]

  IsClear-chains :
      (j : ℕ) (f : File D)
      → (j < 12 → IsClear j f)
      → j < 15
      → IsClear j (ext2_free_indirect_chains disk buf f)
  unfolding ext2_free_indirect_chains
  IsClear-chains j f direct lt =
      let one = free_one disk buf in
      let two = free_table disk buf one in
      let three = free_table disk buf two in
      let single = cleared two 12 f in
      let double = cleared three 13 single in
      elim (dec_lt j 12) [
        | yes low ↦
            IsClear-stays one 14 double j
              (IsClear-stays three 13 single j (IsClear-stays two 12 f j (direct low)))
        | no high ↦ elim (dec_lt j 13) [
          | yes at ↦
              let e : j ≡ 12 = omega arith in
              rw (e) (
                IsClear-stays one 14 double 12
                  (IsClear-stays three 13 single 12 (IsClear-here two 12 f)))
          | no high' ↦ elim (dec_lt j 14) [
            | yes at ↦
                let e : j ≡ 13 = omega arith in
                rw (e) (IsClear-stays one 14 double 13 (IsClear-here three 13 single))
            | no at ↦ let e : j ≡ 14 = omega arith in rw (e) (IsClear-here one 14 double)
          ]
        ]
      ]

  -- Whatever the drive answers, none of the fifteen pointers of an inode is left after
  -- ext2_free_inode_blocks.
  pub ext2_free_inode_blocks-IsClear :
      (j : ℕ) (f : File D) → j < 15 → get_or (ext2_free_inode_blocks disk buf f).inode.block j 0 ≡ 0
  unfolding ext2_free_inode_blocks
  ext2_free_inode_blocks-IsClear j f lt =
      IsClear-chains j (free_direct disk buf 12 0 f)
        (λ low. IsClear-direct 12 0 j f (omega arith) (omega arith)) lt
