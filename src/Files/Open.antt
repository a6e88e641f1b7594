-- ===== src/Files/Open.antt =====
-- The table of open files of kernel/fs/vfs.c.
pub mod Table
use rtjn_kernel.Prelude.{
  ℕ, zero, suc, ◌+◌, ◌-◌, ◌^◌, ◌%◌, List, [], ◌∷◌, Option, none, some, Bool, true, false, not, ◌&&◌,
  ltb, leb, ◌==◌, ◌!=◌, if◌then◌else◌, get_or, set, length, replicate, bit_and,
}
use rtjn_kernel.Prelude.Bits.{u32}
use rtjn_kernel.Prelude.Int.{ℤ, pos, negsuc}
use rtjn_kernel.Files.Path.{Parent, missing, parent, is_empty, vfs_find_parent, vfs_open_node}

abbrev pub max_open : ℕ
max_open = 32

abbrev pub o_create : ℕ
o_create = 4

abbrev pub vfs_err : ℤ
vfs_err = negsuc 0

abbrev pub not_found : ℤ
not_found = negsuc 1

abbrev pub no_space : ℤ
no_space = negsuc 4

-- `vfs_fd_t`
pub record Fd (N : Type 0) : Type 0 where
  pub node : Option N
  pub pos : ℕ
  pub flags : ℕ
  pub in_use : Bool

-- `N` is a node of the file system; `F`, below, is the state of the disk. What the function pointers
-- of a node do is a parameter, and a missing `read` or `write` is `none`.
module _ {N : Type 0} where
  abbrev pub blank_fd : Fd N
  blank_fd = record { node = none; pos = 0; flags = 0; in_use = false }

  unfoldable pub vfs_init : List (Fd N)
  vfs_init = replicate max_open blank_fd

  -- The first slot that is not in use, from slot `i` on.
  unfoldable pub free_fd : ℕ → List (Fd N) → Option ℕ
  free_fd i [] = none
  free_fd i (f ∷ fs) = let rest = free_fd (i + 1) fs in if f.in_use then rest else some i

  -- `fd < 0 || fd >= VFS_MAX_OPEN || !vfs_files[fd].in_use`, and the index of a file that is open.
  unfoldable pub open_fd : ℤ → List (Fd N) → Option ℕ
  open_fd (negsuc n) fs = none
  open_fd (pos n) fs =
      if leb max_open n then none else if (get_or fs n blank_fd).in_use then some n else none

  -- The end of `vfs_open`, with the node.
  unfoldable pub install : N → ℕ → List (Fd N) → ℤ × List (Fd N)
  unfolding free_fd
  install node flags fs = elim (free_fd 0 fs) [
    | none ↦ (no_space, fs)
    | some i ↦
        (pos i, set fs i (record { node = some node; pos = 0; flags = flags; in_use = true }))
  ]

  abbrev pub close_slot : List (Fd N) → Option ℕ → ℤ × List (Fd N)
  close_slot fs none = (vfs_err, fs)
  close_slot fs (some i) =
      (pos 0, set fs i (record (get_or fs i blank_fd) { in_use = false; node = none }))

  unfoldable pub vfs_close : ℤ → List (Fd N) → ℤ × List (Fd N)
  unfolding open_fd
  vfs_close fd fs = close_slot fs (open_fd fd fs)

  -- `if (n > 0) pos += n`
  abbrev pub moved : ℤ → Fd N → Fd N
  moved (pos n) f = record f { pos = u32 (f.pos + n) }
  moved (negsuc n) f = f

  module _ {F : Type 0} (finddir : F → N → List ℕ → Option N)
      (create : N → List ℕ → F → Bool × F) where
    -- The creation in `vfs_open` of a path that is not there yet, with the parent.
    abbrev pub create_in :
        Option N → List ℕ → ℕ → Parent N → F → List (Fd N) → ℤ × (F × List (Fd N))
    create_in root path flags missing disk fs = (not_found, (disk, fs))
    create_in root path flags (parent n none) disk fs = (not_found, (disk, fs))
    create_in root path flags (parent n (some leaf)) disk fs =
        let (created, disk') = create n leaf disk in
        if is_empty leaf
        then (not_found, (disk, fs))
        else if not created
        then (vfs_err, (disk', fs))
        else elim (vfs_open_node (finddir disk') root path) [
          | none ↦ (vfs_err, (disk', fs))
          | some node ↦ let (fd, fs') = install node flags fs in (fd, (disk', fs'))
        ]

    unfoldable pub vfs_open : Option N → List ℕ → ℕ → F → List (Fd N) → ℤ × (F × List (Fd N))
    unfolding vfs_open_node vfs_find_parent install
    vfs_open root path flags disk fs = elim (vfs_open_node (finddir disk) root path) [
      | some node ↦ let (fd, fs') = install node flags fs in (fd, (disk, fs'))
      | none ↦
          if bit_and flags o_create != 0
          then create_in root path flags (vfs_find_parent (finddir disk) root path) disk fs
          else (not_found, (disk, fs))
    ]

  module _ {F : Type 0} (read : N → Option (ℕ → ℕ → F → ℤ × List ℕ)) where
    abbrev read_at : Option N → ℕ → Fd N → ℕ → F → List (Fd N) → ℤ × (List ℕ × List (Fd N))
    read_at none i f size disk fs = (vfs_err, ([], fs))
    read_at (some node) i f size disk fs = elim (read node) [
      | none ↦ (vfs_err, ([], fs))
      | some op ↦ let (n, bytes) = op f.pos size disk in (n, (bytes, set fs i (moved n f)))
    ]

    -- The result, the bytes that were read, and the table.
    unfoldable pub vfs_read : ℤ → ℕ → F → List (Fd N) → ℤ × (List ℕ × List (Fd N))
    unfolding open_fd
    vfs_read fd size disk fs = elim (open_fd fd fs) [
      | none ↦ (vfs_err, ([], fs))
      | some i ↦ let f = get_or fs i blank_fd in read_at f.node i f size disk fs
    ]

  module _ {F : Type 0} (write : N → Option (ℕ → List ℕ → F → ℤ × F)) where
    abbrev write_at : Option N → ℕ → Fd N → List ℕ → F → List (Fd N) → ℤ × (F × List (Fd N))
    write_at none i f bytes disk fs = (vfs_err, (disk, fs))
    write_at (some node) i f bytes disk fs = elim (write node) [
      | none ↦ (vfs_err, (disk, fs))
      | some op ↦ let (n, disk') = op f.pos bytes disk in (n, (disk', set fs i (moved n f)))
    ]

    unfoldable pub vfs_write : ℤ → List ℕ → F → List (Fd N) → ℤ × (F × List (Fd N))
    unfolding open_fd
    vfs_write fd bytes disk fs = elim (open_fd fd fs) [
      | none ↦ (vfs_err, (disk, fs))
      | some i ↦ let f = get_or fs i blank_fd in write_at f.node i f bytes disk fs
    ]
