-- ===== src/Files/Ext2/Lookup.antt =====
-- `ext2_dir_lookup` of kernel/fs/ext2.c: the entries of a directory, one behind the other.
use rtjn_kernel.Prelude.{
  ℕ, zero, suc, ◌+◌, ◌-◌, List, Option, none, some, Bool, ◌&&◌, ltb, leb, ◌==◌, ◌!=◌, if◌then◌else◌,
  get_or, drop, length, min,
}
use rtjn_kernel.Prelude.Int.{pos, eqb_ℤ}
use rtjn_kernel.Text.{strlen, memcmp}
use rtjn_kernel.Files.Ext2.{Inode, Ext2, Drive, le16, le32, is_dir, ext2_read_inode, ext2_read_data}

-- How the entries of a chunk end: at one of the name, at one of no length, or at the end.
pub data Scan : Type 0 where
  hit : ℕ → ℕ → Scan
  broken : Scan
  past : Scan

-- The entry at the start of `bytes` has the name. Behind the end of the chunk the bytes are zero, where
-- the code reads what its buffer held before.
abbrev pub has_name : List ℕ → List ℕ → Bool
has_name name bytes =
    (le32 bytes 0 != 0)
    && (strlen name == get_or bytes 6 0)
    && eqb_ℤ (memcmp (drop 8 bytes) name (strlen name)) (pos 0)

-- From the byte `at` of a chunk on. Every entry that is passed has a length, so that the bytes of
-- the chunk are fuel enough.
unfoldable pub scan_entries : ℕ → List ℕ → List ℕ → ℕ → Scan
scan_entries zero name chunk at = past
scan_entries (suc fuel) name chunk at =
    let entry = drop at chunk in
    let next = scan_entries fuel name chunk (at + le16 entry 4) in
    if ltb (length chunk) (at + 8)
    then past
    else if le16 entry 4 == 0
    then broken
    else if has_name name entry
    then hit (le32 entry 0) (get_or entry 7 0)
    else next

module _ (read_sectors : Drive) (fs : Ext2) where
  -- The chunks of the directory from byte `read_count` on.
  unfoldable pub chunks_from : ℕ → Inode → List ℕ → ℕ → Option (ℕ × ℕ)
  unfolding scan_entries
  chunks_from zero dir name read_count = none
  chunks_from (suc fuel) dir name read_count =
      let chunk =
        ext2_read_data read_sectors fs dir read_count (min (dir.size - read_count) 4096) in
      let rest = chunks_from fuel dir name (read_count + length chunk) in
      if leb dir.size read_count
      then none
      else if length chunk == 0
      then none
      else elim (scan_entries (length chunk) name chunk 0) [
        | hit ino kind ↦ some (ino, kind)
        | broken ↦ none
        | past ↦ rest
      ]

  abbrev pub entries_of : List ℕ → Option Inode → Option (ℕ × ℕ)
  entries_of name none = none
  entries_of name (some dir) = if is_dir dir then chunks_from dir.size dir name 0 else none

  -- The inode and the type of the entry.
  unfoldable pub ext2_dir_lookup : ℕ → List ℕ → Option (ℕ × ℕ)
  unfolding chunks_from ext2_read_inode is_dir
  ext2_dir_lookup dir_ino name = entries_of name (ext2_read_inode read_sectors fs dir_ino)
