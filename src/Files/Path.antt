-- ===== src/Files/Path.antt =====
-- The paths of kernel/fs/vfs.c. A pointer into a path is the list of the bytes from there on.
pub mod Walk
pub mod Long
use rtjn_kernel.Prelude.{
  ℕ, zero, suc, ◌+◌, ◌-◌, List, [], ◌∷◌, Option, none, some, Bool, true, false, not, ◌&&◌, ltb, leb,
  ◌==◌, ◌!=◌, if◌then◌else◌, get_or, length,
}
use rtjn_kernel.Prelude.Int.{pos, eqb_ℤ}
use rtjn_kernel.Text.{strlen, strncmp}

abbrev pub slash : ℕ
slash = 47

abbrev pub name_size : ℕ
name_size = 64

unfoldable pub vfs_skip_slashes : List ℕ → List ℕ
vfs_skip_slashes [] = []
vfs_skip_slashes (c ∷ cs) = if c == slash then vfs_skip_slashes cs else c ∷ cs

-- `*path && *path != '/' && *path >= 0x20`; a `char` above 127 is negative.
abbrev pub in_name : ℕ → Bool
in_name c = c != 0 && (c != slash && (leb 0x20 c && ltb c 128))

-- The copying loop of `vfs_next_component`, with room for so many bytes: the component and the
-- rest of the path.
unfoldable pub take_name : ℕ → List ℕ → List ℕ × List ℕ
take_name zero path = ([], path)
take_name (suc room) [] = ([], [])
take_name (suc room) (c ∷ cs) =
    let (name, rest) = take_name room cs in if in_name c then (c ∷ name, rest) else ([], c ∷ cs)

unfoldable pub vfs_next_component : ℕ → List ℕ → List ℕ × List ℕ
unfolding take_name vfs_skip_slashes
vfs_next_component max_len path =
    let (name, rest) = take_name (max_len - 1) path in (name, vfs_skip_slashes rest)

-- `vfs_mount_point_t`, without its root.
pub record MountPoint : Type 0 where
  pub path : List ℕ
  pub in_use : Bool

-- The mount point covers the path.
abbrev pub covers : List ℕ → MountPoint → Bool
covers path m =
    let len = strlen m.path in
    eqb_ℤ (strncmp path m.path len) (pos 0)
    && (if get_or path len 0 == 0 then true else get_or path len 0 == slash)

-- The loop of `vfs_find_mount` at slot `i`, with `best` and `best_len`.
unfoldable pub find_mount_from : List ℕ → ℕ → Option ℕ → ℕ → List MountPoint → Option ℕ
unfolding strlen strncmp
find_mount_from path i best best_len [] = best
find_mount_from path i best best_len (m ∷ ms) =
    let kept = find_mount_from path (i + 1) best best_len ms in
    let len = strlen m.path in
    let better = find_mount_from path (i + 1) (some i) (if len == 0 then 1 else len) ms in
    if not m.in_use
    then kept
    else if ltb len best_len
    then kept
    else if covers path m
    then better
    else kept

unfoldable pub vfs_find_mount : List ℕ → List MountPoint → Option ℕ
unfolding find_mount_from
vfs_find_mount path ms = find_mount_from path 0 none 0 ms

abbrev pub at_end : List ℕ → Bool
at_end [] = true
at_end (c ∷ cs) = c == 0

abbrev pub is_empty : List ℕ → Bool
is_empty [] = true
is_empty (c ∷ cs) = false

-- A node with the leaf name that was copied, if any; or a component that is not there.
pub data Parent (N : Type 0) : Type 0 where
  missing : Parent N
  parent : N → Option (List ℕ) → Parent N

-- `finddir` of the nodes is a parameter; a node without one finds nothing.
module _ {N : Type 0} (finddir : N → List ℕ → Option N) where
  abbrev pub descend : (N → Parent N) → Option N → Parent N
  descend k none = missing
  descend k (some n) = k n

  -- One round of the loop of `vfs_find_parent`, with the component and the rest of the path.
  abbrev pub enter : (N → List ℕ → Parent N) → N → List ℕ × List ℕ → Parent N
  enter k node (component, rest) =
      if is_empty component
      then parent node none
      else if at_end rest
      then parent node (some component)
      else descend (λ n. k n rest) (finddir node component)

  -- The loop; the fuel counts the components.
  unfoldable pub find_parent_from : ℕ → N → List ℕ → Parent N
  unfolding vfs_next_component
  find_parent_from zero node path = missing
  find_parent_from (suc fuel) node path =
      enter (find_parent_from fuel) node (vfs_next_component name_size path)

  abbrev pub from_root : N → List ℕ → Parent N
  unfolding find_parent_from
  from_root root p =
      if at_end p then parent root (some []) else find_parent_from (suc (length p)) root p

  -- `vfs_root` is the first argument.
  unfoldable pub vfs_find_parent : Option N → List ℕ → Parent N
  unfolding vfs_skip_slashes find_parent_from
  vfs_find_parent none path = missing
  vfs_find_parent (some root) path = from_root root (vfs_skip_slashes path)

  -- A leaf name that was not copied is not looked for.
  abbrev pub look_up : Parent N → Option N
  look_up missing = none
  look_up (parent n none) = none
  look_up (parent n (some leaf)) = finddir n leaf

  unfoldable pub vfs_open_node : Option N → List ℕ → Option N
  unfolding vfs_find_parent
  vfs_open_node root path =
      if at_end path
      then none
      else if get_or path 0 0 == slash && get_or path 1 0 == 0
      then root
      else look_up (vfs_find_parent root path)
