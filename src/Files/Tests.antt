-- ===== src/Files/Tests.antt =====
-- The theorems on kernel/fs/vfs.c at concrete paths and tables.
use rtjn_kernel.Prelude.{
  ℕ, zero, suc, ◌≡◌, refl, arith, List, [], ◌∷◌, Option, none, some, true, replicate, get_or, ◌==◌,
  if◌then◌else◌,
}
use rtjn_kernel.Files.Path.{slash, vfs_find_parent, vfs_find_mount, find_mount_from}
use rtjn_kernel.Text.{strlen, strncmp}
use rtjn_kernel.Files.Path.Walk.{AllInName, IsName, path_of, walk, vfs_find_parent-walk}
use rtjn_kernel.Files.Open.{Fd, blank_fd}
use rtjn_kernel.Files.Open.Table.{opened}

-- Nodes that are numbers: the root is 2, its only entry "a" is 12.
abbrev entry : ℕ → List ℕ → Option ℕ
entry n name = if get_or name 0 0 == 97 then some 12 else none

abbrev etc : List ℕ
etc = 97 ∷ []

etc-IsName : IsName etc
etc-IsName = (omega arith, omega arith, (refl, tt))

vfs_find_parent-walk_example :
    (vfs_find_parent entry (some 2) (slash ∷ path_of etc (etc ∷ [])) ≡ walk entry 2 etc (etc ∷ []))
    × (vfs_find_parent entry (some 2) (path_of etc (etc ∷ [])) ≡ walk entry 2 etc (etc ∷ []))
vfs_find_parent-walk_example =
    vfs_find_parent-walk entry 2 etc (etc ∷ []) etc-IsName (etc-IsName, tt)

abbrev table : List (Fd ℕ)
table = opened 12 1 ∷ replicate 31 blank_fd

-- The mount of "/" does not cover "/a".
root_not_covering :
    vfs_find_mount (47 ∷ 97 ∷ []) (record { path = 47 ∷ []; in_use = true } ∷ []) ≡ none
unfolding vfs_find_mount find_mount_from strlen strncmp
root_not_covering = refl

abbrev long_name : List ℕ
long_name = replicate 63 97

long_name-AllInName : (n : ℕ) → AllInName (replicate n 97)
long_name-AllInName zero = tt
long_name-AllInName (suc n) = (refl, long_name-AllInName n)
