-- ===== src/Files/Path/Long.antt =====
-- Names of more than 63 bytes in kernel/fs/vfs.c.
use rtjn_kernel.Prelude.{ℕ, zero, suc, ◌≡◌, refl, ap, ◌∙◌, arith, List, [], ◌∷◌, ◌++◌, true, length}
use rtjn_kernel.Files.Path.{name_size, in_name, take_name, vfs_skip_slashes, vfs_next_component}
use rtjn_kernel.Files.Path.Walk.{AllInName, not_slash}

take_name-full :
    (room : ℕ) (n rest : List ℕ)
    → AllInName n
    → length n ≡ room
    → take_name room (n ++ rest) ≡ (n, rest)
unfolding take_name
take_name-full zero [] rest all e = refl
take_name-full zero (c ∷ n) rest all e = absurd (omega arith)
take_name-full (suc room) [] rest all e = absurd (omega arith)
take_name-full (suc room) (c ∷ n) rest (here, all) e =
    rw here
      (ap (λ (r : List ℕ × List ℕ). (c ∷ r.0, r.1)) (take_name-full room n rest all (omega arith)))

-- The bytes of a name behind its 63rd are taken for the next component of the path.
pub vfs_next_component-long :
    (n : List ℕ) (c : ℕ) (rest : List ℕ)
    → AllInName n
    → length n ≡ 63
    → in_name c ≡ true
    → vfs_next_component name_size (n ++ c ∷ rest) ≡ (n, c ∷ rest)
unfolding vfs_next_component vfs_skip_slashes
vfs_next_component-long n c rest all e more =
    ap (λ (r : List ℕ × List ℕ). (r.0, vfs_skip_slashes r.1)) (take_name-full 63 n (c ∷ rest) all e)
    ∙ ap (λ r. (n, r)) kept
  where
    kept : vfs_skip_slashes (c ∷ rest) ≡ c ∷ rest
    kept = rw (not_slash c more) refl
