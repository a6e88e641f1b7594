-- ===== src/Files/Path/Walk.antt =====
-- `vfs_find_parent` of kernel/fs/vfs.c walks the names of a path.
use rtjn_kernel.Prelude.{
  ℕ, zero, suc, ◌-◌, ◌≤◌, ◌<◌, ◌≡◌, refl, sym, ap, ◌∙◌, arith, List, [], ◌∷◌, ◌++◌, Option, none,
  some, true, false, ◌==◌, length, length-append, append-nil,
}
use rtjn_kernel.Files.Path.{
  slash, name_size, in_name, take_name, vfs_skip_slashes, vfs_next_component, Parent, parent,
  descend, at_end, is_empty, enter, from_root, find_parent_from, vfs_find_parent,
}

-- All bytes belong to a name.
abbrev pub AllInName : List ℕ → Type 0
AllInName [] = Unit {0}
AllInName (c ∷ cs) = (in_name c ≡ true) × AllInName cs

-- A name of a file: not empty, with room for its terminator.
abbrev pub IsName : List ℕ → Type 0
IsName n = (0 < length n) × (length n < name_size) × AllInName n

-- What ends a name: the end of the path or a slash.
abbrev Ends : List ℕ → Type 0
Ends [] = Unit {0}
Ends (c ∷ cs) = in_name c ≡ false

take_name-append :
    (room : ℕ) (n rest : List ℕ)
    → AllInName n
    → length n ≤ room
    → Ends rest
    → take_name room (n ++ rest) ≡ (n, rest)
unfolding take_name
take_name-append zero [] rest all h e = refl
take_name-append zero (c ∷ n) rest all h e = absurd (omega arith)
take_name-append (suc room) [] [] all h e = refl
take_name-append (suc room) [] (c ∷ cs) all h e = rw e refl
take_name-append (suc room) (c ∷ n) rest (here, all) h e =
    let ih = take_name-append room n rest all (omega arith) e in
    rw here (ap (λ (r : List ℕ × List ℕ). (c ∷ r.0, r.1)) ih)

-- One name, and the path behind the slashes after it.
vfs_next_component-name :
    (n rest : List ℕ)
    → IsName n
    → Ends rest
    → vfs_next_component name_size (n ++ rest) ≡ (n, vfs_skip_slashes rest)
unfolding vfs_next_component
vfs_next_component-name n rest (some_bytes, fits, all) e =
    ap (λ (r : List ℕ × List ℕ). (r.0, vfs_skip_slashes r.1))
      (take_name-append (name_size - 1) n rest all (omega arith) e)

-- The names with a slash between each two.
abbrev pub path_of : List ℕ → List (List ℕ) → List ℕ
path_of n [] = n
path_of n (m ∷ ms) = n ++ slash ∷ path_of m ms

abbrev pub AllNames : List (List ℕ) → Type 0
AllNames [] = Unit {0}
AllNames (n ∷ ns) = IsName n × AllNames ns

pub not_slash : (c : ℕ) → in_name c ≡ true → (c == slash) ≡ false
not_slash c h = ground arith

not_end : (c : ℕ) → in_name c ≡ true → (c == 0) ≡ false
not_end c h = ground arith

-- A path of names begins with a byte of a name.
skip-path_of :
    (n : List ℕ) (ms : List (List ℕ))
    → IsName n
    → (vfs_skip_slashes (path_of n ms) ≡ path_of n ms) × (at_end (path_of n ms) ≡ false)
unfolding vfs_skip_slashes
skip-path_of [] ms (h, _, _) = absurd (omega arith)
skip-path_of (c ∷ n) [] (_, _, (here, all)) = (rw (not_slash c here) refl, not_end c here)
skip-path_of (c ∷ n) (m ∷ ms) (_, _, (here, all)) = (rw (not_slash c here) refl, not_end c here)

names-le : (n : List ℕ) (ms : List (List ℕ)) → length ms ≤ length (path_of n ms)
names-le n [] = omega arith
names-le n (m ∷ ms) = omega (arith, length-append n (slash ∷ path_of m ms), names-le m ms)

not_empty : (n : List ℕ) → IsName n → is_empty n ≡ false
not_empty [] (h, _, _) = absurd (omega arith)
not_empty (c ∷ n) h = refl

module _ {N : Type 0} (finddir : N → List ℕ → Option N) where
  -- What a path means: every name but the last is looked up in the node of those before it.
  abbrev pub walk : N → List ℕ → List (List ℕ) → Parent N
  walk node n [] = parent node (some n)
  walk node n (m ∷ ms) = descend finddir (λ k. walk k m ms) (finddir node n)

  find_parent_from-walk :
      (fuel : ℕ) (node : N) (n : List ℕ) (ms : List (List ℕ))
      → length ms < fuel
      → IsName n
      → AllNames ms
      → find_parent_from finddir fuel node (path_of n ms) ≡ walk node n ms
  unfolding find_parent_from
  find_parent_from-walk zero node n ms h name names = absurd (omega arith)
  find_parent_from-walk (suc fuel) node n [] h name names =
      let next : vfs_next_component name_size n ≡ (n, []) =
        ap (vfs_next_component name_size) (sym (append-nil n))
        ∙ vfs_next_component-name n [] name tt in
      ap (enter finddir (find_parent_from finddir fuel) node) next ∙ leaf
    where
      leaf : enter finddir (find_parent_from finddir fuel) node (n, []) ≡ parent node (some n)
      leaf = rw (not_empty n name) refl
  find_parent_from-walk (suc fuel) node n (m ∷ ms) h name (first, names) =
      let next : vfs_next_component name_size (n ++ slash ∷ path_of m ms) ≡ (n, path_of m ms) =
        vfs_next_component-name n (slash ∷ path_of m ms) name refl
        ∙ ap (λ r. (n, r)) (skip-path_of m ms first).0 in
      let deeper : (k : N) → find_parent_from finddir fuel k (path_of m ms) ≡ walk k m ms =
        λ k. find_parent_from-walk fuel k m ms (omega arith) first names in
      ap (enter finddir (find_parent_from finddir fuel) node) next
      ∙ inner
      ∙ under (finddir node n) deeper
    where
      inner :
          enter finddir (find_parent_from finddir fuel) node (n, path_of m ms)
          ≡ descend finddir (λ k. find_parent_from finddir fuel k (path_of m ms)) (finddir node n)
      inner = rw (not_empty n name) (rw (skip-path_of m ms first).1 refl)

      under :
          (r : Option N)
          → ((k : N) → find_parent_from finddir fuel k (path_of m ms) ≡ walk k m ms)
          → descend finddir (λ k. find_parent_from finddir fuel k (path_of m ms)) r
            ≡ descend finddir (λ k. walk k m ms) r
      under none deeper = refl
      under (some k) deeper = deeper k

  -- The parent of a path of names, each of 1 to 63 bytes from 0x20 to 0x7f without a slash,
  -- behind one slash or none, is found by looking the names up one after the other from the
  -- root, and the leaf is the last name; the fuel that the model gives the loop is enough.
  pub vfs_find_parent-walk :
      (root : N) (n : List ℕ) (ms : List (List ℕ))
      → IsName n
      → AllNames ms
      → (vfs_find_parent finddir (some root) (slash ∷ path_of n ms) ≡ walk root n ms)
        × (vfs_find_parent finddir (some root) (path_of n ms) ≡ walk root n ms)
  unfolding vfs_find_parent vfs_skip_slashes
  vfs_find_parent-walk root n ms name names =
      let start = skip-path_of n ms name in
      let found =
        ap (from_root finddir root) start.0
        ∙ whole start.1
        ∙ find_parent_from-walk (suc (length (path_of n ms))) root n ms
            (omega (arith, names-le n ms)) name names in
      (found, found)
    where
      whole :
          at_end (path_of n ms) ≡ false
          → from_root finddir root (path_of n ms)
            ≡ find_parent_from finddir (suc (length (path_of n ms))) root (path_of n ms)
      whole e = rw e refl
