-- ===== src/Files/Open/Table.antt =====
-- Descriptors of kernel/fs/vfs.c: a new one is the lowest free, and a closed one is not open.
use rtjn_kernel.Prelude.{
  ℕ, zero, suc, ◌+◌, ◌<◌, ◌≡◌, refl, ap, ◌∙◌, arith, List, [], ◌∷◌, Option, none, some, true, false,
  Bool-cases, inl, inr, if_intro, leb, get_or, set, length, get_or-set_self,
}
use mathlib.Core.Option.{none-ne-some, some-injective}
use rtjn_kernel.Prelude.Int.{ℤ, pos, negsuc}
use rtjn_kernel.Files.Open.{
  Fd, blank_fd, free_fd, open_fd, install, vfs_close, close_slot, max_open, no_space,
}

module _ {N : Type 0} where
  -- What the search from slot `i` on reports of the slots `fs`.
  abbrev Free : ℕ → List (Fd N) → Option ℕ → Type 0
  Free i fs none = (j : ℕ) → j < length fs → (get_or fs j blank_fd).in_use ≡ true
  Free i fs (some r) =
      (k : ℕ) × (r ≡ i + k)
      × (k < length fs)
      × ((get_or fs k blank_fd).in_use ≡ false)
      × ((j : ℕ) → j < k → (get_or fs j blank_fd).in_use ≡ true)

  used_below :
      (f : Fd N) (fs : List (Fd N)) (k : ℕ)
      → f.in_use ≡ true
      → ((j : ℕ) → j < k → (get_or fs j blank_fd).in_use ≡ true)
      → (j : ℕ) → j < suc k
      → (get_or (f ∷ fs) j blank_fd).in_use ≡ true
  used_below f fs k t below zero lt = t
  used_below f fs k t below (suc j) lt = below j (omega arith)

  Free-used :
      (i : ℕ) (f : Fd N) (fs : List (Fd N)) (r : Option ℕ)
      → f.in_use ≡ true
      → Free (i + 1) fs r
      → Free i (f ∷ fs) r
  Free-used i f fs none t all = used_below f fs (length fs) t all
  Free-used i f fs (some r) t (k, e, lt, free, below) =
      (suc k, omega arith, omega arith, free, used_below f fs k t below)

  free_fd-Free : (i : ℕ) (fs : List (Fd N)) → Free i fs (free_fd i fs)
  unfolding free_fd
  free_fd-Free i [] = λ j lt. absurd (omega arith)
  free_fd-Free i (f ∷ fs) =
      if_intro (λ r. Free i (f ∷ fs) r) f.in_use
        (λ t. Free-used i f fs (free_fd (i + 1) fs) t (free_fd-Free (i + 1) fs))
        (λ free. (0, omega arith, omega arith, free, λ j lt. absurd (omega arith)))

  abbrev pub opened : N → ℕ → Fd N
  opened node flags = record { node = some node; pos = 0; flags = flags; in_use = true }

  -- The two ends of an open.
  pub data Installed (node : N) (flags : ℕ) (fs : List (Fd N)) : ℤ × List (Fd N) → Type 0 where
    full :
        ((j : ℕ) → j < length fs → (get_or fs j blank_fd).in_use ≡ true)
        → Installed node flags fs (no_space, fs)
    lowest :
        (i : ℕ)
        → i < length fs
        → (get_or fs i blank_fd).in_use ≡ false
        → ((j : ℕ) → j < i → (get_or fs j blank_fd).in_use ≡ true)
        → Installed node flags fs (pos i, set fs i (opened node flags))

  -- Opening a node hands out the lowest descriptor that is not in use, at position 0, and
  -- touches no other; or every descriptor is in use, and the table stays.
  pub install-Installed :
      (node : N) (flags : ℕ) (fs : List (Fd N)) → Installed node flags fs (install node flags fs)
  unfolding install
  install-Installed node flags fs = go (free_fd 0 fs) (free_fd-Free 0 fs)
    where
      go :
          (r : Option ℕ)
          → Free 0 fs r
          → Installed node flags fs
              (elim r [ none ↦ (no_space, fs) | some i ↦ (pos i, set fs i (opened node flags)) ])
      go none all = full all
      go (some r) (k, e, lt, free, below) =
          let same : r ≡ k = omega arith in rw same (lowest k lt free below)

  open_fd-in_use :
      (n : ℕ) (fs : List (Fd N)) → (get_or fs n blank_fd).in_use ≡ false → open_fd (pos n) fs ≡ none
  unfolding open_fd
  open_fd-in_use n fs f = if_intro (λ r. r ≡ none) (leb max_open n) (λ _. refl) (λ _. rw f refl)

  open_fd-negative : (n : ℕ) (fs : List (Fd N)) → open_fd (negsuc n) fs ≡ none
  unfolding open_fd
  open_fd-negative n fs = refl

  open_fd-some :
      (n : ℕ) (fs : List (Fd N)) (i : ℕ) → open_fd (pos n) fs ≡ some i → (n ≡ i) × (n < max_open)
  unfolding open_fd
  open_fd-some n fs i e = elim (Bool-cases (leb max_open n)) [
    | inl t ↦ absurd (none-ne-some i (rw t at e))
    | inr f ↦ elim (Bool-cases (get_or fs n blank_fd).in_use) [
      | inl t ↦ (some-injective n i (rw t at (rw f at e)), ground arith)
      | inr f' ↦ absurd (none-ne-some i (rw f' at (rw f at e)))
    ]
  ]

  -- After a close on the table of 32 files, whether it succeeded or not, the descriptor is not
  -- open.
  pub vfs_close-open_fd :
      (fd : ℤ) (fs : List (Fd N)) → length fs ≡ max_open → open_fd fd (vfs_close fd fs).1 ≡ none
  unfolding vfs_close
  vfs_close-open_fd (negsuc n) fs room = open_fd-negative n (vfs_close (negsuc n) fs).1
  vfs_close-open_fd (pos n) fs room = go (open_fd (pos n) fs) refl
    where
      go : (r : Option ℕ) → open_fd (pos n) fs ≡ r → open_fd (pos n) (close_slot fs r).1 ≡ none
      go none e = e
      go (some i) e =
          let (same, lt) = open_fd-some n fs i e in
          let gone = record (get_or fs i blank_fd) { in_use = false; node = none } in
          open_fd-in_use n (set fs i gone) (
            ap (λ k. (get_or (set fs i gone) k blank_fd).in_use) same
            ∙ ap (λ (f : Fd N). f.in_use) (get_or-set_self fs i gone blank_fd (omega arith)))
