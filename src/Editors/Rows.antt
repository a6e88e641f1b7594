-- ===== src/Editors/Rows.antt =====
-- The loops of kernel/shell/editors.c that move cells of a line, or whole lines, and what they
-- leave at each place.
use rtjn_kernel.Prelude.{
  ℕ, zero, suc, ◌+◌, ◌-◌, ◌≤◌, ◌<◌, ◌≡◌, ◌≢◌, refl, ap, arith, List, [], ◌∷◌, ◌&&◌, ltb, leb, ◌==◌,
  if◌then◌else◌, get_or, set, length, length-set, get_or-set, Bool-cases, inl, inr, ◌∙◌, ◌++◌, take,
  drop,
}
use rtjn_kernel.Text.{strlen, text}

module _ {A : Type 0} where
  -- `for (i = from + n - 1; i >= from; i--) a[i + 1] = a[i];`
  unfoldable pub shift_up : ℕ → ℕ → List A → A → List A
  shift_up zero from a d = a
  shift_up (suc n) from a d = shift_up n from (set a (from + n + 1) (get_or a (from + n) d)) d

  -- `for (i = from; i < from + n; i++) a[i] = a[i + 1];`
  unfoldable pub shift_down : ℕ → ℕ → List A → A → List A
  shift_down zero from a d = a
  shift_down (suc n) from a d = shift_down n (from + 1) (set a from (get_or a (from + 1) d)) d

  -- `for (i = 0; i < n; i++) dst[at + i] = src[from + i];`
  unfoldable pub copy_cells : ℕ → List A → ℕ → List A → ℕ → A → List A
  copy_cells zero dst at src from d = dst
  copy_cells (suc n) dst at src from d =
      copy_cells n (set dst at (get_or src from d)) (at + 1) src (from + 1) d

  pub length-shift_up : (n from : ℕ) (a : List A) (d : A) → length (shift_up n from a d) ≡ length a
  unfolding shift_up
  length-shift_up zero from a d = refl
  length-shift_up (suc n) from a d =
      length-shift_up n from (set a (from + n + 1) (get_or a (from + n) d)) d
      ∙ length-set a (from + n + 1) (get_or a (from + n) d)

  pub length-shift_down :
      (n from : ℕ) (a : List A) (d : A) → length (shift_down n from a d) ≡ length a
  unfolding shift_down
  length-shift_down zero from a d = refl
  length-shift_down (suc n) from a d =
      length-shift_down n (from + 1) (set a from (get_or a (from + 1) d)) d
      ∙ length-set a from (get_or a (from + 1) d)

  pub length-copy_cells :
      (n : ℕ) (dst : List A) (at : ℕ) (src : List A) (from : ℕ) (d : A)
      → length (copy_cells n dst at src from d) ≡ length dst
  unfolding copy_cells
  length-copy_cells zero dst at src from d = refl
  length-copy_cells (suc n) dst at src from d =
      length-copy_cells n (set dst at (get_or src from d)) (at + 1) src (from + 1) d
      ∙ length-set dst at (get_or src from d)

  pub get_or-shift_up :
      (n from : ℕ) (a : List A) (d : A) (j : ℕ)
      → from + n < length a
      → get_or (shift_up n from a d) j d
        ≡ (if ltb from j && leb j (from + n) then get_or a (j - 1) d else get_or a j d)
  unfolding shift_up
  get_or-shift_up zero from a d j h = ground arith
  get_or-shift_up (suc n) from a d j h =
      let v = get_or a (from + n) d in
      let a' = set a (from + n + 1) v in
      let same = length-set a (from + n + 1) v in
      ground (
        arith,
        get_or-shift_up n from a' d j (omega arith),
        get_or-set a (from + n + 1) (j - 1) v d (omega arith),
        get_or-set a (from + n + 1) j v d (omega arith),
      )

  pub get_or-shift_down :
      (n from : ℕ) (a : List A) (d : A) (j : ℕ)
      → from + n ≤ length a
      → get_or (shift_down n from a d) j d
        ≡ (if leb from j && ltb j (from + n) then get_or a (j + 1) d else get_or a j d)
  unfolding shift_down
  get_or-shift_down zero from a d j h = ground arith
  get_or-shift_down (suc n) from a d j h =
      let v = get_or a (from + 1) d in
      let same = length-set a from v in
      ground (
        arith,
        get_or-shift_down n (from + 1) (set a from v) d j (omega arith),
        get_or-set a from (j + 1) v d (omega arith),
        get_or-set a from j v d (omega arith),
      )

  pub get_or-copy_cells :
      (n : ℕ) (dst : List A) (at : ℕ) (src : List A) (from : ℕ) (d : A) (j : ℕ)
      → at + n ≤ length dst
      → get_or (copy_cells n dst at src from d) j d
        ≡ (if leb at j && ltb j (at + n) then get_or src (from + (j - at)) d else get_or dst j d)
  unfolding copy_cells
  get_or-copy_cells zero dst at src from d j h = ground arith
  get_or-copy_cells (suc n) dst at src from d j h =
      let v = get_or src from d in
      let same = length-set dst at v in
      ground (
        arith,
        get_or-copy_cells n (set dst at v) (at + 1) src (from + 1) d j (omega arith),
        get_or-set dst at j v d (omega arith),
      )

-- One element put in at `n`, and one left out there.
module _ {A : Type 0} where
  pub get_or-put_in :
      (n : ℕ) (xs : List A) (c d : A) (j : ℕ)
      → n ≤ length xs
      → get_or (take n xs ++ c ∷ drop n xs) j d
        ≡ (if ltb j n then get_or xs j d else if j == n then c else get_or xs (j - 1) d)
  get_or-put_in zero xs c d zero h = refl
  get_or-put_in zero xs c d (suc j) h = ground arith
  get_or-put_in (suc n) [] c d j h = absurd (omega arith)
  get_or-put_in (suc n) (x ∷ xs) c d zero h = ground arith
  get_or-put_in (suc n) (x ∷ xs) c d (suc zero) h =
      ground (arith, get_or-put_in n xs c d 0 (omega arith))
  get_or-put_in (suc n) (x ∷ xs) c d (suc (suc j)) h =
      ground (arith, get_or-put_in n xs c d (suc j) (omega arith))

  pub get_or-leave_out :
      (n : ℕ) (xs : List A) (d : A) (j : ℕ)
      → n < length xs
      → get_or (take n xs ++ drop (suc n) xs) j d
        ≡ (if ltb j n then get_or xs j d else get_or xs (j + 1) d)
  get_or-leave_out zero [] d j h = absurd (omega arith)
  get_or-leave_out zero (x ∷ xs) d j h = ground arith
  get_or-leave_out (suc n) [] d j h = absurd (omega arith)
  get_or-leave_out (suc n) (x ∷ xs) d zero h = ground arith
  get_or-leave_out (suc n) (x ∷ xs) d (suc j) h =
      ground (arith, get_or-leave_out n xs d j (omega arith))

-- The elements in front of a written one and behind it.
module _ {ℓ} {A : Type ℓ} where
  pub take-set : (n : ℕ) (xs : List A) (v : A) → take n (set xs n v) ≡ take n xs
  take-set zero xs v = refl
  take-set (suc n) [] v = refl
  take-set (suc n) (x ∷ xs) v = ap (◌∷◌ x) (take-set n xs v)

  pub drop-set : (n : ℕ) (xs : List A) (v : A) → drop (suc n) (set xs n v) ≡ drop (suc n) xs
  drop-set n [] v = refl
  drop-set zero (x ∷ xs) v = refl
  drop-set (suc n) (x ∷ xs) v = drop-set n xs v

  pub take_snoc :
      (n : ℕ) (xs : List A) (d : A)
      → n < length xs
      → take (suc n) xs ≡ take n xs ++ get_or xs n d ∷ []
  take_snoc n [] d h = absurd (omega arith)
  take_snoc zero (x ∷ xs) d h = refl
  take_snoc (suc n) (x ∷ xs) d h = ap (◌∷◌ x) (take_snoc n xs d (omega arith))

-- Where a list is cut.
module _ {ℓ} {A : Type ℓ} where
  pub take_at : (n : ℕ) (xs ys : List A) → n ≤ length xs → take n (take n xs ++ ys) ≡ take n xs
  take_at zero xs ys e = refl
  take_at (suc n) [] ys e = absurd (omega arith)
  take_at (suc n) (x ∷ xs) ys e = ap (◌∷◌ x) (take_at n xs ys (omega arith))

  pub drop_at : (n : ℕ) (xs ys : List A) → n ≤ length xs → drop n (take n xs ++ ys) ≡ ys
  drop_at zero xs ys e = refl
  drop_at (suc n) [] ys e = absurd (omega arith)
  drop_at (suc n) (x ∷ xs) ys e = drop_at n xs ys (omega arith)

  pub take_past :
      (n : ℕ) (xs ys : List A) (c : A)
      → n ≤ length xs
      → take (suc n) (take n xs ++ c ∷ ys) ≡ take n xs ++ c ∷ []
  take_past zero xs ys c e = refl
  take_past (suc n) [] ys c e = absurd (omega arith)
  take_past (suc n) (x ∷ xs) ys c e = ap (◌∷◌ x) (take_past n xs ys c (omega arith))

  pub drop_past :
      (n : ℕ) (xs ys : List A) (c : A) → n ≤ length xs → drop (suc n) (take n xs ++ c ∷ ys) ≡ ys
  drop_past zero xs ys c e = refl
  drop_past (suc n) [] ys c e = absurd (omega arith)
  drop_past (suc n) (x ∷ xs) ys c e = drop_past n xs ys c (omega arith)

  pub take_all : (n : ℕ) (xs : List A) → length xs ≤ n → take n xs ≡ xs
  take_all zero [] h = refl
  take_all zero (x ∷ xs) h = absurd (omega arith)
  take_all (suc n) [] h = refl
  take_all (suc n) (x ∷ xs) h = ap (◌∷◌ x) (take_all n xs (omega arith))

  pub drop_all : (n : ℕ) (xs : List A) → length xs ≤ n → drop n xs ≡ []
  drop_all zero [] h = refl
  drop_all zero (x ∷ xs) h = absurd (omega arith)
  drop_all (suc n) [] h = refl
  drop_all (suc n) (x ∷ xs) h = drop_all n xs (omega arith)

-- The text of a line ends at its first zero byte.
pub get_or-strlen : (row : List ℕ) → get_or row (strlen row) 0 ≡ 0
unfolding strlen
get_or-strlen [] = refl
get_or-strlen (c ∷ cs) = ground (arith, get_or-strlen cs)

pub get_or-text :
    (row : List ℕ) (j : ℕ)
    → get_or (text row) j 0 ≡ (if ltb j (strlen row) then get_or row j 0 else 0)
unfolding strlen
get_or-text [] j = ground arith
get_or-text (c ∷ cs) zero = ground arith
get_or-text (c ∷ cs) (suc j) = ground (arith, get_or-text cs j)

pub get_or-below_strlen : (row : List ℕ) (j : ℕ) → j < strlen row → get_or row j 0 ≢ 0
unfolding strlen
get_or-below_strlen [] j h = absurd (omega arith)
get_or-below_strlen (c ∷ cs) zero h = ground arith
get_or-below_strlen (c ∷ cs) (suc j) h = get_or-below_strlen cs j (ground arith)

-- A line that begins with `t`, which has no zero byte, and then a zero byte, holds the text `t`.
pub text_of_get_or :
    (row t : List ℕ)
    → ((j : ℕ) → j < length t → get_or t j 0 ≢ 0)
    → ((j : ℕ) → j < length t → get_or row j 0 ≡ get_or t j 0)
    → get_or row (length t) 0 ≡ 0
    → text row ≡ t
text_of_get_or [] [] nz eq end = refl
text_of_get_or (c ∷ cs) [] nz eq end = rw end refl
text_of_get_or [] (x ∷ t) nz eq end =
    absurd (nz 0 (omega arith) (let e = eq 0 (omega arith) in ground arith))
text_of_get_or (c ∷ cs) (x ∷ t) nz eq end = elim (Bool-cases (c == 0)) [
  | inl e ↦ absurd (nz 0 (omega arith) (let h = eq 0 (omega arith) in ground arith))
  | inr e ↦
      let rest =
        text_of_get_or cs t (λ j lt. nz (suc j) (omega arith)) (λ j lt. eq (suc j) (omega arith))
          end in
      let head : c ≡ x = eq 0 (omega arith) in rw e (λ i. head i ∷ rest i)
]
