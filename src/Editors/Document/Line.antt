-- ===== src/Editors/Document/Line.antt =====
-- What the edits of one line in kernel/shell/editors.c make of its text.
use rtjn_kernel.Prelude.{
  ℕ, suc, ◌+◌, ◌-◌, ◌≤◌, ◌<◌, ◌≡◌, ◌≢◌, ap, arith, List, ◌∷◌, get_or, set, length, get_or-set, ◌∙◌,
  take, drop, ◌++◌, length-append, length-take, length-drop, get_or-take, get_or-drop,
  get_or-append, min,
}
use rtjn_kernel.Text.{strlen, text, bzero}
use rtjn_kernel.Text.Copy.{strlen-eq-length, length-bzero}
use rtjn_kernel.Editors.Rows.{
  shift_up, copy_cells, length-shift_up, length-copy_cells, get_or-shift_up, get_or-shift_down,
  get_or-copy_cells, get_or-strlen, get_or-text, get_or-below_strlen, text_of_get_or, get_or-put_in,
  get_or-leave_out,
}
use rtjn_kernel.Editors.Document.{max_col, widened, narrowed, merged, merge_room, split_tail}

-- The texts that the edits of a line leave.
module _ (line : List ℕ) where
  pub text-widened :
      (col ch : ℕ)
      → col ≤ strlen line
      → strlen line + 1 < length line
      → ch ≢ 0
      → text (widened line col ch) ≡ take col (text line) ++ ch ∷ drop col (text line)
  text-widened col ch h room nz =
      let n = strlen line + 1 - col in
      let up = shift_up n col line 0 in
      let same = length-shift_up n col line 0 in
      let len = strlen-eq-length line in
      let want = take col (text line) ++ ch ∷ drop col (text line) in
      let size : length want ≡ strlen line + 1 = omega (
        arith,
        length-append (take col (text line)) (ch ∷ drop col (text line)),
        length-take col (text line),
        length-drop col (text line),
      ) in
      let wanted = λ (j : ℕ). get_or-put_in col (text line) ch 0 j (omega arith) in
      let written = λ (j : ℕ). get_or-set up col j ch 0 (omega arith) in
      let moved = λ (j : ℕ). get_or-shift_up n col line 0 j (omega arith) in
      text_of_get_or (widened line col ch) want
        (λ j lt. ground (
          arith,
          wanted j,
          get_or-text line j,
          get_or-text line (j - 1),
          get_or-below_strlen line j,
          get_or-below_strlen line (j - 1),
        ))
        (λ j lt.
          ground
            (arith, wanted j, written j, moved j, get_or-text line j, get_or-text line (j - 1)))
        (rw size
          (ground (arith, written (strlen line + 1), moved (strlen line + 1), get_or-strlen line)))

  pub text-narrowed :
      (col : ℕ)
      → 0 < col
      → col ≤ strlen line
      → strlen line < length line
      → text (narrowed line col) ≡ take (col - 1) (text line) ++ drop (suc (col - 1)) (text line)
  text-narrowed col pos h room =
      let n = strlen line + 1 - col in
      let len = strlen-eq-length line in
      let want = take (col - 1) (text line) ++ drop (suc (col - 1)) (text line) in
      let size : length want ≡ strlen line - 1 = omega (
        arith,
        length-append (take (col - 1) (text line)) (drop (suc (col - 1)) (text line)),
        length-take (col - 1) (text line),
        length-drop (suc (col - 1)) (text line),
      ) in
      let wanted = λ (j : ℕ). get_or-leave_out (col - 1) (text line) 0 j (omega arith) in
      let value = λ (j : ℕ). get_or-shift_down n (col - 1) line 0 j (omega arith) in
      text_of_get_or (narrowed line col) want
        (λ j lt. ground (
          arith,
          wanted j,
          get_or-text line j,
          get_or-text line (j + 1),
          get_or-below_strlen line j,
          get_or-below_strlen line (j + 1),
        ))
        (λ j lt. ground (arith, wanted j, value j, get_or-text line j, get_or-text line (j + 1)))
        (rw size (
          let at : strlen line - 1 + 1 ≡ strlen line = omega arith in
          ground
            (arith, value (strlen line - 1), ap (λ i. get_or line i 0) at, get_or-strlen line)))

  -- The cells up to `col` where a zero is written.
  pub text-cut :
      (col : ℕ)
      → col ≤ strlen line
      → strlen line < length line
      → text (set line col 0) ≡ take col (text line)
  text-cut col h room =
      let len = strlen-eq-length line in
      let size : length (take col (text line)) ≡ col = omega (arith, length-take col (text line)) in
      let wanted = λ (j : ℕ). get_or-take col (text line) j 0 in
      let value = λ (j : ℕ). get_or-set line col j 0 0 (omega arith) in
      text_of_get_or (set line col 0) (take col (text line))
        (λ j lt. ground (arith, wanted j, get_or-text line j, get_or-below_strlen line j))
        (λ j lt. ground (arith, wanted j, value j, get_or-text line j))
        (rw size (ground (arith, value col)))

  pub text-split_tail :
      (col : ℕ) (blank : List ℕ)
      → col ≤ strlen line
      → strlen line < max_col
      → length blank ≡ max_col
      → text (split_tail line col blank) ≡ drop col (text line)
  text-split_tail col blank h ends size =
      let tail = min (strlen line - col) (max_col - 1) in
      let zeros = bzero blank max_col in
      let zeroed : length zeros ≡ max_col = length-bzero blank max_col ∙ size in
      let copied = copy_cells tail zeros 0 line col 0 in
      let kept = length-copy_cells tail zeros 0 line col 0 in
      let len = strlen-eq-length line in
      let rest : length (drop col (text line)) ≡ tail =
        omega (arith, length-drop col (text line)) in
      let written = λ (j : ℕ). get_or-set copied tail j 0 0 (omega arith) in
      let moved = λ (j : ℕ). get_or-copy_cells tail zeros 0 line col 0 j (omega arith) in
      text_of_get_or (split_tail line col blank) (drop col (text line))
        (λ j lt. ground (
          arith,
          get_or-drop col (text line) j 0,
          get_or-text line (col + j),
          get_or-below_strlen line (col + j),
        ))
        (λ j lt.
          ground (
            arith,
            get_or-drop col (text line) j 0,
            get_or-text line (col + j),
            written j,
            moved j,
          ))
        (rw rest (ground (arith, written tail)))

-- A line joined to the line above, as far as that has room.
pub text-merged :
    (prev line : List ℕ)
    → strlen prev < max_col
    → length prev ≡ max_col
    → text (merged prev line (merge_room prev line))
      ≡ text prev ++ take (merge_room prev line) (text line)
text-merged prev line ends size =
    let room = merge_room prev line in
    let plen = strlen prev in
    let copied = copy_cells room prev plen line 0 0 in
    let kept = length-copy_cells room prev plen line 0 0 in
    let len = strlen-eq-length line in
    let before = strlen-eq-length prev in
    let want = text prev ++ take room (text line) in
    let long : length want ≡ plen + room =
      omega
        (arith, length-append (text prev) (take room (text line)), length-take room (text line)) in
    let written = λ (j : ℕ). get_or-set copied (plen + room) j 0 0 (omega arith) in
    let moved = λ (j : ℕ). get_or-copy_cells room prev plen line 0 0 j (omega arith) in
    let wanted = λ (j : ℕ). get_or-append (text prev) (take room (text line)) j 0 in
    let taken = λ (j : ℕ). get_or-take room (text line) (j - length (text prev)) 0 in
    let at = λ (j : ℕ).
      ap (λ k. get_or line k 0)
        (let e : 0 + (j - plen) ≡ j - length (text prev) = omega arith in e) in
    text_of_get_or (merged prev line room) want
      (λ j lt. ground (
        arith,
        wanted j,
        taken j,
        get_or-text prev j,
        get_or-text line (j - length (text prev)),
        get_or-below_strlen prev j,
        get_or-below_strlen line (j - length (text prev)),
      ))
      (λ j lt. ground (
        arith,
        wanted j,
        taken j,
        written j,
        moved j,
        at j,
        get_or-text prev j,
        get_or-text line (j - length (text prev)),
      ))
      (rw long (
        let edge : plen + 0 ≡ plen = omega arith in
        ground (
          arith,
          written (plen + room),
          get_or-strlen prev,
          ap (λ k. get_or prev (plen + k) 0) edge,
          ap (λ k. get_or prev k 0) edge,
        )))
