-- ===== src/Editors/Document/Keep.antt =====
-- The edits of nano in kernel/shell/editors.c keep its buffer valid.
use rtjn_kernel.Prelude.{
  ℕ, suc, ◌+◌, ◌-◌, ◌<◌, ◌≡◌, ◌≢◌, ap, arith, List, [], ◌∷◌, ◌&&◌, ltb, leb, ◌==◌, if_intro, set,
  length, length-set, get_or-set, ◌∙◌, take, drop, length-append, length-take, length-drop, ltb→lt,
  get_or-set_self,
}
use rtjn_kernel.Text.{text}
use rtjn_kernel.Text.Copy.{strlen-eq-length}
use rtjn_kernel.Editors.Rows.{
  shift_up, shift_down, length-shift_up, length-shift_down, get_or-shift_up, get_or-shift_down,
}
use rtjn_kernel.Editors.Document.Line.{text-widened, text-narrowed, text-merged}
use rtjn_kernel.Editors.Document.{
  Document, max_lines, max_col, line_at, line_len, insert_char, erased, joined, backspace, broken,
  newline, widened, narrowed, merged, merge_room, with_room, split_tail,
}
use rtjn_kernel.Editors.Document.Valid.{
  IsRow, AllRows, IsDocument, IsRow-widened, IsRow-narrowed, IsRow-cut, IsRow-split_tail,
  IsRow-merged,
}

module _ (lines : List (List ℕ)) (size : length lines ≡ max_lines) (all : AllRows lines) where
  pub AllRows-set : (i : ℕ) (x : List ℕ) → i < max_lines → IsRow x → AllRows (set lines i x)
  AllRows-set i x h ok r lt =
      rw (get_or-set lines i r x [] (omega arith))
        (if_intro IsRow (i == r) (λ _. ok) (λ _. all r lt))

  pub AllRows-shift_up : (n from : ℕ) → from + n < max_lines → AllRows (shift_up n from lines [])
  AllRows-shift_up n from h r lt = rw (get_or-shift_up n from lines [] r (omega arith)) (
      if_intro IsRow (ltb from r && leb r (from + n)) (λ _. all (r - 1) (omega arith))
        (λ _. all r lt))

  pub AllRows-shift_down :
      (n from : ℕ) → from + n < max_lines → AllRows (shift_down n from lines [])
  AllRows-shift_down n from h r lt = rw (get_or-shift_down n from lines [] r (omega arith)) (
      if_intro IsRow (leb from r && ltb r (from + n)) (λ t. all (r + 1) (ground arith))
        (λ _. all r lt))

pub IsDocument-insert_char :
    (ch : ℕ) (d : Document) → ch ≢ 0 → IsDocument d → IsDocument (insert_char ch d)
unfolding insert_char
IsDocument-insert_char ch d nz ok =
    if_intro IsDocument (leb (max_col - 1) (line_len d d.row)) (λ _. ok)
      (λ room.
        let size = ok.size in
        let lcount_le = ok.lcount_le in
        let row_lt = ok.row_lt in
        let col_le = ok.col_le in
        let line = line_at d.lines d.row in
        let wide = widened line d.col ch in
        let row = ok.rows d.row (omega arith) in
        let long = row.size in
        let at : line_at (set d.lines d.row wide) d.row ≡ wide =
          get_or-set_self d.lines d.row wide [] (omega arith) in
        record {
          size = length-set d.lines d.row wide ∙ ok.size;
          rows =
              AllRows-set d.lines ok.size ok.rows d.row wide (omega arith)
                (IsRow-widened row d.col ch ok.col_le (ground arith) nz);
          lcount_le = ok.lcount_le;
          row_lt = ok.row_lt;
          col_le = rw at (
              omega (
                arith,
                strlen-eq-length wide,
                strlen-eq-length line,
                ap length (text-widened line d.col ch ok.col_le (ground arith) nz),
                length-append (take d.col (text line)) (ch ∷ drop d.col (text line)),
                length-take d.col (text line),
                length-drop d.col (text line),
              ));
        })

IsDocument-erased : (d : Document) → 0 < d.col → IsDocument d → IsDocument (erased d)
IsDocument-erased d pos ok =
    let size = ok.size in
    let lcount_le = ok.lcount_le in
    let row_lt = ok.row_lt in
    let col_le = ok.col_le in
    let line = line_at d.lines d.row in
    let thin = narrowed line d.col in
    let row = ok.rows d.row (omega arith) in
    let long = row.size in
    let ends = row.ends in
    let at : line_at (set d.lines d.row thin) d.row ≡ thin =
      get_or-set_self d.lines d.row thin [] (omega arith) in
    record {
      size = length-set d.lines d.row thin ∙ ok.size;
      rows =
          AllRows-set d.lines ok.size ok.rows d.row thin (omega arith)
            (IsRow-narrowed row d.col pos ok.col_le);
      lcount_le = ok.lcount_le;
      row_lt = ok.row_lt;
      col_le = rw at (
          omega (
            arith,
            strlen-eq-length thin,
            strlen-eq-length line,
            ap length (text-narrowed line d.col pos ok.col_le (omega arith)),
            length-append (take (d.col - 1) (text line)) (drop (suc (d.col - 1)) (text line)),
            length-take (d.col - 1) (text line),
            length-drop (suc (d.col - 1)) (text line),
          ));
    }

-- The joined line stands above the place that its lower half left.
pub line_at-joined :
    (d : Document)
    → IsDocument d
    → 0 < d.row
    → line_at (joined d).lines (d.row - 1) ≡ (
        let prev = line_at d.lines (d.row - 1) in
        let line = line_at d.lines d.row in merged prev line (merge_room prev line))
line_at-joined d ok pos =
    let size = ok.size in
    let lcount_le = ok.lcount_le in
    let row_lt = ok.row_lt in
    let prev = line_at d.lines (d.row - 1) in
    let line = line_at d.lines d.row in
    let one = merged prev line (merge_room prev line) in
    let lines = set d.lines (d.row - 1) one in
    let same = length-set d.lines (d.row - 1) one in
    ground (
      arith,
      get_or-shift_down (d.lcount - 1 - d.row) d.row lines [] (d.row - 1) (omega arith),
      get_or-set_self d.lines (d.row - 1) one [] (omega arith),
    )

IsDocument-joined : (d : Document) → 0 < d.row → IsDocument d → IsDocument (joined d)
IsDocument-joined d pos ok =
    let size = ok.size in
    let lcount_le = ok.lcount_le in
    let row_lt = ok.row_lt in
    let prev = line_at d.lines (d.row - 1) in
    let line = line_at d.lines d.row in
    let room = merge_room prev line in
    let one = merged prev line room in
    let above = ok.rows (d.row - 1) (omega arith) in
    let same = length-set d.lines (d.row - 1) one in
    record {
      size =
          length-shift_down (d.lcount - 1 - d.row) d.row (set d.lines (d.row - 1) one) []
          ∙ same
          ∙ ok.size;
      rows =
          AllRows-shift_down (set d.lines (d.row - 1) one) (same ∙ ok.size)
            (AllRows-set d.lines ok.size ok.rows (d.row - 1) one (omega arith)
              (IsRow-merged above line))
            (d.lcount - 1 - d.row) d.row (omega arith);
      lcount_le = omega arith;
      row_lt = omega arith;
      col_le = rw (line_at-joined d ok pos) (
          omega (
            arith,
            strlen-eq-length one,
            strlen-eq-length prev,
            strlen-eq-length line,
            ap length (text-merged prev line above.ends above.size),
            length-append (text prev) (take room (text line)),
            length-take room (text line),
          ));
    }

pub IsDocument-backspace : (d : Document) → IsDocument d → IsDocument (backspace d)
unfolding backspace
IsDocument-backspace d ok =
    if_intro IsDocument (ltb 0 d.col) (λ t. IsDocument-erased d (ltb→lt 0 d.col t) ok)
      (λ _.
        if_intro IsDocument (ltb 0 d.row) (λ t. IsDocument-joined d (ltb→lt 0 d.row t) ok)
          (λ _. ok))

IsDocument-broken : (d : Document) → d.lcount < max_lines → IsDocument d → IsDocument (broken d)
IsDocument-broken d room ok =
    let size = ok.size in
    let row_lt = ok.row_lt in
    let n = d.lcount - (d.row + 1) in
    let line = line_at d.lines d.row in
    let moved = with_room d.lines d.lcount (d.row + 1) in
    let shifted = length-shift_up n (d.row + 1) d.lines [] ∙ ok.size in
    let all = AllRows-shift_up d.lines ok.size ok.rows n (d.row + 1) (omega arith) in
    let below = split_tail line d.col (line_at moved (d.row + 1)) in
    let row = ok.rows d.row (omega arith) in
    let all' = AllRows-set moved shifted all (d.row + 1) below (omega arith) (
      IsRow-split_tail row d.col (line_at moved (d.row + 1)) ok.col_le
        (all (d.row + 1) (omega arith))) in
    let kept = length-set moved (d.row + 1) below ∙ shifted in
    record {
      size = length-set (set moved (d.row + 1) below) d.row (set line d.col 0) ∙ kept;
      rows =
          AllRows-set (set moved (d.row + 1) below) kept all' d.row (set line d.col 0) (omega arith)
            (IsRow-cut row d.col ok.col_le);
      lcount_le = omega arith;
      row_lt = omega arith;
      col_le = omega arith;
    }

pub IsDocument-newline : (d : Document) → IsDocument d → IsDocument (newline d)
unfolding newline
IsDocument-newline d ok =
    if_intro IsDocument (leb max_lines d.lcount) (λ _. ok)
      (λ f. IsDocument-broken d (ground arith) ok)
