-- ===== src/Editors/Document/Valid.antt =====
-- What keeps every access of the editors of kernel/shell/editors.c inside their arrays.
use rtjn_kernel.Prelude.{
  ℕ, suc, ◌+◌, ◌-◌, ◌≤◌, ◌<◌, ◌≡◌, ◌≢◌, ap, arith, List, ◌∷◌, ltb, if_intro, set, length,
  length-set, ◌∙◌, take, drop, length-append, length-take, length-drop, min,
}
use rtjn_kernel.Text.{strlen, text, bzero}
use rtjn_kernel.Text.Copy.{strlen-eq-length, length-bzero}
use rtjn_kernel.Editors.Rows.{
  shift_up, copy_cells, length-shift_up, length-shift_down, length-copy_cells,
}
use rtjn_kernel.Editors.Document.Line.{
  text-widened, text-narrowed, text-cut, text-split_tail, text-merged,
}
use rtjn_kernel.Editors.Document.{
  Document, max_lines, max_col, line_at, line_len, widened, narrowed, merged, merge_room,
  split_tail,
}

-- A line has `max_col` bytes, one of them a terminator.
pub record IsRow (line : List ℕ) : Type 0 where
  pub size : length line ≡ max_col
  pub ends : strlen line < max_col

abbrev pub AllRows : List (List ℕ) → Type 0
AllRows lines = (r : ℕ) → r < max_lines → IsRow (line_at lines r)

-- The cursor is in the text of a line that is in use.
pub record IsDocument (d : Document) : Type 0 where
  pub size : length d.lines ≡ max_lines
  pub rows : AllRows d.lines
  pub lcount_le : d.lcount ≤ max_lines
  pub row_lt : d.row < d.lcount
  pub col_le : d.col ≤ line_len d d.row

module _ {line : List ℕ} (ok : IsRow line) where
  pub IsRow-widened :
      (col ch : ℕ)
      → col ≤ strlen line
      → strlen line + 1 < max_col
      → ch ≢ 0
      → IsRow (widened line col ch)
  IsRow-widened col ch h room nz =
      let size = ok.size in
      let n = strlen line + 1 - col in
      let w = widened line col ch in
      record {
        size = length-set (shift_up n col line 0) col ch ∙ length-shift_up n col line 0 ∙ ok.size;
        ends = omega (
          arith,
          strlen-eq-length w,
          strlen-eq-length line,
          ap length (text-widened line col ch h (omega arith) nz),
          length-append (take col (text line)) (ch ∷ drop col (text line)),
          length-take col (text line),
          length-drop col (text line),
        );
      }

  pub IsRow-narrowed : (col : ℕ) → 0 < col → col ≤ strlen line → IsRow (narrowed line col)
  IsRow-narrowed col pos h =
      let size = ok.size in
      let ends = ok.ends in
      record {
        size = length-shift_down (strlen line + 1 - col) (col - 1) line 0 ∙ ok.size;
        ends = omega (
          arith,
          strlen-eq-length (narrowed line col),
          strlen-eq-length line,
          ap length (text-narrowed line col pos h (omega arith)),
          length-append (take (col - 1) (text line)) (drop (suc (col - 1)) (text line)),
          length-take (col - 1) (text line),
          length-drop (suc (col - 1)) (text line),
        );
      }

  pub IsRow-cut : (col : ℕ) → col ≤ strlen line → IsRow (set line col 0)
  IsRow-cut col h =
      let size = ok.size in
      let ends = ok.ends in
      record {
        size = length-set line col 0 ∙ ok.size;
        ends = omega (
          arith,
          strlen-eq-length (set line col 0),
          ap length (text-cut line col h (omega arith)),
          length-take col (text line),
        );
      }

  pub IsRow-split_tail :
      (col : ℕ) (blank : List ℕ)
      → col ≤ strlen line
      → IsRow blank
      → IsRow (split_tail line col blank)
  IsRow-split_tail col blank h empty =
      let ends = ok.ends in
      let tail = min (strlen line - col) (max_col - 1) in
      let zeros = bzero blank max_col in
      record {
        size =
            length-set (copy_cells tail zeros 0 line col 0) tail 0
            ∙ length-copy_cells tail zeros 0 line col 0
            ∙ length-bzero blank max_col
            ∙ empty.size;
        ends = omega (
          arith,
          strlen-eq-length (split_tail line col blank),
          strlen-eq-length line,
          ap length (text-split_tail line col blank h ok.ends empty.size),
          length-drop col (text line),
        );
      }

  pub IsRow-merged : (below : List ℕ) → IsRow (merged line below (merge_room line below))
  IsRow-merged below =
      let ends = ok.ends in
      let room = merge_room line below in
      record {
        size =
            if_intro (λ (r : List ℕ). length r ≡ max_col) (ltb 0 room)
              (λ _.
                length-set (copy_cells room line (strlen line) below 0 0) (strlen line + room) 0
                ∙ length-copy_cells room line (strlen line) below 0 0
                ∙ ok.size)
              (λ _. ok.size);
        ends = omega (
          arith,
          strlen-eq-length (merged line below room),
          strlen-eq-length line,
          ap length (text-merged line below ok.ends ok.size),
          length-append (text line) (take room (text below)),
          length-take room (text below),
        );
      }
