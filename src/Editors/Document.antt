-- ===== src/Editors/Document.antt =====
-- The buffer of kernel/shell/editors.c and the edits that nano makes in it. The line under the
-- cursor is `lines[row]`; a line is an array of `max_col` bytes, its text ends at the first zero.
pub mod Line
pub mod Valid
pub mod Keep
pub mod Flat
pub mod Break
pub mod Join
pub mod Refine
use rtjn_kernel.Prelude.{
  ℕ, zero, suc, ◌+◌, ◌-◌, List, [], ◌∷◌, Bool, true, false, ltb, leb, ◌==◌, if◌then◌else◌, get_or,
  set, min,
}
use rtjn_kernel.Text.{strlen, bzero}
use rtjn_kernel.Editors.Rows.{shift_up, shift_down, copy_cells}

abbrev pub max_lines : ℕ
max_lines = 512

abbrev pub max_col : ℕ
max_col = 160

-- `nano_lines`, `nano_lcount`, `nano_row`, `nano_col` and `nano_modified`, and vi's of these names.
pub record Document : Type 0 where
  pub lines : List (List ℕ)
  pub lcount : ℕ
  pub row : ℕ
  pub col : ℕ
  pub modified : Bool

abbrev pub line_at : List (List ℕ) → ℕ → List ℕ
line_at lines r = get_or lines r []

abbrev pub line_len : Document → ℕ → ℕ
line_len d r = strlen (line_at d.lines r)

-- The line after the insertion of `ch` at `col`.
abbrev pub widened : List ℕ → ℕ → ℕ → List ℕ
widened line col ch = set (shift_up (strlen line + 1 - col) col line 0) col ch

abbrev pub typed : ℕ → Document → Document
typed ch d = record d {
  lines = set d.lines d.row (widened (line_at d.lines d.row) d.col ch);
  col = min (d.col + 1) (max_col - 1);
  modified = true;
}

unfoldable pub insert_char : ℕ → Document → Document
insert_char ch d = if leb (max_col - 1) (line_len d d.row) then d else typed ch d

-- The line without the byte in front of `col`.
abbrev pub narrowed : List ℕ → ℕ → List ℕ
narrowed line col = shift_down (strlen line + 1 - col) (col - 1) line 0

-- `prev` with the first `room` bytes of `line` behind its text.
abbrev pub merged : List ℕ → List ℕ → ℕ → List ℕ
merged prev line room =
    let plen = strlen prev in
    if ltb 0 room then set (copy_cells room prev plen line 0 0) (plen + room) 0 else prev

abbrev pub merge_room : List ℕ → List ℕ → ℕ
merge_room prev line = min (max_col - 1 - strlen prev) (strlen line)

-- `lines` without line `row`.
abbrev pub without_line : List (List ℕ) → ℕ → ℕ → List (List ℕ)
without_line lines lcount row = shift_down (lcount - 1 - row) row lines []

-- The two branches of `nano_backspace`: in a line, and at its start.
abbrev pub erased : Document → Document
erased d = record d {
  lines = set d.lines d.row (narrowed (line_at d.lines d.row) d.col);
  col = d.col - 1;
  modified = true;
}

abbrev pub joined : Document → Document
joined d =
    let prev = line_at d.lines (d.row - 1) in
    let line = line_at d.lines d.row in
    let room = merge_room prev line in
    record d {
      lines = without_line (set d.lines (d.row - 1) (merged prev line room)) d.lcount d.row;
      lcount = d.lcount - 1;
      row = d.row - 1;
      col = min (strlen prev + room) (max_col - 1);
      modified = true;
    }

unfoldable pub backspace : Document → Document
backspace d = if ltb 0 d.col then erased d else if ltb 0 d.row then joined d else d

-- `lines` with a copy of line `row` pushed down at `row`.
abbrev pub with_room : List (List ℕ) → ℕ → ℕ → List (List ℕ)
with_room lines lcount row = shift_up (lcount - row) row lines []

-- The text of `line` from `col` on, in the blank line `blank`.
abbrev pub split_tail : List ℕ → ℕ → List ℕ → List ℕ
split_tail line col blank =
    let tail = min (strlen line - col) (max_col - 1) in
    set (copy_cells tail (bzero blank max_col) 0 line col 0) tail 0

abbrev pub broken : Document → Document
broken d =
    let line = line_at d.lines d.row in
    let moved = with_room d.lines d.lcount (d.row + 1) in
    let below = split_tail line d.col (line_at moved (d.row + 1)) in
    record d {
      lines = set (set moved (d.row + 1) below) d.row (set line d.col 0);
      lcount = d.lcount + 1;
      row = d.row + 1;
      col = 0;
      modified = true;
    }

unfoldable pub newline : Document → Document
newline d = if leb max_lines d.lcount then d else broken d
