-- ===== src/Editors/Vi.antt =====
-- The state of vi in kernel/shell/editors.c and the edits that it has in common with nano, whose
-- buffer is declared alike. The messages, the search highlight and the drawing are left out.
pub mod Delete
pub mod Range
pub mod Motion
pub mod Find
pub mod Change
pub mod Operator
mod Tests
use rtjn_kernel.Prelude.{
  ℕ, zero, suc, ◌+◌, ◌-◌, List, [], ◌∷◌, Bool, true, false, ◌&&◌, ◌||◌, not, ltb, leb, ◌==◌, ◌!=◌,
  if◌then◌else◌, get_or, set, drop, replicate,
}
use rtjn_kernel.Text.{strlen, bzero, strncpy, memcpy}
use rtjn_kernel.Editors.Rows.{shift_up, shift_down}
use rtjn_kernel.Editors.Document.{
  Document, max_lines, max_col, line_at, line_len, insert_char, backspace, newline, with_room,
}

abbrev pub yank_max : ℕ
yank_max = 4096

-- `vi_undo_line`, `vi_undo_row` and `vi_undo_lcount`, and those of the redo.
pub record Saved : Type 0 where
  pub line : List ℕ
  pub row : ℕ
  pub lcount : ℕ

pub record Vi : Type 0 where
  pub doc : Document
  pub yank_buf : List ℕ
  pub yank_len : ℕ
  pub yank_line : Bool
  pub undo : Saved
  pub redo : Saved
  pub undo_valid : Bool
  pub inserting : Bool

unfoldable pub vi_is_word : ℕ → Bool
vi_is_word c = (c != 0) && (c != 32) && (c != 9)

unfoldable pub vi_is_alpha : ℕ → Bool
vi_is_alpha c =
    (leb 97 c && leb c 122) || (leb 65 c && leb c 90) || (leb 48 c && leb c 57) || (c == 95)

abbrev pub save_to : Document → Saved → Saved
save_to d u = record {
  line = strncpy u.line (line_at d.lines d.row) max_col;
  row = d.row;
  lcount = d.lcount;
}

unfoldable pub vi_save_undo : Vi → Vi
vi_save_undo v = record v { undo = save_to v.doc v.undo; undo_valid = true }

abbrev pub on_doc : (Document → Document) → Vi → Vi
on_doc f v = record v { doc = f v.doc }

-- vi's own copies of three edits of nano.
unfoldable pub vi_insert_char : ℕ → Vi → Vi
vi_insert_char ch = on_doc (insert_char ch)

unfoldable pub vi_backspace : Vi → Vi
vi_backspace = on_doc backspace

unfoldable pub vi_newline : Vi → Vi
vi_newline = on_doc newline

-- A blank line at `row`, the lines from there on one place further down.
abbrev pub opened : Document → ℕ → Document
opened d row =
    let moved = with_room d.lines d.lcount row in
    record d {
      lines = set moved row (bzero (line_at moved row) max_col);
      lcount = d.lcount + 1;
      row = row;
      col = 0;
      modified = true;
    }

unfoldable pub vi_open_line : Bool → Vi → Vi
vi_open_line above v =
    if leb max_lines v.doc.lcount
    then v
    else on_doc (λ d. opened d (if above then d.row else d.row + 1)) v

unfoldable pub vi_yank_text : List ℕ → ℕ → Bool → Vi → Vi
vi_yank_text bytes len linewise v =
    let n = if leb yank_max len then yank_max - 1 else len in
    record v { yank_buf = set (memcpy v.yank_buf bytes n) n 0; yank_len = n; yank_line = linewise }
