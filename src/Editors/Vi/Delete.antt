-- ===== src/Editors/Vi/Delete.antt =====
-- The deletions of vi in kernel/shell/editors.c.
pub mod Line
use rtjn_kernel.Prelude.{
  ℕ, zero, suc, ◌+◌, ◌-◌, List, [], ◌∷◌, ◌++◌, Bool, true, false, ltb, leb, ◌==◌, if◌then◌else◌,
  get_or, set, drop, min, replicate,
}
use rtjn_kernel.Text.{strlen, text, bzero, memcpy}
use rtjn_kernel.Editors.Rows.{shift_up, shift_down}
use rtjn_kernel.Editors.Document.{Document, max_lines, max_col, line_at, line_len, without_line}
use rtjn_kernel.Editors.Vi.{Vi, yank_max, vi_save_undo, vi_yank_text, on_doc}

unfoldable pub vi_delete_line_at : ℕ → Document → Document
vi_delete_line_at row d =
    if leb d.lcount 1
    then record d { lines = set d.lines 0 (bzero (line_at d.lines 0) max_col) }
    else record d { lines = without_line d.lines d.lcount row; lcount = d.lcount - 1 }

-- The cursor after lines went.
abbrev pub at_row : ℕ → Document → Document
at_row row d = record d {
  row = if leb d.lcount row then d.lcount - 1 else row;
  col = 0;
  modified = true;
}

unfoldable pub vi_delete_line : Vi → Vi
unfolding vi_save_undo vi_yank_text vi_delete_line_at
vi_delete_line v =
    let line = line_at v.doc.lines v.doc.row in
    let v' = vi_yank_text line (strlen line) true (vi_save_undo v) in
    on_doc (λ d. at_row d.row (vi_delete_line_at d.row d)) v'

abbrev pub cut_char : Document → Document
cut_char d =
    let line = line_at d.lines d.row in
    record d {
      lines = set d.lines d.row (shift_down (strlen line - d.col) d.col line 0);
      modified = true;
    }

unfoldable pub vi_delete_char : Vi → Vi
vi_delete_char v = if leb (line_len v.doc v.doc.row) v.doc.col then v else on_doc cut_char v

unfoldable pub vi_delete_to_eol : Vi → Vi
unfolding vi_yank_text
vi_delete_to_eol v =
    let d = v.doc in
    let line = line_at d.lines d.row in
    let v' = vi_yank_text (drop d.col line) (strlen line - d.col) false v in
    let touched = λ (u : Vi). on_doc (λ e. record e { modified = true }) u in
    if ltb d.col (strlen line)
    then touched (on_doc (λ e. record e { lines = set e.lines e.row (set line d.col 0) }) v')
    else touched v
