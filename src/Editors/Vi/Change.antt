-- ===== src/Editors/Vi/Change.antt =====
-- The other edits of vi in kernel/shell/editors.c: case, indent, join, paste, substitute, undo.
pub mod Undo
pub mod Substitute
use rtjn_kernel.Prelude.{
  ℕ, zero, suc, ◌+◌, ◌-◌, List, [], ◌∷◌, Option, none, some, Bool, true, false, ◌&&◌, ◌||◌, ltb,
  leb, ◌==◌, if◌then◌else◌, get_or, set, drop, min, replicate, ◌++◌, length,
}
use mathlib.Core.Option
use rtjn_kernel.Text.{strlen, strncpy, memcpy}
use rtjn_kernel.Editors.Rows.{shift_up, shift_down, copy_cells}
use rtjn_kernel.Editors.Document.{
  Document, max_lines, max_col, line_at, line_len, with_room, without_line,
}
use rtjn_kernel.Editors.Vi.{Vi, Saved, save_to, vi_save_undo, on_doc}
use rtjn_kernel.Editors.Vi.Motion.{byte_at, skip_behind}
use rtjn_kernel.Editors.Vi.Find.{match_at}

-- The current line becomes `line` and the cursor goes to column `col`.
abbrev pub line_set : List ℕ → ℕ → Document → Document
line_set line col d = record d { lines = set d.lines d.row line; col = col; modified = true }

abbrev pub swapped_case : ℕ → ℕ
swapped_case b =
    if leb 97 b && leb b 122 then b - 32 else if leb 65 b && leb b 90 then b + 32 else b

unfoldable pub vi_toggle_case : Vi → Vi
unfolding vi_save_undo
vi_toggle_case v =
    let d = v.doc in
    let line = line_at d.lines d.row in
    let len = strlen line in
    let col = if leb len (d.col + 1) then len - 1 else d.col + 1 in
    if leb len d.col
    then v
    else on_doc (line_set (set line d.col (swapped_case (byte_at line d.col))) col) (vi_save_undo v)

unfoldable pub vi_indent : Bool → Vi → Vi
unfolding vi_save_undo
vi_indent right v =
    let u = vi_save_undo v in
    let d = v.doc in
    let line = line_at d.lines d.row in
    let len = strlen line in
    let moved = copy_cells (len + 1) line 2 line 0 0 in
    let rm = if byte_at line 1 == 32 then 2 else 1 in
    let closed = copy_cells (len + 1 - rm) line 0 line rm 0 in
    if right
    then if leb (max_col - 2) len
      then u
      else on_doc (line_set (set (set moved 0 32) 1 32) (d.col + 2)) u
    else if byte_at line 0 == 32
    then on_doc (line_set closed (d.col - rm)) u
    else on_doc (λ e. record e { modified = true }) u

-- The text of the next line goes behind a blank, where there is room for it.
unfoldable pub vi_join_lines : Vi → Vi
unfolding vi_save_undo skip_behind
vi_join_lines v =
    let u = vi_save_undo v in
    let d = v.doc in
    let cur = line_at d.lines d.row in
    let next = line_at d.lines (d.row + 1) in
    let clen = skip_behind (λ b. (b == 32) || (b == 9)) cur (strlen cur) + 1 in
    let nlen = strlen next in
    let blank = set cur (clen - 1) 32 in
    let full =
      if ltb (clen + nlen) (max_col - 1)
      then set (copy_cells nlen blank clen next 0 0) (clen + nlen) 0
      else blank in
    if leb (d.lcount - 1) d.row
    then v
    else on_doc
        (λ e. record e {
          lines = without_line (set e.lines e.row full) e.lcount (e.row + 1);
          lcount = e.lcount - 1;
          modified = true;
        })
        u

-- The yanked bytes as a line at `row`. A write behind the end of the line is lost here; in the
-- code it goes on into the next one.
abbrev pub pasted_line : Vi → ℕ → Document → Document
pasted_line v row d =
    let moved = with_room d.lines d.lcount row in
    record d {
      lines = set moved row (set (strncpy (line_at moved row) v.yank_buf v.yank_len) v.yank_len 0);
      lcount = d.lcount + 1;
      row = row;
      col = 0;
      modified = true;
    }

-- The yanked bytes in the current line at `ins`.
abbrev pub pasted_in : Vi → ℕ → List ℕ → List ℕ
pasted_in v ins line =
    let n = v.yank_len in
    copy_cells n (copy_cells (strlen line + 1 - ins) line (ins + n) line ins 0) ins v.yank_buf 0 0

unfoldable pub vi_paste_after : Vi → Vi
unfolding vi_save_undo
vi_paste_after v =
    let u = vi_save_undo v in
    let d = v.doc in
    let line = line_at d.lines d.row in
    let len = strlen line in
    let ins = min (d.col + 1) len in
    if v.yank_len == 0
    then v
    else if v.yank_line
    then (if leb max_lines d.lcount then u else on_doc (pasted_line v (d.row + 1)) u)
    else if leb (max_col - 1) (v.yank_len + len)
    then u
    else on_doc (line_set (pasted_in v ins line) (ins + v.yank_len - 1)) u

unfoldable pub vi_paste_before : Vi → Vi
unfolding vi_save_undo
vi_paste_before v =
    let u = vi_save_undo v in
    let d = v.doc in
    let line = line_at d.lines d.row in
    if v.yank_len == 0
    then v
    else if v.yank_line
    then (if leb max_lines d.lcount then u else on_doc (pasted_line v d.row) u)
    else if leb (max_col - 1) (v.yank_len + strlen line)
    then u
    else on_doc (line_set (pasted_in v d.col line) d.col) u

-- The line and the number of lines of `s` come back, and `other` keeps those that were there.
abbrev pub swap_to : Saved → Saved → Document → Document × Saved
swap_to s other d = (
  record d {
    lines = set d.lines s.row (strncpy (line_at d.lines s.row) s.line max_col);
    lcount = s.lcount;
    row = s.row;
    col = 0;
    modified = true;
  },
  record {
    line = strncpy other.line (line_at d.lines s.row) max_col;
    row = s.row;
    lcount = d.lcount;
  },
)

unfoldable pub vi_do_undo : Vi → Vi
vi_do_undo v =
    let (d, redo) = swap_to v.undo v.redo v.doc in
    if v.undo_valid then record v { doc = d; redo = redo; undo_valid = false } else v

unfoldable pub vi_do_redo : Vi → Vi
vi_do_redo v = let (d, undo) = swap_to v.redo v.undo v.doc in record v { doc = d; undo = undo }

-- The loop of `vi_substitute_line` from column `c` on: the bytes that it puts into `tmp`, where
-- there is room for `room`, or `none` where the fuel runs out.
unfoldable pub substitute_from : ℕ → List ℕ → List ℕ → ℕ → List ℕ → ℕ → ℕ → ℕ → Option (List ℕ)
substitute_from zero line pat plen rep rlen c room = none
substitute_from (suc fuel) line pat plen rep rlen c room =
    let n = min rlen room in
    let behind = substitute_from fuel line pat plen rep rlen (c + plen) (room - n) in
    let next = substitute_from fuel line pat plen rep rlen (c + 1) (room - 1) in
    if ltb c (strlen line) && ltb 0 room
    then if leb (c + plen) (strlen line) && match_at pat plen line c
      then Option.map (λ out. copy_cells n (replicate n 0) 0 rep 0 0 ++ out) behind
      else Option.map (λ out. byte_at line c ∷ out) next
    else some []

-- `none` where the loop has not come to its end.
unfoldable pub vi_substitute_line : ℕ → ℕ → List ℕ → ℕ → List ℕ → ℕ → Document → Option Document
unfolding substitute_from
vi_substitute_line fuel row pat plen rep rlen d =
    let line = line_at d.lines row in
    Option.map
      (λ out. record d { lines = set d.lines row (memcpy line (out ++ 0 ∷ []) (length out + 1)) })
      (substitute_from fuel line pat plen rep rlen 0 (max_col - 1))
