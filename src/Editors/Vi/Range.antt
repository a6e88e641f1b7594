-- ===== src/Editors/Vi/Range.antt =====
-- `vi_delete_range` and `vi_change_range` of kernel/shell/editors.c.
pub mod SameLine
use rtjn_kernel.Prelude.{
  ℕ, zero, suc, ◌+◌, ◌-◌, List, [], ◌∷◌, Bool, true, false, ◌&&◌, ◌||◌, ltb, leb, ◌==◌,
  if◌then◌else◌, set, drop, min, replicate,
}
use rtjn_kernel.Text.{strlen, bzero}
use rtjn_kernel.Editors.Rows.{shift_up, shift_down, copy_cells}
use rtjn_kernel.Editors.Document.{Document, max_col, line_at, line_len}
use rtjn_kernel.Editors.Vi.{Vi, yank_max, vi_save_undo, vi_yank_text, on_doc}
use rtjn_kernel.Editors.Vi.Delete.{vi_delete_line_at, at_row}

-- The local buffer `tmp` and the bytes in it.
pub record Gathered : Type 0 where
  pub tmp : List ℕ
  pub total : ℕ

abbrev pub nothing : Gathered
nothing = record { tmp = replicate yank_max 0; total = 0 }

-- `n` bytes from `from` on behind the others.
abbrev pub put_behind : List ℕ → ℕ → ℕ → Gathered → Gathered
put_behind line from n g = record {
  tmp = copy_cells n g.tmp g.total line from 0;
  total = g.total + n;
}

abbrev pub put_newline : Gathered → Gathered
put_newline g = record { tmp = set g.tmp g.total 10; total = g.total + 1 }

-- A whole line, where there is room for it. Between two lines stands a newline; `always` puts one
-- in front of the first line too.
abbrev put_line : Bool → List ℕ → Gathered → Gathered
put_line always line g =
    if ltb (g.total + strlen line + 1) yank_max
    then put_behind line 0 (strlen line) (if always || ltb 0 g.total then put_newline g else g)
    else g

-- The lines from `i` on, `left` of them.
unfoldable pub gather : Bool → ℕ → ℕ → List (List ℕ) → Gathered → Gathered
gather always zero i lines g = g
gather always (suc left) i lines g =
    gather always left (i + 1) lines (put_line always (line_at lines i) g)

-- `n` times the line at `row`, as long as there is more than one.
unfoldable pub delete_lines : ℕ → ℕ → Document → Document
unfolding vi_delete_line_at
delete_lines zero row d = d
delete_lines (suc n) row d =
    delete_lines n row (if ltb 1 d.lcount then vi_delete_line_at row d else d)

abbrev kept_one : Document → Document
kept_one d =
    if ltb d.lcount 1
    then record d { lines = set d.lines 0 (bzero (line_at d.lines 0) max_col); lcount = 1 }
    else d

-- Whole lines, from `start` to `end`.
unfoldable pub delete_whole : ℕ → ℕ → Vi → Vi
unfolding vi_yank_text gather delete_lines
delete_whole start end v =
    let d = v.doc in
    let g = gather false (min (end + 1) d.lcount - start) start d.lines nothing in
    let v' = vi_yank_text (set g.tmp g.total 0) g.total true v in
    on_doc (λ e. at_row start (kept_one (delete_lines (end + 1 - start) start e))) v'

-- In line `r`, the bytes from `st` to `end`; the cursor goes to `sc`.
unfoldable pub delete_between : ℕ → ℕ → ℕ → Vi → Vi
unfolding vi_yank_text
delete_between r sc ec v =
    let line = line_at v.doc.lines r in
    let ll = strlen line in
    let end = min ec ll in
    let st = min sc ll in
    let cut = vi_yank_text (drop st line) (end - st) false v in
    let moved = copy_cells (ll + 1 - end) line st line end 0 in
    let v' = if ltb st end then on_doc (λ d. record d { lines = set d.lines r moved }) cut else v in
    on_doc (λ d. record d { col = sc; modified = true }) v'

-- The lines from `i` on, `left` of them, cut to nothing.
unfoldable pub emptied : ℕ → ℕ → List (List ℕ) → List (List ℕ)
emptied zero i lines = lines
emptied (suc left) i lines = emptied left (i + 1) (set lines i (set (line_at lines i) 0 0))

-- The last line of a range, without its first bytes.
abbrev end_cut : ℕ → ℕ → List (List ℕ) → List (List ℕ)
end_cut er n lines =
    let line = line_at lines er in set lines er (copy_cells (strlen line + 1 - n) line 0 line n 0)

-- From column `sc` of line `sr` to column `ec` of a line `er` further down.
unfoldable pub delete_across : ℕ → ℕ → ℕ → ℕ → Vi → Vi
unfolding vi_yank_text gather emptied delete_lines
delete_across sr sc er ec v =
    let d = v.doc in
    let first = line_at d.lines sr in
    let g =
      if ltb sc (strlen first) then put_behind first sc (strlen first - sc) nothing else nothing in
    let lines = if ltb sc (strlen first) then set d.lines sr (set first sc 0) else d.lines in
    let between = min er d.lcount - (sr + 1) in
    let g' = gather true between (sr + 1) lines g in
    let lines' = emptied between (sr + 1) lines in
    let n = min ec (strlen (line_at lines' er)) in
    let sep = if ltb (g'.total + 1) yank_max then put_newline g' else g' in
    let g'' = if ltb er d.lcount && ltb 0 n then put_behind (line_at lines' er) 0 n sep else g' in
    let lines'' = if ltb er d.lcount then end_cut er n lines' else lines' in
    let v' = vi_yank_text (set g''.tmp g''.total 0) g''.total false v in
    on_doc
      (λ e.
        let left = kept_one (delete_lines (er - sr) (sr + 1) (record e { lines = lines'' })) in
        record left {
          row = if leb left.lcount sr then left.lcount - 1 else sr;
          col = sc;
          modified = true;
        })
      v'

-- The two ends in the order of their rows; on the same row, the second comes first.
unfoldable pub vi_delete_range : ℕ → ℕ → ℕ → ℕ → Bool → Vi → Vi
unfolding vi_save_undo delete_whole delete_between delete_across
vi_delete_range r1 c1 r2 c2 linewise v =
    let u = vi_save_undo v in
    let sr = if ltb r1 r2 then r1 else r2 in
    let er = if ltb r1 r2 then r2 else r1 in
    let sc = if ltb r1 r2 then c1 else c2 in
    let ec = if ltb r1 r2 then c2 else c1 in
    if linewise
    then delete_whole sr er u
    else if sr == er
    then delete_between sr sc ec u
    else delete_across sr sc er ec u

unfoldable pub vi_change_range : ℕ → ℕ → ℕ → ℕ → Bool → Vi → Vi
unfolding vi_delete_range
vi_change_range r1 c1 r2 c2 linewise v =
    let u = vi_delete_range r1 c1 r2 c2 linewise v in
    let d = u.doc in
    let fit = if ltb (line_len d d.row) d.col then line_len d d.row else d.col in
    let col = if linewise then 0 else if ltb d.row d.lcount then fit else d.col in
    record u { doc = record d { col = col }; inserting = true }
