-- ===== src/Editors/Vi/Operator.antt =====
-- An operator with a motion in vi of kernel/shell/editors.c: `d`, `y` and `c` up to where the motion
-- goes.
pub mod InBuffer
use rtjn_kernel.Prelude.{
  ℕ, zero, suc, ◌+◌, ◌-◌, ◌/◌, List, Option, none, some, Bool, true, false, ◌&&◌, ◌||◌, ltb, leb,
  ◌==◌, if◌then◌else◌, get_or, set, min, replicate,
}
use rtjn_kernel.Text.{strlen, bzero}
use rtjn_kernel.Editors.Rows.{copy_cells}
use rtjn_kernel.Editors.Vi.Delete.{vi_delete_line}
use rtjn_kernel.Editors.Document.{Document, line_at, line_len, max_col}
use rtjn_kernel.Editors.Nano.{clamp_doc}
use rtjn_kernel.Editors.Vi.{Vi, yank_max, vi_yank_text, on_doc, vi_save_undo, vi_open_line}
use rtjn_kernel.Editors.Vi.Range.{
  Gathered, nothing, put_behind, put_newline, gather, vi_delete_range, vi_change_range,
}
use rtjn_kernel.Editors.Vi.Motion.{byte_at, skip_on, vi_word_end, vi_word_fwd, vi_word_back}

-- The part of `vi_clamp` that moves the cursor is that of nano.
unfoldable pub vi_clamp_doc : Document → Document
unfolding clamp_doc
vi_clamp_doc d = clamp_doc d

-- Where a motion goes. `above` is a row in front of the first line: `vi_row` is an int, and on a screen
-- of fewer than three rows it can be negative.
pub data Motion : Type 0 where
  stays above : Motion
  goes : Document → Motion

-- The row `a - b`, or the last one where there is no such line.
abbrev pub to_row : ℕ → ℕ → Document → Motion
to_row a b d =
    let row = a - b in
    if ltb a b
    then above
    else goes (record d { row = if leb d.lcount row then d.lcount - 1 else row; col = 0 })

abbrev pub word_end_motion : Document → Document
word_end_motion d =
    let at = vi_word_end d.row d.col d in
    let end = if (at == d.col) && ltb d.col (line_len d d.row) then d.col + 1 else at in
    if leb (line_len d d.row) end && ltb d.row (d.lcount - 1)
    then record d { row = d.row + 1; col = 0 }
    else record d { col = end }

-- The motions from row to row. In C the half of `height - 2` is -1 for a height of 0, and 0 for 1.
abbrev pub row_motion : ℕ → ℕ → ℕ → Document → Motion
row_motion height scroll motion d =
    if motion == 106
    then goes (if ltb d.row (d.lcount - 1) then record d { row = d.row + 1 } else d)
    else if motion == 107
    then goes (record d { row = d.row - 1 })
    else if motion == 71
    then goes (record d { row = d.lcount - 1; col = 0 })
    else if motion == 72
    then goes (record d { row = scroll; col = 0 })
    else if motion == 77
    then to_row (scroll + (height - 2) / 2) (if height == 0 then 1 else 0) d
    else if motion == 76
    then to_row (scroll + height) 3 d
    else stays

-- Where the cursor goes; it stays for a key that is no motion.
unfoldable pub vi_motion : ℕ → ℕ → ℕ → Document → Motion
unfolding vi_word_fwd vi_word_back skip_on
vi_motion height scroll motion d =
    let line = line_at d.lines d.row in
    let len = strlen line in
    if motion == 119
    then goes (vi_word_fwd d)
    else if motion == 98
    then goes (vi_word_back d)
    else if motion == 101
    then goes (word_end_motion d)
    else if motion == 36
    then goes (record d { col = len - 1 })
    else if motion == 48
    then goes (record d { col = 0 })
    else if motion == 94
    then goes (record d { col = skip_on (λ b. (b == 32) || (b == 9)) line len 0 })
    else if motion == 104
    then goes (record d { col = d.col - 1 })
    else if motion == 108
    then goes (if ltb d.col len then record d { col = d.col + 1 } else d)
    else row_motion height scroll motion d

-- The yank of `vi_op_exec`, from `sc` of row `sr` to `ec` of row `er`.
abbrev yanked_between : ℕ → ℕ → ℕ → Document → Gathered
yanked_between r sc ec d =
    let line = line_at d.lines r in
    let end = min ec (strlen line) in
    if ltb sc end then put_behind line sc (end - sc) nothing else nothing

abbrev yanked_across : ℕ → ℕ → ℕ → ℕ → Document → Gathered
yanked_across sr sc er ec d =
    let first = line_at d.lines sr in
    let last = line_at d.lines er in
    let g =
      if ltb sc (strlen first) then put_behind first sc (strlen first - sc) nothing else nothing in
    let g' = gather true (min er d.lcount - (sr + 1)) (sr + 1) d.lines g in
    let n = min ec (strlen last) in
    let sep = if ltb (g'.total + 1) yank_max then put_newline g' else g' in
    if ltb er d.lcount && ltb 0 n then put_behind last 0 n sep else g'

unfoldable pub yanked_range : Bool → ℕ → ℕ → ℕ → ℕ → Document → Gathered
unfolding gather
yanked_range linewise sr sc er ec d =
    if linewise
    then gather false (min (er + 1) d.lcount - sr) sr d.lines nothing
    else if sr == er
    then yanked_between sr sc ec d
    else yanked_across sr sc er ec d

unfoldable pub vi_op_exec : ℕ → Bool → ℕ → ℕ → ℕ → ℕ → Vi → Vi
unfolding vi_delete_range vi_change_range vi_clamp_doc vi_yank_text yanked_range
vi_op_exec op linewise r1 c1 r2 c2 v =
    let sr = if ltb r1 r2 then r1 else r2 in
    let er = if ltb r1 r2 then r2 else r1 in
    let sc = if linewise then 0 else if ltb r1 r2 then c1 else c2 in
    let ec = if linewise then 0 else if ltb r1 r2 then c2 else c1 in
    let g = yanked_range linewise sr sc er ec v.doc in
    if op == 100
    then on_doc vi_clamp_doc (vi_delete_range r1 c1 r2 c2 linewise v)
    else if op == 121
    then vi_yank_text (set g.tmp g.total 0) g.total linewise v
    else if op == 99
    then vi_change_range r1 c1 r2 c2 linewise v
    else v

-- `none` where the row is negative: the code goes on with what is in front of its lines.
abbrev pub applied : ℕ → Bool → Vi → Motion → Option Vi
applied op linewise v stays = some v
applied op linewise v above = none
applied op linewise v (goes d) = some (
    on_doc vi_clamp_doc
      (vi_op_exec op linewise v.doc.row v.doc.col d.row d.col (record v { doc = d })))

unfoldable pub vi_apply_op_motion : ℕ → ℕ → ℕ → Bool → ℕ → Vi → Option Vi
unfolding vi_motion vi_op_exec vi_clamp_doc
vi_apply_op_motion height scroll op linewise motion v =
    applied op linewise v (vi_motion height scroll motion v.doc)

-- Two operators that are not `d`, `y` or `c` with a motion: `yy` and `cc`. The latter leaves no line
-- below the current one.
abbrev pub yank_whole : Vi → Vi
yank_whole v =
    let line = line_at v.doc.lines v.doc.row in
    let n = min (strlen line) (yank_max - 1) in
    vi_yank_text (copy_cells n (replicate yank_max 0) 0 line 0 0) n true v

abbrev pub change_whole : Vi → Vi
change_whole v =
    let u = vi_save_undo v in
    let d = v.doc in
    record u {
      doc = record d {
        lines = set d.lines d.row (bzero (line_at d.lines d.row) max_col);
        lcount = d.row + 1;
        col = 0;
        modified = true;
      };
      inserting = true;
    }

-- The keys of the motions that an operator takes, in a line and over whole lines.
abbrev pub in_line : ℕ → Bool
in_line ev =
    (ev == 119)
    || (ev == 98)
    || (ev == 101)
    || (ev == 36)
    || (ev == 48)
    || (ev == 94)
    || (ev == 104)
    || (ev == 108)

abbrev pub over_lines : ℕ → Bool
over_lines ev = (ev == 106) || (ev == 107) || (ev == 71) || (ev == 72) || (ev == 77) || (ev == 76)

-- `vi_norm_key` with the operator `op` pending.
unfoldable pub operator_key : ℕ → ℕ → ℕ → ℕ → Vi → Option Vi
unfolding vi_delete_line vi_clamp_doc vi_apply_op_motion vi_save_undo vi_yank_text
operator_key height scroll op ev v =
    if (op == 100) && (ev == 100)
    then some (on_doc vi_clamp_doc (vi_delete_line v))
    else if (op == 121) && (ev == 121)
    then some (yank_whole v)
    else if (op == 99) && (ev == 99)
    then some (change_whole v)
    else if in_line ev
    then vi_apply_op_motion height scroll op false ev v
    else if over_lines ev
    then vi_apply_op_motion height scroll op true ev v
    else some v

-- `kind` is one of the keys i, a, I, A, o and O.
unfoldable pub vi_enter_insert : ℕ → Vi → Vi
unfolding skip_on vi_open_line
vi_enter_insert kind v =
    let d = v.doc in
    let line = line_at d.lines d.row in
    let len = strlen line in
    let insert = λ (u : Vi). record u { inserting = true } in
    if kind == 105
    then insert v
    else if kind == 97
    then insert (on_doc (λ e. record e { col = if ltb e.col len then e.col + 1 else e.col }) v)
    else if kind == 73
    then insert (on_doc (λ e. record e { col = skip_on (λ b. (b == 32) || (b == 9)) line len 0 }) v)
    else if kind == 65
    then insert (on_doc (λ e. record e { col = len }) v)
    else if kind == 111
    then insert (vi_open_line false v)
    else if kind == 79
    then insert (vi_open_line true v)
    else v
