-- ===== src/Editors/Nano.antt =====
-- `cmd_nano` of kernel/shell/editors.c: the buffer, the part of it on the screen, and what each
-- event does. The text of the status bar and the drawing are left out.
pub mod Event
pub mod File
pub mod Load
pub mod RoundTrip
pub mod Save
pub mod Reload
pub mod Keys
pub mod Keep
pub mod Screen
use rtjn_kernel.Prelude.{
  ℕ, zero, suc, ◌+◌, ◌-◌, ◌%◌, List, [], ◌∷◌, Bool, true, false, ◌&&◌, ◌||◌, ltb, leb, ◌==◌,
  if◌then◌else◌, bit_or, bit_and, min,
}
use rtjn_kernel.Prelude.Int.{ℤ, pos, negsuc}
use rtjn_kernel.Editors.Document.{Document, line_at, line_len, insert_char, backspace, newline}

-- `asking` stands for the loop of `nano_confirm_exit`, which waits for its own events.
pub record Nano : Type 0 where
  pub doc : Document
  pub scroll : ℕ
  pub scroll_x : ℕ
  pub asking : Bool
  pub done : Bool

abbrev pub ev_nav : ℕ → ℕ
ev_nav k = bit_or 256 k

abbrev pub ev_ctrl : ℕ → ℕ
ev_ctrl c = bit_or 512 c

abbrev pub ev_cancel : ℕ
ev_cancel = 768

abbrev pub ev_redraw : ℕ
ev_redraw = 769

-- The part of `nano_clamp_cursor` that moves the cursor. The length is that of the old row.
unfoldable pub clamp_doc : Document → Document
clamp_doc d = record d {
  col = if ltb (line_len d d.row) d.col then line_len d d.row else d.col;
  row = if leb d.lcount d.row then d.lcount - 1 else d.row;
}

-- The part that moves the screen, along one axis: at least at `at`, with `shown` places in sight.
unfoldable pub scrolled : ℕ → ℕ → ℕ → ℕ
scrolled first at shown =
    let first' = if ltb at first then at else first in
    if leb (first' + shown) at then at + 1 - shown else first'

unfoldable pub nano_clamp_cursor : ℕ → ℕ → Nano → Nano
unfolding clamp_doc scrolled
nano_clamp_cursor height width n =
    let d = clamp_doc n.doc in
    record n {
      doc = d;
      scroll = scrolled n.scroll d.row (height - 1);
      scroll_x = scrolled n.scroll_x d.col width;
    }

abbrev pub step_left : Document → Document
step_left d =
    if ltb 0 d.col
    then record d { col = d.col - 1 }
    else if ltb 0 d.row
    then record d { row = d.row - 1; col = line_len d (d.row - 1) }
    else d

abbrev pub step_right : Document → Document
step_right d =
    if ltb d.col (line_len d d.row)
    then record d { col = d.col + 1 }
    else if ltb d.row (d.lcount - 1)
    then record d { row = d.row + 1; col = 0 }
    else d

-- The arrows: 1 up, 2 down, 3 left, 4 right.
unfoldable pub nano_move : ℕ → ℕ → ℕ → Nano → Nano
nano_move height width dir n =
    let d = n.doc in
    if dir == 1
    then if ltb 0 d.row
      then nano_clamp_cursor height width (record n { doc = record d { row = d.row - 1 } })
      else n
    else if dir == 2
    then if ltb d.row (d.lcount - 1)
      then nano_clamp_cursor height width (record n { doc = record d { row = d.row + 1 } })
      else n
    else if dir == 3
    then record n { doc = step_left d }
    else if dir == 4
    then record n { doc = step_right d }
    else n

-- `nano_tab_w`
unfoldable pub tab_width : Document → ℕ
tab_width d = 4 - d.col % 4

unfoldable pub insert_spaces : ℕ → Document → Document
insert_spaces zero d = d
insert_spaces (suc n) d = insert_spaces n (insert_char 32 d)

abbrev pub is_ctrl : ℕ → ℕ → ℕ → Bool
is_ctrl ev lower upper = (ev == ev_ctrl lower) || (ev == ev_ctrl upper)

-- The keys that edit the buffer.
unfoldable pub edit_key : ℕ → Document → Document
unfolding insert_spaces tab_width
edit_key ev d =
    if ev == 8
    then backspace d
    else if ev == 10
    then newline d
    else if ev == 9
    then insert_spaces (tab_width d) d
    else if leb 32 ev && ltb ev 127
    then insert_char ev d
    else d
