-- ===== src/Editors/Nano/Keep.antt =====
-- Whatever is typed, nano of kernel/shell/editors.c stays inside its buffer.
use rtjn_kernel.Prelude.{
  ℕ, zero, suc, ◌+◌, ◌-◌, ◌≤◌, ◌<◌, ◌≡◌, arith, List, [], ◌∷◌, ◌&&◌, ◌||◌, if_intro, ltb, leb, ◌==◌,
  if◌then◌else◌, length, bit_and,
}
use rtjn_kernel.Prelude.Int.{ℤ, pos, negsuc}
use rtjn_kernel.Editors.Document.{Document, max_lines, line_len, insert_char}
use rtjn_kernel.Editors.Document.Valid.{AllRows, IsDocument}
use rtjn_kernel.Editors.Document.Keep.{
  IsDocument-insert_char, IsDocument-backspace, IsDocument-newline,
}
use rtjn_kernel.Editors.Nano.{
  Nano, ev_nav, ev_cancel, ev_redraw, is_ctrl, clamp_doc, nano_clamp_cursor, step_left, step_right,
  nano_move, edit_key, insert_spaces, tab_width,
}
use rtjn_kernel.Editors.Nano.File.{Vfs, nano_save_file}
use rtjn_kernel.Editors.Nano.Save.{Reported, nano_save_file-Reported}
use rtjn_kernel.Editors.Nano.Keys.{saved, nano_confirm_exit, nano_key, nano_turn, nano_run}

-- A row in use is enough, since the column is clamped to it.
IsDocument-clamp_doc :
    (d : Document)
    → length d.lines ≡ max_lines
    → AllRows d.lines
    → d.lcount ≤ max_lines
    → d.row < d.lcount
    → IsDocument (clamp_doc d)
unfolding clamp_doc
IsDocument-clamp_doc d size rows lcount_le row_lt =
    let same : (if leb d.lcount d.row then d.lcount - 1 else d.row) ≡ d.row = ground arith in
    record {
      size = size;
      rows = rows;
      lcount_le = lcount_le;
      row_lt = rw same row_lt;
      col_le = rw same (
          if_intro (λ c. c ≤ line_len d d.row) (ltb (line_len d d.row) d.col) (λ _. omega arith)
            (λ f. ground arith));
    }

clamped : (d : Document) → IsDocument d → IsDocument (clamp_doc d)
clamped d ok = IsDocument-clamp_doc d ok.size ok.rows ok.lcount_le ok.row_lt

-- A place in a line that is in use.
at_place :
    (d : Document) (r c : ℕ)
    → IsDocument d
    → r < d.lcount
    → c ≤ line_len d r
    → IsDocument (record d { row = r; col = c })
at_place d r c ok lt le = record {
  size = ok.size;
  rows = ok.rows;
  lcount_le = ok.lcount_le;
  row_lt = lt;
  col_le = le;
}

IsDocument-step_left : (d : Document) → IsDocument d → IsDocument (step_left d)
IsDocument-step_left d ok =
    let row_lt = ok.row_lt in
    let col_le = ok.col_le in
    if_intro IsDocument (ltb 0 d.col) (λ _. at_place d d.row (d.col - 1) ok ok.row_lt (omega arith))
      (λ _.
        if_intro IsDocument (ltb 0 d.row)
          (λ _. at_place d (d.row - 1) (line_len d (d.row - 1)) ok (omega arith) (omega arith))
          (λ _. ok))

IsDocument-step_right : (d : Document) → IsDocument d → IsDocument (step_right d)
IsDocument-step_right d ok =
    if_intro IsDocument (ltb d.col (line_len d d.row))
      (λ t. at_place d d.row (d.col + 1) ok ok.row_lt (ground arith))
      (λ _.
        if_intro IsDocument (ltb d.row (d.lcount - 1))
          (λ t. at_place d (d.row + 1) 0 ok (ground arith) (omega arith)) (λ _. ok))

abbrev HoldsDocument : Nano → Type 0
HoldsDocument n = IsDocument n.doc

nano_move-HoldsDocument :
    (height width dir : ℕ) (n : Nano)
    → HoldsDocument n
    → HoldsDocument (nano_move height width dir n)
unfolding nano_move nano_clamp_cursor
nano_move-HoldsDocument height width dir n ok =
    let d = n.doc in
    let row_lt = ok.row_lt in
    let moved = λ (r : ℕ) (lt : r < d.lcount).
      IsDocument-clamp_doc (record d { row = r }) ok.size ok.rows ok.lcount_le lt in
    if_intro HoldsDocument (dir == 1)
      (λ _. if_intro HoldsDocument (ltb 0 d.row) (λ _. moved (d.row - 1) (omega arith)) (λ _. ok))
      (λ _.
        if_intro HoldsDocument (dir == 2)
          (λ _.
            if_intro HoldsDocument (ltb d.row (d.lcount - 1))
              (λ t. moved (d.row + 1) (ground arith)) (λ _. ok))
          (λ _.
            if_intro HoldsDocument (dir == 3) (λ _. IsDocument-step_left d ok)
              (λ _. if_intro HoldsDocument (dir == 4) (λ _. IsDocument-step_right d ok) (λ _. ok))))

IsDocument-insert_spaces :
    (count : ℕ) (d : Document) → IsDocument d → IsDocument (insert_spaces count d)
unfolding insert_spaces
IsDocument-insert_spaces zero d ok = ok
IsDocument-insert_spaces (suc count) d ok =
    IsDocument-insert_spaces count (insert_char 32 d)
      (IsDocument-insert_char 32 d (λ e. omega arith) ok)

pub IsDocument-edit_key : (ev : ℕ) (d : Document) → IsDocument d → IsDocument (edit_key ev d)
unfolding edit_key
IsDocument-edit_key ev d ok =
    if_intro IsDocument (ev == 8) (λ _. IsDocument-backspace d ok)
      (λ _.
        if_intro IsDocument (ev == 10) (λ _. IsDocument-newline d ok)
          (λ _.
            if_intro IsDocument (ev == 9) (λ _. IsDocument-insert_spaces (tab_width d) d ok)
              (λ _.
                if_intro IsDocument (leb 32 ev && ltb ev 127)
                  (λ t. IsDocument-insert_char ev d (λ e. ground arith) ok) (λ _. ok))))

module _ {S : Type 0} (v : Vfs S) where
  abbrev Holds : Nano × S → Type 0
  Holds p = HoldsDocument p.0

  reported :
      (d : Document) (s : S) (r : ℤ × (Document × S))
      → IsDocument d
      → Reported v d s r
      → IsDocument r.1.0
  reported d s (negsuc e, (d', s')) ok (_, same) = rw same ok
  reported d s (pos n, (d', s')) ok (_, same, _, _, _) = rw same (record {
    size = ok.size;
    rows = ok.rows;
    lcount_le = ok.lcount_le;
    row_lt = ok.row_lt;
    col_le = ok.col_le;
  })

  saved-Holds : (n : Nano) (s : S) → HoldsDocument n → Holds (saved v n s)
  saved-Holds n s ok =
      reported n.doc s (nano_save_file v n.doc s) ok (nano_save_file-Reported v n.doc s)

  nano_confirm_exit-Holds :
      (ev : ℕ) (n : Nano) (s : S) → HoldsDocument n → Holds (nano_confirm_exit v ev n s)
  unfolding nano_confirm_exit
  nano_confirm_exit-Holds ev n s ok =
      if_intro Holds ((ev == 121) || (ev == 89)) (λ _. saved-Holds n s ok)
        (λ _.
          if_intro Holds ((ev == 110) || (ev == 78)) (λ _. ok)
            (λ _.
              if_intro Holds ((ev == ev_cancel) || (ev == 99) || (ev == 67)) (λ _. ok) (λ _. ok)))

  nano_key-Holds :
      (height width ev : ℕ) (n : Nano) (s : S)
      → HoldsDocument n
      → Holds (nano_key v height width ev n s)
  unfolding nano_key
  nano_key-Holds height width ev n s ok =
      if_intro Holds (is_ctrl ev 111 79) (λ _. saved-Holds n s ok)
        (λ _.
          if_intro Holds (is_ctrl ev 120 88)
            (λ _. if_intro Holds n.doc.modified (λ _. ok) (λ _. ok))
            (λ _.
              if_intro Holds (is_ctrl ev 103 71) (λ _. ok)
                (λ _.
                  if_intro Holds (ev == ev_redraw) (λ _. ok)
                    (λ _.
                      if_intro Holds (ev == ev_cancel) (λ _. ok)
                        (λ _.
                          if_intro Holds (leb (ev_nav 1) ev && leb ev (ev_nav 4))
                            (λ _. nano_move-HoldsDocument height width (bit_and ev 255) n ok)
                            (λ _.
                              if_intro Holds (is_ctrl ev 99 67) (λ _. ok)
                                (λ _. IsDocument-edit_key ev n.doc ok)))))))

  nano_turn-Holds :
      (height width ev : ℕ) (n : Nano) (s : S)
      → HoldsDocument n
      → Holds (nano_turn v height width ev n s)
  unfolding nano_turn nano_clamp_cursor
  nano_turn-Holds height width ev n s ok =
      if_intro Holds n.done (λ _. ok)
        (λ _.
          if_intro Holds n.asking (λ _. nano_confirm_exit-Holds ev n s ok)
            (λ _.
              nano_key-Holds height width ev (nano_clamp_cursor height width n) s
                (clamped n.doc ok)))

  -- Whatever events nano gets and whatever the file layer answers, a valid buffer stays valid:
  -- 512 lines of 160 bytes, each with a terminator, at most 512 of them in use, and the cursor
  -- in the text of a line that is in use.
  pub nano_run-IsDocument :
      (height width : ℕ) (evs : List ℕ) (n : Nano) (s : S)
      → IsDocument n.doc
      → IsDocument (nano_run v height width evs n s).0.doc
  unfolding nano_run
  nano_run-IsDocument height width [] n s ok = ok
  nano_run-IsDocument height width (ev ∷ evs) n s ok =
      let turn = nano_turn v height width ev n s in
      nano_run-IsDocument height width evs turn.0 turn.1 (nano_turn-Holds height width ev n s ok)
