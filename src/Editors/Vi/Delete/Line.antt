-- ===== src/Editors/Vi/Delete/Line.antt =====
-- What `vi_delete_line` of kernel/shell/editors.c takes away and keeps.
use rtjn_kernel.Prelude.{
  ℕ, zero, suc, ◌+◌, ◌-◌, ◌≤◌, ◌<◌, ◌≡◌, refl, ap, ◌∙◌, sym, arith, List, [], ◌∷◌, true, false,
  if_intro, ltb, leb, if◌then◌else◌, get_or, set, length, length-set, get_or-set, get_or-set_self,
}
use native.Mathlib.Decide.{dec_lt}
use rtjn_kernel.Text.{strlen, text, memcpy, bzero}
use rtjn_kernel.Text.Copy.{strlen-eq-length, length-memcpy, length-bzero}
use rtjn_kernel.Editors.Rows.{
  shift_down, length-shift_down, get_or-shift_down, get_or-text, get_or-below_strlen,
  text_of_get_or,
}
use rtjn_kernel.Editors.Document.{Document, max_lines, max_col, line_at}
use rtjn_kernel.Editors.Document.Valid.{IsRow, AllRows, IsDocument}
use rtjn_kernel.Editors.Document.Keep.{AllRows-set, AllRows-shift_down}
use rtjn_kernel.Editors.Vi.{Vi, yank_max, vi_save_undo, vi_yank_text}
use rtjn_kernel.Editors.Vi.Delete.{vi_delete_line_at, at_row, vi_delete_line}

get_or-memcpy :
    (dst src : List ℕ) (n j : ℕ)
    → n ≤ length dst
    → get_or (memcpy dst src n) j 0 ≡ (if ltb j n then get_or src j 0 else get_or dst j 0)
unfolding memcpy
get_or-memcpy dst src zero j h = ground arith
get_or-memcpy [] src (suc n) j h = absurd (omega arith)
get_or-memcpy (d ∷ dst) [] (suc n) zero h = ground arith
get_or-memcpy (d ∷ dst) [] (suc n) (suc j) h =
    ground (arith, get_or-memcpy dst [] n j (omega arith))
get_or-memcpy (d ∷ dst) (c ∷ src) (suc n) zero h = ground arith
get_or-memcpy (d ∷ dst) (c ∷ src) (suc n) (suc j) h =
    ground (arith, get_or-memcpy dst src n j (omega arith))

-- A yanked line is in the buffer, with its terminator.
text-yanked :
    (buf line : List ℕ)
    → strlen line < length buf
    → text (set (memcpy buf line (strlen line)) (strlen line) 0) ≡ text line
text-yanked buf line room =
    let n = strlen line in
    let copied = memcpy buf line n in
    let same = length-memcpy buf line n in
    let len = strlen-eq-length line in
    let there = λ (j : ℕ). get_or-memcpy buf line n j (omega arith) in
    text_of_get_or (set copied n 0) (text line)
      (λ j lt. ground (arith, get_or-text line j, get_or-below_strlen line j))
      (λ j lt. ground (arith, there j, get_or-set copied n j 0 0 (omega arith), get_or-text line j))
      (rw (sym len) (get_or-set_self copied n 0 0 (omega arith)))

-- The line is in the yank buffer and gone from the document; the lines below have moved up. A
-- document keeps one line, which is then blank.
pub data Deleted (v : Vi) : Vi → Type 0 where
  gone :
      (u : Vi)
      → 1 < v.doc.lcount
      → u.doc.lcount ≡ v.doc.lcount - 1
      → ((r : ℕ)
          → r < u.doc.lcount
          → line_at u.doc.lines r ≡ line_at v.doc.lines (if ltb r v.doc.row then r else r + 1))
      → text u.yank_buf ≡ text (line_at v.doc.lines v.doc.row)
      → IsDocument u.doc
      → Deleted v u
  blanked :
      (u : Vi)
      → v.doc.lcount ≡ 1
      → u.doc.lcount ≡ 1
      → text (line_at u.doc.lines 0) ≡ []
      → text u.yank_buf ≡ text (line_at v.doc.lines v.doc.row)
      → IsDocument u.doc
      → Deleted v u

text-bzero : (line : List ℕ) → length line ≡ max_col → text (bzero line max_col) ≡ []
unfolding bzero
text-bzero [] size = refl
text-bzero (c ∷ line) size = refl

IsRow-bzero : (line : List ℕ) → length line ≡ max_col → IsRow (bzero line max_col)
IsRow-bzero line size = record {
  size = length-bzero line max_col ∙ size;
  ends = omega (arith, strlen-eq-length (bzero line max_col), ap length (text-bzero line size));
}

-- A document with the cursor at the start of a line that is in use.
IsDocument-at_row :
    (row : ℕ) (d : Document)
    → length d.lines ≡ max_lines
    → AllRows d.lines
    → d.lcount ≤ max_lines
    → 0 < d.lcount
    → IsDocument (at_row row d)
IsDocument-at_row row d size rows le some_lines = record {
  size = size;
  rows = rows;
  lcount_le = le;
  row_lt = if_intro (λ r. r < d.lcount) (leb d.lcount row) (λ _. omega arith) (λ f. ground arith);
  col_le = omega arith;
}

-- vi_delete_line on a valid buffer puts the text of the current line into the yank buffer of
-- 4096 bytes and takes the line out, so that the lines below move up by one and those above
-- stay, and the cursor is in a line in use; of a buffer of one line it leaves one line, which is
-- empty.
pub vi_delete_line-Deleted :
    (v : Vi) → IsDocument v.doc → length v.yank_buf ≡ yank_max → Deleted v (vi_delete_line v)
unfolding vi_delete_line vi_delete_line_at vi_yank_text vi_save_undo
vi_delete_line-Deleted v ok buffer =
    let d = v.doc in
    let size = ok.size in
    let row_lt = ok.row_lt in
    let lcount_le = ok.lcount_le in
    let line = line_at d.lines d.row in
    let row = ok.rows d.row (omega arith) in
    let ends = row.ends in
    let short : leb yank_max (strlen line) ≡ false = ground arith in
    rw short (elim (dec_lt 1 d.lcount) [
      | yes many ↦
          let test : leb d.lcount 1 ≡ false = ground arith in
          let n = d.lcount - 1 - d.row in
          rw test (
            gone _ many refl
              (λ r lt. ground (arith, get_or-shift_down n d.row d.lines [] r (omega arith)))
              (text-yanked v.yank_buf line (omega arith))
              (IsDocument-at_row d.row
                (record d { lines = shift_down n d.row d.lines []; lcount = d.lcount - 1 })
                (length-shift_down n d.row d.lines [] ∙ ok.size)
                (AllRows-shift_down d.lines ok.size ok.rows n d.row (omega arith)) (omega arith)
                (omega arith)))
      | no one ↦
          let test : leb d.lcount 1 ≡ true = ground arith in
          let first = ok.rows 0 (omega arith) in
          let blank = bzero (line_at d.lines 0) max_col in
          rw test (
            blanked _ (omega arith) (omega arith)
              (ap text (get_or-set_self d.lines 0 blank [] (omega arith))
                ∙ text-bzero (line_at d.lines 0) first.size)
              (text-yanked v.yank_buf line (omega arith))
              (IsDocument-at_row d.row (record d { lines = set d.lines 0 blank })
                (length-set d.lines 0 blank ∙ ok.size)
                (AllRows-set d.lines ok.size ok.rows 0 blank (omega arith)
                  (IsRow-bzero (line_at d.lines 0) first.size))
                ok.lcount_le (omega arith)))
    ])
