-- ===== src/Editors/Vi/Change/Undo.antt =====
-- Undo in vi of kernel/shell/editors.c gives back the line that was saved.
use rtjn_kernel.Prelude.{
  ℕ, zero, suc, ◌+◌, ◌-◌, ◌≤◌, ◌<◌, ◌≡◌, ◌≢◌, refl, ap, ◌∙◌, arith, List, [], ◌∷◌, Bool, true,
  false, if_intro, sym, inl, inr, Bool-cases, ==→≡, ==→≢, leb, ◌==◌, if◌then◌else◌, set, length,
  length-set, get_or-set_self, get_or-set_ne,
}
use rtjn_kernel.Text.{strlen, text, strncpy, bzero}
use rtjn_kernel.Text.Copy.{strlen-eq-length}
use rtjn_kernel.Editors.Rows.{copy_cells, length-copy_cells}
use rtjn_kernel.Editors.Vi.Motion.{byte_at}
use rtjn_kernel.Editors.Document.{Document, max_lines, max_col, line_at}
use rtjn_kernel.Editors.Document.Valid.{IsDocument}
use rtjn_kernel.Editors.Vi.{Vi, save_to, vi_save_undo}
use rtjn_kernel.Editors.Vi.Change.{swapped_case, vi_toggle_case, vi_indent, vi_do_undo}

-- A copy of a whole line, terminator included, holds its text.
text-strncpy-whole :
    (dst src : List ℕ) (n : ℕ)
    → strlen src < n
    → n ≤ length dst
    → text (strncpy dst src n) ≡ text src
unfolding strncpy strlen bzero
text-strncpy-whole dst src zero h room = absurd (omega arith)
text-strncpy-whole [] src (suc n) h room = absurd (omega arith)
text-strncpy-whole (d ∷ dst) [] (suc n) h room = refl
text-strncpy-whole (d ∷ dst) (c ∷ src) (suc n) h room = elim (Bool-cases (c == 0)) [
  | inl e ↦ rw e refl
  | inr e ↦ rw (e, e) (ap (◌∷◌ c) (text-strncpy-whole dst src n (ground arith) (omega arith)))
]

-- The same number of lines, the same row and the same text on every line.
pub record Restored (d d' : Document) : Type 0 where
  pub lcount : d'.lcount ≡ d.lcount
  pub row : d'.row ≡ d.row
  pub texts : (r : ℕ) → r < max_lines → text (line_at d'.lines r) ≡ text (line_at d.lines r)

-- After an edit that saved the line and changed no other.
pub vi_do_undo-Restored :
    (v u : Vi)
    → IsDocument v.doc
    → length v.undo.line ≡ max_col
    → length u.doc.lines ≡ max_lines
    → ((r : ℕ) → r ≢ v.doc.row → line_at u.doc.lines r ≡ line_at v.doc.lines r)
    → length (line_at u.doc.lines v.doc.row) ≡ max_col
    → u.undo ≡ save_to v.doc v.undo
    → u.undo_valid ≡ true
    → Restored v.doc (vi_do_undo u).doc
unfolding vi_do_undo
vi_do_undo-Restored v u ok buffer size others room saved valid =
    let row_lt = ok.row_lt in
    let lcount_le = ok.lcount_le in
    let d = v.doc in
    let line = line_at d.lines d.row in
    let row = ok.rows d.row (omega arith) in
    let ends = row.ends in
    let old = strncpy v.undo.line line max_col in
    let back = strncpy (line_at u.doc.lines d.row) old max_col in
    let copy : text old ≡ text line =
      text-strncpy-whole v.undo.line line max_col row.ends (omega arith) in
    let same_length : strlen old ≡ strlen line =
      strlen-eq-length old ∙ ap length copy ∙ sym (strlen-eq-length line) in
    let there : text back ≡ text old =
      text-strncpy-whole (line_at u.doc.lines d.row) old max_col (omega arith) (omega arith) in
    rw (valid, saved)
      (record {
        lcount = refl;
        row = refl;
        texts = λ r lt. elim (Bool-cases (d.row == r)) [
          | inl e ↦
              let at : d.row ≡ r = ==→≡ d.row r e in
              ap (λ k. text (line_at (set u.doc.lines d.row back) k)) (sym at)
              ∙ ap text (get_or-set_self u.doc.lines d.row back [] (omega arith))
              ∙ there
              ∙ copy
              ∙ ap (λ k. text (line_at d.lines k)) at
          | inr e ↦
              let away = ==→≢ d.row r e in
              ap text (
                get_or-set_ne u.doc.lines d.row r back [] away ∙ others r (λ same. away (sym same)))
        ];
      })

module _ (v : Vi) (ok : IsDocument v.doc) (buffer : length v.undo.line ≡ max_col) where
  -- After an edit that put `line` in the place of the current one.
  line_undone :
      (line : List ℕ) (u : Vi)
      → length line ≡ max_col
      → u.doc.lines ≡ set v.doc.lines v.doc.row line
      → u.undo ≡ save_to v.doc v.undo
      → u.undo_valid ≡ true
      → Restored v.doc (vi_do_undo u).doc
  line_undone line u room put saved valid =
      let d = v.doc in
      let size = ok.size in
      let row_lt = ok.row_lt in
      let lcount_le = ok.lcount_le in
      vi_do_undo-Restored v u ok buffer (ap length put ∙ length-set d.lines d.row line ∙ ok.size)
        (λ r away.
          ap (λ ls. line_at ls r) put ∙ get_or-set_ne d.lines d.row r line [] (λ e. away (sym e)))
        (ap (λ ls. length (line_at ls d.row)) put
          ∙ ap length (get_or-set_self d.lines d.row line [] (omega arith))
          ∙ room)
        saved valid

  -- After an edit that changed no line.
  none_undone :
      (u : Vi)
      → u.doc.lines ≡ v.doc.lines
      → u.undo ≡ save_to v.doc v.undo
      → u.undo_valid ≡ true
      → Restored v.doc (vi_do_undo u).doc
  none_undone u same saved valid =
      let row_lt = ok.row_lt in
      let lcount_le = ok.lcount_le in
      let row = ok.rows v.doc.row (omega arith) in
      vi_do_undo-Restored v u ok buffer (ap length same ∙ ok.size)
        (λ r away. ap (λ ls. line_at ls r) same)
        (ap (λ ls. length (line_at ls v.doc.row)) same ∙ row.size) saved valid

  -- On a valid buffer, with a saved line of 160 bytes, undoing an indent in either direction
  -- gives back the text of every line, the number of lines and the row of the cursor.
  pub vi_do_undo-vi_indent : (right : Bool) → Restored v.doc (vi_do_undo (vi_indent right v)).doc
  unfolding vi_indent vi_save_undo
  vi_do_undo-vi_indent right =
      let d = v.doc in
      let row_lt = ok.row_lt in
      let lcount_le = ok.lcount_le in
      let row = ok.rows d.row (omega arith) in
      let line = line_at d.lines d.row in
      let len = strlen line in
      let moved = copy_cells (len + 1) line 2 line 0 0 in
      let rm = if byte_at line 1 == 32 then 2 else 1 in
      let closed = copy_cells (len + 1 - rm) line 0 line rm 0 in
      let opened_size =
        length-set (set moved 0 32) 1 32
        ∙ length-set moved 0 32
        ∙ length-copy_cells (len + 1) line 2 line 0 0
        ∙ row.size in
      let closed_size = length-copy_cells (len + 1 - rm) line 0 line rm 0 ∙ row.size in
      let P = λ (u : Vi). Restored d (vi_do_undo u).doc in
      if_intro P right
        (λ _.
          if_intro P (leb (max_col - 2) len) (λ _. none_undone _ refl refl refl)
            (λ _. line_undone (set (set moved 0 32) 1 32) _ opened_size refl refl refl))
        (λ _.
          if_intro P (byte_at line 0 == 32) (λ _. line_undone closed _ closed_size refl refl refl)
            (λ _. none_undone _ refl refl refl))

  pub vi_do_undo-vi_toggle_case :
      v.doc.col < strlen (line_at v.doc.lines v.doc.row)
      → Restored v.doc (vi_do_undo (vi_toggle_case v)).doc
  unfolding vi_toggle_case vi_save_undo
  vi_do_undo-vi_toggle_case inside =
      let d = v.doc in
      let row_lt = ok.row_lt in
      let lcount_le = ok.lcount_le in
      let row = ok.rows d.row (omega arith) in
      let line = line_at d.lines d.row in
      let new = set line d.col (swapped_case (byte_at line d.col)) in
      let test : leb (strlen line) d.col ≡ false = ground arith in
      rw test (
        line_undone new _ (length-set line d.col (swapped_case (byte_at line d.col)) ∙ row.size)
          refl refl refl)
