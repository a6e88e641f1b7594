-- ===== src/Editors/Vi/Tests.antt =====
-- Runs of vi, and its properties at concrete inputs.
use rtjn_kernel.Prelude.{
  ℕ, ◌≡◌, refl, arith, [], ◌∷◌, some, true, false, length-replicate, replicate,
}
use rtjn_kernel.Text.{strlen}
use rtjn_kernel.Editors.Document.{max_col}
use rtjn_kernel.Editors.Tests.{two_lines, two_lines-IsDocument}
use rtjn_kernel.Editors.Vi.{Vi, Saved, yank_max}
use rtjn_kernel.Editors.Vi.Delete.{vi_delete_line}
use rtjn_kernel.Editors.Vi.Delete.Line.{Deleted, vi_delete_line-Deleted}
use rtjn_kernel.Editors.Vi.Range.{vi_delete_range}
use rtjn_kernel.Editors.Vi.Range.SameLine.{SameLine, vi_delete_range-SameLine}
use rtjn_kernel.Editors.Vi.Find.{vi_search_forward}
use rtjn_kernel.Editors.Vi.Find.Forward.{FirstMatch, vi_search_forward-FirstMatch}
use rtjn_kernel.Editors.Vi.Motion.{closing}
use rtjn_kernel.Editors.Vi.Change.{vi_indent, vi_do_undo, substitute_from}
use rtjn_kernel.Editors.Vi.Change.Undo.{Restored, vi_do_undo-vi_indent}
use rtjn_kernel.Editors.Vi.Change.Substitute.{Ended, substitute_from-Ended}

abbrev nothing_saved : Saved
nothing_saved = record { line = replicate max_col 0; row = 0; lcount = 1 }

abbrev session : Vi
session = record {
  doc = two_lines;
  yank_buf = replicate yank_max 0;
  yank_len = 0;
  yank_line = false;
  undo = nothing_saved;
  redo = nothing_saved;
  undo_valid = false;
  inserting = false;
}

vi_delete_line-Deleted_example : Deleted session (vi_delete_line session)
vi_delete_line-Deleted_example =
    vi_delete_line-Deleted session two_lines-IsDocument (length-replicate {A = ℕ} yank_max 0)

vi_delete_range-SameLine_example : SameLine two_lines 1 2 0 (vi_delete_range 1 2 1 0 false session)
unfolding strlen
vi_delete_range-SameLine_example =
    vi_delete_range-SameLine 1 2 0 session two_lines-IsDocument (omega arith) (omega arith)
      (omega arith)

-- The pattern "b".
vi_search_forward-FirstMatch_example :
    FirstMatch (98 ∷ []) 1 two_lines 0 1 (vi_search_forward (98 ∷ []) 1 0 1 two_lines)
vi_search_forward-FirstMatch_example =
    vi_search_forward-FirstMatch (98 ∷ []) 1 two_lines 0 1 (λ e. omega arith) (omega arith)

closing_nested : closing 40 41 (40 ∷ 40 ∷ 41 ∷ 41 ∷ []) 3 1 1 ≡ some 3
unfolding closing
closing_nested = refl

vi_do_undo-vi_indent_example : Restored two_lines (vi_do_undo (vi_indent true session)).doc
vi_do_undo-vi_indent_example =
    vi_do_undo-vi_indent session two_lines-IsDocument (length-replicate {A = ℕ} max_col 0) true

-- "b" for "a" in "aa".
substitute_from-Ended_example :
    Ended 1 1 159 (substitute_from 162 (97 ∷ 97 ∷ []) (97 ∷ []) 1 (98 ∷ []) 1 0 159)
unfolding strlen
substitute_from-Ended_example =
    substitute_from-Ended (97 ∷ 97 ∷ []) (97 ∷ []) 1 (98 ∷ []) 1 162 0 159 (omega arith)
