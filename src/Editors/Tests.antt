-- ===== src/Editors/Tests.antt =====
-- Runs of the editors, and the properties at concrete inputs.
use rtjn_kernel.Prelude.{
  ℕ, zero, suc, ◌≤◌, ◌<◌, ◌≡◌, refl, arith, List, [], ◌∷◌, ◌++◌, true, false, set, replicate,
  length, length-replicate, get_or-set_self, length-set, take, drop, min, ◌∙◌,
}
use rtjn_kernel.Prelude.Int.{pos}
use rtjn_kernel.Text.{strlen, text}
use rtjn_kernel.Editors.Document.{
  Document, max_lines, max_col, line_at, insert_char, backspace, newline,
}
use rtjn_kernel.Editors.Document.Valid.{IsRow, AllRows, IsDocument}
use rtjn_kernel.Editors.Document.Keep.{AllRows-set}
use rtjn_kernel.Editors.Document.Refine.{
  Typed, Broken, Erased, insert_char-Typed, newline-Broken, backspace-Erased,
}
use rtjn_kernel.Editors.Nano.{Nano, nano_clamp_cursor}
use rtjn_kernel.Editors.Nano.File.{Vfs, save_lines, nano_save_file, nano_load_file}
use rtjn_kernel.Editors.Nano.RoundTrip.{IsPlain, saved_bytes}
use rtjn_kernel.Editors.Nano.Save.{Reported, nano_save_file-Reported}
use rtjn_kernel.Editors.Nano.Reload.{
  Saved, ReadOut, piece, ended, Reloaded, nano_load_file-Reloaded,
}
use rtjn_kernel.Editors.Nano.Keys.{nano_run}
use rtjn_kernel.Editors.Nano.Keep.{nano_run-IsDocument}
use rtjn_kernel.Editors.Nano.Screen.{OnScreen, nano_clamp_cursor-OnScreen}

abbrev blank_line : List ℕ
blank_line = replicate max_col 0

blank_line-IsRow : IsRow blank_line
unfolding strlen
blank_line-IsRow = record { size = refl; ends = omega arith }

-- A line with the text "ab".
abbrev ab : List ℕ
ab = 97 ∷ 98 ∷ replicate 158 0

ab-IsRow : IsRow ab
unfolding strlen
ab-IsRow = record { size = refl; ends = omega arith }

abbrev blank_lines : List (List ℕ)
blank_lines = replicate max_lines blank_line

replicate-IsRow :
    (n : ℕ) (line : List ℕ) → IsRow line → (r : ℕ) → r < n → IsRow (line_at (replicate n line) r)
replicate-IsRow zero line ok r lt = absurd (omega arith)
replicate-IsRow (suc n) line ok zero lt = ok
replicate-IsRow (suc n) line ok (suc r) lt = replicate-IsRow n line ok r (omega arith)

blank_lines-AllRows : AllRows blank_lines
blank_lines-AllRows = replicate-IsRow max_lines blank_line blank_line-IsRow

-- Two lines "ab" in any buffer, the cursor behind the "a" of the second.
abbrev with_two : List (List ℕ) → Document
with_two lines = record {
  lines = set (set lines 0 ab) 1 ab;
  lcount = 2;
  row = 1;
  col = 1;
  modified = false;
}

with_two-IsDocument :
    (lines : List (List ℕ)) → length lines ≡ max_lines → AllRows lines → IsDocument (with_two lines)
unfolding strlen
with_two-IsDocument lines size rows =
    let one = AllRows-set lines size rows 0 ab (omega arith) ab-IsRow in
    let kept = length-set lines 0 ab ∙ size in
    let second : line_at (set (set lines 0 ab) 1 ab) 1 ≡ ab =
      get_or-set_self (set lines 0 ab) 1 ab [] (omega arith) in
    record {
      size = length-set (set lines 0 ab) 1 ab ∙ kept;
      rows = AllRows-set (set lines 0 ab) kept one 1 ab (omega arith) ab-IsRow;
      lcount_le = omega arith;
      row_lt = omega arith;
      col_le = rw second (let le : 1 ≤ 2 = omega arith in le);
    }

abbrev pub two_lines : Document
two_lines = with_two blank_lines

pub two_lines-IsDocument : IsDocument two_lines
two_lines-IsDocument =
    with_two-IsDocument blank_lines (length-replicate max_lines blank_line) blank_lines-AllRows

insert_char-Typed_example : Typed 120 two_lines (insert_char 120 two_lines)
insert_char-Typed_example = insert_char-Typed 120 two_lines (λ e. omega arith) two_lines-IsDocument

newline-Broken_example : Broken two_lines (newline two_lines)
newline-Broken_example = newline-Broken two_lines two_lines-IsDocument

backspace-Erased_example : Erased two_lines (backspace two_lines)
backspace-Erased_example = backspace-Erased two_lines two_lines-IsDocument

abbrev session : Nano
session = record { doc = two_lines; scroll = 0; scroll_x = 0; asking = false; done = false }

nano_clamp_cursor-OnScreen_example : OnScreen 25 80 (nano_clamp_cursor 25 80 session)
nano_clamp_cursor-OnScreen_example =
    nano_clamp_cursor-OnScreen 25 80 session (omega arith) (omega arith)

-- A file in memory: what was written, and what is left to read.
abbrev memory : Vfs (List ℕ × List ℕ)
memory = record {
  open_read = λ s. (pos 3, (s.0, s.0));
  open_write = λ s. (pos 3, s);
  truncate = λ s. (true, ([], s.1));
  read = λ fd n s. (pos (min n (length s.1)), (take n s.1, (s.0, drop n s.1)));
  write = λ fd bytes s. (pos (length bytes), (s.0 ++ bytes, s.1));
  close = λ fd s. s;
}

nano_run-IsDocument_example :
    IsDocument (nano_run memory 25 80 (8 ∷ 8 ∷ 10 ∷ 97 ∷ []) session ([], [])).0.doc
nano_run-IsDocument_example =
    nano_run-IsDocument memory 25 80 (8 ∷ 8 ∷ 10 ∷ 97 ∷ []) session ([], []) two_lines-IsDocument

nano_save_file-Reported_example :
    Reported memory two_lines ([], []) (nano_save_file memory two_lines ([], []))
nano_save_file-Reported_example = nano_save_file-Reported memory two_lines ([], [])

ab-IsPlain : IsPlain (text ab)
ab-IsPlain = record {
  clean = (λ e. omega arith, λ e. omega arith, (λ e. omega arith, λ e. omega arith, tt));
  no_return = λ e. omega arith;
}

two_lines-IsPlain : (r : ℕ) → r < 2 → IsPlain (text (line_at two_lines.lines r))
two_lines-IsPlain zero lt = ab-IsPlain
two_lines-IsPlain (suc zero) lt = ab-IsPlain
two_lines-IsPlain (suc (suc r)) lt = absurd (omega arith)

two_lines_read :
    ReadOut memory
      (pos 3)
      2
      (saved_bytes 2 0 two_lines.lines, saved_bytes 2 0 two_lines.lines)
      (saved_bytes 2 0 two_lines.lines)
two_lines_read = piece 1 _ [] refl (ended 0 _ refl)

two_lines_saved : (nano_save_file memory two_lines ([], [])).0 ≡ pos 6
unfolding nano_save_file save_lines strlen
two_lines_saved = refl

nano_load_file-Reloaded_example :
    Saved memory
      ([], [])
      (nano_save_file memory two_lines ([], [])).1.1
      (saved_bytes 2 0 two_lines.lines)
    × Reloaded two_lines (nano_load_file memory 2 two_lines (saved_bytes 2 0 two_lines.lines, [])).0
nano_load_file-Reloaded_example =
    nano_load_file-Reloaded memory 2 6 two_lines two_lines ([], [])
      (saved_bytes 2 0 two_lines.lines, []) two_lines-IsDocument two_lines-IsDocument
      two_lines-IsPlain (omega arith) two_lines_saved refl two_lines_read
