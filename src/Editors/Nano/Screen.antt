-- ===== src/Editors/Nano/Screen.antt =====
-- `nano_clamp_cursor` of kernel/shell/editors.c keeps the cursor in sight.
use rtjn_kernel.Prelude.{ℕ, ◌+◌, ◌-◌, ◌≤◌, ◌<◌, arith}
use rtjn_kernel.Editors.Nano.{Nano, clamp_doc, scrolled, nano_clamp_cursor}

-- `at` is one of the `shown` places from `first` on.
abbrev InSight : ℕ → ℕ → ℕ → Type 0
InSight first at shown = (first ≤ at) × (at < first + shown)

scrolled-InSight : (first at shown : ℕ) → 0 < shown → InSight (scrolled first at shown) at shown
unfolding scrolled
scrolled-InSight first at shown h = (ground arith, ground arith)

-- The cursor is on a row and in a column of the screen, above the status bar.
pub record OnScreen (height width : ℕ) (n : Nano) : Type 0 where
  pub row : InSight n.scroll n.doc.row (height - 1)
  pub col : InSight n.scroll_x n.doc.col width

-- On a screen of at least two rows and one column, nano_clamp_cursor leaves the cursor in one of
-- the columns shown and in one of the rows shown above the status bar.
pub nano_clamp_cursor-OnScreen :
    (height width : ℕ) (n : Nano)
    → 1 < height
    → 0 < width
    → OnScreen height width (nano_clamp_cursor height width n)
unfolding nano_clamp_cursor
nano_clamp_cursor-OnScreen height width n tall wide =
    let d = clamp_doc n.doc in
    record {
      row = scrolled-InSight n.scroll d.row (height - 1) (omega arith);
      col = scrolled-InSight n.scroll_x d.col width wide;
    }
