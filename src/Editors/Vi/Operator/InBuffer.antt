-- ===== src/Editors/Vi/Operator/InBuffer.antt =====
-- Every motion of vi in kernel/shell/editors.c stays in the lines in use and inside a line's array.
use rtjn_kernel.Prelude.{ℕ, ◌<◌}
use rtjn_kernel.Editors.Document.{Document, max_col}
use rtjn_kernel.Editors.Vi.Operator.{Motion, stays, above, goes}

-- The cursor is on a line in use and on a byte of its array, which the end of the text may not be.
pub record InBuffer (d : Document) : Type 0 where
  pub row : d.row < d.lcount
  pub col : d.col < max_col

-- Where a motion may go on a screen of `height` rows: above the text only on one of fewer than three.
pub data IsLanding (height : ℕ) : Motion → Type 0 where
  no_motion : IsLanding height stays
  inside : {d : Document} → InBuffer d → IsLanding height (goes d)
  off : height < 3 → IsLanding height above
