-- ===== src/Console/History.antt =====
-- The history of kernel/shell/commands.c: at most 64 lines of at most 63 bytes, and a place in it.
pub mod Walk
use rtjn_kernel.Prelude.{
  ℕ, zero, suc, ◌+◌, ◌-◌, List, [], ◌∷◌, ◌++◌, Option, none, some, Bool, ◌&&◌, not, ltb, ◌==◌,
  if◌then◌else◌, get_elem?, get_or, take, length,
}
use rtjn_kernel.Prelude.Int.{pos, eqb_ℤ}
use rtjn_kernel.Text.{strlen, strcmp, text}

-- `s_hist` up to `s_hist_count`, and `s_hist_pos`.
pub record History : Type 0 where
  pub lines : List (List ℕ)
  pub at : ℕ

abbrev pub hist_max : ℕ
hist_max = 64

unfoldable pub shell_history_count : History → ℕ
shell_history_count h = length h.lines

unfoldable pub shell_history_current : History → Option (List ℕ)
shell_history_current h = get_elem? h.lines h.at

unfoldable pub shell_history_pos_set : ℕ → History → History
shell_history_pos_set p h = record h { at = p }

-- `s_hist[s_hist_count - 1]` is this line; false for an empty history.
abbrev pub is_last : List ℕ → List (List ℕ) → Bool
is_last line lines =
    not (length lines == 0) && eqb_ℤ (strcmp (get_or lines (length lines - 1) []) line) (pos 0)

unfoldable pub shell_record : List ℕ → History → History
unfolding strlen strcmp
shell_record line h =
    let lines =
      if not (is_last line h.lines) && ltb (length h.lines) hist_max
      then h.lines ++ (take 63 (text line) ++ 0 ∷ []) ∷ []
      else h.lines in
    if strlen line == 0 then h else record h { lines = lines; at = length lines }

unfoldable pub shell_history_prev : History → History
shell_history_prev h =
    if length h.lines == 0 then h else if ltb 0 h.at then record h { at = h.at - 1 } else h

unfoldable pub shell_history_next : History → History
shell_history_next h =
    if length h.lines == 0
    then h
    else if ltb h.at (length h.lines - 1)
    then record h { at = h.at + 1 }
    else h
