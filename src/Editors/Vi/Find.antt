-- ===== src/Editors/Vi/Find.antt =====
-- The searches of vi in kernel/shell/editors.c. The pattern is an array and its length.
pub mod Forward
use rtjn_kernel.Prelude.{
  ℕ, zero, suc, ◌+◌, ◌-◌, List, [], ◌∷◌, Option, none, some, Bool, true, false, ltb, ◌==◌,
  if◌then◌else◌, drop, min,
}
use rtjn_kernel.Prelude.Int.{ℤ, pos, eqb_ℤ}
use rtjn_kernel.Text.{strlen, strncmp}
use rtjn_kernel.Editors.Document.{Document, line_at, line_len}
use rtjn_kernel.Editors.Vi.{Vi, on_doc}

-- `strncmp(&line[c], pat, plen) == 0`
abbrev pub match_at : List ℕ → ℕ → List ℕ → ℕ → Bool
match_at pat plen line c = eqb_ℤ (strncmp (drop c line) pat plen) (pos 0)

-- The first match in the `left` columns from `c` on.
unfoldable pub scan_up : List ℕ → ℕ → List ℕ → ℕ → ℕ → Option ℕ
scan_up pat plen line zero c = none
scan_up pat plen line (suc left) c =
    let rest = scan_up pat plen line left (c + 1) in
    if match_at pat plen line c then some c else rest

-- The last match in the first `n` columns.
unfoldable pub scan_down : List ℕ → ℕ → List ℕ → ℕ → Option ℕ
scan_down pat plen line zero = none
scan_down pat plen line (suc c) =
    let rest = scan_down pat plen line c in if match_at pat plen line c then some c else rest

-- The columns from `c` on in which a match can begin.
abbrev pub columns : ℕ → List ℕ → ℕ → ℕ
columns plen line c = strlen line + 1 - (c + plen)

-- In the `left` rows from `r` on.
unfoldable pub rows_up : List ℕ → ℕ → List (List ℕ) → ℕ → ℕ → ℕ → Option (ℕ × ℕ)
unfolding scan_up
rows_up pat plen lines zero r c = none
rows_up pat plen lines (suc left) r c =
    let line = line_at lines r in
    let rest = rows_up pat plen lines left (r + 1) 0 in
    elim (scan_up pat plen line (columns plen line c) c) [ some m ↦ some (r, m) | none ↦ rest ]

-- In the first `r` rows; in the last of them, in the first `n` columns.
unfoldable pub rows_down : List ℕ → ℕ → List (List ℕ) → ℕ → ℕ → Option (ℕ × ℕ)
unfolding scan_down
rows_down pat plen lines zero n = none
rows_down pat plen lines (suc r) n =
    let line = line_at lines r in
    let rest = rows_down pat plen lines r (columns plen (line_at lines (r - 1)) 0) in
    elim (scan_down pat plen line (min n (columns plen line 0))) [
      | some m ↦ some (r, m)
      | none ↦ rest
    ]

unfoldable pub vi_search_forward : List ℕ → ℕ → ℕ → ℕ → Document → Option (ℕ × ℕ)
unfolding rows_up
vi_search_forward pat plen sr sc d =
    if plen == 0 then none else rows_up pat plen d.lines (d.lcount - sr) sr (sc + 1)

unfoldable pub vi_search_backward : List ℕ → ℕ → ℕ → ℕ → Document → Option (ℕ × ℕ)
unfolding rows_down
vi_search_backward pat plen sr sc d =
    if plen == 0 then none else rows_down pat plen d.lines (sr + 1) sc

abbrev pub jump : Option (ℕ × ℕ) → Document → Document
jump none d = d
jump (some (r, c)) d = record d { row = r; col = c }

-- `vi_search_dir > 0` is `down`.
unfoldable pub vi_search_next : List ℕ → ℕ → Bool → Document → Document
unfolding vi_search_forward vi_search_backward
vi_search_next pat plen down d =
    if down
    then jump (vi_search_forward pat plen d.row d.col d) d
    else jump (vi_search_backward pat plen d.row d.col d) d

unfoldable pub vi_search_prev : List ℕ → ℕ → Bool → Document → Document
unfolding vi_search_forward vi_search_backward
vi_search_prev pat plen down d =
    if down
    then jump (vi_search_backward pat plen d.row d.col d) d
    else jump (vi_search_forward pat plen d.row d.col d) d
