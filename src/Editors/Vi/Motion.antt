-- ===== src/Editors/Vi/Motion.antt =====
-- The motions of vi in kernel/shell/editors.c.
pub mod Bracket
use rtjn_kernel.Prelude.{
  ℕ, zero, suc, ◌+◌, ◌-◌, ◌/◌, List, [], ◌∷◌, Option, none, some, Bool, true, false, not, ◌&&◌,
  ◌||◌, ltb, leb, ◌==◌, ◌!=◌, if◌then◌else◌, get_or,
}
use rtjn_kernel.Text.{strlen}
use rtjn_kernel.Editors.Document.{Document, line_at, line_len}
use rtjn_kernel.Editors.Vi.{vi_is_word, vi_is_alpha}

abbrev pub byte_at : List ℕ → ℕ → ℕ
byte_at line c = get_or line c 0

-- `while (c < c + left && test(line[c])) c++;`
unfoldable pub skip_on : (ℕ → Bool) → List ℕ → ℕ → ℕ → ℕ
skip_on test line zero c = c
skip_on test line (suc left) c =
    let rest = skip_on test line left (c + 1) in if test (byte_at line c) then rest else c

-- `while (c > 0 && test(line[c])) c--;`
unfoldable pub skip_back : (ℕ → Bool) → List ℕ → ℕ → ℕ
skip_back test line zero = zero
skip_back test line (suc c) =
    let rest = skip_back test line c in if test (byte_at line (suc c)) then rest else suc c

-- `while (c > 0 && test(line[c - 1])) c--;`
unfoldable pub skip_behind : (ℕ → Bool) → List ℕ → ℕ → ℕ
skip_behind test line zero = zero
skip_behind test line (suc c) =
    let rest = skip_behind test line c in if test (byte_at line c) then rest else suc c

unfoldable pub vi_word_end : ℕ → ℕ → Document → ℕ
unfolding skip_on vi_is_alpha
vi_word_end row col d =
    let line = line_at d.lines row in
    let len = strlen line in
    let symbol = λ (b : ℕ). not (vi_is_alpha b) && (b != 32) && (b != 9) in
    let end =
      if ltb col len && vi_is_alpha (byte_at line col)
      then skip_on vi_is_alpha line (len - col) col
      else if ltb col len
      then skip_on symbol line (len - col) col
      else col in
    if ltb end len && (end == col) then end + 1 else end

unfoldable pub vi_word_fwd : Document → Document
unfolding skip_on vi_is_word
vi_word_fwd d =
    let line = line_at d.lines d.row in
    let len = strlen line in
    let end =
      if vi_is_word (byte_at line d.col)
      then skip_on vi_is_word line (len - d.col) d.col
      else d.col in
    let next = skip_on (λ b. not (vi_is_word b)) line (len - end) end in
    if leb len d.col
    then if ltb d.row (d.lcount - 1) then record d { row = d.row + 1; col = 0 } else d
    else record d { col = next }

unfoldable pub vi_word_back : Document → Document
unfolding skip_back skip_behind vi_is_word
vi_word_back d =
    let line = line_at d.lines d.row in
    let above = line_at d.lines (d.row - 1) in
    if ltb 0 d.col
    then record d {
      col = skip_behind vi_is_word line (skip_back (λ b. not (vi_is_word b)) line (d.col - 1));
    }
    else if ltb 0 d.row
    then record d { row = d.row - 1; col = skip_behind vi_is_word above (strlen above - 1) }
    else d

-- `while (r < r + left && test(vi_lines[r][0])) r++;`
unfoldable pub rows_on : (ℕ → Bool) → List (List ℕ) → ℕ → ℕ → ℕ
rows_on test lines zero r = r
rows_on test lines (suc left) r =
    let rest = rows_on test lines left (r + 1) in
    if test (byte_at (line_at lines r) 0) then rest else r

-- `while (r > 0 && vi_lines[r][0] != 0) r--;`
unfoldable pub rows_back : List (List ℕ) → ℕ → ℕ
rows_back lines zero = zero
rows_back lines (suc r) =
    let rest = rows_back lines r in if byte_at (line_at lines (suc r)) 0 != 0 then rest else suc r

-- Backwards from row 0 the row -1 that the code starts from ends at row 0, as the row 0 does.
unfoldable pub vi_move_to_paragraph : Bool → Document → Document
unfolding rows_on rows_back
vi_move_to_paragraph forward d =
    let end = rows_on (λ b. b != 0) d.lines (d.lcount - (d.row + 1)) (d.row + 1) in
    let past = if ltb end d.lcount then end + 1 else end in
    let down = rows_on (λ b. b == 0) d.lines (d.lcount - past) past in
    let start = d.row - 1 in
    let from =
      if ltb 0 start && (byte_at (line_at d.lines start) 0 == 0) then start - 1 else start in
    let row =
      if forward
      then (if ltb down d.lcount then down else d.lcount - 1)
      else rows_back d.lines from in
    record d { row = row; col = 0 }

-- From the `left` bytes from `c` on, where `depth` pairs are open, the one that closes the last.
unfoldable pub closing : ℕ → ℕ → List ℕ → ℕ → ℕ → ℕ → Option ℕ
closing opener closer line zero c depth = none
closing opener closer line (suc left) c depth =
    let b = byte_at line c in
    let deeper = closing opener closer line left (c + 1) (depth + 1) in
    let shallower = closing opener closer line left (c + 1) (depth - 1) in
    let same = closing opener closer line left (c + 1) depth in
    if b == opener
    then deeper
    else if b == closer
    then (if depth == 1 then some c else shallower)
    else same

-- The same from the last of the first `c` bytes back to the first.
unfoldable pub opening : ℕ → ℕ → List ℕ → ℕ → ℕ → Option ℕ
opening opener closer line zero depth = none
opening opener closer line (suc c) depth =
    let b = byte_at line c in
    let deeper = opening opener closer line c (depth + 1) in
    let shallower = opening opener closer line c (depth - 1) in
    let same = opening opener closer line c depth in
    if b == closer
    then deeper
    else if b == opener
    then (if depth == 1 then some c else shallower)
    else same

abbrev pub brackets : List (ℕ × ℕ)
brackets = (40, 41) ∷ (123, 125) ∷ (91, 93) ∷ []

abbrev pub to_col : Option ℕ → Document → Document
to_col none d = d
to_col (some c) d = record d { col = c }

-- The first pair that the byte under the cursor belongs to.
unfoldable pub match_pair : List (ℕ × ℕ) → Document → Document
unfolding closing opening
match_pair [] d = d
match_pair ((opener, closer) ∷ pairs) d =
    let line = line_at d.lines d.row in
    let len = strlen line in
    let b = byte_at line d.col in
    let rest = match_pair pairs d in
    if b == opener
    then to_col (closing opener closer line (len - (d.col + 1)) (d.col + 1) 1) d
    else if b == closer
    then to_col (opening opener closer line d.col 1) d
    else rest

unfoldable pub vi_move_to_matching : Document → Document
unfolding match_pair
vi_move_to_matching d = if leb (line_len d d.row) d.col then d else match_pair brackets d
