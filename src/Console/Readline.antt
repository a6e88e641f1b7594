-- ===== src/Console/Readline.antt =====
-- The line editor of kernel/shell/readline.c: a buffer, a cursor in it, and the cells it is drawn
-- in.
pub mod Edit
pub mod Refine
pub mod Replace
pub mod Loop
use rtjn_kernel.Prelude.{
  ℕ, zero, suc, ◌+◌, ◌-◌, ◌*◌, ◌/◌, ◌%◌, List, [], ◌∷◌, Option, none, some, Bool, true, false, not,
  ◌&&◌, ltb, leb, ◌==◌, ◌!=◌, if◌then◌else◌, get_or, set,
}
use rtjn_kernel.Text.{memmove}
use rtjn_kernel.Console.Term.{Term, term_putch_at, term_clear, term_write}
use rtjn_kernel.Console.Keyboard.{Keyboard}

-- `buf`, `i` (here `len`), `pos` and `hooked` of `readline`, with `g_base_cell` and the screen.
pub record Line : Type 0 where
  pub buf : List ℕ
  pub len : ℕ
  pub pos : ℕ
  pub hooked : Bool
  pub base : ℕ
  pub term : Term

unfoldable pub cell_put : ℕ → ℕ → ℕ → Term → Term
unfolding term_putch_at
cell_put base k c t =
    let cell = base + k in
    if leb t.height (cell / t.width)
    then t
    else term_putch_at c t.color (cell % t.width) (cell / t.width) t

unfoldable pub cell_cursor : ℕ → ℕ → Term → Term
cell_cursor base pos t =
    let cell = base + pos in record t { row = cell / t.width; col = cell % t.width }

-- `for (k = from; k < len; k++)`, with `left` rounds to go.
unfoldable pub cell_draw : ℕ → ℕ → ℕ → List ℕ → Term → Term
unfolding cell_put
cell_draw base k zero buf t = t
cell_draw base k (suc left) buf t =
    cell_draw base (k + 1) left buf (cell_put base k (get_or buf k 0) t)

unfoldable pub cell_clear : ℕ → ℕ → ℕ → Term → Term
unfolding cell_put
cell_clear base k zero t = t
cell_clear base k (suc left) t = cell_clear base (k + 1) left (cell_put base k 32 t)

-- Draws the line from `k` on, blanks the cells up to the old end, and shows the cursor.
abbrev pub redraw : ℕ → ℕ → Line → Line
redraw k old l = record l {
  term =
      cell_cursor l.base l.pos
        (cell_clear l.base l.len (old - l.len) (cell_draw l.base k (l.len - k) l.buf l.term));
}

-- The line with `c` at the cursor.
abbrev pub inserted : ℕ → Line → Line
inserted c l = record l {
  buf = set (memmove l.buf (l.pos + 1) l.pos (l.len - l.pos + 1)) l.pos c;
  len = l.len + 1;
  pos = l.pos + 1;
}

unfoldable pub insert_char : ℕ → ℕ → Line → Line
unfolding memmove cell_draw cell_clear cell_cursor
insert_char size c l = if leb size (l.len + 1) then l else redraw l.pos 0 (inserted c l)

-- The line without the bytes from `start` to the cursor.
abbrev pub removed : ℕ → Line → Line
removed start l = record l {
  buf = memmove l.buf start l.pos (l.len - l.pos + 1);
  len = l.len - (l.pos - start);
  pos = start;
}

unfoldable pub backspace_at : Line → Line
unfolding memmove cell_draw cell_clear cell_cursor
backspace_at l = if l.pos == 0 then l else redraw (l.pos - 1) l.len (removed (l.pos - 1) l)

-- `while (start > 0 && buf[start - 1] == ' ') start--;`
unfoldable pub skip_spaces : List ℕ → ℕ → ℕ
skip_spaces buf zero = zero
skip_spaces buf (suc start) =
    let rest = skip_spaces buf start in if get_or buf start 0 == 32 then rest else suc start

-- `while (start > 0 && buf[start - 1] != ' ') start--;`
unfoldable pub skip_word : List ℕ → ℕ → ℕ
skip_word buf zero = zero
skip_word buf (suc start) =
    let rest = skip_word buf start in if get_or buf start 0 != 32 then rest else suc start

unfoldable pub delete_word : Line → Line
unfolding memmove skip_spaces skip_word cell_draw cell_clear cell_cursor
delete_word l =
    let start = skip_word l.buf (skip_spaces l.buf l.pos) in
    if l.pos == 0 then l else if start == l.pos then l else redraw start l.len (removed start l)

unfoldable pub cursor_left : Line → Line
unfolding cell_cursor
cursor_left l =
    if ltb 0 l.pos
    then record l { pos = l.pos - 1; term = cell_cursor l.base (l.pos - 1) l.term }
    else l

unfoldable pub cursor_right : Line → Line
unfolding cell_cursor
cursor_right l =
    if ltb l.pos l.len
    then record l { pos = l.pos + 1; term = cell_cursor l.base (l.pos + 1) l.term }
    else l

-- The copying loop of `replace_line`, at byte `i`, with the new length.
unfoldable pub copy_line : ℕ → ℕ → List ℕ → List ℕ → ℕ × List ℕ
copy_line size i [] buf = (i, buf)
copy_line size i (c ∷ cs) buf =
    let rest = copy_line size (i + 1) cs (set buf i c) in
    if c != 0 && ltb i (size - 1) then rest else (i, buf)

unfoldable pub replace_line : ℕ → List ℕ → Line → Line
unfolding copy_line cell_draw cell_clear cell_cursor
replace_line size line l =
    let (i, buf) = copy_line size 0 line l.buf in
    let blanked = cell_clear l.base 0 l.len l.term in
    let ended = set buf i 0 in
    record l {
      buf = ended;
      len = i;
      pos = i;
      term = cell_cursor l.base i (cell_draw l.base 0 i ended blanked);
    }
