-- ===== src/Console/Term.antt =====
-- The text screen of kernel/lib/term.c. The framebuffer that mirrors the cells is left out.
pub mod Screen
pub mod Write
use rtjn_kernel.Prelude.{
  ℕ, zero, suc, ◌+◌, ◌-◌, ◌*◌, ◌/◌, ◌%◌, ◌^◌, List, [], ◌∷◌, Bool, true, false, ◌&&◌, ltb, ◌==◌,
  ◌!=◌, if◌then◌else◌, get_or, set, bit_or,
}
use rtjn_kernel.Prelude.Bits.{u32}

-- The `t_*` globals; a cell is a `uint16_t`, and a store behind the last cell is lost.
pub record Term : Type 0 where
  pub row : ℕ
  pub col : ℕ
  pub color : ℕ
  pub width : ℕ
  pub height : ℕ
  pub buf : List ℕ

abbrev pub newline : ℕ
newline = 10

abbrev pub tab : ℕ
tab = 9

abbrev pub space : ℕ
space = 32

abbrev pub vga_entry : ℕ → ℕ → ℕ
vga_entry c color = bit_or c (color * 2 ^ 8)

unfoldable pub term_putch_at : ℕ → ℕ → ℕ → ℕ → Term → Term
term_putch_at c color x y t = record t { buf = set t.buf (y * t.width + x) (vga_entry c color) }

-- `t_buf[i] = t_buf[i + width]`, from `i` on; the two loops of the source take the indices in
-- order.
unfoldable pub shift_rows : ℕ → ℕ → ℕ → List ℕ → List ℕ
shift_rows width i zero buf = buf
shift_rows width i (suc left) buf =
    shift_rows width (i + 1) left (set buf i (get_or buf (i + width) 0))

-- `t_buf[i] = cell`, from `i` on.
unfoldable pub fill_cells : ℕ → ℕ → ℕ → List ℕ → List ℕ
fill_cells cell i zero buf = buf
fill_cells cell i (suc left) buf = fill_cells cell (i + 1) left (set buf i cell)

unfoldable pub shift_terminal_content : Term → Term
unfolding shift_rows fill_cells
shift_terminal_content t = record t {
  buf =
      fill_cells (vga_entry space t.color) ((t.height - 1) * t.width) t.width
        (shift_rows t.width 0 ((t.height - 1) * t.width) t.buf);
}

-- The screen is not larger than `TERM_MAX_W` by `TERM_MAX_H`.
unfoldable pub term_clear : Term → Term
unfolding fill_cells
term_clear t = record t {
  buf = fill_cells (vga_entry space t.color) 0 (t.height * t.width) t.buf;
  row = 0;
  col = 0;
}

-- A blank at the cursor, which moves on.
abbrev pub put_blank : Term → Term
put_blank t = let u = term_putch_at space t.color t.col t.row t in record u { col = u.col + 1 }

-- `t_col % 4 != 0 && (term_width - t_col) > 1`, with the difference of a `size_t`
abbrev pub before_stop : Term → Bool
before_stop t = t.col % 4 != 0 && ltb 1 (u32 (t.width + 2 ^ 32 - t.col))

-- The rounds of a tab behind the first.
unfoldable pub tab_blanks : ℕ → Term → Term
unfolding term_putch_at
tab_blanks zero t = t
tab_blanks (suc left) t =
    let more = tab_blanks left (put_blank t) in if before_stop t then more else t

-- `term_putchar` in front of its last test.
unfoldable pub advance : ℕ → Term → Term
unfolding term_putch_at tab_blanks
advance c t =
    let u = term_putch_at c t.color t.col t.row t in
    if c == newline
    then record t { row = t.row + 1; col = 0 }
    else if c == tab
    then tab_blanks 3 (put_blank t)
    else if t.col + 1 == t.width
    then record u { col = 0; row = t.row + 1 }
    else record u { col = t.col + 1 }

abbrev pub scroll : Term → Term
scroll t =
    if t.row == t.height
    then record t { buf = (shift_terminal_content t).buf; row = t.row - 1 }
    else t

unfoldable pub term_putchar : ℕ → Term → Term
unfolding advance shift_terminal_content
term_putchar c t = scroll (advance c t)

unfoldable pub term_write : List ℕ → Term → Term
unfolding term_putchar
term_write [] t = t
term_write (c ∷ cs) t = term_write cs (term_putchar c t)
