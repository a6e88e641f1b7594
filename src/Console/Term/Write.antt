-- ===== src/Console/Term/Write.antt =====
-- `term_putchar` and `term_write` of kernel/lib/term.c keep the cursor on the screen.
use rtjn_kernel.Prelude.{
  ℕ, ◌+◌, ◌*◌, ◌^◌, ◌≤◌, ◌<◌, ◌≡◌, ◌≢◌, ◌∙◌, arith, List, [], ◌∷◌, if_intro, ◌==◌, ==→≡, ==→≢,
  length, length-set,
}
use rtjn_kernel.Console.Term.{
  Term, newline, tab, vga_entry, term_putch_at, put_blank, tab_blanks, advance, scroll,
  term_putchar, term_write,
}
use rtjn_kernel.Console.Term.Screen.{
  InScreen, tab_blanks-InScreen, put_blank-InScreen, length-shift_terminal_content,
}

-- On the screen, or in the row below it.
record BeforeScroll (t : Term) : Type 0 where
  width_pos : 0 < t.width
  width_fits : t.width < 2 ^ 32
  height_pos : 0 < t.height
  row_le : t.row ≤ t.height
  col_lt : t.col < t.width
  cells : length t.buf ≡ t.height * t.width

InScreen-BeforeScroll : (t : Term) → InScreen t → BeforeScroll t
InScreen-BeforeScroll t on = record {
  width_pos = on.width_pos;
  width_fits = on.width_fits;
  height_pos = on.height_pos;
  row_le = (let lt = on.row_lt in omega arith);
  col_lt = on.col_lt;
  cells = on.cells;
}

scroll-InScreen : (t : Term) → BeforeScroll t → InScreen (scroll t)
scroll-InScreen t on =
    let pos = on.height_pos in
    let le = on.row_le in
    if_intro InScreen (t.row == t.height)
      (λ e. record {
        width_pos = on.width_pos;
        width_fits = on.width_fits;
        height_pos = pos;
        row_lt = (let at_end = ==→≡ t.row t.height e in omega arith);
        col_lt = on.col_lt;
        cells = length-shift_terminal_content t ∙ on.cells;
      })
      (λ f. record {
        width_pos = on.width_pos;
        width_fits = on.width_fits;
        height_pos = pos;
        row_lt = (let inside = ==→≢ t.row t.height f in omega arith);
        col_lt = on.col_lt;
        cells = on.cells;
      })

advance-BeforeScroll :
    (c : ℕ) (t : Term) → InScreen t → (c ≡ tab → t.col + 1 < t.width) → BeforeScroll (advance c t)
unfolding advance term_putch_at
advance-BeforeScroll c t on h =
    let lt = on.row_lt in
    let col_lt = on.col_lt in
    let drawn = length-set t.buf (t.row * t.width + t.col) (vga_entry c t.color) ∙ on.cells in
    if_intro BeforeScroll (c == newline)
      (λ _. record {
        width_pos = on.width_pos;
        width_fits = on.width_fits;
        height_pos = on.height_pos;
        row_le = omega arith;
        col_lt = on.width_pos;
        cells = on.cells;
      })
      (λ _.
        if_intro BeforeScroll (c == tab)
          (λ e.
            InScreen-BeforeScroll (tab_blanks 3 (put_blank t))
              (tab_blanks-InScreen 3 (put_blank t) (put_blank-InScreen t on (h (==→≡ c tab e)))))
          (λ _.
            if_intro BeforeScroll (t.col + 1 == t.width)
              (λ _. record {
                width_pos = on.width_pos;
                width_fits = on.width_fits;
                height_pos = on.height_pos;
                row_le = omega arith;
                col_lt = on.width_pos;
                cells = drawn;
              })
              (λ f. record {
                width_pos = on.width_pos;
                width_fits = on.width_fits;
                height_pos = on.height_pos;
                row_le = omega arith;
                col_lt = (let inside = ==→≢ (t.col + 1) t.width f in omega arith);
                cells = drawn;
              })))

-- A character keeps the cursor on a screen whose cells are all there, except a tab in the last
-- column.
pub term_putchar-InScreen :
    (c : ℕ) (t : Term) → InScreen t → (c ≡ tab → t.col + 1 < t.width) → InScreen (term_putchar c t)
unfolding term_putchar
term_putchar-InScreen c t on h = scroll-InScreen (advance c t) (advance-BeforeScroll c t on h)

-- The text has no tab.
abbrev pub NoTab : List ℕ → Type 0
NoTab [] = Unit {0}
NoTab (c ∷ cs) = (c ≢ tab) × NoTab cs

-- Writing a text of any length without tabs keeps the cursor on the screen.
pub term_write-InScreen :
    (cs : List ℕ) (t : Term) → InScreen t → NoTab cs → InScreen (term_write cs t)
unfolding term_write
term_write-InScreen [] t on h = on
term_write-InScreen (c ∷ cs) t on (ne, h) =
    term_write-InScreen cs (term_putchar c t) (term_putchar-InScreen c t on (λ e. absurd (ne e))) h
