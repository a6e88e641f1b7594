-- ===== src/Console/Term/Screen.antt =====
-- The screen of kernel/lib/term.c stays inside its cells; scrolling moves every row up by one.
use rtjn_kernel.Prelude.{
  ℕ, zero, suc, ◌+◌, ◌-◌, ◌*◌, ◌%◌, ◌^◌, ◌≤◌, ◌<◌, ◌≡◌, refl, sym, ap, ◌∙◌, arith, List, false,
  if_intro, ltb, if◌then◌else◌, get_or, set, length, length-set, get_or-set_ne, get_or-set, ◌⊎◌,
  inl, inr,
}
use native.Mathlib.Decide.{dec_lt}
use native.Mathlib.Nat.{suc-mul}
use rtjn_kernel.Console.Term.{
  Term, tab, space, vga_entry, term_putch_at, shift_rows, fill_cells, shift_terminal_content,
  put_blank, before_stop, tab_blanks, advance,
}

length-shift_rows :
    (width i left : ℕ) (buf : List ℕ) → length (shift_rows width i left buf) ≡ length buf
unfolding shift_rows
length-shift_rows width i zero buf = refl
length-shift_rows width i (suc left) buf =
    length-shift_rows width (i + 1) left _ ∙ length-set buf i _

length-fill_cells :
    (cell i left : ℕ) (buf : List ℕ) → length (fill_cells cell i left buf) ≡ length buf
unfolding fill_cells
length-fill_cells cell i zero buf = refl
length-fill_cells cell i (suc left) buf = length-fill_cells cell (i + 1) left _ ∙ length-set buf i _

get_or-fill_cells :
    (cell i left : ℕ) (buf : List ℕ) (j : ℕ)
    → i + left ≤ length buf
    → get_or (fill_cells cell i left buf) j 0
      ≡ (if (ltb j i) then get_or buf j 0 else if ltb j (i + left) then cell else get_or buf j 0)
unfolding fill_cells
get_or-fill_cells cell i zero buf j h = ground arith
get_or-fill_cells cell i (suc left) buf j h =
    let ih =
      get_or-fill_cells cell (i + 1) left (set buf i cell) j
        (omega (arith, length-set buf i cell)) in
    let here = get_or-set buf i j cell 0 (omega arith) in ground (arith, ih, here)

-- A row takes the cells of the next, as they were before.
get_or-shift_rows :
    (width i left : ℕ) (buf : List ℕ) (j : ℕ)
    → 0 < width
    → i + left + width ≤ length buf
    → get_or (shift_rows width i left buf) j 0 ≡ (
        if (ltb j i)
        then get_or buf j 0
        else if ltb j (i + left)
        then get_or buf (j + width) 0
        else get_or buf j 0)
unfolding shift_rows
get_or-shift_rows width i zero buf j pos h = ground arith
get_or-shift_rows width i (suc left) buf j pos h =
    let v = get_or buf (i + width) 0 in
    let ih =
      get_or-shift_rows width (i + 1) left (set buf i v) j pos
        (omega (arith, length-set buf i v)) in
    let here = get_or-set buf i j v 0 (omega arith) in
    let there = get_or-set_ne buf i (j + width) v 0 in ground (arith, ih, here, there)

-- The cursor is on the screen, whose cells are all there.
pub record InScreen (t : Term) : Type 0 where
  pub width_pos : 0 < t.width
  pub width_fits : t.width < 2 ^ 32
  pub height_pos : 0 < t.height
  pub row_lt : t.row < t.height
  pub col_lt : t.col < t.width
  pub cells : length t.buf ≡ t.height * t.width

rows_sum : (h w : ℕ) → 0 < h → (h - 1) * w + w ≡ h * w
rows_sum zero w h = elim h [ ]
rows_sum (suc k) w h =
    let before : suc k - 1 ≡ k = omega arith in ap (λ x. x * w + w) before ∙ sym (suc-mul k w)

pub length-shift_terminal_content :
    (t : Term) → length (shift_terminal_content t).buf ≡ length t.buf
unfolding shift_terminal_content
length-shift_terminal_content t =
    length-fill_cells (vga_entry space t.color) ((t.height - 1) * t.width) t.width _
    ∙ length-shift_rows t.width 0 ((t.height - 1) * t.width) t.buf

-- Scrolling a screen with all its cells and the cursor on it moves every row but the first up by
-- one, blanks the last and changes nothing behind it.
pub shift_terminal_content-rows :
    (t : Term) (j : ℕ)
    → InScreen t
    → get_or (shift_terminal_content t).buf j 0 ≡ (
        if ltb j ((t.height - 1) * t.width)
        then get_or t.buf (j + t.width) 0
        else if ltb j (t.height * t.width)
        then vga_entry space t.color
        else get_or t.buf j 0)
unfolding shift_terminal_content
shift_terminal_content-rows t j on =
    let last = (t.height - 1) * t.width in
    let sum = rows_sum t.height t.width on.height_pos in
    let cells = on.cells in
    let moved = get_or-shift_rows t.width 0 last t.buf j on.width_pos (omega arith) in
    let filled =
      get_or-fill_cells (vga_entry space t.color) last t.width (shift_rows t.width 0 last t.buf) j
        (omega (arith, length-shift_rows t.width 0 last t.buf)) in
    ground (arith, moved, filled, sum)

pub put_blank-InScreen : (t : Term) → InScreen t → t.col + 1 < t.width → InScreen (put_blank t)
unfolding term_putch_at
put_blank-InScreen t on h = record {
  width_pos = on.width_pos;
  width_fits = on.width_fits;
  height_pos = on.height_pos;
  row_lt = on.row_lt;
  col_lt = h;
  cells = length-set t.buf (t.row * t.width + t.col) (vga_entry space t.color) ∙ on.cells;
}

pub tab_blanks-InScreen : (n : ℕ) (t : Term) → InScreen t → InScreen (tab_blanks n t)
unfolding tab_blanks
tab_blanks-InScreen zero t on = on
tab_blanks-InScreen (suc n) t on =
    if_intro InScreen (before_stop t)
      (λ b.
        tab_blanks-InScreen n (put_blank t) (
          put_blank-InScreen t on (let lt = on.col_lt in let fits = on.width_fits in ground arith)))
      (λ _. on)

-- Three rounds more are enough for every tab.
tab_blanks-stops :
    (n : ℕ) (t : Term)
    → (4 ≤ n + t.col % 4) ⊎ (t.col % 4 ≡ 0)
    → before_stop (tab_blanks n t) ≡ false
unfolding tab_blanks term_putch_at
tab_blanks-stops zero t h = ground arith
tab_blanks-stops (suc n) t h =
    if_intro (λ u. before_stop u ≡ false) (before_stop t)
      (λ b. tab_blanks-stops n (put_blank t) (ground arith)) (λ f. f)

width-tab_blanks : (n : ℕ) (t : Term) → (tab_blanks n t).width ≡ t.width
unfolding tab_blanks term_putch_at
width-tab_blanks zero t = refl
width-tab_blanks (suc n) t =
    if_intro (λ (u : Term). u.width ≡ t.width) (before_stop t)
      (λ _. width-tab_blanks n (put_blank t)) (λ _. refl)

at_stop :
    (w : ℕ) (u : Term)
    → u.width ≡ w
    → InScreen u
    → before_stop u ≡ false
    → (u.col % 4 ≡ 0) ⊎ (u.col + 1 ≡ w)
at_stop w u e on stop = let lt = on.col_lt in let fits = on.width_fits in ground arith

first_round : (c : ℕ) → (4 ≤ 3 + c % 4) ⊎ (c % 4 ≡ 0)
first_round c = elim (dec_lt 0 (c % 4)) [ yes h ↦ inl (omega arith) | no h ↦ inr (omega arith) ]

-- A tab in front of the last column ends at the next tab stop or in the last column.
pub advance-tab :
    (t : Term)
    → InScreen t
    → t.col + 1 < t.width
    → ((advance tab t).col % 4 ≡ 0) ⊎ ((advance tab t).col + 1 ≡ t.width)
unfolding advance term_putch_at
advance-tab t on h =
    at_stop t.width (tab_blanks 3 (put_blank t)) (width-tab_blanks 3 (put_blank t))
      (tab_blanks-InScreen 3 (put_blank t) (put_blank-InScreen t on h))
      (tab_blanks-stops 3 (put_blank t) (first_round (t.col + 1)))

-- On a screen whose width is a multiple of 4, a tab in the last column leaves the cursor behind
-- the end of its row.
pub advance-tab_last :
    (t : Term) → t.col + 1 ≡ t.width → t.width % 4 ≡ 0 → (advance tab t).col ≡ t.width
unfolding advance term_putch_at tab_blanks
advance-tab_last t h e = ground arith
