-- ===== src/Editors/Nano/RoundTrip.antt =====
-- What `nano_save_file` of kernel/shell/editors.c writes, `nano_load_file` reads back.
use rtjn_kernel.Prelude.{
  ℕ, zero, suc, ◌+◌, ◌-◌, ◌≤◌, ◌<◌, ◌≡◌, ◌≢◌, refl, ap, ◌∙◌, sym, arith, List, [], ◌∷◌, ◌++◌, true,
  ◌&&◌, ltb, ◌==◌, if_intro, get_or, set, length, length-set, get_or-set_self, get_or-set_ne, take,
  length-take, min, lt→ltb, append_assoc,
}
use rtjn_kernel.Text.{strlen, text, bzero, strncpy}
use rtjn_kernel.Text.Copy.{strlen-eq-length, length-bzero, length-strncpy, text-strncpy-terminated}
use rtjn_kernel.Editors.Rows.{take_all}
use rtjn_kernel.Editors.Document.{max_lines, max_col, line_at}
use rtjn_kernel.Editors.Document.Valid.{IsRow, AllRows}
use rtjn_kernel.Editors.Document.Keep.{AllRows-set}
use native.Mathlib.Decide.{dec_lt}
use rtjn_kernel.Editors.Nano.File.{
  Loading, tmp_size, stored, ended, end_line, load_char, load_chars,
}
use rtjn_kernel.Editors.Nano.Load.{
  Clean, put, length-put, load_chars-put, load_chars-append, text-ended,
}

-- Between two lines.
pub record IsLoading (l : Loading) : Type 0 where
  pub size : length l.lines ≡ max_lines
  pub rows : AllRows l.lines
  pub room : length l.tmp_line ≡ tmp_size
  pub fresh : l.tpos ≡ 0

pub text-stored :
    (line tmp : List ℕ) (n : ℕ)
    → length line ≡ max_col
    → text (stored line tmp n) ≡ take (min n (max_col - 1)) (text tmp)
text-stored line tmp n size = text-strncpy-terminated line tmp (min n (max_col - 1)) (omega arith)

IsRow-stored : (line tmp : List ℕ) (n : ℕ) → length line ≡ max_col → IsRow (stored line tmp n)
IsRow-stored line tmp n size =
    let m = min n (max_col - 1) in
    record {
      size = length-set (strncpy line tmp m) m 0 ∙ length-strncpy line tmp m ∙ size;
      ends = omega (
        arith,
        strlen-eq-length (stored line tmp n),
        ap length (text-stored line tmp n size),
        length-take m (text tmp),
      );
    }

pub IsRow-bzero : (line : List ℕ) → length line ≡ max_col → IsRow (bzero line max_col)
unfolding bzero strlen
IsRow-bzero [] size = absurd (omega arith)
IsRow-bzero (c ∷ line) size = record {
  size = length-bzero (c ∷ line) max_col ∙ size;
  ends = omega arith;
}

length-ended : (tmp : List ℕ) (n : ℕ) → length (ended tmp n) ≡ length tmp
length-ended tmp n =
    if_intro (λ (s : List ℕ). length s ≡ length tmp) (ltb 0 n && (get_or tmp (n - 1) 0 == 13))
      (λ _. length-set tmp (n - 1) 0) (λ _. length-set tmp n 0)

-- One line of a file, for the line `i` of the buffer.
pub record LineRead (i : ℕ) (t : List ℕ) (from : List (List ℕ)) (l' : Loading) : Type 0 where
  pub valid : IsLoading l'
  pub lcount : l'.lcount ≡ i + 2
  pub here : text (line_at l'.lines i) ≡ t
  pub above : (j : ℕ) → j < i → line_at l'.lines j ≡ line_at from j

LineRead-end_line :
    (i : ℕ) (t : List ℕ) (l : Loading)
    → length l.lines ≡ max_lines
    → AllRows l.lines
    → length l.tmp_line ≡ tmp_size
    → l.lcount ≡ i + 1
    → i + 1 < max_lines
    → length t < max_col
    → text (ended l.tmp_line l.tpos) ≡ t
    → l.tpos ≡ length t
    → LineRead i t l.lines (end_line l)
LineRead-end_line i t l size rows room count more short full long =
    let at : l.lcount - 1 ≡ i = omega arith in
    let tmp = ended l.tmp_line l.tpos in
    let line = line_at l.lines i in
    let row = rows i (omega arith) in
    let line' = stored line tmp l.tpos in
    let lines = set l.lines i line' in
    let kept = length-set l.lines i line' in
    let all =
      AllRows-set l.lines size rows i line' (omega arith) (IsRow-stored line tmp l.tpos row.size) in
    let next = all l.lcount (omega arith) in
    let blank = bzero (line_at lines l.lcount) max_col in
    let test : ltb l.lcount max_lines ≡ true = lt→ltb l.lcount max_lines (omega arith) in
    rw (at, test)
      (record {
        valid = record {
          size = length-set lines l.lcount blank ∙ kept ∙ size;
          rows =
              AllRows-set lines (kept ∙ size) all l.lcount blank (omega arith)
                (IsRow-bzero (line_at lines l.lcount) next.size);
          room = length-ended l.tmp_line l.tpos ∙ room;
          fresh = refl;
        };
        lcount = omega arith;
        here =
            ap text (
              get_or-set_ne lines l.lcount i blank [] (λ e. omega arith)
              ∙ get_or-set_self l.lines i line' [] (omega arith))
            ∙ text-stored line tmp l.tpos row.size
            ∙ ap (take (min l.tpos (max_col - 1))) full
            ∙ take_all (min l.tpos (max_col - 1)) t (omega arith);
        above = λ j lt.
            get_or-set_ne lines l.lcount j blank [] (λ e. omega arith)
            ∙ get_or-set_ne l.lines i j line' [] (λ e. omega arith);
      })

-- What a file can give back of a line: no newline, no carriage return at its end.
pub record IsPlain (t : List ℕ) : Type 0 where
  pub clean : Clean t
  pub no_return : get_or t (length t - 1) 0 ≢ 13

LineRead-load_chars :
    (i : ℕ) (t : List ℕ) (l : Loading)
    → IsLoading l
    → IsPlain t
    → l.lcount ≡ i + 1
    → i + 1 < max_lines
    → length t < max_col
    → LineRead i t l.lines (load_chars (t ++ 10 ∷ []) l)
unfolding load_chars load_char
LineRead-load_chars i t l ok plain count more short =
    let fresh = ok.fresh in
    let room = ok.room in
    let l' = record l { tmp_line = put t 0 l.tmp_line; tpos = length t } in
    let read : load_chars t l ≡ l' = load_chars-put t l plain.clean (omega arith) ∙ (λ k. record l {
      tmp_line = put t (fresh k) l.tmp_line;
      tpos = (let e : l.tpos + length t ≡ length t = omega arith in e) k;
    }) in
    rw (load_chars-append t (10 ∷ []) l, read)
      (LineRead-end_line i t l' ok.size ok.rows (length-put t 0 l.tmp_line ∙ ok.room) count more
        short (text-ended t l.tmp_line plain.clean (omega arith) plain.no_return) refl)

-- The bytes that the lines from `i` on make in the file, `left` of them.
abbrev pub saved_bytes : ℕ → ℕ → List (List ℕ) → List ℕ
saved_bytes zero i lines = []
saved_bytes (suc left) i lines = text (line_at lines i) ++ 10 ∷ saved_bytes left (i + 1) lines

pub record LinesRead (left i : ℕ) (lines from : List (List ℕ)) (l' : Loading) : Type 0 where
  pub valid : IsLoading l'
  pub lcount : l'.lcount ≡ i + left + 1
  pub here : (j : ℕ) → i ≤ j → j < i + left → text (line_at l'.lines j) ≡ text (line_at lines j)
  pub above : (j : ℕ) → j < i → line_at l'.lines j ≡ line_at from j

pub LinesRead-load_chars :
    (left i : ℕ) (lines : List (List ℕ)) (l : Loading)
    → ((r : ℕ) → r < i + left → IsRow (line_at lines r))
    → ((r : ℕ) → r < i + left → IsPlain (text (line_at lines r)))
    → IsLoading l
    → l.lcount ≡ i + 1
    → i + left < max_lines
    → LinesRead left i lines l.lines (load_chars (saved_bytes left i lines) l)
unfolding load_chars
LinesRead-load_chars zero i lines l rows plain ok count more = record {
  valid = ok;
  lcount = omega arith;
  here = λ j le lt. absurd (omega arith);
  above = λ j lt. refl;
}
LinesRead-load_chars (suc left) i lines l rows plain ok count more =
    let t = text (line_at lines i) in
    let bytes = saved_bytes left (i + 1) lines in
    let ends = (rows i (omega arith)).ends in
    let one =
      LineRead-load_chars i t l ok (plain i (omega arith)) count (omega arith)
        (omega (arith, strlen-eq-length (line_at lines i))) in
    let l' = load_chars (t ++ 10 ∷ []) l in
    let rest =
      LinesRead-load_chars left (i + 1) lines l' (λ r lt. rows r (omega arith))
        (λ r lt. plain r (omega arith)) one.valid (omega (arith, one.lcount)) (omega arith) in
    let split : load_chars (saved_bytes (suc left) i lines) l ≡ load_chars bytes l' =
      ap (λ b. load_chars b l) (sym (append_assoc t (10 ∷ []) bytes))
      ∙ load_chars-append (t ++ 10 ∷ []) bytes l in
    rw split (record {
      valid = rest.valid;
      lcount = omega (arith, rest.lcount);
      here = λ j le lt. elim (dec_lt i j) [
        | yes later ↦ rest.here j (omega arith) (omega arith)
        | no first ↦
            let at : j ≡ i = omega arith in rw at (ap text (rest.above i (omega arith)) ∙ one.here)
      ];
      above = λ j lt. rest.above j (omega arith) ∙ one.above j lt;
    })
