-- ===== src/Editors/Document/Flat.antt =====
-- nano's buffer in kernel/shell/editors.c as one text with a cursor in it.
use rtjn_kernel.Prelude.{
  ℕ, suc, ◌+◌, ◌-◌, ◌≤◌, ◌<◌, ◌≡◌, ◌≢◌, refl, ap, arith, List, [], ◌∷◌, get_or, length, ◌∙◌, take,
  drop, ◌++◌, append_assoc, sym, min, get_or-set_self,
}
use rtjn_kernel.Text.{text}
use rtjn_kernel.Text.Copy.{strlen-eq-length}
use rtjn_kernel.Editors.Rows.{get_or-text}
use rtjn_kernel.Editors.Document.Line.{text-widened, text-narrowed}
use rtjn_kernel.Editors.Document.{
  Document, max_col, line_at, line_len, typed, erased, widened, narrowed,
}
use rtjn_kernel.Editors.Document.Valid.{IsDocument}
use rtjn_kernel.Editors.Rows.{take-set, drop-set, take_snoc, take_at, drop_at, take_past, drop_past}

-- The texts of whole lines in front of the cursor and behind it, with the newlines (10) between.
abbrev pub lines_above : List (List ℕ) → List ℕ
lines_above [] = []
lines_above (r ∷ rs) = text r ++ 10 ∷ lines_above rs

abbrev pub lines_below : List (List ℕ) → List ℕ
lines_below [] = []
lines_below (r ∷ rs) = 10 ∷ text r ++ lines_below rs

abbrev pub in_front : Document → List ℕ
in_front d = lines_above (take d.row d.lines) ++ take d.col (text (line_at d.lines d.row))

abbrev pub rest_of : Document → List (List ℕ)
rest_of d = take (d.lcount - (d.row + 1)) (drop (d.row + 1) d.lines)

abbrev pub behind : Document → List ℕ
behind d = drop d.col (text (line_at d.lines d.row)) ++ lines_below (rest_of d)

pub lines_above_snoc :
    (rs : List (List ℕ)) (r : List ℕ)
    → lines_above (rs ++ r ∷ []) ≡ lines_above rs ++ text r ++ 10 ∷ []
lines_above_snoc [] r = refl
lines_above_snoc (x ∷ rs) r = simp (lines_above_snoc rs r, append_assoc)

-- Typing puts the byte in front of the cursor.
module _ (ch : ℕ) (d : Document) (nz : ch ≢ 0) (ok : IsDocument d)
    (room : line_len d d.row < max_col - 1) where
  line_at-typed : line_at (typed ch d).lines d.row ≡ widened (line_at d.lines d.row) d.col ch
  line_at-typed =
      let size = ok.size in
      let lcount_le = ok.lcount_le in
      let row_lt = ok.row_lt in
      get_or-set_self d.lines d.row (widened (line_at d.lines d.row) d.col ch) [] (omega arith)

  text-typed :
      text (line_at (typed ch d).lines d.row)
      ≡ (let t = text (line_at d.lines d.row) in take d.col t ++ ch ∷ drop d.col t)
  text-typed =
      let lcount_le = ok.lcount_le in
      let row_lt = ok.row_lt in
      let long = (ok.rows d.row (omega arith)).size in
      ap text line_at-typed
      ∙ text-widened (line_at d.lines d.row) d.col ch ok.col_le (omega arith) nz

  pub in_front-typed : in_front (typed ch d) ≡ in_front d ++ ch ∷ []
  in_front-typed =
      let col_le = ok.col_le in
      let t = text (line_at d.lines d.row) in
      let short : d.col ≤ length t = omega (arith, strlen-eq-length (line_at d.lines d.row)) in
      let at : min (d.col + 1) (max_col - 1) ≡ suc d.col = omega arith in
      rw
        (
          take-set d.row d.lines (widened (line_at d.lines d.row) d.col ch),
          at,
          text-typed,
          take_past d.col t (drop d.col t) ch short,
        )
        (sym (append_assoc (lines_above (take d.row d.lines)) (take d.col t) (ch ∷ [])))

  pub behind-typed : behind (typed ch d) ≡ behind d
  behind-typed =
      let col_le = ok.col_le in
      let t = text (line_at d.lines d.row) in
      let short : d.col ≤ length t = omega (arith, strlen-eq-length (line_at d.lines d.row)) in
      let at : min (d.col + 1) (max_col - 1) ≡ suc d.col = omega arith in
      let next : d.row + 1 ≡ suc d.row = omega arith in
      rw
        (
          next,
          drop-set d.row d.lines (widened (line_at d.lines d.row) d.col ch),
          at,
          text-typed,
          drop_past d.col t (drop d.col t) ch short,
        )
        refl

-- Erasing in a line takes the byte in front of the cursor.
module _ (d : Document) (ok : IsDocument d) (pos : 0 < d.col) where
  text-erased :
      text (line_at (erased d).lines d.row)
      ≡ (let t = text (line_at d.lines d.row) in take (d.col - 1) t ++ drop (suc (d.col - 1)) t)
  text-erased =
      let size = ok.size in
      let lcount_le = ok.lcount_le in
      let row_lt = ok.row_lt in
      let row = ok.rows d.row (omega arith) in
      let long = row.size in
      let ends = row.ends in
      let line = line_at d.lines d.row in
      ap text (get_or-set_self d.lines d.row (narrowed line d.col) [] (omega arith))
      ∙ text-narrowed line d.col pos ok.col_le (omega arith)

  pub in_front-erased :
      in_front d ≡ in_front (erased d) ++ get_or (line_at d.lines d.row) (d.col - 1) 0 ∷ []
  in_front-erased =
      let col_le = ok.col_le in
      let line = line_at d.lines d.row in
      let t = text line in
      let short : d.col ≤ length t = omega (arith, strlen-eq-length line) in
      let col : d.col ≡ suc (d.col - 1) = omega arith in
      let last : get_or t (d.col - 1) 0 ≡ get_or line (d.col - 1) 0 =
        ground (arith, get_or-text line (d.col - 1)) in
      let cut : take d.col t ≡ take (d.col - 1) t ++ get_or line (d.col - 1) 0 ∷ [] =
        ap (λ n. take n t) col
        ∙ take_snoc (d.col - 1) t 0 (omega arith)
        ∙ ap (λ c. take (d.col - 1) t ++ c ∷ []) last in
      rw
        (
          take-set d.row d.lines (narrowed line d.col),
          text-erased,
          take_at (d.col - 1) t (drop (suc (d.col - 1)) t) (omega arith),
          cut,
        )
        (sym (
          append_assoc (lines_above (take d.row d.lines)) (take (d.col - 1) t)
            (get_or line (d.col - 1) 0 ∷ [])))

  pub behind-erased : behind (erased d) ≡ behind d
  behind-erased =
      let col_le = ok.col_le in
      let line = line_at d.lines d.row in
      let t = text line in
      let short : d.col ≤ length t = omega (arith, strlen-eq-length line) in
      let col : suc (d.col - 1) ≡ d.col = omega arith in
      let next : d.row + 1 ≡ suc d.row = omega arith in
      rw
        (
          next,
          drop-set d.row d.lines (narrowed line d.col),
          text-erased,
          drop_at (d.col - 1) t (drop (suc (d.col - 1)) t) (omega arith),
          col,
        )
        refl
