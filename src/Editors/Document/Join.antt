-- ===== src/Editors/Document/Join.antt =====
-- Erasing at the start of a line in kernel/shell/editors.c: it is joined to the line above.
use rtjn_kernel.Prelude.{
  ℕ, suc, ◌+◌, ◌-◌, ◌<◌, ◌≡◌, refl, ap, arith, List, [], ◌∷◌, set, length, length-set, get_or-set,
  ◌∙◌, take, drop, ◌++◌, append_assoc, append-nil, sym, length-append, length-take, length-drop,
  get_or-take, get_or-drop, eq_of_get_or,
}
use rtjn_kernel.Text.{text}
use rtjn_kernel.Text.Copy.{strlen-eq-length}
use rtjn_kernel.Editors.Rows.{length-shift_down, get_or-shift_down}
use rtjn_kernel.Editors.Document.Line.{text-merged}
use rtjn_kernel.Editors.Document.{Document, line_at, joined, merged, merge_room}
use rtjn_kernel.Editors.Document.Valid.{IsDocument}
use rtjn_kernel.Editors.Rows.{take_snoc, take_all, drop_all}
use rtjn_kernel.Editors.Document.Keep.{line_at-joined}
use rtjn_kernel.Editors.Document.Flat.{lines_above, in_front, rest_of, behind, lines_above_snoc}

module _ (d : Document) where
  -- What the line gives to the line above.
  abbrev pub given : List ℕ
  given =
      take (merge_room (line_at d.lines (d.row - 1)) (line_at d.lines d.row))
        (text (line_at d.lines d.row))

  -- What stands in front of the newline that goes.
  abbrev pub join : List ℕ
  join = lines_above (take (d.row - 1) d.lines) ++ text (line_at d.lines (d.row - 1))

module _ (d : Document) (ok : IsDocument d) (pos : 0 < d.row) where
  above-joined : take (d.row - 1) (joined d).lines ≡ take (d.row - 1) d.lines
  above-joined =
      let size = ok.size in
      let lcount_le = ok.lcount_le in
      let row_lt = ok.row_lt in
      let prev = line_at d.lines (d.row - 1) in
      let line = line_at d.lines d.row in
      let one = merged prev line (merge_room prev line) in
      let lines = set d.lines (d.row - 1) one in
      let same = length-set d.lines (d.row - 1) one in
      let n = d.lcount - 1 - d.row in
      eq_of_get_or _ _ []
        (omega (
          arith,
          length-take (d.row - 1) (joined d).lines,
          length-take (d.row - 1) d.lines,
          length-shift_down n d.row lines [],
        ))
        (λ j lt. ground (
          arith,
          length-take (d.row - 1) (joined d).lines,
          get_or-take (d.row - 1) (joined d).lines j [],
          get_or-take (d.row - 1) d.lines j [],
          get_or-shift_down n d.row lines [] j (omega arith),
          get_or-set d.lines (d.row - 1) j one [] (omega arith),
        ))

  rest_of-joined : rest_of (joined d) ≡ rest_of d
  rest_of-joined =
      let size = ok.size in
      let lcount_le = ok.lcount_le in
      let row_lt = ok.row_lt in
      let prev = line_at d.lines (d.row - 1) in
      let line = line_at d.lines d.row in
      let one = merged prev line (merge_room prev line) in
      let lines = set d.lines (d.row - 1) one in
      let same = length-set d.lines (d.row - 1) one in
      let n = d.lcount - 1 - d.row in
      let m = d.lcount - 1 - (d.row - 1 + 1) in
      let new = drop (d.row - 1 + 1) (joined d).lines in
      let old = drop (d.row + 1) d.lines in
      eq_of_get_or _ _ []
        (omega (
          arith,
          length-take m new,
          length-take (d.lcount - (d.row + 1)) old,
          length-drop (d.row - 1 + 1) (joined d).lines,
          length-drop (d.row + 1) d.lines,
          length-shift_down n d.row lines [],
        ))
        (λ j lt. ground (
          arith,
          length-take m new,
          get_or-take m new j [],
          get_or-take (d.lcount - (d.row + 1)) old j [],
          get_or-drop (d.row - 1 + 1) (joined d).lines j [],
          get_or-drop (d.row + 1) d.lines j [],
          get_or-shift_down n d.row lines [] (d.row - 1 + 1 + j) (omega arith),
          get_or-set d.lines (d.row - 1) (d.row - 1 + 1 + j + 1) one [] (omega arith),
          ap (line_at d.lines) (let at : d.row - 1 + 1 + j + 1 ≡ d.row + 1 + j = omega arith in at),
        ))

  text-joined :
      text (line_at (joined d).lines (d.row - 1)) ≡ text (line_at d.lines (d.row - 1)) ++ given d
  text-joined =
      let lcount_le = ok.lcount_le in
      let row_lt = ok.row_lt in
      let above = ok.rows (d.row - 1) (omega arith) in
      rw (line_at-joined d ok pos)
        (text-merged (line_at d.lines (d.row - 1)) (line_at d.lines d.row) above.ends above.size)

  length-text-joined : (joined d).col ≡ length (text (line_at d.lines (d.row - 1)) ++ given d)
  length-text-joined =
      let lcount_le = ok.lcount_le in
      let row_lt = ok.row_lt in
      let above = ok.rows (d.row - 1) (omega arith) in
      let ends = above.ends in
      let prev = line_at d.lines (d.row - 1) in
      let line = line_at d.lines d.row in
      omega (
        arith,
        strlen-eq-length prev,
        strlen-eq-length line,
        length-append (text prev) (given d),
        length-take (merge_room prev line) (text line),
      )

  pub in_front-joined : in_front (joined d) ≡ join d ++ given d
  in_front-joined =
      let t = text (line_at d.lines (d.row - 1)) ++ given d in
      rw (above-joined, text-joined, length-text-joined, take_all (length t) t (omega arith))
        (sym (
          append_assoc (lines_above (take (d.row - 1) d.lines)) (text (line_at d.lines (d.row - 1)))
            (given d)))

  -- At the start of a line.
  module _ (start : d.col ≡ 0) where
    pub in_front-at_start : in_front d ≡ join d ++ 10 ∷ []
    in_front-at_start =
        let size = ok.size in
        let lcount_le = ok.lcount_le in
        let row_lt = ok.row_lt in
        let at : d.row ≡ suc (d.row - 1) = omega arith in
        let above : take d.row d.lines
            ≡ take (d.row - 1) d.lines ++ line_at d.lines (d.row - 1) ∷ [] =
          ap (λ n. take n d.lines) at ∙ take_snoc (d.row - 1) d.lines [] (omega arith) in
        rw
          (
            start,
            append-nil,
            above,
            lines_above_snoc (take (d.row - 1) d.lines) (line_at d.lines (d.row - 1)),
          )
          refl

    pub behind-joined : behind d ≡ text (line_at d.lines d.row) ++ behind (joined d)
    behind-joined =
        let t = text (line_at d.lines (d.row - 1)) ++ given d in
        rw
          (
            start,
            rest_of-joined,
            text-joined,
            length-text-joined,
            drop_all (length t) t (omega arith),
          )
          refl
