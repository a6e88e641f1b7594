-- ===== src/Editors/Document/Break.antt =====
-- A new line in kernel/shell/editors.c: the text is broken at the cursor.
use rtjn_kernel.Prelude.{
  ℕ, ◌+◌, ◌-◌, ◌<◌, ◌≡◌, refl, ap, arith, [], ◌∷◌, ◌&&◌, ltb, leb, ◌==◌, if◌then◌else◌, set, length,
  length-set, get_or-set, ◌∙◌, take, drop, ◌++◌, append-nil, length-append, length-take,
  length-drop, get_or-take, get_or-drop, get_or-append, get_or-cons, eq_of_get_or,
}
use rtjn_kernel.Editors.Rows.{length-shift_up, get_or-shift_up}
use rtjn_kernel.Editors.Document.Line.{text-cut, text-split_tail}
use rtjn_kernel.Editors.Document.{Document, max_lines, line_at, broken, with_room, split_tail}
use rtjn_kernel.Editors.Document.Valid.{IsDocument}
use rtjn_kernel.Editors.Document.Keep.{AllRows-shift_up}
use rtjn_kernel.Editors.Document.Flat.{in_front, rest_of, behind, lines_above_snoc}

module _ (d : Document) (ok : IsDocument d) (room : d.lcount < max_lines) where
  -- The lines after the break, place by place.
  line_at-broken :
      (j : ℕ)
      → line_at (broken d).lines j ≡ (
          let line = line_at d.lines d.row in
          let moved = with_room d.lines d.lcount (d.row + 1) in
          if d.row == j
          then set line d.col 0
          else if d.row + 1 == j
          then split_tail line d.col (line_at moved (d.row + 1))
          else if ltb (d.row + 1) j && leb j d.lcount
          then line_at d.lines (j - 1)
          else line_at d.lines j)
  line_at-broken j =
      let size = ok.size in
      let row_lt = ok.row_lt in
      let n = d.lcount - (d.row + 1) in
      let line = line_at d.lines d.row in
      let moved = with_room d.lines d.lcount (d.row + 1) in
      let shifted = length-shift_up n (d.row + 1) d.lines [] in
      let below = split_tail line d.col (line_at moved (d.row + 1)) in
      let kept = length-set moved (d.row + 1) below in
      ground (
        arith,
        get_or-set (set moved (d.row + 1) below) d.row j (set line d.col 0) [] (omega arith),
        get_or-set moved (d.row + 1) j below [] (omega arith),
        get_or-shift_up n (d.row + 1) d.lines [] j (omega arith),
      )

  length-broken : length (broken d).lines ≡ length d.lines
  length-broken =
      let line = line_at d.lines d.row in
      let moved = with_room d.lines d.lcount (d.row + 1) in
      let below = split_tail line d.col (line_at moved (d.row + 1)) in
      length-set (set moved (d.row + 1) below) d.row (set line d.col 0)
      ∙ length-set moved (d.row + 1) below
      ∙ length-shift_up (d.lcount - (d.row + 1)) (d.row + 1) d.lines []

  above-broken :
      take (d.row + 1) (broken d).lines
      ≡ take d.row d.lines ++ set (line_at d.lines d.row) d.col 0 ∷ []
  above-broken =
      let size = ok.size in
      let row_lt = ok.row_lt in
      let cut = set (line_at d.lines d.row) d.col 0 in
      let short = length-take d.row d.lines in
      eq_of_get_or _ _ []
        (omega (
          arith,
          length-take (d.row + 1) (broken d).lines,
          length-broken,
          length-append (take d.row d.lines) (cut ∷ []),
        ))
        (λ j lt. ground (
          arith,
          length-take (d.row + 1) (broken d).lines,
          get_or-take (d.row + 1) (broken d).lines j [],
          line_at-broken j,
          get_or-append (take d.row d.lines) (cut ∷ []) j [],
          get_or-take d.row d.lines j [],
          get_or-cons cut [] (j - length (take d.row d.lines)) [],
        ))

  rest_of-broken : rest_of (broken d) ≡ rest_of d
  rest_of-broken =
      let size = ok.size in
      let row_lt = ok.row_lt in
      let new = drop (d.row + 1 + 1) (broken d).lines in
      let old = drop (d.row + 1) d.lines in
      let n = d.lcount + 1 - (d.row + 1 + 1) in
      let m = d.lcount - (d.row + 1) in
      eq_of_get_or _ _ []
        (omega (
          arith,
          length-take n new,
          length-take m old,
          length-drop (d.row + 1 + 1) (broken d).lines,
          length-drop (d.row + 1) d.lines,
          length-broken,
        ))
        (λ j lt. ground (
          arith,
          length-take n new,
          get_or-take n new j [],
          get_or-take m old j [],
          get_or-drop (d.row + 1 + 1) (broken d).lines j [],
          get_or-drop (d.row + 1) d.lines j [],
          line_at-broken (d.row + 1 + 1 + j),
          ap (line_at d.lines) (let at : d.row + 1 + 1 + j - 1 ≡ d.row + 1 + j = omega arith in at),
        ))

  pub in_front-broken : in_front (broken d) ≡ in_front d ++ 10 ∷ []
  in_front-broken =
      let lcount_le = ok.lcount_le in
      let row_lt = ok.row_lt in
      let row = ok.rows d.row (omega arith) in
      let long = row.size in
      let ends = row.ends in
      let line = line_at d.lines d.row in
      rw
        (
          append-nil,
          above-broken,
          lines_above_snoc (take d.row d.lines) (set line d.col 0),
          text-cut line d.col ok.col_le (omega arith),
        )
        refl

  pub behind-broken : behind (broken d) ≡ behind d
  behind-broken =
      let lcount_le = ok.lcount_le in
      let row_lt = ok.row_lt in
      let size = ok.size in
      let line = line_at d.lines d.row in
      let row = ok.rows d.row (omega arith) in
      let all =
        AllRows-shift_up d.lines ok.size ok.rows (d.lcount - (d.row + 1)) (d.row + 1)
          (omega arith) in
      let blank = line_at (with_room d.lines d.lcount (d.row + 1)) (d.row + 1) in
      let at : line_at (broken d).lines (d.row + 1) ≡ split_tail line d.col blank =
        ground (arith, line_at-broken (d.row + 1)) in
      rw
        (
          at,
          rest_of-broken,
          text-split_tail line d.col blank ok.col_le row.ends (all (d.row + 1) (omega arith)).size,
        )
        refl
