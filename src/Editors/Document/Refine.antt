-- ===== src/Editors/Document/Refine.antt =====
-- The editing keys of kernel/shell/editors.c on one text with a cursor in it.
use rtjn_kernel.Prelude.{
  ℕ, ◌+◌, ◌-◌, ◌≤◌, ◌<◌, ◌≡◌, ◌≢◌, refl, arith, List, [], ◌∷◌, ltb, leb, if_intro, get_or, take,
  ◌++◌, ltb→lt, leb→le,
}
use rtjn_kernel.Text.{text}
use rtjn_kernel.Editors.Document.{
  Document, max_lines, max_col, line_at, line_len, typed, insert_char, erased, joined, backspace,
  broken, newline, merge_room,
}
use rtjn_kernel.Editors.Document.Valid.{IsDocument}
use rtjn_kernel.Editors.Document.Flat.{in_front, behind}
use rtjn_kernel.Editors.Document.Flat.{in_front-typed, behind-typed, in_front-erased, behind-erased}
use rtjn_kernel.Editors.Document.Break.{in_front-broken, behind-broken}
use rtjn_kernel.Editors.Document.Join.{join, in_front-at_start, in_front-joined, behind-joined}

-- The byte goes in front of the cursor, or the line is full and nothing changes.
pub data Typed (ch : ℕ) (d : Document) : Document → Type 0 where
  full : max_col ≤ line_len d d.row + 1 → Typed ch d d
  put :
      (d' : Document)
      → line_len d d.row + 1 < max_col
      → in_front d' ≡ in_front d ++ ch ∷ []
      → behind d' ≡ behind d
      → Typed ch d d'

-- Read as one text with a cursor in it, nano_insert_char on a valid buffer puts the byte, which
-- is not zero, in front of the cursor and leaves what is behind it; or the line has 159 bytes
-- and nothing changes.
pub insert_char-Typed :
    (ch : ℕ) (d : Document) → ch ≢ 0 → IsDocument d → Typed ch d (insert_char ch d)
unfolding insert_char
insert_char-Typed ch d nz ok =
    if_intro (Typed ch d) (leb (max_col - 1) (line_len d d.row)) (λ t. full (ground arith))
      (λ f.
        let room : line_len d d.row < max_col - 1 = ground arith in
        put (typed ch d) (omega arith) (in_front-typed ch d nz ok room)
          (behind-typed ch d nz ok room))

-- A newline goes in front of the cursor, or the buffer is full and nothing changes.
pub data Broken (d : Document) : Document → Type 0 where
  full : max_lines ≤ d.lcount → Broken d d
  split :
      (d' : Document)
      → d.lcount < max_lines
      → in_front d' ≡ in_front d ++ 10 ∷ []
      → behind d' ≡ behind d
      → Broken d d'

-- Read as one text with a cursor in it, nano_newline on a valid buffer puts a newline in front
-- of the cursor and leaves what is behind it; or the buffer has 512 lines and nothing changes.
pub newline-Broken : (d : Document) → IsDocument d → Broken d (newline d)
unfolding newline
newline-Broken d ok =
    if_intro (Broken d) (leb max_lines d.lcount) (λ t. full (leb→le max_lines d.lcount t))
      (λ f.
        let room : d.lcount < max_lines = ground arith in
        split (broken d) room (in_front-broken d ok room) (behind-broken d ok room))

-- At the start of the text nothing happens. In a line, the byte in front of the cursor goes. At the
-- start of a line the newline in front of it goes; the line above takes what it has room for of
-- the line, and the cursor stands behind that.
pub data Erased (d : Document) : Document → Type 0 where
  at_start : d.row ≡ 0 → d.col ≡ 0 → Erased d d
  byte :
      (d' : Document) (c : ℕ)
      → 0 < d.col
      → in_front d ≡ in_front d' ++ c ∷ []
      → behind d' ≡ behind d
      → Erased d d'
  newline_gone :
      (d' : Document) (above line : List ℕ)
      → d.col ≡ 0
      → line ≡ text (line_at d.lines d.row)
      → in_front d ≡ above ++ 10 ∷ []
      → behind d ≡ line ++ behind d'
      → in_front d'
        ≡ above ++ take (merge_room (line_at d.lines (d.row - 1)) (line_at d.lines d.row)) line
      → Erased d d'

-- Read as one text with a cursor in it, nano_backspace on a valid buffer takes the byte in front
-- of the cursor and leaves what is behind it; at the start of a line it takes the newline, the
-- line above gets as much of the line as it has room for, up to where the cursor then stands,
-- and the lines below stay behind the cursor; at the start of the text nothing changes.
pub backspace-Erased : (d : Document) → IsDocument d → Erased d (backspace d)
unfolding backspace
backspace-Erased d ok =
    if_intro (Erased d) (ltb 0 d.col)
      (λ t.
        let more = ltb→lt 0 d.col t in
        byte (erased d) (get_or (line_at d.lines d.row) (d.col - 1) 0) more
          (in_front-erased d ok more) (behind-erased d ok more))
      (λ f.
        let start : d.col ≡ 0 = ground arith in
        if_intro (Erased d) (ltb 0 d.row)
          (λ t.
            let more = ltb→lt 0 d.row t in
            newline_gone (joined d) (join d) (text (line_at d.lines d.row)) start refl
              (in_front-at_start d ok more start) (behind-joined d ok more start)
              (in_front-joined d ok more))
          (λ f. at_start (ground arith) start))
