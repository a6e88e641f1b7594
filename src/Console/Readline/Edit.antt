-- ===== src/Console/Readline/Edit.antt =====
-- The edits of kernel/shell/readline.c against a text with a cursor in it.
use rtjn_kernel.Prelude.{
  ℕ, ◌+◌, ◌-◌, ◌≤◌, ◌<◌, ◌≡◌, ap, ◌∙◌, arith, List, [], ◌∷◌, ◌++◌, get_or, set, take, drop, length,
  length-set, length-append, length-take, length-drop, get_or-set, get_or-take, get_or-drop,
  get_or-append, get_or-cons, eq_of_get_or,
}
use rtjn_kernel.Text.{memmove}
use rtjn_kernel.Text.Move.{length-memmove, get_or-memmove}
use rtjn_kernel.Console.Readline.{Line, inserted, removed}

-- The text in front of the cursor and behind it: what the editor promises.
abbrev pub before : Line → List ℕ
before l = take l.pos l.buf

abbrev pub behind : Line → List ℕ
behind l = take (l.len - l.pos) (drop l.pos l.buf)

-- The buffer has `size` bytes, room for a terminator, and the cursor is in the text.
pub record IsLine (size : ℕ) (l : Line) : Type 0 where
  pub room : length l.buf ≡ size
  pub len_lt : l.len < size
  pub pos_le : l.pos ≤ l.len

pub before-inserted :
    (size c : ℕ) (l : Line)
    → IsLine size l
    → l.len + 1 < size
    → before (inserted c l) ≡ before l ++ c ∷ []
before-inserted size c l ok h =
    let room = ok.room in
    let pos_le = ok.pos_le in
    let moved = memmove l.buf (l.pos + 1) l.pos (l.len - l.pos + 1) in
    let same = length-memmove l.buf (l.pos + 1) l.pos (l.len - l.pos + 1) in
    eq_of_get_or _ _ 0
      (omega (
        arith,
        length-take (l.pos + 1) (set moved l.pos c),
        length-set moved l.pos c,
        length-append (take l.pos l.buf) (c ∷ []),
        length-take l.pos l.buf,
      ))
      (λ j lt. ground (
        arith,
        length-take (l.pos + 1) (set moved l.pos c),
        length-take l.pos l.buf,
        get_or-take (l.pos + 1) (set moved l.pos c) j 0,
        get_or-set moved l.pos j c 0 (omega arith),
        get_or-memmove l.buf (l.pos + 1) l.pos (l.len - l.pos + 1) j (omega arith),
        get_or-append (take l.pos l.buf) (c ∷ []) j 0,
        get_or-take l.pos l.buf j 0,
        get_or-cons c [] (j - length (take l.pos l.buf)) 0,
      ))

pub behind-inserted :
    (size c : ℕ) (l : Line) → IsLine size l → l.len + 1 < size → behind (inserted c l) ≡ behind l
behind-inserted size c l ok h =
    let room = ok.room in
    let pos_le = ok.pos_le in
    let moved = memmove l.buf (l.pos + 1) l.pos (l.len - l.pos + 1) in
    let same = length-memmove l.buf (l.pos + 1) l.pos (l.len - l.pos + 1) in
    eq_of_get_or _ _ 0
      (omega (
        arith,
        length-take (l.len + 1 - (l.pos + 1)) (drop (l.pos + 1) (set moved l.pos c)),
        length-drop (l.pos + 1) (set moved l.pos c),
        length-set moved l.pos c,
        length-take (l.len - l.pos) (drop l.pos l.buf),
        length-drop l.pos l.buf,
      ))
      (λ j lt. ground (
        arith,
        length-take (l.len + 1 - (l.pos + 1)) (drop (l.pos + 1) (set moved l.pos c)),
        get_or-take (l.len + 1 - (l.pos + 1)) (drop (l.pos + 1) (set moved l.pos c)) j 0,
        get_or-drop (l.pos + 1) (set moved l.pos c) j 0,
        get_or-set moved l.pos (l.pos + 1 + j) c 0 (omega arith),
        get_or-memmove l.buf (l.pos + 1) l.pos (l.len - l.pos + 1) (l.pos + 1 + j) (omega arith),
        get_or-take (l.len - l.pos) (drop l.pos l.buf) j 0,
        get_or-drop l.pos l.buf j 0,
        ap (λ i. get_or l.buf i 0)
            (let at : l.pos + (l.pos + 1 + j - (l.pos + 1)) ≡ l.pos + j = omega arith in at),
      ))

pub before-removed :
    (size start : ℕ) (l : Line)
    → IsLine size l
    → start ≤ l.pos
    → before (removed start l) ≡ take start (before l)
before-removed size start l ok h =
    let room = ok.room in
    let len_lt = ok.len_lt in
    let pos_le = ok.pos_le in
    let moved = memmove l.buf start l.pos (l.len - l.pos + 1) in
    let same = length-memmove l.buf start l.pos (l.len - l.pos + 1) in
    eq_of_get_or _ _ 0
      (omega (
        arith,
        length-take start moved,
        length-take start (take l.pos l.buf),
        length-take l.pos l.buf,
      ))
      (λ j lt. ground (
        arith,
        length-take start moved,
        get_or-take start moved j 0,
        get_or-memmove l.buf start l.pos (l.len - l.pos + 1) j (omega arith),
        get_or-take start (take l.pos l.buf) j 0,
        get_or-take l.pos l.buf j 0,
      ))

pub behind-removed :
    (size start : ℕ) (l : Line)
    → IsLine size l
    → start ≤ l.pos
    → behind (removed start l) ≡ behind l
behind-removed size start l ok h =
    let room = ok.room in
    let len_lt = ok.len_lt in
    let pos_le = ok.pos_le in
    let moved = memmove l.buf start l.pos (l.len - l.pos + 1) in
    let left = l.len - (l.pos - start) - start in
    let same = length-memmove l.buf start l.pos (l.len - l.pos + 1) in
    eq_of_get_or _ _ 0
      (omega (
        arith,
        length-take left (drop start moved),
        length-drop start moved,
        length-take (l.len - l.pos) (drop l.pos l.buf),
        length-drop l.pos l.buf,
      ))
      (λ j lt.
        let place : l.pos + (start + j - start) ≡ l.pos + j = omega arith in
        ground (
          arith,
          length-take left (drop start moved),
          get_or-take left (drop start moved) j 0,
          get_or-drop start moved j 0,
          get_or-memmove l.buf start l.pos (l.len - l.pos + 1) (start + j) (omega arith),
          get_or-take (l.len - l.pos) (drop l.pos l.buf) j 0,
          get_or-drop l.pos l.buf j 0,
          ap (λ i. get_or l.buf i 0) place,
        ))

pub IsLine-removed :
    (size start : ℕ) (l : Line) → IsLine size l → start ≤ l.pos → IsLine size (removed start l)
IsLine-removed size start l ok h =
    let len_lt = ok.len_lt in
    let pos_le = ok.pos_le in
    record {
      room = length-memmove l.buf start l.pos (l.len - l.pos + 1) ∙ ok.room;
      len_lt = omega arith;
      pos_le = omega arith;
    }
