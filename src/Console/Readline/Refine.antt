-- ===== src/Console/Readline/Refine.antt =====
-- Each edit of kernel/shell/readline.c as an edit of the text in front of and behind the cursor.
pub mod Word
use rtjn_kernel.Prelude.{
  ℕ, zero, suc, ◌+◌, ◌-◌, ◌≤◌, ◌<◌, ◌≡◌, ◌≢◌, refl, sym, ap, ◌∙◌, arith, List, [], ◌∷◌, ◌++◌, false,
  if_intro, ltb, leb, ltb→lt, leb→le, ◌==◌, ◌!=◌, ==→≡, ==→≢, get_or, take, length-set, ◌⊎◌, inl,
  inr,
}
use native.Mathlib.Decide.{dec_lt}
use rtjn_kernel.Text.{memmove}
use rtjn_kernel.Text.Move.{length-memmove}
use rtjn_kernel.Console.Readline.{
  Line, inserted, removed, redraw, insert_char, backspace_at, skip_spaces, skip_word, delete_word,
  cursor_left, cursor_right,
}
use rtjn_kernel.Console.Readline.Edit.{
  before, behind, IsLine, before-inserted, behind-inserted, before-removed, behind-removed,
  IsLine-removed,
}

-- What an edit makes of the text, and that the line stays one.
abbrev pub Edited : ℕ → List ℕ → List ℕ → Line → Type 0
Edited size front back l = (before l ≡ front) × (behind l ≡ back) × IsLine size l

IsLine-inserted :
    (size c : ℕ) (l : Line) → IsLine size l → l.len + 1 < size → IsLine size (inserted c l)
IsLine-inserted size c l ok h =
    let pos_le = ok.pos_le in
    let moved = memmove l.buf (l.pos + 1) l.pos (l.len - l.pos + 1) in
    record {
      room =
          length-set moved l.pos c
          ∙ length-memmove l.buf (l.pos + 1) l.pos (l.len - l.pos + 1)
          ∙ ok.room;
      len_lt = h;
      pos_le = omega arith;
    }

Edited-redraw :
    (size k old : ℕ) (front back : List ℕ) (l : Line)
    → Edited size front back l
    → Edited size front back (redraw k old l)
Edited-redraw size k old front back l (e1, e2, ok) =
    (e1, e2, record { room = ok.room; len_lt = ok.len_lt; pos_le = ok.pos_le })

-- On a line inside its buffer, insert_char puts the character in front of the cursor while there
-- is room for it and a terminator, and otherwise leaves the line alone.
pub insert_char-Edited :
    (size c : ℕ) (l : Line)
    → IsLine size l
    → (l.len + 1 < size) × Edited size (before l ++ c ∷ []) (behind l) (insert_char size c l)
      ⊎ (size ≤ l.len + 1) × (insert_char size c l ≡ l)
unfolding insert_char
insert_char-Edited size c l ok =
    if_intro
      (λ (u : Line).
        (l.len + 1 < size) × Edited size (before l ++ c ∷ []) (behind l) u
        ⊎ (size ≤ l.len + 1) × (u ≡ l))
      (leb size (l.len + 1)) (λ t. inr (leb→le size (l.len + 1) t, refl))
      (λ f.
        let h : l.len + 1 < size = ground arith in
        inl (
          h,
          Edited-redraw size l.pos 0 (before l ++ c ∷ []) (behind l) (inserted c l) (
            before-inserted size c l ok h,
            behind-inserted size c l ok h,
            IsLine-inserted size c l ok h,
          ),
        ))

-- What removing from `start` to the cursor makes of the text.
Edited-removed :
    (size start k old : ℕ) (l : Line)
    → IsLine size l
    → start ≤ l.pos
    → Edited size (take start (before l)) (behind l) (redraw k old (removed start l))
Edited-removed size start k old l ok h =
    Edited-redraw size k old (take start (before l)) (behind l) (removed start l) (
      before-removed size start l ok h,
      behind-removed size start l ok h,
      IsLine-removed size start l ok h,
    )

take_self : (n : ℕ) (xs : List ℕ) → take n (take n xs) ≡ take n xs
take_self zero xs = refl
take_self (suc n) [] = refl
take_self (suc n) (x ∷ xs) = ap (λ t. x ∷ t) (take_self n xs)

-- Nothing is removed where `start` is the cursor.
Edited-nothing :
    (size start : ℕ) (l : Line)
    → IsLine size l
    → start ≡ l.pos
    → Edited size (take start (before l)) (behind l) l
Edited-nothing size start l ok e = rw e (sym (take_self l.pos l.buf), refl, ok)

-- `backspace_at` takes the last character in front of the cursor; at the start it does
-- nothing.
pub backspace_at-Edited :
    (size : ℕ) (l : Line)
    → IsLine size l
    → Edited size (take (l.pos - 1) (before l)) (behind l) (backspace_at l)
unfolding backspace_at
backspace_at-Edited size l ok =
    if_intro (Edited size (take (l.pos - 1) (before l)) (behind l)) (l.pos == 0)
      (λ t. let start = ==→≡ l.pos 0 t in Edited-nothing size (l.pos - 1) l ok (omega arith))
      (λ _. Edited-removed size (l.pos - 1) (l.pos - 1) l.len l ok (omega arith))

-- The arrows move the cursor inside the text and change no byte of it.
pub cursor-IsLine :
    (size : ℕ) (l : Line)
    → IsLine size l
    → (IsLine size (cursor_left l) × ((cursor_left l).buf ≡ l.buf))
      × (IsLine size (cursor_right l) × ((cursor_right l).buf ≡ l.buf))
unfolding cursor_left cursor_right
cursor-IsLine size l ok =
    let room = ok.room in
    let len_lt = ok.len_lt in
    let pos_le = ok.pos_le in
    let Kept = λ (u : Line). IsLine size u × (u.buf ≡ l.buf) in
    (
      if_intro Kept (ltb 0 l.pos)
          (λ _. (record { room = room; len_lt = len_lt; pos_le = omega arith }, refl))
          (λ _. (ok, refl)),
      if_intro Kept (ltb l.pos l.len)
          (λ t.
            let lt = ltb→lt l.pos l.len t in
            (record { room = room; len_lt = len_lt; pos_le = omega arith }, refl))
          (λ _. (ok, refl)),
    )
