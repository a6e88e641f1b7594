-- ===== src/Console/Readline/Refine/Word.antt =====
-- `delete_word` of kernel/shell/readline.c.
use rtjn_kernel.Prelude.{
  ℕ, zero, suc, ◌-◌, ◌≤◌, ◌<◌, ◌≡◌, ◌≢◌, refl, ap, ◌∙◌, arith, List, false, if_intro, ◌==◌, ◌!=◌,
  ==→≡, ==→≢, get_or, take, ◌⊎◌, inl, inr,
}
use native.Mathlib.Decide.{dec_lt}
use rtjn_kernel.Console.Readline.{Line, skip_spaces, skip_word, delete_word}
use rtjn_kernel.Console.Readline.Edit.{before, behind, IsLine}
use rtjn_kernel.Console.Readline.Refine.{Edited, Edited-removed, Edited-nothing}

skip_spaces-le : (buf : List ℕ) (start : ℕ) → skip_spaces buf start ≤ start
unfolding skip_spaces
skip_spaces-le buf zero = omega arith
skip_spaces-le buf (suc start) = ground (arith, skip_spaces-le buf start)

space_of : (c : ℕ) → (c != 32) ≡ false → c ≡ 32
space_of c f = ground arith

-- The place where the word in front of `start` begins: no space lies between, and a space or
-- nothing in front.
skip_word-Begins :
    (buf : List ℕ) (start : ℕ)
    → (skip_word buf start ≤ start)
      × ((j : ℕ) → skip_word buf start ≤ j → j < start → get_or buf j 0 ≢ 32)
      × ((skip_word buf start ≡ 0) ⊎ (get_or buf (skip_word buf start - 1) 0 ≡ 32))
unfolding skip_word
skip_word-Begins buf zero = (omega arith, λ j lo hi. absurd (omega arith), inl refl)
skip_word-Begins buf (suc start) =
    let (le, word, front) = skip_word-Begins buf start in
    if_intro
      (λ r.
        (r ≤ suc start)
        × ((j : ℕ) → r ≤ j → j < suc start → get_or buf j 0 ≢ 32)
        × ((r ≡ 0) ⊎ (get_or buf (r - 1) 0 ≡ 32)))
      (get_or buf start 0 != 32)
      (λ t. (
        omega arith,
        λ j lo hi. elim (dec_lt j start) [
          | yes inner ↦ word j lo inner
          | no last ↦
              let same : j ≡ start = omega arith in
              let here : get_or buf start 0 ≢ 32 = ground arith in rw same here
        ],
        front,
      ))
      (λ f. (
        omega arith,
        λ j lo hi. absurd (omega arith),
        inr (
            ap (λ i. get_or buf i 0) (let e : suc start - 1 ≡ start = omega arith in e)
            ∙ space_of (get_or buf start 0) f),
      ))

-- The bytes from `skip_spaces` to `start` are spaces, and the byte in front of them is none.
skip_spaces-Begins :
    (buf : List ℕ) (start : ℕ)
    → ((j : ℕ) → skip_spaces buf start ≤ j → j < start → get_or buf j 0 ≡ 32)
      × ((skip_spaces buf start ≡ 0) ⊎ (get_or buf (skip_spaces buf start - 1) 0 ≢ 32))
unfolding skip_spaces
skip_spaces-Begins buf zero = (λ j lo hi. absurd (omega arith), inl refl)
skip_spaces-Begins buf (suc start) =
    let (spaces, front) = skip_spaces-Begins buf start in
    if_intro
      (λ r.
        ((j : ℕ) → r ≤ j → j < suc start → get_or buf j 0 ≡ 32)
        × ((r ≡ 0) ⊎ (get_or buf (r - 1) 0 ≢ 32)))
      (get_or buf start 0 == 32)
      (λ t. (
        λ j lo hi. elim (dec_lt j start) [
          | yes inner ↦ spaces j lo inner
          | no last ↦ let same : j ≡ start = omega arith in rw same (==→≡ (get_or buf start 0) 32 t)
        ],
        front,
      ))
      (λ f. (
        λ j lo hi. absurd (omega arith),
        inr (let e : suc start - 1 ≡ start = omega arith in rw e (==→≢ (get_or buf start 0) 32 f)),
      ))

-- What lies in front of the cursor at `pos`: a text up to `start` that is empty or ends in a space, a
-- word without a space from `start` to `mid`, and spaces from `mid` on. The word is empty only at the
-- start of the line.
pub record IsCut (buf : List ℕ) (start mid pos : ℕ) : Type 0 where
  pub start_le : start ≤ mid
  pub mid_le : mid ≤ pos
  pub front : (start ≡ 0) ⊎ (get_or buf (start - 1) 0 ≡ 32)
  pub word : (j : ℕ) → start ≤ j → j < mid → get_or buf j 0 ≢ 32
  pub spaces : (j : ℕ) → mid ≤ j → j < pos → get_or buf j 0 ≡ 32
  pub last : (mid ≡ 0) ⊎ (get_or buf (mid - 1) 0 ≢ 32)

-- On a line inside its buffer, delete_word takes all the spaces in front of the cursor and the
-- whole word in front of them: there are places start and mid such that the bytes from mid to
-- the cursor are spaces and the byte in front of mid, if any, is none, no byte from start to mid
-- is a space, and start is 0 or behind a space; the text in front is cut at start, and the text
-- behind the cursor stays.
pub delete_word-Edited :
    (size : ℕ) (l : Line)
    → IsLine size l
    → (start : ℕ) × (mid : ℕ) × IsCut l.buf start mid l.pos
      × Edited size (take start (before l)) (behind l) (delete_word l)
unfolding delete_word
delete_word-Edited size l ok =
    let mid = skip_spaces l.buf l.pos in
    let start = skip_word l.buf mid in
    let (le, word, front) = skip_word-Begins l.buf mid in
    let (spaces, last) = skip_spaces-Begins l.buf l.pos in
    let le' = skip_spaces-le l.buf l.pos in
    let P = Edited size (take start (before l)) (behind l) in
    (
      start,
      mid,
      record {
        start_le = le;
        mid_le = le';
        front = front;
        word = word;
        spaces = spaces;
        last = last;
      },
      if_intro P (l.pos == 0)
          (λ t. let zero_pos = ==→≡ l.pos 0 t in Edited-nothing size start l ok (omega arith))
          (λ _.
            if_intro P (start == l.pos) (λ t. Edited-nothing size start l ok (==→≡ start l.pos t))
              (λ _. Edited-removed size start start l.len l ok (omega arith))),
    )
