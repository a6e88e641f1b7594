-- ===== src/Console/Readline/Loop/Keep.antt =====
-- Every round of `readline` keeps the line inside its buffer.
use rtjn_kernel.Prelude.{
  ℕ, ◌<◌, ◌≡◌, refl, ap, ◌∙◌, arith, List, if_intro, ltb, leb, ◌==◌, ◌!=◌, ◌&&◌, length, length-set,
  inl, inr,
}
use rtjn_kernel.Console.History.{History, shell_history_current, shell_history_next}
use rtjn_kernel.Console.Readline.{Line, insert_char, delete_word, replace_line}
use rtjn_kernel.Console.Readline.Edit.{IsLine}
use rtjn_kernel.Console.Readline.Refine.{insert_char-Edited, backspace_at-Edited, cursor-IsLine}
use rtjn_kernel.Console.Readline.Refine.Word.{delete_word-Edited}
use rtjn_kernel.Console.Readline.Replace.{replace_line-Edited}
use rtjn_kernel.Console.Readline.Loop.{
  Prompt, Round, again, returned, erase, tab, newline, text_or_empty, cancelled, cleared, recalled,
  up_from, navigated, ended, keyed, typed, readline_round,
}

-- The line stays inside its buffer; a returned length is that of the line, with room for a
-- terminator behind it.
abbrev pub Kept : ℕ → Round → Type 0
Kept size (again p) = IsLine size p.line
Kept size (returned n p) = (n < size) × (n ≡ p.line.len) × IsLine size p.line

-- The flag and the screen do not matter to the line, and neither does a byte that is written.
IsLine-with :
    (size : ℕ) (l u : Line)
    → IsLine size l
    → length u.buf ≡ length l.buf
    → u.len ≡ l.len
    → u.pos ≡ l.pos
    → IsLine size u
IsLine-with size l u ok room len pos =
    let len_lt = ok.len_lt in
    let pos_le = ok.pos_le in
    record { room = room ∙ ok.room; len_lt = omega arith; pos_le = omega arith }

-- An empty line.
IsLine-empty :
    (size : ℕ) (u : Line) → 0 < size → length u.buf ≡ size → u.len ≡ 0 → u.pos ≡ 0 → IsLine size u
IsLine-empty size u h room len pos = record {
  room = room;
  len_lt = omega arith;
  pos_le = omega arith;
}

IsLine-insert_char : (size c : ℕ) (l : Line) → IsLine size l → IsLine size (insert_char size c l)
IsLine-insert_char size c l ok = elim (insert_char-Edited size c l ok) [
  | inl (h, edited) ↦ edited.2
  | inr (h, e) ↦
      IsLine-with size l (insert_char size c l) ok (ap (λ (u : Line). length u.buf) e)
        (ap (λ (u : Line). u.len) e) (ap (λ (u : Line). u.pos) e)
]

IsLine-keyed : (size c : ℕ) (l : Line) → IsLine size l → IsLine size (keyed size c l)
IsLine-keyed size c l ok =
    if_intro (IsLine size) (c == erase) (λ _. (backspace_at-Edited size l ok).2)
      (λ _.
        if_intro (IsLine size) (c == tab) (λ _. ok)
          (λ _.
            if_intro (IsLine size) (leb 0x20 c && ltb c 0x7f) (λ _. IsLine-insert_char size c l ok)
              (λ _. ok)))

IsLine-ended : (size : ℕ) (l : Line) → IsLine size l → IsLine size (ended l)
IsLine-ended size l ok = IsLine-with size l (ended l) ok (length-set l.buf l.len 0) refl refl

IsLine-recalled :
    (size : ℕ) (h : History) (l : Line) → IsLine size l → IsLine size (recalled size h l)
IsLine-recalled size h l ok =
    let line = text_or_empty (shell_history_current h) in
    IsLine-with size (replace_line size line l) (recalled size h l)
      (replace_line-Edited size line l ok).2 refl refl refl

Kept-navigated : (size : ℕ) (p : Prompt) → IsLine size p.line → IsLine size (navigated size p).line
Kept-navigated size p ok =
    let n = p.keyboard.nav_key in
    let Fine = λ (q : Prompt). IsLine size q.line in
    if_intro Fine (n == 1) (λ _. IsLine-recalled size (up_from p) p.line ok)
      (λ _.
        if_intro Fine (n == 2) (λ _. IsLine-recalled size (shell_history_next p.history) p.line ok)
          (λ _.
            if_intro Fine (n == 3) (λ _. (cursor-IsLine size p.line ok).0.0)
              (λ _. if_intro Fine (n == 4) (λ _. (cursor-IsLine size p.line ok).1.0) (λ _. ok))))

Kept-typed : (size : ℕ) (p : Prompt) → IsLine size p.line → Kept size (typed size p)
Kept-typed size p ok =
    let c = p.keyboard.read_key in
    if_intro (Kept size) (c == newline) (λ _. (ok.len_lt, refl, ok))
      (λ _. IsLine-ended size (keyed size c p.line) (IsLine-keyed size c p.line ok))

-- Every round of readline, whatever the keyboard's globals and the history hold, keeps the line
-- inside its buffer, and a returned length is that of the line and below the buffer's size.
pub readline_round-Kept :
    (size : ℕ) (cwd : List ℕ) (p : Prompt)
    → IsLine size p.line
    → Kept size (readline_round size cwd p)
unfolding readline_round
readline_round-Kept size cwd p ok =
    let k = p.keyboard in
    let l = p.line in
    let len_lt = ok.len_lt in
    let room = length-set l.buf 0 0 ∙ ok.room in
    if_intro (Kept size) (leb size l.len) (λ _. (len_lt, refl, ok))
      (λ _.
        if_intro (Kept size) k.cancel_input
          (λ _.
            (omega arith, refl, IsLine-empty size (cancelled p).line (omega arith) room refl refl))
          (λ _.
            if_intro (Kept size) k.do_clear_screen
              (λ _. IsLine-empty size (cleared cwd p).line (omega arith) room refl refl)
              (λ _.
                if_intro (Kept size) (k.in_read && k.nav_key != 0) (λ _. Kept-navigated size p ok)
                  (λ _.
                    if_intro (Kept size) (k.in_read && k.word_del)
                      (λ _. IsLine-ended size (delete_word l) (delete_word-Edited size l ok).3.2)
                      (λ _.
                        if_intro (Kept size) (k.in_read && k.read_key != 0)
                          (λ _. Kept-typed size p ok) (λ _. ok))))))
