-- ===== src/Console/History/Walk.antt =====
-- What the up arrow finds after a line is recorded, in kernel/shell/commands.c.
use rtjn_kernel.Prelude.{
  ℕ, suc, ◌-◌, ◌<◌, ◌≡◌, ◌≢◌, refl, sym, ap, ◌∙◌, arith, List, [], ◌∷◌, ◌++◌, some, true, false,
  if_intro, ltb, lt→ltb, ◌==◌, ≢→==, ==→≡, get_elem?, take, length, length-append,
}
use mathlib.Core.Bool.{true≢false}
use rtjn_kernel.Text.{strlen, text}
use rtjn_kernel.Console.History.{
  History, hist_max, is_last, shell_record, shell_history_current, shell_history_prev,
}

get_elem?-last : (xs : List (List ℕ)) (y : List ℕ) → get_elem? (xs ++ y ∷ []) (length xs) ≡ some y
get_elem?-last [] y = refl
get_elem?-last (x ∷ xs) y = get_elem?-last xs y

shell_record_new :
    (line : List ℕ) (h : History)
    → strlen line ≢ 0
    → is_last line h.lines ≡ false
    → length h.lines < hist_max
    → shell_record line h ≡ (
        let added = h.lines ++ (take 63 (text line) ++ 0 ∷ []) ∷ [] in
        record h { lines = added; at = length added })
unfolding shell_record
shell_record_new line h some_text new room =
    let filled : (strlen line == 0) ≡ false = ≢→== (strlen line) 0 some_text in
    let fits : ltb (length h.lines) hist_max ≡ true = lt→ltb (length h.lines) hist_max room in
    rw filled (rw new (rw fits refl))

prev_of :
    (h : History) (n : ℕ)
    → h.at ≡ suc n
    → length h.lines ≡ suc n
    → shell_history_current (shell_history_prev h) ≡ get_elem? h.lines n
unfolding shell_history_current shell_history_prev
prev_of h n at size =
    let shown = λ (g : History). get_elem? g.lines g.at ≡ get_elem? h.lines n in
    let back : h.at - 1 ≡ n = omega arith in
    if_intro shown (length h.lines == 0)
      (λ t. let none_there = ==→≡ (length h.lines) 0 t in absurd (omega arith))
      (λ _.
        if_intro shown (ltb 0 h.at) (λ _. ap (get_elem? h.lines) back)
          (λ f. absurd (true≢false (sym (lt→ltb 0 h.at (omega arith)) ∙ f))))

-- A line that is not empty and not the last one again, recorded while there is room, is what the
-- first step back shows, cut to 63 bytes.
pub shell_record-prev :
    (line : List ℕ) (h : History)
    → strlen line ≢ 0
    → is_last line h.lines ≡ false
    → length h.lines < hist_max
    → shell_history_current (shell_history_prev (shell_record line h))
      ≡ some (take 63 (text line) ++ 0 ∷ [])
shell_record-prev line h some_text new room =
    let entry = take 63 (text line) ++ 0 ∷ [] in
    let added = h.lines ++ entry ∷ [] in
    let size : length added ≡ suc (length h.lines) =
      omega (arith, length-append h.lines (entry ∷ [])) in
    ap (λ g. shell_history_current (shell_history_prev g))
      (shell_record_new line h some_text new room)
    ∙ prev_of (record h { lines = added; at = length added }) (length h.lines) size size
    ∙ get_elem?-last h.lines entry
