-- ===== src/Editors/Vi/Range/SameLine.antt =====
-- What `vi_delete_range` of kernel/shell/editors.c deletes between two places of one line.
use rtjn_kernel.Prelude.{
  ℕ, ◌+◌, ◌-◌, ◌≤◌, ◌<◌, ◌≡◌, refl, ap, ◌∙◌, arith, List, [], ◌++◌, true, false, ltb, ==_self,
  get_or, take, drop, min, length, length-append, length-take, length-drop, get_or-set_self,
  get_or-take, get_or-drop, get_or-append,
}
use native.Mathlib.Decide.{dec_lt}
use rtjn_kernel.Text.{strlen, text}
use rtjn_kernel.Text.Copy.{strlen-eq-length}
use rtjn_kernel.Editors.Rows.{
  copy_cells, get_or-copy_cells, get_or-strlen, get_or-text, get_or-below_strlen, text_of_get_or,
}
use rtjn_kernel.Editors.Document.{Document, line_at}
use rtjn_kernel.Editors.Document.Valid.{IsDocument}
use rtjn_kernel.Editors.Vi.{Vi}
use rtjn_kernel.Editors.Vi.Range.{delete_between, vi_delete_range}

-- A line without its bytes from `st` to `end`.
text-closed :
    (line : List ℕ) (st end : ℕ)
    → st ≤ end
    → end ≤ strlen line
    → strlen line < length line
    → text (copy_cells (strlen line + 1 - end) line st line end 0)
      ≡ take st (text line) ++ drop end (text line)
text-closed line st end le fits room =
    let t = text line in
    let n = strlen line + 1 - end in
    let len = strlen-eq-length line in
    let want = take st t ++ drop end t in
    let short = length-take st t in
    let size : length want ≡ strlen line - (end - st) =
      omega (arith, length-append (take st t) (drop end t), length-take st t, length-drop end t) in
    let wanted = λ (j : ℕ). get_or-append (take st t) (drop end t) j 0 in
    let front = λ (j : ℕ). get_or-take st t j 0 in
    let back = λ (j : ℕ). get_or-drop end t (j - length (take st t)) 0 in
    let moved = λ (j : ℕ). get_or-copy_cells n line st line end 0 j (omega arith) in
    let same = λ (j : ℕ).
      ap (λ k. get_or line (end + k) 0)
        (let e : j - length (take st t) ≡ j - st = omega arith in e) in
    text_of_get_or (copy_cells n line st line end 0) want
      (λ j lt. ground (
        arith,
        wanted j,
        front j,
        back j,
        get_or-text line j,
        get_or-text line (end + (j - length (take st t))),
        get_or-below_strlen line j,
        get_or-below_strlen line (end + (j - length (take st t))),
      ))
      (λ j lt. ground (
        arith,
        wanted j,
        front j,
        back j,
        moved j,
        same j,
        get_or-text line j,
        get_or-text line (end + (j - length (take st t))),
      ))
      (rw size (
        let at : end + (strlen line - (end - st) - st) ≡ strlen line = omega arith in
        ground (
          arith,
          moved (strlen line - (end - st)),
          ap (λ k. get_or line k 0) at,
          get_or-strlen line,
        )))

-- The two orders of the places `c1` and `c2`.
pub data SameLine (d : Document) (r c1 c2 : ℕ) : Vi → Type 0 where
  forward : (v' : Vi) → c1 ≤ c2 → v'.doc.lines ≡ d.lines → SameLine d r c1 c2 v'
  backward :
      (v' : Vi)
      → c2 < c1
      → text (line_at v'.doc.lines r)
        ≡ take c2 (text (line_at d.lines r)) ++ drop c1 (text (line_at d.lines r))
      → v'.yank_len ≡ c1 - c2
      → SameLine d r c1 c2 v'

-- Between two places in the text of one line of a valid buffer, vi_delete_range takes the bytes
-- from the second place up to the first and yanks their number, where the second place comes
-- first; where it does not, every line stays as it was.
pub vi_delete_range-SameLine :
    (r c1 c2 : ℕ) (v : Vi)
    → IsDocument v.doc
    → r < v.doc.lcount
    → c1 ≤ strlen (line_at v.doc.lines r)
    → c2 ≤ strlen (line_at v.doc.lines r)
    → SameLine v.doc r c1 c2 (vi_delete_range r c1 r c2 false v)
unfolding vi_delete_range delete_between
vi_delete_range-SameLine r c1 c2 v ok used le1 le2 =
    let size = ok.size in
    let lcount_le = ok.lcount_le in
    let d = v.doc in
    let line = line_at d.lines r in
    let row = ok.rows r (omega arith) in
    let long = row.size in
    let ends = row.ends in
    let same : ltb r r ≡ false = ground arith in
    let end : min c1 (strlen line) ≡ c1 = omega arith in
    let st : min c2 (strlen line) ≡ c2 = omega arith in
    rw (same, ==_self r, end, st)
      (elim (dec_lt c2 c1) [
        | yes back ↦
            let test : ltb c2 c1 ≡ true = ground arith in
            rw test (
              backward _ back
                (ap text (
                    get_or-set_self d.lines r (copy_cells (strlen line + 1 - c1) line c2 line c1 0)
                      [] (omega arith))
                  ∙ text-closed line c2 c1 (omega arith) le1 (omega arith))
                (ground arith))
        | no ahead ↦
            let test : ltb c2 c1 ≡ false = ground arith in rw test (forward _ (omega arith) refl)
      ])
