-- ===== src/Editors/Nano/Save.antt =====
-- `nano_save_file` of kernel/shell/editors.c: what it reports, and a file that keeps what is written.
use rtjn_kernel.Prelude.{
  ℕ, zero, suc, ◌+◌, ◌≡◌, refl, arith, List, [], ◌∷◌, Bool, true, false, if_intro, length,
  length-append, Option, none, some, not,
}
use mathlib.Core.Bool.{true≢false}
use rtjn_kernel.Prelude.Int.{ℤ, pos, negsuc, eqb_ℤ, ltb_ℤ}
use rtjn_kernel.Text.{strlen, text}
use rtjn_kernel.Text.Copy.{strlen-eq-length}
use rtjn_kernel.Editors.Document.{Document, line_at}
use rtjn_kernel.Editors.Nano.File.{Vfs, save_lines, save_end, nano_save_file}
use rtjn_kernel.Editors.Nano.RoundTrip.{saved_bytes}

-- Every line from `i` on was written whole.
abbrev pub Written : {S : Type 0} → Vfs S → ℤ → List (List ℕ) → ℕ → ℕ → S → Type 0
Written v fd lines zero i s = Unit
Written v fd lines (suc left) i s =
    let (n, s') = v.write fd (text (line_at lines i)) s in
    (eqb_ℤ n (pos (strlen (line_at lines i))) ≡ true)
    × Written v fd lines left (i + 1) (v.write fd (10 ∷ []) s').1

-- What the report of a save says of the document and of the file.
abbrev pub Reported : {S : Type 0} → Vfs S → Document → S → ℤ × (Document × S) → Type 0
Reported v d s (negsuc e, (d', s')) = (e ≡ 0) × (d' ≡ d)
Reported v d s (pos n, (d', s')) =
    let (fd, opened) = v.open_write s in
    (n ≡ length (saved_bytes d.lcount 0 d.lines))
    × (d' ≡ record d { modified = false })
    × (ltb_ℤ fd (pos 0) ≡ false)
    × ((v.truncate opened).0 ≡ true)
    × Written v fd d.lines d.lcount 0 (v.truncate opened).1

module _ {S : Type 0} (v : Vfs S) where
  -- Either a line was not written whole, or the total counts every byte.
  abbrev Totalled : ℤ → List (List ℕ) → ℕ → ℕ → ℕ → S → Option ℕ × S → Type 0
  Totalled fd lines left i total s (none, s') = Unit
  Totalled fd lines left i total s (some n, s') =
      (n ≡ total + length (saved_bytes left i lines)) × Written v fd lines left i s

  save_lines-Totalled :
      (fd : ℤ) (lines : List (List ℕ)) (left i total : ℕ) (s : S)
      → Totalled fd lines left i total s (save_lines v left i lines fd total s)
  unfolding save_lines
  save_lines-Totalled fd lines zero i total s = (omega arith, tt)
  save_lines-Totalled fd lines (suc left) i total s =
      let line = line_at lines i in
      let s' = (v.write fd (text line) s).1 in
      let s'' = (v.write fd (10 ∷ []) s').1 in
      let total' = total + strlen line + 1 in
      if_intro (Totalled fd lines (suc left) i total s)
        (eqb_ℤ (v.write fd (text line) s).0 (pos (strlen line)))
        (λ full.
          go (save_lines v left (i + 1) lines fd total' s'') full
            (save_lines-Totalled fd lines left (i + 1) total' s''))
        (λ _. tt)
    where
      go :
          (r : Option ℕ × S)
          → eqb_ℤ (v.write fd (text (line_at lines i)) s).0 (pos (strlen (line_at lines i))) ≡ true
          → Totalled fd lines left
              (i + 1)
              (total + strlen (line_at lines i) + 1)
              (v.write fd (10 ∷ []) (v.write fd (text (line_at lines i)) s).1).1
              r
          → Totalled fd lines (suc left) i total s r
      go (none, u) full t = tt
      go (some n, u) full (e, w) = (
        omega (
          arith,
          strlen-eq-length (line_at lines i),
          length-append (text (line_at lines i)) (10 ∷ saved_bytes left (i + 1) lines),
        ),
        (full, w),
      )

  -- Whatever the file layer answers, nano_save_file reports -1 and leaves the buffer marked as
  -- it was; or it opened and truncated the file and wrote every line whole, clears the mark and
  -- reports the number of bytes of the lines and their newlines.
  pub nano_save_file-Reported : (d : Document) (s : S) → Reported v d s (nano_save_file v d s)
  unfolding nano_save_file
  nano_save_file-Reported d s =
      if_intro (Reported v d s) (ltb_ℤ (v.open_write s).0 (pos 0)) (λ _. (refl, refl))
        (λ good.
          if_intro (Reported v d s) (not (v.truncate (v.open_write s).1).0) (λ _. (refl, refl))
            (λ cut.
              go good (not_false _ cut)
                (save_lines v d.lcount 0 d.lines (v.open_write s).0 0
                  (v.truncate (v.open_write s).1).1)
                (save_lines-Totalled (v.open_write s).0 d.lines d.lcount 0 0
                  (v.truncate (v.open_write s).1).1)))
    where
      not_false : (b : Bool) → not b ≡ false → b ≡ true
      not_false true e = refl
      not_false false e = absurd (true≢false e)

      go :
          ltb_ℤ (v.open_write s).0 (pos 0) ≡ false
          → (v.truncate (v.open_write s).1).0 ≡ true
          → (r : Option ℕ × S)
          → Totalled (v.open_write s).0 d.lines d.lcount 0 0 (v.truncate (v.open_write s).1).1 r
          → Reported v d s (save_end v d (v.open_write s).0 r)
      go good cut (none, u) t = (refl, refl)
      go good cut (some n, u) (e, w) = (omega arith, refl, good, cut, w)
