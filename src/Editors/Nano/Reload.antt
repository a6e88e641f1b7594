-- ===== src/Editors/Nano/Reload.antt =====
-- kernel/shell/editors.c: a document that is saved and loaded again.
use rtjn_kernel.Prelude.{
  ℕ, zero, suc, ◌+◌, ◌-◌, ◌<◌, ◌≡◌, refl, ap, ◌∙◌, sym, arith, List, [], ◌∷◌, ◌++◌, Bool, true,
  false, not, ◌≢◌, ltb, if_intro, length-set, get_or-set_self, take, min, Option, none, some,
  length-replicate, get_or-set_ne, lt→ltb,
}
use mathlib.Core.Bool.{true≢false}
use mathlib.Core.Option.{none-ne-some}
use rtjn_kernel.Prelude.Int.{ℤ, pos, negsuc, eqb_ℤ, ltb_ℤ}
use rtjn_kernel.Text.{strlen, text, bzero}
use rtjn_kernel.Editors.Document.{Document, max_lines, max_col, line_at}
use rtjn_kernel.Editors.Document.Valid.{IsDocument}
use rtjn_kernel.Editors.Document.Keep.{AllRows-set}
use rtjn_kernel.Editors.Nano.File.{
  Vfs, Loading, chunk, positive, tmp_size, load_chars, load_start, loaded, load_loop, stored,
  nano_load_file, save_lines, save_end, nano_save_file,
}
use rtjn_kernel.Editors.Nano.Load.{load_chars-append}
use rtjn_kernel.Editors.Nano.RoundTrip.{
  IsLoading, IsPlain, text-stored, IsRow-bzero, saved_bytes, LinesRead, LinesRead-load_chars,
}

module _ {S : Type 0} (v : Vfs S) (fd : ℤ) where
  -- The calls of vfs_write from one state to another hand over these bytes, in this order.
  pub data Wrote : S → List ℕ → S → Type 0 where
    no_more : (s : S) → Wrote s [] s
    call :
        (bytes rest : List ℕ) (s s' : S)
        → Wrote (v.write fd bytes s).1 rest s'
        → Wrote s (bytes ++ rest) s'

  -- The calls of vfs_read from a state on give these bytes, in this order and in pieces of any size,
  -- up to one that gives none or fails, which is the last of at most that many.
  pub data ReadOut : ℕ → S → List ℕ → Type 0 where
    ended : (left : ℕ) (s : S) → positive (v.read fd chunk s).0 ≡ false → ReadOut (suc left) s []
    piece :
        (left : ℕ) (s : S) (rest : List ℕ)
        → positive (v.read fd chunk s).0 ≡ true
        → ReadOut left (v.read fd chunk s).1.1 rest
        → ReadOut (suc left) s ((v.read fd chunk s).1.0 ++ rest)

  load_loop-load_chars :
      (fuel : ℕ) (s : S) (bytes : List ℕ) (l : Loading)
      → ReadOut fuel s bytes
      → (load_loop v fuel fd s l).0 ≡ load_chars bytes l
  unfolding load_loop load_chars
  load_loop-load_chars _ _ _ l (ended left s e) = rw e refl
  load_loop-load_chars _ _ _ l (piece left s rest e r) =
      let bytes = (v.read fd chunk s).1.0 in
      rw e (
        load_loop-load_chars left (v.read fd chunk s).1.1 rest (load_chars bytes l) r
        ∙ sym (load_chars-append bytes rest l))

  save_lines-Wrote :
      (left i total n : ℕ) (lines : List (List ℕ)) (s : S)
      → (save_lines v left i lines fd total s).0 ≡ some n
      → Wrote s (saved_bytes left i lines) (save_lines v left i lines fd total s).1
  unfolding save_lines
  save_lines-Wrote zero i total n lines s = λ e. no_more s
  save_lines-Wrote (suc left) i total n lines s =
      let line = line_at lines i in
      let s' = (v.write fd (text line) s).1 in
      let s'' = (v.write fd (10 ∷ []) s').1 in
      let rest = save_lines-Wrote left (i + 1) (total + strlen line + 1) n lines s'' in
      if_intro (λ (r : Option ℕ × S). r.0 ≡ some n → Wrote s (saved_bytes (suc left) i lines) r.1)
        (eqb_ℤ (v.write fd (text line) s).0 (pos (strlen line)))
        (λ _ e. call (text line) _ s _ (call (10 ∷ []) _ s' _ (rest e)))
        (λ _ e. absurd (none-ne-some n e))

-- A save that opens and truncates the file, hands over the bytes and closes it.
pub record Saved {S : Type 0} (v : Vfs S) (s s' : S) (bytes : List ℕ) : Type 0 where
  pub last : S
  pub opened : ltb_ℤ (v.open_write s).0 (pos 0) ≡ false
  pub cut : (v.truncate (v.open_write s).1).0 ≡ true
  pub wrote : Wrote v (v.open_write s).0 (v.truncate (v.open_write s).1).1 bytes last
  pub closed : s' ≡ v.close (v.open_write s).0 last

abbrev is_negative : ℤ → Bool
is_negative (pos n) = false
is_negative (negsuc n) = true

negsuc-ne-pos : {m n : ℕ} → negsuc m ≢ pos n
negsuc-ne-pos {m} {n} e = true≢false (ap is_negative e)

nano_save_file-Saved :
    {S : Type 0} (v : Vfs S) (d : Document) (s : S) (n : ℕ)
    → (nano_save_file v d s).0 ≡ pos n
    → Saved v s (nano_save_file v d s).1.1 (saved_bytes d.lcount 0 d.lines)
unfolding nano_save_file
nano_save_file-Saved {S} v d s n =
    let fd = (v.open_write s).0 in
    let start = (v.truncate (v.open_write s).1).1 in
    let P =
      λ (r : ℤ × (Document × S)). r.0 ≡ pos n → Saved v s r.1.1 (saved_bytes d.lcount 0 d.lines) in
    if_intro P (ltb_ℤ fd (pos 0)) (λ _ e. absurd (negsuc-ne-pos e))
      (λ good.
        if_intro P (not (v.truncate (v.open_write s).1).0) (λ _ e. absurd (negsuc-ne-pos e))
          (λ cut e.
            end good (ground (arith, cut)) (save_lines v d.lcount 0 d.lines fd 0 start)
              (λ m e'. save_lines-Wrote v fd d.lcount 0 0 m d.lines start e') e))
  where
    end :
        ltb_ℤ (v.open_write s).0 (pos 0) ≡ false
        → (v.truncate (v.open_write s).1).0 ≡ true
        → (r : Option ℕ × S)
        → ((m : ℕ)
            → r.0 ≡ some m
            → Wrote v
                (v.open_write s).0
                (v.truncate (v.open_write s).1).1
                (saved_bytes d.lcount 0 d.lines)
                r.1)
        → (save_end v d (v.open_write s).0 r).0 ≡ pos n
        → Saved v s (save_end v d (v.open_write s).0 r).1.1 (saved_bytes d.lcount 0 d.lines)
    end good cut (none, u) wrote e = absurd (negsuc-ne-pos e)
    end good cut (some m, u) wrote e = record {
      last = u;
      opened = good;
      cut = cut;
      wrote = wrote m refl;
      closed = refl;
    }

IsLoading-load_start : (e : Document) → IsDocument e → IsLoading (load_start e)
IsLoading-load_start e ok =
    let first = ok.rows 0 (omega arith) in
    let blank = bzero (line_at e.lines 0) max_col in
    record {
      size = length-set e.lines 0 blank ∙ ok.size;
      rows =
          AllRows-set e.lines ok.size ok.rows 0 blank (omega arith)
            (IsRow-bzero (line_at e.lines 0) first.size);
      room = length-replicate {A = ℕ} tmp_size 0;
      fresh = refl;
    }

-- `d'` has the texts of `d` and one more line, which is empty.
pub record Reloaded (d d' : Document) : Type 0 where
  pub lcount : d'.lcount ≡ d.lcount + 1
  pub texts : (r : ℕ) → r < d.lcount → text (line_at d'.lines r) ≡ text (line_at d.lines r)
  pub last : text (line_at d'.lines d.lcount) ≡ []

Reloaded-loaded :
    (d e : Document) (l : Loading)
    → d.lcount < max_lines
    → LinesRead d.lcount 0 d.lines (load_start e).lines l
    → Reloaded d (loaded l e)
Reloaded-loaded d e l room r =
    let count = r.lcount in
    let at : l.lcount - 1 ≡ d.lcount = omega arith in
    let some_lines : ltb 0 l.lcount ≡ true = lt→ltb 0 l.lcount (omega arith) in
    let line = line_at l.lines d.lcount in
    let row = r.valid.rows d.lcount (omega arith) in
    let size = r.valid.size in
    let end = stored line l.tmp_line l.tpos in
    rw (some_lines, at)
      (record {
        lcount = omega arith;
        texts = λ j lt.
            ap text (get_or-set_ne l.lines d.lcount j end [] (λ e. omega arith))
            ∙ r.here j (omega arith) (omega arith);
        last =
            ap text (get_or-set_self l.lines d.lcount end [] (omega arith))
            ∙ text-stored line l.tmp_line l.tpos row.size
            ∙ ap (λ n. take (min n (max_col - 1)) (text l.tmp_line)) r.valid.fresh;
      })

-- For any file layer and a valid buffer of fewer than 512 lines, where no line has a newline in
-- it or a carriage return at its end: a nano_save_file that reports success has opened and
-- truncated the file, handed the bytes of the lines with their newlines to vfs_write, in order,
-- and closed it; and where a file opens and the calls of vfs_read, as many as the fuel at most,
-- give those bytes in pieces of any size, nano_load_file reads back the text of every line and
-- adds one line behind them, which is empty.
pub nano_load_file-Reloaded :
    {S : Type 0} (v : Vfs S) (fuel n : ℕ) (d e : Document) (s s' : S)
    → IsDocument d
    → IsDocument e
    → ((r : ℕ) → r < d.lcount → IsPlain (text (line_at d.lines r)))
    → d.lcount < max_lines
    → (nano_save_file v d s).0 ≡ pos n
    → ltb_ℤ (v.open_read s').0 (pos 0) ≡ false
    → ReadOut v (v.open_read s').0 fuel (v.open_read s').1 (saved_bytes d.lcount 0 d.lines)
    → Saved v s (nano_save_file v d s).1.1 (saved_bytes d.lcount 0 d.lines)
      × Reloaded d (nano_load_file v fuel e s').0
unfolding nano_load_file
nano_load_file-Reloaded v fuel n d e s s' ok any plain room saved opens read =
    let fd = (v.open_read s').0 in
    let bytes = saved_bytes d.lcount 0 d.lines in
    let l = (load_loop v fuel fd (v.open_read s').1 (load_start e)).0 in
    let same : l ≡ load_chars bytes (load_start e) =
      load_loop-load_chars v fd fuel (v.open_read s').1 bytes (load_start e) read in
    let r =
      LinesRead-load_chars d.lcount 0 d.lines (load_start e) (λ r lt. ok.rows r (omega arith))
        (λ r lt. plain r (omega arith)) (IsLoading-load_start e any) refl (omega arith) in
    (nano_save_file-Saved v d s n saved, rw opens (Reloaded-loaded d e l room (rw same r)))
