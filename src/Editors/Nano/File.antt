-- ===== src/Editors/Nano/File.antt =====
-- `nano_load_file` and `nano_save_file` of kernel/shell/editors.c, over the calls of kernel/fs/vfs.c
-- that they make.
use rtjn_kernel.Prelude.{
  ℕ, zero, suc, ◌+◌, ◌-◌, List, [], ◌∷◌, Option, none, some, Bool, false, not, ◌&&◌, ltb, ◌==◌,
  if◌then◌else◌, get_or, set, min, replicate,
}
use rtjn_kernel.Prelude.Int.{ℤ, pos, negsuc, eqb_ℤ, ltb_ℤ}
use rtjn_kernel.Text.{strlen, text, bzero, strncpy}
use rtjn_kernel.Editors.Document.{Document, max_lines, max_col, line_at}

abbrev pub tmp_size : ℕ
tmp_size = 4096

abbrev pub chunk : ℕ
chunk = 1024

-- The calls on one file, with the state `S` of the file layer.
pub record Vfs (S : Type 0) : Type 0 where
  pub open_read : S → ℤ × S
  pub open_write : S → ℤ × S
  pub truncate : S → Bool × S
  pub read : ℤ → ℕ → S → ℤ × (List ℕ × S)
  pub write : ℤ → List ℕ → S → ℤ × S
  pub close : ℤ → S → S

-- The state of the loop of `nano_load_file`.
pub record Loading : Type 0 where
  pub lines : List (List ℕ)
  pub lcount : ℕ
  pub tmp_line : List ℕ
  pub tpos : ℕ

-- The line that `strncpy` and the terminator leave of the first `tpos` bytes.
abbrev pub stored : List ℕ → List ℕ → ℕ → List ℕ
stored line tmp tpos = let n = min tpos (max_col - 1) in set (strncpy line tmp n) n 0

-- The end of a line in `tmp_line`; a carriage return in front of it is overwritten.
abbrev pub ended : List ℕ → ℕ → List ℕ
ended tmp tpos =
    if ltb 0 tpos && (get_or tmp (tpos - 1) 0 == 13) then set tmp (tpos - 1) 0 else set tmp tpos 0

abbrev pub end_line : Loading → Loading
end_line l =
    let tmp = ended l.tmp_line l.tpos in
    let lines = set l.lines (l.lcount - 1) (stored (line_at l.lines (l.lcount - 1)) tmp l.tpos) in
    record {
      lines =
          if ltb l.lcount max_lines
          then set lines l.lcount (bzero (line_at lines l.lcount) max_col)
          else lines;
      lcount = if ltb l.lcount max_lines then l.lcount + 1 else l.lcount;
      tmp_line = tmp;
      tpos = 0;
    }

unfoldable pub load_char : ℕ → Loading → Loading
load_char c l =
    if c == 10
    then end_line l
    else if ltb l.tpos (tmp_size - 1)
    then record l { tmp_line = set l.tmp_line l.tpos c; tpos = l.tpos + 1 }
    else l

unfoldable pub load_chars : List ℕ → Loading → Loading
unfolding load_char
load_chars [] l = l
load_chars (c ∷ cs) l = load_chars cs (load_char c l)

-- The last line, after the loop.
abbrev pub flushed : Loading → List (List ℕ)
flushed l =
    if ltb 0 l.lcount
    then set l.lines (l.lcount - 1) (stored (line_at l.lines (l.lcount - 1)) l.tmp_line l.tpos)
    else l.lines

abbrev pub load_start : Document → Loading
load_start d = record {
  lines = set d.lines 0 (bzero (line_at d.lines 0) max_col);
  lcount = 1;
  tmp_line = replicate tmp_size 0;
  tpos = 0;
}

abbrev pub loaded : Loading → Document → Document
loaded l d = record d { lines = flushed l; lcount = l.lcount; modified = false }

-- `n > 0`
abbrev pub positive : ℤ → Bool
positive (pos n) = ltb 0 n
positive (negsuc n) = false

module _ {S : Type 0} (v : Vfs S) where
  -- The loop of reads: every read that returns more than 0 is followed by another.
  unfoldable pub load_loop : ℕ → ℤ → S → Loading → Loading × S
  unfolding load_chars
  load_loop zero fd s l = (l, s)
  load_loop (suc fuel) fd s l =
      let (n, (bytes, s')) = v.read fd chunk s in
      let rest = load_loop fuel fd s' (load_chars bytes l) in if positive n then rest else (l, s')

  -- What is left where the file does not open is the first line, blank.
  unfoldable pub nano_load_file : ℕ → Document → S → Document × S
  unfolding load_loop
  nano_load_file fuel d s =
      let l = load_start d in
      let (fd, s') = v.open_read s in
      let (l', s'') = load_loop fuel fd s' l in
      if ltb_ℤ fd (pos 0)
      then (record d { lines = l.lines; lcount = 1 }, s')
      else (loaded l' d, v.close fd s'')

  -- The lines from `i` on, `left` of them, with the bytes written so far: `none` after a short
  -- write. That of the newline is not checked.
  unfoldable pub save_lines : ℕ → ℕ → List (List ℕ) → ℤ → ℕ → S → Option ℕ × S
  save_lines zero i lines fd total s = (some total, s)
  save_lines (suc left) i lines fd total s =
      let line = line_at lines i in
      let (n, s') = v.write fd (text line) s in
      let (_, s'') = v.write fd (10 ∷ []) s' in
      let rest = save_lines left (i + 1) lines fd (total + strlen line + 1) s'' in
      if eqb_ℤ n (pos (strlen line)) then rest else (none, s')

  abbrev pub save_end : Document → ℤ → Option ℕ × S → ℤ × (Document × S)
  save_end d fd (none, s) = (negsuc 0, (d, v.close fd s))
  save_end d fd (some total, s) = (pos total, (record d { modified = false }, v.close fd s))

  unfoldable pub nano_save_file : Document → S → ℤ × (Document × S)
  unfolding save_lines
  nano_save_file d s =
      let (fd, s') = v.open_write s in
      let (cut, s'') = v.truncate s' in
      if ltb_ℤ fd (pos 0)
      then (negsuc 0, (d, s'))
      else if not cut
      then (negsuc 0, (d, v.close fd s''))
      else save_end d fd (save_lines d.lcount 0 d.lines fd 0 s'')
