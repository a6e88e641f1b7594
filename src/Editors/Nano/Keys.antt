-- ===== src/Editors/Nano/Keys.antt =====
-- The loop of `cmd_nano` in kernel/shell/editors.c: what each event does.
use rtjn_kernel.Prelude.{
  ℕ, List, [], ◌∷◌, true, false, ◌&&◌, ◌||◌, leb, ◌==◌, if◌then◌else◌, bit_and, set,
}
use rtjn_kernel.Editors.Document.{Document, line_at, max_col}
use rtjn_kernel.Text.{bzero}
use rtjn_kernel.Editors.Nano.{
  Nano, ev_nav, ev_cancel, ev_redraw, is_ctrl, nano_clamp_cursor, nano_move, edit_key,
}
use rtjn_kernel.Editors.Nano.File.{Vfs, nano_load_file, nano_save_file}

abbrev finished : Nano → Nano
finished n = record n { done = true }

module _ {S : Type 0} (v : Vfs S) where
  -- A save, whatever it reports.
  abbrev pub saved : Nano → S → Nano × S
  saved n s = let (_, (d, s')) = nano_save_file v n.doc s in (record n { doc = d }, s')

  -- An event while `nano_confirm_exit` waits for an answer.
  unfoldable pub nano_confirm_exit : ℕ → Nano → S → Nano × S
  nano_confirm_exit ev n s =
      if (ev == 121) || (ev == 89)
      then (let (n', s') = saved n s in (record n' { done = true; asking = false }, s'))
      else if (ev == 110) || (ev == 78)
      then (record n { done = true; asking = false }, s)
      else if (ev == ev_cancel) || (ev == 99) || (ev == 67)
      then (record n { asking = false }, s)
      else (n, s)

  -- An event in the loop of `cmd_nano`.
  unfoldable pub nano_key : ℕ → ℕ → ℕ → Nano → S → Nano × S
  nano_key height width ev n s =
      if is_ctrl ev 111 79
      then saved n s
      else if is_ctrl ev 120 88
      then (if n.doc.modified then (record n { asking = true }, s) else (finished n, s))
      else if is_ctrl ev 103 71
      then (n, s)
      else if ev == ev_redraw
      then (n, s)
      else if ev == ev_cancel
      then (finished n, s)
      else if leb (ev_nav 1) ev && leb ev (ev_nav 4)
      then (nano_move height width (bit_and ev 255) n, s)
      else if is_ctrl ev 99 67
      then (finished n, s)
      else (record n { doc = edit_key ev n.doc }, s)

  -- One turn of the loop, with the event that it waits for.
  unfoldable pub nano_turn : ℕ → ℕ → ℕ → Nano → S → Nano × S
  unfolding nano_confirm_exit nano_key
  nano_turn height width ev n s =
      if n.done
      then (n, s)
      else if n.asking
      then nano_confirm_exit ev n s
      else nano_key height width ev (nano_clamp_cursor height width n) s

  unfoldable pub nano_run : ℕ → ℕ → List ℕ → Nano → S → Nano × S
  unfolding nano_turn
  nano_run height width [] n s = (n, s)
  nano_run height width (ev ∷ evs) n s =
      let (n', s') = nano_turn height width ev n s in nano_run height width evs n' s'

  -- The start of `cmd_nano`: the file is loaded into the buffer.
  unfoldable pub nano_start : ℕ → Document → S → Nano × S
  nano_start fuel d s =
      let blank : Document = record {
        lines = set d.lines 0 (bzero (line_at d.lines 0) max_col);
        lcount = 1;
        row = 0;
        col = 0;
        modified = false;
      } in
      let (d', s') = nano_load_file v fuel blank s in
      (record { doc = d'; scroll = 0; scroll_x = 0; asking = false; done = false }, s')
