-- ===== src/Editors/Nano/Event.antt =====
-- `nano_event` of kernel/shell/editors.c: one turn of the loop that polls the globals of the keyboard.
use rtjn_kernel.Prelude.{ℕ, false, Option, none, some, ◌&&◌, ◌!=◌, if◌then◌else◌}
use rtjn_kernel.Console.Keyboard.{Keyboard}
use rtjn_kernel.Editors.Nano.{ev_nav, ev_ctrl, ev_cancel, ev_redraw}

-- The event, or `none` where the loop goes round again.
unfoldable pub nano_event : Keyboard → Option ℕ × Keyboard
nano_event k =
    if k.ctrl_char != 0
    then (some (ev_ctrl k.ctrl_char), record k { ctrl_char = 0; in_read = false })
    else if k.cancel_input
    then (some ev_cancel, record k { cancel_input = false; in_read = false })
    else if k.do_clear_screen
    then (some ev_redraw, record k { do_clear_screen = false })
    else if k.in_read && (k.nav_key != 0)
    then (some (ev_nav k.nav_key), record k { nav_key = 0; in_read = false })
    else if k.in_read && (k.read_key != 0)
    then (some k.read_key, record k { read_key = 0; in_read = false })
    else (none, k)
