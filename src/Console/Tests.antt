-- ===== src/Console/Tests.antt =====
-- The theorems on the console at concrete screens, keys and lines.
use rtjn_kernel.Prelude.{
  ℕ, ◌+◌, ◌≡◌, ◌≢◌, ◌⊎◌, ◌≤◌, ◌<◌, refl, arith, [], ◌∷◌, ◌++◌, true, false, replicate, take, inl,
}
use rtjn_kernel.Text.{strlen}
use rtjn_kernel.Console.Term.{Term, tab, term_putchar}
use rtjn_kernel.Console.Term.Screen.{InScreen}
use rtjn_kernel.Console.Term.Write.{term_putchar-InScreen}
use rtjn_kernel.Console.Keyboard.{Keyboard, keyboard_handler}
use rtjn_kernel.Console.Keyboard.Keys.{OneEvent, keyboard_handler-OneEvent}
use rtjn_kernel.Console.History.{History}
use rtjn_kernel.Console.Readline.{Line, insert_char, delete_word}
use rtjn_kernel.Console.Readline.Edit.{before, behind, IsLine}
use rtjn_kernel.Console.Readline.Refine.{Edited, insert_char-Edited}
use rtjn_kernel.Console.Readline.Refine.Word.{delete_word-Edited, IsCut}
use rtjn_kernel.Console.Readline.Loop.{Prompt, readline_round}
use rtjn_kernel.Console.Readline.Loop.Keep.{Kept, readline_round-Kept}

-- A screen of two rows of eight, with the cursor in the second row.
abbrev small : Term
small = record { row = 1; col = 6; color = 7; width = 8; height = 2; buf = replicate 16 1824 }

abbrev at_edge : Term
at_edge = record small { col = 7 }

small-InScreen : InScreen small
small-InScreen = record {
  width_pos = omega arith;
  width_fits = omega arith;
  height_pos = omega arith;
  row_lt = omega arith;
  col_lt = omega arith;
  cells = refl;
}

term_putchar-InScreen_example : InScreen (term_putchar tab small)
term_putchar-InScreen_example = term_putchar-InScreen tab small small-InScreen (λ _. omega arith)

abbrev idle_keys : Keyboard
idle_keys = record {
  modifier = 0;
  in_read = false;
  read_key = 0;
  nav_key = 0;
  do_clear_screen = false;
  cancel_input = false;
  word_del = false;
  ctrl_char = 0;
}

keyboard_handler-OneEvent_example : OneEvent (keyboard_handler 30 idle_keys)
keyboard_handler-OneEvent_example = keyboard_handler-OneEvent 30 idle_keys (inl refl)

-- "ls -l" with the cursor at its end.
abbrev typed_line : Line
typed_line = record {
  buf = 108 ∷ 115 ∷ 32 ∷ 45 ∷ 108 ∷ 0 ∷ 0 ∷ 0 ∷ [];
  len = 5;
  pos = 5;
  hooked = false;
  base = 2;
  term = small;
}

typed_line-IsLine : IsLine 8 typed_line
typed_line-IsLine = record { room = refl; len_lt = omega arith; pos_le = omega arith }

insert_char-Edited_example :
    (5 + 1 < 8)
      × Edited 8 (before typed_line ++ 97 ∷ []) (behind typed_line) (insert_char 8 97 typed_line)
    ⊎ (8 ≤ 5 + 1) × (insert_char 8 97 typed_line ≡ typed_line)
insert_char-Edited_example = insert_char-Edited 8 97 typed_line typed_line-IsLine

delete_word-Edited_example :
    (start : ℕ) × (mid : ℕ) × IsCut typed_line.buf start mid typed_line.pos
    × Edited 8 (take start (before typed_line)) (behind typed_line) (delete_word typed_line)
delete_word-Edited_example = delete_word-Edited 8 typed_line typed_line-IsLine

abbrev no_history : History
no_history = record { lines = []; at = 0 }

-- A waiting character at the prompt.
abbrev waiting : Prompt
waiting = record {
  keyboard = record idle_keys { in_read = true; read_key = 97 };
  history = no_history;
  line = typed_line;
}

readline_round-Kept_example : Kept 8 (readline_round 8 (47 ∷ []) waiting)
readline_round-Kept_example = readline_round-Kept 8 (47 ∷ []) waiting typed_line-IsLine

two_bytes : strlen (108 ∷ 115 ∷ 0 ∷ []) ≢ 0
unfolding strlen
two_bytes = λ e. absurd (omega arith)
