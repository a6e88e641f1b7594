-- ===== src/Console/Readline/Loop.antt =====
-- The loop of `readline` in kernel/shell/readline.c, one round at a time.
pub mod Keep
use rtjn_kernel.Prelude.{
  ℕ, zero, suc, ◌+◌, ◌-◌, ◌*◌, List, [], ◌∷◌, ◌++◌, Option, none, some, Bool, true, false, not,
  ◌&&◌, ltb, leb, ◌==◌, ◌!=◌, if◌then◌else◌, set,
}
use rtjn_kernel.Console.Term.{Term, term_clear, term_write}
use rtjn_kernel.Console.Keyboard.{Keyboard}
use rtjn_kernel.Console.History.{
  History, shell_history_count, shell_history_current, shell_history_next, shell_history_pos_set,
  shell_history_prev,
}
use rtjn_kernel.Console.Readline.{
  Line, cell_clear, cell_cursor, insert_char, backspace_at, delete_word, cursor_left, cursor_right,
  replace_line,
}

-- What a round sees and changes: the globals of the keyboard, the history, and the line.
pub record Prompt : Type 0 where
  pub keyboard : Keyboard
  pub history : History
  pub line : Line

-- A round goes on, or `readline` returns a length.
pub data Round : Type 0 where
  again : Prompt → Round
  returned : ℕ → Prompt → Round

abbrev pub newline : ℕ
newline = 10

abbrev pub erase : ℕ
erase = 8

abbrev pub tab : ℕ
tab = 9

abbrev pub text_or_empty : Option (List ℕ) → List ℕ
text_or_empty (some line) = line
text_or_empty none = []

-- "^C\n"
abbrev cancel_mark : List ℕ
cancel_mark = 94 ∷ 67 ∷ 10 ∷ []

-- Ctrl+C: the cells of the line are blanked and `buf[0] = 0`.
abbrev pub cancelled : Prompt → Prompt
cancelled p =
    let l = p.line in
    let blanked = cell_cursor l.base 0 (cell_clear l.base 0 l.len l.term) in
    record p {
      keyboard = record p.keyboard { cancel_input = false };
      line = record l {
        buf = set l.buf 0 0;
        len = 0;
        pos = 0;
        term = term_write cancel_mark blanked;
      };
    }

-- Ctrl+L: a clear screen with a new prompt, "%s> " of `g_cwd`.
abbrev pub cleared : List ℕ → Prompt → Prompt
cleared cwd p =
    let l = p.line in
    let t = term_write (cwd ++ 62 ∷ 32 ∷ []) (term_clear l.term) in
    record p {
      keyboard = record p.keyboard { do_clear_screen = false };
      line = record l {
        buf = set l.buf 0 0;
        len = 0;
        pos = 0;
        hooked = false;
        base = t.row * t.width + t.col;
        term = t;
      };
    }

-- The line from the history in place of this one.
abbrev pub recalled : ℕ → History → Line → Line
recalled size h l = record (replace_line size (text_or_empty (shell_history_current h)) l) {
  hooked = true;
}

abbrev pub up_from : Prompt → History
up_from p = shell_history_prev (
    if p.line.hooked
    then p.history
    else shell_history_pos_set (shell_history_count p.history) p.history)

-- An arrow.
abbrev pub navigated : ℕ → Prompt → Prompt
navigated size p =
    let q = record p { keyboard = record p.keyboard { in_read = false; nav_key = 0 } } in
    let n = p.keyboard.nav_key in
    if n == 1
    then record q { history = up_from p; line = recalled size (up_from p) p.line }
    else if n == 2
    then record q {
      history = shell_history_next p.history;
      line = recalled size (shell_history_next p.history) p.line;
    }
    else if n == 3
    then record q { line = cursor_left p.line }
    else if n == 4
    then record q { line = cursor_right p.line }
    else q

-- `hooked = 0; buf[i] = 0;` behind an edit.
abbrev pub ended : Line → Line
ended l = record l { hooked = false; buf = set l.buf l.len 0 }

-- A character other than the end of the line.
abbrev pub keyed : ℕ → ℕ → Line → Line
keyed size c l =
    if c == erase
    then backspace_at l
    else if c == tab
    then l
    else if leb 0x20 c && ltb c 0x7f
    then insert_char size c l
    else l

-- A key, with a character.
abbrev pub typed : ℕ → Prompt → Round
typed size p =
    let q = record p { keyboard = record p.keyboard { in_read = false; read_key = 0 } } in
    let c = p.keyboard.read_key in
    if c == newline
    then returned p.line.len q
    else again (record q { line = ended (keyed size c p.line) })

-- The start of `readline`: no key from before the prompt counts, and the line is empty at the
-- screen's cursor.
unfoldable pub readline_start : Keyboard → History → List ℕ → Term → Prompt
readline_start k h buf t = record {
  history = h;
  keyboard = record k {
    cancel_input = false;
    word_del = false;
    read_key = 0;
    nav_key = 0;
    in_read = false;
  };
  line = record {
    buf = buf;
    len = 0;
    pos = 0;
    hooked = false;
    base = t.row * t.width + t.col;
    term = t;
  };
}

-- One round of `while (i < size)`; the loop's test is in front.
unfoldable pub readline_round : ℕ → List ℕ → Prompt → Round
unfolding cell_clear cell_cursor term_write term_clear shell_history_prev shell_history_next
    shell_history_current shell_history_count shell_history_pos_set replace_line cursor_left
    cursor_right delete_word backspace_at insert_char
readline_round size cwd p =
    let k = p.keyboard in
    if leb size p.line.len
    then returned p.line.len p
    else if k.cancel_input
    then returned 0 (cancelled p)
    else if k.do_clear_screen
    then again (cleared cwd p)
    else if k.in_read && k.nav_key != 0
    then again (navigated size p)
    else if k.in_read && k.word_del
    then again (record p {
      keyboard = record k { in_read = false; word_del = false };
      line = ended (delete_word p.line);
    })
    else if k.in_read && k.read_key != 0
    then typed size p
    else again p
