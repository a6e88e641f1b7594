-- ===== src/Console/Keyboard.antt =====
-- The keyboard interrupt of kernel/dev/keyboard.c: scancodes to the globals that the readers poll.
pub mod Keys
use rtjn_kernel.Prelude.{
  ℕ, zero, suc, ◌+◌, ◌-◌, ◌^◌, List, [], ◌∷◌, ◌++◌, Bool, true, false, ◌&&◌, ◌||◌, leb, ◌==◌, ◌!=◌,
  if◌then◌else◌, get_or, replicate, bit_and, bit_xor,
}

-- The volatile globals and the static `modifier`.
pub record Keyboard : Type 0 where
  pub modifier : ℕ
  pub in_read : Bool
  pub read_key : ℕ
  pub nav_key : ℕ
  pub do_clear_screen : Bool
  pub cancel_input : Bool
  pub word_del : Bool
  pub ctrl_char : ℕ

abbrev pub keymod_alt : ℕ
keymod_alt = 56

abbrev pub keymod_ctrl : ℕ
keymod_ctrl = 29

abbrev pub keymod_shft : ℕ
keymod_shft = 42

-- The array has four places and three initialisers.
unfoldable pub is_modifier : ℕ → Bool
is_modifier scancode =
    keymod_alt == scancode || keymod_ctrl == scancode || keymod_shft == scancode || 0 == scancode

abbrev pub keys : List ℕ
keys =
    0
    ∷ 0
    ∷ 49
    ∷ 50
    ∷ 51
    ∷ 52
    ∷ 53
    ∷ 54
    ∷ 55
    ∷ 56
    ∷ 57
    ∷ 48
    ∷ 45
    ∷ 61
    ∷ 8
    ∷ 9
    ∷ 113
    ∷ 119
    ∷ 101
    ∷ 114
    ∷ 116
    ∷ 121
    ∷ 117
    ∷ 105
    ∷ 111
    ∷ 112
    ∷ 91
    ∷ 93
    ∷ 10
    ∷ 0
    ∷ 97
    ∷ 115
    ∷ 100
    ∷ 102
    ∷ 103
    ∷ 104
    ∷ 106
    ∷ 107
    ∷ 108
    ∷ 59
    ∷ 39
    ∷ 96
    ∷ 0
    ∷ 92
    ∷ 122
    ∷ 120
    ∷ 99
    ∷ 118
    ∷ 98
    ∷ 110
    ∷ 109
    ∷ 44
    ∷ 46
    ∷ 47
    ∷ 0
    ∷ 42
    ∷ 0
    ∷ 32
    ∷ replicate 70 0

abbrev pub shift_keys : List ℕ
shift_keys =
    0
    ∷ 0
    ∷ 33
    ∷ 64
    ∷ 35
    ∷ 36
    ∷ 37
    ∷ 94
    ∷ 38
    ∷ 42
    ∷ 40
    ∷ 41
    ∷ 95
    ∷ 43
    ∷ 0
    ∷ 0
    ∷ 81
    ∷ 87
    ∷ 69
    ∷ 82
    ∷ 84
    ∷ 89
    ∷ 85
    ∷ 73
    ∷ 79
    ∷ 80
    ∷ 123
    ∷ 125
    ∷ 0
    ∷ 0
    ∷ 65
    ∷ 83
    ∷ 68
    ∷ 70
    ∷ 71
    ∷ 72
    ∷ 74
    ∷ 75
    ∷ 76
    ∷ 58
    ∷ 34
    ∷ 126
    ∷ 0
    ∷ 124
    ∷ 90
    ∷ 88
    ∷ 67
    ∷ 86
    ∷ 66
    ∷ 78
    ∷ 77
    ∷ 60
    ∷ 62
    ∷ 63
    ∷ 0
    ∷ 42
    ∷ 0
    ∷ 32
    ∷ replicate 70 0

-- The branch of the control key; the modifier is used up.
abbrev pub control : ℕ → Keyboard → Keyboard
control scancode k =
    record (if scancode == 38
      then record k { do_clear_screen = true }
      else if scancode == 46
      then record k { cancel_input = true }
      else if leb scancode 58
      then record k { ctrl_char = get_or keys scancode 0 }
      else k) { modifier = 0 }

abbrev pub typed : ℕ → Keyboard → Keyboard
typed c k = record k { read_key = c; nav_key = 0; word_del = false; in_read = true }

abbrev pub navigate : ℕ → Keyboard → Keyboard
navigate n k = record k { read_key = 0; nav_key = n; in_read = true }

-- A key without a modifier held.
abbrev pub plain : ℕ → Keyboard → Keyboard
plain scancode k =
    if leb scancode 58
    then typed (get_or keys scancode 0) k
    else if scancode == 72
    then navigate 1 k
    else if scancode == 80
    then navigate 2 k
    else if scancode == 75
    then navigate 3 k
    else if scancode == 77
    then navigate 4 k
    else record k { modifier = 0 }

-- A key that is pressed.
abbrev pub pressed : ℕ → Keyboard → Keyboard
pressed scancode k =
    if k.modifier == 0 && is_modifier scancode
    then record k { modifier = scancode }
    else if k.modifier == keymod_ctrl
    then control scancode k
    else if k.modifier == keymod_alt && scancode == 14
    then record k { read_key = 0; nav_key = 0; word_del = true; in_read = true; modifier = 0 }
    else if k.modifier == keymod_shft && leb scancode 58
    then typed (get_or shift_keys scancode 0) k
    else if k.modifier == 0
    then plain scancode k
    else record k { modifier = 0 }

unfoldable pub keyboard_handler : ℕ → Keyboard → Keyboard
unfolding is_modifier
keyboard_handler scancode k =
    if bit_and scancode 0x80 != 0
    then if is_modifier (bit_xor scancode 0x80) then record k { modifier = 0 } else k
    else pressed scancode k
