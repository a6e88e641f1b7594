-- ===== src/Console/Keyboard/Keys.antt =====
-- What kernel/dev/keyboard.c tells the readers: one event at a time, and every printable character.
use rtjn_kernel.Prelude.{
  ℕ, ◌+◌, ◌≤◌, ◌<◌, ◌≡◌, refl, sym, ◌∙◌, arith, List, [], ◌∷◌, Bool, true, false, if_intro, ◌&&◌,
  ◌||◌, leb, ◌==◌, ◌!=◌, ==→≡, if◌then◌else◌, get_or, bit_and, bit_xor, ◌⊎◌, inl, inr, not,
  Bool-cases, leb→le,
}
use rtjn_kernel.Prelude.{and_true, all_from, all_from-each}
use rtjn_kernel.Prelude.Bits.{bit_and-pow}
use rtjn_kernel.Console.Keyboard.{
  Keyboard, is_modifier, keymod_alt, keymod_ctrl, keymod_shft, keys, shift_keys, control, plain,
  pressed, keyboard_handler,
}

-- A character is there alone: no arrow and no word deletion stands beside it.
abbrev pub OneEvent : Keyboard → Type 0
OneEvent k = (k.read_key ≡ 0) ⊎ (k.nav_key ≡ 0) × (k.word_del ≡ false)

control-OneEvent : (scancode : ℕ) (k : Keyboard) → OneEvent k → OneEvent (control scancode k)
control-OneEvent scancode k h =
    if_intro (λ (j : Keyboard). OneEvent (record j { modifier = 0 })) (scancode == 38) (λ _. h)
      (λ _.
        if_intro (λ (j : Keyboard). OneEvent (record j { modifier = 0 })) (scancode == 46) (λ _. h)
          (λ _.
            if_intro (λ (j : Keyboard). OneEvent (record j { modifier = 0 })) (leb scancode 58)
              (λ _. h) (λ _. h)))

plain-OneEvent : (scancode : ℕ) (k : Keyboard) → OneEvent k → OneEvent (plain scancode k)
plain-OneEvent scancode k h =
    if_intro OneEvent (leb scancode 58) (λ _. inr (refl, refl))
      (λ _.
        if_intro OneEvent (scancode == 72) (λ _. inl refl)
          (λ _.
            if_intro OneEvent (scancode == 80) (λ _. inl refl)
              (λ _.
                if_intro OneEvent (scancode == 75) (λ _. inl refl)
                  (λ _. if_intro OneEvent (scancode == 77) (λ _. inl refl) (λ _. h)))))

pressed-OneEvent : (scancode : ℕ) (k : Keyboard) → OneEvent k → OneEvent (pressed scancode k)
pressed-OneEvent scancode k h =
    if_intro OneEvent (k.modifier == 0 && is_modifier scancode) (λ _. h)
      (λ _.
        if_intro OneEvent (k.modifier == keymod_ctrl) (λ _. control-OneEvent scancode k h)
          (λ _.
            if_intro OneEvent (k.modifier == keymod_alt && scancode == 14) (λ _. inl refl)
              (λ _.
                if_intro OneEvent (k.modifier == keymod_shft && leb scancode 58)
                  (λ _. inr (refl, refl))
                  (λ _.
                    if_intro OneEvent (k.modifier == 0) (λ _. plain-OneEvent scancode k h)
                      (λ _. h)))))

-- Every scancode keeps the invariant that while a character waits for the reader, no arrow and
-- no word deletion does.
pub keyboard_handler-OneEvent :
    (scancode : ℕ) (k : Keyboard) → OneEvent k → OneEvent (keyboard_handler scancode k)
unfolding keyboard_handler
keyboard_handler-OneEvent scancode k h =
    if_intro OneEvent (bit_and scancode 0x80 != 0)
      (λ _. if_intro OneEvent (is_modifier (bit_xor scancode 0x80)) (λ _. h) (λ _. h))
      (λ _. pressed-OneEvent scancode k h)

key_down : (scancode : ℕ) → scancode < 128 → (bit_and scancode 0x80 != 0) ≡ false
key_down scancode h =
    let clear : bit_and scancode 0x80 ≡ 0 = omega (arith, bit_and-pow scancode 7) in rw clear refl

-- A key without and with the shift key held.
plain_key :
    (scancode : ℕ) (k : Keyboard)
    → k.modifier ≡ 0
    → scancode ≤ 58
    → is_modifier scancode ≡ false
    → (keyboard_handler scancode k).read_key ≡ get_or keys scancode 0
unfolding keyboard_handler
plain_key scancode k m le f =
    let fits : leb scancode 58 ≡ true = ground arith in
    rw (key_down scancode (omega arith)) (rw m (rw f (rw fits refl)))

shift_key :
    (scancode : ℕ) (k : Keyboard)
    → k.modifier ≡ keymod_shft
    → scancode ≤ 58
    → (keyboard_handler scancode k).read_key ≡ get_or shift_keys scancode 0
unfolding keyboard_handler
shift_key scancode k m le =
    let fits : leb scancode 58 ≡ true = ground arith in
    rw (key_down scancode (omega arith)) (rw m (rw fits refl))

not-true : (b : Bool) → not b ≡ true → b ≡ false
not-true true h = sym h
not-true false h = refl

-- The scancode of a character in a table, looked for from `i` on.
abbrev scan_for : ℕ → ℕ → List ℕ → ℕ
scan_for c i [] = 0
scan_for c i (x ∷ xs) = if x == c then i else scan_for c (i + 1) xs

-- The character has a key that types it alone.
unfoldable is_plain : ℕ → Bool
unfolding is_modifier
is_plain c =
    let scancode = scan_for c 0 keys in
    leb scancode 58 && (not (is_modifier scancode) && get_or keys scancode 0 == c)

-- The character has a key that types it with shift.
unfoldable is_shifted : ℕ → Bool
is_shifted c =
    let scancode = scan_for c 0 shift_keys in leb scancode 58 && get_or shift_keys scancode 0 == c

has_key : all_from (λ c. is_plain c || is_shifted c) 32 95 ≡ true
unfolding is_plain is_shifted
has_key = refl

-- A key, and whether shift is held for it, that types a character whatever the state.
abbrev pub Types : ℕ → Type 0
Types c =
    (scancode modifier : ℕ) × ((modifier ≡ 0) ⊎ (modifier ≡ keymod_shft))
    × ((k : Keyboard) → k.modifier ≡ modifier → (keyboard_handler scancode k).read_key ≡ c)

plain-Types : (c : ℕ) → is_plain c ≡ true → Types c
unfolding is_plain
plain-Types c h =
    let scancode = scan_for c 0 keys in
    let (le, rest) = and_true (leb scancode 58) _ h in
    let (free, found) = and_true (not (is_modifier scancode)) (get_or keys scancode 0 == c) rest in
    (
      scancode,
      0,
      inl refl,
      λ k m.
          plain_key scancode k m (leb→le scancode 58 le) (not-true (is_modifier scancode) free)
          ∙ ==→≡ (get_or keys scancode 0) c found,
    )

shifted-Types : (c : ℕ) → is_shifted c ≡ true → Types c
unfolding is_shifted
shifted-Types c h =
    let scancode = scan_for c 0 shift_keys in
    let (le, found) = and_true (leb scancode 58) (get_or shift_keys scancode 0 == c) h in
    (
      scancode,
      keymod_shft,
      inr refl,
      λ k m.
          shift_key scancode k m (leb→le scancode 58 le)
          ∙ ==→≡ (get_or shift_keys scancode 0) c found,
    )

-- Each of the 95 printable characters has a key that types it, alone or with shift held, in
-- every state of the other globals.
pub printable-Types : (c : ℕ) → 32 ≤ c → c < 127 → Types c
printable-Types c lo hi =
    let typed = all_from-each (λ c. is_plain c || is_shifted c) 95 32 c has_key lo (omega arith) in
    elim (Bool-cases (is_plain c)) [
      | inl p ↦ plain-Types c p
      | inr f ↦ shifted-Types c (rw f at typed)
    ]
