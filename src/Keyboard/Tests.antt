-- ===== src/Keyboard/Tests.antt =====
-- The keyboard driver after `keyboard_init`, and the theorems at it.
use new_attempt.Base.{
  List, [], arith, false, length, refl, replicate, ring_items, ℕ, ◌++◌, ◌∷◌, ◌≡◌,
}
use new_attempt.Keyboard.{
  codes, scancode_table_size, keyboard_poll, scancode_ascii_shift, kb_buffer_size, scancode_ascii,
  Keyboard,
}
use new_attempt.Keyboard.Queue.{typed, IsValid}
use new_attempt.Keyboard.Decode.{typed-keyboard_poll, classify, decode}

abbrev fresh : Keyboard
fresh = record {
  shift_held = false;
  caps_active = false;
  kb_buf = replicate kb_buffer_size 0;
  kb_head = 31;
  kb_tail = 31;
  kb_count = 0;
}

fresh-IsValid : IsValid fresh
fresh-IsValid = omega arith

tables_size :
    (length scancode_ascii ≡ scancode_table_size)
    × (length scancode_ascii_shift ≡ scancode_table_size)
unfolding scancode_ascii scancode_ascii_shift
tables_size = (refl, refl)

-- h, shift down, i, shift up, release of i, enter
abbrev scancodes : List ℕ
scancodes = 0x23 ∷ 0x2A ∷ 0x17 ∷ 0xAA ∷ 0x97 ∷ 0x1C ∷ []

typed-keyboard_poll_example : typed (keyboard_poll fresh scancodes) ≡ codes "hI" ++ (10 ∷ [])
unfolding decode classify scancode_ascii scancode_ascii_shift ring_items
typed-keyboard_poll_example = typed-keyboard_poll fresh scancodes fresh-IsValid
