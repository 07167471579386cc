-- ===== src/Keyboard.antt =====
-- kernel/keyboard.c: the scancode decoder and the ring buffer of characters. The controller is the
-- list of the scancodes that it delivers before its status bit reads 0.
pub mod Queue
pub mod Decode
mod Tests
use new_attempt.Base.{
  xor, Bool, List, [], false, get_or, if◌then◌else◌, leb, not, set, true, ℕ, ◌%◌, ◌*◌, ◌++◌, ◌+◌,
  ◌-◌, ◌/◌, ◌<◌, ◌==◌, ◌^◌, ◌||◌, ◌∷◌,
}
use new_attempt.CString.{codes}
use new_attempt.Idt.{Idt, irq_register_handler, irq_unmask}

abbrev pub kb_buffer_size : ℕ
kb_buffer_size = 32

-- The static state of keyboard.c. The two flags are 0 or 1.
pub record Keyboard : Type 0 where
  pub shift_held : Bool
  pub caps_active : Bool
  pub kb_buf : List ℕ
  pub kb_head : ℕ
  pub kb_tail : ℕ
  pub kb_count : ℕ

-- `scancode_ascii`
unfoldable pub scancode_ascii : List ℕ
scancode_ascii =
    0 ∷ 0 ∷ codes "1234567890-="
    ++ 8 ∷ 9 ∷ codes "qwertyuiop[]"
    ++ 10 ∷ 0 ∷ codes "asdfghjkl;'`"
    ++ 0 ∷ codes "\\zxcvbnm,./"
    ++ 0 ∷ codes "*"
    ++ 0 ∷ codes " "

-- `scancode_ascii_shift`
unfoldable pub scancode_ascii_shift : List ℕ
scancode_ascii_shift =
    0 ∷ 0 ∷ codes "!@#$%^&*()_+"
    ++ 8 ∷ 9 ∷ codes "QWERTYUIOP{}"
    ++ 10 ∷ 0 ∷ codes "ASDFGHJKL:\"~"
    ++ 0 ∷ codes "|ZXCVBNM<>?"
    ++ 0 ∷ codes "*"
    ++ 0 ∷ codes " "

-- `SCANCODE_TABLE_SIZE`
abbrev pub scancode_table_size : ℕ
scancode_table_size = 58

-- `(uint8_t)((i + 1) % KB_BUFFER_SIZE)`
abbrev pub next_slot : ℕ → ℕ
next_slot i = (i + 1) % kb_buffer_size % 2 ^ 8

-- A full buffer drops the character.
unfoldable pub kb_push : Keyboard → ℕ → Keyboard
kb_push k c = if leb kb_buffer_size k.kb_count then k else record k {
  kb_buf = set k.kb_buf k.kb_head c;
  kb_head = next_slot k.kb_head;
  kb_count = (k.kb_count + 1) % 2 ^ 8;
}

unfoldable pub keyboard_push : Keyboard → ℕ → Keyboard
unfolding kb_push
keyboard_push k c = kb_push k c

abbrev irq_keyboard : ℕ
irq_keyboard = 1

-- `handler` is the address of `keyboard_poll`, and `m` the mask read from the first controller.
unfoldable pub keyboard_init : ℕ → ℕ → Keyboard × Idt → Keyboard × Idt
unfolding irq_register_handler irq_unmask
keyboard_init handler m (k, s) = (
  record k { shift_held = false; caps_active = false; kb_head = 0; kb_tail = 0; kb_count = 0 },
  irq_unmask (irq_register_handler s irq_keyboard handler) m irq_keyboard,
)

unfoldable pub keyboard_getchar : Keyboard → ℕ × Keyboard
keyboard_getchar k = if k.kb_count == 0 then (0, k) else (
  get_or k.kb_buf k.kb_tail 0,
  record k { kb_tail = next_slot k.kb_tail; kb_count = k.kb_count - 1 },
)

abbrev pub is_shift_press : ℕ → Bool
is_shift_press sc = sc == 0x2A || sc == 0x36

abbrev pub is_shift_release : ℕ → Bool
is_shift_release sc = sc == 0xAA || sc == 0xB6

-- One round of the loop in `keyboard_poll`; `sc & 0x80` is tested by the size of a byte.
unfoldable pub handle_scancode : Keyboard → ℕ → Keyboard
handle_scancode k sc =
    if is_shift_press sc
    then record k { shift_held = true }
    else if is_shift_release sc
    then record k { shift_held = false }
    else if sc == 0x3A
    then record k { caps_active = not k.caps_active }
    else if not (sc / 0x80 % 2 == 0)
    then k
    else if sc == 0xE0
    then k
    else if leb scancode_table_size sc
    then k
    else (let table =
          if xor k.shift_held k.caps_active then scancode_ascii_shift else scancode_ascii in
        let c = get_or table sc 0 in if c == 0 then k else kb_push k c)

unfoldable pub keyboard_poll : Keyboard → List ℕ → Keyboard
unfolding handle_scancode
keyboard_poll k [] = k
keyboard_poll k (sc ∷ scs) = keyboard_poll (handle_scancode k sc) scs
