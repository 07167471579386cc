-- ===== src/Vga.antt =====
-- kernel/vga.c: the text screen. `buffer` is VGA_BUFFER, 80 × 25 cells; `cursor` is the position that
-- the controller was given last, `hook` is the address in `g_serial_hook`, 0 for NULL, and `sent` are
-- the characters that it was called with, in order. `|` of values that share no bit is written as a sum.
pub mod Cursor
pub mod Digits
pub mod Output
pub mod Printf
mod Tests
use new_attempt.Base.{
  Bool, List, [], drop, get_or, if◌then◌else◌, leb, ltb, none, not, replicate, set, some, suc, zero,
  ℕ, ◌%◌, ◌*◌, ◌++◌, ◌+◌, ◌-◌, ◌/◌, ◌==◌, ◌^◌, ◌∷◌,
}
use new_attempt.CString.{codes, CharPtr, cstr}

abbrev pub width : ℕ
width = 80

abbrev pub height : ℕ
height = 25

abbrev pub light_green : ℕ
light_green = 10

abbrev pub black : ℕ
black = 0

abbrev pub cyan : ℕ
cyan = 3

abbrev pub red : ℕ
red = 4

abbrev pub light_grey : ℕ
light_grey = 7

abbrev pub dark_grey : ℕ
dark_grey = 8

abbrev pub light_cyan : ℕ
light_cyan = 11

abbrev pub yellow : ℕ
yellow = 14

abbrev pub white : ℕ
white = 15

-- The static state of vga.c, and what it has written to the screen, the controller and the hook.
pub record Screen : Type 0 where
  pub buffer : List ℕ
  pub vga_row : ℕ
  pub vga_col : ℕ
  pub vga_color : ℕ
  pub hook : ℕ
  pub cursor : ℕ
  pub sent : List ℕ

unfoldable pub vga_make_color : ℕ → ℕ → ℕ
vga_make_color fg bg = (bg * 16 + fg % 16) % 2 ^ 8

unfoldable pub vga_make_entry : ℕ → ℕ → ℕ
vga_make_entry c color = c % 2 ^ 8 + color * 256

unfoldable pub vga_update_cursor : Screen → Screen
vga_update_cursor s = record s { cursor = (s.vga_row * width + s.vga_col) % 2 ^ 16 }

abbrev pub blank_cell : Screen → ℕ
blank_cell s = vga_make_entry b' ' s.vga_color

-- The rows from the second on move up by one, and the last one is cleared.
unfoldable pub vga_scroll : Screen → Screen
vga_scroll s = record s {
  buffer = drop width s.buffer ++ replicate width (blank_cell s);
  vga_row = if ltb 0 s.vga_row then height - 1 else s.vga_row;
}

unfoldable pub vga_clear : Screen → Screen
unfolding vga_update_cursor
vga_clear s =
    vga_update_cursor
      (record s { buffer = replicate (height * width) (blank_cell s); vga_row = 0; vga_col = 0 })

unfoldable pub vga_set_color : Screen → ℕ → ℕ → Screen
vga_set_color s fg bg = record s { vga_color = vga_make_color fg bg }

unfoldable pub vga_init : Screen → Screen
unfolding vga_clear
vga_init s =
    vga_clear (record s { vga_row = 0; vga_col = 0; vga_color = vga_make_color light_green black })

unfoldable pub vga_set_cursor : Screen → ℕ → ℕ → Screen
unfolding vga_update_cursor
vga_set_cursor s row col = vga_update_cursor (record s { vga_row = row; vga_col = col })

abbrev pub next_row : Screen → Screen
next_row s = record s { vga_col = 0; vga_row = (s.vga_row + 1) % 2 ^ 8 }

-- `VGA_BUFFER[vga_row * VGA_WIDTH + vga_col] = vga_make_entry(c, vga_color)`
unfoldable pub put_cell : Screen → ℕ → Screen
put_cell s c = record s {
  buffer = set s.buffer (s.vga_row * width + s.vga_col) (vga_make_entry c s.vga_color);
}

-- `if (vga_col >= VGA_WIDTH) { vga_col = 0; vga_row++; }`
abbrev pub wrap : Screen → Screen
wrap s = if leb width s.vga_col then next_row s else s

-- The branches of `vga_putchar` before the scroll.
unfoldable pub place_char : Screen → ℕ → Screen
unfolding put_cell
place_char s c =
    if c == 10
    then next_row s
    else if c == 13
    then record s { vga_col = 0 }
    else if c == 9
    then wrap (record s { vga_col = (s.vga_col + 8) / 8 * 8 % 2 ^ 8 })
    else if c == 8
    then (if ltb 0 s.vga_col then put_cell (record s { vga_col = s.vga_col - 1 }) b' ' else s)
    else wrap (record (put_cell s c) { vga_col = (s.vga_col + 1) % 2 ^ 8 })

abbrev pub scroll_if_needed : Screen → Screen
scroll_if_needed s = if leb height s.vga_row then vga_scroll s else s

-- `g_serial_hook` is set.
abbrev pub hooked : Screen → Bool
hooked s = not (s.hook == 0)

-- `if (g_serial_hook) g_serial_hook(c);` for the call, which `sent` takes up; what the function called
-- does is its own module's.
abbrev pub call_hook : Screen → ℕ → Screen
call_hook s c = if hooked s then record s { sent = s.sent ++ (c ∷ []) } else s

unfoldable pub vga_putchar : Screen → ℕ → Screen
unfolding place_char vga_scroll vga_update_cursor
vga_putchar s c = vga_update_cursor (call_hook (scroll_if_needed (place_char s c)) c)

-- The characters of a string, one after the other.
unfoldable pub print_chars : List ℕ → Screen → Screen
print_chars [] s = s
print_chars (c ∷ cs) s = print_chars cs (vga_putchar s c)

unfoldable pub vga_print : Screen → CharPtr → Screen
unfolding print_chars cstr
vga_print s none = s
vga_print s (some str) = print_chars (cstr str) s

unfoldable pub vga_println : Screen → CharPtr → Screen
unfolding vga_print
vga_println s str = vga_putchar (vga_print s str) 10

unfoldable pub vga_puts : Screen → CharPtr → Screen
unfolding vga_print
vga_puts s str = vga_print s str

-- `hex[d]`
abbrev pub hex_digit : ℕ → ℕ
hex_digit d = get_or (codes "0123456789ABCDEF") d 0

-- The loop of `vga_print_hex`, with the digits left.
unfoldable pub hex_digits : ℕ → ℕ → List ℕ
hex_digits zero val = []
hex_digits (suc n) val = hex_digit (val / 16 ^ n % 16) ∷ hex_digits n val

unfoldable pub vga_print_hex : Screen → ℕ → Screen
unfolding vga_print print_chars hex_digits
vga_print_hex s val = print_chars (hex_digits 8 val) (vga_print s (some (codes "0x")))

-- The loop that fills `buf` in `vga_print_dec`, least digit first, with the rounds that `buf` has
-- room for.
unfoldable pub dec_digits : ℕ → ℕ → List ℕ
dec_digits zero val = []
dec_digits (suc n) val =
    let more = dec_digits n (val / 10) in if val == 0 then [] else (b'0' + val % 10) ∷ more

-- `for (j = i - 1; j >= 0; j--) vga_putchar(buf[j]);`
unfoldable pub print_back : List ℕ → Screen → Screen
print_back [] s = s
print_back (c ∷ cs) s = vga_putchar (print_back cs s) c

unfoldable pub vga_print_dec : Screen → ℕ → Screen
unfolding print_back dec_digits
vga_print_dec s val = if val == 0 then vga_putchar s b'0' else print_back (dec_digits 12 val) s

unfoldable pub vga_set_serial_hook : Screen → ℕ → Screen
vga_set_serial_hook s fn = record s { hook = fn }
