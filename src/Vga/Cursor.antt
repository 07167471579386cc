-- ===== src/Vga/Cursor.antt =====
-- The cursor of kernel/vga.c stays on the screen.
use new_attempt.Base.{
  Bool-cases, List, [], arith, drop, if◌then◌else◌, inl, inr, leb, length, length-append,
  length-drop, length-replicate, length-set, ltb, none, replicate, some, ℕ, ◌*◌, ◌-◌, ◌<◌, ◌==◌,
  ◌∙◌, ◌∷◌, ◌≡◌, ◌≤◌,
}
use new_attempt.Vga.{
  hooked, cstr, CharPtr, blank_cell, vga_print, vga_update_cursor, scroll_if_needed, vga_println,
  print_chars, vga_putchar, call_hook, vga_scroll, put_cell, wrap, width, place_char, height,
  Screen,
}

-- The cursor is on the screen and the buffer has 80 × 25 cells.
pub record IsValid (s : Screen) : Type 0 where
  pub row : s.vga_row < height
  pub col : s.vga_col < width
  pub cells : length s.buffer ≡ height * width

-- The cursor may be one row below the screen before the scroll.
record IsPlaced (s : Screen) : Type 0 where
  row : s.vga_row ≤ height
  col : s.vga_col < width
  cells : length s.buffer ≡ height * width

wrap-IsPlaced :
    (s : Screen)
    → s.vga_row < height
    → s.vga_col ≤ width
    → length s.buffer ≡ height * width
    → IsPlaced (wrap s)
wrap-IsPlaced s row col cells = elim (Bool-cases (leb width s.vga_col)) [
  | inl e ↦ rw e (record { row = omega arith; col = omega arith; cells = cells })
  | inr e ↦ rw e (record { row = omega arith; col = ground arith; cells = cells })
]

put_cell-length : (s : Screen) (c : ℕ) → length (put_cell s c).buffer ≡ length s.buffer
unfolding put_cell
put_cell-length s c = length-set s.buffer _ _

back-IsPlaced :
    {s : Screen}
    → IsValid s
    → IsPlaced (if ltb 0 s.vga_col then put_cell (record s { vga_col = s.vga_col - 1 }) b' ' else s)
unfolding put_cell
back-IsPlaced {s} v = elim (Bool-cases (ltb 0 s.vga_col)) [
  | inl e ↦ rw e (record {
    row = omega (arith, v.row);
    col = omega (arith, v.col);
    cells = length-set s.buffer _ _ ∙ v.cells;
  })
  | inr e ↦ rw e (record { row = omega (arith, v.row); col = v.col; cells = v.cells })
]

place_char-IsPlaced : {s : Screen} (c : ℕ) → IsValid s → IsPlaced (place_char s c)
unfolding place_char put_cell
place_char-IsPlaced {s} c v = elim (Bool-cases (c == 10)) [
  | inl e ↦
      rw (e, place_char) (record { row = omega (arith, v.row); col = omega arith; cells = v.cells })
  | inr e ↦ elim (Bool-cases (c == 13)) [
    | inl f ↦
        rw (e, f, place_char)
          (record { row = omega (arith, v.row); col = omega arith; cells = v.cells })
    | inr f ↦ elim (Bool-cases (c == 9)) [
      | inl g ↦ rw (e, f, g, place_char) (wrap-IsPlaced _ v.row (omega (arith, v.col)) v.cells)
      | inr g ↦ elim (Bool-cases (c == 8)) [
        | inl h ↦ rw (e, f, g, h, place_char) (back-IsPlaced v)
        | inr h ↦
            rw (e, f, g, h, place_char)
              (wrap-IsPlaced _ v.row (omega (arith, v.col)) (put_cell-length s c ∙ v.cells))
      ]
    ]
  ]
]

scroll-IsValid : {s : Screen} → IsPlaced s → IsValid (scroll_if_needed s)
unfolding vga_scroll
scroll-IsValid {s} p = elim (Bool-cases (leb height s.vga_row)) [
  | inl e ↦
      rw (e, vga_scroll)
        (record {
          row = ground arith;
          col = p.col;
          cells = omega (
            arith,
            length-append (drop width s.buffer) (replicate width (blank_cell s)),
            length-drop width s.buffer,
            length-replicate width (blank_cell s),
            p.cells,
          );
        })
  | inr e ↦ rw e (record { row = ground arith; col = p.col; cells = p.cells })
]

hook-IsValid : {s : Screen} (c : ℕ) → IsValid s → IsValid (call_hook s c)
hook-IsValid {s} c v = elim (Bool-cases (hooked s)) [
  | inl e ↦ rw e (record { row = v.row; col = v.col; cells = v.cells })
  | inr e ↦ rw e (record { row = v.row; col = v.col; cells = v.cells })
]

-- Whatever character is printed, and after a scroll too, `vga_putchar` leaves the cursor on the screen
-- and the buffer at its size.
pub vga_putchar-IsValid : {s : Screen} (c : ℕ) → IsValid s → IsValid (vga_putchar s c)
unfolding vga_putchar vga_update_cursor
vga_putchar-IsValid {s} c v =
    let u = hook-IsValid c (scroll-IsValid (place_char-IsPlaced c v)) in
    record { row = u.row; col = u.col; cells = u.cells }

print_chars-IsValid : (cs : List ℕ) {s : Screen} → IsValid s → IsValid (print_chars cs s)
unfolding print_chars
print_chars-IsValid [] v = v
print_chars-IsValid (c ∷ cs) v = print_chars-IsValid cs (vga_putchar-IsValid c v)

-- Printing a string ends, and leaves the cursor on the screen and the buffer at its size.
pub vga_println-IsValid : {s : Screen} (str : CharPtr) → IsValid s → IsValid (vga_println s str)
unfolding vga_println vga_print
vga_println-IsValid none v = vga_putchar-IsValid 10 v
vga_println-IsValid (some str) v = vga_putchar-IsValid 10 (print_chars-IsValid (cstr str) v)
