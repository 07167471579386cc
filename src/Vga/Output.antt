-- ===== src/Vga/Output.antt =====
-- What the parts of the kernel print, as a list of calls of the driver in kernel/vga.c.
use new_attempt.Base.{
  not, ap, true, false, ◌*◌, sym, arith, subst, leb, Bool, none, length-replicate, inr, inl, ◌==◌,
  ◌∙◌, Bool-cases, some, ◌++◌, if◌then◌else◌, [], ◌∷◌, ◌≡◌, ℕ, List, refl,
}
use new_attempt.Vga.{
  hooked, call_hook, blank_cell, width, height, print_back, print_chars, dec_digits, vga_clear,
  hex_digits, cstr, vga_set_color, codes, vga_print_hex, vga_update_cursor, scroll_if_needed,
  put_cell, vga_print_dec, vga_putchar, vga_scroll, place_char, vga_print, CharPtr, Screen,
  vga_println,
}
use new_attempt.Vga.Cursor.{vga_putchar-IsValid, IsValid}
use mathlib.Core.List.{reverse-cons, append_assoc, append-nil, reverse}
use mathlib.Core.Path.{ap₂}

pub data Output : Type 0 where
  -- `vga_print`, `vga_println`, `vga_print_dec`, `vga_print_hex`, `vga_putchar`
  text line : CharPtr → Output
  dec hex put : ℕ → Output
  -- `vga_set_color`, `vga_clear`
  color : ℕ → ℕ → Output
  clear : Output

unfoldable pub show_one : Output → Screen → Screen
unfolding vga_print vga_println vga_print_dec vga_print_hex vga_putchar vga_set_color vga_clear
show_one (text str) s = vga_print s str
show_one (line str) s = vga_println s str
show_one (dec n) s = vga_print_dec s n
show_one (hex n) s = vga_print_hex s n
show_one (put c) s = vga_putchar s c
show_one (color fg bg) s = vga_set_color s fg bg
show_one clear s = vga_clear s

-- The calls, one after the other.
unfoldable pub show : List Output → Screen → Screen
unfolding show_one
show [] s = s
show (o ∷ os) s = show os (show_one o s)

abbrev str_chars : CharPtr → List ℕ
str_chars none = []
str_chars (some str) = cstr str

abbrev dec_chars : ℕ → List ℕ
dec_chars n = if n == 0 then b'0' ∷ [] else reverse (dec_digits 12 n)

-- The characters that a call prints.
unfoldable pub chars_of : Output → List ℕ
chars_of (text str) = str_chars str
chars_of (line str) = str_chars str ++ (10 ∷ [])
chars_of (dec n) = dec_chars n
chars_of (hex n) = cstr (codes "0x") ++ hex_digits 8 n
chars_of (put c) = c ∷ []
chars_of (color fg bg) = []
chars_of clear = []

unfoldable pub all_chars : List Output → List ℕ
unfolding chars_of
all_chars [] = []
all_chars (o ∷ os) = chars_of o ++ all_chars os

-- A call that prints characters and keeps the screen valid and the hook as it is.
record Prints (cs : List ℕ) (s t : Screen) : Type 0 where
  valid : IsValid s → IsValid t
  hook : t.hook ≡ s.hook
  logged : t.sent ≡ (if hooked s then s.sent ++ cs else s.sent)

nothing-Prints :
    (s t : Screen) → (IsValid s → IsValid t) → t.hook ≡ s.hook → t.sent ≡ s.sent → Prints [] s t
nothing-Prints s t v h e = record {
  valid = v;
  hook = h;
  logged = elim (Bool-cases (hooked s)) [
    | inl on ↦ rw (on, append-nil s.sent) e
    | inr off ↦ rw off e
  ];
}

Prints-join :
    (cs ds : List ℕ) (s t u : Screen) → Prints cs s t → Prints ds t u → Prints (cs ++ ds) s u
Prints-join cs ds s t u p q = record {
  valid = λ v. q.valid (p.valid v);
  hook = q.hook ∙ p.hook;
  logged = elim (Bool-cases (hooked s)) [
    | inl on ↦ rw (q.logged, p.hook, p.logged, on) (append_assoc s.sent cs ds)
    | inr off ↦ rw (q.logged, p.hook, p.logged, off) refl
  ];
}

-- The hook and what it was called with stay as they were.
abbrev Keeps : Screen → Screen → Type 0
Keeps s t = (t.hook ≡ s.hook) × (t.sent ≡ s.sent)

if_Keeps : (b : Bool) (s x y : Screen) → Keeps s x → Keeps s y → Keeps s (if b then x else y)
if_Keeps true s x y h k = h
if_Keeps false s x y h k = k

place_char_log : (c : ℕ) (s : Screen) → Keeps s (place_char s c)
unfolding place_char put_cell
place_char_log c s =
    if_Keeps (c == 10) s _ _ (refl, refl)
      (if_Keeps (c == 13) s _ _ (refl, refl)
        (if_Keeps (c == 9) s _ _ (if_Keeps _ s _ _ (refl, refl) (refl, refl)) (
          if_Keeps (c == 8) s _ _ (if_Keeps _ s _ _ (refl, refl) (refl, refl))
            (if_Keeps _ s _ _ (refl, refl) (refl, refl)))))

scroll_log : (s : Screen) → Keeps s (scroll_if_needed s)
unfolding vga_scroll
scroll_log s = if_Keeps (leb height s.vga_row) s _ _ (refl, refl) (refl, refl)

call_hook_log :
    (c : ℕ) (u : Screen)
    → ((call_hook u c).hook ≡ u.hook)
      × ((call_hook u c).sent ≡ (if hooked u then u.sent ++ (c ∷ []) else u.sent))
call_hook_log c u = elim (Bool-cases (hooked u)) [
  | inl on ↦ rw on (refl, refl)
  | inr off ↦ rw off (refl, refl)
]

putchar-Prints : (c : ℕ) (s : Screen) → Prints (c ∷ []) s (vga_putchar s c)
unfolding vga_putchar vga_update_cursor
putchar-Prints c s =
    let u = scroll_if_needed (place_char s c) in
    let (hook, log) = place_char_log c s in
    let (hook1, log1) = scroll_log (place_char s c) in
    let (hook2, log2) = call_hook_log c u in
    record {
      valid = vga_putchar-IsValid c;
      hook = hook2 ∙ hook1 ∙ hook;
      logged =
          log2
          ∙ ap₂ (λ (h : ℕ) (l : List ℕ). if not (h == 0) then l ++ (c ∷ []) else l) (hook1 ∙ hook)
              (log1 ∙ log);
    }

print_chars-Prints : (cs : List ℕ) (s : Screen) → Prints cs s (print_chars cs s)
unfolding print_chars
print_chars-Prints [] s = nothing-Prints s s (λ v. v) refl refl
print_chars-Prints (c ∷ cs) s =
    Prints-join (c ∷ []) cs s (vga_putchar s c) (print_chars cs (vga_putchar s c))
      (putchar-Prints c s) (print_chars-Prints cs (vga_putchar s c))

print-Prints : (str : CharPtr) (s : Screen) → Prints (str_chars str) s (vga_print s str)
unfolding vga_print
print-Prints none s = nothing-Prints s s (λ v. v) refl refl
print-Prints (some str) s = print_chars-Prints (cstr str) s

print_back-Prints : (cs : List ℕ) (s : Screen) → Prints (reverse cs) s (print_back cs s)
unfolding print_back
print_back-Prints [] s = nothing-Prints s s (λ v. v) refl refl
print_back-Prints (c ∷ cs) s =
    subst (λ ds. Prints ds s (vga_putchar (print_back cs s) c)) (sym (reverse-cons c cs))
      (Prints-join (reverse cs) (c ∷ []) s (print_back cs s) (vga_putchar (print_back cs s) c)
        (print_back-Prints cs s) (putchar-Prints c (print_back cs s)))

digits-Prints :
    (b : Bool) (cs : List ℕ) (s : Screen)
    → Prints
        (if b then b'0' ∷ [] else reverse cs)
        s
        (if b then vga_putchar s b'0' else print_back cs s)
digits-Prints true cs s = putchar-Prints b'0' s
digits-Prints false cs s = print_back-Prints cs s

print_dec-Prints : (n : ℕ) (s : Screen) → Prints (dec_chars n) s (vga_print_dec s n)
unfolding vga_print_dec
print_dec-Prints n s = digits-Prints (n == 0) (dec_digits 12 n) s

show_one-Prints : (o : Output) (s : Screen) → Prints (chars_of o) s (show_one o s)
unfolding show_one chars_of vga_println vga_print_hex vga_set_color vga_clear vga_update_cursor
show_one-Prints (text str) s = print-Prints str s
show_one-Prints (line str) s =
    Prints-join (str_chars str) (10 ∷ []) s (vga_print s str) (vga_putchar (vga_print s str) 10)
      (print-Prints str s) (putchar-Prints 10 (vga_print s str))
show_one-Prints (dec n) s = print_dec-Prints n s
show_one-Prints (hex n) s =
    Prints-join (cstr (codes "0x")) (hex_digits 8 n) s (vga_print s (some (codes "0x")))
      (print_chars (hex_digits 8 n) (vga_print s (some (codes "0x"))))
      (print-Prints (some (codes "0x")) s)
      (print_chars-Prints (hex_digits 8 n) (vga_print s (some (codes "0x"))))
show_one-Prints (put c) s = putchar-Prints c s
show_one-Prints (color fg bg) s =
    nothing-Prints s (vga_set_color s fg bg)
      (λ v. record { row = v.row; col = v.col; cells = v.cells }) refl refl
show_one-Prints clear s =
    nothing-Prints s (vga_clear s)
      (λ v. record {
        row = omega arith;
        col = omega arith;
        cells = length-replicate (height * width) (blank_cell s);
      })
      refl refl

show-Prints : (os : List Output) (s : Screen) → Prints (all_chars os) s (show os s)
unfolding show all_chars
show-Prints [] s = nothing-Prints s s (λ v. v) refl refl
show-Prints (o ∷ os) s =
    Prints-join (chars_of o) (all_chars os) s (show_one o s) (show os (show_one o s))
      (show_one-Prints o s) (show-Prints os (show_one o s))

-- With a hook set, `vga_println` calls it with the string and a line end.
pub println_log :
    (str : List ℕ) (s : Screen)
    → hooked s ≡ true
    → (hooked (vga_println s (some str)) ≡ true)
      × ((vga_println s (some str)).sent ≡ s.sent ++ (cstr str ++ (10 ∷ [])))
unfolding show_one chars_of
println_log str s on =
    let p = show_one-Prints (line (some str)) s in
    (ap (λ h. not (h == 0)) p.hook ∙ on, p.logged ∙ rw on refl)

-- Printing a line leaves the hook as it is.
pub println_hook : (str : CharPtr) (s : Screen) → (vga_println s str).hook ≡ s.hook
unfolding show_one
println_hook str s = (show_one-Prints (line str) s).hook

-- The hook stays set.
pub show_hook : (os : List Output) (s : Screen) → (show os s).hook ≡ s.hook
show_hook os s = (show-Prints os s).hook

-- With a hook set, it is called with the characters printed.
pub show_log :
    (os : List Output) (s : Screen) → hooked s ≡ true → (show os s).sent ≡ s.sent ++ all_chars os
show_log os s on = (show-Prints os s).logged ∙ rw on refl

-- Whatever is printed, the cursor stays on the screen and the buffer keeps its size, and the hook, if one
-- is set, is called with exactly the characters printed, in order.
pub show_lem :
    (os : List Output) (s : Screen)
    → IsValid s
    → IsValid (show os s)
      × ((show os s).sent ≡ (if hooked s then s.sent ++ all_chars os else s.sent))
show_lem os s v = let p = show-Prints os s in (p.valid v, p.logged)
