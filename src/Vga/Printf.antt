-- ===== src/Vga/Printf.antt =====
-- `vga_printf` of kernel/vga.c, as the calls that it makes of the rest of the driver.
use new_attempt.Vga.{vga_putchar, print_chars, vga_print, Screen, CharPtr, codes}
use new_attempt.CString.{cstr}
use new_attempt.Vga.Output.{show_one, Output, text, dec, hex, put, show}
use new_attempt.Base.{
  refl, ==-ne, inr, inl, Bool-cases, ◌||◌, ◌++◌, ◌-◌, ◌%◌, ◌^◌, ◌≡◌, ◌==◌, ◌≢◌, leb, if◌then◌else◌,
  All, Bool, List, ℕ, true, false, [], ◌∷◌, some, none,
}

-- What a caller passes: a word of 32 bits, or a pointer.
pub data Arg : Type 0 where
  word : ℕ → Arg
  pointer : CharPtr → Arg

-- `va_arg`. A caller passes an argument of the kind asked for; what another one gives is not defined, and
-- reads as 0 here.
abbrev next_word : List Arg → ℕ
next_word [] = 0
next_word (word n ∷ args) = n
next_word (pointer p ∷ args) = 0

abbrev next_pointer : List Arg → CharPtr
next_pointer [] = none
next_pointer (word n ∷ args) = none
next_pointer (pointer p ∷ args) = p

abbrev later : List Arg → List Arg
later [] = []
later (a ∷ args) = args

-- `s ? s : "(null)"`
abbrev or_null : CharPtr → CharPtr
or_null none = some (codes "(null)")
or_null (some s) = some s

-- The case 'd', for an `int` in two's complement.
abbrev signed : ℕ → List Output
signed v = if leb (2 ^ 31) v then put b'-' ∷ dec (2 ^ 32 - v) ∷ [] else dec v ∷ []

-- The loop over the format, outside a conversion (`false`) and behind its `%` (`true`). Behind a `%`
-- the terminator is a character like another, and the loop goes on behind it.
unfoldable pub printf_loop : Bool → List ℕ → List Arg → List Output
printf_loop false [] args = []
printf_loop true [] args = put b'%' ∷ put 0 ∷ []
printf_loop false (c ∷ fmt) args =
    let rest = printf_loop false fmt args in
    let conversion = printf_loop true fmt args in
    if c == 0 then [] else if c == b'%' then conversion else put c ∷ rest
printf_loop true (c ∷ fmt) args =
    let rest = printf_loop false fmt args in
    let taken = printf_loop false fmt (later args) in
    if c == b'c'
    then put (next_word args % 2 ^ 8) ∷ taken
    else if c == b's'
    then text (or_null (next_pointer args)) ∷ taken
    else if c == b'd'
    then signed (next_word args) ++ taken
    else if c == b'u'
    then dec (next_word args) ∷ taken
    else if c == b'x' || c == b'X'
    then hex (next_word args) ∷ taken
    else if c == b'%'
    then put b'%' ∷ rest
    else put b'%' ∷ put c ∷ rest

unfoldable pub vga_printf : Screen → CharPtr → List Arg → Screen
unfolding printf_loop show
vga_printf s none args = s
vga_printf s (some fmt) args = show (printf_loop false fmt args) s

printf_loop-plain :
    (cs : List ℕ) (s : Screen) (args : List Arg)
    → All (λ c. c ≢ b'%') cs
    → show (printf_loop false cs args) s ≡ print_chars (cstr cs) s
unfolding show show_one printf_loop print_chars cstr
printf_loop-plain [] s args plain = refl
printf_loop-plain (c ∷ cs) s args (other, plain) = elim (Bool-cases (c == 0)) [
  | inl e ↦ rw e refl
  | inr e ↦ rw (e, ==-ne c b'%' other) (printf_loop-plain cs (vga_putchar s c) args plain)
]

-- A format without a `%` is printed as `vga_print` prints it, whatever arguments are passed.
pub vga_printf-vga_print :
    (s : Screen) (fmt : List ℕ) (args : List Arg)
    → All (λ c. c ≢ b'%') fmt
    → vga_printf s (some fmt) args ≡ vga_print s (some fmt)
unfolding vga_printf vga_print
vga_printf-vga_print s fmt args plain = printf_loop-plain fmt s args plain
