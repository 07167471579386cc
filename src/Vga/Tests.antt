-- ===== src/Vga/Tests.antt =====
-- The screen after `vga_init`, and the theorems at it.
use new_attempt.Vga.Output.{line, dec, show, show_lem, all_chars}
use new_attempt.Base.{some, ◌∷◌, ◌++◌, All, [], arith, length, refl, replicate, ◌≡◌, ◌≤◌}
use new_attempt.Vga.{codes, dec_digits, Screen}
use new_attempt.Vga.Cursor.{IsValid}
use new_attempt.Vga.Digits.{dec_digits_lem, IsDigit, value_of}

abbrev screen : Screen
screen = record {
  buffer = replicate 2000 0;
  vga_row = 24;
  vga_col = 79;
  vga_color = 10;
  hook = 0;
  cursor = 0;
  sent = [];
}

screen-IsValid : IsValid screen
screen-IsValid = record { row = omega arith; col = omega arith; cells = refl }

dec_digits_lem_example :
    (value_of (dec_digits 12 4096) ≡ 4096)
    × All IsDigit (dec_digits 12 4096)
    × (length (dec_digits 12 4096) ≤ 10)
dec_digits_lem_example = dec_digits_lem 4096 (omega arith)

-- A screen with the hook set.
abbrev mirrored : Screen
mirrored = record screen { hook = 17 }

mirrored-IsValid : IsValid mirrored
mirrored-IsValid = record { row = omega arith; col = omega arith; cells = refl }

show_lem_example :
    IsValid (show (line (some (codes "Plugins: ")) ∷ dec 12 ∷ []) mirrored)
    × ((show (line (some (codes "Plugins: ")) ∷ dec 12 ∷ []) mirrored).sent
        ≡ [] ++ all_chars (line (some (codes "Plugins: ")) ∷ dec 12 ∷ []))
show_lem_example =
    show_lem (line (some (codes "Plugins: ")) ∷ dec 12 ∷ []) mirrored mirrored-IsValid
