-- ===== src/Vga/Digits.antt =====
-- The numbers that kernel/vga.c prints.
use new_attempt.Base.{
  All, Bool-cases, List, [], arith, inl, inr, length, suc, zero, ℕ, ◌*◌, ◌+◌, ◌-◌, ◌/◌, ◌<◌, ◌==◌,
  ◌^◌, ◌∷◌, ◌≡◌, ◌≤◌,
}
use new_attempt.Vga.{dec_digits}

-- The number that decimal digits say, least digit first.
unfoldable pub value_of : List ℕ → ℕ
value_of [] = 0
value_of (c ∷ cs) = (c - b'0') + 10 * value_of cs

dec_digits_value : (n val : ℕ) → val < 10 ^ n → value_of (dec_digits n val) ≡ val
unfolding dec_digits value_of
dec_digits_value zero val h = omega arith
dec_digits_value (suc n) val h = ground (arith, dec_digits_value n (val / 10) (omega arith))

-- A digit of `vga_print_dec`.
abbrev pub IsDigit : ℕ → Type 0
IsDigit c = (b'0' ≤ c) × (c ≤ b'9')

dec_digits-IsDigit : (n val : ℕ) → All IsDigit (dec_digits n val)
unfolding dec_digits
dec_digits-IsDigit zero val = tt
dec_digits-IsDigit (suc n) val = elim (Bool-cases (val == 0)) [
  | inl e ↦ rw e tt
  | inr e ↦ rw e ((omega arith, omega arith), dec_digits-IsDigit n (val / 10))
]

dec_digits-short : (n m val : ℕ) → val < 10 ^ m → length (dec_digits n val) ≤ m
unfolding dec_digits
dec_digits-short zero m val h = omega arith
dec_digits-short (suc n) zero val h = ground arith
dec_digits-short (suc n) (suc m) val h =
    ground (arith, dec_digits-short n m (val / 10) (omega arith))

-- The digits that `vga_print_dec` puts in `buf` for a number of 32 bits are decimal digits, say that
-- number, and are at most 10, so that the 12 bytes of `buf` are enough.
pub dec_digits_lem :
    (val : ℕ)
    → val < 2 ^ 32
    → (value_of (dec_digits 12 val) ≡ val)
      × All IsDigit (dec_digits 12 val)
      × (length (dec_digits 12 val) ≤ 10)
dec_digits_lem val h = (
  dec_digits_value 12 val (omega arith),
  dec_digits-IsDigit 12 val,
  dec_digits-short 12 10 val (omega arith),
)
