-- ===== src/Serial/Port.antt =====
-- The behaviour of the serial port that adapters/adapter_serial.c relies on, as the 16550 documents it.
use new_attempt.Serial.{com1_mcr, com1_fcr, com1_ier, com1_lcr, com1_lsr, com1_data}
use new_attempt.Base.{◌⊎◌, ◌==◌, true, false, Bool, ◌%◌, ◌/◌, ◌≡◌, ◌<◌, ◌∷◌, List, ℕ, suc, [], ◌++◌}

-- The polls that will find the transmitter busy, the bytes that went out, the bytes that wait, and whether
-- the data register is the divisor's (the divisor latch of the line control register).
pub record Port : Type 0 where
  pub wait : ℕ
  pub out : List ℕ
  pub incoming : List ℕ
  pub latch : Bool

abbrev pub waiting : List ℕ → ℕ
waiting [] = 0
waiting (b ∷ bs) = 1

-- The line status has bit 5 set when the transmitter is free, which it is after fewer than `rounds`
-- polls, and bit 0 set when a byte waits. With the divisor latch off, a byte read from the data register is
-- the next one, and a byte written to it while the transmitter is free goes out; with the latch on, the
-- divisor is written. Bit 7 of the line control register is the latch. The other registers that are
-- written send nothing.
pub record IsPort {C : Type 0} (inb : C → ℕ → ℕ × C) (outb : C → ℕ → ℕ → C) (view : C → Port)
    (rounds : ℕ) : Type 0 where
  pub ready : (c : C) → (view c).wait < rounds
  pub busy :
      (c : C) (n : ℕ)
      → (view c).wait ≡ suc n
      → ((inb c com1_lsr).0 / 0x20 % 2 ≡ 0)
        × (view (inb c com1_lsr).1 ≡ record (view c) { wait = n })
  pub free :
      (c : C)
      → (view c).wait ≡ 0
      → ((inb c com1_lsr).0 / 0x20 % 2 ≡ 1) × (view (inb c com1_lsr).1 ≡ view c)
  pub status : (c : C) → (inb c com1_lsr).0 % 2 ≡ waiting (view c).incoming
  pub status_keeps :
      (c : C)
      → ((view (inb c com1_lsr).1).incoming ≡ (view c).incoming)
        × ((view (inb c com1_lsr).1).latch ≡ (view c).latch)
  pub receive :
      (c : C) (b : ℕ) (bs : List ℕ)
      → (view c).latch ≡ false
      → (view c).incoming ≡ b ∷ bs
      → ((inb c com1_data).0 ≡ b)
        × ((view (inb c com1_data).1).incoming ≡ bs)
        × ((view (inb c com1_data).1).latch ≡ false)
  pub send :
      (c : C) (b : ℕ)
      → (view c).latch ≡ false
      → (view c).wait ≡ 0
      → ((view (outb c com1_data b)).out ≡ (view c).out ++ (b ∷ []))
        × ((view (outb c com1_data b)).incoming ≡ (view c).incoming)
        × ((view (outb c com1_data b)).latch ≡ false)
  pub divisor :
      (c : C) (b : ℕ)
      → (view c).latch ≡ true
      → ((view (outb c com1_data b)).out ≡ (view c).out)
        × ((view (outb c com1_data b)).latch ≡ true)
  pub line_control :
      (c : C) (v : ℕ)
      → ((view (outb c com1_lcr v)).out ≡ (view c).out)
        × ((view (outb c com1_lcr v)).latch ≡ (v / 0x80 % 2 == 1))
  pub others :
      (c : C) (port v : ℕ)
      → (port ≡ com1_ier) ⊎ (port ≡ com1_fcr) ⊎ (port ≡ com1_mcr)
      → ((view (outb c port v)).out ≡ (view c).out)
        × ((view (outb c port v)).latch ≡ (view c).latch)
