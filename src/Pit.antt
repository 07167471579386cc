-- ===== src/Pit.antt =====
-- kernel/pit.h and kernel/pit.c: the interval timer.
use new_attempt.Idt.Masks.{bits}
use new_attempt.Base.{
  [], arith, false, get_or, get_or-set_self, if◌then◌else◌, length, ltb, refl, ℕ, ◌%◌, ◌*◌, ◌++◌,
  ◌+◌, ◌/◌, ◌<◌, ◌^◌, ◌∷◌, ◌≡◌,
}
use new_attempt.Idt.{
  without_bit, bit_set, pic1_data, irq_timer, irq_unmask, outb, irq_register_handler, Idt,
}

abbrev pub pit_base_hz : ℕ
pit_base_hz = 1193182

abbrev pub pit_frequency_hz : ℕ
pit_frequency_hz = 100

abbrev pub pit_channel0 : ℕ
pit_channel0 = 0x40

abbrev pub pit_command : ℕ
pit_command = 0x43

unfoldable pub pit_irq_handler : ℕ → ℕ
pit_irq_handler g_tick_count = (g_tick_count + 1) % 2 ^ 32

-- The reload value, with its cap.
unfoldable pub divisor : ℕ
divisor =
    if ltb 0xFFFF (pit_base_hz / pit_frequency_hz) then 0xFFFF else pit_base_hz / pit_frequency_hz

-- `handler` is the address of `pit_irq_handler`, and `m` the mask read from the first controller.
unfoldable pub pit_init : ℕ → ℕ → Idt → Idt
unfolding divisor
pit_init handler m s =
    let s1 = outb s pit_command 0x36 in
    let s2 = outb s1 pit_channel0 (divisor % 0x100) in
    let s3 = outb s2 pit_channel0 (divisor / 0x100 % 0x100) in
    irq_unmask (irq_register_handler s3 irq_timer handler) m irq_timer

-- `pit_init` registers the handler for line 0, gives the timer the two bytes of 11931, low byte first,
-- and then clears bit 0 of the mask.
pub pit_init_lem :
    (handler m : ℕ) (s : Idt)
    → length s.irq_handlers ≡ 16
    → m < 256
    → (get_or (pit_init handler m s).irq_handlers irq_timer 0 ≡ handler)
      × (lo : ℕ) × (hi : ℕ) × (b : ℕ) × ((pit_init handler m s).outs
          ≡ (((s.outs ++ ((pit_command, 0x36) ∷ [])) ++ ((pit_channel0, lo) ∷ []))
              ++ ((pit_channel0, hi) ∷ []))
            ++ ((pic1_data, b) ∷ []))
      × (lo + hi * 0x100 ≡ 11931)
      × (bit_set b 0 ≡ false)
unfolding pit_init divisor irq_register_handler irq_unmask
pit_init_lem handler m s size h = (
  get_or-set_self s.irq_handlers 0 handler 0 (omega arith),
  0x9B,
  0x2E,
  without_bit m 0 % 2 ^ 8,
  refl,
  refl,
  (bits 0 0 m (omega arith) (omega arith) h).1,
)
