-- ===== src/Idt/Tests.antt =====
-- Interrupt tables at boot, and the theorems at them.
use new_attempt.Base.{
  none, some, ◌++◌, [], arith, false, get_or, refl, replicate, true, ℕ, ◌*◌, ◌+◌, ◌∷◌, ◌≡◌,
}
use new_attempt.Idt.{
  irq_send_eoi, irq_register_handler, irq_dispatch, irq_unmask, bit_set, pic2_data, idt_init,
  blank_gate, irq_mask, Idt,
}
use new_attempt.Idt.Gates.{idt_init-target, target}
use new_attempt.Idt.Masks.{irq_mask_lem}
use new_attempt.Idt.Dispatch.{irq_dispatch-irq_register_handler}
use new_attempt.Idt.Stubs.{interrupted, irq, irq_called, execute, Scratch, Cpu}
use new_attempt.Idt.Return.{irq_returns, irq_returns}

abbrev static : Idt
static = record { idt_table = replicate 256 blank_gate; irq_handlers = replicate 16 0; outs = [] }

-- Stubs of 16 bytes each.
abbrev isr_at : ℕ → ℕ
isr_at n = 0x100000 + 16 * n

abbrev irq_at : ℕ → ℕ
irq_at n = 0x100400 + 16 * n

idt_init-target_example :
    target (get_or (idt_init isr_at irq_at 0xB8 0x8E static).idt_table 33 blank_gate)
    ≡ some 0x100410
idt_init-target_example =
    idt_init-target isr_at irq_at 0xB8 0x8E static 33 refl (omega arith) (omega arith)

irq_mask_lem_example :
    ((a : ℕ) × ((irq_mask static 0xB8 9).outs ≡ (pic2_data, a) ∷ []) × (bit_set a 1 ≡ true))
    × ((b : ℕ) × ((irq_unmask static 0xB8 9).outs ≡ (pic2_data, b) ∷ []) × (bit_set b 1 ≡ false))
irq_mask_lem_example = irq_mask_lem static 0xB8 9 1 (omega arith) (omega arith) (omega arith)

-- A handler that counts its calls.
abbrev counting : ℕ → Idt × ℕ → Idt × ℕ
counting f (s, n) = (s, n + f)

irq_dispatch-irq_register_handler_example :
    (irq_dispatch counting 0x2C (irq_register_handler static 12 7, 3)
      ≡ (irq_send_eoi (irq_register_handler static 12 7) 12, 10))
    × ((irq_send_eoi (irq_register_handler static 12 7) 12).outs
        ≡ (irq_register_handler static 12 7).outs ++ ((0xA0, 0x20) ∷ (0x20, 0x20) ∷ []))
irq_dispatch-irq_register_handler_example =
    irq_dispatch-irq_register_handler counting static 3 12 7 (omega arith) refl (omega arith)

-- The program that the keyboard interrupts, and a C function that clears the registers it may.
abbrev running : Cpu
running = record {
  eax = 1;
  ecx = 2;
  edx = 3;
  ebx = 4;
  ebp = 0x90000;
  esi = 5;
  edi = 6;
  esp = 0x8FFF0;
  eip = 0x100000;
  cs = 8;
  eflags = 0x202;
  stack = 7 ∷ [];
}

abbrev clearing : Cpu → Scratch
clearing c = record { in_eax = 0; in_ecx = 0; in_edx = 0; argument = 0 }

irq_returns_example :
    execute clearing (irq_called counting) (irq 1) (interrupted none running, (static, 3))
    ≡ (running, irq_dispatch counting 33 (static, 3))
irq_returns_example =
    irq_returns clearing counting 1 running (static, 3) (omega arith) (omega arith)
