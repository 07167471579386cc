-- ===== src/Idt/Gates.antt =====
-- The gates that kernel/idt.c installs.
use new_attempt.Base.{
  none, ◌%◌, ◌&&◌, leb, some, Option, Bool-cases, ap, arith, get_or, get_or-set_ne, get_or-set_self,
  if◌then◌else◌, inl, inr, length, length-set, ltb, refl, replicate, subst, suc, sym, zero, ℕ, ◌*◌,
  ◌+◌, ◌-◌, ◌<◌, ◌==◌, ◌^◌, ◌∙◌, ◌≡◌, ◌≤◌,
}
use new_attempt.Idt.{
  gate_calls, set_gates, gate_calls, set_gates, blank_gate, Idt, pic_remap, idt_set_gate, idt_init,
  gate_of, Gate,
}

-- The address that an i386 jumps to through a gate: the gate is present and is a 32-bit interrupt gate,
-- and its selector is that of the code segment, which bootloader/boot.asm makes start at 0. Through any
-- other gate it reaches no handler.
unfoldable pub target : Gate → Option ℕ
target g =
    if leb 0x80 g.type_attr && g.type_attr % 0x20 == 0x0E && g.selector == 0x08
    then some (g.offset_lo + g.offset_hi * 0x10000)
    else none

target-gate_of : (handler : ℕ) → handler < 2 ^ 32 → target (gate_of handler) ≡ some handler
unfolding target gate_of
target-gate_of handler h = ap some (omega arith)

-- The gates of the vectors below a bound, set one after the other.
unfoldable install : (ℕ → ℕ) → (ℕ → ℕ) → ℕ → Idt → Idt
unfolding idt_set_gate
install isr irq zero s = s
install isr irq (suc v) s =
    idt_set_gate (install isr irq v s) v (if ltb v 32 then isr v else irq (v - 32))

-- The calls of `idt_init` are these.
set_gates-install :
    (isr irq : ℕ → ℕ) (s : Idt) → set_gates (gate_calls isr irq) s ≡ install isr irq 48 s
unfolding set_gates install
set_gates-install isr irq s = refl

length-install :
    (isr irq : ℕ → ℕ) (n : ℕ) (s : Idt)
    → length (install isr irq n s).idt_table ≡ length s.idt_table
unfolding install idt_set_gate
length-install isr irq zero s = refl
length-install isr irq (suc n) s =
    length-set (install isr irq n s).idt_table n _ ∙ length-install isr irq n s

-- The gate of a vector that has been installed.
install_at :
    (isr irq : ℕ → ℕ) (n v : ℕ) (s : Idt)
    → v < n
    → n ≤ length s.idt_table
    → get_or (install isr irq n s).idt_table v blank_gate
      ≡ gate_of (if ltb v 32 then isr v else irq (v - 32))
unfolding install idt_set_gate
install_at isr irq zero v s lt room = absurd (omega arith)
install_at isr irq (suc n) v s lt room = elim (Bool-cases (v == n)) [
  | inl e ↦
      let same : v ≡ n = ground arith in
      subst
        (λ x.
          get_or (install isr irq (suc n) s).idt_table x blank_gate
          ≡ gate_of (if ltb x 32 then isr x else irq (x - 32)))
        (sym same)
        (get_or-set_self (install isr irq n s).idt_table n _ blank_gate
          (omega (arith, length-install isr irq n s)))
  | inr e ↦
      get_or-set_ne (install isr irq n s).idt_table n v _ blank_gate (ground arith)
      ∙ install_at isr irq n v s (ground arith) (omega arith)
]

-- After `idt_init`, with stubs at 32-bit addresses, the processor reaches through a present interrupt
-- gate of the code segment the exception stub of each
-- vector below 32 and the interrupt stub of each vector from 32 to 47.
pub idt_init-target :
    (isr irq : ℕ → ℕ) (m1 m2 : ℕ) (s : Idt) (v : ℕ)
    → length s.idt_table ≡ 256
    → v < 48
    → (if ltb v 32 then isr v else irq (v - 32)) < 2 ^ 32
    → target (get_or (idt_init isr irq m1 m2 s).idt_table v blank_gate)
      ≡ some (if ltb v 32 then isr v else irq (v - 32))
unfolding idt_init pic_remap
idt_init-target isr irq m1 m2 s v size lt small =
    let s0 : Idt = record s { irq_handlers = replicate 16 0 } in
    ap (λ (x : Idt). target (get_or x.idt_table v blank_gate)) (set_gates-install isr irq s0)
    ∙ ap target (install_at isr irq 48 v s0 lt (omega arith))
    ∙ target-gate_of _ small
