-- ===== src/Idt.antt =====
-- kernel/idt.h and kernel/idt.c: the gates, the interrupt dispatcher and the interrupt controllers. The
-- addresses of the assembly stubs are parameters, `isr n` and `irq n`; their code is in Idt/Stubs.
-- `outs` are the bytes written to ports, in order; a byte that the code reads from a port is an
-- argument.
pub mod Gates
pub mod Masks
pub mod Dispatch
pub mod Stubs
pub mod Return
mod Tests
use new_attempt.Base.{
  Bool, List, [], get_or, if◌then◌else◌, leb, ltb, not, replicate, set, suc, zero, ℕ, ◌%◌, ◌&&◌,
  ◌++◌, ◌+◌, ◌-◌, ◌/◌, ◌==◌, ◌^◌, ◌∷◌,
}

abbrev pub irq_base : ℕ
irq_base = 0x20

abbrev pub irq_timer : ℕ
irq_timer = 0

abbrev pub pic1_cmd : ℕ
pic1_cmd = 0x20

abbrev pub pic1_data : ℕ
pic1_data = 0x21

abbrev pub pic2_cmd : ℕ
pic2_cmd = 0xA0

abbrev pub pic2_data : ℕ
pic2_data = 0xA1

abbrev pub pic_eoi : ℕ
pic_eoi = 0x20

-- `idt_entry_t`
pub record Gate : Type 0 where
  pub offset_lo : ℕ
  pub selector : ℕ
  pub reserved : ℕ
  pub type_attr : ℕ
  pub offset_hi : ℕ

abbrev pub blank_gate : Gate
blank_gate = record { offset_lo = 0; selector = 0; reserved = 0; type_attr = 0; offset_hi = 0 }

-- `idt_table` and `irq_handlers`, with what was written to the ports. A handler is its address.
pub record Idt : Type 0 where
  pub idt_table : List Gate
  pub irq_handlers : List ℕ
  pub outs : List (ℕ × ℕ)

unfoldable pub gate_of : ℕ → Gate
gate_of handler = record {
  offset_lo = handler % 0x10000;
  selector = 0x08;
  reserved = 0;
  type_attr = 0x8E;
  offset_hi = handler / 0x10000 % 0x10000;
}

unfoldable pub idt_set_gate : Idt → ℕ → ℕ → Idt
idt_set_gate s vector handler = record s { idt_table = set s.idt_table vector (gate_of handler) }

abbrev pub outb : Idt → ℕ → ℕ → Idt
outb s port value = record s { outs = s.outs ++ ((port, value) ∷ []) }

-- The writes of `pic_remap`, after it has read the masks `m1` and `m2`. The waits between them write
-- nothing that the controllers read.
unfoldable pub pic_remap : Idt → ℕ → ℕ → Idt
pic_remap s m1 m2 = record s {
  outs =
      s.outs
      ++ ((pic1_cmd, 0x11)
          ∷ (pic2_cmd, 0x11)
          ∷ (pic1_data, irq_base)
          ∷ (pic2_data, irq_base + 8)
          ∷ (pic1_data, 0x04)
          ∷ (pic2_data, 0x02)
          ∷ (pic1_data, 0x01)
          ∷ (pic2_data, 0x01)
          ∷ (pic1_data, m1)
          ∷ (pic2_data, m2)
          ∷ []);
}

-- The calls of `idt_set_gate` in `idt_init`, in order: the vector and the stub's address.
abbrev pub gate_calls : (ℕ → ℕ) → (ℕ → ℕ) → List (ℕ × ℕ)
gate_calls isr irq =
    (0, isr 0)
    ∷ (1, isr 1)
    ∷ (2, isr 2)
    ∷ (3, isr 3)
    ∷ (4, isr 4)
    ∷ (5, isr 5)
    ∷ (6, isr 6)
    ∷ (7, isr 7)
    ∷ (8, isr 8)
    ∷ (9, isr 9)
    ∷ (10, isr 10)
    ∷ (11, isr 11)
    ∷ (12, isr 12)
    ∷ (13, isr 13)
    ∷ (14, isr 14)
    ∷ (15, isr 15)
    ∷ (16, isr 16)
    ∷ (17, isr 17)
    ∷ (18, isr 18)
    ∷ (19, isr 19)
    ∷ (20, isr 20)
    ∷ (21, isr 21)
    ∷ (22, isr 22)
    ∷ (23, isr 23)
    ∷ (24, isr 24)
    ∷ (25, isr 25)
    ∷ (26, isr 26)
    ∷ (27, isr 27)
    ∷ (28, isr 28)
    ∷ (29, isr 29)
    ∷ (30, isr 30)
    ∷ (31, isr 31)
    ∷ (32, irq 0)
    ∷ (33, irq 1)
    ∷ (34, irq 2)
    ∷ (35, irq 3)
    ∷ (36, irq 4)
    ∷ (37, irq 5)
    ∷ (38, irq 6)
    ∷ (39, irq 7)
    ∷ (40, irq 8)
    ∷ (41, irq 9)
    ∷ (42, irq 10)
    ∷ (43, irq 11)
    ∷ (44, irq 12)
    ∷ (45, irq 13)
    ∷ (46, irq 14)
    ∷ (47, irq 15)
    ∷ []

unfoldable pub set_gates : List (ℕ × ℕ) → Idt → Idt
unfolding idt_set_gate
set_gates [] s = s
set_gates ((vector, handler) ∷ more) s = set_gates more (idt_set_gate s vector handler)

unfoldable pub idt_init : (ℕ → ℕ) → (ℕ → ℕ) → ℕ → ℕ → Idt → Idt
unfolding set_gates pic_remap
idt_init isr irq m1 m2 s =
    let s1 = set_gates (gate_calls isr irq) (record s { irq_handlers = replicate 16 0 }) in
    outb (outb (pic_remap s1 m1 m2) pic1_data 0xFF) pic2_data 0xFF

unfoldable pub irq_register_handler : Idt → ℕ → ℕ → Idt
irq_register_handler s irq handler =
    if ltb irq 16 then record s { irq_handlers = set s.irq_handlers irq handler } else s

unfoldable pub irq_send_eoi : Idt → ℕ → Idt
irq_send_eoi s irq =
    let s1 : Idt = if leb 8 irq then outb s pic2_cmd pic_eoi else s in outb s1 pic1_cmd pic_eoi

-- A handler may change the tables and the rest of the kernel's state `W`.
module _ {W : Type 0} (call : ℕ → Idt × W → Idt × W) where
  unfoldable pub irq_dispatch : ℕ → Idt × W → Idt × W
  unfolding irq_send_eoi
  irq_dispatch vector (s, w) =
      let irq = (vector + 2 ^ 32 - irq_base) % 2 ^ 8 in
      let handler = get_or s.irq_handlers irq 0 in
      let (s1, w1) = call handler (s, w) in
      if ltb irq 16 && not (handler == 0)
      then (irq_send_eoi s1 irq, w1)
      else (irq_send_eoi s irq, w)

-- The port and the bit of an interrupt line.
abbrev pub line_port : ℕ → ℕ
line_port irq = if ltb irq 8 then pic1_data else pic2_data

abbrev pub line_bit : ℕ → ℕ
line_bit irq = if ltb irq 8 then irq else irq - 8

abbrev pub bit_set : ℕ → ℕ → Bool
bit_set m bit = m / 2 ^ bit % 2 == 1

-- `m | (1u << bit)` and `m & ~(1u << bit)` for a mask of 8 bits
unfoldable pub with_bit : ℕ → ℕ → ℕ
with_bit m bit = if bit_set m bit then m else m + 2 ^ bit

unfoldable pub without_bit : ℕ → ℕ → ℕ
without_bit m bit = if bit_set m bit then m - 2 ^ bit else m

unfoldable pub irq_mask : Idt → ℕ → ℕ → Idt
unfolding with_bit
irq_mask s m irq = outb s (line_port irq) (with_bit m (line_bit irq) % 2 ^ 8)

unfoldable pub irq_unmask : Idt → ℕ → ℕ → Idt
unfolding without_bit
irq_unmask s m irq = outb s (line_port irq) (without_bit m (line_bit irq) % 2 ^ 8)
