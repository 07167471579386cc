-- ===== src/Idt/Stubs.antt =====
-- The assembly stubs of kernel/idt.c, instruction by instruction, on the registers of an i386 and its
-- stack. `stack` are the words from `esp` upward. `eip`, `cs` and `eflags` are those of the
-- interrupted code until `iret` loads them again: nothing between reads them.
use new_attempt.Base.{
  Bool, List, [], drop, get_or, if◌then◌else◌, none, set, some, leb, ◌==◌, ◌||◌, ◌&&◌, ltb, Option,
  ℕ, ◌%◌, ◌+◌, ◌-◌, ◌/◌, ◌^◌, ◌∷◌, true, false,
}
use new_attempt.Idt.{irq_dispatch, Idt}

pub record Cpu : Type 0 where
  pub eax : ℕ
  pub ecx : ℕ
  pub edx : ℕ
  pub ebx : ℕ
  pub ebp : ℕ
  pub esi : ℕ
  pub edi : ℕ
  pub esp : ℕ
  pub eip : ℕ
  pub cs : ℕ
  pub eflags : ℕ
  pub stack : List ℕ

pub data Instr : Type 0 where
  -- `pushl $n`, `add $n, %esp`, `lea n(%esp), %eax`
  pushl add_esp lea_eax : ℕ → Instr
  pusha popa push_eax call iret : Instr

abbrev pub word : Cpu → ℕ → ℕ
word c i = get_or c.stack i 0

unfoldable pub push : ℕ → Cpu → Cpu
push v c = record c { esp = (c.esp + 2 ^ 32 - 4) % 2 ^ 32; stack = v ∷ c.stack }

unfoldable pub release : ℕ → Cpu → Cpu
release n c = record c { esp = (c.esp + n) % 2 ^ 32; stack = drop (n / 4) c.stack }

-- The words that a pointer into the stack points to.
abbrev pub pointed : ℕ → Cpu → List ℕ
pointed p c = drop ((p + 2 ^ 32 - c.esp) % 2 ^ 32 / 4) c.stack

-- What a C function may leave in the registers that its caller saves, and in its argument.
pub record Scratch : Type 0 where
  pub in_eax : ℕ
  pub in_ecx : ℕ
  pub in_edx : ℕ
  pub argument : ℕ

-- `dispatch` is the C function that is called, on the words its argument points to.
module _ {ℓ} {W : Type ℓ} (scratch : Cpu → Scratch) (dispatch : List ℕ → W → W) where
  unfoldable pub step : Instr → Cpu × W → Cpu × W
  unfolding push release
  step (pushl n) (c, w) = (push n c, w)
  step (add_esp n) (c, w) = (release n c, w)
  step (lea_eax n) (c, w) = (record c { eax = (c.esp + n) % 2 ^ 32 }, w)
  step pusha (c, w) = (
    record c {
      esp = (c.esp + 2 ^ 32 - 32) % 2 ^ 32;
      stack = c.edi ∷ c.esi ∷ c.ebp ∷ c.esp ∷ c.ebx ∷ c.edx ∷ c.ecx ∷ c.eax ∷ c.stack;
    },
    w,
  )
  step popa (c, w) = (
    record (release 32 c) {
      edi = word c 0;
      esi = word c 1;
      ebp = word c 2;
      ebx = word c 4;
      edx = word c 5;
      ecx = word c 6;
      eax = word c 7;
    },
    w,
  )
  step push_eax (c, w) = (push c.eax c, w)
  step call (c, w) = (
    record c {
      eax = (scratch c).in_eax;
      ecx = (scratch c).in_ecx;
      edx = (scratch c).in_edx;
      stack = set c.stack 0 (scratch c).argument;
    },
    dispatch (pointed (word c 0) c) w,
  )
  step iret (c, w) = (record (release 12 c) { eip = word c 0; cs = word c 1; eflags = word c 2 }, w)

  unfoldable pub execute : List Instr → Cpu × W → Cpu × W
  unfolding step
  execute [] s = s
  execute (i ∷ is) s = execute is (step i s)

unfoldable pub isr_common : List Instr
isr_common = pusha ∷ lea_eax 32 ∷ push_eax ∷ call ∷ add_esp 4 ∷ popa ∷ add_esp 8 ∷ iret ∷ []

-- The same instructions; only the function called is another.
abbrev pub irq_common : List Instr
irq_common = isr_common

-- The code of a stub up to the end of the code that its `jmp` reaches.
unfoldable pub isr_noerr : ℕ → List Instr
unfolding isr_common
isr_noerr n = pushl 0 ∷ pushl n ∷ isr_common

unfoldable pub isr_hwerr : ℕ → List Instr
unfolding isr_common
isr_hwerr n = pushl n ∷ isr_common

unfoldable pub irq_stub : ℕ → List Instr
unfolding isr_common
irq_stub vec = pushl 0 ∷ pushl vec ∷ irq_common

-- The vector of `irq n`.
unfoldable pub irq_vector : ℕ → ℕ
irq_vector n =
    get_or (32 ∷ 33 ∷ 34 ∷ 35 ∷ 36 ∷ 37 ∷ 38 ∷ 39 ∷ 40 ∷ 41 ∷ 42 ∷ 43 ∷ 44 ∷ 45 ∷ 46 ∷ 47 ∷ []) n 0

-- The macros that make `isr0` to `isr31`, `true` for ISR_HWERR.
abbrev pub hardware_errors : List Bool
hardware_errors =
    false ∷ false ∷ false ∷ false ∷ false ∷ false ∷ false ∷ false ∷ true ∷ false ∷ true ∷ true
    ∷ true ∷ true ∷ true ∷ false ∷ false ∷ true ∷ false ∷ false ∷ false ∷ false ∷ false ∷ false
    ∷ false ∷ false ∷ false ∷ false ∷ false ∷ false ∷ true ∷ false ∷ []

unfoldable pub pushes_error : ℕ → Bool
pushes_error n = get_or hardware_errors n false

unfoldable pub isr : ℕ → List Instr
unfolding pushes_error
isr n = if pushes_error n then isr_hwerr n else isr_noerr n

unfoldable pub irq : ℕ → List Instr
unfolding irq_stub irq_vector
irq n = irq_stub (irq_vector n)

-- The stub that the gate of a vector below 48 leads to.
unfoldable pub stub : ℕ → List Instr
unfolding isr irq
stub vector = if ltb vector 32 then isr vector else irq (vector - 32)

-- What the processor pushes before it runs a stub, an error code last.
unfoldable pub interrupted : Option ℕ → Cpu → Cpu
unfolding push
interrupted none c = push c.eip (push c.cs (push c.eflags c))
interrupted (some error) c = push error (push c.eip (push c.cs (push c.eflags c)))

-- The vectors for which the processor is documented to push an error code, less 21 and 29, which need
-- features that the kernel leaves off.
unfoldable pub documented_error : ℕ → Bool
documented_error v = v == 8 || leb 10 v && leb v 14 || v == 17 || v == 30

unfoldable pub taken : ℕ → ℕ → Cpu → Cpu
unfolding interrupted documented_error
taken vector error c = interrupted (if documented_error vector then some error else none) c

-- `irq_dispatch` reads the vector from its frame.
unfoldable pub irq_called : {W : Type 0} → (ℕ → Idt × W → Idt × W) → List ℕ → Idt × W → Idt × W
unfolding irq_dispatch
irq_called handle frame s = irq_dispatch handle (get_or frame 0 0) s
