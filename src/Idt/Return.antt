-- ===== src/Idt/Return.antt =====
-- The stubs of kernel/idt.c return to the interrupted code.
use new_attempt.Base.{
  Bool, true, false, Bool-cases, inl, inr, if◌then◌else◌, List, arith, none, some, ℕ, ◌<◌, ◌^◌, ◌∷◌,
  ◌≡◌, refl, ◌%◌, ◌+◌, ◌-◌, ◌/◌, ◌∙◌, bool_eq, bool_eq_sound, ltb, ◌==◌, ◌≤◌, holds_below,
  holds_below_at,
}
use new_attempt.Idt.Stubs.{
  Cpu, Scratch, execute, isr_common, isr_noerr, isr_hwerr, interrupted, step, push, release,
  irq_stub, stub, taken, isr, irq, irq_vector, pushes_error, irq_called, documented_error,
}
use new_attempt.Idt.{Idt, irq_dispatch}

-- The stack pointer goes up by what the pushes took it down.
pointer_back :
    (e : ℕ)
    → ((((((e + 2 ^ 32 - 32) % 2 ^ 32 + 2 ^ 32 - 4) % 2 ^ 32 + 4) % 2 ^ 32 + 32) % 2 ^ 32 + 8)
            % 2 ^ 32
          + 12)
        % 2 ^ 32
      ≡ (e + 20) % 2 ^ 32
pointer_back e = omega arith

-- The frame is nine words above the argument of the call.
frame_offset :
    (e : ℕ) → e < 2 ^ 32 → ((e + 32) % 2 ^ 32 + 2 ^ 32 - (e + 2 ^ 32 - 4) % 2 ^ 32) % 2 ^ 32 / 4 ≡ 9
frame_offset e lt = omega arith

-- From the interruption on, with an error code and without one.
pointer_restored :
    (e : ℕ)
    → e < 2 ^ 32
    → ((((((e + 2 ^ 32 - 4) % 2 ^ 32 + 2 ^ 32 - 4) % 2 ^ 32 + 2 ^ 32 - 4) % 2 ^ 32 + 2 ^ 32 - 4)
                % 2 ^ 32
              + 2 ^ 32
              - 4)
            % 2 ^ 32
          + 20)
        % 2 ^ 32
      ≡ e
pointer_restored e lt = omega arith

irq_vectors : holds_below 16 (λ n. irq_vector n == 32 + n) ≡ true
unfolding holds_below irq_vector
irq_vectors = refl

irq_vector_lem : (n : ℕ) → n < 16 → irq_vector n ≡ 32 + n
irq_vector_lem n lt =
    let h = holds_below_at (λ i. irq_vector i == 32 + i) n 16 lt irq_vectors in ground arith

errors_agree : holds_below 32 (λ n. bool_eq (pushes_error n) (documented_error n)) ≡ true
unfolding holds_below pushes_error documented_error
errors_agree = refl

pushes_error_lem : (n : ℕ) → n < 32 → pushes_error n ≡ documented_error n
pushes_error_lem n lt = bool_eq_sound _ _ (holds_below_at _ n 32 lt errors_agree)

no_error : (n : ℕ) → 32 ≤ n → documented_error n ≡ false
unfolding documented_error
no_error n h = ground arith

module _ {ℓ} {W : Type ℓ} (scratch : Cpu → Scratch) (dispatch : List ℕ → W → W) where
  isr_common_lem :
      (vector error eip cs eflags : ℕ) (rest : List ℕ) (c : Cpu) (w : W)
      → execute scratch dispatch isr_common
          (record c { stack = vector ∷ error ∷ eip ∷ cs ∷ eflags ∷ rest }, w)
        ≡ (
          record c {
            esp = (c.esp + 20) % 2 ^ 32;
            eip = eip;
            cs = cs;
            eflags = eflags;
            stack = rest;
          },
          dispatch (vector ∷ error ∷ eip ∷ cs ∷ eflags ∷ rest) w,
        )
  unfolding execute step push release isr_common
  isr_common_lem vector error eip cs eflags rest c w =
      rw (pointer_back c.esp, frame_offset ((c.esp + 2 ^ 32 - 32) % 2 ^ 32) (omega arith)) refl

  noerr_returns :
      (n : ℕ) (c : Cpu) (w : W)
      → c.esp < 2 ^ 32
      → execute scratch dispatch (isr_noerr n) (interrupted none c, w)
        ≡ (c, dispatch (n ∷ 0 ∷ c.eip ∷ c.cs ∷ c.eflags ∷ c.stack) w)
  unfolding execute step push isr_noerr interrupted
  noerr_returns n c w lt =
      isr_common_lem n 0 c.eip c.cs c.eflags c.stack (push n (push 0 (interrupted none c))) w
      ∙ rw (pointer_restored c.esp lt) refl

  hwerr_returns :
      (n error : ℕ) (c : Cpu) (w : W)
      → c.esp < 2 ^ 32
      → execute scratch dispatch (isr_hwerr n) (interrupted (some error) c, w)
        ≡ (c, dispatch (n ∷ error ∷ c.eip ∷ c.cs ∷ c.eflags ∷ c.stack) w)
  unfolding execute step push isr_hwerr interrupted
  hwerr_returns n error c w lt =
      isr_common_lem n error c.eip c.cs c.eflags c.stack (push n (interrupted (some error) c)) w
      ∙ rw (pointer_restored c.esp lt) refl

  stub_cases :
      (p : Bool) (n error : ℕ) (c : Cpu) (w : W)
      → c.esp < 2 ^ 32
      → execute scratch dispatch
          (if p then isr_hwerr n else isr_noerr n)
          (interrupted (if p then some error else none) c, w)
        ≡ (c, dispatch (n ∷ (if p then error else 0) ∷ c.eip ∷ c.cs ∷ c.eflags ∷ c.stack) w)
  stub_cases true n error c w lt = hwerr_returns n error c w lt
  stub_cases false n error c w lt = noerr_returns n c w lt

  -- Each of the 48 stubs hands its dispatcher a frame with the vector, the processor's error code or 0,
  -- and what the processor stored of the interrupted code. Where the dispatcher returns, the stub
  -- returns to the interrupted code with every register and the stack as they were; `isr_dispatch` does
  -- not return, it halts the machine.
  stub_returns :
      (vector error : ℕ) (c : Cpu) (w : W)
      → vector < 48
      → c.esp < 2 ^ 32
      → execute scratch dispatch (stub vector) (taken vector error c, w) ≡ (
        c,
        dispatch
            (vector
              ∷ (if documented_error vector then error else 0)
              ∷ c.eip
              ∷ c.cs
              ∷ c.eflags
              ∷ c.stack)
            w,
      )
  unfolding stub taken isr irq irq_stub isr_noerr
  stub_returns vector error c w lt h = elim (Bool-cases (ltb vector 32)) [
    | inl e ↦
        rw (e, pushes_error_lem vector (ground arith))
          (stub_cases (documented_error vector) vector error c w h)
    | inr e ↦
        let low : irq_vector (vector - 32) ≡ vector =
          irq_vector_lem (vector - 32) (ground arith) ∙ ground arith in
        rw (e, no_error vector (ground arith), low) (noerr_returns vector c w h)
  ]

-- Each of the 16 hardware interrupts: from the interruption on, the code of its stub calls
-- `irq_dispatch` with the vector 32 + n, whatever that does to the kernel and to the registers that a C
-- function may change, and then returns to the interrupted code with every register, the flags and
-- the stack as they were.
pub irq_returns :
    {W : Type 0} (scratch : Cpu → Scratch) (handle : ℕ → Idt × W → Idt × W) (n : ℕ) (c : Cpu)
    (s : Idt × W)
    → n < 16
    → c.esp < 2 ^ 32
    → execute scratch (irq_called handle) (irq n) (interrupted none c, s)
      ≡ (c, irq_dispatch handle (32 + n) s)
unfolding irq_called irq irq_stub isr_noerr
irq_returns scratch handle n c s lt h =
    rw (irq_vector_lem n lt) (noerr_returns scratch (irq_called handle) (32 + n) c s h)
