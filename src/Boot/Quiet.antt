-- ===== src/Boot/Quiet.antt =====
-- The steps of `kernel_main` that leave the tables of the kernel as they are.
use new_attempt.Base.{
  ◌∷◌, [], List, ℕ, ◌≡◌, ◌∙◌, refl, arith, if◌then◌else◌, Bool, true, false, ◌&&◌, ◌==◌, ltb, not,
  ◌+◌, get_or, ◌%◌, ◌^◌, ◌-◌,
}
use new_attempt.CString.{CharPtr}
use new_attempt.Vga.Output.{line, show_hook}
use new_attempt.Keyboard.{Keyboard, keyboard_init}
use new_attempt.Keyboard.Queue
use new_attempt.Keyboard.Decode.{keyboard_poll-IsValid}
use new_attempt.Pit.{pit_init}
use new_attempt.Listing.{str}
use new_attempt.Idt.{idt_init, Idt, irq_dispatch, irq_base, irq_send_eoi}
use new_attempt.Menu.Step.{IsValid, print-IsStep}
use new_attempt.Boot.{
  Machine, Surroundings, handle_irq, take_irqs, pause, say, at_pit_irq, at_keyboard_poll,
}
use new_attempt.Boot.Steps.{start_interrupts}

module _ {C D : Type 0} where
  -- `l` has the tables of `m`, and is valid if `m` is.
  pub record IsQuiet (m l : Machine C D) : Type 0 where
    pub valid : IsValid m.kernel → IsValid l.kernel
    pub plugins : l.kernel.plugins ≡ m.kernel.plugins
    pub scheduler : l.kernel.scheduler ≡ m.kernel.scheduler
    pub modules : l.kernel.modules ≡ m.kernel.modules
    pub line : l.line ≡ m.line
    pub hook : l.kernel.screen.hook ≡ m.kernel.screen.hook
    pub cells : l.cells ≡ m.cells

  -- One step after the other.
  infixr 20 ◌then_quiet◌
  pub ◌then_quiet◌ : {m l n : Machine C D} → IsQuiet m l → IsQuiet l n → IsQuiet m n
  s then_quiet t = record {
    valid = λ v. t.valid (s.valid v);
    plugins = t.plugins ∙ s.plugins;
    scheduler = t.scheduler ∙ s.scheduler;
    modules = t.modules ∙ s.modules;
    line = t.line ∙ s.line;
    hook = t.hook ∙ s.hook;
    cells = t.cells ∙ s.cells;
  }

-- What an interrupt leaves of the keyboard's state is valid.
abbrev keyboard_of : Idt × (ℕ × Keyboard) → Keyboard
keyboard_of st = st.1.1

if_valid :
    (b : Bool) (x y : Idt × (ℕ × Keyboard))
    → Queue.IsValid (keyboard_of x)
    → Queue.IsValid (keyboard_of y)
    → Queue.IsValid (keyboard_of (if b then x else y))
if_valid true x y v w = v
if_valid false x y v w = w

handle_irq-IsValid :
    (scancodes : List ℕ) (f : ℕ) (st : Idt × (ℕ × Keyboard))
    → Queue.IsValid (keyboard_of st)
    → Queue.IsValid (keyboard_of (handle_irq scancodes f st))
unfolding handle_irq
handle_irq-IsValid scancodes f (s, (tick, k)) v =
    if_valid (f == at_pit_irq) _ _ v
      (if_valid (f == at_keyboard_poll) _ _ (keyboard_poll-IsValid k scancodes v) v)

dispatch-IsValid :
    (scancodes : List ℕ) (vector : ℕ) (s : Idt) (w : ℕ × Keyboard)
    → Queue.IsValid w.1
    → Queue.IsValid (keyboard_of (irq_dispatch (handle_irq scancodes) vector (s, w)))
unfolding irq_dispatch
dispatch-IsValid scancodes vector s w v =
    let number = (vector + 2 ^ 32 - irq_base) % 2 ^ 8 in
    let handler = get_or s.irq_handlers number 0 in
    let st1 = handle_irq scancodes handler (s, w) in
    if_valid (ltb number 16 && not (handler == 0)) (irq_send_eoi st1.0 number, st1.1)
      (irq_send_eoi s number, w) (handle_irq-IsValid scancodes handler (s, w) v) v

take_irqs-IsValid :
    (irqs : List (ℕ × List ℕ)) (st : Idt × (ℕ × Keyboard))
    → Queue.IsValid (keyboard_of st)
    → Queue.IsValid (keyboard_of (take_irqs irqs st))
unfolding take_irqs
take_irqs-IsValid [] st v = v
take_irqs-IsValid ((number, scancodes) ∷ more) (s, w) v =
    take_irqs-IsValid more (irq_dispatch (handle_irq scancodes) (irq_base + number) (s, w))
      (dispatch-IsValid scancodes (irq_base + number) s w v)

module _ {C D : Type 0} where
  pub pause-IsQuiet : (irqs : List (ℕ × List ℕ)) (m : Machine C D) → IsQuiet m (pause irqs m)
  unfolding pause
  pause-IsQuiet irqs m = record {
    valid = λ v. record {
      screen = v.screen;
      keyboard = take_irqs-IsValid irqs (m.idt, (m.kernel.tick, m.kernel.keyboard)) v.keyboard;
      slots = v.slots;
      snap_low = v.snap_low;
      snap_high = v.snap_high;
    };
    plugins = refl;
    scheduler = refl;
    modules = refl;
    line = refl;
    hook = refl;
    cells = refl;
  }

  pub say-IsQuiet : (message : CharPtr) (m : Machine C D) → IsQuiet m (say message m)
  say-IsQuiet message m = record {
    valid = (print-IsStep (line message ∷ []) m.kernel).valid;
    plugins = refl;
    scheduler = refl;
    modules = refl;
    line = refl;
    hook = show_hook (line message ∷ []) m.kernel.screen;
    cells = refl;
  }

  -- A change of the interrupt tables alone.
  idt-IsQuiet : (s : Idt) (m : Machine C D) → IsQuiet m (record m { idt = s })
  idt-IsQuiet s m = record {
    valid = λ v. v;
    plugins = refl;
    scheduler = refl;
    modules = refl;
    line = refl;
    hook = refl;
    cells = refl;
  }

  keyboard_init-IsQuiet :
      (handler mask : ℕ) (m : Machine C D)
      → IsQuiet m (record m {
        idt = (keyboard_init handler mask (m.kernel.keyboard, m.idt)).1;
        kernel = record m.kernel {
          keyboard = (keyboard_init handler mask (m.kernel.keyboard, m.idt)).0;
        };
      })
  unfolding keyboard_init
  keyboard_init-IsQuiet handler mask m = record {
    valid = λ v. record {
      screen = v.screen;
      keyboard = record {
        slots = v.keyboard.slots;
        tail_in = omega arith;
        count_in = omega arith;
        head_at = refl;
      };
      slots = v.slots;
      snap_low = v.snap_low;
      snap_high = v.snap_high;
    };
    plugins = refl;
    scheduler = refl;
    modules = refl;
    line = refl;
    hook = refl;
    cells = refl;
  }

  pub start_interrupts-IsQuiet :
      (e : Surroundings) (m : Machine C D) → IsQuiet m (start_interrupts e m)
  unfolding start_interrupts
  start_interrupts-IsQuiet e m =
      idt-IsQuiet (idt_init e.isr e.irq e.mask1 e.mask2 m.idt) m
      then_quiet pause-IsQuiet (e.arrivals 0) _
      then_quiet say-IsQuiet (str "[OK] IDT + PIC initialized") _
      then_quiet pause-IsQuiet (e.arrivals 1) _
      then_quiet idt-IsQuiet (pit_init at_pit_irq e.timer_mask _) _
      then_quiet pause-IsQuiet (e.arrivals 2) _
      then_quiet say-IsQuiet (str "[OK] PIT timer initialized") _
      then_quiet pause-IsQuiet (e.arrivals 3) _
      then_quiet keyboard_init-IsQuiet at_keyboard_poll e.keyboard_mask _
      then_quiet pause-IsQuiet (e.arrivals 4) _
      then_quiet say-IsQuiet (str "[OK] Keyboard driver initialized") _
      then_quiet pause-IsQuiet (e.arrivals 5) _
