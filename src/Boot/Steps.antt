-- ===== src/Boot/Steps.antt =====
-- kernel/kernel.c: the steps of `kernel_main` before the modules are loaded.
use new_attempt.Base.{◌++◌, ◌∷◌, [], some}
use new_attempt.Status.{init}
use new_attempt.CString.{codes}
use new_attempt.Vga.{vga_init, light_green, black}
use new_attempt.Vga.Output.{line, color}
use new_attempt.Listing.{str}
use new_attempt.Memory.{memory_init}
use new_attempt.Paging.{paging_init, load_control}
use new_attempt.EventBus.{eventbus_init}
use new_attempt.Plugin.{plugin_manager_init}
use new_attempt.Mirror.{mirror_init}
use new_attempt.Scheduler.{scheduler_init}
use new_attempt.Env.{env_init}
use new_attempt.Fs.{fs_init}
use new_attempt.Idt.{idt_init}
use new_attempt.Pit.{pit_init}
use new_attempt.Keyboard.{keyboard_init}
use new_attempt.Menu.{Kernel, print}
use new_attempt.Boot.{
  Machine, Surroundings, say, pause, rule, dash, built_in_tasks, add_all, at_pit_irq,
  at_keyboard_poll,
}

module _ {C D : Type 0} where
  -- From the start to step 7.
  unfoldable pub start_parts : Machine C D → Machine C D
  unfolding memory_init paging_init load_control eventbus_init plugin_manager_init mirror_init
      scheduler_init env_init fs_init
  start_parts m =
      let k0 : Kernel = record m.kernel {
        kernel_state = init;
        screen = vga_init m.kernel.screen;
      } in
      let k1 =
        print
          (color light_green black
            ∷ line (some (codes "AI Aura OS " ++ (dash ++ codes " Kernel Initializing")))
            ∷ rule
            ∷ [])
          k0 in
      let k2 = print (line (str "[OK] Memory Manager initialized") ∷ []) k1 in
      let k3 =
        print (line (str "[OK] Paging enabled (4 MB identity map, heap guard pages active)") ∷ [])
          k2 in
      let k4 =
        print (line (str "[OK] Event Bus initialized") ∷ [])
          (record k3 { bus = eventbus_init k3.bus }) in
      let k5 =
        print (line (str "[OK] Plugin Manager initialized") ∷ [])
          (record k4 { plugins = plugin_manager_init k4.plugins }) in
      let k6 =
        print (line (str "[OK] System Mirror initialized") ∷ [])
          (record k5 { mirror = mirror_init k5.mirror }) in
      let k7 =
        print (line (str "[OK] Scheduler initialized") ∷ [])
          (record k6 { scheduler = scheduler_init k6.scheduler }) in
      let k8 =
        print (line (str "[OK] Environment registry initialized") ∷ [])
          (record k7 { env = env_init k7.env }) in
      let k9 =
        print (line (str "[OK] Virtual filesystem initialized") ∷ [])
          (record k8 { fs = fs_init k8.fs }) in
      record m {
        kernel = k9;
        cells = memory_init m.cells;
        tables = paging_init;
        control = load_control m.control;
      }

  -- Step 11.
  unfoldable pub add_tasks : Machine C D → Machine C D
  unfolding add_all
  add_tasks m = say (str "[OK] Built-in tasks registered") (record m {
    kernel = record m.kernel { scheduler = add_all built_in_tasks m.kernel.scheduler };
  })

  module _ (e : Surroundings) where
    -- Steps 8 to 10.
    unfoldable pub start_interrupts : Machine C D → Machine C D
    unfolding idt_init pit_init keyboard_init pause
    start_interrupts m =
        let m1 =
          pause (e.arrivals 0) (record m { idt = idt_init e.isr e.irq e.mask1 e.mask2 m.idt }) in
        let m2 = pause (e.arrivals 1) (say (str "[OK] IDT + PIC initialized") m1) in
        let m3 =
          pause (e.arrivals 2) (record m2 { idt = pit_init at_pit_irq e.timer_mask m2.idt }) in
        let m4 = pause (e.arrivals 3) (say (str "[OK] PIT timer initialized") m3) in
        let started = keyboard_init at_keyboard_poll e.keyboard_mask (m4.kernel.keyboard, m4.idt) in
        let m5 =
          pause (e.arrivals 4)
            (record m4 { idt = started.1; kernel = record m4.kernel { keyboard = started.0 } }) in
        pause (e.arrivals 5) (say (str "[OK] Keyboard driver initialized") m5)
