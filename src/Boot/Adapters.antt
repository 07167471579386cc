-- ===== src/Boot/Adapters.antt =====
-- Step 13 of `kernel_main`: the adapters are registered, on a port that behaves as Serial.Port says.
use new_attempt.Base.{false, ◌≡◌, ◌++◌, ℕ, some, ap, ◌∙◌, subst}
use new_attempt.Status.{Status}
use new_attempt.CString.{codes}
use new_attempt.Vga.{Screen, vga_println, vga_set_serial_hook}
use new_attempt.Vga.Cursor
use new_attempt.Vga.Output.{println_hook}
use new_attempt.Vga.Cursor.{vga_println-IsValid}
use new_attempt.Listing.{str}
use new_attempt.Memory.{Cells}
use new_attempt.Plugin.{Plugins}
use new_attempt.Scheduler.{Scheduler}
use new_attempt.Loader.{Registry}
use new_attempt.EventBus.{Bus, eventbus_publish, topic_plugin_loaded}
use new_attempt.Modules.{System, Console, net_desc, adapter_net_register, net_init}
use new_attempt.Modules.Load.{HasRoom, with_plugin, register_and_activate_eq, net_desc-IsLoadable}
use new_attempt.Serial.Port.{IsPort, Port}
use new_attempt.Serial.Adapter.{
  Adapter, Line, banner, serial_call, adapter_serial_register, adapter_register, serial_adapter,
  at_serial_adapter, at_mirror_char,
}
use new_attempt.Serial.Adapter.Register.{init_lem, greeting}
use new_attempt.Boot.{Machine, Surroundings, pause, system, with_system}
use new_attempt.Boot.Main.{calls, register_adapters}
use new_attempt.Boot.Quiet.{pause-IsQuiet, say-IsQuiet}
use new_attempt.Boot.Start.{Holds, quiet-Holds}
use new_attempt.Boot.Plugins.{modules_plugins, all_plugins, serial_desc, serial_room, net_room}
use new_attempt.Boot.Registered.{with_system-Holds}

-- The port after the modules and after the adapters.
abbrev pub closed : {C : Type 0} → C → Line C
closed c = record { port = some c; com1 = serial_adapter }

abbrev pub opened : {C : Type 0} → C → Line C
opened c = record { port = some c; com1 = record serial_adapter { opened = 1 } }

-- Setting the hook leaves the screen as it is.
hook-IsValid : {s : Screen} (fn : ℕ) → Cursor.IsValid s → Cursor.IsValid (vga_set_serial_hook s fn)
unfolding vga_set_serial_hook
hook-IsValid fn v = record { row = v.row; col = v.col; cells = v.cells }

-- The network adapter, for a table `q` with room.
module _ {R : Type 0} (other : ℕ → System R → Status × System R) (now : ℕ) where
  net_register_lem :
      (q : Plugins) (b : Bus) (w : Console R)
      → HasRoom net_desc q 3
      → adapter_net_register other now (q, b, w) ≡ (
        with_plugin q 3 net_desc now,
        (eventbus_publish now b topic_plugin_loaded 3).1,
        record w { screen = (net_init w.screen).1 },
      )
  unfolding adapter_net_register
  net_register_lem q b w room =
      ap (λ (x : Status × System R). x.1)
        (register_and_activate_eq other now net_desc q b w _ 3 (net_desc-IsLoadable other now w)
          room)

module _ {C : Type 0} {inb : C → ℕ → ℕ × C} {outb : C → ℕ → ℕ → C} {view : C → Port} {rounds : ℕ}
    (port : IsPort inb outb view rounds)
    (other : ℕ → System (Line C) → Status × System (Line C)) where
  -- The serial adapter is registered in the table after the modules.
  serial_register_lem :
      (t u : ℕ) (b : Bus) (w : Console (Line C)) (c0 : C)
      → w.rest ≡ closed c0
      → (c1 : C) × (adapter_serial_register inb outb rounds other u (modules_plugins t, b, w) ≡ (
        with_plugin (modules_plugins t) 2 serial_desc u,
        (eventbus_publish u b topic_plugin_loaded 2).1,
        record w {
          screen = vga_println (vga_set_serial_hook w.screen at_mirror_char) (some greeting);
          rest = opened c1;
        },
      ))
        × ((view c1).out ≡ (view c0).out ++ banner)
        × ((view c1).latch ≡ false)
  unfolding adapter_serial_register adapter_register
  serial_register_lem t u b w c0 same =
      let on = serial_call inb outb rounds other in
      let after = λ (c1 : C) (a : Adapter).
        let w1 : Console (Line C) = record w {
          screen = vga_println (vga_set_serial_hook w.screen at_mirror_char) (some greeting);
          rest = record { port = some c1; com1 = record a { opened = 1 } };
        } in
        w1 in
      let (c1, loadable, out, off) =
        init_lem port other u at_serial_adapter serial_adapter w c0
          (ap (λ (l : Line C). l.port) same) in
      let done =
        register_and_activate_eq on u serial_desc (modules_plugins t) b w _ 2 loadable
          (serial_room t) in
      (
        c1,
        ap
              (λ (a : Adapter).
                (adapter_register inb outb rounds other u at_serial_adapter a
                  (modules_plugins t, b, w)).1)
              (ap (λ (l : Line C). l.com1) same)
            ∙ ap (λ (x : Status × System (Line C)). x.1) done
            ∙ ap
                (λ (a : Adapter). (
                  with_plugin (modules_plugins t) 2 serial_desc u,
                  (eventbus_publish u b topic_plugin_loaded 2).1,
                  after c1 a,
                ))
                (ap (λ (l : Line C). l.com1) same),
        out,
        off,
      )

  module _ {D : Type 0} (e : Surroundings) where
    pub register_adapters-Holds :
        {s : Scheduler} {r : Registry} {c : Cells} (m0 : Machine C D) (t : ℕ) (c0 : C)
        → Holds (modules_plugins t) s r c (closed c0) m0
        → (u : ℕ) × (v : ℕ) × (c1 : C) × Holds
            (all_plugins t u v)
            s
            r
            c
            (opened c1)
            (register_adapters inb outb rounds other e m0)
          × ((view c1).out ≡ (view c0).out ++ banner)
          × ((view c1).latch ≡ false)
          × ((register_adapters inb outb rounds other e m0).kernel.screen.hook ≡ at_mirror_char)
    unfolding register_adapters net_init vga_set_serial_hook
    register_adapters-Holds {s} {r} {c} m0 t c0 h0 =
        let m = pause (e.arrivals 7) m0 in
        let h = quiet-Holds (pause-IsQuiet (e.arrivals 7) m0) h0 in
        let u = m.kernel.tick in
        let (_, b, w) = system m in
        let (c1, done, out, off) = serial_register_lem t u b w c0 h.line in
        let st = adapter_serial_register inb outb rounds other u (system m) in
        let st_lem =
          ap (λ x. adapter_serial_register inb outb rounds other u (x, b, w)) h.plugins ∙ done in
        let m1 = with_system st m in
        let h1 =
          with_system-Holds st _ _ _ st_lem
            (vga_println-IsValid (some greeting) (hook-IsValid at_mirror_char h.valid.screen)) h in
        let m2 = pause (e.arrivals 8) m1 in
        let h2 = quiet-Holds (pause-IsQuiet (e.arrivals 8) m1) h1 in
        let v = m2.kernel.tick in
        let on = calls inb outb rounds other in
        let (_, b2, w2) = system m2 in
        let q = with_plugin (modules_plugins t) 2 serial_desc u in
        let net = adapter_net_register on v (system m2) in
        let net_lem =
          ap (λ x. adapter_net_register on v (x, b2, w2)) h2.plugins
          ∙ net_register_lem on v q b2 w2 (net_room t u) in
        let m3 = with_system net m2 in
        let h3 =
          with_system-Holds net _ _ _ net_lem
            (vga_println-IsValid (some (codes "[NET] Virtual network adapter online (stub)."))
              h2.valid.screen)
            h2 in
        (
          u,
          v,
          c1,
          quiet-Holds (say-IsQuiet (str "[OK] Adapters registered") m3)
              (subst (λ k. Holds (all_plugins t u v) s r c k m3) h2.line h3),
          out,
          off,
          (say-IsQuiet (str "[OK] Adapters registered") m3).hook
              ∙ ap (λ (x : System (Line C)). x.2.screen.hook) net_lem
              ∙ println_hook (str "[NET] Virtual network adapter online (stub).") m2.kernel.screen
              ∙ (pause-IsQuiet (e.arrivals 8) m1).hook
              ∙ ap (λ (x : System (Line C)). x.2.screen.hook) st_lem
              ∙ println_hook (some greeting) (vga_set_serial_hook w.screen at_mirror_char),
        )
