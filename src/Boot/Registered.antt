-- ===== src/Boot/Registered.antt =====
-- Step 12 of `kernel_main`: the modules are loaded.
use new_attempt.Base.{◌≡◌, refl, ℕ, ap, ◌∙◌, subst, sym}
use new_attempt.Base.Int.{pos}
use new_attempt.Status.{Status}
use new_attempt.Vga.Cursor
use new_attempt.Vga.Cursor.{vga_println-IsValid}
use new_attempt.Listing.{str}
use new_attempt.Memory.{Cells}
use new_attempt.Plugin.{Plugins}
use new_attempt.Scheduler.{Scheduler}
use new_attempt.Loader.{Registry, loader_load_all, loader_init}
use new_attempt.EventBus.{Bus, eventbus_publish, topic_plugin_loaded}
use new_attempt.Modules.{
  System, Console, hello_desc, core_desc, mod_hello_load, mod_aura_core_load, hello_init, core_init,
}
use new_attempt.Modules.Load.{
  HasRoom, with_plugin, register_and_activate_eq, hello_desc-IsLoadable, core_desc-IsLoadable,
}
use new_attempt.Serial.Adapter.{Line}
use new_attempt.Boot.{
  at_hello_load, Machine, Surroundings, pause, system, with_system, module_registry,
}
use new_attempt.Boot.Main.{calls, load_module, load_modules}
use new_attempt.Boot.Quiet.{pause-IsQuiet, say-IsQuiet}
use new_attempt.Boot.Start.{Holds, quiet-Holds}
use new_attempt.Boot.Plugins.{
  loaded_registry, loader_load_all_lem, no_plugins, modules_plugins, hello_room, core_room,
}

-- The load functions, for a table `q` with room.
module _ {R : Type 0} (other : ℕ → System R → Status × System R) (now : ℕ) where
  mod_hello_load_lem :
      (q : Plugins) (b : Bus) (w : Console R)
      → HasRoom hello_desc q 0
      → mod_hello_load other now (q, b, w) ≡ (
        pos 0,
        (
          with_plugin q 0 hello_desc now,
          (eventbus_publish now b topic_plugin_loaded 0).1,
          record w { screen = (hello_init w.screen).1 },
        ),
      )
  unfolding mod_hello_load
  mod_hello_load_lem q b w room =
      rw
        (register_and_activate_eq other now hello_desc q b w _ 0 (hello_desc-IsLoadable other now w)
          room)
        refl

  mod_core_load_lem :
      (q : Plugins) (b : Bus) (w : Console R)
      → HasRoom core_desc q 1
      → mod_aura_core_load other now (q, b, w) ≡ (
        pos 0,
        (
          with_plugin q 1 core_desc now,
          (eventbus_publish now b topic_plugin_loaded 1).1,
          record w { screen = (core_init w.screen).1 },
        ),
      )
  unfolding mod_aura_core_load
  mod_core_load_lem q b w room =
      rw
        (register_and_activate_eq other now core_desc q b w _ 1 (core_desc-IsLoadable other now w)
          room)
        refl

-- A machine after a callback, whose result is `(q, b, w)`.
pub with_system-Holds :
    {C D : Type 0} {p : Plugins} {s : Scheduler} {r : Registry} {c : Cells} {l : Line C}
    {m : Machine C D} (st : System (Line C)) (q : Plugins) (b : Bus) (w : Console (Line C))
    → st ≡ (q, b, w)
    → Cursor.IsValid w.screen
    → Holds p s r c l m
    → Holds q s r c w.rest (with_system st m)
with_system-Holds st q b w e v h = record {
  valid = record {
    screen = subst (λ (x : System (Line _)). Cursor.IsValid x.2.screen) (sym e) v;
    keyboard = h.valid.keyboard;
    slots = h.valid.slots;
    snap_low = h.valid.snap_low;
    snap_high = h.valid.snap_high;
  };
  plugins = ap (λ (x : System (Line _)). x.0) e;
  scheduler = h.scheduler;
  modules = h.modules;
  line = ap (λ (x : System (Line _)). x.2.rest) e;
  cells = h.cells;
}

-- The registry changed to `q`.
with_modules-Holds :
    {C D : Type 0} {p : Plugins} {s : Scheduler} {r : Registry} {c : Cells} {l : Line C}
    {m : Machine C D} {q0 q : Registry}
    → q0 ≡ q
    → Holds p s r c l m
    → Holds p s q c l (record m { kernel = record m.kernel { modules = q0 } })
with_modules-Holds e h = record {
  valid = record {
    screen = h.valid.screen;
    keyboard = h.valid.keyboard;
    slots = h.valid.slots;
    snap_low = h.valid.snap_low;
    snap_high = h.valid.snap_high;
  };
  plugins = h.plugins;
  scheduler = h.scheduler;
  modules = e;
  line = h.line;
  cells = h.cells;
}

module _ {C D : Type 0} (inb : C → ℕ → ℕ × C) (outb : C → ℕ → ℕ → C) (rounds : ℕ)
    (other : ℕ → System (Line C) → Status × System (Line C)) (e : Surroundings) where
  pub load_modules-Holds :
      {s : Scheduler} {c : Cells} {l : Line C} (m0 : Machine C D)
      → Holds no_plugins s module_registry c l m0
      → (t : ℕ) × Holds
          (modules_plugins t)
          s
          loaded_registry
          c
          l
          (load_modules inb outb rounds other e m0)
  unfolding load_modules load_module hello_init core_init
  load_modules-Holds {s} {c} {l} m0 h0 =
      let m = pause (e.arrivals 6) m0 in
      let h = quiet-Holds (pause-IsQuiet (e.arrivals 6) m0) h0 in
      let t = m.kernel.tick in
      let (_, b, w) = system m in
      let on = calls inb outb rounds other in
      let load = load_module inb outb rounds other t in
      let first =
        ap (λ x. load at_hello_load (x, b, w)) h.plugins
        ∙ mod_hello_load_lem on t no_plugins b w hello_room in
      let b1 = (eventbus_publish t b topic_plugin_loaded 0).1 in
      let w1 : Console (Line C) = record w { screen = (hello_init w.screen).1 } in
      let second =
        mod_core_load_lem on t (with_plugin no_plugins 0 hello_desc t) b1 w1 (core_room t) in
      let both =
        ap (λ r. loader_load_all load (loader_init r, system m)) h.modules
        ∙ loader_load_all_lem load (system m) _ _ first second in
      let loaded = loader_load_all load (loader_init m.kernel.modules, system m) in
      let h1 =
        with_system-Holds loaded.1 _ _ _ (ap (λ (x : Registry × System (Line C)). x.1) both)
          (vga_println-IsValid _ (vga_println-IsValid _ h.valid.screen)) h in
      let m1 = with_system loaded.1 m in
      let m2 : Machine C D = record m1 { kernel = record m1.kernel { modules = loaded.0 } } in
      let h2 = with_modules-Holds (ap (λ (x : Registry × System (Line C)). x.0) both) h1 in
      (
        t,
        quiet-Holds (say-IsQuiet (str "[OK] Modules loaded") m2)
            (subst (λ k. Holds (modules_plugins t) s loaded_registry c k m2) h.line h2),
      )
