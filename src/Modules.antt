-- ===== src/Modules.antt =====
-- modules/aura_core.c, modules/mod_hello.c and adapters/aura_net.c: the built-in plugins. A callback is
-- called by its address; the addresses are numbered here, and the callbacks at other addresses are a
-- parameter.
pub mod Load
pub mod Heartbeat
mod Tests
use new_attempt.Base.{◌^◌, ◌==◌, ◌%◌, if◌then◌else◌, ◌+◌, some, List, ℕ}
use new_attempt.Base.Int.{pos, negsuc, ℤ}
use new_attempt.CString.{codes}
use new_attempt.EventBus.{Bus, eventbus_publish, topic_kernel_tick}
use new_attempt.Plugin.{
  Plugins, PluginDesc, plugin_register, plugin_activate, is_ok, core, service, adapter,
}
use new_attempt.Status.{ok, Status}
use new_attempt.Vga.{Screen, vga_println, vga_print, vga_print_dec, vga_putchar}

-- The static counters of the modules, the screen, and what the callbacks of other adapters keep.
pub record Console (R : Type 0) : Type 0 where
  pub screen : Screen
  pub core_tick_count : ℕ
  pub count : ℕ
  pub rest : R

abbrev pub at_core_init : ℕ
at_core_init = 1

abbrev pub at_core_tick : ℕ
at_core_tick = 2

abbrev pub at_core_shutdown : ℕ
at_core_shutdown = 3

abbrev pub at_hello_init : ℕ
at_hello_init = 4

abbrev pub at_hello_tick : ℕ
at_hello_tick = 5

abbrev pub at_hello_shutdown : ℕ
at_hello_shutdown = 6

abbrev pub at_net_init : ℕ
at_net_init = 7

abbrev pub at_net_tick : ℕ
at_net_tick = 8

abbrev pub at_net_shutdown : ℕ
at_net_shutdown = 9

-- `vga_println(str); return AURA_OK;`
abbrev pub say : List ℕ → Screen → Status × Screen
say str s = (ok, vga_println s (some str))

unfoldable pub core_init : Screen → Status × Screen
core_init s = say (codes "[CORE] Aura core module online.") s

-- `now` is `g_tick_count`.
unfoldable pub core_tick : ℕ → ℕ × Bus → Status × (ℕ × Bus)
core_tick now (n, b) =
    let n1 = (n + 1) % 2 ^ 32 in
    (ok, (n1, (if n1 % 1000 == 0 then (eventbus_publish now b topic_kernel_tick n1).1 else b)))

unfoldable pub core_shutdown : Screen → Status × Screen
core_shutdown s = say (codes "[CORE] Aura core module shutting down.") s

unfoldable pub hello_init : Screen → Status × Screen
hello_init s = say (codes "[hello] Module initialized.") s

unfoldable pub hello_tick : ℕ × Screen → Status × (ℕ × Screen)
hello_tick (n, s) =
    let n1 = (n + 1) % 2 ^ 32 in
    let shown = vga_putchar (vga_print_dec (vga_print s (some (codes "[hello] tick #"))) n1) 10 in
    (ok, (n1, (if n1 % 0x100 == 0 then shown else s)))

unfoldable pub hello_shutdown : Screen → Status × Screen
hello_shutdown s = say (codes "[hello] Module shutting down.") s

unfoldable pub net_init : Screen → Status × Screen
net_init s = say (codes "[NET] Virtual network adapter online (stub).") s

unfoldable pub net_tick : Screen → Status × Screen
net_tick s = (ok, s)

unfoldable pub net_shutdown : Screen → Status × Screen
net_shutdown s = say (codes "[NET] Virtual network adapter shutting down.") s

-- The descriptors of `mod_aura_core_load`, `mod_hello_load` and `adapter_net_register`.
abbrev pub core_desc : PluginDesc
core_desc = record {
  name = codes "aura_core";
  version = codes "1.0";
  type = core;
  init = at_core_init;
  tick = at_core_tick;
  shutdown = at_core_shutdown;
  priv = 0;
}

abbrev pub hello_desc : PluginDesc
hello_desc = record {
  name = codes "hello";
  version = codes "1.0";
  type = service;
  init = at_hello_init;
  tick = at_hello_tick;
  shutdown = at_hello_shutdown;
  priv = 0;
}

abbrev pub net_desc : PluginDesc
net_desc = record {
  name = codes "net";
  version = codes "1.0";
  type = adapter;
  init = at_net_init;
  tick = at_net_tick;
  shutdown = at_net_shutdown;
  priv = 0;
}

-- The state that the callbacks work on.
abbrev pub System : Type 0 → Type 0
System R = Plugins × Bus × Console R

-- A callback that changes the screen alone.
abbrev pub on_screen : {R : Type 0} → (Screen → Status × Screen) → System R → Status × System R
on_screen f (p, b, w) = let (r, s) = f w.screen in (r, (p, b, record w { screen = s }))

module _ {R : Type 0} (other : ℕ → System R → Status × System R) (now : ℕ) where
  unfoldable pub call : ℕ → System R → Status × System R
  unfolding core_init core_tick core_shutdown hello_init hello_tick hello_shutdown net_init net_tick
      net_shutdown
  call f (p, b, w) =
      let (core_status, (core_n, core_bus)) = core_tick now (w.core_tick_count, b) in
      let (hello_status, (hello_n, hello_screen)) = hello_tick (w.count, w.screen) in
      if f == at_core_init
      then on_screen core_init (p, b, w)
      else if f == at_core_tick
      then (core_status, (p, core_bus, record w { core_tick_count = core_n }))
      else if f == at_core_shutdown
      then on_screen core_shutdown (p, b, w)
      else if f == at_hello_init
      then on_screen hello_init (p, b, w)
      else if f == at_hello_tick
      then (hello_status, (p, b, record w { count = hello_n; screen = hello_screen }))
      else if f == at_hello_shutdown
      then on_screen hello_shutdown (p, b, w)
      else if f == at_net_init
      then on_screen net_init (p, b, w)
      else if f == at_net_tick
      then on_screen net_tick (p, b, w)
      else if f == at_net_shutdown
      then on_screen net_shutdown (p, b, w)
      else other f (p, b, w)

  -- `r = plugin_register(&desc); if (r == AURA_OK) plugin_activate(desc.name);`
  unfoldable pub register_and_activate : PluginDesc → System R → Status × System R
  unfolding call plugin_register plugin_activate
  register_and_activate desc (p, b, w) =
      let (r, (p1, b1)) = plugin_register now (p, b) (some desc) in
      let (activated, st) = plugin_activate call (p1, b1, w) (some desc.name) in
      if is_ok r then (r, st) else (r, (p1, b1, w))

  -- The `int` of a load function.
  abbrev int_of : Status × System R → ℤ × System R
  int_of (r, st) = ((if is_ok r then pos 0 else negsuc 0), st)

  unfoldable pub mod_aura_core_load : System R → ℤ × System R
  unfolding register_and_activate
  mod_aura_core_load st = int_of (register_and_activate core_desc st)

  unfoldable pub mod_hello_load : System R → ℤ × System R
  unfolding register_and_activate
  mod_hello_load st = int_of (register_and_activate hello_desc st)

  unfoldable pub adapter_net_register : System R → System R
  unfolding register_and_activate
  adapter_net_register st = (register_and_activate net_desc st).1
