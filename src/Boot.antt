-- ===== src/Boot.antt =====
-- kernel/kernel.c: `kernel_main` up to its loop, which calls `scheduler_tick` for ever; its steps from the
-- modules on are in Main. Interrupts are
-- enabled from `idt_init` on: one is taken where `pause` stands, between two calls, and `arrivals n` are
-- those taken at the n-th place, each with its line and the scancodes that the keyboard then delivers.
pub mod Steps
pub mod Main
pub mod Quiet
mod Tests
pub mod Loop
pub mod Run
pub mod Opening
pub mod Adapters
pub mod Registered
pub mod Plugins
pub mod Start
pub mod Disk
use new_attempt.Base.{
  ◌++◌, ◌∷◌, [], Bool, Option, List, ℕ, if◌then◌else◌, none, some, ◌+◌, ◌==◌, false,
}
use new_attempt.Base.Int.{ℤ, pos, negsuc}
use new_attempt.Status.{Status, ok, KernelState, init, run}
use new_attempt.CString.{CharPtr, codes, is_zero}
use new_attempt.Vga.{vga_init, light_green, black}
use new_attempt.Vga.Output.{Output, line, color}
use new_attempt.Listing.{str}
use new_attempt.Memory.{Cells, memory_init, memory_stats}
use new_attempt.Paging.{Control, paging_init, load_control}
use new_attempt.EventBus.{eventbus_init}
use new_attempt.Plugin.{plugin_manager_init, is_ok}
use new_attempt.Mirror.{mirror_init}
use new_attempt.Scheduler.{Scheduler, scheduler_init, scheduler_add_task}
use new_attempt.Env.{env_init}
use new_attempt.Env.Disk.{env_load}
use new_attempt.Fs.{fs_init}
use new_attempt.Idt.{Idt, idt_init, irq_dispatch, irq_base}
use new_attempt.Pit.{pit_init, pit_irq_handler}
use new_attempt.Keyboard.{Keyboard, keyboard_init, keyboard_poll}
use new_attempt.Loader.{Registry, loader_init, loader_load_all}
use new_attempt.Modules.{System, mod_hello_load, mod_aura_core_load, adapter_net_register}
use new_attempt.Serial.Adapter.{Line, serial_call, adapter_serial_register}
use new_attempt.Ata.{ata_init, ata_read_sectors, ata_write_sectors}
use new_attempt.Fat12.Volume.{Volume, fat12_init}
use new_attempt.Menu.{Kernel, print, menu_run}

-- The addresses of the functions that the kernel registers.
abbrev pub at_pit_irq : ℕ
at_pit_irq = 19

abbrev pub at_keyboard_poll : ℕ
at_keyboard_poll = 20

abbrev pub at_heartbeat : ℕ
at_heartbeat = 21

abbrev pub at_event_drain : ℕ
at_event_drain = 22

abbrev pub at_mirror_sync : ℕ
at_mirror_sync = 23

abbrev pub at_plugin_tick : ℕ
at_plugin_tick = 24

abbrev pub at_menu_tick : ℕ
at_menu_tick = 25

abbrev pub at_serial_poll : ℕ
at_serial_poll = 26

abbrev pub at_hello_load : ℕ
at_hello_load = 27

abbrev pub at_core_load : ℕ
at_core_load = 28

-- The static state of all parts, the processor's control registers and the devices: `line` is the serial
-- port, `disk` the controller of the disk.
pub record Machine (C D : Type 0) : Type 0 where
  pub kernel : Kernel
  pub cells : Cells
  pub tables : List ℕ × List ℕ
  pub control : Control
  pub idt : Idt
  pub core_tick_count : ℕ
  pub count : ℕ
  pub line : Line C
  pub volume : Volume
  pub env_buf : List ℕ
  pub disk : D

-- What the kernel cannot choose: the addresses of the stubs, the bytes that the interrupt controllers
-- deliver for their masks, and the interrupts.
pub record Surroundings : Type 0 where
  pub isr : ℕ → ℕ
  pub irq : ℕ → ℕ
  pub mask1 : ℕ
  pub mask2 : ℕ
  pub timer_mask : ℕ
  pub keyboard_mask : ℕ
  pub arrivals : ℕ → List (ℕ × List ℕ)

-- The handlers that are registered, `pit_irq_handler` and `keyboard_poll`.
unfoldable pub handle_irq : List ℕ → ℕ → Idt × (ℕ × Keyboard) → Idt × (ℕ × Keyboard)
unfolding pit_irq_handler keyboard_poll
handle_irq scancodes f (s, (tick, k)) =
    if f == at_pit_irq
    then (s, (pit_irq_handler tick, k))
    else if f == at_keyboard_poll
    then (s, (tick, keyboard_poll k scancodes))
    else (s, (tick, k))

-- The interrupts, one after the other.
unfoldable pub take_irqs : List (ℕ × List ℕ) → Idt × (ℕ × Keyboard) → Idt × (ℕ × Keyboard)
unfolding irq_dispatch handle_irq
take_irqs [] st = st
take_irqs ((number, scancodes) ∷ more) st =
    take_irqs more (irq_dispatch (handle_irq scancodes) (irq_base + number) st)

-- The names, functions and periods of the built-in tasks.
abbrev pub built_in_tasks : List (CharPtr × ℕ × ℕ)
built_in_tasks =
    (str "heartbeat", at_heartbeat, 1)
    ∷ (str "event_drain", at_event_drain, 1)
    ∷ (str "mirror_sync", at_mirror_sync, 10)
    ∷ (str "plugin_tick", at_plugin_tick, 5)
    ∷ (str "keyboard_poll", at_keyboard_poll, 1)
    ∷ (str "menu_tick", at_menu_tick, 2)
    ∷ (str "serial_poll", at_serial_poll, 5)
    ∷ []

unfoldable pub add_all : List (CharPtr × ℕ × ℕ) → Scheduler → Scheduler
unfolding scheduler_add_task
add_all [] s = s
add_all ((name, fn, period) ∷ more) s = add_all more (scheduler_add_task s name fn period).1

-- `module_registry`, without the entry that ends it.
abbrev pub module_registry : Registry
module_registry =
    record { name = codes "hello"; load = at_hello_load; loaded = false }
    ∷ record { name = codes "aura_core"; load = at_core_load; loaded = false }
    ∷ []

-- The bytes of "—" in UTF-8.
abbrev pub dash : List ℕ
dash = 0xE2 ∷ 0x80 ∷ 0x94 ∷ []

abbrev pub rule : Output
rule = line (str "==================================")

-- Enough rounds for `memory_stats` on a heap of one block.
abbrev pub stat_rounds : ℕ
stat_rounds = 2

module _ {C D : Type 0} where
  abbrev pub say : CharPtr → Machine C D → Machine C D
  say message m = record m { kernel = print (line message ∷ []) m.kernel }

  unfoldable pub pause : List (ℕ × List ℕ) → Machine C D → Machine C D
  unfolding take_irqs
  pause irqs m =
      let st = take_irqs irqs (m.idt, (m.kernel.tick, m.kernel.keyboard)) in
      record m { idt = st.0; kernel = record m.kernel { tick = st.1.0; keyboard = st.1.1 } }

  -- What the callbacks of plugins work on.
  abbrev pub system : Machine C D → System (Line C)
  system m = (
    m.kernel.plugins,
    m.kernel.bus,
    record {
      screen = m.kernel.screen;
      core_tick_count = m.core_tick_count;
      count = m.count;
      rest = m.line;
    },
  )

  abbrev pub with_system : System (Line C) → Machine C D → Machine C D
  with_system (p, b, w) m = record m {
    kernel = record m.kernel { plugins = p; bus = b; screen = w.screen };
    core_tick_count = w.core_tick_count;
    count = w.count;
    line = w.rest;
  }
