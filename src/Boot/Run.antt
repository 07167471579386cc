-- ===== src/Boot/Run.antt =====
-- `kernel_main` of kernel/kernel.c from power-on to its loop, and the loop from then on.
use new_attempt.Base.{
  false, ◌-◌, find_index, ap, ◌∙◌, ◌≡◌, ◌++◌, ◌∷◌, [], refl, ℕ, List, Option, some, none,
  if◌then◌else◌, replicate,
}
use new_attempt.Base.Int.{pos}
use new_attempt.Status.{Status, ok, run}
use new_attempt.CString.{codes, cstr, strncpy_k}
use new_attempt.Memory.{Cells, memory_init, memory_stats, heap_size, hdr_size}
use new_attempt.Plugin.{
  Plugins, PluginSlot, plugin_max, blank_slot, is_active, plugin_manager_init, plugin_count,
  registered,
}
use new_attempt.Scheduler.{
  Scheduler, Task, is_ready, max_tasks, blank_task, scheduler_init, scheduler_add_task,
  scheduler_task_count, slot_free, added,
}
use new_attempt.Mirror.{mirror_verify, snapshot_at}
use new_attempt.Modules.{System}
use new_attempt.Serial.Port.{IsPort, Port}
use new_attempt.Serial.Adapter.{Line, banner, adapter_desc}
use new_attempt.Menu.{Kernel, menu_run, word_of, print}
use new_attempt.Menu.Step.{IsValid, print-IsStep}
use new_attempt.Boot.{
  at_heartbeat, at_event_drain, at_mirror_sync, at_plugin_tick, at_keyboard_poll, at_menu_tick,
  at_serial_poll, Machine, Surroundings, built_in_tasks, add_all, module_registry, stat_rounds,
  pause, rule,
}
use new_attempt.Boot.Steps.{start_parts}
use new_attempt.Vga.Output.{show_hook}
use new_attempt.Serial.Adapter.{send_mirrored, at_mirror_char}
use new_attempt.Serial.Adapter.Open.{mirror_chars_lem, with_returns}
use mathlib.Core.List.{append_assoc}
use new_attempt.Boot.Main.{mirrored, enter_menu, load_parts, kernel_main}
use new_attempt.Boot.Quiet.{pause-IsQuiet, start_interrupts-IsQuiet}
use new_attempt.Boot.Start.{Holds, quiet-Holds, start_parts-Holds, add_tasks-Holds}
use new_attempt.Boot.Plugins.{no_plugins, all_plugins, loaded_registry}
use new_attempt.Boot.Registered.{load_modules-Holds}
use new_attempt.Boot.Adapters.{closed, opened, register_adapters-Holds}
use new_attempt.Boot.Disk.{mount_disk_lem}
use new_attempt.Boot.Opening.{menu_run_hook, menu_run-keeps, menu_run_lem}

-- The names, functions and periods of the tasks that are ready.
unfoldable pub ready_tasks : List Task → List (List ℕ × ℕ × ℕ)
unfolding cstr
ready_tasks [] = []
ready_tasks (t ∷ ts) =
    let rest = ready_tasks ts in
    if is_ready t.state then (cstr t.name, t.fn, t.period) ∷ rest else rest

-- The names of the plugins that are active.
unfoldable pub active_names : List PluginSlot → List (List ℕ)
unfolding cstr
active_names [] = []
active_names (s ∷ ss) =
    let rest = active_names ss in if is_active s.state then cstr s.desc.name ∷ rest else rest

-- The seven tasks and the four plugins.
abbrev pub all_tasks : List (List ℕ × ℕ × ℕ)
all_tasks =
    (codes "heartbeat", at_heartbeat, 1)
    ∷ (codes "event_drain", at_event_drain, 1)
    ∷ (codes "mirror_sync", at_mirror_sync, 10)
    ∷ (codes "plugin_tick", at_plugin_tick, 5)
    ∷ (codes "keyboard_poll", at_keyboard_poll, 1)
    ∷ (codes "menu_tick", at_menu_tick, 2)
    ∷ (codes "serial_poll", at_serial_poll, 5)
    ∷ []

abbrev pub all_names : List (List ℕ)
all_names = codes "hello" ∷ codes "aura_core" ∷ codes "serial-com1" ∷ codes "net" ∷ []

-- The static state at power-on, with the serial port `c`; the hook of the screen is NULL and has
-- not been called.
pub record IsOff {C D : Type 0} (c : C) (m : Machine C D) : Type 0 where
  pub valid : IsValid m.kernel
  pub plugins : m.kernel.plugins.plugin_table ≡ replicate plugin_max blank_slot
  pub tasks : m.kernel.scheduler.task_table ≡ replicate max_tasks blank_task
  pub modules : m.kernel.modules ≡ module_registry
  pub line : m.line ≡ closed c
  pub unhooked : m.kernel.screen.hook ≡ 0
  pub unsent : m.kernel.screen.sent ≡ []

-- The system runs: its tables, the snapshot of the boot, and the serial port, which was `c` before: it
-- has sent the banner and then every character that was shown on the screen since.
pub record IsBooted {C D : Type 0} (view : C → Port) (c : C) (m : Machine C D) : Type 0 where
  pub valid : IsValid m.kernel
  pub state : m.kernel.kernel_state ≡ run
  pub tasks : ready_tasks m.kernel.scheduler.task_table ≡ all_tasks
  pub plugins : active_names m.kernel.plugins.plugin_table ≡ all_names
  pub modules : m.kernel.modules ≡ loaded_registry
  pub verifies : mirror_verify m.kernel.mirror 1 ≡ ok
  pub task_count : (snapshot_at m.kernel.mirror 1).proc_count ≡ 7
  pub plugin_number : (snapshot_at m.kernel.mirror 1).plugin_count ≡ 4
  pub port : C
  pub open_line : m.line ≡ opened port
  pub sent : (view port).out ≡ (view c).out ++ (banner ++ with_returns m.kernel.screen.sent)

abbrev no_tasks : Scheduler
no_tasks = record {
  task_table = replicate max_tasks blank_task;
  task_count_val = pos 0;
  sched_tick = 0;
}

abbrev all_added : Scheduler
all_added = add_all built_in_tasks (scheduler_init no_tasks)

tasks_lem :
    (ready_tasks all_added.task_table ≡ all_tasks) × (word_of (scheduler_task_count all_added) ≡ 7)
unfolding ready_tasks add_all scheduler_init scheduler_add_task added strncpy_k find_index slot_free
    word_of scheduler_task_count
tasks_lem = (refl, refl)

plugins_lem :
    (t u v : ℕ)
    → (active_names (all_plugins t u v).plugin_table ≡ all_names)
      × (word_of (plugin_count (all_plugins t u v)) ≡ 4)
unfolding active_names plugin_manager_init adapter_desc registered word_of plugin_count
plugins_lem t u v = (refl, refl)

-- What the init functions make of the tables.
abbrev reset_plugins : List PluginSlot → Plugins
reset_plugins l = plugin_manager_init (record { plugin_table = l; plugin_count_val = pos 0 })

abbrev reset_tasks : List Task → Scheduler
reset_tasks l = scheduler_init (record { task_table = l; task_count_val = pos 0; sched_tick = 0 })

stats_lem : (c : Cells) → memory_stats stat_rounds (memory_init c) ≡ some (0, heap_size - hdr_size)
unfolding memory_stats memory_init
stats_lem c = refl

module _ {C D : Type 0} (e : Surroundings) {inb : C → ℕ → ℕ × C} {outb : C → ℕ → ℕ → C}
    {view : C → Port} {rounds : ℕ} (port : IsPort inb outb view rounds)
    (other : ℕ → System (Line C) → Status × System (Line C)) (disk_inb : D → ℕ → ℕ × D)
    (disk_outb : D → ℕ → ℕ → D) (disk_inw : D → ℕ → ℕ × D) (disk_outw : D → ℕ → ℕ → D) where
  load_parts_lem :
      (m : Machine C D) (c : C)
      → IsOff c m
      → (t : ℕ) × (u : ℕ) × (v : ℕ) × (c1 : C) × Holds
          (all_plugins t u v)
          all_added
          loaded_registry
          (memory_init m.cells)
          (opened c1)
          (load_parts e inb outb rounds other disk_inb disk_outb disk_inw disk_outw m)
        × ((view c1).out ≡ (view c).out ++ banner)
        × ((view c1).latch ≡ false)
        × ((load_parts e inb outb rounds other disk_inb disk_outb disk_inw disk_outw
              m).kernel.screen.hook
            ≡ at_mirror_char)
  unfolding load_parts plugin_manager_init scheduler_init
  load_parts_lem m c power =
      let h0 : Holds no_plugins (scheduler_init no_tasks) module_registry (memory_init m.cells)
          (closed c) (start_parts m) =
        let started = start_parts-Holds m power.valid in
        record {
          valid = started.valid;
          plugins = started.plugins ∙ ap reset_plugins power.plugins;
          scheduler = started.scheduler ∙ ap reset_tasks power.tasks;
          modules = started.modules ∙ power.modules;
          line = started.line ∙ power.line;
          cells = started.cells;
        } in
      let h1 = quiet-Holds (start_interrupts-IsQuiet e (start_parts m)) h0 in
      let (t, h2) = load_modules-Holds inb outb rounds other e _ (add_tasks-Holds h1) in
      let (u, v, c1, h3, out, off, hook) = register_adapters-Holds port other e _ t c h2 in
      (t, u, v, c1, h3, out, off, hook)

  enter_menu_lem :
      (m0 : Machine C D) (t u v : ℕ) (cells : Cells) (c0 c : C)
      → Holds (all_plugins t u v) all_added loaded_registry (memory_init cells) (opened c) m0
      → (view c).out ≡ (view c0).out ++ banner
      → (view c).latch ≡ false
      → m0.kernel.screen.hook ≡ at_mirror_char
      → (m1 : Machine C D) × (enter_menu e m0 ≡ some m1)
        × IsBooted view c0
            (mirrored e inb outb rounds other disk_inb disk_outb disk_inw disk_outw m1)
  unfolding enter_menu mirrored send_mirrored
  enter_menu_lem m0 t u v cells c0 c h0 out off hook =
      let m = pause (e.arrivals 12) m0 in
      let h = quiet-Holds (pause-IsQuiet (e.arrivals 12) m0) h0 in
      let k : Kernel = record (print (rule ∷ []) m.kernel) { kernel_state = run } in
      let memory : ℕ × ℕ = (0, heap_size - hdr_size) in
      let l = menu_run memory k in
      let stats = ap (memory_stats stat_rounds) h.cells ∙ stats_lem cells in
      let (valid, verifies, task_count, plugin_number) = menu_run_lem memory k (record {
        screen = ((print-IsStep (rule ∷ []) m.kernel).valid h.valid).screen;
        keyboard = h.valid.keyboard;
        slots = h.valid.slots;
        snap_low = h.valid.snap_low;
        snap_high = h.valid.snap_high;
      }) in
      let (state, same_tasks, same_plugins, same_modules) = menu_run-keeps memory k in
      let (ready, seven) = tasks_lem in
      let (names, four) = plugins_lem t u v in
      let (c2, mirrors, out2, _) = mirror_chars_lem port l.screen.sent c off in
      let set =
        menu_run_hook memory k
        ∙ show_hook (rule ∷ []) m.kernel.screen
        ∙ (pause-IsQuiet (e.arrivals 12) m0).hook
        ∙ hook in
      (
        record m { kernel = l },
        ap
            (λ (x : Option (ℕ × ℕ)). elim x as (λ y. Option (Machine C D)) [
              | none ↦ none
              | some mem ↦ some (record m { kernel = menu_run mem k })
            ])
            stats,
        record {
          valid = valid;
          state = state;
          tasks =
              ap (λ (s : Scheduler). ready_tasks s.task_table) (same_tasks ∙ h.scheduler) ∙ ready;
          plugins =
              ap (λ (p : Plugins). active_names p.plugin_table) (same_plugins ∙ h.plugins) ∙ names;
          modules = same_modules ∙ h.modules;
          verifies = verifies;
          task_count = task_count ∙ ap (λ s. word_of (scheduler_task_count s)) h.scheduler ∙ seven;
          plugin_number = plugin_number ∙ ap (λ p. word_of (plugin_count p)) h.plugins ∙ four;
          port = c2;
          open_line = rw (set, h.line) (ap (λ p. record (opened c) { port = p }) mirrors);
          sent =
              out2
              ∙ ap (λ o. o ++ with_returns l.screen.sent) out
              ∙ append_assoc (view c0).out banner (with_returns l.screen.sent);
        },
      )

  -- From power-on with the static state of the sources, on a serial port that behaves as Serial.Port says,
  -- `kernel_main` ends with a system that runs, whatever the disk does and whatever interrupts are taken
  -- between its calls: the seven tasks are ready, with their functions and periods, and the four
  -- plugins are active; slot 1 has a snapshot that verifies, with these numbers of tasks and plugins; the
  -- serial port is open and has sent the banner and then every character that the screen's hook was
  -- called with, with a carriage return before each line end; and the screen and the ring buffer of the
  -- keyboard are valid.
  pub kernel_main-IsBooted :
      (m : Machine C D) (c : C)
      → IsOff c m
      → (m1 : Machine C D) × (kernel_main e inb outb rounds other disk_inb disk_outb disk_inw
            disk_outw m
          ≡ some m1)
        × IsBooted view c m1
  unfolding kernel_main
  kernel_main-IsBooted m c off =
      let (t, u, v, c1, h, out, latch, hook) = load_parts_lem m c off in
      let (m1, mounted, quiet) = mount_disk_lem disk_inb disk_outb disk_inw disk_outw e _ in
      let (m2, entered, booted) =
        enter_menu_lem m1 t u v m.cells c c1 (quiet-Holds quiet h) out latch (quiet.hook ∙ hook) in
      rw (mounted, entered, kernel_main) (_, refl, booted)
