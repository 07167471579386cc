-- ===== src/Boot/Main.antt =====
-- kernel/kernel.c: the steps of `kernel_main` from the modules on, and `kernel_main`.
use new_attempt.Fat12.Disk.{read_disk, write_disk}
use new_attempt.Base.{◌++◌, ◌∷◌, [], Option, ℕ, if◌then◌else◌, none, some, ◌==◌}
use new_attempt.Base.Int.{ℤ, negsuc}
use new_attempt.Status.{Status, run}
use new_attempt.CString.{codes, is_zero}
use new_attempt.Listing.{str}
use new_attempt.Memory.{memory_stats}
use new_attempt.Plugin.{is_ok}
use new_attempt.Env.Disk.{env_load}
use new_attempt.Loader.{loader_init, loader_load_all}
use new_attempt.Modules.{System, mod_hello_load, mod_aura_core_load, adapter_net_register}
use new_attempt.Serial.Adapter.{send_mirrored, Line, serial_call, adapter_serial_register}
use new_attempt.Ata.{ata_init}
use new_attempt.Fat12.Volume.{fat12_init}
use new_attempt.Menu.{Kernel, print, menu_run}
use new_attempt.Boot.{
  Machine, Surroundings, say, pause, system, with_system, at_hello_load, at_core_load, stat_rounds,
  rule, dash,
}
use new_attempt.Boot.Steps.{start_parts, start_interrupts, add_tasks}

-- The serial port, and the callbacks at addresses that no code here has.
module _ {C : Type 0} (inb : C → ℕ → ℕ × C) (outb : C → ℕ → ℕ → C) (rounds : ℕ)
    (other : ℕ → System (Line C) → Status × System (Line C)) where
  abbrev pub calls : ℕ → System (Line C) → Status × System (Line C)
  calls = serial_call inb outb rounds other

  -- The functions of `module_registry`, which has no other address.
  unfoldable pub load_module : ℕ → ℕ → System (Line C) → ℤ × System (Line C)
  unfolding mod_hello_load mod_aura_core_load
  load_module now f st =
      if f == at_hello_load
      then mod_hello_load calls now st
      else if f == at_core_load
      then mod_aura_core_load calls now st
      else (negsuc 0, st)

  module _ {D : Type 0} (e : Surroundings) where
    -- Step 12.
    unfoldable pub load_modules : Machine C D → Machine C D
    unfolding loader_init loader_load_all load_module pause
    load_modules m0 =
        let m = pause (e.arrivals 6) m0 in
        let loaded =
          loader_load_all (load_module m.kernel.tick) (loader_init m.kernel.modules, system m) in
        let m1 = with_system loaded.1 m in
        say (str "[OK] Modules loaded")
          (record m1 { kernel = record m1.kernel { modules = loaded.0 } })

    -- Step 13.
    unfoldable pub register_adapters : Machine C D → Machine C D
    unfolding adapter_serial_register adapter_net_register pause
    register_adapters m0 =
        let m = pause (e.arrivals 7) m0 in
        let m1 = pause (e.arrivals 8) (
          with_system (adapter_serial_register inb outb rounds other m.kernel.tick (system m)) m) in
        say (str "[OK] Adapters registered")
          (with_system (adapter_net_register calls m1.kernel.tick (system m1)) m1)

-- The controller of the disk.
module _ {D : Type 0} (inb : D → ℕ → ℕ × D) (outb : D → ℕ → ℕ → D) (inw : D → ℕ → ℕ × D)
    (outw : D → ℕ → ℕ → D) where
  module _ {C : Type 0} (e : Surroundings) where
    -- The branch of step 14 for a volume that is mounted.
    unfoldable pub overlay_env : Machine C D → Option (Machine C D)
    unfolding env_load read_disk write_disk
    overlay_env m =
        elim (env_load (read_disk inb outb inw outw) (write_disk inb outb inw outw) m.env_buf
          m.kernel.env (m.volume, m.disk)) [
            | none ↦ none
            | some (r, t, (v, d)) ↦
                let m1 : Machine C D = record m {
                  kernel = record m.kernel { env = t };
                  volume = v;
                  disk = d;
                } in
                some
                  (if is_zero r then say (str "[OK] Environment loaded from AIOS.ENV") m1 else m1)
          ]

    -- Step 14.
    unfoldable pub mount_disk : Machine C D → Option (Machine C D)
    unfolding ata_init fat12_init overlay_env pause read_disk write_disk
    mount_disk m0 =
        let m = pause (e.arrivals 9) m0 in
        let (found, d) = ata_init inb outb inw outw m.disk in
        let m1 = pause (e.arrivals 10) (record m { disk = d }) in
        let m2 = say (str "[OK] ATA primary master detected") m1 in
        let absent = codes "[  ] ATA drive not present " ++ (dash ++ codes " disk I/O disabled") in
        let (mounted, (v, d2)) =
          fat12_init (read_disk inb outb inw outw) (write_disk inb outb inw outw)
            (m2.volume, m2.disk) in
        let m3 = pause (e.arrivals 11) (record m2 { volume = v; disk = d2 }) in
        if is_ok found
        then (if is_ok mounted
            then overlay_env (say (str "[OK] FAT12 volume mounted") m3)
            else some (say (str "[  ] FAT12 mount skipped (no FAT12 volume)") m3))
        else some (say (some absent) m1)

module _ {C D : Type 0} (e : Surroundings) where
  -- The rule, the state and the menu.
  unfoldable pub enter_menu : Machine C D → Option (Machine C D)
  unfolding memory_stats menu_run pause
  enter_menu m0 =
      let m = pause (e.arrivals 12) m0 in
      let k : Kernel = record (print (rule ∷ []) m.kernel) { kernel_state = run } in
      elim (memory_stats stat_rounds m.cells) [
        | none ↦ none
        | some memory ↦ some (record m { kernel = menu_run memory k })
      ]

  module _ (inb : C → ℕ → ℕ × C) (outb : C → ℕ → ℕ → C) (rounds : ℕ)
      (other : ℕ → System (Line C) → Status × System (Line C)) (disk_inb : D → ℕ → ℕ × D)
      (disk_outb : D → ℕ → ℕ → D) (disk_inw : D → ℕ → ℕ × D) (disk_outw : D → ℕ → ℕ → D) where
    -- Steps 1 to 13.
    unfoldable pub load_parts : Machine C D → Machine C D
    unfolding start_parts start_interrupts add_tasks load_modules register_adapters
    load_parts m =
        register_adapters inb outb rounds other e
          (load_modules inb outb rounds other e (add_tasks (start_interrupts e (start_parts m))))

    -- What the port has sent at the end: the hook's calls reach it from `adapter_serial_register` on, where
    -- `sent` begins, and nothing else reaches it until the loop, so they are made together here.
    unfoldable pub mirrored : Machine C D → Machine C D
    unfolding send_mirrored
    mirrored m =
        let s = m.kernel.screen in
        record m {
          line = record m.line { port = send_mirrored inb outb rounds s.hook s.sent m.line.port };
        }

    -- `none` only where `env_load` or `memory_stats` runs out of fuel; a wait of the serial port that does
    -- not end leaves no port in `line`.
    unfoldable pub kernel_main : Machine C D → Option (Machine C D)
    unfolding load_parts mount_disk enter_menu mirrored
    kernel_main m = elim (mount_disk disk_inb disk_outb disk_inw disk_outw e (load_parts m)) [
      | none ↦ none
      | some m1 ↦ elim (enter_menu m1) [ none ↦ none | some m2 ↦ some (mirrored m2) ]
    ]
