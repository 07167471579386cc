-- ===== src/Boot/Tests.antt =====
-- A machine at power-on with a serial port and no disk, on which the timer and the keyboard interrupt, and
-- the theorems at it.
use new_attempt.Base.{
  ◌*◌, ◌+◌, [], ◌∷◌, ◌≡◌, arith, false, refl, replicate, some, ℕ, if◌then◌else◌, ◌==◌,
}
use new_attempt.Base.Int.{pos}
use new_attempt.Status.{Status, ok, err, boot}
use new_attempt.EventBus.{blank_event}
use new_attempt.Plugin
use new_attempt.Idt.{blank_gate}
use new_attempt.Scheduler
use new_attempt.Env.{blank_var}
use new_attempt.Fs.{blank_node}
use new_attempt.Mirror.{blank_snapshot, mirror_verify}
use new_attempt.Modules.{System}
use new_attempt.Serial.Adapter.{Line}
use new_attempt.Menu.{Kernel, kernel_heartbeat, mirror_restore}
use new_attempt.Menu.Step.{IsValid}
use new_attempt.Menu.Runs.{start, key, beat}
use new_attempt.Keyboard.{keyboard_push}
use new_attempt.Boot.{Machine, Surroundings, module_registry}
use new_attempt.Boot.Main.{kernel_main}
use new_attempt.Boot.Run.{IsOff, IsBooted, kernel_main-IsBooted}
use new_attempt.Boot.Loop.{kernel_main-mirror_restore}
use new_attempt.Boot.Adapters.{closed}
use new_attempt.Serial.Com.{Com, behaves, inb, outb, view}

abbrev com1 : Com
com1 = record { busy = false; out = []; incoming = []; latch = false }

abbrev off_kernel : Kernel
off_kernel = record {
  screen = record {
    buffer = replicate 2000 0;
    vga_row = 0;
    vga_col = 0;
    vga_color = 0;
    hook = 0;
    cursor = 0;
    sent = [];
  };
  bus = record {
    handlers = replicate 32 (replicate 8 0);
    queue = replicate 64 blank_event;
    q_head = 0;
    q_tail = 0;
    q_count = 0;
  };
  plugins = record { plugin_table = replicate 16 Plugin.blank_slot; plugin_count_val = pos 0 };
  scheduler = record {
    task_table = replicate 16 Scheduler.blank_task;
    task_count_val = pos 0;
    sched_tick = 0;
  };
  mirror = record { snapshots = replicate 4 blank_snapshot; sync_count = 0 };
  env = replicate 16 blank_var;
  fs = replicate 32 blank_node;
  modules = module_registry;
  keyboard = record {
    shift_held = false;
    caps_active = false;
    kb_buf = replicate 32 0;
    kb_head = 0;
    kb_tail = 0;
    kb_count = 0;
  };
  tick = 0;
  kernel_state = boot;
  snap_slot = 2;
}

abbrev machine : Machine Com ℕ
machine = record {
  kernel = off_kernel;
  cells = λ a. record { magic = 7; size = 9; used = false; next = 3; prev = 1 };
  tables = ([], []);
  control = record { cr0 = 1; cr3 = 0; cr4 = 0 };
  idt = record { idt_table = replicate 256 blank_gate; irq_handlers = replicate 16 0; outs = [] };
  core_tick_count = 0;
  count = 0;
  line = closed com1;
  volume = record { sector_buf = replicate 512 0; fat = replicate 4608 0; loaded = false };
  env_buf = replicate 512 0;
  disk = 0;
}

machine-IsOff : IsOff com1 machine
machine-IsOff = record {
  valid = record {
    screen = record { row = omega arith; col = omega arith; cells = refl };
    keyboard = record {
      slots = refl;
      tail_in = omega arith;
      count_in = omega arith;
      head_at = refl;
    };
    slots = refl;
    snap_low = omega arith;
    snap_high = omega arith;
  };
  plugins = refl;
  tasks = refl;
  modules = refl;
  line = refl;
  unhooked = refl;
  unsent = refl;
}

-- The timer interrupts everywhere, and a key is pressed while the disk is looked for.
abbrev around : Surroundings
around = record {
  isr = λ n. n * 16;
  irq = λ n. n * 16 + 512;
  mask1 = 0xB8;
  mask2 = 0x8E;
  timer_mask = 0xFF;
  keyboard_mask = 0xFE;
  arrivals = λ n. if n == 10 then (0, []) ∷ (1, 0x1E ∷ []) ∷ [] else (0, []) ∷ [];
}

-- No other callback, and no disk: its registers read as 0.
abbrev nothing_else : ℕ → System (Line Com) → Status × System (Line Com)
nothing_else f st = (err, st)

abbrev disk_in : ℕ → ℕ → ℕ × ℕ
disk_in d register = (0, d)

abbrev disk_out : ℕ → ℕ → ℕ → ℕ
disk_out d register value = d

kernel_main-IsBooted_example :
    (m1 : Machine Com ℕ) × (kernel_main around inb outb 3 nothing_else disk_in disk_out disk_in
        disk_out machine
      ≡ some m1)
    × IsBooted view com1 m1
kernel_main-IsBooted_example =
    kernel_main-IsBooted around behaves nothing_else disk_in disk_out disk_in disk_out machine com1
      machine-IsOff

-- The machine after the boot, a key that is typed then, and the heartbeat after it.
abbrev booted : Machine Com ℕ
booted =
    (kernel_main-IsBooted around behaves nothing_else disk_in disk_out disk_in disk_out machine com1
      machine-IsOff).0

abbrev typed_key : Kernel
typed_key = record booted.kernel { keyboard = keyboard_push booted.kernel.keyboard b'r' }

kernel_main-mirror_restore_example :
    IsValid (kernel_heartbeat typed_key)
    × (mirror_verify (kernel_heartbeat typed_key).mirror 1 ≡ ok)
    × ((mirror_restore 1 (kernel_heartbeat typed_key)).0 ≡ ok)
kernel_main-mirror_restore_example =
    kernel_main-mirror_restore around behaves nothing_else disk_in disk_out disk_in disk_out machine
      booted com1 (kernel_heartbeat typed_key) machine-IsOff
      (kernel_main-IsBooted around behaves nothing_else disk_in disk_out disk_in disk_out machine
        com1 machine-IsOff).1
      (beat typed_key (key booted.kernel b'r' start))
