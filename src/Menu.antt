-- ===== src/Menu.antt =====
-- kernel/menu.c, `mirror_restore` of kernel/mirror.c, and `kernel_heartbeat`, `kernel_panic` and
-- `kernel_shutdown` of kernel/kernel.c: the commands of the system, which work on all its parts. What a part prints goes to
-- the screen by Vga/Output; `memory` is what `memory_stats` delivers, and the file that `env_save`
-- writes is on the disk of Fat12.
pub mod Step
pub mod Tick
pub mod Runs
use new_attempt.Base.{
  none, not, ◌==◌, ◌||◌, ◌+◌, ◌-◌, leb, ◌^◌, Bool, if◌then◌else◌, ◌%◌, List, ℕ, [], ◌∷◌, ◌++◌, true,
  false, some,
}
use new_attempt.Base.Int.{ℤ, pos, negsuc}
use new_attempt.Status.{panic, Status, ok, err, KernelState}
use new_attempt.Vga.{Screen, white, red, black, light_green, yellow}
use new_attempt.Vga.Output.{Output, show, text, line, dec, put, color, clear}
use new_attempt.Listing.{
  verified, mirror_dump_all, scheduler_list, plugin_list, loader_list_vga, fs_list_vga,
  env_dump_vga, menu_show_options, menu_show_status, str, newline, menu_draw_banner,
}
use new_attempt.EventBus.{Bus, eventbus_publish, topic_mirror_sync}
use new_attempt.Plugin.{Plugins, plugin_count}
use new_attempt.Scheduler.{Scheduler, scheduler_task_count}
use new_attempt.Mirror.{
  Mirror, Readings, mirror_capture, mirror_verify, snapshot_at, flag_all, mirror_slots,
}
use new_attempt.Env.{EnvTable, env_init}
use new_attempt.Fs.{FsTable}
use new_attempt.Loader.{Registry}
use new_attempt.Keyboard.{Keyboard, keyboard_getchar}
use new_attempt.CString.{is_zero, CharPtr}
use new_attempt.Env.Disk.{env_save}
use new_attempt.Fat12.Volume.{Volume}

-- The state of the parts that a command reads or changes, and `snap_slot`.
pub record Kernel : Type 0 where
  pub screen : Screen
  pub bus : Bus
  pub plugins : Plugins
  pub scheduler : Scheduler
  pub mirror : Mirror
  pub env : EnvTable
  pub fs : FsTable
  pub modules : Registry
  pub keyboard : Keyboard
  pub tick : ℕ
  pub kernel_state : KernelState
  pub snap_slot : ℕ

-- `(uint32_t)` of an `int`.
unfoldable pub word_of : ℤ → ℕ
word_of (pos n) = n % 2 ^ 32
word_of (negsuc n) = (2 ^ 32 - 1 - n) % 2 ^ 32

unfoldable pub readings : ℕ × ℕ → Kernel → Readings
unfolding word_of
readings (used, free_bytes) k = record {
  tick = k.tick;
  used = used;
  free_bytes = free_bytes;
  tasks = word_of (scheduler_task_count k.scheduler);
  plugins = word_of (plugin_count k.plugins);
  pending = k.bus.q_count;
}

-- What is printed shows on the screen.
abbrev pub print : List Output → Kernel → Kernel
print os k = record k { screen = show os k.screen }

-- `mirror_capture` on the kernel's parts.
unfoldable pub capture : ℕ × ℕ → ℕ → CharPtr → Kernel → Kernel
unfolding readings mirror_capture
capture memory slot label k =
    let (r, (m, b)) = mirror_capture (readings memory k) (k.mirror, k.bus) slot label flag_all in
    record k { mirror = m; bus = b }

-- `(uint32_t)slot | 0x80000000UL`
abbrev pub restore_payload : ℕ → ℕ
restore_payload slot = slot % 2 ^ 31 + 2 ^ 31

-- The rest of `mirror_restore` for a slot that verifies.
unfoldable pub restored : ℕ → Kernel → Kernel
unfolding menu_draw_banner env_init
restored slot k =
    let log =
      text (str "[Mirror] Restore from slot ")
      ∷ dec slot
      ∷ text (str ": ")
      ∷ line (some (snapshot_at k.mirror slot).label)
      ∷ [] in
    let redraw =
      color light_green black
      ∷ clear
      ∷ (menu_draw_banner
          ++ (line (str "[Mirror] System state restored. Resuming kernel loop.") ∷ [])) in
    let b = (eventbus_publish k.tick k.bus topic_mirror_sync (restore_payload slot)).1 in
    print redraw (record (print log (record k { bus = b })) { env = env_init k.env })

unfoldable pub mirror_restore : ℕ → Kernel → Status × Kernel
unfolding restored mirror_verify
mirror_restore slot k =
    if leb mirror_slots slot || not (snapshot_at k.mirror slot).valid
    then (err, k)
    else if not (verified (mirror_verify k.mirror slot))
    then (err, print (line (str "[Mirror] Restore aborted: checksum mismatch!") ∷ []) k)
    else (ok, restored slot k)

-- `menu_run`
unfoldable pub menu_run : ℕ × ℕ → Kernel → Kernel
unfolding capture menu_draw_banner menu_show_status menu_show_options
menu_run memory k =
    let k1 =
      print
        (clear ∷ (menu_draw_banner ++ (menu_show_status (readings memory k) ++ menu_show_options)))
        k in
    let k2 = capture memory 1 (str "boot-snapshot") k1 in
    print
      (color light_green black
        ∷ line (str "\n[Aura] OS ready. Entering autonomous kernel loop...")
        ∷ [])
      k2

-- The case '4': `if (snap_slot >= MIRROR_SLOTS) snap_slot = 2;`
unfoldable pub snapshot_key : ℕ × ℕ → Kernel → Kernel
unfolding capture
snapshot_key memory k =
    let slot = if leb mirror_slots k.snap_slot then 2 else k.snap_slot in
    let k1 = capture memory slot (str "user-snap") k in
    record (print (text (str "[Menu] Snapshot captured in slot ") ∷ dec slot ∷ newline ∷ []) k1) {
      snap_slot = (slot + 1) % 2 ^ 8;
    }

-- What the cases of `menu_tick` print that only print; the last one is the default.
unfoldable pub answer : ℕ × ℕ → ℕ → Kernel → List Output
answer memory c k =
    let r = readings memory k in
    let heap =
      text (str "  Heap used : ")
      ∷ dec r.used
      ∷ line (str " bytes")
      ∷ text (str "  Heap free : ")
      ∷ dec r.free_bytes
      ∷ line (str " bytes")
      ∷ [] in
    let heartbeat =
      text (str "  Kernel tick : ")
      ∷ dec r.tick
      ∷ newline
      ∷ text (str "  Plugins     : ")
      ∷ dec r.plugins
      ∷ newline
      ∷ text (str "  Tasks       : ")
      ∷ dec r.tasks
      ∷ newline
      ∷ [] in
    let dump =
      color yellow black
      ∷ line (str "\n=== Full System Dump ===")
      ∷ color white black
      ∷ (env_dump_vga k.env ++ (fs_list_vga k.fs ++ loader_list_vga k.modules)) in
    if c == b'1'
    then menu_show_status r
    else if c == b'2'
    then plugin_list k.plugins
    else if c == b'3'
    then scheduler_list k.scheduler
    else if c == b'5'
    then mirror_dump_all k.mirror
    else if c == b'6'
    then heap
    else if c == b'7'
    then env_dump_vga k.env
    else if c == b'8'
    then fs_list_vga k.fs
    else if c == b'9'
    then loader_list_vga k.modules
    else if c == b'h' || c == b'H'
    then heartbeat
    else if c == b's' || c == b'S'
    then dump
    else menu_show_options

-- The case 'R'.
unfoldable pub restore_key : Kernel → Kernel
unfolding mirror_restore
restore_key k =
    (mirror_restore 1
      (print (line (str "[Menu] Restoring from boot snapshot (slot 1)...") ∷ []) k)).1

-- The cases of `menu_tick` that return. The tests of the switch exclude one another.
unfoldable pub command : ℕ × ℕ → ℕ → Kernel → Kernel
unfolding snapshot_key restore_key answer
command memory c k =
    if c == b'4'
    then snapshot_key memory k
    else if c == b'r' || c == b'R'
    then restore_key k
    else print (answer memory c k) k

-- The task that counts the rounds of the kernel's loop.
unfoldable pub kernel_heartbeat : Kernel → Kernel
kernel_heartbeat k = record k { tick = (k.tick + 1) % 2 ^ 32 }

-- The state in which the system runs on, or in which it has halted.
pub data Outcome (D : Type 0) : Type 0 where
  runs halted : Kernel → D → Outcome D

module _ {D : Type 0} (read : D → ℕ → List ℕ → Bool × List ℕ × D)
    (write : D → ℕ → List ℕ → Bool × D) where
  unfoldable pub kernel_panic : CharPtr → Kernel → Volume × D → Outcome (Volume × D)
  unfolding env_save
  kernel_panic msg k d =
      let (r, d1) = env_save read write k.env d in
      let message : List Output = elim msg [ none ↦ [] | some m ↦ line (some m) ∷ [] ] in
      halted
        (print
          (color white red
            ∷ line (str "\n*** KERNEL PANIC ***")
            ∷ (message ++ (line (str "System halted.") ∷ [])))
          (record k { kernel_state = panic }))
        d1

  unfoldable pub kernel_shutdown : Kernel → Volume × D → Outcome (Volume × D)
  unfolding env_save
  kernel_shutdown k d =
      let (r, d1) = env_save read write k.env d in
      let note =
        if is_zero r
        then str "[Shutdown] Environment saved to AIOS.ENV."
        else str "[Shutdown] Save skipped (no disk or FAT12 error)." in
      halted
        (print
          (color yellow black
            ∷ line (str "\n[Shutdown] Saving environment...")
            ∷ line note
            ∷ line (str "[Shutdown] AI Aura OS halted. Safe to power off.")
            ∷ [])
          (record k { kernel_state = panic }))
        d1

  unfoldable pub menu_tick : ℕ × ℕ → Kernel → Volume × D → Outcome (Volume × D)
  unfolding command kernel_panic kernel_shutdown keyboard_getchar
  menu_tick memory k d =
      let (c, keyboard) = keyboard_getchar k.keyboard in
      let k1 = print (color light_green black ∷ []) (record k { keyboard = keyboard }) in
      if c == 0
      then runs (record k { keyboard = keyboard }) d
      else if c == b'k' || c == b'K'
      then kernel_panic (str "User-triggered test panic from main menu.") k1 d
      else if c == b'q' || c == b'Q'
      then kernel_shutdown k1 d
      else runs (command memory c k1) d
