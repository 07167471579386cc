-- ===== src/Listing.antt =====
-- What the parts print of their state, as calls of the VGA driver: kernel/menu.c, and the listings of
-- kernel/plugin.c, kernel/scheduler.c, kernel/mirror.c, kernel/idt.c, env/fs.c, env/env.c and
-- modules/loader.c.
use new_attempt.Base.{
  ◌∷◌, ◌++◌, ◌++◌, ◌==◌, leb, not, if◌then◌else◌, ℕ, Bool, List, [], true, false, some,
}
use new_attempt.Vga.Output.{Output, text, line, dec, hex, put, color}
use new_attempt.Vga.{
  white, red, cyan, black, light_green, yellow, light_cyan, light_grey, dark_grey,
}
use new_attempt.Status.{Status, ok}
use new_attempt.Plugin.{
  Plugins, PluginSlot, PluginState, is_unloaded, unloaded, loaded, active, error,
}
use new_attempt.Scheduler.{
  Scheduler, Task, TaskState, is_empty, empty, ready, running, blocked, zombie,
}
use new_attempt.Fs.{FsTable, FsNode, is_file}
use new_attempt.Env.{EnvTable, EnvVar}
use new_attempt.Loader.{Registry, ModuleEntry}
use new_attempt.Mirror.{Mirror, Readings, snapshot_at, mirror_verify, mirror_slots}
use new_attempt.CString.{codes, CharPtr}
use Prim.Native.String.{String}

abbrev pub str : String → CharPtr
str s = some (codes s)

abbrev pub newline : Output
newline = put 10

-- The calls for each entry of a table, in order.
abbrev pub each {ℓ} : {A : Type ℓ} → (A → List Output) → List A → List Output
each f [] = []
each f (x ∷ xs) = f x ++ each f xs

unfoldable pub state_name : PluginState → List Output
state_name unloaded = text (str "?") ∷ []
state_name loaded = text (str "LOADED") ∷ []
state_name active = text (str "ACTIVE") ∷ []
state_name error = text (str "ERROR") ∷ []

unfoldable pub plugin_line : PluginSlot → List Output
unfolding state_name
plugin_line s =
    if is_unloaded s.state
    then []
    else text (str "  [")
      ∷ text (some s.desc.name)
      ∷ text (str "] v")
      ∷ text (some s.desc.version)
      ∷ text (str "  state=")
      ∷ (state_name s.state ++ (text (str "  ticks=") ∷ dec s.tick_count ∷ newline ∷ []))

unfoldable pub plugin_list : Plugins → List Output
unfolding plugin_line
plugin_list p = line (str "--- Plugins ---") ∷ each plugin_line p.plugin_table

unfoldable pub task_state_name : TaskState → List Output
task_state_name empty = text (str "?") ∷ []
task_state_name ready = text (str "READY") ∷ []
task_state_name running = text (str "RUNNING") ∷ []
task_state_name blocked = text (str "BLOCKED") ∷ []
task_state_name zombie = text (str "?") ∷ []

unfoldable pub task_line : Task → List Output
unfolding task_state_name
task_line t =
    if is_empty t.state
    then []
    else text (str "  [")
      ∷ text (some t.name)
      ∷ text (str "] state=")
      ∷ (task_state_name t.state
          ++ (text (str " period=")
              ∷ dec t.period
              ∷ text (str " runs=")
              ∷ dec t.tick_count
              ∷ newline
              ∷ []))

unfoldable pub scheduler_list : Scheduler → List Output
unfolding task_line
scheduler_list s = line (str "--- Scheduler Tasks ---") ∷ each task_line s.task_table

-- `if (!shown) vga_println("  (empty)");`
abbrev empty_note {ℓ} : {A : Type ℓ} → (A → Bool) → List A → List Output
empty_note shown [] = line (str "  (empty)") ∷ []
empty_note shown (x ∷ xs) = if shown x then [] else empty_note shown xs

unfoldable pub node_line : FsNode → List Output
node_line n =
    let size = text (str "  (") ∷ dec n.size ∷ text (str " bytes)") ∷ [] in
    if not n.valid
    then []
    else text (str "  ")
      ∷ text (if is_file n then str "[FILE] " else str "[DIR]  ")
      ∷ text (some n.name)
      ∷ ((if is_file n then size else []) ++ (line (str "") ∷ []))

unfoldable pub fs_list_vga : FsTable → List Output
unfolding node_line
fs_list_vga t =
    line (str "--- Virtual Filesystem ---")
    ∷ (each node_line t ++ empty_note (λ (n : FsNode). n.valid) t)

unfoldable pub var_line : EnvVar → List Output
var_line v =
    if not v.is_set
    then []
    else text (str "  ") ∷ text (some v.key) ∷ text (str " = ") ∷ line (some v.value) ∷ []

unfoldable pub env_dump_vga : EnvTable → List Output
unfolding var_line
env_dump_vga t =
    line (str "--- Environment Variables ---")
    ∷ (each var_line t ++ empty_note (λ (v : EnvVar). v.is_set) t)

unfoldable pub module_line : ModuleEntry → List Output
module_line e =
    text (str "  [")
    ∷ text (if e.loaded then str "LOADED" else str "      ")
    ∷ text (str "]  ")
    ∷ line (some e.name)
    ∷ []

unfoldable pub loader_list_vga : Registry → List Output
unfolding module_line
loader_list_vga r = line (str "--- Modules ---") ∷ each module_line r

abbrev pub verified : Status → Bool
verified ok = true
verified _ = false

unfoldable pub mirror_dump : Mirror → ℕ → List Output
unfolding mirror_verify
mirror_dump m slot =
    let s = snapshot_at m slot in
    if leb mirror_slots slot
    then []
    else if not s.valid
    then text (str "[Mirror] Slot ") ∷ dec slot ∷ line (str " is empty.") ∷ []
    else text (str "[Mirror] Slot ")
      ∷ dec slot
      ∷ text (str " label=")
      ∷ text (some s.label)
      ∷ text (if verified (mirror_verify m slot) then str "  [OK]" else str "  [BAD CHECKSUM]")
      ∷ text (str "\n  tick=")
      ∷ dec s.timestamp
      ∷ text (str "  mem_used=")
      ∷ dec s.mem_used
      ∷ text (str "  mem_free=")
      ∷ dec s.mem_free
      ∷ text (str "  plugins=")
      ∷ dec s.plugin_count
      ∷ text (str "  events=")
      ∷ dec s.event_pending
      ∷ newline
      ∷ []

unfoldable pub mirror_dump_all : Mirror → List Output
unfolding mirror_dump
mirror_dump_all m = each (mirror_dump m) (0 ∷ 1 ∷ 2 ∷ 3 ∷ [])

-- `isr_dispatch`, before it halts; `cr2` is the faulting address.
unfoldable pub isr_dispatch : ℕ → ℕ → ℕ → ℕ → List Output
isr_dispatch vector eip error_code cr2 =
    if vector == 14
    then color white red
      ∷ text (str "\n[CPU] Page Fault at 0x")
      ∷ hex cr2
      ∷ text (str "  eip=0x")
      ∷ hex eip
      ∷ text (str "  err=0x")
      ∷ hex error_code
      ∷ line (str "")
      ∷ []
    else color white red
      ∷ text (str "\n[CPU] Exception ")
      ∷ dec vector
      ∷ text (str "  err=0x")
      ∷ hex error_code
      ∷ text (str "  eip=0x")
      ∷ hex eip
      ∷ line (str "")
      ∷ []

unfoldable pub draw_line : List Output
draw_line = line (str "------------------------------------------------------------") ∷ []

unfoldable pub menu_draw_banner : List Output
unfolding draw_line
menu_draw_banner =
    color cyan black
    ∷ (draw_line
        ++ (line (str "       AI AURA OS  v1.0.0   --  Aura Kernel")
            ∷ line (str "           Autonomous Intelligence Platform")
            ∷ (draw_line ++ (color light_green black ∷ []))))

-- `r` are the counters of the other parts.
unfoldable pub menu_show_status : Readings → List Output
menu_show_status r =
    color yellow black
    ∷ line (str "\n=== System Status ===")
    ∷ color white black
    ∷ text (str "  Memory Used : ")
    ∷ dec r.used
    ∷ line (str " bytes")
    ∷ text (str "  Memory Free : ")
    ∷ dec r.free_bytes
    ∷ line (str " bytes")
    ∷ text (str "  Plugins     : ")
    ∷ dec r.plugins
    ∷ newline
    ∷ text (str "  Tasks       : ")
    ∷ dec r.tasks
    ∷ newline
    ∷ text (str "  Kernel Tick : ")
    ∷ dec r.tick
    ∷ newline
    ∷ []

unfoldable pub menu_show_options : List Output
menu_show_options =
    color light_cyan black
    ∷ line (str "\n=== Main Menu ===")
    ∷ color light_grey black
    ∷ line (str "  [1] Show system status")
    ∷ line (str "  [2] List plugins")
    ∷ line (str "  [3] List scheduler tasks")
    ∷ line (str "  [4] Capture system snapshot")
    ∷ line (str "  [5] Dump mirror snapshots")
    ∷ line (str "  [6] Memory stats")
    ∷ line (str "  [7] List environment variables")
    ∷ line (str "  [8] List VFS files")
    ∷ line (str "  [9] List loaded modules")
    ∷ line (str "  [H] Heartbeat info")
    ∷ line (str "  [R] Restore from boot snapshot")
    ∷ line (str "  [S] Full system dump (env + VFS + modules)")
    ∷ line (str "  [Q] Clean shutdown (saves env to disk)")
    ∷ line (str "  [K] Kernel panic (test)")
    ∷ color dark_grey black
    ∷ line (str "  Press a key to interact...")
    ∷ color light_green black
    ∷ []
