-- ===== src/Modules/Tests.antt =====
-- The plugin table at boot, and the theorems at it.
use new_attempt.Base.{arith, ◌+◌, find_index, [], replicate, refl, ◌≡◌, ℕ}
use new_attempt.Base.Int.{pos}
use new_attempt.Plugin.{named, plugin_find, slot_free, Plugins, blank_slot, plugin_max}
use new_attempt.EventBus.{Bus, blank_event, eventbus_publish}
use new_attempt.Modules.{
  adapter_net_register, net_desc, hello_desc, PluginDesc, mod_hello_load, core_desc,
  mod_aura_core_load, System, Console,
}
use new_attempt.Modules.Load.{IsActive, HasRoom, mod_aura_core_load-IsActive}
use new_attempt.Modules.Heartbeat.{core_ticks, core_ticks-eventbus_publish}
use new_attempt.Status.{err, Status}

abbrev static : Plugins
static = record { plugin_table = replicate plugin_max blank_slot; plugin_count_val = pos 0 }

abbrev idle_bus : Bus
idle_bus = record {
  handlers = replicate 32 (replicate 8 0);
  queue = replicate 64 blank_event;
  q_head = 0;
  q_tail = 0;
  q_count = 0;
}

abbrev console : Console ℕ
console = record {
  screen = record {
    buffer = replicate 2000 0;
    vga_row = 0;
    vga_col = 0;
    vga_color = 10;
    hook = 0;
    cursor = 0;
    sent = [];
  };
  core_tick_count = 0;
  count = 0;
  rest = 0;
}

abbrev nothing_else : ℕ → System ℕ → Status × System ℕ
nothing_else f st = (err, st)

room : (desc : PluginDesc) → HasRoom desc static 0
unfolding slot_free find_index plugin_find named
room desc = record { next = refl; below = refl; fresh = refl }

mod_aura_core_load-IsActive_example :
    (((mod_aura_core_load nothing_else 7 (static, idle_bus, console)).0 ≡ pos 0)
      × IsActive core_desc (mod_aura_core_load nothing_else 7 (static, idle_bus, console)).1.0 0
      × ((mod_aura_core_load nothing_else 7 (static, idle_bus, console)).1.0.plugin_count_val
          ≡ pos 1))
    × (((mod_hello_load nothing_else 7 (static, idle_bus, console)).0 ≡ pos 0)
        × IsActive hello_desc (mod_hello_load nothing_else 7 (static, idle_bus, console)).1.0 0
        × ((mod_hello_load nothing_else 7 (static, idle_bus, console)).1.0.plugin_count_val
            ≡ pos 1))
    × (IsActive net_desc (adapter_net_register nothing_else 7 (static, idle_bus, console)).0 0
        × ((adapter_net_register nothing_else 7 (static, idle_bus, console)).0.plugin_count_val
            ≡ pos 1))
mod_aura_core_load-IsActive_example =
    mod_aura_core_load-IsActive nothing_else 7 static idle_bus console 0 (room core_desc)
      (room hello_desc) (room net_desc)

core_ticks-eventbus_publish_example :
    core_ticks (λ i. i + 50) 1000 0 (1234, idle_bus)
    ≡ (2234, (eventbus_publish (815) idle_bus 0 2000).1)
core_ticks-eventbus_publish_example =
    core_ticks-eventbus_publish (λ i. i + 50) 1234 idle_bus (omega arith)
