-- ===== src/Plugin/Tests.antt =====
-- The plugin table at boot, and the theorems at it.
use new_attempt.Base.{count, refl, replicate, some, ℕ, ◌+◌}
use new_attempt.Plugin.{
  pos, ok, service, blank_slot, plugin_unregister, Status, plugin_register, plugin_max, PluginDesc,
  Plugins,
}
use new_attempt.Plugin.Valid.{plugin_unregister-IsValid, plugin_register-IsValid, IsValid, taken}
use new_attempt.EventBus.{blank_event, Bus}
use new_attempt.CString.{codes}

abbrev static : Plugins
static = record { plugin_table = replicate plugin_max blank_slot; plugin_count_val = pos 0 }

static-IsValid : IsValid static
unfolding taken count
static-IsValid = record { slots = refl; counted = refl }

abbrev idle_bus : Bus
idle_bus = record {
  handlers = replicate 32 (replicate 8 0);
  queue = replicate 64 blank_event;
  q_head = 0;
  q_tail = 0;
  q_count = 0;
}

abbrev hello : PluginDesc
hello = record {
  name = codes "hello";
  version = codes "1.0";
  type = service;
  init = 16;
  tick = 32;
  shutdown = 48;
  priv = 0;
}

-- Callbacks that count their calls.
abbrev counting : ℕ → Plugins × Bus × ℕ → Status × (Plugins × Bus × ℕ)
counting f (p, b, n) = (ok, (p, b, n + 1))

abbrev with_hello : Plugins
with_hello = (plugin_register 5 (static, idle_bus) (some hello)).1.0

plugin_unregister-IsValid_example :
    IsValid (plugin_unregister counting 9 (with_hello, idle_bus, 0) (some (codes "hello"))).1.0
plugin_unregister-IsValid_example =
    plugin_unregister-IsValid counting (λ f st. refl) 9 with_hello idle_bus 0 (some (codes "hello"))
      (plugin_register-IsValid 5 idle_bus (some hello) static-IsValid)
