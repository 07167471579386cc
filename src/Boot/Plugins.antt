-- ===== src/Boot/Plugins.antt =====
-- Steps 12 and 13 of `kernel_main`: the plugins after the modules and the adapters are registered.
use new_attempt.Base.{◌≡◌, refl, ℕ, replicate, true, map, find_index}
use new_attempt.Base.Int.{pos, ℤ}
use new_attempt.Plugin.{
  PluginDesc, Plugins, plugin_manager_init, plugin_max, blank_slot, slot_free, plugin_find, named,
  registered,
}
use new_attempt.CString.{same_name}
use new_attempt.Loader
use new_attempt.Loader.{Registry, ModuleEntry, loader_load_all, loader_init}
use new_attempt.Modules.{hello_desc, core_desc, net_desc}
use new_attempt.Modules.Load.{HasRoom, with_plugin}
use new_attempt.Serial.Adapter.{adapter_desc, serial_adapter, at_serial_adapter}
use new_attempt.Boot.{module_registry, at_hello_load, at_core_load}

-- The entries, loaded.
abbrev pub loaded_registry : Registry
loaded_registry = map (λ (e : ModuleEntry). record e { loaded = true }) module_registry

-- Where both modules load, `loader_load_all` loads them in the order of the registry.
pub loader_load_all_lem :
    {W : Type 0} (load : ℕ → W → ℤ × W) (w w1 w2 : W)
    → load at_hello_load w ≡ (pos 0, w1)
    → load at_core_load w1 ≡ (pos 0, w2)
    → loader_load_all load (loader_init module_registry, w) ≡ (loaded_registry, w2)
unfolding loader_load_all loader_init find_index Loader.named same_name
loader_load_all_lem load w w1 w2 h c = rw (h, c) refl

-- The plugin table before step 12, and as the plugins are added, at the ticks `t`, `u` and `v`.
abbrev pub no_plugins : Plugins
no_plugins =
    plugin_manager_init
      (record { plugin_table = replicate plugin_max blank_slot; plugin_count_val = pos 0 })

abbrev pub serial_desc : PluginDesc
serial_desc = adapter_desc at_serial_adapter serial_adapter

abbrev pub modules_plugins : ℕ → Plugins
modules_plugins t = with_plugin (with_plugin no_plugins 0 hello_desc t) 1 core_desc t

abbrev pub all_plugins : ℕ → ℕ → ℕ → Plugins
all_plugins t u v = with_plugin (with_plugin (modules_plugins t) 2 serial_desc u) 3 net_desc v

pub hello_room : HasRoom hello_desc no_plugins 0
unfolding plugin_manager_init slot_free plugin_find named find_index same_name
hello_room = record { next = refl; below = refl; fresh = refl }

pub core_room : (t : ℕ) → HasRoom core_desc (with_plugin no_plugins 0 hello_desc t) 1
unfolding plugin_manager_init slot_free plugin_find named find_index same_name registered
core_room t = record { next = refl; below = refl; fresh = refl }

pub serial_room : (t : ℕ) → HasRoom serial_desc (modules_plugins t) 2
unfolding plugin_manager_init slot_free plugin_find named find_index same_name registered
    adapter_desc
serial_room t = record { next = refl; below = refl; fresh = refl }

pub net_room : (t u : ℕ) → HasRoom net_desc (with_plugin (modules_plugins t) 2 serial_desc u) 3
unfolding plugin_manager_init slot_free plugin_find named find_index same_name registered
    adapter_desc
net_room t u = record { next = refl; below = refl; fresh = refl }
