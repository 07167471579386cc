-- ===== src/Serial/Adapter/Tests.antt =====
-- Registration of the serial adapter at a port in memory, in an empty plugin table.
use new_attempt.Base.{List, ℕ, some, ◌∷◌, [], ◌≡◌, ◌++◌, refl, false, replicate, find_index}
use new_attempt.Base.Int.{pos}
use new_attempt.Status.{ok, err, Status}
use new_attempt.Serial.Com.{Com, behaves, inb, outb, view}
use new_attempt.Serial.Adapter.{
  Line, banner, adapter_desc, send_mirrored, adapter_register, serial_adapter, at_serial_adapter,
}
use new_attempt.Serial.Adapter.Open.{with_returns}
use new_attempt.Serial.Adapter.Register.{adapter_register-mirror_chars, greeting}
use new_attempt.Modules.{System, Console}
use new_attempt.Modules.Load.{IsActive, HasRoom}
use new_attempt.Plugin.{PluginDesc, Plugins, blank_slot, plugin_max, named, plugin_find, slot_free}
use new_attempt.EventBus.{Bus, blank_event}
use new_attempt.CString.{cstr}
use new_attempt.Vga.Output.{Output, show, all_chars}

abbrev static : Plugins
static = record { plugin_table = replicate plugin_max blank_slot; plugin_count_val = pos 0 }

abbrev idle_bus : Bus
idle_bus = record {
  handlers = replicate 32 (replicate 8 0);
  queue = replicate 64 blank_event;
  q_head = 0;
  q_tail = 0;
  q_count = 0;
}

abbrev port0 : Com
port0 = record { busy = false; out = []; incoming = []; latch = false }

abbrev console : Console (Line Com)
console = record {
  screen = record {
    buffer = replicate 2000 0;
    vga_row = 0;
    vga_col = 0;
    vga_color = 10;
    hook = 0;
    cursor = 0;
    sent = [];
  };
  core_tick_count = 0;
  count = 0;
  rest = record { port = some port0; com1 = serial_adapter };
}

abbrev nothing_else : ℕ → System (Line Com) → Status × System (Line Com)
nothing_else f st = (err, st)

abbrev desc : PluginDesc
desc = adapter_desc at_serial_adapter serial_adapter

room : HasRoom desc static 0
unfolding slot_free find_index plugin_find named
room = record { next = refl; below = refl; fresh = refl }

adapter_register-mirror_chars_example :
    let (r, (p1, b1, w1)) =
      adapter_register inb outb 3 nothing_else 7 at_serial_adapter serial_adapter
        (static, idle_bus, console) in
    (r ≡ ok)
    × IsActive desc p1 0
    × (w1.rest.com1 ≡ record serial_adapter { opened = 1 })
    × ((os : List Output)
        → (cs : List ℕ) × (c2 : Com) × ((show os w1.screen).sent ≡ [] ++ cs)
          × (cs ≡ (cstr greeting ++ (10 ∷ [])) ++ all_chars os)
          × (send_mirrored inb outb 3 (show os w1.screen).hook cs w1.rest.port ≡ some c2)
          × ((view c2).out ≡ [] ++ (banner ++ with_returns cs)))
adapter_register-mirror_chars_example =
    adapter_register-mirror_chars behaves nothing_else 7 at_serial_adapter serial_adapter static
      idle_bus console 0 port0 room refl
