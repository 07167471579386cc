-- ===== src/Serial/Adapter.antt =====
-- adapters/adapter.h, and the plugin of adapters/adapter_serial.c. `Line` is what the file keeps: the
-- port, `none` while a wait for the transmitter has not ended, and `serial_adapter`. The characters that
-- the screen's hook is called with are in `sent` of Vga; `send_mirrored` is what its calls do.
pub mod Open
pub mod Register
mod Tests
use new_attempt.Base.{
  List, ℕ, Option, some, none, ◌∷◌, [], set, replicate, if◌then◌else◌, ◌==◌, length,
}
use new_attempt.Status.{ok, Status}
use new_attempt.CString.{codes, strncpy_k}
use new_attempt.Vga.{vga_println, vga_set_serial_hook}
use new_attempt.Plugin.{PluginDesc, plugin_name_len, adapter, is_ok}
use new_attempt.Modules.{System, register_and_activate}
use new_attempt.Serial.{serial_open, serial_close, serial_write, serial_mirror_char}

abbrev pub at_serial_init : ℕ
at_serial_init = 10

abbrev pub at_serial_shutdown : ℕ
at_serial_shutdown = 11

abbrev pub at_serial_open : ℕ
at_serial_open = 12

abbrev pub at_serial_close : ℕ
at_serial_close = 13

abbrev pub at_serial_read : ℕ
at_serial_read = 14

abbrev pub at_serial_write : ℕ
at_serial_write = 15

abbrev pub at_serial_ioctl : ℕ
at_serial_ioctl = 16

abbrev pub at_mirror_char : ℕ
at_mirror_char = 17

abbrev pub at_serial_adapter : ℕ
at_serial_adapter = 18

-- `adapter_ops_t`, the addresses of the operations.
pub record AdapterOps : Type 0 where
  pub open_op : ℕ
  pub close_op : ℕ
  pub read_op : ℕ
  pub write_op : ℕ
  pub ioctl_op : ℕ

-- `adapter_t`
pub record Adapter : Type 0 where
  pub name : List ℕ
  pub flags : ℕ
  pub ops : AdapterOps
  pub opened : ℕ

-- `serial_adapter` at the start.
abbrev pub serial_adapter : Adapter
serial_adapter = record {
  name = codes "serial-com1";
  flags = 0;
  ops = record {
    open_op = at_serial_open;
    close_op = at_serial_close;
    read_op = at_serial_read;
    write_op = at_serial_write;
    ioctl_op = at_serial_ioctl;
  };
  opened = 0;
}

pub record Line (C : Type 0) : Type 0 where
  pub port : Option C
  pub com1 : Adapter

-- The bytes of `banner`, without the terminator.
abbrev pub banner : List ℕ
banner = codes "AI Aura OS serial console ready\r\n"

-- The descriptor that `adapter_register` fills in, for an adapter at the address `adp`.
unfoldable pub adapter_desc : ℕ → Adapter → PluginDesc
unfolding strncpy_k
adapter_desc adp a = record {
  name = strncpy_k (replicate plugin_name_len 0) (some a.name) plugin_name_len;
  version = set (set (replicate 8 0) 0 b'1') 1 0;
  type = adapter;
  init = at_serial_init;
  tick = 0;
  shutdown = at_serial_shutdown;
  priv = adp;
}

-- What the code does to a port that it can reach.
abbrev pub on_port : {C : Type 0} → (C → Option C) → Option C → Option C
on_port f none = none
on_port f (some c) = f c

module _ {C : Type 0} (inb : C → ℕ → ℕ × C) (outb : C → ℕ → ℕ → C) (rounds : ℕ) where
  -- `serial_write(banner, sizeof(banner) - 1)`
  unfoldable pub write_banner : C → Option C
  unfolding serial_write
  write_banner c = elim (serial_write inb outb rounds banner (length banner) c) [
    | none ↦ none
    | some (n, c1) ↦ some c1
  ]

  -- `serial_open` on the port, for its status and the port after it.
  unfoldable pub opened_line : Line C → Status × Line C
  unfolding serial_open
  opened_line l = elim l.port [
    | none ↦ (ok, l)
    | some c ↦
        let (r, c1) = serial_open inb outb c in
        (
          r,
          if is_ok r
              then record { port = write_banner c1; com1 = record l.com1 { opened = 1 } }
              else record l { port = some c1 },
        )
  ]

  unfoldable pub serial_plugin_init : System (Line C) → Status × System (Line C)
  unfolding opened_line vga_println vga_set_serial_hook
  serial_plugin_init (p, b, w) =
      let (r, l) = opened_line w.rest in
      let screen =
        vga_println (vga_set_serial_hook w.screen at_mirror_char)
          (some (codes "[serial] COM1 adapter initialized.")) in
      (r, (p, b, record w { screen = if is_ok r then screen else w.screen; rest = l }))

  unfoldable pub serial_plugin_shutdown : System (Line C) → Status × System (Line C)
  unfolding serial_close vga_set_serial_hook
  serial_plugin_shutdown (p, b, w) =
      let closed = on_port (λ c. some (serial_close inb outb c).1) w.rest.port in
      (
        ok,
        (
          p,
          b,
          record w {
            screen = vga_set_serial_hook w.screen 0;
            rest = record { port = closed; com1 = record w.rest.com1 { opened = 0 } };
          },
        ),
      )

  -- The characters that the hook was called with, one after the other.
  unfoldable pub mirror_chars : List ℕ → C → Option C
  unfolding serial_mirror_char
  mirror_chars [] c = some c
  mirror_chars (ch ∷ cs) c = on_port (mirror_chars cs) (serial_mirror_char inb outb rounds ch c)

  -- The calls of the hook of kernel/vga.c, which is at the address `hook`, with these characters: the
  -- port is reached by `serial_mirror_char` alone.
  unfoldable pub send_mirrored : ℕ → List ℕ → Option C → Option C
  unfolding mirror_chars
  send_mirrored hook cs port =
      if hook == at_mirror_char then on_port (mirror_chars cs) port else port

  -- The callbacks of this file; those at other addresses are a parameter.
  unfoldable pub serial_call :
      (ℕ → System (Line C) → Status × System (Line C))
      → ℕ
      → System (Line C)
      → Status × System (Line C)
  unfolding serial_plugin_init serial_plugin_shutdown
  serial_call other f st =
      if f == at_serial_init
      then serial_plugin_init st
      else if f == at_serial_shutdown
      then serial_plugin_shutdown st
      else other f st

  module _ (other : ℕ → System (Line C) → Status × System (Line C)) (now : ℕ) where
    unfoldable pub adapter_register : ℕ → Adapter → System (Line C) → Status × System (Line C)
    unfolding adapter_desc register_and_activate serial_call
    adapter_register adp a st =
        register_and_activate (serial_call other) now (adapter_desc adp a) st

    unfoldable pub adapter_serial_register : System (Line C) → System (Line C)
    unfolding adapter_register
    adapter_serial_register (p, b, w) = (adapter_register at_serial_adapter w.rest.com1 (p, b, w)).1
