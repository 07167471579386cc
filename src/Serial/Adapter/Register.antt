-- ===== src/Serial/Adapter/Register.antt =====
-- The adapter of adapters/adapter_serial.c as a plugin, from its registration on.
use new_attempt.Base.{List, ℕ, some, ◌∷◌, [], ◌≡◌, ◌++◌, ◌∙◌, ap, refl, false}
use new_attempt.Status.{ok, Status}
use new_attempt.Serial.Port.{IsPort, Port}
use new_attempt.Serial.Adapter.{
  Line, Adapter, banner, adapter_desc, serial_plugin_init, serial_call, adapter_register,
  at_mirror_char, send_mirrored,
}
use new_attempt.Serial.Adapter.Open.{opened_line_lem, mirror_chars_lem, with_returns}
use new_attempt.Modules.{System, Console, call}
use new_attempt.Modules.Load.{IsActive, HasRoom, IsLoadable, register_and_activate_lem}
use new_attempt.Plugin.{Plugins}
use new_attempt.EventBus.{Bus}
use new_attempt.CString.{codes, cstr}
use new_attempt.CString.Compare.{same_name_iff}
use new_attempt.Vga.{vga_println, vga_set_serial_hook}
use new_attempt.Vga.Output.{Output, show, show_log, show_hook, println_hook, println_log, all_chars}
use mathlib.Core.List.{append_assoc}

-- What `serial_plugin_init` prints.
abbrev pub greeting : List ℕ
greeting = codes "[serial] COM1 adapter initialized."

module _ {C : Type 0} {inb : C → ℕ → ℕ × C} {outb : C → ℕ → ℕ → C} {view : C → Port} {rounds : ℕ}
    (port : IsPort inb outb view rounds) (other : ℕ → System (Line C) → Status × System (Line C))
    (now : ℕ) where
  pub init_lem :
      (adp : ℕ) (a : Adapter) (w : Console (Line C)) (c : C)
      → w.rest.port ≡ some c
      → (c1 : C) × IsLoadable
          (serial_call inb outb rounds other)
          now
          (adapter_desc adp a)
          w
          (record w {
            screen = vga_println (vga_set_serial_hook w.screen at_mirror_char) (some greeting);
            rest = record { port = some c1; com1 = record w.rest.com1 { opened = 1 } };
          })
        × ((view c1).out ≡ (view c).out ++ banner)
        × ((view c1).latch ≡ false)
  unfolding adapter_desc call serial_call serial_plugin_init
  init_lem adp a w c e =
      let (c1, done, out, off) = opened_line_lem port w.rest c e in
      (
        c1,
        record {
          itself = (same_name_iff _ _ _).1 refl;
          has_init = refl;
          runs = λ p b. rw done refl;
        },
        out,
        off,
      )

  -- Registered in a table with room, where no plugin has its name, on a port that can be reached, an
  -- adapter is an active plugin, `serial_adapter` is open, and the port has sent the banner. Whatever is
  -- shown on the screen from then on, the characters that the hook is called with are those of the
  -- greeting and those shown, and the port, by the function whose address the hook has, sends them in
  -- order, with a carriage return before each line end.
  pub adapter_register-mirror_chars :
      (adp : ℕ) (a : Adapter) (p : Plugins) (b : Bus) (w : Console (Line C)) (i : ℕ) (c : C)
      → HasRoom (adapter_desc adp a) p i
      → w.rest.port ≡ some c
      → let (r, (p1, b1, w1)) = adapter_register inb outb rounds other now adp a (p, b, w) in
        (r ≡ ok)
        × IsActive (adapter_desc adp a) p1 i
        × (w1.rest.com1 ≡ record w.rest.com1 { opened = 1 })
        × ((os : List Output)
            → (cs : List ℕ) × (c2 : C) × ((show os w1.screen).sent ≡ w.screen.sent ++ cs)
              × (cs ≡ (cstr greeting ++ (10 ∷ [])) ++ all_chars os)
              × (send_mirrored inb outb rounds (show os w1.screen).hook cs w1.rest.port ≡ some c2)
              × ((view c2).out ≡ (view c).out ++ (banner ++ with_returns cs)))
  unfolding adapter_register send_mirrored vga_set_serial_hook
  adapter_register-mirror_chars adp a p b w i c room e =
      let (c1, loadable, out, off) = init_lem adp a w c e in
      let (done, active, _, after) =
        register_and_activate_lem (serial_call inb outb rounds other) now (adapter_desc adp a) p b w
          _ i loadable room in
      rw after (
        done,
        active,
        refl,
        λ os.
            let (hook, log) =
              println_log greeting (vga_set_serial_hook w.screen at_mirror_char) refl in
            let cs = (cstr greeting ++ (10 ∷ [])) ++ all_chars os in
            let (c2, sent, out2, _) = mirror_chars_lem port cs c1 off in
            (
              cs,
              c2,
              show_log os _ hook
                  ∙ ap (λ o. o ++ all_chars os) log
                  ∙ append_assoc w.screen.sent (cstr greeting ++ (10 ∷ [])) (all_chars os),
              refl,
              ap (λ h. send_mirrored inb outb rounds h cs (some c1))
                    (show_hook os _ ∙ println_hook (some greeting) _)
                  ∙ sent,
              out2
                  ∙ ap (λ o. o ++ with_returns cs) out
                  ∙ append_assoc (view c).out banner (with_returns cs),
            ),
      )
