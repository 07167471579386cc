-- ===== src/Serial/Adapter/Open.antt =====
-- What registering the adapter of adapters/adapter_serial.c does, on a port that behaves as Port says.
use new_attempt.Base.{
  List, ℕ, some, ◌∷◌, [], ◌≡◌, ◌++◌, ◌∙◌, ap, refl, false, arith, inl, inr, length, sym, Bool-cases,
  ◌==◌, if◌then◌else◌,
}
use new_attempt.Status.{ok}
use new_attempt.Serial.{
  serial_open, com1_ier, com1_lcr, com1_fcr, com1_mcr, com1_data, serial_mirror_char, put_byte,
}
use new_attempt.Serial.Port.{IsPort, Port}
use new_attempt.Serial.Poll.{serial_write_lem}
use new_attempt.Serial.Adapter.{Line, banner, write_banner, opened_line, mirror_chars, on_port}
use mathlib.Core.List.{append_assoc, append-nil}

-- A line end goes out as a carriage return and a line feed.
abbrev pub with_returns : List ℕ → List ℕ
with_returns [] = []
with_returns (c ∷ cs) = (if c == 10 then 13 ∷ c ∷ [] else c ∷ []) ++ with_returns cs

module _ {C : Type 0} {inb : C → ℕ → ℕ × C} {outb : C → ℕ → ℕ → C} {view : C → Port} {rounds : ℕ}
    (port : IsPort inb outb view rounds) where
  -- `serial_open` turns the divisor latch off and sends nothing.
  serial_open_lem :
      (c : C)
      → ((view (serial_open inb outb c).1).out ≡ (view c).out)
        × ((view (serial_open inb outb c).1).latch ≡ false)
  unfolding serial_open
  serial_open_lem c =
      let c1 = outb c com1_ier 0x00 in
      let c2 = outb c1 com1_lcr 0x80 in
      let c3 = outb c2 com1_data 0x03 in
      let c4 = outb c3 com1_ier 0x00 in
      let c5 = outb c4 com1_lcr 0x03 in
      let c6 = outb c5 com1_fcr 0xC7 in
      let (o1, _) = port.others c com1_ier 0x00 (inl refl) in
      let (o2, on) = port.line_control c1 0x80 in
      let (o3, _) = port.divisor c2 0x03 on in
      let (o4, _) = port.others c3 com1_ier 0x00 (inl refl) in
      let (o5, off) = port.line_control c4 0x03 in
      let (o6, off6) = port.others c5 com1_fcr 0xC7 (inr (inl refl)) in
      let (o7, off7) = port.others c6 com1_mcr 0x0B (inr (inr refl)) in
      (o7 ∙ o6 ∙ o5 ∙ o4 ∙ o3 ∙ o2 ∙ o1, off7 ∙ off6 ∙ off)

  write_banner_lem :
      (c : C)
      → (view c).latch ≡ false
      → (c1 : C) × (write_banner inb outb rounds c ≡ some c1)
        × ((view c1).out ≡ (view c).out ++ banner)
        × ((view c1).latch ≡ false)
  unfolding write_banner
  write_banner_lem c off =
      let (c1, done, out, _, off1) =
        serial_write_lem port banner (length banner) c off (omega arith) in
      rw (done, write_banner) (c1, refl, out, off1)

  put_byte_lem :
      (b : ℕ) (c : C)
      → (view c).latch ≡ false
      → (c1 : C) × (put_byte inb outb rounds b c ≡ some c1)
        × ((view c1).out ≡ (view c).out ++ (b ∷ []))
        × ((view c1).latch ≡ false)
  unfolding put_byte
  put_byte_lem b c off =
      let (c1, done, out, _, off1) = serial_write_lem port (b ∷ []) 1 c off (omega arith) in
      rw (done, put_byte) (c1, refl, out, off1)

  mirror_char_lem :
      (ch : ℕ) (c : C)
      → (view c).latch ≡ false
      → (c1 : C) × (serial_mirror_char inb outb rounds ch c ≡ some c1)
        × ((view c1).out ≡ (view c).out ++ (if ch == 10 then 13 ∷ ch ∷ [] else ch ∷ []))
        × ((view c1).latch ≡ false)
  unfolding serial_mirror_char
  mirror_char_lem ch c off = elim (Bool-cases (ch == 10)) [
    | inl e ↦
        let (c1, done, out, off1) = put_byte_lem 13 c off in
        let (c2, done2, out2, off2) = put_byte_lem ch c1 off1 in
        rw (e, serial_mirror_char, done, done2)
          (
            c2,
            refl,
            out2 ∙ ap (λ o. o ++ (ch ∷ [])) out ∙ append_assoc (view c).out (13 ∷ []) (ch ∷ []),
            off2,
          )
    | inr e ↦
        let (c1, done, out, off1) = put_byte_lem ch c off in
        rw (e, serial_mirror_char, done) (c1, refl, out, off1)
  ]

  -- The characters that the hook was called with go out in order, line ends after carriage returns.
  pub mirror_chars_lem :
      (cs : List ℕ) (c : C)
      → (view c).latch ≡ false
      → (c1 : C) × (mirror_chars inb outb rounds cs c ≡ some c1)
        × ((view c1).out ≡ (view c).out ++ with_returns cs)
        × ((view c1).latch ≡ false)
  unfolding mirror_chars
  mirror_chars_lem [] c off = (c, refl, sym (append-nil (view c).out), off)
  mirror_chars_lem (ch ∷ cs) c off =
      let now_out = if ch == 10 then 13 ∷ ch ∷ [] else ch ∷ [] in
      let (c1, done, out, off1) = mirror_char_lem ch c off in
      let (c2, rest, out2, off2) = mirror_chars_lem cs c1 off1 in
      (
        c2,
        ap (on_port (mirror_chars inb outb rounds cs)) done ∙ rest,
        out2
            ∙ ap (λ o. o ++ with_returns cs) out
            ∙ append_assoc (view c).out now_out (with_returns cs),
        off2,
      )

  -- The port after `serial_plugin_init`.
  pub opened_line_lem :
      (l : Line C) (c : C)
      → l.port ≡ some c
      → (c1 : C) × (opened_line inb outb rounds l
          ≡ (ok, record { port = some c1; com1 = record l.com1 { opened = 1 } }))
        × ((view c1).out ≡ (view c).out ++ banner)
        × ((view c1).latch ≡ false)
  unfolding opened_line serial_open
  opened_line_lem l c e =
      let (same, off) = serial_open_lem c in
      let (c1, done, out, off1) = write_banner_lem (serial_open inb outb c).1 off in
      (c1, rw (e, opened_line, done) refl, out ∙ ap (λ o. o ++ banner) same, off1)
