-- ===== src/Serial/Poll.antt =====
-- What adapters/adapter_serial.c sends and receives on a port that behaves as Port says.
use new_attempt.Serial.{serial_write, serial_tx_ready, write_loop, spin, com1_lsr, com1_data}
use new_attempt.Serial.Port.{IsPort, Port}
use new_attempt.Base.{
  false, get_or, drop_step, ◌∷◌, refl, zero, sym, ap, drop, ◌∙◌, take, arith, length, ◌<◌, ◌≤◌, ◌≡◌,
  List, ℕ, suc, some, [], ◌++◌, ◌+◌,
}
use new_attempt.Base.Int.{pos}
use mathlib.Core.List.{append_assoc, append-nil}
use new_attempt.Keyboard.{Keyboard}

module _ {C : Type 0} {inb : C → ℕ → ℕ × C} {outb : C → ℕ → ℕ → C} {view : C → Port} {rounds : ℕ}
    (port : IsPort inb outb view rounds) where
  spin_lem :
      (n k : ℕ) (c : C)
      → (view c).wait ≡ k
      → k < n
      → (c1 : C) × (spin inb outb n c ≡ some c1) × (view c1 ≡ record (view c) { wait = 0 })
  unfolding spin serial_tx_ready
  spin_lem zero k c e h = absurd (omega arith)
  spin_lem (suc n) zero c e h =
      let (free, same) = port.free c e in
      rw free ((inb c com1_lsr).1, refl, same ∙ ap (λ (w : ℕ). record (view c) { wait = w }) e)
  spin_lem (suc n) (suc k) c e h =
      let (taken, seen) = port.busy c k e in
      let (c1, found, left) =
        spin_lem n k (inb c com1_lsr).1 (ap (λ (p : Port). p.wait) seen) (omega arith) in
      rw taken (c1, found, left ∙ ap (λ (p : Port). record p { wait = 0 }) seen)

  write_loop_lem :
      (n i : ℕ) (buf : List ℕ) (c : C)
      → (view c).latch ≡ false
      → i + n ≤ length buf
      → (c1 : C) × (write_loop inb outb rounds n i buf c ≡ some c1)
        × ((view c1).out ≡ (view c).out ++ take n (drop i buf))
        × ((view c1).incoming ≡ (view c).incoming)
        × ((view c1).latch ≡ false)
  unfolding write_loop
  write_loop_lem zero i buf c off h = (c, refl, sym (append-nil (view c).out), refl, off)
  write_loop_lem (suc n) i buf c off h =
      let (c1, free, same) = spin_lem rounds (view c).wait c refl (port.ready c) in
      let b = get_or buf i 0 in
      let (sent, kept, still_off) =
        port.send c1 b (ap (λ (p : Port). p.latch) same ∙ off) (ap (λ (p : Port). p.wait) same) in
      let (c2, done, out, incoming, off2) =
        write_loop_lem n (i + 1) buf (outb c1 com1_data b) still_off (omega arith) in
      rw (free, write_loop)
        (
          c2,
          done,
          out
              ∙ ap (λ o. o ++ take n (drop (i + 1) buf))
                  (sent ∙ ap (λ (p : Port). p.out ++ (b ∷ [])) same)
              ∙ append_assoc (view c).out (b ∷ []) (take n (drop (i + 1) buf))
              ∙ ap (λ t. (view c).out ++ t)
                  (sym (ap (take (suc n)) (drop_step i buf 0 (omega arith)))),
          incoming ∙ kept ∙ ap (λ (p : Port). p.incoming) same,
          off2,
        )

  -- With the divisor latch off, `serial_write` ends and sends the first `len` bytes of the buffer, in order.
  pub serial_write_lem :
      (buf : List ℕ) (len : ℕ) (c : C)
      → (view c).latch ≡ false
      → len ≤ length buf
      → (c1 : C) × (serial_write inb outb rounds buf len c ≡ some (pos len, c1))
        × ((view c1).out ≡ (view c).out ++ take len buf)
        × ((view c1).incoming ≡ (view c).incoming)
        × ((view c1).latch ≡ false)
  unfolding serial_write
  serial_write_lem buf len c off h =
      let (c1, done, out, incoming, off1) = write_loop_lem len 0 buf c off (omega arith) in
      rw (done, serial_write) (c1, refl, out, incoming, off1)
