-- ===== src/Serial.antt =====
-- adapters/adapter_serial.c: the adapter of the serial port COM1. The port is a parameter, what `inb` and
-- `outb` do to it. The wait for the transmitter runs on fuel, `rounds` polls for each byte.
pub mod Port
pub mod Poll
pub mod Adapter
pub mod Com
mod Tests
use new_attempt.Status.{ok, Status}
use new_attempt.CString.{codes}
use new_attempt.Keyboard.{Keyboard, keyboard_push}
use new_attempt.Base.Int.{pos, ℤ}
use new_attempt.Base.{
  Bool, List, Option, [], get_or, if◌then◌else◌, none, set, some, suc, zero, ℕ, ◌%◌, ◌*◌, ◌+◌, ◌/◌,
  ◌==◌, ◌∷◌, length,
}

-- The registers of the port.
abbrev pub com1_data : ℕ
com1_data = 0x3F8

abbrev pub com1_ier : ℕ
com1_ier = 0x3F9

abbrev pub com1_fcr : ℕ
com1_fcr = 0x3FA

abbrev pub com1_lcr : ℕ
com1_lcr = 0x3FB

abbrev pub com1_mcr : ℕ
com1_mcr = 0x3FC

abbrev pub com1_lsr : ℕ
com1_lsr = 0x3FD

-- `if (c == '\r') c = '\n';`
abbrev pub normalised : ℕ → ℕ
normalised c = if c == 13 then 10 else c

-- The loop of `serial_poll` over the bytes read, with the bytes left.
unfoldable pub push_loop : ℕ → ℕ → List ℕ → Keyboard → Keyboard
unfolding keyboard_push
push_loop zero i buf k = k
push_loop (suc n) i buf k = push_loop n (i + 1) buf (keyboard_push k (normalised (get_or buf i 0)))

module _ {C : Type 0} (inb : C → ℕ → ℕ × C) (outb : C → ℕ → ℕ → C) where
  unfoldable pub serial_open : C → Status × C
  serial_open c =
      let c1 = outb c com1_ier 0x00 in
      let c2 = outb c1 com1_lcr 0x80 in
      let c3 = outb c2 com1_data 0x03 in
      let c4 = outb c3 com1_ier 0x00 in
      let c5 = outb c4 com1_lcr 0x03 in
      let c6 = outb c5 com1_fcr 0xC7 in (ok, outb c6 com1_mcr 0x0B)

  unfoldable pub serial_close : C → Status × C
  serial_close c = (ok, outb c com1_ier 0x00)

  unfoldable pub serial_tx_ready : C → ℕ × C
  serial_tx_ready c = let (st, c1) = inb c com1_lsr in (st / 0x20 % 2 * 0x20, c1)

  unfoldable pub serial_rx_ready : C → ℕ × C
  serial_rx_ready c = let (st, c1) = inb c com1_lsr in (st % 2, c1)

  -- `while (!serial_tx_ready()) {}`
  unfoldable pub spin : ℕ → C → Option C
  unfolding serial_tx_ready
  spin zero c = none
  spin (suc n) c =
      let (r, c1) = serial_tx_ready c in let rest = spin n c1 in if r == 0 then rest else some c1

  -- The loop of `serial_write`, with the bytes left.
  unfoldable pub write_loop : ℕ → ℕ → ℕ → List ℕ → C → Option C
  unfolding spin
  write_loop rounds zero i buf c = some c
  write_loop rounds (suc n) i buf c = elim (spin rounds c) [
    | none ↦ none
    | some c1 ↦ write_loop rounds n (i + 1) buf (outb c1 com1_data (get_or buf i 0))
  ]

  unfoldable pub serial_write : ℕ → List ℕ → ℕ → C → Option (ℤ × C)
  unfolding write_loop
  serial_write rounds buf len c = elim (write_loop rounds len 0 buf c) [
    | none ↦ none
    | some c1 ↦ some (pos len, c1)
  ]

  -- The loop of `serial_read`, with the room left in the buffer.
  unfoldable pub read_loop : ℕ → ℕ → List ℕ → C → ℕ × List ℕ × C
  unfolding serial_rx_ready
  read_loop zero count buf c = (count, buf, c)
  read_loop (suc n) count buf c =
      let (r, c1) = serial_rx_ready c in
      let (b, c2) = inb c1 com1_data in
      let rest = read_loop n (count + 1) (set buf count b) c2 in
      if r == 0 then (count, buf, c1) else rest

  unfoldable pub serial_read : List ℕ → ℕ → C → ℕ × List ℕ × C
  unfolding read_loop
  serial_read buf len c = read_loop len 0 buf c

  unfoldable pub serial_ioctl : ℕ → C → Status × C
  serial_ioctl cmd c = (ok, c)

  -- `serial_write(&b, 1)`
  unfoldable pub put_byte : ℕ → ℕ → C → Option C
  unfolding serial_write
  put_byte rounds b c = elim (serial_write rounds (b ∷ []) 1 c) [
    | none ↦ none
    | some (n, c1) ↦ some c1
  ]

  -- A line end goes out as a carriage return and a line feed.
  unfoldable pub serial_mirror_char : ℕ → ℕ → C → Option C
  unfolding put_byte
  serial_mirror_char rounds ch c =
      let first = if ch == 10 then put_byte rounds 13 c else some c in
      elim first [ none ↦ none | some c1 ↦ put_byte rounds ch c1 ]

  -- `buf` is what stood in the array of `serial_poll`.
  unfoldable pub serial_poll : List ℕ → Keyboard × C → Keyboard × C
  unfolding serial_read push_loop
  serial_poll buf (k, c) = let (n, buf1, c1) = serial_read buf 16 c in (push_loop n 0 buf1 k, c1)
