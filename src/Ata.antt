-- ===== src/Ata.antt =====
-- adapters/ata.c: the driver of the disk, by programmed I/O on the primary controller. The controller is
-- a parameter, what `inb`, `outb`, `inw` and `outw` do to it. The operands of each `|` of the source share
-- no bit, so `|` is written as a sum; a store of a 16-bit word puts its low byte first.
pub mod Words
pub mod Drive
pub mod Poll
pub mod Read
pub mod Write
pub mod Controller
mod Tests
use new_attempt.Status.{ok, err, Status}
use new_attempt.Base.{
  ◌||◌, [], zero, ◌^◌, not, ◌∷◌, ◌*◌, false, ◌==◌, if◌then◌else◌, ◌+◌, suc, get_or, true, ◌/◌, ◌%◌,
  List, Bool, ℕ, put_at,
}

-- The registers.
abbrev pub reg_data : ℕ
reg_data = 0x1F0

abbrev pub reg_features : ℕ
reg_features = 0x1F1

abbrev pub reg_seccount : ℕ
reg_seccount = 0x1F2

abbrev pub reg_lba0 : ℕ
reg_lba0 = 0x1F3

abbrev pub reg_lba1 : ℕ
reg_lba1 = 0x1F4

abbrev pub reg_lba2 : ℕ
reg_lba2 = 0x1F5

abbrev pub reg_hdsel : ℕ
reg_hdsel = 0x1F6

abbrev pub reg_status : ℕ
reg_status = 0x1F7

abbrev pub reg_command : ℕ
reg_command = 0x1F7

abbrev pub cmd_identify : ℕ
cmd_identify = 0xEC

abbrev pub cmd_read : ℕ
cmd_read = 0x20

abbrev pub cmd_write : ℕ
cmd_write = 0x30

abbrev pub cmd_flush : ℕ
cmd_flush = 0xE7

abbrev pub sector_size : ℕ
sector_size = 512

-- The rounds of a polling loop, `0x100000U`.
unfoldable pub poll_rounds : ℕ
poll_rounds = 0x100000

-- `ATA_SR_ERR`, `ATA_SR_DF`, `ATA_SR_DRQ` and `ATA_SR_BSY` in a status byte.
abbrev pub is_error : ℕ → Bool
is_error st = st % 2 == 1

abbrev pub is_fault : ℕ → Bool
is_fault st = st / 0x20 % 2 == 1

abbrev pub wants_data : ℕ → Bool
wants_data st = st / 0x08 % 2 == 1

abbrev pub is_busy : ℕ → Bool
is_busy st = st / 0x80 % 2 == 1

abbrev pub succeeded : Status → Bool
succeeded ok = true
succeeded _ = false

-- The 16-bit word at an offset of a buffer.
abbrev pub word_at : List ℕ → ℕ → ℕ
word_at buf off = get_or buf off 0 + get_or buf (off + 1) 0 * 0x100

-- The bytes of a word, in the order in which they are stored.
abbrev pub word_bytes : ℕ → List ℕ
word_bytes w = w % 0x100 ∷ w / 0x100 % 0x100 ∷ []

module _ {C : Type 0} (inb : C → ℕ → ℕ × C) (outb : C → ℕ → ℕ → C) (inw : C → ℕ → ℕ × C)
    (outw : C → ℕ → ℕ → C) where
  -- The loop of `ata_poll_bsy`, with the rounds left.
  unfoldable pub bsy_loop : ℕ → C → Status × C
  bsy_loop zero c = (err, c)
  bsy_loop (suc n) c =
      let (st, c1) = inb c reg_status in
      let rest = bsy_loop n c1 in if not (is_busy st) then (ok, c1) else rest

  unfoldable pub ata_poll_bsy : C → Status × C
  unfolding bsy_loop
  ata_poll_bsy c = bsy_loop poll_rounds c

  -- The loop of `ata_poll_drq`, with the rounds left.
  unfoldable pub drq_loop : ℕ → C → Status × C
  drq_loop zero c = (err, c)
  drq_loop (suc n) c =
      let (st, c1) = inb c reg_status in
      let rest = drq_loop n c1 in
      if is_error st
      then (err, c1)
      else if is_fault st
      then (err, c1)
      else if wants_data st
      then (ok, c1)
      else rest

  unfoldable pub ata_poll_drq : C → Status × C
  unfolding drq_loop
  ata_poll_drq c = drq_loop poll_rounds c

  unfoldable pub ata_setup_lba : ℕ → ℕ → C → C
  ata_setup_lba lba count c =
      let c1 = outb c reg_hdsel (0xE0 + lba / 2 ^ 24 % 0x10) in
      let c2 = outb c1 reg_features 0x00 in
      let c3 = outb c2 reg_seccount count in
      let c4 = outb c3 reg_lba0 (lba % 0x100) in
      let c5 = outb c4 reg_lba1 (lba / 2 ^ 8 % 0x100) in outb c5 reg_lba2 (lba / 2 ^ 16 % 0x100)

  -- `for (i = 0; i < 256; i++) (void)inw(ATA_REG_DATA);` with the rounds left.
  unfoldable pub discard : ℕ → C → C
  discard zero c = c
  discard (suc n) c = discard n (inw c reg_data).1

  -- `ata_init` after the status has been seen not to be 0.
  unfoldable pub identify : C → Status × C
  unfolding ata_poll_bsy ata_poll_drq discard
  identify c =
      let (r, c1) = ata_poll_bsy c in
      let (cl, c2) = inb c1 reg_lba1 in
      let (ch, c3) = inb c2 reg_lba2 in
      let (r2, c4) = ata_poll_drq c3 in
      if not (succeeded r)
      then (err, c1)
      else if not (cl == 0) || not (ch == 0)
      then (err, c3)
      else if not (succeeded r2)
      then (err, c4)
      else (ok, discard 256 c4)

  unfoldable pub ata_init : C → Status × C
  unfolding identify
  ata_init c =
      let c1 = outb c reg_hdsel 0xA0 in
      let c2 = outb c1 reg_command cmd_identify in
      let (st, c3) = inb c2 reg_status in if st == 0 then (err, c3) else identify c3

  -- `ptr[i] = inw(ATA_REG_DATA)` for the words left, the next one at the offset given.
  unfoldable pub read_words : ℕ → ℕ → List ℕ → C → List ℕ × C
  unfolding put_at
  read_words zero off buf c = (buf, c)
  read_words (suc n) off buf c =
      let (w, c1) = inw c reg_data in read_words n (off + 2) (put_at buf off (word_bytes w)) c1

  -- The sectors of `ata_read_sectors` that are left, the next one `s`.
  unfoldable pub read_sectors_loop : ℕ → ℕ → List ℕ → C → Status × List ℕ × C
  unfolding ata_poll_bsy ata_poll_drq read_words
  read_sectors_loop zero s buf c = (ok, buf, c)
  read_sectors_loop (suc n) s buf c =
      let (r, c1) = ata_poll_bsy c in
      let (r2, c2) = ata_poll_drq c1 in
      let (buf1, c3) = read_words 256 (s * sector_size) buf c2 in
      let rest = read_sectors_loop n (s + 1) buf1 c3 in
      if not (succeeded r)
      then (err, buf, c1)
      else if not (succeeded r2)
      then (err, buf, c2)
      else rest

  -- The buffer is not NULL.
  unfoldable pub ata_read_sectors : ℕ → ℕ → List ℕ → C → Status × List ℕ × C
  unfolding ata_poll_bsy ata_setup_lba read_sectors_loop
  ata_read_sectors lba count buf c =
      let (r, c1) = ata_poll_bsy c in
      let c2 = outb (ata_setup_lba lba count c1) reg_command cmd_read in
      if count == 0
      then (err, buf, c)
      else if not (succeeded r)
      then (err, buf, c1)
      else read_sectors_loop count 0 buf c2

  -- `outw(ATA_REG_DATA, ptr[i])` for the words left, the next one at the offset given.
  unfoldable pub write_words : ℕ → ℕ → List ℕ → C → C
  write_words zero off buf c = c
  write_words (suc n) off buf c = write_words n (off + 2) buf (outw c reg_data (word_at buf off))

  -- The sectors of `ata_write_sectors` that are left, the next one `s`.
  unfoldable pub write_sectors_loop : ℕ → ℕ → List ℕ → C → Status × C
  unfolding ata_poll_bsy ata_poll_drq write_words
  write_sectors_loop zero s buf c = (ok, c)
  write_sectors_loop (suc n) s buf c =
      let (r, c1) = ata_poll_bsy c in
      let (r2, c2) = ata_poll_drq c1 in
      let c3 = outb (write_words 256 (s * sector_size) buf c2) reg_command cmd_flush in
      let (r3, c4) = ata_poll_bsy c3 in
      let rest = write_sectors_loop n (s + 1) buf c4 in
      if not (succeeded r)
      then (err, c1)
      else if not (succeeded r2)
      then (err, c2)
      else if not (succeeded r3)
      then (err, c4)
      else rest

  -- The buffer is not NULL.
  unfoldable pub ata_write_sectors : ℕ → ℕ → List ℕ → C → Status × C
  unfolding ata_poll_bsy ata_setup_lba write_sectors_loop
  ata_write_sectors lba count buf c =
      let (r, c1) = ata_poll_bsy c in
      let c2 = outb (ata_setup_lba lba count c1) reg_command cmd_write in
      if count == 0
      then (err, c)
      else if not (succeeded r)
      then (err, c1)
      else write_sectors_loop count 0 buf c2
