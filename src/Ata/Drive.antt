-- ===== src/Ata/Drive.antt =====
-- The behaviour of the disk controller that adapters/ata.c relies on, as ATA documents it for programmed
-- I/O. What the driver can see of a controller is a `Drive`.
use new_attempt.Ata.{
  cmd_flush, cmd_write, reg_seccount, cmd_read, reg_command, reg_features, wants_data, is_fault,
  reg_lba0, is_error, reg_lba1, reg_status, reg_lba2, is_busy, true, poll_rounds, ◌∷◌, suc, false,
  [], if◌then◌else◌, reg_hdsel, Bool, List, ℕ, reg_data,
}
use new_attempt.Base.{
  ◌&&◌, ◌-◌, length, none, some, true, false, [], ◌≤◌, zero, ◌+◌, ◌^◌, ◌*◌, ◌≡◌, ◌++◌, ◌==◌, ◌%◌,
  ◌<◌, Option,
}

-- The polls that will find it busy, those after them that will not yet find DRQ, the registers as last
-- written, the words that wait to be read, the
-- words received for the sector to be written, if one is, and the sectors, each of 256 words.
pub record Drive : Type 0 where
  pub wait : ℕ
  pub delay : ℕ
  pub reg : ℕ → ℕ
  pub to_read : List ℕ
  pub received : Option (List ℕ)
  pub sectors : ℕ → List ℕ

-- The sector that the registers address.
unfoldable pub address : (ℕ → ℕ) → ℕ
address reg =
    reg reg_hdsel % 0x10 * 2 ^ 24 + reg reg_lba2 * 2 ^ 16 + reg reg_lba1 * 2 ^ 8 + reg reg_lba0

-- One register written.
unfoldable pub set_reg : (ℕ → ℕ) → ℕ → ℕ → ℕ → ℕ
set_reg reg port value p = if p == port then value else reg p

-- One sector written.
unfoldable pub set_sector : (ℕ → List ℕ) → ℕ → List ℕ → ℕ → List ℕ
set_sector sectors lba words l = if l == lba then words else sectors l

-- The words of `n` sectors from `lba` on.
unfoldable pub run_of : (ℕ → List ℕ) → ℕ → ℕ → List ℕ
run_of sectors lba zero = []
run_of sectors lba (suc n) = sectors lba ++ run_of sectors (lba + 1) n

abbrev pub has_words : List ℕ → Bool
has_words [] = false
has_words (w ∷ ws) = true

-- Data to be read or a sector to be received.
abbrev pub has_data : Drive → Bool
has_data d = elim d.received [ none ↦ has_words d.to_read | some ws ↦ true ]

-- Not busy, with DRQ on where there is data to move.
abbrev pub IsMoving : Drive → Type 0
IsMoving d = (d.wait ≡ 0) × (d.delay ≡ 0)

module _ {C : Type 0} (inb : C → ℕ → ℕ × C) (outb : C → ℕ → ℕ → C) (inw : C → ℕ → ℕ × C)
    (outw : C → ℕ → ℕ → C) (view : C → Drive) where
  -- A busy controller delivers its status with BSY set, for less polls than the driver makes. When it is
  -- not busy it delivers neither ERR nor DF, and where there is data to move it delivers DRQ, at once
  -- or after less polls than the driver makes. Registers and commands are taken while it is not
  -- busy, and data is moved while it is not busy and DRQ is on. The registers keep what is written to
  -- them. A read command prepares the sectors addressed, the data port delivers them word by word, and
  -- within a sector DRQ stays on. A write command for one sector waits for the words of a sector, of
  -- which the last one stores it. `flush_while_busy` is what ATA leaves open: the driver sends FLUSH
  -- CACHE without waiting for the drive to be ready, and relies on a drive that keeps its sectors then.
  pub record IsDrive : Type 0 where
    pub ready : (c : C) → (view c).wait < poll_rounds
    pub prompt : (c : C) → (view c).delay < poll_rounds
    pub busy :
        (c : C) (n : ℕ)
        → (view c).wait ≡ suc n
        → (is_busy (inb c reg_status).0 ≡ true)
          × (view (inb c reg_status).1 ≡ record (view c) { wait = n })
    pub idle :
        (c : C)
        → (view c).wait ≡ 0
        → (is_busy (inb c reg_status).0 ≡ false)
          × (is_error (inb c reg_status).0 ≡ false)
          × (is_fault (inb c reg_status).0 ≡ false)
          × (wants_data (inb c reg_status).0 ≡ ((view c).delay == 0 && has_data (view c)))
          × (view (inb c reg_status).1 ≡ record (view c) { delay = (view c).delay - 1 })
    pub register :
        (c : C) (port value : ℕ)
        → (view c).wait ≡ 0
        → reg_features ≤ port
        → port ≤ reg_hdsel
        → view (outb c port value) ≡ record (view c) { reg = set_reg (view c).reg port value }
    pub sized : (c : C) (lba : ℕ) → length ((view c).sectors lba) ≡ 256
    pub read_command :
        (c : C)
        → (view c).wait ≡ 0
        → 0 < (view c).reg reg_seccount
        → address (view c).reg + (view c).reg reg_seccount ≤ 2 ^ 28
        → ((view (outb c reg_command cmd_read)).to_read
            ≡ run_of (view c).sectors (address (view c).reg) ((view c).reg reg_seccount))
          × ((view (outb c reg_command cmd_read)).received ≡ none)
          × ((view (outb c reg_command cmd_read)).sectors ≡ (view c).sectors)
    pub read_word :
        (c : C) (w : ℕ) (ws : List ℕ)
        → IsMoving (view c)
        → (view c).to_read ≡ w ∷ ws
        → ((inw c reg_data).0 ≡ w)
          × ((view (inw c reg_data).1).to_read ≡ ws)
          × ((view (inw c reg_data).1).received ≡ (view c).received)
          × ((view (inw c reg_data).1).sectors ≡ (view c).sectors)
    pub read_on :
        (c : C) (w : ℕ) (ws : List ℕ)
        → IsMoving (view c)
        → (view c).to_read ≡ w ∷ ws
        → 0 < length ws % 256
        → IsMoving (view (inw c reg_data).1)
    pub write_command :
        (c : C)
        → (view c).wait ≡ 0
        → (view c).reg reg_seccount ≡ 1
        → ((view (outb c reg_command cmd_write)).received ≡ some [])
          × ((view (outb c reg_command cmd_write)).reg ≡ (view c).reg)
          × ((view (outb c reg_command cmd_write)).sectors ≡ (view c).sectors)
    pub write_word :
        (c : C) (w : ℕ) (ws : List ℕ)
        → IsMoving (view c)
        → (view c).received ≡ some ws
        → length ws < 255
        → ((view (outw c reg_data w)).received ≡ some (ws ++ (w ∷ [])))
          × ((view (outw c reg_data w)).reg ≡ (view c).reg)
          × ((view (outw c reg_data w)).sectors ≡ (view c).sectors)
          × IsMoving (view (outw c reg_data w))
    pub last_word :
        (c : C) (w : ℕ) (ws : List ℕ)
        → IsMoving (view c)
        → (view c).received ≡ some ws
        → length ws ≡ 255
        → (view (outw c reg_data w)).sectors
          ≡ set_sector (view c).sectors (address (view c).reg) (ws ++ (w ∷ []))
    pub flush_while_busy :
        (c : C) → (view (outb c reg_command cmd_flush)).sectors ≡ (view c).sectors
