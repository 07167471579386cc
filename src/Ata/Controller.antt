-- ===== src/Ata/Controller.antt =====
-- A disk controller in memory that behaves as Drive says, for the tests.
use new_attempt.Ata.{
  wants_data, cmd_write, is_fault, reg_seccount, is_error, cmd_read, reg_status, reg_command,
  is_busy, ◌∷◌, List, poll_rounds, ℕ, Bool,
}
use new_attempt.Ata.Drive.{run_of, address, set_reg, has_data, set_sector, Drive, IsDrive}
use new_attempt.Base.{
  ◌&&◌, not, ◌-◌, length-replicate, length-append, refl, inr, take-append_of_length, length-take,
  ◌==◌, inl, arith, if◌then◌else◌, replicate, Bool-cases, ◌<◌, length, take, Option, ==-ne, ◌≡◌,
  suc, some, none, [], ◌++◌, ◌+◌, true, false,
}
use mathlib.Core.Path.{fun_ext}

-- It is busy for one poll after a command, and finds DRQ late by one more.
pub record Controller : Type 0 where
  pub busy : Bool
  pub late : Bool
  pub reg : ℕ → ℕ
  pub to_read : List ℕ
  pub received : Option (List ℕ)
  pub cells : ℕ → List ℕ

-- The 256 words of a sector.
abbrev pub full : (ℕ → List ℕ) → ℕ → List ℕ
full cells lba = take 256 (cells lba ++ replicate 256 0)

abbrev pub view : Controller → Drive
view c = record {
  wait = if c.busy then 1 else 0;
  delay = if c.late then 1 else 0;
  reg = c.reg;
  to_read = c.to_read;
  received = c.received;
  sectors = full c.cells;
}

abbrev pub inb : Controller → ℕ → ℕ × Controller
inb c port =
    let data_bit = if not c.late && has_data (view c) then 0x08 else 0 in
    if c.busy
    then (0x80, record c { busy = false })
    else (0x50 + data_bit, record c { late = false })

abbrev pub command : Controller → ℕ → Controller
command c value =
    if value == cmd_read
    then record c {
      busy = true;
      late = true;
      to_read = run_of (full c.cells) (address c.reg) (c.reg reg_seccount);
      received = none;
    }
    else if value == cmd_write
    then record c { busy = true; late = true; received = some [] }
    else record c { busy = true }

abbrev pub outb : Controller → ℕ → ℕ → Controller
outb c port value =
    if port == reg_command then command c value else record c { reg = set_reg c.reg port value }

abbrev pub inw : Controller → ℕ → ℕ × Controller
inw c port = elim c.to_read [ [] ↦ (0, c) | w ∷ ws ↦ (w, record c { to_read = ws }) ]

abbrev pub outw : Controller → ℕ → ℕ → Controller
outw c port w = elim c.received [
  | none ↦ c
  | some ws ↦
      if length ws == 255
      then record c {
        busy = true;
        received = none;
        cells = set_sector c.cells (address c.reg) (ws ++ (w ∷ []));
      }
      else record c { received = some (ws ++ (w ∷ [])) }
]

full_sized : (cells : ℕ → List ℕ) (lba : ℕ) → length (full cells lba) ≡ 256
full_sized cells lba = omega (
  arith,
  length-take 256 (cells lba ++ replicate 256 0),
  length-append (cells lba) (replicate 256 0),
  length-replicate {A = ℕ} 256 0,
)

full-set_sector :
    (cells : ℕ → List ℕ) (lba : ℕ) (words : List ℕ)
    → length words ≡ 256
    → full (set_sector cells lba words) ≡ set_sector (full cells) lba words
unfolding set_sector
full-set_sector cells lba words size = fun_ext (λ l. elim (Bool-cases (l == lba)) [
  | inl same ↦ rw same (take-append_of_length 256 words _ size)
  | inr other ↦ rw other refl
])

ready : (c : Controller) → (view c).wait < poll_rounds
unfolding poll_rounds
ready c = elim (Bool-cases c.busy) [ inl e ↦ rw e (omega arith) | inr e ↦ rw e (omega arith) ]

is_busy_now : (c : Controller) (n : ℕ) → (view c).wait ≡ suc n → (c.busy ≡ true) × (n ≡ 0)
is_busy_now c n e = elim (Bool-cases c.busy) [
  | inl b ↦ (b, ground arith)
  | inr b ↦ absurd (ground arith)
]

is_idle_now : (c : Controller) → (view c).wait ≡ 0 → c.busy ≡ false
is_idle_now c e = elim (Bool-cases c.busy) [ inl b ↦ absurd (ground arith) | inr b ↦ b ]

idle :
    (c : Controller)
    → (view c).wait ≡ 0
    → (is_busy (inb c reg_status).0 ≡ false)
      × (is_error (inb c reg_status).0 ≡ false)
      × (is_fault (inb c reg_status).0 ≡ false)
      × (wants_data (inb c reg_status).0 ≡ ((view c).delay == 0 && has_data (view c)))
      × (view (inb c reg_status).1 ≡ record (view c) { delay = (view c).delay - 1 })
idle c e = elim (Bool-cases (has_data (view c))) [
  | inl d ↦ elim (Bool-cases c.late) [
    | inl l ↦ rw (is_idle_now c e, d, l) (refl, refl, refl, refl, refl)
    | inr l ↦ rw (is_idle_now c e, d, l) (refl, refl, refl, refl, refl)
  ]
  | inr d ↦ elim (Bool-cases c.late) [
    | inl l ↦ rw (is_idle_now c e, d, l) (refl, refl, refl, refl, refl)
    | inr l ↦ rw (is_idle_now c e, d, l) (refl, refl, refl, refl, refl)
  ]
]

prompt : (c : Controller) → (view c).delay < poll_rounds
unfolding poll_rounds
prompt c = elim (Bool-cases c.late) [ inl e ↦ rw e (omega arith) | inr e ↦ rw e (omega arith) ]

pub behaves : IsDrive inb outb inw outw view
behaves = record {
  ready = ready;
  prompt = prompt;
  sized = λ c lba. full_sized c.cells lba;
  busy = λ c n e. let (b, z) = is_busy_now c n e in rw (b, z) (refl, refl);
  idle = idle;
  register = λ c port value idle lo hi. rw (==-ne port reg_command (omega arith)) refl;
  read_command = λ c idle lo hi. (refl, refl, refl);
  read_word = λ c w ws on e. rw e (refl, refl, refl, refl);
  read_on = λ c w ws on e more. rw e on;
  write_command = λ c idle e. (refl, refl, refl);
  write_word = λ c w ws on e h. rw (e, ==-ne (length ws) 255 (omega arith)) (refl, refl, refl, on);
  last_word = λ c w ws on e h.
      rw (e, h)
        (full-set_sector c.cells (address c.reg) (ws ++ (w ∷ []))
          (omega (arith, length-append ws (w ∷ []))));
  flush_while_busy = λ c. refl;
}

-- A disk whose sectors hold nothing yet.
abbrev pub new_disk : Controller
new_disk = record {
  busy = false;
  late = false;
  reg = λ p. 0;
  to_read = [];
  received = none;
  cells = λ l. [];
}
