-- ===== src/Ata/Poll.antt =====
-- The polling loops and the register set-up of adapters/ata.c on a controller that behaves as Drive says.
use new_attempt.Ata.{
  reg_hdsel, reg_features, reg_lba0, reg_lba1, reg_lba2, reg_seccount, true, poll_rounds,
  ata_setup_lba, ata_poll_drq, drq_loop, ata_poll_bsy, bsy_loop, ℕ, reg_status,
}
use new_attempt.Ata.Drive.{set_reg, has_data, address, Drive, IsDrive}
use new_attempt.Base.{
  false, ◌==◌, ◌-◌, ◌≤◌, refl, zero, ◌+◌, ◌%◌, ◌/◌, ap, ◌^◌, ◌∙◌, arith, ◌<◌, ◌≡◌, suc,
}
use new_attempt.Status.{ok}

module _ {C : Type 0} {inb : C → ℕ → ℕ × C} {outb : C → ℕ → ℕ → C} {inw : C → ℕ → ℕ × C}
    {outw : C → ℕ → ℕ → C} {view : C → Drive} (drive : IsDrive inb outb inw outw view) where
  bsy_loop_lem :
      (n k : ℕ) (c : C)
      → (view c).wait ≡ k
      → k < n
      → ((bsy_loop inb outb inw outw n c).0 ≡ ok)
        × (d : ℕ) × (view (bsy_loop inb outb inw outw n c).1
            ≡ record (view c) { wait = 0; delay = d })
  unfolding bsy_loop
  bsy_loop_lem zero k c e h = absurd (omega arith)
  bsy_loop_lem (suc n) zero c e h =
      let (free, _, _, _, same) = drive.idle c e in
      let d = (view c).delay - 1 in
      rw free (refl, d, same ∙ ap (λ (w : ℕ). record (view c) { wait = w; delay = d }) e)
  bsy_loop_lem (suc n) (suc k) c e h =
      let (taken, seen) = drive.busy c k e in
      let (done, d, left) =
        bsy_loop_lem n k (inb c reg_status).1 (ap (λ (x : Drive). x.wait) seen) (omega arith) in
      rw taken (done, d, left ∙ ap (λ (x : Drive). record x { wait = 0; delay = d }) seen)

  -- `ata_poll_bsy` ends with success, on a controller that is no longer busy.
  pub ata_poll_bsy_lem :
      (c : C)
      → ((ata_poll_bsy inb outb inw outw c).0 ≡ ok)
        × (d : ℕ) × (view (ata_poll_bsy inb outb inw outw c).1
            ≡ record (view c) { wait = 0; delay = d })
  unfolding ata_poll_bsy
  ata_poll_bsy_lem c = bsy_loop_lem poll_rounds (view c).wait c refl (drive.ready c)

  drq_loop_lem :
      (n k : ℕ) (c : C)
      → (view c).delay ≡ k
      → k < n
      → (view c).wait ≡ 0
      → has_data (view c) ≡ true
      → ((drq_loop inb outb inw outw n c).0 ≡ ok)
        × (view (drq_loop inb outb inw outw n c).1 ≡ record (view c) { delay = 0 })
  unfolding drq_loop
  drq_loop_lem zero k c l h e more = absurd (omega arith)
  drq_loop_lem (suc n) zero c l h e more =
      let (free, no_err, no_fault, drq, same) = drive.idle c e in
      rw (no_err, no_fault, drq, l, more)
        (refl, same ∙ ap (λ (d : ℕ). record (view c) { delay = d - 1 }) l)
  drq_loop_lem (suc n) (suc k) c l h e more =
      let (free, no_err, no_fault, drq, same) = drive.idle c e in
      let later : ((view c).delay == 0) ≡ false = ground arith in
      let (done, left) =
        drq_loop_lem n k (inb c reg_status).1 (ap (λ (x : Drive). x.delay) same ∙ omega arith)
          (omega arith) (ap (λ (x : Drive). x.wait) same ∙ e) (ap has_data same ∙ more) in
      rw (no_err, no_fault, drq, later)
        (done, left ∙ ap (λ (x : Drive). record x { delay = 0 }) same)

  -- `ata_poll_drq` ends with success where there is data to move, and DRQ is on.
  pub ata_poll_drq_lem :
      (c : C)
      → (view c).wait ≡ 0
      → has_data (view c) ≡ true
      → ((ata_poll_drq inb outb inw outw c).0 ≡ ok)
        × (view (ata_poll_drq inb outb inw outw c).1 ≡ record (view c) { delay = 0 })
  unfolding ata_poll_drq
  ata_poll_drq_lem c e more = drq_loop_lem poll_rounds (view c).delay c refl (drive.prompt c) e more

  -- One register written.
  register_lem :
      (c : C) (port value : ℕ)
      → reg_features ≤ port
      → port ≤ reg_hdsel
      → (view c).wait ≡ 0
      → (view (outb c port value) ≡ record (view c) { reg = set_reg (view c).reg port value })
        × ((view (outb c port value)).wait ≡ 0)
  register_lem c port value lo hi e =
      let same = drive.register c port value e lo hi in (same, ap (λ (x : Drive). x.wait) same ∙ e)

  -- The registers after `ata_setup_lba` address the sector and hold the count.
  pub ata_setup_lba_lem :
      (lba count : ℕ) (c : C)
      → lba < 2 ^ 28
      → (view c).wait ≡ 0
      → (address (view (ata_setup_lba inb outb inw outw lba count c)).reg ≡ lba)
        × ((view (ata_setup_lba inb outb inw outw lba count c)).reg reg_seccount ≡ count)
        × ((view (ata_setup_lba inb outb inw outw lba count c)).sectors ≡ (view c).sectors)
        × ((view (ata_setup_lba inb outb inw outw lba count c)).wait ≡ 0)
  unfolding ata_setup_lba address set_reg
  ata_setup_lba_lem lba count c h e =
      let head = 0xE0 + lba / 2 ^ 24 % 0x10 in
      let (s1, e1) = register_lem c reg_hdsel head (omega arith) (omega arith) e in
      let (s2, e2) = register_lem _ reg_features 0x00 (omega arith) (omega arith) e1 in
      let (s3, e3) = register_lem _ reg_seccount count (omega arith) (omega arith) e2 in
      let (s4, e4) = register_lem _ reg_lba0 (lba % 0x100) (omega arith) (omega arith) e3 in
      let (s5, e5) = register_lem _ reg_lba1 (lba / 2 ^ 8 % 0x100) (omega arith) (omega arith) e4 in
      let (s6, e6) =
        register_lem _ reg_lba2 (lba / 2 ^ 16 % 0x100) (omega arith) (omega arith) e5 in
      rw (s6, s5, s4, s3, s2, s1) (omega arith, refl, refl, e)
