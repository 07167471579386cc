-- ===== src/Ata/Write.antt =====
-- The write of adapters/ata.c for one sector, and a read of it, on a controller that behaves as Drive
-- says.
use new_attempt.Ata.{
  cmd_flush, ata_poll_drq, cmd_write, reg_command, ata_setup_lba, ata_poll_bsy, word_at, List,
  write_sectors_loop, ata_write_sectors, write_words, ℕ, reg_data,
}
use new_attempt.Ata.Drive.{IsMoving, address, set_sector, Drive, IsDrive}
use new_attempt.Base.{
  refl, zero, ap, ◌∙◌, length-append, ◌∷◌, arith, ◌^◌, length, ◌<◌, ◌≡◌, suc, some, [], ◌++◌, ◌+◌,
}
use new_attempt.Status.{ok}
use mathlib.Core.List.{append_assoc}
use new_attempt.Ata.Poll.{ata_poll_drq_lem}
use new_attempt.Ata.Words.{words_at}
use new_attempt.Ata.Poll.{ata_setup_lba_lem, ata_poll_bsy_lem}

module _ {C : Type 0} {inb : C → ℕ → ℕ × C} {outb : C → ℕ → ℕ → C} {inw : C → ℕ → ℕ × C}
    {outw : C → ℕ → ℕ → C} {view : C → Drive} (drive : IsDrive inb outb inw outw view) where
  -- The words that are still to come complete the sector.
  write_words_lem :
      (n off : ℕ) (buf ws : List ℕ) (c : C)
      → (view c).received ≡ some ws
      → length ws + suc n ≡ 256
      → IsMoving (view c)
      → (view (write_words inb outb inw outw (suc n) off buf c)).sectors
        ≡ set_sector (view c).sectors (address (view c).reg) (ws ++ words_at buf off (suc n))
  unfolding write_words words_at
  write_words_lem zero off buf ws c e h on =
      drive.last_word c (word_at buf off) ws on e (omega arith)
  write_words_lem (suc n) off buf ws c e h on =
      let (received, reg_same, same, still) =
        drive.write_word c (word_at buf off) ws on e (omega arith) in
      write_words_lem n (off + 2) buf (ws ++ (word_at buf off ∷ []))
        (outw c reg_data (word_at buf off)) received
        (omega (arith, length-append ws (word_at buf off ∷ []))) still
      ∙ rw (reg_same, same)
          (ap (set_sector (view c).sectors (address (view c).reg))
            (append_assoc ws (word_at buf off ∷ []) (words_at buf (off + 2) (suc n))))

  pub ata_write_sectors_lem :
      (lba : ℕ) (buf : List ℕ) (c : C)
      → lba < 2 ^ 28
      → ((ata_write_sectors inb outb inw outw lba 1 buf c).0 ≡ ok)
        × ((view (ata_write_sectors inb outb inw outw lba 1 buf c).1).sectors
            ≡ set_sector (view c).sectors lba (words_at buf 0 256))
  unfolding ata_write_sectors write_sectors_loop
  ata_write_sectors_lem lba buf c h =
      let (bsy_ok, d0, bsy) = ata_poll_bsy_lem drive c in
      let c1 = (ata_poll_bsy inb outb inw outw c).1 in
      let (addressed, counted, same, idle) =
        ata_setup_lba_lem drive lba 1 c1 h (ap (λ (d : Drive). d.wait) bsy) in
      let c2 = ata_setup_lba inb outb inw outw lba 1 c1 in
      let (received, reg_kept, kept) = drive.write_command c2 idle counted in
      let c3 = outb c2 reg_command cmd_write in
      let (bsy1_ok, d1, bsy1) = ata_poll_bsy_lem drive c3 in
      let c4 = (ata_poll_bsy inb outb inw outw c3).1 in
      let waits = ap (λ (d : Drive). d.received) bsy1 ∙ received in
      let (drq_ok, drq) =
        ata_poll_drq_lem drive c4 (ap (λ (d : Drive). d.wait) bsy1) (rw waits refl) in
      let c5 = (ata_poll_drq inb outb inw outw c4).1 in
      let stored =
        write_words_lem 255 0 buf [] c5 (ap (λ (d : Drive). d.received) drq ∙ waits) refl (
          ap (λ (d : Drive). d.wait) drq ∙ ap (λ (d : Drive). d.wait) bsy1,
          ap (λ (d : Drive). d.delay) drq,
        ) in
      let c6 = write_words inb outb inw outw 256 0 buf c5 in
      let (bsy2_ok, d2, bsy2) = ata_poll_bsy_lem drive (outb c6 reg_command cmd_flush) in
      let reg_same : (view c5).reg ≡ (view c2).reg =
        ap (λ (d : Drive). d.reg) drq ∙ ap (λ (d : Drive). d.reg) bsy1 ∙ reg_kept in
      let sectors_same : (view c5).sectors ≡ (view c).sectors =
        ap (λ (d : Drive). d.sectors) drq
        ∙ ap (λ (d : Drive). d.sectors) bsy1
        ∙ kept
        ∙ same
        ∙ ap (λ (d : Drive). d.sectors) bsy in
      rw (bsy_ok, bsy1_ok, drq_ok, bsy2_ok)
        (
          refl,
          ap (λ (d : Drive). d.sectors) bsy2
              ∙ drive.flush_while_busy c6
              ∙ stored
              ∙ rw (reg_same, sectors_same, addressed) refl,
        )
